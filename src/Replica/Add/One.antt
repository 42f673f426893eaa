-- ===== src/Replica/Add/One.antt =====
-- What `addOneInstance` does to the counts, and where it panics (controllers/scheduler/replica.go).
use snk_fork_dolphin.Base.{◌≡◌, ◌∙◌, arith, none, some, Bool-cases, inl, inr}
use snk_fork_dolphin.Base.Int.{ℤ, pos, ◌+ℤ◌, int_laws, parts_of_eq}
use snk_fork_dolphin.Base.Outcome.{done, panicked}
use snk_fork_dolphin.Base.Text.{Text, text_eq}
use snk_fork_dolphin.Base.Table.{Table, lookup, lookup-insert}
use snk_fork_dolphin.Base.Total.{total, total-insert-some}
use snk_fork_dolphin.HostConfig.{Store, HcManager, key_map, get_host_config, set_host_config}
use snk_fork_dolphin.HostConfig.Tables.{key_map-set_self}
use snk_fork_dolphin.Types.Deploy.{DeploySpec}
use snk_fork_dolphin.Types.Fault.{Errors}
use snk_fork_dolphin.Replica.Stat.{expected_of, unexpected_of, IsProper, insert-IsProper}
use snk_fork_dolphin.Replica.Remove.One.{get_of_lookup}
use snk_fork_dolphin.Replica.Update.Move.{bumped, bumped_counts, bumped-IsDistinct}
use snk_fork_dolphin.Replica.Add.{add_one_instance}

-- The host has a specification whose map is not nil.
abbrev pub IsConfigured : Table DeploySpec → Text → Type 0
IsConfigured t h = (info : Table ℤ) × (lookup h t ≡ some (record { info = some info }))

module _ (D : Store) (key expect : Text) where
  -- `addOneInstance` panics on every host that has no configuration for the key.
  pub add_one_instance-unknown :
      (h : Text) (m : HcManager D)
      → lookup h (key_map D key m) ≡ none
      → add_one_instance D key expect h m ≡ panicked
  unfolding add_one_instance get_host_config
  add_one_instance-unknown h m absent = ground arith

  pub add_one_instance-known :
      (h : Text) (m : HcManager D) (info : Table ℤ)
      → lookup h (key_map D key m) ≡ some (record { info = some info })
      → add_one_instance D key expect h m
        ≡ done (set_host_config D key h (record { info = some (bumped expect info) }) m)
  unfolding add_one_instance bumped
  add_one_instance-known h m info e = ground (arith, get_of_lookup D key expect h m e)

  -- The table with one instance more on one host.
  abbrev pub added : Text → Table ℤ → HcManager D → HcManager D × Errors
  added h info m = set_host_config D key h (record { info = some (bumped expect info) }) m

  pub added-IsProper :
      (h : Text) (info : Table ℤ) (m : HcManager D)
      → IsProper (key_map D key m)
      → lookup h (key_map D key m) ≡ some (record { info = some info })
      → IsProper (key_map D key (added h info m).0)
  added-IsProper h info m p e = rw key_map-set_self (
      insert-IsProper h (bumped expect info) (key_map D key m)
        (bumped-IsDistinct expect info (p.versions h _ e)) p)

  pub added_counts :
      (h : Text) (info : Table ℤ) (m : HcManager D)
      → IsProper (key_map D key m)
      → lookup h (key_map D key m) ≡ some (record { info = some info })
      → (total (expected_of expect) (key_map D key (added h info m).0)
          ≡ total (expected_of expect) (key_map D key m) +ℤ pos 1)
        × (total (unexpected_of expect) (key_map D key (added h info m).0)
            ≡ total (unexpected_of expect) (key_map D key m))
  added_counts h info m p e =
      let t = key_map D key m in
      let spec : DeploySpec = record { info = some (bumped expect info) } in
      let counts = bumped_counts expect info (p.versions h _ e) in
      (
        rw key_map-set_self (
            omega (
              int_laws,
              parts_of_eq (total-insert-some (expected_of expect) h spec t e),
              parts_of_eq counts.0,
            )),
        rw key_map-set_self (
            omega (
              int_laws,
              parts_of_eq (total-insert-some (unexpected_of expect) h spec t e),
              parts_of_eq counts.1,
            )),
      )

  pub added-IsConfigured :
      (h i : Text) (info : Table ℤ) (m : HcManager D)
      → IsConfigured (key_map D key m) i
      → IsConfigured (key_map D key (added h info m).0) i
  added-IsConfigured h i info m (old, e) =
      let spec : DeploySpec = record { info = some (bumped expect info) } in
      rw key_map-set_self (elim (Bool-cases (text_eq h i)) [
        | inl same ↦ (bumped expect info, lookup-insert h i spec (key_map D key m) ∙ rw same)
        | inr other ↦ (old, lookup-insert h i spec (key_map D key m) ∙ rw other e)
      ])
