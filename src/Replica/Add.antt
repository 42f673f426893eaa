-- ===== src/Replica/Add.antt =====
-- `addOneInstance` and `addInstances` of controllers/scheduler/replica.go.
pub mod One
pub mod Counts
use snk_fork_dolphin.Base.{
  ℕ, zero, suc, ◌+◌, ◌++◌, Bool, true, false, List, [], ◌∷◌, Option, none, some, if◌then◌else◌,
}
use snk_fork_dolphin.Base.Int.{ℤ, pos, ◌+ℤ◌, ◌-ℤ◌, ltb_ℤ}
use snk_fork_dolphin.Base.Outcome.{Outcome, done, panicked}
use snk_fork_dolphin.Base.Text.{Text}
use snk_fork_dolphin.Base.Table.{Table, insert}
use snk_fork_dolphin.HostConfig.{Store, HcManager, get_host_config, set_host_config, no_spec}
use snk_fork_dolphin.Types.Deploy.{DeploySpec}
use snk_fork_dolphin.Types.Fault.{Errors, cancelled}
use snk_fork_dolphin.Replica.Update.{count_at}

module _ (D : Store) where
  -- `addOneInstance`: a write into the nil map of a specification panics.
  unfoldable pub add_one_instance :
      Text → Text → Text → HcManager D → Outcome (HcManager D × Errors)
  add_one_instance key expect host_id m =
      let spec : DeploySpec = elim (get_host_config D key host_id m) [
        | none ↦ no_spec
        | some s ↦ s
      ] in
      let write : Table ℤ → HcManager D × Errors = λ info.
        let info' = insert expect (count_at expect info +ℤ pos 1) info in
        set_host_config D key host_id (record { info = some info' }) m in
      elim spec.info [ none ↦ panicked | some info ↦ done (write info) ]

  -- The scheduler is a state `S` and the call `NextHost` on it, which gives a host and an error.
  module _ {S : Type 0} (next_host : S → S × Text × Errors) (key expect : Text)
      (ended : ℕ → Bool) where
    -- The loop `for num > 0` on fuel; `none` means that the fuel ran out.
    unfoldable pub add_loop :
        ℕ → ℤ → ℕ → Errors → S → HcManager D → Option (Outcome (HcManager D × S × Errors))
    add_loop zero num wait merr s m = none
    add_loop (suc fuel) num wait merr s m =
        let (s', h, errors) = next_host s in
        let again = add_loop fuel num (wait + 1) (merr ++ errors) s' m in
        let added : Option (Outcome (HcManager D × S × Errors)) =
          elim (add_one_instance key expect h m) [
            | panicked ↦ some panicked
            | done r ↦ add_loop fuel (num -ℤ pos 1) (wait + 1) (merr ++ r.1) s' r.0
          ] in
        let round : Option (Outcome (HcManager D × S × Errors)) = elim errors [
          | [] ↦ added
          | e ∷ es ↦ again
        ] in
        if ltb_ℤ (pos 0) num
        then if ended wait then some (done (m, s, merr ++ cancelled ∷ [])) else round
        else some (done (m, s, merr))

    -- `addInstances`
    unfoldable pub add_instances :
        ℕ → ℤ → S → HcManager D → Option (Outcome (HcManager D × S × Errors))
    add_instances fuel num s m = add_loop fuel num 0 [] s m
