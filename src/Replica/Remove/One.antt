-- ===== src/Replica/Remove/One.antt =====
-- What `removeOneInstance` does to a host (controllers/scheduler/replica.go).
use snk_fork_dolphin.Base.{
  ◌≡◌, refl, arith, true, false, not, [], ◌∷◌, Option, none, some, if◌then◌else◌, is_empty,
}
use snk_fork_dolphin.Base.Int.{ℤ, pos, ltb_ℤ, leb_ℤ, ◌-ℤ◌}
use snk_fork_dolphin.Base.Text.{Text, text_eq, text_eq_iff}
use snk_fork_dolphin.Base.Table.{Table, lookup, insert, delete, lookup-insert, lookup-delete}
use snk_fork_dolphin.HostConfig.{Store, HcManager, key_map, get_host_config}
use snk_fork_dolphin.HostConfig.Tables.{key_map-set_self, key_map-delete_self}
use snk_fork_dolphin.Types.Deploy.{DeploySpec}
use snk_fork_dolphin.Replica.{entries}
use snk_fork_dolphin.Replica.Remove.{remove_one_instance, decremented}

pub is_empty_of_lookup :
    {V : Type 0} (k : Text) (t : Table V) {v : V} → lookup k t ≡ some v → is_empty t ≡ false
unfolding lookup
is_empty_of_lookup k [] e = cc
is_empty_of_lookup k (x ∷ t) e = refl

-- What is left of a specification that holds `v` instances of the version.
abbrev pub one_removed : Text → ℤ → DeploySpec → Option DeploySpec
one_removed ver v spec =
    if ltb_ℤ (pos 1) v
    then some spec
    else if is_empty (delete ver (entries spec))
    then none
    else some (record { info = some (delete ver (entries spec)) })

decremented_test : (v : ℤ) → leb_ℤ (v -ℤ pos 1) (pos 0) ≡ not (ltb_ℤ (pos 1) v)
unfolding ◌-ℤ◌
decremented_test v = ground arith

-- The specification with `info` for its map.
abbrev pub with_info : Table ℤ → DeploySpec
with_info info = record { info = some info }

with_info-entries :
    (ver : Text) (spec : DeploySpec) {v : ℤ}
    → lookup ver (entries spec) ≡ some v
    → with_info (entries spec) ≡ spec
unfolding lookup
with_info-entries ver spec e = ground arith

-- The map of the key after `removeOneInstance`.
abbrev pub after_removal : Text → Text → ℤ → DeploySpec → Table DeploySpec → Table DeploySpec
after_removal ver h v spec t =
    let info = decremented ver v (entries spec) in
    if is_empty info then delete h t else insert h (with_info info) t

module _ (ver h : Text) (v : ℤ) (spec : DeploySpec) (t : Table DeploySpec) where
  pub after_removal_many :
      ltb_ℤ (pos 1) v ≡ true
      → lookup ver (entries spec) ≡ some v
      → after_removal ver h v spec t ≡ insert h spec t
  unfolding decremented
  after_removal_many many e = ground (
    arith,
    decremented_test v,
    with_info-entries ver spec e,
    is_empty_of_lookup ver (entries spec) e,
  )

  pub after_removal_last :
      ltb_ℤ (pos 1) v ≡ false
      → is_empty (delete ver (entries spec)) ≡ true
      → after_removal ver h v spec t ≡ delete h t
  unfolding decremented
  after_removal_last one e = ground (arith, decremented_test v)

  pub after_removal_few :
      ltb_ℤ (pos 1) v ≡ false
      → is_empty (delete ver (entries spec)) ≡ false
      → after_removal ver h v spec t ≡ insert h (with_info (delete ver (entries spec))) t
  unfolding decremented
  after_removal_few one e = ground (arith, decremented_test v)

module _ (D : Store) (key ver h : Text) (m : HcManager D) {spec : DeploySpec} where
  pub get_of_lookup : lookup h (key_map D key m) ≡ some spec → get_host_config D key h m ≡ some spec
  unfolding get_host_config
  get_of_lookup e = ground (arith, is_empty_of_lookup h (key_map D key m) e)

  pub key_map-remove_one_instance :
      (v : ℤ)
      → lookup h (key_map D key m) ≡ some spec
      → lookup ver (entries spec) ≡ some v
      → key_map D key (remove_one_instance D key ver h m).0
        ≡ after_removal ver h v spec (key_map D key m)
  unfolding remove_one_instance
  key_map-remove_one_instance v e ev = ground (
    arith,
    get_of_lookup e,
    key_map-delete_self D key h m,
    key_map-set_self D key h (with_info (decremented ver v (entries spec))) m,
  )

  -- `removeOneInstance` at a host that has `v` instances of the version takes the version away if
  -- `v` is at most 1, and the host with it if nothing else is there; if `v` is more than 1 it
  -- changes nothing. The other hosts of the key are as before.
  pub lookup-remove_one_instance :
      (j : Text) (v : ℤ)
      → lookup h (key_map D key m) ≡ some spec
      → lookup ver (entries spec) ≡ some v
      → lookup j (key_map D key (remove_one_instance D key ver h m).0)
        ≡ (if text_eq h j then one_removed ver v spec else lookup j (key_map D key m))
  unfolding decremented
  lookup-remove_one_instance j v e ev = ground (
    arith,
    key_map-remove_one_instance v e ev,
    decremented_test v,
    with_info-entries ver spec ev,
    is_empty_of_lookup ver (entries spec) ev,
    lookup-delete h j (key_map D key m),
    lookup-insert h j (with_info (decremented ver v (entries spec))) (key_map D key m),
    text_eq_iff h j,
  )
