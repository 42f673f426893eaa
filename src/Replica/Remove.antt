-- ===== src/Replica/Remove.antt =====
-- `removeOneInstance` and `removeExpectInstances` of controllers/scheduler/replica.go.
pub mod One
pub mod Counted
pub mod Ends
use snk_fork_dolphin.Base.{
  ℕ, zero, suc, ◌+◌, Bool, true, false, List, [], ◌∷◌, Option, none, some, if◌then◌else◌, is_empty,
}
use snk_fork_dolphin.Base.Int.{ℤ, pos, ◌-ℤ◌, ltb_ℤ, leb_ℤ}
use snk_fork_dolphin.Base.Text.{Text}
use snk_fork_dolphin.Base.Table.{Table, lookup, delete}
use snk_fork_dolphin.HostConfig.{
  Store, HcManager, get_host_config, list_host_configs, set_host_config, delete_host_configs,
}
use snk_fork_dolphin.Types.Deploy.{DeploySpec}
use snk_fork_dolphin.Types.Fault.{Errors, cancelled}
use snk_fork_dolphin.Replica.{entries}

-- `spec.Info` after the decrement in `removeOneInstance`: the version is deleted when its count
-- falls to 0, and the lower count is not written back otherwise.
unfoldable pub decremented : Text → ℤ → Table ℤ → Table ℤ
decremented ver v info = if leb_ℤ (v -ℤ pos 1) (pos 0) then delete ver info else info

-- How one pass over the hosts ends: the function returns, or the loop goes on with the number
-- left and the next wait.
pub data Pass (M : Type 0) : Type 0 where
  returns : M → ℤ → Errors → Pass M
  goes_on : M → ℤ → ℕ → Pass M

module _ (D : Store) where
  -- `removeOneInstance`
  unfoldable pub remove_one_instance : Text → Text → Text → HcManager D → HcManager D × Errors
  unfolding decremented
  remove_one_instance key ver host_id m =
      let removed : Table ℤ → ℤ → HcManager D × Errors = λ info v.
        let info' = decremented ver v info in
        if is_empty info'
        then delete_host_configs D key (host_id ∷ []) m
        else set_host_config D key host_id (record { info = some info' }) m in
      elim (get_host_config D key host_id m) [
        | none ↦ (m, [])
        | some spec ↦ elim (lookup ver (entries spec)) [
          | none ↦ (m, [])
          | some v ↦ removed (entries spec) v
        ]
      ]

  module _ (key expect : Text) (ended : ℕ → Bool) (count : ℤ) where
    -- What follows one removal: the error, the decrement, and the wait; `next` is the rest of the
    -- pass.
    unfoldable pub after_one :
        HcManager D → Errors → ℤ → Bool → Pass (HcManager D) → Pass (HcManager D)
    after_one m' (e ∷ es) num stop next = returns m' (count -ℤ num) (e ∷ es)
    after_one m' [] num stop next =
        let num' = num -ℤ pos 1 in
        if ltb_ℤ num' (pos 0)
        then returns m' count []
        else if stop
        then returns m' (count -ℤ num') (cancelled ∷ [])
        else next

    -- The loop over the hosts of one pass of `removeExpectInstances`. The loop over the versions of
    -- a host acts once at most, at the expected version.
    unfoldable pub remove_pass : Table DeploySpec → ℤ → ℕ → HcManager D → Pass (HcManager D)
    remove_pass [] num wait m = goes_on m num wait
    remove_pass ((h, cfg) ∷ hc) num wait m =
        let (m', errors) = remove_one_instance key expect h m in
        let skip = remove_pass hc num wait m in
        let next = remove_pass hc (num -ℤ pos 1) (wait + 1) m' in
        elim (lookup expect (entries cfg)) [
          | none ↦ skip
          | some v ↦ after_one m' errors num (ended wait) next
        ]

    -- The loop `for num > 0` on fuel; `none` means that the fuel ran out.
    unfoldable pub remove_loop : ℕ → ℤ → ℕ → HcManager D → Option (HcManager D × ℤ × Errors)
    remove_loop zero num wait m = none
    remove_loop (suc fuel) num wait m =
        if ltb_ℤ (pos 0) num
        then elim (remove_pass (list_host_configs D key m) num wait m) [
          | returns m' n errors ↦ some (m', n, errors)
          | goes_on m' num' wait' ↦ remove_loop fuel num' wait' m'
        ]
        else some (m, count, [])

  -- `removeExpectInstances`
  unfoldable pub remove_expect_instances :
      Text → Text → (ℕ → Bool) → ℕ → ℤ → HcManager D → Option (HcManager D × ℤ × Errors)
  remove_expect_instances key expect ended fuel num m =
      remove_loop key expect ended num fuel num 0 m
