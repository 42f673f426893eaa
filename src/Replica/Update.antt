-- ===== src/Replica/Update.antt =====
-- `updateInstances` and `updateOneInstance` of controllers/scheduler/replica.go.
pub mod Move
pub mod Loop
pub mod Counts
use snk_fork_dolphin.Base.{
  ℕ, zero, suc, ◌+◌, ◌++◌, Bool, true, false, ◌&&◌, ◌||◌, List, [], ◌∷◌, Option, none, some,
  if◌then◌else◌, is_empty, length, ◌==◌,
}
use snk_fork_dolphin.Base.Int.{ℤ, pos, ◌+ℤ◌, ◌-ℤ◌, ltb_ℤ, leb_ℤ, eqb_ℤ}
use snk_fork_dolphin.Base.Outcome.{Outcome, done, panicked}
use snk_fork_dolphin.Base.Text.{Text, text_eq}
use snk_fork_dolphin.Base.Table.{Table, lookup, insert, delete}
use snk_fork_dolphin.HostConfig.{
  Store, HcManager, get_host_config, list_host_configs, set_host_config,
}
use snk_fork_dolphin.Types.Deploy.{DeploySpec}
use snk_fork_dolphin.Types.Fault.{Errors, cancelled}
use snk_fork_dolphin.Replica.{entries, hc_stat}

-- `cfg.Info[k]`: 0 where the version is not there.
abbrev pub count_at : Text → Table ℤ → ℤ
count_at k info = elim (lookup k info) [ none ↦ pos 0 | some n ↦ n ]

abbrev pub is_some {ℓ} : {A : Type ℓ} → Option A → Bool
is_some none = false
is_some (some _) = true

-- The guard at the head of the loop body: nothing but the expected version, or nothing at all.
unfoldable pub up_to_date : Text → Table ℤ → Bool
up_to_date expect info = (length info == 1 && is_some (lookup expect info)) || length info == 0

-- The first version in the loop over `cfg.Info` that is not the expected one.
unfoldable pub find_other : Text → Table ℤ → Option (Text × ℤ)
find_other expect [] = none
find_other expect ((ver, n) ∷ info) =
    if text_eq ver expect then find_other expect info else some (ver, n)

-- `cfg.Info` after one instance of `ver`, of which there are `n`, is exchanged.
unfoldable pub exchanged : Text → Text → ℤ → Table ℤ → Table ℤ
exchanged expect ver n info =
    let info' = insert expect (count_at expect info +ℤ pos 1) info in
    if eqb_ℤ (n -ℤ pos 1) (pos 0) then delete ver info' else insert ver (n -ℤ pos 1) info'

module _ (D : Store) where
  module _ (key expect : Text) (ended : ℕ → Bool) (num : ℤ) where
    -- The loop over the hosts: `count` exchanges and the errors so far, and the next wait.
    unfoldable pub update_hosts :
        Table DeploySpec → ℤ → Errors → ℕ → HcManager D → HcManager D × ℤ × Errors
    unfolding up_to_date find_other exchanged
    update_hosts [] count merr wait m = (m, count, merr)
    update_hosts ((h, cfg) ∷ hc) count merr wait m =
        let skip = update_hosts hc count merr wait m in
        let exchange : Text → ℤ → HcManager D × ℤ × Errors = λ ver n.
          let info = exchanged expect ver n (entries cfg) in
          let (m', errors) = set_host_config D key h (record { info = some info }) m in
          let next = update_hosts hc (count +ℤ pos 1) (merr ++ errors) (wait + 1) m' in
          if ended wait then (m', count +ℤ pos 1, merr ++ (errors ++ cancelled ∷ [])) else next in
        if up_to_date expect (entries cfg) then skip else elim (find_other expect (entries cfg)) [
          | none ↦ skip
          | some (ver, n) ↦ if leb_ℤ num count then (m, num, []) else exchange ver n
        ]

  -- `updateInstances`: the number that it returns, and the error.
  unfoldable pub update_instances :
      Text → Text → (ℕ → Bool) → ℤ → HcManager D → HcManager D × ℤ × Errors
  update_instances key expect ended num m =
      let hc = list_host_configs D key m in
      let num_unexp = (hc_stat expect hc).1 in
      let num' = if ltb_ℤ num_unexp num then num_unexp else num in
      if leb_ℤ num (pos 0)
      then (m, pos 0, [])
      else update_hosts key expect ended num' hc (pos 0) [] 0 m

  -- `updateOneInstance`: the lower count is not written back.
  unfoldable pub update_one_instance :
      Text → Text → Text → Text → HcManager D → HcManager D × Errors
  update_one_instance key expect host_id old_ver m =
      let updated : Table ℤ → ℤ → HcManager D × Errors = λ info v.
        let info' = if leb_ℤ (v -ℤ pos 1) (pos 0) then delete old_ver info else info in
        let info'' = insert expect (count_at expect info' +ℤ pos 1) info' in
        set_host_config D key host_id (record { info = some info'' }) m in
      if text_eq expect old_ver then (m, []) else elim (get_host_config D key host_id m) [
        | none ↦ (m, [])
        | some spec ↦ elim (lookup old_ver (entries spec)) [
          | none ↦ (m, [])
          | some v ↦ updated (entries spec) v
        ]
      ]
