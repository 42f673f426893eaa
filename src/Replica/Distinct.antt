-- ===== src/Replica/Distinct.antt =====
-- The loops of controllers/scheduler/replica.go and hosts standing once in a map.
use snk_fork_dolphin.Base.{
  ℕ, zero, suc, ◌+◌, ◌≡◌, ◌≢◌, arith, ◌++◌, Bool, true, false, [], ◌∷◌, Option, none, some,
  if◌then◌else◌, Bool-cases, Option-cases, inl, inr, List-cases,
}
use snk_fork_dolphin.Base.Int.{ℤ, pos, ◌+ℤ◌, ◌-ℤ◌, ltb_ℤ, leb_ℤ}
use snk_fork_dolphin.Base.Outcome.{Outcome, done, panicked, Outcome-cases}
use snk_fork_dolphin.Base.Text.{Text}
use snk_fork_dolphin.Base.Table.{Table, lookup}
use snk_fork_dolphin.Base.Total.{IsDistinct, insert-IsDistinct, delete-IsDistinct}
use snk_fork_dolphin.HostConfig.{Store, HcManager, key_map, set_host_config, delete_host_configs}
use snk_fork_dolphin.HostConfig.Tables.{key_map-set_self, key_map-delete_self}
use snk_fork_dolphin.Types.Deploy.{DeploySpec}
use snk_fork_dolphin.Types.Fault.{Errors, cancelled}
use snk_fork_dolphin.Replica.{entries, hc_stat}
use snk_fork_dolphin.HostConfig.{list_host_configs}
use snk_fork_dolphin.Replica.Add.{add_one_instance, add_loop, add_instances}
use snk_fork_dolphin.Replica.Remove.{
  Pass, returns, goes_on, after_one, remove_one_instance, remove_pass, remove_loop,
  remove_expect_instances,
}
use snk_fork_dolphin.Replica.Remove.Ends.{remove_pass-absent, remove_pass-present}
use snk_fork_dolphin.Replica.Update.{find_other, up_to_date, update_hosts, update_instances}
use snk_fork_dolphin.Replica.Update.Loop.{exchange, update_hosts-skip, update_hosts-act}
pub mod Removing
pub mod Adding

module _ (D : Store) (key expect : Text) where
  abbrev pub Distinct : HcManager D → Type 0
  Distinct m = IsDistinct (key_map D key m)

  pub set-Distinct :
      (h : Text) (cfg : DeploySpec) (m : HcManager D)
      → Distinct m
      → Distinct (set_host_config D key h cfg m).0
  set-Distinct h cfg m d = rw key_map-set_self (insert-IsDistinct h cfg (key_map D key m) d)

  pub delete-Distinct :
      (h : Text) (m : HcManager D) → Distinct m → Distinct (delete_host_configs D key (h ∷ []) m).0
  delete-Distinct h m d = rw key_map-delete_self (delete-IsDistinct h (key_map D key m) d)

  pub remove_one_instance-Distinct :
      (h : Text) (m : HcManager D) → Distinct m → Distinct (remove_one_instance D key expect h m).0
  unfolding remove_one_instance
  remove_one_instance-Distinct h m d = grind (arith, set-Distinct, delete-Distinct)

  pub add_one_instance-Distinct :
      (h : Text) (m : HcManager D) (r : HcManager D × Errors)
      → add_one_instance D key expect h m ≡ done r
      → Distinct m
      → Distinct r.0
  unfolding add_one_instance
  add_one_instance-Distinct h m r e d = grind (arith, set-Distinct)

  module _ (ended : ℕ → Bool) (num : ℤ) where
    update_hosts-Distinct :
        (hc : Table DeploySpec) (count : ℤ) (merr : Errors) (wait : ℕ) (m : HcManager D)
        → Distinct m
        → Distinct (update_hosts D key expect ended num hc count merr wait m).0
    update_hosts-Distinct [] count merr wait m d = unfold update_hosts in d
    update_hosts-Distinct ((h, cfg) ∷ hc) count merr wait m d =
        let skipped = update_hosts-Distinct hc count merr wait m d in
        elim (Bool-cases (up_to_date expect (entries cfg))) [
          | inl fresh ↦
              rw (update_hosts-skip D key expect ended num hc h cfg count merr wait m (inl fresh))
                skipped
          | inr stale ↦ elim (Option-cases (find_other expect (entries cfg))) [
            | inl none_there ↦
                rw
                  (update_hosts-skip D key expect ended num hc h cfg count merr wait m
                    (inr none_there))
                  skipped
            | inr ((ver, n), found) ↦
                let (m', errors) = exchange D key expect ended num h cfg ver n m in
                let d' = set-Distinct h _ m d in
                let next =
                  update_hosts-Distinct hc (count +ℤ pos 1) (merr ++ errors) (wait + 1) m' d' in
                rw
                  (update_hosts-act D key expect ended num hc h cfg count merr wait m ver n stale
                    found)
                  (elim (Bool-cases (leb_ℤ num count)) [
                    | inl full ↦ rw full d
                    | inr room ↦ rw room (elim (Bool-cases (ended wait)) [
                      | inl stop ↦ rw stop d'
                      | inr go ↦ rw go next
                    ])
                  ])
          ]
        ]

  pub update_instances-Distinct :
      (ended : ℕ → Bool) (num : ℤ) (m : HcManager D)
      → Distinct m
      → Distinct (update_instances D key expect ended num m).0
  unfolding update_instances
  update_instances-Distinct ended num m d =
      let num_unexp = (hc_stat expect (list_host_configs D key m)).1 in
      elim (Bool-cases (leb_ℤ num (pos 0))) [
        | inl nothing ↦ rw nothing d
        | inr some_left ↦ rw some_left (
            update_hosts-Distinct ended (if ltb_ℤ num_unexp num then num_unexp else num)
              (list_host_configs D key m) (pos 0) [] 0 m d)
      ]
