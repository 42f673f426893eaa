-- ===== src/Replica/Update/Counts.antt =====
-- What `hcStat` counts when instances are updated (controllers/scheduler/replica.go).
use snk_fork_dolphin.Base.{ℕ, ◌≡◌, arith, Bool, [], if◌then◌else◌, Bool-cases, inl, inr, length}
use snk_fork_dolphin.Base.Int.{ℤ, pos, ◌+ℤ◌, ◌≤ℤ◌, int_laws, parts_of_eq, ltb_ℤ, leb_ℤ}
use snk_fork_dolphin.Base.Text.{Text}
use snk_fork_dolphin.Base.Total.{total}
use snk_fork_dolphin.HostConfig.{Store, HcManager, key_map, list_host_configs}
use snk_fork_dolphin.HostConfig.Tables.{list_host_configs_lem}
use snk_fork_dolphin.Replica.{hc_stat}
use snk_fork_dolphin.Replica.Stat.{
  unexpected_of, hc_stat-total, expected_stat, unexpected_stat, IsProper,
}
use snk_fork_dolphin.Replica.Legacy.Lookup.{Agrees-self}
use snk_fork_dolphin.Replica.Update.{update_instances}
use snk_fork_dolphin.Replica.Update.Loop.{Good, Good-done, update_hosts-Good}

-- The most that `updateInstances` can move.
abbrev limit : ℤ → ℤ → ℤ
limit num num_unexp =
    if leb_ℤ num (pos 0) then pos 0 else if ltb_ℤ num_unexp num then num_unexp else num

limit_lem : (num u n : ℤ) → n ≤ℤ limit num u → n ≤ℤ (if leb_ℤ num (pos 0) then pos 0 else num)
limit_lem num u n h = ground arith

update_instances-Good :
    (D : Store) (key expect : Text) (ended : ℕ → Bool) (num : ℤ) (m : HcManager D)
    → IsProper (key_map D key m)
    → pos 0 ≤ℤ total (unexpected_of expect) (key_map D key m)
    → Good D key expect ended
        (limit num (total (unexpected_of expect) (key_map D key m)))
        (key_map D key m)
        (pos 0)
        m
        (update_instances D key expect ended num m)
unfolding update_instances
update_instances-Good D key expect ended num m p enough =
    let unexp = total (unexpected_of expect) (key_map D key m) in
    let most = if ltb_ℤ unexp num then unexp else num in
    rw (list_host_configs_lem D key m, hc_stat-total expect (key_map D key m))
      (elim (Bool-cases (leb_ℤ num (pos 0))) [
        | inl nothing ↦
            rw nothing
              (Good-done D key expect ended (pos 0) (key_map D key m) (pos 0) m [] p (omega arith))
        | inr some_left ↦ rw some_left (
            update_hosts-Good D key expect ended most (key_map D key m) (pos 0) [] 0 m p.hosts
              (Agrees-self (key_map D key m) p.hosts) p (ground arith))
      ])

-- `updateInstances` returns the number `n` of instances that it has moved from other versions to
-- the expected one, at most as many as were asked for, and at most one on each host. `hcStat`
-- then counts `n` more of the expected version and `n` fewer of the others, whatever the store
-- answers and whenever the context ends.
pub update_instances_counts :
    (D : Store) (key expect : Text) (ended : ℕ → Bool) (num : ℤ) (m : HcManager D)
    → IsProper (key_map D key m)
    → pos 0 ≤ℤ (hc_stat expect (list_host_configs D key m)).1
    → let before = hc_stat expect (list_host_configs D key m) in
      let r = update_instances D key expect ended num m in
      let after = hc_stat expect (list_host_configs D key r.0) in
      (after.0 ≡ before.0 +ℤ r.1)
      × (after.1 +ℤ r.1 ≡ before.1)
      × (pos 0 ≤ℤ r.1)
      × (r.1 ≤ℤ (if leb_ℤ num (pos 0) then pos 0 else num))
      × (r.1 ≤ℤ pos (length (list_host_configs D key m)))
update_instances_counts D key expect ended num m p enough =
    let unexp = total (unexpected_of expect) (key_map D key m) in
    let r = update_instances D key expect ended num m in
    let before_exp = parts_of_eq (expected_stat D key expect m) in
    let before_unexp = parts_of_eq (unexpected_stat D key expect m) in
    let g = update_instances-Good D key expect ended num m p (omega (int_laws, before_unexp)) in
    (
      omega (
        int_laws,
        before_exp,
        parts_of_eq (expected_stat D key expect r.0),
        parts_of_eq g.gained,
      ),
      omega (
        int_laws,
        before_unexp,
        parts_of_eq (unexpected_stat D key expect r.0),
        parts_of_eq g.lost,
      ),
      g.counted,
      limit_lem num unexp r.1 g.within,
      rw (list_host_configs_lem D key m) (omega (int_laws, g.one_each)),
    )
