-- ===== src/Tests/Replicas.antt =====
-- The controller's loops at two hosts with two versions.
use snk_fork_dolphin.Base.{
  ℕ, ◌==◌, if◌then◌else◌, ◌≡◌, ◌≢◌, refl, arith, false, [], ◌∷◌, none, some, length,
}
use snk_fork_dolphin.Base.Int.{ℤ, pos, ◌≤ℤ◌, ◌+ℤ◌}
use snk_fork_dolphin.Base.Text.{Text, text_eq}
use snk_fork_dolphin.Base.Table.{lookup}
use snk_fork_dolphin.Base.Total.{total}
use snk_fork_dolphin.Base.Outcome.{done}
use snk_fork_dolphin.HostConfig.{HcManager, key_map, list_host_configs}
use snk_fork_dolphin.Types.Fault.{Errors, no_host}
use snk_fork_dolphin.Replica.{hc_stat, hosts_stat, info_stat}
use snk_fork_dolphin.Replica.Stat.{IsProper, hc_stat-total}
use snk_fork_dolphin.Replica.Legacy.{remove_legacy}
use snk_fork_dolphin.Replica.Legacy.Sums.{hc_stat-remove_legacy}
use snk_fork_dolphin.Replica.Remove.{remove_expect_instances}
use snk_fork_dolphin.Replica.Remove.Counted.{IsCounted}
use snk_fork_dolphin.Replica.Remove.Ends.{remove_expect_instances-ends}
use snk_fork_dolphin.Replica.Update.{update_instances}
use snk_fork_dolphin.Replica.Update.Counts.{update_instances_counts}
use snk_fork_dolphin.Replica.Add.{add_instances}
use snk_fork_dolphin.Replica.Add.Counts.{GivesKnown, add_instances_counts}
use snk_fork_dolphin.Tests.{plain_store, host_a, ver_1, ver_2, key, two_hosts, two_manager}

two-IsProper : IsProper two_hosts
unfolding lookup text_eq
two-IsProper = record { hosts = (refl, (refl, tt)); versions = λ h cfg e. ground arith }

hc_stat-total_example : hc_stat ver_2 two_hosts ≡ (pos 1, pos 3)
unfolding total ◌+ℤ◌ text_eq
hc_stat-total_example = hc_stat-total ver_2 two_hosts

hc_stat-remove_legacy_example :
    hc_stat ver_2
      (list_host_configs plain_store key (remove_legacy plain_store key ver_2 two_manager).0)
    ≡ (pos 1, pos 0)
unfolding list_host_configs key_map lookup text_eq hc_stat hosts_stat info_stat ◌+ℤ◌
hc_stat-remove_legacy_example =
    hc_stat-remove_legacy plain_store key ver_2 two_manager (refl, (refl, tt))

two-IsCounted : IsCounted ver_1 two_hosts
unfolding lookup text_eq
two-IsCounted = record {
  hosts = (refl, (refl, tt));
  versions = λ h cfg e. ground arith;
  counts = λ h cfg n e f. ground arith;
}

remove_expect_instances-ends_example :
    remove_expect_instances plain_store key ver_1 (λ w. false) 3 (pos 2) two_manager ≢ none
unfolding total ◌+ℤ◌ text_eq key_map lookup
remove_expect_instances-ends_example =
    remove_expect_instances-ends plain_store key ver_1 (λ w. false) (pos 2) two_manager
      two-IsCounted (omega arith)

update_instances_counts_example :
    let before = hc_stat ver_2 (list_host_configs plain_store key two_manager) in
    let r = update_instances plain_store key ver_2 (λ w. false) (pos 3) two_manager in
    let after = hc_stat ver_2 (list_host_configs plain_store key r.0) in
    (after.0 ≡ before.0 +ℤ r.1)
    × (after.1 +ℤ r.1 ≡ before.1)
    × (pos 0 ≤ℤ r.1)
    × (r.1 ≤ℤ pos 3)
    × (r.1 ≤ℤ pos (length (list_host_configs plain_store key two_manager)))
unfolding list_host_configs key_map lookup text_eq hc_stat hosts_stat info_stat ◌+ℤ◌
update_instances_counts_example =
    update_instances_counts plain_store key ver_2 (λ w. false) (pos 3) two_manager two-IsProper
      (omega arith)

-- A scheduler that fails once and then finds the first host.
abbrev then_a : ℕ → ℕ × Text × Errors
then_a s = if s == 0 then (1, [], no_host ∷ []) else (s, host_a, [])

then_a_known : GivesKnown plain_store key ver_2 then_a (λ i. 4 == i) two_hosts
unfolding lookup text_eq
then_a_known s e = ((ver_1, pos 1) ∷ (ver_2, pos 1) ∷ [], ground (arith, e))

add_instances_counts_example :
    let before = hc_stat ver_2 (list_host_configs plain_store key two_manager) in
    (r : HcManager plain_store × ℕ × Errors) × (j : ℤ) × (add_instances plain_store then_a key ver_2
        (λ i. 4 == i)
        5
        (pos 2)
        0
        two_manager
      ≡ some (done r))
    × (pos 0 ≤ℤ j)
    × (j ≤ℤ pos 2)
    × (r.2 ≡ [] → j ≡ pos 2)
    × (hc_stat ver_2 (list_host_configs plain_store key r.0) ≡ (before.0 +ℤ j, before.1))
unfolding key_map lookup text_eq
add_instances_counts_example =
    add_instances_counts plain_store key ver_2 then_a (λ i. 4 == i) 4 (pos 2) 0 two_manager
      two-IsProper then_a_known refl (omega arith)
