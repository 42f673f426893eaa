-- ===== src/Tests/Rollings.antt =====
-- Rolling updates of two hosts, and a destroyed deployment.
use snk_fork_dolphin.Base.{
  ℕ, ◌==◌, if◌then◌else◌, ◌≡◌, ◌≢◌, refl, arith, false, [], ◌∷◌, none, some,
}
use snk_fork_dolphin.Base.Int.{pos, ◌≤ℤ◌, ◌+ℤ◌, ◌-ℤ◌}
use snk_fork_dolphin.Base.Outcome.{done, panicked}
use snk_fork_dolphin.Base.Text.{Text, text_eq}
use snk_fork_dolphin.Base.Table.{lookup, insert, delete}
use snk_fork_dolphin.HostConfig.{
  get_host_config, set_host_config, HcManager, key_map, list_host_configs,
}
use snk_fork_dolphin.Types.Fault.{Errors, no_host}
use snk_fork_dolphin.Replica.{ReplicaCtrl, hc_stat, hosts_stat, info_stat}
use snk_fork_dolphin.Replica.Stat.{IsProper}
use snk_fork_dolphin.Replica.Legacy.{remove_legacy, remove_legacy_host, only_version, need_update}
use snk_fork_dolphin.Replica.Update.{update_instances, update_hosts}
use snk_fork_dolphin.Replica.Add.{add_instances, add_loop, add_one_instance}
use snk_fork_dolphin.Replica.Add.Counts.{GivesKnown}
use snk_fork_dolphin.Replica.Policy.{Waits, Run, rolling, deploy_new, lease_ends}
use snk_fork_dolphin.Replica.Policy.Lease.{deploy_new-lease_ends}
use snk_fork_dolphin.Replica.Policy.Rolling.{rolling_clean}
use snk_fork_dolphin.Replica.Policy.Bounds.{rolling_bounds}
use snk_fork_dolphin.Types.Stage.{dev}
use snk_fork_dolphin.Tests.{
  percents, plain_store, host_a, ver_1, ver_2, key, two_hosts, two_manager, daemon,
}

-- A controller that asks for three instances of the second version.
abbrev three : ReplicaCtrl percents
three = record {
  stage = dev;
  key = key;
  dc = record daemon { num_of_instance = pos 3 };
  legacy_timer = none;
  expect_version = ver_2;
  legacy_verion_timeout = pos 60;
}

abbrev first_host : ℕ → ℕ × Text × Errors
first_host s = (s, host_a, [])

abbrev on : Waits
on = record { adding = λ w. false; updating = λ w. false; removing = λ w. false }

proper : IsProper two_hosts
unfolding lookup text_eq
proper = record { hosts = (refl, (refl, tt)); versions = λ h cfg e. ground arith }

-- A scheduler that fails every second time, and a context that has ended by the fourth wait.
abbrev flaky : ℕ → ℕ × Text × Errors
flaky s = if s == 0 then (1, [], no_host ∷ []) else (0, host_a, [])

flaky_known : GivesKnown plain_store key ver_2 flaky (λ i. 4 == i) two_hosts
unfolding lookup text_eq
flaky_known s e = ((ver_1, pos 1) ∷ (ver_2, pos 1) ∷ [], ground (arith, e))

rolling_bounds_example :
    (r : ReplicaCtrl percents × HcManager plain_store × Errors) × (rolling percents plain_store
        flaky
        (record on { adding = λ i. 4 == i })
        5
        0
        three
        two_manager
      ≡ some (done r))
    × (pos 1 ≤ℤ (hc_stat ver_2 (list_host_configs plain_store key r.1)).0)
    × ((hc_stat ver_2 (list_host_configs plain_store key r.1)).0 ≤ℤ pos 3)
unfolding hc_stat hosts_stat info_stat list_host_configs key_map lookup text_eq ◌+ℤ◌ ◌-ℤ◌
rolling_bounds_example =
    rolling_bounds percents plain_store flaky (record on { adding = λ i. 4 == i }) 5 0 three 4
      two_manager proper (omega arith) (omega arith) flaky_known refl (omega arith)

abbrev left_of : Run percents plain_store → ReplicaCtrl percents × HcManager plain_store
left_of none = (three, two_manager)
left_of (some panicked) = (three, two_manager)
left_of (some (done r)) = (r.0, r.1)

abbrev rolled : ReplicaCtrl percents × HcManager plain_store
rolled = left_of (rolling percents plain_store first_host on 3 0 three two_manager)

rolling_clean_example : (hc_stat ver_2 (list_host_configs plain_store key rolled.1)).1 ≡ pos 0
unfolding rolling ◌-ℤ◌ hc_stat list_host_configs lookup text_eq ◌+ℤ◌ update_instances update_hosts
    set_host_config remove_legacy insert remove_legacy_host only_version delete need_update
rolling_clean_example =
    rolling_clean percents plain_store first_host on 3 0 three rolled.0 two_manager rolled.1
      (refl, (refl, tt)) refl

abbrev deployed_new : ReplicaCtrl percents × HcManager plain_store
deployed_new = left_of (deploy_new percents plain_store first_host on 4 0 three two_manager)

deploy_new-lease_ends_example :
    let later = lease_ends percents plain_store first_host deployed_new.0 deployed_new.1 in
    (deployed_new.0.legacy_timer ≢ none)
    × (hc_stat ver_2 (list_host_configs plain_store key later.1)
        ≡ ((hc_stat ver_2 (list_host_configs plain_store key deployed_new.1)).0, pos 0))
    × (later.0.legacy_timer ≡ none)
unfolding deploy_new key_map lookup text_eq add_instances add_loop add_one_instance get_host_config
    ◌-ℤ◌ set_host_config insert
deploy_new-lease_ends_example =
    deploy_new-lease_ends percents plain_store first_host three deployed_new.0 deployed_new.1 on 4 0
      two_manager (refl, (refl, tt)) refl
