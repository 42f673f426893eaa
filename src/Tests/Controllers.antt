-- ===== src/Tests/Controllers.antt =====
-- The manager, the status of a controller and the instances at concrete inputs.
use snk_fork_dolphin.Base.{ℕ, ◌≡◌, ◌≢◌, ◌↔◌, ◌⊎◌, refl, arith, false, [], ◌∷◌, Option, none, some}
use snk_fork_dolphin.Base.Int.{ℤ, pos, ◌≤ℤ◌, ◌+ℤ◌}
use snk_fork_dolphin.Base.Text.{Text, codes, text_eq, text_eq_iff}
use snk_fork_dolphin.Base.Table.{lookup, insert}
use snk_fork_dolphin.Base.Outcome.{done, panicked}
use snk_fork_dolphin.HostConfig.{key_map, list_host_configs}
use snk_fork_dolphin.Types.Deploy.{DeployConfig}
use snk_fork_dolphin.Types.Deploy.Validate.{validate, with_selector}
use snk_fork_dolphin.Types.Fault.{Errors, unknown_deployment}
use snk_fork_dolphin.Types.Instance.{Instance, running}
use snk_fork_dolphin.Types.Stage.{dev}
use snk_fork_dolphin.Replica.{revoke_lease, ReplicaCtrl, hc_stat, hosts_stat, info_stat}
use snk_fork_dolphin.Replica.Policy.{Waits}
use snk_fork_dolphin.Replica.Status.{check_status}
use snk_fork_dolphin.Replica.Status.Agreement.{check_status_iff}
use snk_fork_dolphin.Manager
use snk_fork_dolphin.Manager.{new_schedular, get_controller, update}
use snk_fork_dolphin.Manager.Fresh.{start, call_revoke, run_call, deploy-Reached}
use snk_fork_dolphin.Manager.Keys.{KeysMatch}
use snk_fork_dolphin.Manager.Calls.{run_call-KeysMatch}
use snk_fork_dolphin.Tests.{percents, plain_store, host_a, ver_1, ver_2, key, two_manager, daemon}

-- An instance of the first version on the first host.
abbrev one_instance : Instance
one_instance = record {
  projec_type = codes "java";
  id = codes "i";
  deploy_name = codes "crm";
  host_id = host_a;
  version = ver_1;
  start_time = pos 5;
  stop_time = pos 0;
  life_cycle = running;
}

-- A controller that expects the second version.
abbrev ctrl : ReplicaCtrl percents
ctrl = record {
  stage = dev;
  key = key;
  dc = record daemon { num_of_instance = pos 1 };
  legacy_timer = none;
  expect_version = ver_2;
  legacy_verion_timeout = pos 60;
}

check_status_iff_example :
    ((check_status percents plain_store ctrl ((codes "i", one_instance) ∷ []) two_manager).1 ≡ [])
    ↔ ((pos 1 ≡ pos 1)
        × ((pos 3 ≤ℤ pos 0) ⊎ (◌≢◌ {A = Option ℤ} none none))
        × (pos 1 ≡ pos 0)
        × (pos 3 ≡ pos 1))
unfolding hc_stat hosts_stat info_stat list_host_configs key_map lookup text_eq ◌+ℤ◌
check_status_iff_example =
    check_status_iff percents plain_store ctrl ((codes "i", one_instance) ∷ []) two_manager

-- A scheduler that always finds the first host.
abbrev finds_a : ℕ → ℕ × Text × Errors
finds_a s = (s, host_a, [])

abbrev never : Waits
never = record { adding = λ w. false; updating = λ w. false; removing = λ w. false }

deploy-Reached_example :
    let m = new_schedular percents plain_store dev (pos 60) two_manager in
    (m ≡ new_schedular percents plain_store dev (pos 60) two_manager)
    × (Manager.deploy percents plain_store finds_a never 3 0 (some daemon) m
        ≡ some (done (m, unknown_deployment ∷ [])))
deploy-Reached_example =
    deploy-Reached percents plain_store finds_a dev (pos 60) two_manager
      (new_schedular percents plain_store dev (pos 60) two_manager) start never 3 0 daemon
      (unfold validate with_selector in refl)

-- A manager that holds the controller.
abbrev managed : Manager.Manager percents plain_store
managed = record {
  stage = dev;
  lease = pos 60;
  controllers = some ((key, some ctrl) ∷ []);
  hc_manager = two_manager;
}

managed-KeysMatch : KeysMatch percents plain_store managed
unfolding get_controller lookup
managed-KeysMatch = record { own_key = λ k c e. ground (arith, text_eq_iff key k) }

run_call-KeysMatch_example : KeysMatch percents plain_store managed
unfolding run_call Manager.revoke_legacy_lease lookup text_eq insert revoke_lease
run_call-KeysMatch_example =
    run_call-KeysMatch percents plain_store finds_a (call_revoke key) managed managed []
      managed-KeysMatch refl

-- One instance of a third version.
abbrev third : DeployConfig percents
third = record daemon { num_of_instance = pos 1; image_version = some (codes "3") }

abbrev manager_of : Manager.Result percents plain_store → Manager.Manager percents plain_store
manager_of none = managed
manager_of (some panicked) = managed
manager_of (some (done r)) = r.0

abbrev updated : Manager.Manager percents plain_store
updated = manager_of (update percents plain_store finds_a never 3 0 (some third) managed)
