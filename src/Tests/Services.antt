-- ===== src/Tests/Services.antt =====
-- The manager of controllers/java/service at concrete inputs.
use snk_fork_dolphin.Base.{ℕ, ◌+◌, ◌*◌, ◌/◌, ◌≡◌, ◌↔◌, ◌++◌, refl, [], ◌∷◌, some, none, All, inl}
use snk_fork_dolphin.Base.Table.{lookup}
use snk_fork_dolphin.Base.Text.{codes, text_eq}
use snk_fork_dolphin.Instances.{InsManager}
use snk_fork_dolphin.Router.{no_match}
use snk_fork_dolphin.Service.{
  check_host_running_and_zk_instances, version_alert, get_route_version, route_version,
}
use snk_fork_dolphin.Service.Alerts.{Agrees, check_host_running-Agrees, version_alert-last}
use snk_fork_dolphin.Service.Load.Unreached.{loads, start_probe-unreached}
use snk_fork_dolphin.Service.Probe.{Floats, tick, finished, no_esb, new_manager, start_probe}
use snk_fork_dolphin.Tests.Zoos.{two_nodes, node_1, node_2}
use snk_fork_dolphin.Types.Answer.{success}
use snk_fork_dolphin.Types.Stage.{dev}
use snk_fork_dolphin.Zk.Sync.{ZkManager, instances_at, list_deployment, get_route_config}

-- Floats in thousandths, rounded down.
abbrev thousandths : Floats
thousandths = record {
  F = ℕ;
  of = λ n. n * 1000;
  half = 500;
  plus = λ a b. a + b;
  times = λ a b. a * b / 1000;
  over = λ a b. a * 1000 / b;
}

abbrev no_instances : InsManager
no_instances = record { stage = dev; instances = [] }

start_probe-unreached_example :
    start_probe thousandths
      (codes "crm:app")
      []
      (tick success ∷ finished ∷ [])
      (loads thousandths ((two_nodes, no_instances) ∷ []) (new_manager thousandths dev))
    ≡ inl no_esb
unfolding instances_at lookup text_eq
start_probe-unreached_example =
    start_probe-unreached thousandths dev ((two_nodes, no_instances) ∷ []) (codes "crm:app") []
      (tick success ∷ finished ∷ [])

check_host_running-Agrees_example :
    ((check_host_running_and_zk_instances (λ i. i.host_id) two_nodes no_instances).0 ≡ []
      ↔ All (Agrees (λ i. i.host_id) two_nodes no_instances) (list_deployment two_nodes.zk_ins))
    × ((check_host_running_and_zk_instances (λ i. i.host_id) two_nodes no_instances).1 ≡ [])
check_host_running-Agrees_example =
    check_host_running-Agrees (λ i. i.host_id) two_nodes no_instances

-- The last instance is of the version that the route names, the first is not.
abbrev mixed : ZkManager
mixed = record two_nodes {
  zk_ins =
      (
        codes "crm:app",
        record node_1 { version = codes "1" } ∷ record node_2 { version = codes "2" } ∷ [],
      )
      ∷ [];
  route_cfg =
      (
        codes "crm:app",
        some (record {
          api_version = codes "4.0";
          route_items =
              record {
                src = no_match;
                dst = record { key = codes "version"; op = codes "="; value = codes "2" ∷ [] };
              }
              ∷ [];
        }),
      )
      ∷ [];
}

mixed_instances :
    instances_at (codes "crm:app") mixed
    ≡ (record node_1 { version = codes "1" } ∷ []) ++ record node_2 { version = codes "2" } ∷ []
unfolding instances_at lookup text_eq
mixed_instances = refl

version_alert-last_example : version_alert mixed (codes "crm:app") ≡ none
unfolding get_route_version route_version get_route_config lookup text_eq
version_alert-last_example =
    version_alert-last mixed (codes "crm:app") (record node_1 { version = codes "1" } ∷ [])
      (record node_2 { version = codes "2" }) mixed_instances
