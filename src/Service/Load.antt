-- ===== src/Service/Load.antt =====
-- controllers/java/service/service.go: the services that the manager loads.
pub mod Unreached
use snk_fork_dolphin.Base.{List, [], ◌∷◌, if◌then◌else◌, ◌||◌}
use snk_fork_dolphin.Base.Int.{pos, ltb_ℤ, eqb_ℤ}
use snk_fork_dolphin.Base.Table.{Table, insert}
use snk_fork_dolphin.Base.Text.{Text}
use snk_fork_dolphin.Instances.{InsManager, running_instance}
use snk_fork_dolphin.Service.{java_key}
use snk_fork_dolphin.Types.Instance.{Instance}
use snk_fork_dolphin.Types.Stage.{Stage}
use snk_fork_dolphin.Router.Node.{ServiceNode}
use snk_fork_dolphin.Zk.Sync.{ZkManager, get_instance_list, get_route_config, list_deployment}
use snk_fork_dolphin.Service.Probe.{
  Floats, JavaService, ProbeManager, empty_ratio, service_daemon, service_service,
}

module _ (fl : Floats) where
  -- The values of a map.
  unfoldable pub values_of : Table Instance → List Instance
  values_of [] = []
  values_of ((_, v) ∷ t) = v ∷ values_of t

  -- One round of the loop of `load`.
  unfoldable pub service_of : Stage → Text → ServiceNode → ZkManager → InsManager → JavaService fl
  unfolding values_of
  service_of stage v s zk infor = record {
    stage = stage;
    name = v;
    types =
        (if eqb_ℤ s.typ (pos 1) || ltb_ℤ (pos 0) s.port then service_service else service_daemon);
    api_version = s.api_version;
    route = get_route_config v zk;
    fail_ratio = empty_ratio fl;
    esb_fail_ratio = [];
    instances = values_of (running_instance (java_key v) infor);
  }

  unfoldable pub load_names :
      Stage → List Text → ZkManager → InsManager → Table (JavaService fl) → Table (JavaService fl)
  unfolding service_of
  load_names stage [] zk infor services = services
  load_names stage (v ∷ names) zk infor services =
      load_names stage names zk infor (elim (get_instance_list v zk) [
        | [] ↦ services
        | s ∷ _ ↦ insert v (service_of stage v s zk infor) services
      ])

  -- `load`, which has no error.
  unfoldable pub load : ZkManager → InsManager → ProbeManager fl → ProbeManager fl
  unfolding load_names
  load zk infor m = record m {
    services = load_names m.stage (list_deployment zk.zk_ins) zk infor m.services;
  }
