-- ===== src/Tests/Placements.antt =====
-- A scheduler over one host, and the deploy configurations, at concrete inputs.
use snk_fork_dolphin.Base.{◌≡◌, refl, false, [], ◌∷◌, none, some}
use snk_fork_dolphin.Base.Int.{pos}
use snk_fork_dolphin.Base.Text.{text_eq}
use snk_fork_dolphin.Base.Outcome.{panicked}
use snk_fork_dolphin.Base.Table.{insert}
use snk_fork_dolphin.Types.Deploy.{deploy_key}
use snk_fork_dolphin.Types.Host.{HostInfo, HostStatus}
use snk_fork_dolphin.Types.Resource.{no_resource}
use snk_fork_dolphin.Types.Stage.{dev}
use snk_fork_dolphin.Placement.{Hosts, Scheduler}
use snk_fork_dolphin.Configs.{
  ConfigManager, new_deploy_config_manager, start_watch, stop_watch, watch_configs,
  get_deploy_config,
}
use snk_fork_dolphin.Configs.Latest.{changed, removed, events_of, get_deploy_config-changed_last}
use snk_fork_dolphin.Tests.{percents, host_a, key, daemon}

-- A host of which a status is stored, which reads as an information without its sizes.
abbrev machine_info : HostInfo
machine_info = record {
  host_id = host_a;
  labels = [];
  num_of_cpus = pos 0;
  memory = 0;
  swap_size = 0;
  disk = [];
  resource_reserved = no_resource;
}

abbrev machine_status : HostStatus percents
machine_status = record { cpu_usage = 0; used_memory = 100; numof_processes = pos 3 }

abbrev one_host : Hosts percents
one_host = record {
  Stored = HostStatus percents;
  get_value = λ p. some machine_status;
  decode_status = λ v. some v;
  decode_info = λ v. some machine_info;
  list_hosts = λ d s. (record machine_info { memory = 1000; num_of_cpus = pos 2 } ∷ [], []);
}

abbrev scheduler : Scheduler percents
scheduler = record {
  require = record { host_selector = none; resource = record no_resource { memory = 300 } };
  avaliable = [];
  stage = dev;
  key = key;
}

-- The manager that lists the daemon.
abbrev listing : ConfigManager percents
listing = record { stage = dev; dc = (key, daemon) ∷ []; watching = false }

get_deploy_config-changed_last_example :
    (get_deploy_config percents key (
        watch_configs percents
          (events_of percents dev (changed key daemon ∷ removed key ∷ []))
          (start_watch percents listing))
      ≡ none)
    × (stop_watch percents listing ≡ panicked)
unfolding text_eq new_deploy_config_manager insert deploy_key
get_deploy_config-changed_last_example =
    get_deploy_config-changed_last percents dev (daemon ∷ [])
      (changed key daemon ∷ removed key ∷ []) key listing refl
