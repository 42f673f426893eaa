-- ===== src/Types/Fault.antt =====
-- The errors of the modelled code, one constructor for each place that makes one. An `error` of Go
-- is the list of the faults in it: empty for nil, several for a multierror.
use snk_fork_dolphin.Base.{ℕ, List}

pub data Fault : Type 0 where
  type_empty name_empty service_empty num_too_small unknown_env : Fault
  selector_key_empty selector_format : Fault
  invalid_deploy_key nil_args : Fault
  cancelled no_host short_of_resource no_host_data already_exists : Fault
  spec_inconsistent legacy_running missing_expected surplus_expected running_differs : Fault
  wrong_stage unknown_deployment in_process unmanaged_keys : Fault
  unknown_route_item unknown_route_version : Fault
  invalid_deploy_name nil_resource unknown_process_type process_exited invalid_args
        unsupported_command unknown_project_type empty_name no_process :
      Fault
  invalid_host_id several_ips no_ip : Fault
  unknown_zk_typ incomplete_zk_path invalid_zk_path empty_zk_path unknown_service : Fault
  invalid_etcd_path invalid_cluster instance_not_synced unknown_etcd_typ unknown_api : Fault
  -- an error that code outside the model returns
  outside : ℕ → Fault

abbrev pub Errors : Type 0
Errors = List Fault
