-- ===== src/EtcdKey.antt =====
-- registry/etcdkey (deploy.go, host.go, java.go): the paths of etcd at which the program keeps its
-- data.
pub mod Injective
use snk_fork_dolphin.Base.{◌++◌, List, [], ◌∷◌}
use snk_fork_dolphin.Base.Text.{Text, codes}
use snk_fork_dolphin.Types.Stage.{Stage, to_string}

abbrev pub base_dir : Text
base_dir = codes "/dolphin/"

unfoldable pub stage_base_dir : Stage → Text
stage_base_dir stage = base_dir ++ (to_string stage ++ codes "/")

abbrev pub deploy_dir : Stage → Text
deploy_dir stage = stage_base_dir stage ++ codes "deploy/"

abbrev pub deploy_config_dir : Stage → Text
deploy_config_dir stage = deploy_dir stage ++ codes "config/"

abbrev pub deploy_host_expect_dir : Stage → Text
deploy_host_expect_dir stage = deploy_dir stage ++ codes "hosts/"

abbrev pub deploy_instance_dir : Stage → Text
deploy_instance_dir stage = deploy_dir stage ++ codes "instances/"

unfoldable pub depoy_config_of_key : Stage → Text → Text
depoy_config_of_key stage key = deploy_config_dir stage ++ key

unfoldable pub deploy_instance_dir_of_key : Stage → Text → Text
deploy_instance_dir_of_key stage key = deploy_instance_dir stage ++ (key ++ codes "/")

unfoldable pub deploy_host_expect_dir_of : Stage → Text → Text
deploy_host_expect_dir_of stage host_id = deploy_host_expect_dir stage ++ (host_id ++ codes "/")

unfoldable pub deploy_host_expect_path_of : Stage → Text → Text → Text
deploy_host_expect_path_of stage host_id key = deploy_host_expect_dir_of stage host_id ++ key

abbrev pub host_base_dir : Stage → Text
host_base_dir stage = stage_base_dir stage ++ codes "hosts/"

abbrev pub host_stat_dir : Stage → Text
host_stat_dir stage = host_base_dir stage ++ codes "stat/"

unfoldable pub host_stat_path : Stage → Text → Text
host_stat_path stage host_id = host_stat_dir stage ++ host_id

abbrev pub host_info_dir : Stage → Text
host_info_dir stage = host_base_dir stage ++ codes "info/"

unfoldable pub host_info_path : Stage → Text → Text
host_info_path stage host_id = host_info_dir stage ++ host_id

abbrev pub host_config_dir : Stage → Text
host_config_dir stage = host_base_dir stage ++ codes "config/"

unfoldable pub host_config_path : Stage → Text → Text
host_config_path stage host_name = host_config_dir stage ++ host_name

abbrev pub java_zk_route : Text
java_zk_route = codes "java/zk/route/"

abbrev pub java_zk_instance : Text
java_zk_instance = codes "java/zk/instances/"

abbrev pub java_zk_config : Text
java_zk_config = codes "java/zk/config/"

abbrev pub java_probe_dir : Stage → Text
java_probe_dir stage = stage_base_dir stage ++ codes "java/probe/"

unfoldable pub java_probe_path : Stage → Text → Text
java_probe_path stage name = java_probe_dir stage ++ name

abbrev pub java_project_dir : Text
java_project_dir = base_dir ++ codes "java/project/"

unfoldable pub java_project_path : Text → Text
java_project_path name = java_project_dir ++ name

unfoldable pub java_zk_dir : Stage → Text
java_zk_dir stage = stage_base_dir stage ++ codes "java/zk/"

unfoldable pub java_zk_route_dir : Stage → Text
java_zk_route_dir stage = stage_base_dir stage ++ java_zk_route

unfoldable pub java_zk_instance_dir : Stage → Text
java_zk_instance_dir stage = stage_base_dir stage ++ java_zk_instance

unfoldable pub java_zk_config_dir : Stage → Text
java_zk_config_dir stage = stage_base_dir stage ++ java_zk_config
