-- ===== src/Tests/Zoos.antt =====
-- Names and events of controllers/java/zk at concrete inputs.
use snk_fork_dolphin.Base.{
  ◌≡◌, ◌++◌, refl, arith, true, ◌&&◌, not, [], ◌∷◌, some, none, All, length,
}
use snk_fork_dolphin.Base.Chars.{trim_right}
use snk_fork_dolphin.Base.Table.{lookup}
use snk_fork_dolphin.Base.Text.{Text, codes, text_eq, Lacks, has_prefix, trim_prefix, last_index}
use snk_fork_dolphin.Router.Node.{
  ServiceNode, empty_node, RawNode, unmarshal_node, start_text, start_time_of,
}
use snk_fork_dolphin.Base.Int.{pos}
use snk_fork_dolphin.Types.Stage.{dev}
use snk_fork_dolphin.Base.Path.{split, cons_head}
use snk_fork_dolphin.Zk.{
  SimplePathInfo, get, parse_zk_path_v4, parts_v4, etcd_path_v4, parse_typ_v4, zk_instance,
  get_etcd_path,
}
use snk_fork_dolphin.Zk.Names.{get_route_path, get_instance_path, get_deploy_name, deploy_name_of}
use snk_fork_dolphin.Zk.Names.Back.{get_deploy_name-paths}
use snk_fork_dolphin.Zk.Sync.{Outside, ZkManager, instances_at, base_name, read_node}
use snk_fork_dolphin.Zk.Events.{is_known, on_children, on_deleted}
use snk_fork_dolphin.Zk.Events.Children.{IsOf, on_children-counts}
use snk_fork_dolphin.Zk.Events.Deleted.{AreDistinct, on_deleted-others}

abbrev pub no_names : SimplePathInfo
no_names = record { service_map = []; project_map = [] }

abbrev any_node : RawNode
any_node = record {
  host = codes "h";
  ip = [];
  typ = pos 1;
  port = pos 80;
  start_time = [];
  starttime = [];
  time = [];
  main_class = [];
  pid = pos 7;
  reconnect_zk = pos 0;
  version = codes "1";
}

-- A ZooKeeper that never changes, and an etcd that forgets what it is told.
abbrev outside_world : Outside
outside_world = record {
  conn = record {
    Zoo = Unit {0};
    children = λ p z. some (codes "n1" ∷ codes "n3" ∷ []);
    get_data = λ p z. some [];
    exists_error = λ p z. [];
    set_data = λ p d z. (z, []);
  };
  Etcd = Unit {0};
  open_etcd = λ e. [];
  update_etcd = λ p d e. (e, []);
  delete_etcd = λ p e. (e, []);
  list_keys = λ p e. some [];
  decode_json = λ d. some any_node;
  parse_time = λ t. none;
}

abbrev pub node_1 : ServiceNode
node_1 = record empty_node { node_name = codes "n1" }

abbrev pub node_2 : ServiceNode
node_2 = record empty_node { node_name = codes "n2" }

abbrev pub two_nodes : ZkManager
two_nodes = record {
  stage = dev;
  names = no_names;
  alive = true;
  zk_ins = (codes "crm:app", node_1 ∷ node_2 ∷ []) ∷ [];
  route_cfg = [];
}

crm-Lacks : (Lacks b':' (codes "crm")) × (Lacks b'/' (codes "crm"))
crm-Lacks = ground arith

app-Lacks : (Lacks b':' (codes "app")) × (Lacks b'/' (codes "app"))
app-Lacks = ground arith

crm_new : get (codes "crm") no_names.project_map ≡ []
unfolding get lookup
crm_new = refl

get_deploy_name-paths_example :
    let name = codes "crm" ++ b':' ∷ codes "app" in
    ((get_route_path no_names name).1 ≡ [])
    × (get_deploy_name no_names (get_route_path no_names name).0 ≡ (name, []))
    × ((get_instance_path no_names name).1 ≡ [])
    × (get_deploy_name no_names ((get_instance_path no_names name).0 ++ codes "n1") ≡ (name, []))
get_deploy_name-paths_example =
    get_deploy_name-paths no_names (codes "crm") (codes "app") crm-Lacks.0 app-Lacks.0 crm-Lacks.1
      app-Lacks.1 crm_new (codes "n1")

abbrev dir : Text
dir = codes "/biz/crm/app/instance"

dir-name : get_deploy_name no_names dir ≡ (codes "crm:app", [])
unfolding get_deploy_name deploy_name_of split cons_head text_eq
dir-name = refl

abbrev n1_path : Text
n1_path = codes "/biz/crm/app/instance/n1"

n1-name : get_deploy_name no_names n1_path ≡ (codes "crm:app", [])
unfolding get_deploy_name deploy_name_of split cons_head text_eq
n1-name = refl

n1-typed :
    get_etcd_path no_names dev n1_path ≡ (zk_instance, (get_etcd_path no_names dev n1_path).1, [])
unfolding get_etcd_path parse_zk_path_v4 has_prefix parts_v4 split trim_prefix cons_head
    etcd_path_v4 parse_typ_v4 text_eq
n1-typed = refl

two_nodes-AreDistinct : AreDistinct (instances_at (codes "crm:app") two_nodes)
unfolding is_known instances_at lookup text_eq
two_nodes-AreDistinct = (refl, (refl, tt))

children-AreOf :
    All (IsOf outside_world dir (codes "crm:app") tt two_nodes) (codes "n1" ∷ codes "n3" ∷ [])
unfolding get_deploy_name deploy_name_of split cons_head text_eq
children-AreOf = (refl, (refl, tt))

on_children-counts_example :
    let (m', e', errors) = on_children outside_world dir tt two_nodes tt in
    (errors ≡ [])
    × (length (instances_at (codes "crm:app") m') ≡ 1)
    × (instances_at (codes "crm:web") m' ≡ [])
unfolding is_known instances_at lookup base_name text_eq trim_right last_index read_node
    unmarshal_node start_text start_time_of
on_children-counts_example =
    on_children-counts outside_world dir (codes "crm:app") tt two_nodes tt
      (codes "n1" ∷ codes "n3" ∷ []) [] (codes "crm:web") refl refl refl dir-name refl
      children-AreOf refl

on_deleted-others_example :
    is_known
      (codes "n2")
      (instances_at (codes "crm:app") (on_deleted outside_world n1_path two_nodes tt).0)
    ≡ (is_known (codes "n2") (instances_at (codes "crm:app") two_nodes)
        && not (text_eq (base_name n1_path) (codes "n2")))
on_deleted-others_example =
    on_deleted-others outside_world n1_path (codes "crm:app") (get_etcd_path no_names dev n1_path).1
      (codes "n2") two_nodes tt n1-typed n1-name two_nodes-AreDistinct
