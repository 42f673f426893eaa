-- ===== src/Zk/Sync.antt =====
-- controllers/java/zk/sync_zk.go: the manager that copies the routes, the instances and the
-- configurations of the Java services from ZooKeeper to etcd, and knows the routes and instances.
use snk_fork_dolphin.Base.{
  ℕ, ◌++◌, Bool, false, List, [], ◌∷◌, Option, none, some, if◌then◌else◌, is_empty, not, drop, ◌+◌,
}
use snk_fork_dolphin.Base.Int.{ℤ}
use snk_fork_dolphin.Base.Chars.{trim_right}
use snk_fork_dolphin.Base.Outcome.{Outcome, done, panicked}
use snk_fork_dolphin.Base.Table.{Table, lookup, insert}
use snk_fork_dolphin.Base.Text.{Text, codes, text_eq, has_prefix, last_index}
use snk_fork_dolphin.Router.{RouteCfg, api_v2, api_v4, parse, route_string}
use snk_fork_dolphin.Router.Node.{ServiceNode, RawNode, unmarshal_node, empty_node}
use snk_fork_dolphin.Types.Fault.{Errors, outside, invalid_zk_path}
use snk_fork_dolphin.Types.Stage.{Stage}
use snk_fork_dolphin.Zk.{
  ZkTyp, untyped, zk_config, zk_route, zk_instance, SimplePathInfo, get_etcd_path,
}
use snk_fork_dolphin.Zk.Client.{Conn, get_values, set_node_value}
use snk_fork_dolphin.Zk.Names.{get_deploy_name, get_api_version, get_route_path}

-- The store `registry/generic` over etcd, known by its answers, and the decoders. `open_etcd` is
-- `GetStoreInstance`.
pub record Outside : Type 1 where
  pub conn : Conn
  pub Etcd : Type 0
  pub open_etcd : Etcd → Errors
  pub update_etcd : Text → Text → Etcd → Etcd × Errors
  pub delete_etcd : Text → Etcd → Etcd × Errors
  pub list_keys : Text → Etcd → Option (List Text)
  pub decode_json : Text → Option RawNode
  pub parse_time : Text → Option ℤ

-- `manager`; `alive` says that `zkClient` is not nil, and a route that is nil is `none`. What is
-- known of the names is a value here: other code changes it.
pub record ZkManager : Type 0 where
  pub stage : Stage
  pub names : SimplePathInfo
  pub alive : Bool
  pub zk_ins : Table (List ServiceNode)
  pub route_cfg : Table (Option RouteCfg)

-- `filepath.Base`
unfoldable pub base_name : Text → Text
base_name path =
    let s = trim_right (λ c. text_eq (c ∷ []) (codes "/")) path in
    if is_empty path
    then codes "."
    else (if is_empty s
        then codes "/"
        else elim (last_index b'/' s) [ none ↦ s | some i ↦ drop (i + 1) s ])

-- What a map of lists gives, a missing key the empty list.
unfoldable pub instances_at : Text → ZkManager → List ServiceNode
instances_at name m = elim (lookup name m.zk_ins) [ none ↦ [] | some ss ↦ ss ]

-- `GetRouteConfig`, which has no error.
unfoldable pub get_route_config : Text → ZkManager → Option RouteCfg
get_route_config name m = elim (lookup name m.route_cfg) [ none ↦ none | some rc ↦ rc ]

-- The pointers that `GetInstanceList` returns are all to the variable of its loop, and read as
-- the last instance.
unfoldable pub first_twice : List ServiceNode → List ServiceNode
first_twice [] = []
first_twice (s ∷ ss) = s ∷ s ∷ ss

unfoldable pub all_last : List ServiceNode → List ServiceNode
unfolding first_twice
all_last [] = []
all_last (s ∷ []) = s ∷ []
all_last (s ∷ t ∷ ss) = first_twice (all_last (t ∷ ss))

-- `GetInstanceList`, which has no error; a missing name gives nil.
unfoldable pub get_instance_list : Text → ZkManager → List ServiceNode
unfolding instances_at
get_instance_list name m = all_last (instances_at name m)

-- `ListDeployment`
unfoldable pub list_deployment : Table (List ServiceNode) → List Text
list_deployment [] = []
list_deployment ((k, _) ∷ t) = k ∷ list_deployment t

-- `Destory`
unfoldable pub destory : ZkManager → ZkManager
destory m = record m { alive = false }

module _ (O : Outside) where
  open O use {conn, Etcd, update_etcd, delete_etcd, list_keys, decode_json, parse_time}

  -- A node read from ZooKeeper, with its name and the version of the interface.
  unfoldable pub read_node : Text → Text → Option ServiceNode
  read_node path dat = elim (decode_json dat) [
    | none ↦ none
    | some o ↦ elim (unmarshal_node parse_time o empty_node) [
      | none ↦ none
      | some s ↦ some (record s {
        node_name = base_name path;
        api_version = if has_prefix path (codes "/biz/") then api_v4 else api_v2;
      })
    ]
  ]

  -- `parseZKData` for a name that is known.
  unfoldable pub put_data : ZkTyp → Text → Text → Text → ZkManager → ZkManager × Errors
  put_data zk_instance name path dat m = elim (read_node path dat) [
    | none ↦ (m, outside 2 ∷ [])
    | some s ↦ (record m { zk_ins = insert name (instances_at name m ++ s ∷ []) m.zk_ins }, [])
  ]
  put_data zk_route name path dat m =
      let (rc, errors) = parse dat (get_api_version m.names name) in
      if is_empty errors
      then (record m { route_cfg = insert name (some rc) m.route_cfg }, [])
      else (m, errors)
  put_data zk_config name path dat m = (m, [])
  put_data untyped name path dat m = (m, [])

  -- `parseZKData`
  unfoldable pub parse_zk_data : ZkTyp → Text → Text → ZkManager → ZkManager × Errors
  parse_zk_data typ path dat m =
      let (name, err) = get_deploy_name m.names path in
      if not (is_empty err)
      then (m, err)
      else (if is_empty name then (m, invalid_zk_path ∷ []) else put_data typ name path dat m)

  -- `SetRouteConfig`; with no client its call panics.
  unfoldable pub set_route_config :
      Text → Option RouteCfg → ZkManager → conn.Zoo → Outcome (ZkManager × conn.Zoo × Errors)
  set_route_config name cfg m zoo =
      let (path, err) = get_route_path m.names name in
      let val : Text = elim cfg [ none ↦ [] | some rc ↦ route_string rc ] in
      let (zoo', err') = set_node_value conn path val zoo in
      if not (is_empty err)
      then done (m, zoo, err)
      else (if is_empty path
          then done (m, zoo, invalid_zk_path ∷ [])
          else (if not m.alive
              then panicked
              else (if is_empty err'
                  then done (record m { route_cfg = insert name cfg m.route_cfg }, zoo', [])
                  else done (m, zoo', err'))))

  -- The loop of `ReloadData` over what was read; errors of the store are written to the log only.
  unfoldable pub reload_values : Table Text → ZkManager → Etcd → ZkManager × Etcd
  reload_values [] m e = (m, e)
  reload_values ((k, d) ∷ dat) m e =
      let (typ, etcd_path, err) = get_etcd_path m.names m.stage k in
      let m' = if is_empty err then (parse_zk_data typ k d m).0 else m in
      let e' = if is_empty err then (update_etcd etcd_path d e).0 else e in reload_values dat m' e'

  -- `ReloadData` over the paths of the configuration, each with its pattern; `none` is fuel that
  -- runs out. The errors of `parseZKData` are collected and not returned.
  unfoldable pub reload_data :
      ℕ
      → List (Text × (Text → Bool))
      → conn.Zoo
      → ZkManager
      → Etcd
      → Option (ZkManager × Etcd × Errors)
  unfolding reload_values
  reload_data fuel [] zoo m e = some (m, e, [])
  reload_data fuel ((base, matcher) ∷ paths) zoo m e =
      elim (get_values conn fuel (base ∷ []) matcher zoo []) [
        | none ↦ none
        | some (dat, errors) ↦
            let (m', e') = reload_values dat m e in
            let rest = reload_data fuel paths zoo m' e' in
            if is_empty errors then rest else some (m, e, errors)
      ]
