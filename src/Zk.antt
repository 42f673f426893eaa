-- ===== src/Zk.antt =====
-- controllers/java/zk/path_util.go and zkpath.go: the paths of ZooKeeper at which the Java services
-- keep their routes, instances and configurations, and those in etcd that they are copied to. The
-- type `zkTyp`, a string, is a data type; `untyped` is the empty string.
pub mod Parsed
pub mod RoundTrip
pub mod Stages
pub mod Names
pub mod Client
pub mod Sync
pub mod Events
use snk_fork_dolphin.Base.{
  ◌≡◌, ◌+◌, Bool, true, false, ◌||◌, not, List, [], ◌∷◌, ◌++◌, Option, none, some, if◌then◌else◌,
  take, drop, length, ◌==◌, is_empty, ltb, ◌&&◌,
}
use snk_fork_dolphin.Base.Text.{Text, codes, text_eq, has_prefix, trim_prefix, index, last_index}
use snk_fork_dolphin.Base.Table.{Table, lookup, insert, delete}
use snk_fork_dolphin.Base.Path.{split, join, path_join}
use snk_fork_dolphin.Types.Stage.{Stage}
use snk_fork_dolphin.Types.Fault.{
  Errors, unknown_zk_typ, incomplete_zk_path, invalid_zk_path, empty_zk_path, unknown_service,
  invalid_etcd_path, invalid_cluster, instance_not_synced, unknown_etcd_typ, unknown_api,
}
use snk_fork_dolphin.EtcdKey.{
  stage_base_dir, java_zk_dir, java_zk_route, java_zk_instance, java_zk_config,
}

pub data ZkTyp : Type 0 where
  untyped zk_config zk_route zk_instance : ZkTyp

-- The maps of `simplePathInfo`, which are about the services of API 2.0 only.
pub record SimplePathInfo : Type 0 where
  pub service_map : Table Text
  pub project_map : Table Text

-- What a missing key of a map of strings gives: the empty string.
unfoldable pub get : Text → Table Text → Text
get k m = elim (lookup k m) [ none ↦ [] | some v ↦ v ]

-- The type that a path of API 4.0 names.
unfoldable pub parse_typ_v4 : Text → ZkTyp
parse_typ_v4 typ_str =
    if text_eq typ_str (codes "daemon") || text_eq typ_str (codes "instance")
    then zk_instance
    else (if text_eq typ_str (codes "policy")
        then zk_route
        else (if text_eq typ_str (codes "config") then zk_config else untyped))

-- The directory of a type, relative to that of the stage.
unfoldable pub rel_dir : ZkTyp → Text
rel_dir untyped = []
rel_dir zk_config = java_zk_config
rel_dir zk_route = java_zk_route
rel_dir zk_instance = java_zk_instance

unfoldable pub etcd_path_v4 : ZkTyp → Text → List Text → ZkTyp × Text × Errors
etcd_path_v4 untyped service others = (untyped, [], unknown_zk_typ ∷ [])
etcd_path_v4 typ service others = (typ, path_join (rel_dir typ ∷ codes "4" ∷ service ∷ others), [])

unfoldable pub parts_v4 : List Text → ZkTyp × Text × Errors
parts_v4 (biz ∷ app ∷ typ_str ∷ others) =
    etcd_path_v4 (parse_typ_v4 typ_str) (join b'.' (biz ∷ app ∷ [])) others
parts_v4 _ = (untyped, [], incomplete_zk_path ∷ [])

unfoldable pub parse_zk_path_v4 : Text → ZkTyp × Text × Errors
parse_zk_path_v4 zk_path =
    if not (has_prefix zk_path (codes "/biz/"))
    then (untyped, [], invalid_zk_path ∷ [])
    else parts_v4 (split b'/' (trim_prefix zk_path (codes "/biz/")))

unfoldable pub typ_v2 : Text → List Text → ZkTyp
typ_v2 typ_str others =
    if text_eq typ_str (codes "service")
    then (if is_empty others then zk_route else zk_instance)
    else zk_config

unfoldable pub parts_v2 : SimplePathInfo → List Text → ZkTyp × Text × Errors
parts_v2 sp (_ ∷ typ_str ∷ service ∷ others) =
    if not (text_eq typ_str (codes "config")) && not (text_eq typ_str (codes "service"))
    then (untyped, [], unknown_zk_typ ∷ [])
    else (let typ = typ_v2 typ_str others in
        let project_name = get service sp.service_map in
        if text_eq project_name []
        then (typ, [], unknown_service ∷ [])
        else (typ, path_join (rel_dir typ ∷ codes "2" ∷ project_name ∷ others), []))
parts_v2 sp _ = (untyped, [], invalid_zk_path ∷ [])

unfoldable pub parse_zk_path_v2 : SimplePathInfo → Text → ZkTyp × Text × Errors
parse_zk_path_v2 sp zk_path = parts_v2 sp (split b'/' zk_path)

-- The method `GetEtcdPath`.
unfoldable pub get_etcd_path : SimplePathInfo → Stage → Text → ZkTyp × Text × Errors
get_etcd_path sp env zk_path =
    if is_empty zk_path
    then (untyped, [], empty_zk_path ∷ [])
    else (let (typ, p, err) =
          if has_prefix zk_path (codes "/biz/")
          then parse_zk_path_v4 zk_path
          else parse_zk_path_v2 sp zk_path in
        if is_empty err then (typ, path_join (stage_base_dir env ∷ p ∷ []), []) else (typ, [], err))

-- The two parts of a name in API 4.0, cut at the last dot.
unfoldable pub cut_cluster : Text → Option (Text × Text)
cut_cluster cluster = elim (last_index b'.' cluster) [
  | none ↦ none
  | some idx ↦
      if idx + 1 == length cluster then none else some (take idx cluster, drop (idx + 1) cluster)
]

unfoldable pub zk_path_v2 : Text → Text → Text → Text × Errors
zk_path_v2 typ cluster other =
    if text_eq typ (codes "route")
    then (if not (text_eq other [])
        then ([], invalid_etcd_path ∷ [])
        else (path_join (codes "/" ∷ codes "service" ∷ cluster ∷ []), []))
    else (path_join (codes "/" ∷ typ ∷ cluster ∷ other ∷ []), [])

unfoldable pub zk_path_v4 : Text → Text → Text → Text × Errors
zk_path_v4 typ cluster other = elim (cut_cluster cluster) [
  | none ↦ ([], invalid_cluster ∷ [])
  | some (biz, app) ↦
      let dir = if text_eq typ (codes "route") then codes "policy/" else codes "config/" in
      (path_join (codes "/biz" ∷ biz ∷ app ∷ dir ∷ other ∷ []), [])
]

unfoldable pub zk_path_of_parts : List Text → Text × Errors
zk_path_of_parts (typ ∷ version ∷ cluster ∷ others) =
    let other = join b'/' others in
    if text_eq typ (codes "instance")
    then ([], instance_not_synced ∷ [])
    else (if not (text_eq typ (codes "config")) && not (text_eq typ (codes "route"))
        then ([], unknown_etcd_typ ∷ [])
        else (if text_eq version (codes "2")
            then zk_path_v2 typ cluster other
            else (if text_eq version (codes "4")
                then zk_path_v4 typ cluster other
                else ([], unknown_api ∷ []))))
zk_path_of_parts _ = ([], invalid_etcd_path ∷ [])

-- `getZKPath0`
unfoldable pub get_zk_path0 : Text → Text × Errors
get_zk_path0 stripped = zk_path_of_parts (split b'/' stripped)

-- What `getZKPath` calls the parts of the environment.
unfoldable pub strip_env : Text → Text
strip_env path = elim (index b'/' path) [
  | none ↦ path
  | some idx ↦ if ltb 0 idx && ltb (idx + 1) (length path) then drop (idx + 1) path else path
]

-- `java_zk_dir` ends in a slash, so the code adds none.
unfoldable pub get_zk_path : Stage → Text → Text × Errors
get_zk_path stage etcd_path =
    let prefix = java_zk_dir stage in
    if not (has_prefix etcd_path prefix)
    then ([], invalid_etcd_path ∷ [])
    else get_zk_path0 (strip_env (trim_prefix etcd_path prefix))
