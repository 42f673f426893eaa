-- ===== src/Zk/Names.antt =====
-- controllers/java/zk/zkpath.go and controllers/java/project: the names of the Java deployments, and
-- the paths of ZooKeeper that belong to them. Services of API 2.0 have a name of their own, which
-- the projects in etcd give.
pub mod Back
use snk_fork_dolphin.Base.{
  ◌++◌, Bool, true, false, ◌&&◌, ◌||◌, not, List, [], ◌∷◌, Option, none, some, if◌then◌else◌, ◌==◌,
  leb, length, is_empty,
}
use snk_fork_dolphin.Base.Outcome.{Outcome, done, panicked}
use snk_fork_dolphin.Base.Path.{split}
use snk_fork_dolphin.Base.Table.{Table, lookup, insert, delete}
use snk_fork_dolphin.Base.Text.{Text, codes, text_eq}
use snk_fork_dolphin.Router.{api_v2, api_v4}
use snk_fork_dolphin.Types.Fault.{
  Errors, outside, invalid_deploy_name, invalid_zk_path, unknown_service,
}
use snk_fork_dolphin.Zk.{SimplePathInfo, get}

-- `project.Info`
pub record ProjectInfo : Type 0 where
  pub api_version : Text
  pub service_name : Text
  pub project : Text

-- `getServiceName`: the version of the interface and the service, or the two parts of the name.
unfoldable pub get_service_name : SimplePathInfo → Text → Text × Text × Errors
get_service_name sp name = elim (split b':' name) [
  | [] ↦ ([], [], invalid_deploy_name ∷ [])
  | _ ∷ [] ↦ ([], [], invalid_deploy_name ∷ [])
  | project ∷ bin ∷ [] ↦
      let s = get project sp.project_map in
      if text_eq s [] then (api_v4, project ++ b'/' ∷ bin, []) else (api_v2, s, [])
  | _ ∷ _ ∷ _ ∷ _ ↦ ([], [], invalid_deploy_name ∷ [])
]

unfoldable pub get_project_name : SimplePathInfo → Text → Text × Text
get_project_name sp service =
    let s = get service sp.service_map in if text_eq s [] then (api_v4, service) else (api_v2, s)

-- What `GetRoutePath` and `GetInstancePath` do with the service.
unfoldable pub route_path : Text → Text → Text
route_path ver s =
    if text_eq ver api_v2
    then codes "/service/" ++ s
    else codes "/biz/" ++ (s ++ codes "/policy/default/route")

unfoldable pub instance_path : Text → Text → Text
instance_path ver s =
    if text_eq ver api_v2
    then codes "/service/" ++ (s ++ codes "/")
    else codes "/biz/" ++ (s ++ codes "/instance/")

unfoldable pub get_route_path : SimplePathInfo → Text → Text × Errors
get_route_path sp name =
    let (ver, s, err) = get_service_name sp name in
    if is_empty err then (route_path ver s, []) else ([], err)

unfoldable pub get_instance_path : SimplePathInfo → Text → Text × Errors
get_instance_path sp name =
    let (ver, s, err) = get_service_name sp name in
    if is_empty err then (instance_path ver s, []) else ([], err)

unfoldable pub all_digits : Text → Bool
all_digits [] = true
all_digits (c ∷ s) = (leb b'0' c && leb c b'9') && all_digits s

-- What `binRe` matches at the end, an underscore and one to three digits, is cut off.
unfoldable pub bin_of : Text → Text
unfolding all_digits
bin_of [] = []
bin_of (c ∷ s) =
    let rest = c ∷ bin_of s in
    if c == b'_' && (all_digits s && (leb 1 (length s) && leb (length s) 3)) then [] else rest

-- `GetDeployName` for the elements of a path; the first is what stands before the first slash.
unfoldable pub deploy_name_of : SimplePathInfo → List Text → Text × Errors
deploy_name_of sp (_ ∷ kind ∷ name ∷ rest) =
    let (ver, s) = get_project_name sp name in
    if text_eq kind (codes "biz")
    then elim rest [ [] ↦ ([], invalid_zk_path ∷ []) | bin ∷ _ ↦ (name ++ b':' ∷ bin, []) ]
    else (if not (text_eq ver api_v2) then ([], unknown_service ∷ []) else elim rest [
      | [] ↦ (s, [])
      | bin ∷ _ ↦ if text_eq kind (codes "service") then (s ++ b':' ∷ bin_of bin, []) else (s, [])
    ])
deploy_name_of sp _ = ([], invalid_zk_path ∷ [])

unfoldable pub get_deploy_name : SimplePathInfo → Text → Text × Errors
get_deploy_name sp zk_path = deploy_name_of sp (split b'/' zk_path)

unfoldable pub get_api_version : SimplePathInfo → Text → Text
get_api_version sp name = (get_service_name sp name).0

-- What a project of API 2.0 does to the maps.
unfoldable pub put_project : ProjectInfo → SimplePathInfo → SimplePathInfo
put_project dat sp =
    if text_eq dat.api_version api_v2
    then record {
      service_map = insert dat.service_name dat.project sp.service_map;
      project_map = insert dat.project dat.service_name sp.project_map;
    }
    else sp

unfoldable pub drop_project : ProjectInfo → SimplePathInfo → SimplePathInfo
drop_project dat sp =
    if text_eq dat.api_version api_v2
    then record {
      service_map = delete dat.service_name sp.service_map;
      project_map = delete dat.project sp.project_map;
    }
    else sp

-- `watch.Event` of projects.
pub data ProjectEvent : Type 0 where
  project_added project_modified project_deleted : ProjectInfo → ProjectEvent
  project_error : ProjectEvent

-- The handler of `load`, and its loop over the events that come in.
unfoldable pub handle_project : ProjectEvent → SimplePathInfo → SimplePathInfo
handle_project (project_added dat) sp = put_project dat sp
handle_project (project_modified dat) sp = put_project dat sp
handle_project (project_deleted dat) sp = drop_project dat sp
handle_project project_error sp = sp

unfoldable pub watch_projects : List ProjectEvent → SimplePathInfo → SimplePathInfo
unfolding handle_project
watch_projects [] sp = sp
watch_projects (e ∷ es) sp = watch_projects es (handle_project e sp)

-- The loop of `load` over the projects that the store lists.
unfoldable pub load_projects : List ProjectInfo → SimplePathInfo → SimplePathInfo
load_projects [] sp = sp
load_projects (v ∷ vs) sp = load_projects vs (put_project v sp)

-- `NewSimplePathInfo` and `load`, where `listed` is what the store lists, `none` its error.
unfoldable pub new_simple_path_info : Option (List ProjectInfo) → Option SimplePathInfo × Errors
unfolding load_projects
new_simple_path_info none = (none, outside 0 ∷ [])
new_simple_path_info (some listed) =
    (some (load_projects listed (record { service_map = []; project_map = [] })), [])

-- `Stop` closes `stopC`, which no function makes: closing a nil channel panics.
unfoldable pub stop_paths : SimplePathInfo → Outcome SimplePathInfo
stop_paths sp = panicked
