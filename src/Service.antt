-- ===== src/Service.antt =====
-- controllers/java/service/service.go: the manager that checks the Java services of a stage. It
-- compares what ZooKeeper, the running instances and the routes say, and probes the services.
pub mod Probe
pub mod Load
pub mod Alerts
use snk_fork_dolphin.Base.{
  ℕ, zero, suc, ◌+◌, ◌++◌, Bool, true, false, List, [], ◌∷◌, Option, none, some, if◌then◌else◌,
  is_empty, not, ◌&&◌, ◌||◌, ◌==◌, ltb, leb, length, drop, map, get_elem?,
}
use snk_fork_dolphin.Base.Int.{ℤ, pos, ltb_ℤ}
use snk_fork_dolphin.Base.Path.{split}
use snk_fork_dolphin.Base.Table.{Table, lookup, insert}
use snk_fork_dolphin.Base.Text.{Text, codes, text_eq, has_prefix, trim_prefix}
use snk_fork_dolphin.Instances.{InsManager, running_instance}
use snk_fork_dolphin.Router.{Match, RouteItem, RouteCfg}
use snk_fork_dolphin.Router.Node.{ServiceNode}
use snk_fork_dolphin.Types.Fault.{Errors}
use snk_fork_dolphin.Types.Instance.{Instance}
use snk_fork_dolphin.Zk.Sync.{ZkManager, get_instance_list, get_route_config, list_deployment}

-- The first value of the first route to a version.
unfoldable pub route_version : List RouteItem → Text
route_version [] = []
route_version (v ∷ items) =
    if text_eq v.dst.key (codes "version")
    then elim v.dst.value [ [] ↦ [] | first ∷ _ ↦ first ]
    else route_version items

-- `getRouteVersion`; a nil configuration has none.
unfoldable pub get_route_version : Option RouteCfg → Text
get_route_version none = []
get_route_version (some cfg) = route_version cfg.route_items

-- The first part of a name at its colon.
unfoldable pub project_of : Text → Text
project_of name = elim (split b':' name) [ [] ↦ [] | project ∷ _ ↦ project ]

-- An alert on the number of instances: what it says, without the time and the texts around it.
pub record NumAlert : Type 0 where
  pub project : Text
  pub name : Text
  pub zk_num : ℕ
  pub running_num : ℕ
  pub zk_hosts : List Text
  pub actual_hosts : List Text

-- The order of strings by their bytes, and their sorting.
unfoldable pub text_le : Text → Text → Bool
text_le [] b = true
text_le (x ∷ a) [] = false
text_le (x ∷ a) (y ∷ b) = ltb x y || (x == y && text_le a b)

unfoldable pub insert_sorted : Text → List Text → List Text
insert_sorted a [] = a ∷ []
insert_sorted a (b ∷ bs) =
    let rest = b ∷ insert_sorted a bs in if text_le a b then a ∷ b ∷ bs else rest

unfoldable pub sorted : List Text → List Text
unfolding insert_sorted
sorted [] = []
sorted (a ∷ bs) = insert_sorted a (sorted bs)

unfoldable pub hosts_of : List ServiceNode → List Text
hosts_of [] = []
hosts_of (i ∷ ss) = i.host ∷ hosts_of ss

abbrev pub java_key : Text → Text
java_key name = codes "java/" ++ name

-- The services' manager sees the others through their interfaces, here the managers themselves;
-- `ip_of` gives the address of an instance.
module _ (ip_of : Instance → Text) (zk : ZkManager) (infor : InsManager) where
  unfoldable pub ips_of : Table Instance → List Text
  ips_of [] = []
  ips_of ((_, i) ∷ t) = ip_of i ∷ ips_of t

  -- One round of the loop of `checkHostRunningAndZKinstances`.
  unfoldable pub num_alert : Text → Option NumAlert
  num_alert v =
      let ss = get_instance_list v zk in
      let running = running_instance (java_key v) infor in
      if length ss == length running
      then none
      else some (record {
        project = project_of v;
        name = v;
        zk_num = length ss;
        running_num = length running;
        zk_hosts = sorted (hosts_of ss);
        actual_hosts = sorted (ips_of running);
      })

  unfoldable pub num_alerts : List Text → List NumAlert
  unfolding num_alert
  num_alerts [] = []
  num_alerts (v ∷ vs) = elim (num_alert v) [ none ↦ num_alerts vs | some a ↦ a ∷ num_alerts vs ]

  -- `checkHostRunningAndZKinstances`: the alerts that it sends. No call of it has an error.
  unfoldable pub check_host_running_and_zk_instances : List NumAlert × Errors
  unfolding num_alerts
  check_host_running_and_zk_instances = (num_alerts (list_deployment zk.zk_ins), [])

-- The loop that `checkZKVersion` makes its message with.
unfoldable pub other_versions : Text → List ServiceNode → List (Text × Text)
other_versions ver [] = []
other_versions ver (v ∷ ss) =
    if text_eq v.version ver
    then other_versions ver ss
    else (v.node_name, v.version) ∷ other_versions ver ss

module _ (zk : ZkManager) where
  -- One round of its loop: the project, and the instances of another version than the route's.
  unfoldable pub version_alert : Text → Option (Text × List (Text × Text))
  unfolding other_versions
  version_alert v =
      let ss = get_instance_list v zk in
      let ver = get_route_version (get_route_config v zk) in
      let msg = other_versions ver ss in
      if is_empty ss || is_empty ver || is_empty msg then none else some (project_of v, msg)

  unfoldable pub version_alerts : List Text → List (Text × List (Text × Text))
  unfolding version_alert
  version_alerts [] = []
  version_alerts (v ∷ vs) = elim (version_alert v) [
    | none ↦ version_alerts vs
    | some a ↦ a ∷ version_alerts vs
  ]

  -- `checkZKVersion` makes the alerts and sends none: what it sends, and its error.
  unfoldable pub check_zk_version : List (Text × List (Text × Text)) × Errors
  unfolding version_alerts
  check_zk_version = let made = version_alerts (list_deployment zk.zk_ins) in ([], [])

-- `interfaceIterator`
pub record InterfaceIterator {ℓ} (A : Type ℓ) : Type ℓ where
  pub idx : ℕ
  pub interfaces : List A

module _ {ℓ} {A : Type ℓ} where
  -- `Next`: `none` is nil, and `some none` an index out of range, where Go panics.
  unfoldable pub next : InterfaceIterator A → InterfaceIterator A × Option (Option A)
  next iter =
      if is_empty iter.interfaces
      then (iter, none)
      else (let idx = if leb (length iter.interfaces) (iter.idx + 1) then 0 else iter.idx + 1 in
          (record iter { idx = idx }, some (get_elem? iter.interfaces idx)))

  -- `toIterator` of the values of a map, in some order; nil is the iterator over nothing.
  unfoldable pub to_iterator : List A → InterfaceIterator A
  to_iterator ifs = record { idx = length ifs; interfaces = ifs }

-- `getNumVersion`: the keys of a map into which each version is put.
unfoldable pub version_map : List Instance → Table ℕ → Table ℕ
version_map [] m = m
version_map (v ∷ vs) m = version_map vs (insert v.version 0 m)

unfoldable pub get_num_version : List Instance → ℕ
unfolding version_map
get_num_version instances = length (version_map instances [])

-- The loop of `check` that finds the deployments of Java; the rest of it has no effect.
unfoldable pub java_names : List Text → List Text
java_names [] = []
java_names (v ∷ keys) =
    if has_prefix v (codes "java/")
    then trim_prefix v (codes "java/") ∷ java_names keys
    else java_names keys
