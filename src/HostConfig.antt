-- ===== src/HostConfig.antt =====
-- controllers/types/impl/hc.go: the manager of the host configurations, which holds for each
-- deploy key and host how many instances of each version are expected, and writes them to etcd.
-- The Go code shares the map in a `DeploySpec` with its callers. Every caller that changes it goes
-- on to set or delete that host's configuration, and the manager's own copy changes then whatever
-- etcd answers, so a specification is a value here.
pub mod Tables
pub mod Mirror
pub mod Load
use snk_fork_dolphin.Base.{
  ℕ, ◌+◌, ◌++◌, Bool, true, false, List, [], ◌∷◌, Option, none, some, if◌then◌else◌, is_empty, ltb,
  length, take, drop,
}
use snk_fork_dolphin.Base.Text.{Text, codes, last_index}
use snk_fork_dolphin.Base.Table.{Table, lookup, insert, delete}
use snk_fork_dolphin.EtcdKey.{deploy_host_expect_path_of, deploy_host_expect_dir}
use snk_fork_dolphin.Types.Deploy.{DeploySpec}
use snk_fork_dolphin.Types.Fault.{Errors}
use snk_fork_dolphin.Types.Stage.{Stage}

-- registry/generic, as the manager calls it on specifications: a state, how it answers, and what
-- can be read back.
pub record Store : Type 1 where
  pub State : Type 0
  -- the error of `generic.GetStoreInstance`
  pub instance_error : Text → State → Errors
  pub update : Text → DeploySpec → State → State × Errors
  pub remove : Text → State → State × Errors
  pub read : Text → State → Option DeploySpec

-- The zero value of `DeploySpec`.
abbrev pub no_spec : DeploySpec
no_spec = record { info = none }

module _ (D : Store) where
  open D use {State, instance_error, update, remove}

  -- `hcManager`
  pub record HcManager : Type 0 where
    pub stage : Stage
    pub cfgs : Table (Table DeploySpec)
    pub store : State

  -- `m.cfgs[key]`; a missing map reads as an empty one.
  unfoldable pub key_map : Text → HcManager → Table DeploySpec
  key_map key m = elim (lookup key m.cfgs) [ none ↦ [] | some hosts ↦ hosts ]

  -- `setHostDeployspec`, at a pointer that may be nil.
  unfoldable pub set_host_deployspec : Text → Text → Option DeploySpec → HcManager → State × Errors
  set_host_deployspec host_id key spec m =
      let path = deploy_host_expect_path_of m.stage host_id key in
      elim (instance_error path m.store) [
        | [] ↦ elim spec [ some cfg ↦ update path cfg m.store | none ↦ remove path m.store ]
        | e ∷ es ↦ (m.store, e ∷ es)
      ]

  -- `deleteHostDeployspec`
  unfoldable pub delete_host_deployspec : Text → Text → HcManager → State × Errors
  delete_host_deployspec host_id key m =
      let path = deploy_host_expect_path_of m.stage host_id key in
      elim (instance_error path m.store) [ [] ↦ remove path m.store | e ∷ es ↦ (m.store, e ∷ es) ]

  -- `ListDeployKeys`
  unfoldable pub list_deploy_keys : Table (Table DeploySpec) → List Text
  list_deploy_keys [] = []
  list_deploy_keys ((k, _) ∷ cfgs) = k ∷ list_deploy_keys cfgs

  -- The loop of `DeleteHostConfigs`: what is left of the map of the key, the store, the errors.
  unfoldable pub delete_hosts :
      List Text → Text → Table DeploySpec → HcManager → Table DeploySpec × HcManager × Errors
  unfolding delete_host_deployspec
  delete_hosts [] key hosts m = (hosts, m, [])
  delete_hosts (h ∷ hs) key hosts m =
      let (store, errors) = delete_host_deployspec h key m in
      let (hosts', m', later) = delete_hosts hs key (delete h hosts) (record m { store = store }) in
      (hosts', m', errors ++ later)

  -- `DeleteHostConfigs`
  unfoldable pub delete_host_configs : Text → List Text → HcManager → HcManager × Errors
  unfolding delete_hosts
  delete_host_configs key host_ids m =
      let found : Table DeploySpec → HcManager × Errors = λ hosts.
        let (hosts', m', errors) = delete_hosts host_ids key hosts m in
        let cfgs = if is_empty hosts' then delete key m.cfgs else insert key hosts' m.cfgs in
        (record m' { cfgs = cfgs }, errors) in
      elim (lookup key m.cfgs) [ none ↦ (m, []) | some hosts ↦ found hosts ]

  -- `SetHostConfig`
  unfoldable pub set_host_config : Text → Text → DeploySpec → HcManager → HcManager × Errors
  unfolding key_map set_host_deployspec
  set_host_config key host_id cfg m =
      let m' = record m { cfgs = insert key (insert host_id cfg (key_map key m)) m.cfgs } in
      let (store, errors) = set_host_deployspec host_id key (some cfg) m' in
      (record m' { store = store }, errors)

  -- `GetHostConfig`; `none` is the nil pointer. A host that the key's map does not hold gives the
  -- zero specification.
  unfoldable pub get_host_config : Text → Text → HcManager → Option DeploySpec
  unfolding key_map
  get_host_config key host_id m =
      let hosts = key_map key m in
      if is_empty hosts
      then none
      else some (elim (lookup host_id hosts) [ none ↦ no_spec | some cfg ↦ cfg ])

  -- `ListHostConfigs`
  unfoldable pub list_host_configs : Text → HcManager → Table DeploySpec
  unfolding key_map
  list_host_configs key m = key_map key m

-- The split of one name in `loadHostDeploySpec`: at its last slash. `none` is `continue`.
unfoldable pub load_name : Text → Option (Text × Text)
load_name k = elim (last_index b'/' k) [
  | none ↦ none
  | some idx ↦ if ltb (length k) (idx + 1) then none else some (take idx k, drop (idx + 1) k)
]

-- The loop of `loadHostDeploySpec` over what the store lists.
unfoldable pub load_all : Table DeploySpec → Table (Table DeploySpec) → Table (Table DeploySpec)
unfolding load_name
load_all [] ret = ret
load_all ((k, spec) ∷ out) ret =
    let add_entry : Text × Text → Table (Table DeploySpec) = λ e.
      let hmap : Table DeploySpec = elim (lookup e.0 ret) [ none ↦ [] | some hosts ↦ hosts ] in
      insert e.0 (insert e.1 spec hmap) ret in
    load_all out (elim (load_name k) [ none ↦ ret | some e ↦ add_entry e ])
