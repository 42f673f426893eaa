-- ===== src/Process.antt =====
-- process/: the agent's view of the processes of its host. This file has what process/ reads and
-- writes of types/instance.go, and the instance's information of scan.go.
pub mod Env
pub mod Check
pub mod Watch
pub mod Scan
pub mod Ports
pub mod Shell
pub mod Pids
use snk_fork_dolphin.Base.{
  ℕ, zero, suc, ◌+◌, ◌++◌, Bool, true, false, List, [], ◌∷◌, Option, none, some, if◌then◌else◌,
  take, drop, length, ◌==◌, is_empty,
}
use snk_fork_dolphin.Base.Int.{ℤ}
use snk_fork_dolphin.Base.Outcome.{Outcome, done, panicked, ◌>>=◌}
use snk_fork_dolphin.Base.Path.{split}
use snk_fork_dolphin.Base.Table.{Table, lookup, insert}
use snk_fork_dolphin.Base.Text.{Text, codes, index}
use snk_fork_dolphin.Types.Deploy.{deploy_key}
use snk_fork_dolphin.Types.Instance.{LifeCycle}
use snk_fork_dolphin.Types.Stage.{Stage}

-- `Condition`, by its type; its message is left out.
pub data Condition : Type 0 where
  high_mem high_cpu high_disk_io high_threads probe_condition : Condition

-- `InstanceStatus`
pub data InstanceStatus : Type 0 where
  instance_warning instance_error instance_success instance_unknown : InstanceStatus

-- `Addr`
pub record Addr : Type 0 where
  pub ip : Text
  pub port : ℤ

-- What the package reads and writes of an `Instance`; times are nanoseconds since 1970.
pub record ProcInstance : Type 0 where
  pub projec_type : Text
  pub id : Text
  pub pid : ℕ
  pub deploy_name : Text
  pub user : Text
  pub host_id : Text
  pub stage : Stage
  pub is_service : Bool
  pub start_time : ℤ
  pub update_time : ℤ
  pub life_cycle : LifeCycle
  pub listening : List Addr
  pub status : InstanceStatus
  pub conditions : List Condition
  pub events : List Condition

-- `Instance.DeployKey`
abbrev pub proc_key : ProcInstance → Text
proc_key ins = deploy_key ins.projec_type ins.deploy_name

-- The loop of `getEnvMap`: it tests how many parts there are, not how many an entry has.
-- `env[1]` of an entry with no `=` panics.
unfoldable pub put_envs : Bool → List Text → Table Text → Outcome (Table Text)
put_envs two [] ret = done ret
put_envs two (e ∷ es) ret =
    let next : Outcome (Table Text) = elim (index b'=' e) [
      | none ↦ panicked
      | some i ↦ put_envs two es (insert (take i e) (drop (i + 1) e) ret)
    ] in
    let skipped = put_envs two es ret in if two then next else skipped

-- `getEnvMap` of the contents of `environ`; `none` is an error in reading them.
unfoldable pub get_env_map : Option Text → Outcome (Option (Table Text))
get_env_map none = done none
get_env_map (some content) = do
  let parts = split 0 content
  ret ← put_envs (length parts == 2) parts []
  done (some ret)

-- `GetEnvMap` of an `insInfo`: an error gives an empty map.
unfoldable pub info_env : Option Text → Outcome (Table Text)
info_env environ = do m ← get_env_map environ; done (elim m [ none ↦ [] | some t ↦ t ])

-- `envMap[k]`; a missing key gives the empty string.
unfoldable pub env_value : Text → Table Text → Text
env_value k t = elim (lookup k t) [ none ↦ [] | some v ↦ v ]

-- `getDeployKey`, `GetInstanceID` and `GetVersion`.
unfoldable pub get_deploy_key : Option Text → Outcome Text
unfolding env_value
get_deploy_key environ = do t ← info_env environ; done (env_value (codes "_depolyKey") t)

unfoldable pub get_instance_id : Option Text → Outcome Text
unfolding env_value
get_instance_id environ = do t ← info_env environ; done (env_value (codes "_instanceID") t)

unfoldable pub get_version : Option Text → Outcome Text
unfolding env_value
get_version environ = do t ← info_env environ; done (env_value (codes "_version") t)
