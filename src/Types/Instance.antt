-- ===== src/Types/Instance.antt =====
-- types/instance.go: what the controller reads of an instance.
use snk_fork_dolphin.Base.{Bool, false, true}
use snk_fork_dolphin.Base.Int.{ℤ}
use snk_fork_dolphin.Base.Text.{Text}
use snk_fork_dolphin.Types.Deploy.{deploy_key}

pub data LifeCycle : Type 0 where
  starting running stopping stopped : LifeCycle
  other_life_cycle : Text → LifeCycle

-- The test `LifeCycle == LCStopped`.
abbrev pub is_stopped : LifeCycle → Bool
is_stopped stopped = true
is_stopped _ = false

-- The times are seconds since 1970.
pub record Instance : Type 0 where
  pub projec_type : Text
  pub id : Text
  pub deploy_name : Text
  pub host_id : Text
  pub version : Text
  pub start_time : ℤ
  pub stop_time : ℤ
  pub life_cycle : LifeCycle

-- `Instance.DeployKey`
abbrev pub instance_key : Instance → Text
instance_key ins = deploy_key ins.projec_type ins.deploy_name
