-- ===== src/Replica.antt =====
-- controllers/scheduler/replica.go: the controller of one deployment, which brings the host
-- configurations of its key to the number of instances and the version that are asked for.
-- `select` statements that wait for a timer or for the end of the context are answered by a
-- function from the number of the wait to a Boolean: true where the context has ended.
pub mod Stat
pub mod Legacy
pub mod Remove
pub mod Update
pub mod Add
pub mod Destroyed
pub mod Distinct
pub mod Status
pub mod Policy
use snk_fork_dolphin.Base.{ℕ, Bool, true, false, List, [], ◌∷◌, Option, none, some, if◌then◌else◌}
use snk_fork_dolphin.Base.Int.{ℤ, pos, ◌+ℤ◌}
use snk_fork_dolphin.Base.Text.{Text, text_eq}
use snk_fork_dolphin.Base.Table.{Table}
use snk_fork_dolphin.HostConfig.{Store, HcManager, list_host_configs, delete_host_configs}
use snk_fork_dolphin.Types.Deploy.{DeploySpec, DeployConfig, key_of, millisecond}
use snk_fork_dolphin.Types.Deploy.Validate.{validate}
use snk_fork_dolphin.Types.Externals.{Externals}
use snk_fork_dolphin.Types.Fault.{Errors}
use snk_fork_dolphin.Types.Stage.{Stage}

-- The entries of `spec.Info`; the nil map reads as an empty one.
abbrev pub entries : DeploySpec → Table ℤ
entries spec = elim spec.info [ none ↦ [] | some t ↦ t ]

module _ (X : Externals) where
  -- `replicaCtrl`. The timer is the time that is left on it, in nanoseconds; the interfaces `info`
  -- and `hcManager` are arguments of the functions that call them.
  pub record ReplicaCtrl : Type 0 where
    pub stage : Stage
    pub key : Text
    pub dc : DeployConfig X
    pub legacy_timer : Option ℤ
    pub expect_version : Text
    -- `opt.legacyVerionTimeout`
    pub legacy_verion_timeout : ℤ

  -- `newReplicaCtrl` at arguments that are not nil: `none` with the error, or the controller with
  -- the configuration as `Validate` leaves it.
  unfoldable pub new_replica_ctrl : DeployConfig X → ℤ → Option ReplicaCtrl × Errors
  new_replica_ctrl dc timeout =
      let (dc', errors) = validate X dc in
      let ctrl : ReplicaCtrl = record {
        stage = dc'.stage;
        key = key_of X dc';
        dc = dc';
        legacy_timer = none;
        expect_version = elim dc'.image_version [ none ↦ [] | some v ↦ v ];
        legacy_verion_timeout = timeout;
      } in
      elim errors [ [] ↦ (some ctrl, []) | e ∷ es ↦ (none, e ∷ es) ]

  -- `renewLease`
  unfoldable pub renew_lease : ReplicaCtrl → ReplicaCtrl
  renew_lease c = elim c.legacy_timer [
    | none ↦ c
    | some left ↦ record c { legacy_timer = some c.legacy_verion_timeout }
  ]

  -- `revokeLease`
  unfoldable pub revoke_lease : ReplicaCtrl → ReplicaCtrl
  revoke_lease c = elim c.legacy_timer [
    | none ↦ c
    | some left ↦ record c { legacy_timer = some (pos millisecond) }
  ]

-- The inner loop of `hcStat`.
unfoldable pub info_stat : Text → Table ℤ → ℤ → ℤ → ℤ × ℤ
info_stat expect [] num_exp num_unexp = (num_exp, num_unexp)
info_stat expect ((ver, num) ∷ info) num_exp num_unexp =
    info_stat expect info (if text_eq ver expect then num_exp +ℤ num else num_exp)
      (if text_eq ver expect then num_unexp else num_unexp +ℤ num)

-- The outer loop of `hcStat`.
unfoldable pub hosts_stat : Text → Table DeploySpec → ℤ → ℤ → ℤ × ℤ
unfolding info_stat
hosts_stat expect [] num_exp num_unexp = (num_exp, num_unexp)
hosts_stat expect ((h, cfg) ∷ hc) num_exp num_unexp =
    let (num_exp', num_unexp') = info_stat expect (entries cfg) num_exp num_unexp in
    hosts_stat expect hc num_exp' num_unexp'

-- `hcStat`: the instances of the expected version, and those of all others.
unfoldable pub hc_stat : Text → Table DeploySpec → ℤ × ℤ
unfolding hosts_stat
hc_stat expect hc = hosts_stat expect hc (pos 0) (pos 0)

module _ (D : Store) where
  -- `Destroy`: the list of hosts that it makes is empty, and nothing is put into it.
  unfoldable pub destroy : Text → HcManager D → HcManager D × Errors
  destroy key m = delete_host_configs D key [] m
