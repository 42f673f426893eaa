-- ===== src/Manager.antt =====
-- controllers/scheduler/manager.go: the manager of the replica controllers of one stage. It holds
-- pointers to controllers, so what a controller's method changes stands in the table afterwards.
pub mod Fresh
pub mod Keys
pub mod Calls
pub mod Version
use snk_fork_dolphin.Base.{
  ℕ, Bool, true, false, ◌++◌, List, [], ◌∷◌, Option, none, some, if◌then◌else◌, is_empty,
}
use snk_fork_dolphin.Base.Int.{ℤ, eqb_ℤ}
use snk_fork_dolphin.Base.Outcome.{Outcome, done, panicked}
use snk_fork_dolphin.Base.Text.{Text}
use snk_fork_dolphin.Base.Table.{Table, lookup, insert, delete}
use snk_fork_dolphin.HostConfig.{Store, HcManager}
use snk_fork_dolphin.Types.Deploy.{DeployConfig, key_of}
use snk_fork_dolphin.Types.Deploy.Validate.{validate}
use snk_fork_dolphin.Types.Externals.{Externals}
use snk_fork_dolphin.Types.Fault.{
  Errors, wrong_stage, unknown_deployment, in_process, unmanaged_keys,
}
use snk_fork_dolphin.Types.Instance.{Instance}
use snk_fork_dolphin.Types.Stage.{Stage}
use snk_fork_dolphin.Replica
use snk_fork_dolphin.Replica.{ReplicaCtrl, new_replica_ctrl, renew_lease, revoke_lease}
use snk_fork_dolphin.Replica.Policy
use snk_fork_dolphin.Replica.Policy.{Waits, Run}
use snk_fork_dolphin.Replica.Status

module _ (X : Externals) (D : Store) where
  -- `manager`. `controllers` is a map that may be nil of pointers that may be nil.
  pub record Manager : Type 0 where
    pub stage : Stage
    pub lease : ℤ
    pub controllers : Option (Table (Option (ReplicaCtrl X)))
    pub hc_manager : HcManager D

  -- `NewSchedular` at arguments that are not nil: the map of the controllers is not made.
  unfoldable pub new_schedular : Stage → ℤ → HcManager D → Manager
  new_schedular stage lease hc_manager = record {
    stage = stage;
    lease = lease;
    controllers = none;
    hc_manager = hc_manager;
  }

  -- `getController`: `c, ok`.
  unfoldable pub get_controller : Text → Manager → Option (Option (ReplicaCtrl X))
  get_controller key m = elim m.controllers [ none ↦ none | some t ↦ lookup key t ]

  -- `controlerReady`
  unfoldable pub controler_ready : Text → Manager → Option (ReplicaCtrl X) × Errors
  unfolding get_controller
  controler_ready key m = elim (get_controller key m) [
    | none ↦ (none, unknown_deployment ∷ [])
    | some none ↦ (none, in_process ∷ [])
    | some (some c) ↦ (some c, [])
  ]

  -- `updateController`: a write to the nil map panics.
  unfoldable pub update_controller : Text → ReplicaCtrl X → Manager → Outcome Manager
  update_controller key c m = elim m.controllers [
    | none ↦ panicked
    | some t ↦ done (record m { controllers = some (insert key (some c) t) })
  ]

  -- `deleteController`
  unfoldable pub delete_controller : Text → Manager → Manager
  delete_controller key m = elim m.controllers [
    | none ↦ m
    | some t ↦ record m { controllers = some (delete key t) }
  ]

  -- The manager once the controller that the table holds for the key has become `c`.
  unfoldable pub mutated : Text → ReplicaCtrl X → Manager → Manager
  mutated key c m = elim m.controllers [
    | none ↦ m
    | some t ↦ record m { controllers = some (insert key (some c) t) }
  ]

  -- The result of a call: no result where the fuel of a loop runs out, a panic, or the manager and
  -- the error.
  abbrev pub Result : Type 0
  Result = Option (Outcome (Manager × Errors))

  -- What `c.Deploy` leaves, in the manager.
  unfoldable pub deployed : Text → Manager → Run X D → Result
  unfolding mutated
  deployed key m none = none
  deployed key m (some panicked) = some panicked
  deployed key m (some (done (c, hc, errors))) =
      some (done (mutated key c (record m { hc_manager = hc }), errors))

  unfoldable pub with_errors : Errors → Outcome Manager → Result
  with_errors errors panicked = some panicked
  with_errors errors (done m) = some (done (m, errors))

  -- `updateController`, then the error of `Update`.
  unfoldable pub replaced : Text → ReplicaCtrl X → Result → Result
  unfolding update_controller with_errors
  replaced key c none = none
  replaced key c (some panicked) = some panicked
  replaced key c (some (done (m, errors))) = with_errors errors (update_controller key c m)

  -- `RevokeLegacyLease`
  unfoldable pub revoke_legacy_lease : Text → Manager → Manager × Errors
  unfolding controler_ready mutated
  revoke_legacy_lease key m =
      let (ready, errors) = controler_ready key m in
      elim ready [ none ↦ (m, errors) | some c ↦ (mutated key (revoke_lease X c) m, []) ]

  -- `RenewLegacyLease`
  unfoldable pub renew_legacy_lease : Text → Manager → Manager × Errors
  unfolding controler_ready mutated
  renew_legacy_lease key m =
      let (ready, errors) = controler_ready key m in
      elim ready [ none ↦ (m, errors) | some c ↦ (mutated key (renew_lease X c) m, []) ]

  -- `Destroy`
  unfoldable pub destroy : Text → Manager → Manager × Errors
  unfolding controler_ready
  destroy key m =
      let (ready, errors) = controler_ready key m in
      let end : ReplicaCtrl X → Manager × Errors = λ c.
        let (hc, errors') = Replica.destroy D c.key m.hc_manager in
        (record m { hc_manager = hc }, errors') in
      elim ready [ none ↦ (m, errors) | some c ↦ end c ]

  -- The first loop of `CheckStatus`: the keys that have a controller, or those that have none.
  unfoldable pub keys_where : Bool → List Text → Manager → List Text
  unfolding get_controller
  keys_where has [] m = []
  keys_where has (k ∷ ks) m =
      let rest = keys_where has ks m in
      elim (get_controller k m) [
        | none ↦ if has then rest else k ∷ rest
        | some c ↦ if has then k ∷ rest else rest
      ]

  -- The second loop of `CheckStatus`, where `running` is `RunningInstance` of the instance manager.
  unfoldable pub check_loop : (Text → Table Instance) → List Text → Manager → Manager × Errors
  unfolding get_controller
  check_loop running [] m = (m, [])
  check_loop running (k ∷ ks) m =
      let check : ReplicaCtrl X → Manager × Errors = λ c.
        let (hc, errors) = Status.check_status X D c (running k) m.hc_manager in
        (record m { hc_manager = hc }, errors) in
      let (m', errors) : Manager × Errors = elim (get_controller k m) [
        | none ↦ (m, [])
        | some none ↦ (m, [])
        | some (some c) ↦ check c
      ] in
      let (m'', later) = check_loop running ks m' in (m'', errors ++ later)

  -- `CheckStatus`, where `keys` is `ListDeploykeys` of the instance manager; the alerts are left out.
  unfoldable pub check_status : (Text → Table Instance) → List Text → Manager → Manager × Errors
  unfolding keys_where check_loop
  check_status running keys m =
      let (m', errors) = check_loop running (keys_where true keys m) m in
      (m', errors ++ (if is_empty (keys_where false keys m) then [] else unmanaged_keys ∷ []))

  module _ {S : Type 0} (next_host : S → S × Text × Errors) where
    -- `Update` at a pointer that may be nil. A nil controller in the table panics.
    unfoldable pub update : Waits → ℕ → S → Option (DeployConfig X) → Manager → Result
    unfolding get_controller deployed
    update w fuel s none m = some (done (m, []))
    update w fuel s (some dc) m =
        let (dc', errors) = validate X dc in
        let key = key_of X dc' in
        let known : Result = elim (get_controller key m) [
          | none ↦ some (done (m, unknown_deployment ∷ []))
          | some none ↦ some panicked
          | some (some c) ↦ deployed key m (Policy.deploy X D next_host w fuel s dc' c m.hc_manager)
        ] in
        elim errors [
          | e ∷ es ↦ some (done (m, e ∷ es))
          | [] ↦ if eqb_ℤ dc'.stage m.stage then known else some (done (m, wrong_stage ∷ []))
        ]

    -- `Deploy` at a pointer that may be nil.
    unfoldable pub deploy : Waits → ℕ → S → Option (DeployConfig X) → Manager → Result
    unfolding controler_ready delete_controller update replaced
    deploy w fuel s none m = some (done (m, []))
    deploy w fuel s (some dc) m =
        let (dc', invalid) = validate X dc in
        let key = key_of X dc' in
        let (ready, not_ready) = controler_ready key m in
        let (made, refused) = new_replica_ctrl X dc' m.lease in
        let start : Result = elim made [
          | none ↦ some (done (delete_controller key m, refused))
          | some c ↦ replaced key c (update w fuel s (some c.dc) m)
        ] in
        elim invalid [
          | e ∷ es ↦ some (done (m, e ∷ es))
          | [] ↦ elim ready [ none ↦ some (done (m, not_ready)) | some c ↦ start ]
        ]
