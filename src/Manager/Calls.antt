-- ===== src/Manager/Calls.antt =====
-- What every call keeps (controllers/scheduler/manager.go).
use snk_fork_dolphin.Base.{
  ℕ, ◌≡◌, ◌≢◌, refl, arith, true, false, [], ◌∷◌, Option, none, some, Option-cases, Bool-cases,
  List-cases, inl, inr,
}
use snk_fork_dolphin.Base.Int.{eqb_ℤ}
use snk_fork_dolphin.Base.Outcome.{done, panicked}
use snk_fork_dolphin.Base.Text.{Text}
use snk_fork_dolphin.HostConfig.{Store}
use snk_fork_dolphin.Types.Deploy.{DeployConfig, key_of}
use snk_fork_dolphin.Types.Deploy.Validate.{validate, validate-IsDeployable, validate_again}
use snk_fork_dolphin.Types.Externals.{Externals}
use snk_fork_dolphin.Types.Fault.{Errors, unknown_deployment, wrong_stage}
use snk_fork_dolphin.Replica.{ReplicaCtrl, new_replica_ctrl}
use snk_fork_dolphin.Replica.Policy
use snk_fork_dolphin.Replica.Policy.{Waits, Run}
use snk_fork_dolphin.Replica.Policy.Keeps.{deploy-Keeps}
use snk_fork_dolphin.Manager.{
  Manager, get_controller, controler_ready, delete_controller, Result, deployed, replaced,
  keys_where, check_status, update, deploy,
}
use snk_fork_dolphin.Manager.Fresh.{
  Call, call_deploy, call_update, call_revoke, call_renew, call_destroy, call_check, run_call,
}
use snk_fork_dolphin.Manager.Keys.{
  KeysMatch, LeftBy, deployed-KeysMatch, replaced-KeysMatch, revoke-KeysMatch, renew-KeysMatch,
  destroy-KeysMatch, check_loop-KeysMatch, new_replica_ctrl-key, delete_controller-KeysMatch,
}

module _ (X : Externals) (D : Store) {S : Type 0} (next_host : S → S × Text × Errors) where
  -- `Update` of a valid configuration of the manager's stage is `Deploy` of the controller.
  pub update_known :
      (w : Waits) (fuel : ℕ) (s : S) (dc : DeployConfig X) (m : Manager X D) {c : ReplicaCtrl X}
      → let dc' = (validate X dc).0 in
        let key = key_of X dc' in
        (validate X dc).1 ≡ []
        → eqb_ℤ dc'.stage m.stage ≡ true
        → get_controller X D key m ≡ some (some c)
        → update X D next_host w fuel s (some dc) m
          ≡ deployed X D key m (Policy.deploy X D next_host w fuel s dc' c m.hc_manager)
  unfolding update
  update_known w fuel s dc m valid here found = ground arith

  pub update_invalid :
      (w : Waits) (fuel : ℕ) (s : S) (dc : DeployConfig X) (m : Manager X D)
      → (validate X dc).1 ≢ []
      → update X D next_host w fuel s (some dc) m ≡ some (done (m, (validate X dc).1))
  unfolding update
  update_invalid w fuel s dc m invalid = ground arith

  pub update_elsewhere :
      (w : Waits) (fuel : ℕ) (s : S) (dc : DeployConfig X) (m : Manager X D)
      → (validate X dc).1 ≡ []
      → eqb_ℤ (validate X dc).0.stage m.stage ≡ false
      → update X D next_host w fuel s (some dc) m ≡ some (done (m, wrong_stage ∷ []))
  unfolding update
  update_elsewhere w fuel s dc m valid elsewhere = ground arith

  module _ (w : Waits) (fuel : ℕ) (s : S) (dc : DeployConfig X) (m : Manager X D)
      (valid : (validate X dc).1 ≡ []) (here : eqb_ℤ (validate X dc).0.stage m.stage ≡ true) where
    update_absent :
        get_controller X D (key_of X (validate X dc).0) m ≡ none
        → update X D next_host w fuel s (some dc) m ≡ some (done (m, unknown_deployment ∷ []))
    unfolding update
    update_absent absent = ground arith

    update_nil :
        get_controller X D (key_of X (validate X dc).0) m ≡ some none
        → update X D next_host w fuel s (some dc) m ≡ some panicked
    unfolding update
    update_nil nil = ground arith

    update_here-KeysMatch : KeysMatch X D m → LeftBy X D (update X D next_host w fuel s (some dc) m)
    update_here-KeysMatch own =
        let key = key_of X (validate X dc).0 in
        elim (Option-cases (get_controller X D key m)) [
          | inl absent ↦ rw (update_absent absent) own
          | inr (none, nil) ↦ rw (update_nil nil) tt
          | inr (some c, found) ↦ rw (update_known w fuel s dc m valid here found) (
              deployed-KeysMatch X D key c.expect_version m _ own (
                deploy-Keeps X D key c.expect_version next_host w fuel s (validate X dc).0 c
                  (own.own_key key c found) refl m.hc_manager))
        ]

  update-KeysMatch :
      (w : Waits) (fuel : ℕ) (s : S) (config : Option (DeployConfig X)) (m : Manager X D)
      → KeysMatch X D m
      → LeftBy X D (update X D next_host w fuel s config m)
  unfolding update
  update-KeysMatch w fuel s none m own = own
  update-KeysMatch w fuel s (some dc) m own = elim (List-cases (validate X dc).1) [
    | inr (e, es, invalid) ↦ rw (update_invalid w fuel s dc m (λ valid. cc)) own
    | inl valid ↦ elim (Bool-cases (eqb_ℤ (validate X dc).0.stage m.stage)) [
      | inr elsewhere ↦ rw (update_elsewhere w fuel s dc m valid elsewhere) own
      | inl here ↦ update_here-KeysMatch w fuel s dc m valid here own
    ]
  ]

  module _ (w : Waits) (fuel : ℕ) (s : S) (dc : DeployConfig X) (m : Manager X D) where
    deploy_invalid :
        (validate X dc).1 ≢ []
        → deploy X D next_host w fuel s (some dc) m ≡ some (done (m, (validate X dc).1))
    unfolding deploy
    deploy_invalid invalid = ground arith

    deploy_unready :
        (validate X dc).1 ≡ []
        → let ready = controler_ready X D (key_of X (validate X dc).0) m in
          ready.0 ≡ none → deploy X D next_host w fuel s (some dc) m ≡ some (done (m, ready.1))
    unfolding deploy
    deploy_unready valid unknown = ground arith

    deploy_unmade :
        {old : ReplicaCtrl X}
        → let dc' = (validate X dc).0 in
          (validate X dc).1 ≡ []
          → (controler_ready X D (key_of X dc') m).0 ≡ some old
          → (new_replica_ctrl X dc' m.lease).0 ≡ none
          → deploy X D next_host w fuel s (some dc) m
            ≡ some
                (done (delete_controller X D (key_of X dc') m, (new_replica_ctrl X dc' m.lease).1))
    unfolding deploy
    deploy_unmade valid ready unmade = ground arith

    deploy_made :
        {old c : ReplicaCtrl X}
        → let dc' = (validate X dc).0 in
          (validate X dc).1 ≡ []
          → (controler_ready X D (key_of X dc') m).0 ≡ some old
          → (new_replica_ctrl X dc' m.lease).0 ≡ some c
          → deploy X D next_host w fuel s (some dc) m
            ≡ replaced X D (key_of X dc') c (update X D next_host w fuel s (some c.dc) m)
    unfolding deploy
    deploy_made valid ready made = ground arith

  deploy-KeysMatch :
      (w : Waits) (fuel : ℕ) (s : S) (config : Option (DeployConfig X)) (m : Manager X D)
      → KeysMatch X D m
      → LeftBy X D (deploy X D next_host w fuel s config m)
  unfolding deploy
  deploy-KeysMatch w fuel s none m own = own
  deploy-KeysMatch w fuel s (some dc) m own =
      let dc' = (validate X dc).0 in
      let key = key_of X dc' in
      elim (List-cases (validate X dc).1) [
        | inr (e, es, invalid) ↦ rw (deploy_invalid w fuel s dc m (λ valid. cc)) own
        | inl valid ↦ elim (Option-cases (controler_ready X D key m).0) [
          | inl unknown ↦ rw (deploy_unready w fuel s dc m valid unknown) own
          | inr (old, ready) ↦ elim (Option-cases (new_replica_ctrl X dc' m.lease).0) [
            | inl unmade ↦
                rw (deploy_unmade w fuel s dc m valid ready unmade)
                  (delete_controller-KeysMatch X D key m own)
            | inr (c, made) ↦
                let again = validate_again X dc' (validate-IsDeployable X dc valid) in
                rw (deploy_made w fuel s dc m valid ready made) (
                  replaced-KeysMatch X D key c _ (new_replica_ctrl-key X D dc' m.lease made again)
                    (update-KeysMatch w fuel s (some c.dc) m own))
          ]
        ]
      ]

  LeftBy-call :
      {r : Result X D} {m' : Manager X D} {errors : Errors}
      → LeftBy X D r
      → r ≡ some (done (m', errors))
      → KeysMatch X D m'
  LeftBy-call own e = rw e at own

  call-LeftBy :
      (c : Call X D next_host) (m : Manager X D)
      → KeysMatch X D m
      → LeftBy X D (run_call X D next_host c m)
  unfolding run_call check_status
  call-LeftBy (call_deploy w fuel s config) m own = deploy-KeysMatch w fuel s config m own
  call-LeftBy (call_update w fuel s config) m own = update-KeysMatch w fuel s config m own
  call-LeftBy (call_revoke key) m own = revoke-KeysMatch X D key m own
  call-LeftBy (call_renew key) m own = renew-KeysMatch X D key m own
  call-LeftBy (call_destroy key) m own = destroy-KeysMatch X D key m own
  call-LeftBy (call_check running keys) m own =
      check_loop-KeysMatch X D running (keys_where X D true keys m) m own

  -- Every call of a method that returns leaves each controller under its own key, if they stood so.
  pub run_call-KeysMatch :
      (c : Call X D next_host) (m m' : Manager X D) (errors : Errors)
      → KeysMatch X D m
      → run_call X D next_host c m ≡ some (done (m', errors))
      → KeysMatch X D m'
  run_call-KeysMatch c m m' errors own e = LeftBy-call (call-LeftBy c m own) e
