-- ===== src/Manager/Fresh.antt =====
-- A manager that `NewSchedular` has made, under any calls (controllers/scheduler/manager.go).
use snk_fork_dolphin.Base.{
  ℕ, ◌≡◌, ◌∙◌, refl, ap, arith, true, List, [], ◌∷◌, Option, none, some, Bool-cases, List-cases,
  inl, inr,
}
use snk_fork_dolphin.Base.Int.{ℤ, eqb_ℤ}
use snk_fork_dolphin.Base.Outcome.{done}
use snk_fork_dolphin.Base.Text.{Text}
use snk_fork_dolphin.HostConfig.{Store, HcManager}
use snk_fork_dolphin.Types.Deploy.{DeployConfig, key_of}
use snk_fork_dolphin.Types.Deploy.Validate.{validate}
use snk_fork_dolphin.Types.Externals.{Externals}
use snk_fork_dolphin.Types.Fault.{Errors, unknown_deployment, wrong_stage}
use snk_fork_dolphin.Types.Instance.{Instance}
use snk_fork_dolphin.Types.Stage.{Stage}
use snk_fork_dolphin.Base.Table.{Table}
use snk_fork_dolphin.Replica.Policy.{Waits}
use snk_fork_dolphin.Manager.{
  Manager, new_schedular, get_controller, controler_ready, Result, revoke_legacy_lease,
  renew_legacy_lease, destroy, keys_where, check_loop, check_status, update, deploy,
}

module _ (X : Externals) (D : Store) {S : Type 0} (next_host : S → S × Text × Errors) where
  -- The calls of the methods of `Manager`.
  pub data Call : Type 0 where
    call_deploy call_update : Waits → ℕ → S → Option (DeployConfig X) → Call
    call_revoke call_renew call_destroy : Text → Call
    call_check : (Text → Table Instance) → List Text → Call

  unfoldable pub run_call : Call → Manager X D → Result X D
  run_call (call_deploy w fuel s config) m = deploy X D next_host w fuel s config m
  run_call (call_update w fuel s config) m = update X D next_host w fuel s config m
  run_call (call_revoke key) m = some (done (revoke_legacy_lease X D key m))
  run_call (call_renew key) m = some (done (renew_legacy_lease X D key m))
  run_call (call_destroy key) m = some (done (destroy X D key m))
  run_call (call_check running keys) m = some (done (check_status X D running keys m))

  -- The managers that the calls lead to.
  pub data Reached (stage : Stage) (lease : ℤ) (hc : HcManager D) : Manager X D → Type 0 where
    start : Reached stage lease hc (new_schedular X D stage lease hc)
    after :
        {m m' : Manager X D} {errors : Errors}
        → (c : Call) → Reached stage lease hc m
        → run_call c m ≡ some (done (m', errors))
        → Reached stage lease hc m'

  module _ (m : Manager X D) (fresh : m.controllers ≡ none) where
    ready_none : (key : Text) → controler_ready X D key m ≡ (none, unknown_deployment ∷ [])
    unfolding controler_ready get_controller
    ready_none key = ground arith

    keys_where_none : (keys : List Text) → keys_where X D true keys m ≡ []
    unfolding keys_where get_controller
    keys_where_none [] = refl
    keys_where_none (k ∷ ks) = ground (arith, keys_where_none ks)

    update_none :
        (w : Waits) (fuel : ℕ) (s : S) (config : Option (DeployConfig X))
        → (errors : Errors) × (update X D next_host w fuel s config m ≡ some (done (m, errors)))
    unfolding update get_controller
    update_none w fuel s none = ([], refl)
    update_none w fuel s (some dc) = elim (List-cases (validate X dc).1) [
      | inr (e, es, invalid) ↦ (e ∷ es, ground arith)
      | inl ok ↦ elim (Bool-cases (eqb_ℤ (validate X dc).0.stage m.stage)) [
        | inl same ↦ (unknown_deployment ∷ [], ground arith)
        | inr other ↦ (wrong_stage ∷ [], ground arith)
      ]
    ]

    deploy_refused :
        (w : Waits) (fuel : ℕ) (s : S) (dc : DeployConfig X)
        → (validate X dc).1 ≡ []
        → deploy X D next_host w fuel s (some dc) m ≡ some (done (m, unknown_deployment ∷ []))
    unfolding deploy
    deploy_refused w fuel s dc ok = ground (arith, ready_none (key_of X (validate X dc).0))

    deploy_none :
        (w : Waits) (fuel : ℕ) (s : S) (config : Option (DeployConfig X))
        → (errors : Errors) × (deploy X D next_host w fuel s config m ≡ some (done (m, errors)))
    unfolding deploy
    deploy_none w fuel s none = ([], refl)
    deploy_none w fuel s (some dc) = elim (List-cases (validate X dc).1) [
      | inr (e, es, invalid) ↦ (e ∷ es, ground arith)
      | inl ok ↦ (unknown_deployment ∷ [], deploy_refused w fuel s dc ok)
    ]

    call_unchanged : (c : Call) → (errors : Errors) × (run_call c m ≡ some (done (m, errors)))
    unfolding run_call revoke_legacy_lease renew_legacy_lease destroy check_status check_loop
    call_unchanged (call_deploy w fuel s config) = deploy_none w fuel s config
    call_unchanged (call_update w fuel s config) = update_none w fuel s config
    call_unchanged (call_revoke key) = (unknown_deployment ∷ [], ground (arith, ready_none key))
    call_unchanged (call_renew key) = (unknown_deployment ∷ [], ground (arith, ready_none key))
    call_unchanged (call_destroy key) = (unknown_deployment ∷ [], ground (arith, ready_none key))
    call_unchanged (call_check running keys) =
        ((check_status X D running keys m).1, ground (arith, keys_where_none keys))

  same_as_before :
      {m m' : Manager X D} {errors : Errors} {r : Result X D}
      → ((errors' : Errors) × (r ≡ some (done (m, errors'))))
      → r ≡ some (done (m', errors))
      → m' ≡ m
  same_as_before (errors', unchanged) e = ground arith

  module _ (stage : Stage) (lease : ℤ) (hc : HcManager D) where
    Reached-start :
        (m : Manager X D) → Reached stage lease hc m → m ≡ new_schedular X D stage lease hc
    unfolding new_schedular
    Reached-start m start = refl
    Reached-start m' (after {m = m} c r e) =
        let same = Reached-start m r in
        let fresh : m.controllers ≡ none = ap (λ n. n.controllers) same in
        same_as_before (call_unchanged m fresh c) e ∙ same

    -- A manager made by `NewSchedular` is as it was made after any calls of its methods, the host
    -- configurations included, and refuses every valid configuration as an unknown deployment:
    -- it never comes to deploy.
    pub deploy-Reached :
        (m : Manager X D)
        → Reached stage lease hc m
        → (w : Waits) (fuel : ℕ) (s : S) (dc : DeployConfig X) → (validate X dc).1 ≡ []
        → (m ≡ new_schedular X D stage lease hc)
          × (deploy X D next_host w fuel s (some dc) m ≡ some (done (m, unknown_deployment ∷ [])))
    unfolding new_schedular
    deploy-Reached m r w fuel s dc ok =
        let same = Reached-start m r in
        (same, deploy_refused m (ap (λ n. n.controllers) same) w fuel s dc ok)
