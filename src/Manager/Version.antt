-- ===== src/Manager/Version.antt =====
-- What an update leaves of the version that a controller expects.
-- The code is in controllers/scheduler/manager.go.
use snk_fork_dolphin.Base.{
  ℕ, ◌≡◌, ◌∙◌, refl, sym, arith, none, some, Option-cases, Bool-cases, List-cases, inl, inr,
}
use snk_fork_dolphin.Base.Int.{eqb_ℤ}
use snk_fork_dolphin.Base.Outcome.{done, panicked}
use snk_fork_dolphin.Base.Text.{Text, text_eq_iff}
use snk_fork_dolphin.HostConfig.{Store, HcManager}
use snk_fork_dolphin.Types.Deploy.{DeployConfig, key_of}
use snk_fork_dolphin.Types.Deploy.Validate.{validate}
use snk_fork_dolphin.Types.Externals.{Externals}
use snk_fork_dolphin.Types.Fault.{Errors}
use snk_fork_dolphin.Replica.{ReplicaCtrl}
use snk_fork_dolphin.Replica.Policy.{Waits, Run}
use snk_fork_dolphin.Replica.Policy.Keeps.{Keeps, deploy-Keeps}
use snk_fork_dolphin.Manager.{Manager, get_controller, mutated, Result, deployed, update}
use snk_fork_dolphin.Manager.Keys.{get_controller-mutated}
use snk_fork_dolphin.Manager.Calls.{update_invalid, update_elsewhere, update_known}

module _ (X : Externals) (D : Store) where
  -- There is a controller for the key, and it expects the version.
  abbrev pub Expects : Text → Text → Manager X D → Type 0
  Expects key version m =
      (c : ReplicaCtrl X) × (get_controller X D key m ≡ some (some c))
      × (c.expect_version ≡ version)

module _ (X : Externals) (D : Store) (m m' : Manager X D) (errors : Errors) (key : Text)
    (c : ReplicaCtrl X) where
  still_there :
      {r : Result X D} {faults : Errors}
      → get_controller X D key m ≡ some (some c)
      → r ≡ some (done (m, faults))
      → r ≡ some (done (m', errors))
      → Expects X D key c.expect_version m'
  still_there found unchanged e = (c, ground arith, refl)

  mutated-Expects :
      (hc : HcManager D) (c' : ReplicaCtrl X)
      → get_controller X D key m ≡ some (some c)
      → c'.expect_version ≡ c.expect_version
      → Expects X D key c.expect_version (mutated X D key c' (record m { hc_manager = hc }))
  unfolding get_controller
  mutated-Expects hc c' found same =
      let there = get_controller-mutated X D key key c' (record m { hc_manager = hc }) in
      elim (Option-cases m.controllers) [
        | inl nil ↦ ground arith
        | inr (t, made) ↦ (c', ground (arith, there, text_eq_iff key key), same)
      ]

  deployed-Expects :
      {key' : Text} (r : Run X D)
      → get_controller X D key m ≡ some (some c)
      → Keeps X D key' c.expect_version r
      → deployed X D key m r ≡ some (done (m', errors))
      → Expects X D key c.expect_version m'
  unfolding deployed
  deployed-Expects none found k e = cc
  deployed-Expects (some panicked) found k e = cc
  deployed-Expects (some (done (c', hc, faults))) found k e =
      let (c'', there, same) = mutated-Expects hc c' found k.kept.1 in (c'', ground arith, same)

module _ (X : Externals) (D : Store) {S : Type 0} (next_host : S → S × Text × Errors) where
  -- An update of a deployment whose controller is known, if it returns, leaves a controller that
  -- expects the version that it expected before, whatever version the new configuration names.
  update_keeps_version :
      (w : Waits) (fuel : ℕ) (s : S) (dc : DeployConfig X) (m m' : Manager X D) (errors : Errors)
      (c : ReplicaCtrl X)
      → let key = key_of X (validate X dc).0 in
        get_controller X D key m ≡ some (some c)
        → update X D next_host w fuel s (some dc) m ≡ some (done (m', errors))
        → Expects X D key c.expect_version m'
  update_keeps_version w fuel s dc m m' errors c found e =
      let key = key_of X (validate X dc).0 in
      elim (List-cases (validate X dc).1) [
        | inr (f, fs, invalid) ↦
            still_there X D m m' errors key c found
              (update_invalid X D next_host w fuel s dc m (λ valid. cc)) e
        | inl valid ↦ elim (Bool-cases (eqb_ℤ (validate X dc).0.stage m.stage)) [
          | inr elsewhere ↦
              still_there X D m m' errors key c found
                (update_elsewhere X D next_host w fuel s dc m valid elsewhere) e
          | inl here ↦
              deployed-Expects X D m m' errors key c _ found
                (deploy-Keeps X D c.key c.expect_version next_host w fuel s (validate X dc).0 c refl
                  refl m.hc_manager)
                (sym (update_known X D next_host w fuel s dc m valid here found) ∙ e)
        ]
      ]
