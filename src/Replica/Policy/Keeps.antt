-- ===== src/Replica/Policy/Keeps.antt =====
-- What `Deploy` leaves of the controller (controllers/scheduler/replica.go).
use snk_fork_dolphin.Base.{
  ℕ, ◌≡◌, arith, Bool, true, false, [], ◌∷◌, Option, none, some, if◌then◌else◌, Option-cases, inl,
  inr,
}
use snk_fork_dolphin.Base.Int.{ℤ, pos, ◌-ℤ◌, ltb_ℤ, leb_ℤ}
use snk_fork_dolphin.Base.Outcome.{Outcome, done, panicked}
use snk_fork_dolphin.Base.Text.{Text}
use snk_fork_dolphin.HostConfig.{Store, HcManager, list_host_configs}
use snk_fork_dolphin.Types.Deploy.{
  DeployConfig, UpdateOption, UpdatePolicyName, rolling_update, new_deploy, mixed_update,
  other_policy,
}
use snk_fork_dolphin.Types.Externals.{Externals}
use snk_fork_dolphin.Types.Fault.{Errors}
use snk_fork_dolphin.Replica.{ReplicaCtrl, hc_stat}
use snk_fork_dolphin.Replica.Policy.{
  Waits, Run, finish_legacy, go_on, added, removed, after_adding, after_removing, after_updating,
  rolling, deploy_new, deferred, mix_update, by_policy, by_option, deploy,
}

module _ (X : Externals) (D : Store) (key version : Text) where
  abbrev pub KeptBy : Run X D → Type 0
  KeptBy none = Unit
  KeptBy (some panicked) = Unit
  KeptBy (some (done r)) = (r.0.key ≡ key) × (r.0.expect_version ≡ version)

  -- The controller that a call leaves, if it leaves one, is for the key and expects the version.
  pub record Keeps (r : Run X D) : Type 0 where
    pub kept : KeptBy r

  Keeps-if : (b : Bool) {r r' : Run X D} → Keeps r → Keeps r' → Keeps (if b then r else r')
  Keeps-if true k k' = k
  Keeps-if false k k' = k'

  module _ {S : Type 0} (next_host : S → S × Text × Errors) (w : Waits) (fuel : ℕ) (s : S)
      (c : ReplicaCtrl X) (same_key : c.key ≡ key) (same_version : c.expect_version ≡ version) where
    finish_legacy-Keeps : (m : HcManager D) → Keeps (finish_legacy X D next_host c m)
    unfolding finish_legacy
    finish_legacy-Keeps m = record { kept = (same_key, same_version) }

    module _ (rest : HcManager D → Run X D) (k : (m : HcManager D) → Keeps (rest m)) where
      go_on-Keeps :
          (m : HcManager D) (errors : Errors) → Keeps (go_on X D next_host c rest m errors)
      unfolding go_on
      go_on-Keeps m [] = k m
      go_on-Keeps m (e ∷ es) = record { kept = (same_key, same_version) }

      added-Keeps :
          (o : Option (Outcome (HcManager D × S × Errors))) → Keeps (added X D next_host c rest o)
      unfolding added
      added-Keeps none = record { kept = tt }
      added-Keeps (some panicked) = record { kept = tt }
      added-Keeps (some (done (m, s', errors))) = go_on-Keeps m errors

      removed-Keeps :
          (o : Option (HcManager D × ℤ × Errors)) → Keeps (removed X D next_host c rest o)
      unfolding removed
      removed-Keeps none = record { kept = tt }
      removed-Keeps (some (m, n, errors)) = go_on-Keeps m errors

      after_adding-Keeps :
          (num : ℤ) (m : HcManager D) → Keeps (after_adding X D next_host w fuel s num c m rest)
      unfolding after_adding
      after_adding-Keeps num m = added-Keeps _

      after_removing-Keeps :
          (num : ℤ) (m : HcManager D) → Keeps (after_removing X D next_host w fuel num c m rest)
      unfolding after_removing
      after_removing-Keeps num m = removed-Keeps _

      after_updating-Keeps :
          (num : ℤ) (m : HcManager D) → Keeps (after_updating X D next_host w num c m rest)
      unfolding after_updating
      after_updating-Keeps num m = go_on-Keeps _ _

    rolling-Keeps : (m : HcManager D) → Keeps (rolling X D next_host w fuel s c m)
    unfolding rolling after_removing after_adding after_updating
    rolling-Keeps m =
        let update = λ (num : ℤ).
          after_updating-Keeps (finish_legacy X D next_host c) finish_legacy-Keeps num in
        Keeps-if _ (finish_legacy-Keeps m) (
          Keeps-if _ (after_removing-Keeps (finish_legacy X D next_host c) finish_legacy-Keeps _ m)
            (Keeps-if _ (after_adding-Keeps _ (update _) _ m) (update _ m)))

    deploy_new-Keeps : (m : HcManager D) → Keeps (deploy_new X D next_host w fuel s c m)
    unfolding deploy_new
    deploy_new-Keeps m =
        after_adding-Keeps _
          (λ m'. elim (Option-cases c.legacy_timer) [
            | inl unarmed ↦ record { kept = ground arith }
            | inr (left, armed) ↦ record { kept = ground arith }
          ])
          c.dc.num_of_instance m

    deferred-Keeps : (r : Run X D) → Keeps r → Keeps (deferred X D next_host r)
    unfolding deferred
    deferred-Keeps none k = record { kept = tt }
    deferred-Keeps (some panicked) k = record { kept = tt }
    deferred-Keeps (some (done (c', m, e ∷ es))) k = k
    deferred-Keeps (some (done (c', m, []))) k =
        let kept = k.kept in
        elim (Option-cases c'.legacy_timer) [
          | inl unarmed ↦ record { kept = ground arith }
          | inr (left, armed) ↦ record { kept = ground arith }
        ]

    stop-Keeps : (m : HcManager D) → Keeps (some (done (c, m, [])))
    stop-Keeps m = record { kept = (same_key, same_version) }

    mix_update-Keeps :
        (upo : UpdateOption X) (m : HcManager D) → Keeps (mix_update X D next_host w fuel s upo c m)
    unfolding mix_update
    mix_update-Keeps upo m =
        let asked = hc_stat c.expect_version (list_host_configs D c.key m) in
        let num = c.dc.num_of_instance in
        let num_update = asked.1 -ℤ X.ceil_share num upo.new_percent in
        let exchange = λ (m' : HcManager D).
          Keeps-if (ltb_ℤ num num_update) (after_updating-Keeps _ stop-Keeps num m')
            (stop-Keeps m') in
        let shrink = after_removing-Keeps _ stop-Keeps (asked.0 -ℤ num) m in
        let grow = after_adding-Keeps _ stop-Keeps (num -ℤ asked.0) m in
        let grow_some = after_adding-Keeps _ exchange (num -ℤ num_update) m in
        deferred-Keeps _ (
          Keeps-if (ltb_ℤ num asked.0) shrink (
            Keeps-if (leb_ℤ num asked.0) (stop-Keeps m) (
              Keeps-if (leb_ℤ num_update (pos 0)) grow
                (Keeps-if (ltb_ℤ (pos 0) (num -ℤ num_update)) grow_some (exchange m)))))

    by_policy-Keeps :
        (name : UpdatePolicyName) (upo : UpdateOption X) (m : HcManager D)
        → Keeps (by_policy X D next_host w fuel s name upo c m)
    unfolding by_policy
    by_policy-Keeps rolling_update upo m = rolling-Keeps m
    by_policy-Keeps new_deploy upo m = deploy_new-Keeps m
    by_policy-Keeps mixed_update upo m = mix_update-Keeps upo m
    by_policy-Keeps (other_policy p) upo m = record { kept = tt }

    by_option-Keeps :
        (upo : Option (UpdateOption X)) (m : HcManager D)
        → Keeps (by_option X D next_host w fuel s upo c m)
    unfolding by_option
    by_option-Keeps none m = record { kept = tt }
    by_option-Keeps (some upo) m = by_policy-Keeps upo.policy upo m

  -- `Deploy` leaves a controller for the same key that expects the same version.
  pub deploy-Keeps :
      {S : Type 0} (next_host : S → S × Text × Errors) (w : Waits) (fuel : ℕ) (s : S)
      (config : DeployConfig X) (c : ReplicaCtrl X)
      → c.key ≡ key
      → c.expect_version ≡ version
      → (m : HcManager D) → Keeps (deploy X D next_host w fuel s config c m)
  unfolding deploy
  deploy-Keeps next_host w fuel s config c k v m =
      by_option-Keeps next_host w fuel s (record c { dc = config }) k v _ m
