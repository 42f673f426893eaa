-- ===== src/Replica/Policy.antt =====
-- `rollingUpdate`, `newDeploy`, `mixUpdate` and `Deploy` of controllers/scheduler/replica.go.
pub mod Keeps
pub mod Rolling
pub mod Bounds
pub mod Lease
use snk_fork_dolphin.Base.{ℕ, Bool, [], ◌∷◌, Option, none, some, if◌then◌else◌}
use snk_fork_dolphin.Base.Int.{ℤ, pos, ◌-ℤ◌, ltb_ℤ, leb_ℤ, eqb_ℤ}
use snk_fork_dolphin.Base.Outcome.{Outcome, done, panicked}
use snk_fork_dolphin.Base.Text.{Text}
use snk_fork_dolphin.HostConfig.{Store, HcManager, list_host_configs}
use snk_fork_dolphin.Types.Deploy.{
  DeployConfig, UpdateOption, UpdatePolicyName, get_default_update_option, rolling_update,
  new_deploy, mixed_update, other_policy,
}
use snk_fork_dolphin.Types.Externals.{Externals}
use snk_fork_dolphin.Types.Fault.{Errors}
use snk_fork_dolphin.Replica.{ReplicaCtrl, hc_stat}
use snk_fork_dolphin.Replica.Add.{add_instances}
use snk_fork_dolphin.Replica.Legacy.{remove_legacy}
use snk_fork_dolphin.Replica.Remove.{remove_expect_instances}
use snk_fork_dolphin.Replica.Update.{update_instances}

-- Where the context is found to have ended, by the number of the wait, in each of the three loops.
pub record Waits : Type 0 where
  pub adding : ℕ → Bool
  pub updating : ℕ → Bool
  pub removing : ℕ → Bool

module _ (X : Externals) (D : Store) where
  -- The result of a call: no result where the fuel of a loop runs out, a panic, or the controller,
  -- the host configurations and the error.
  abbrev pub Run : Type 0
  Run = Option (Outcome (ReplicaCtrl X × HcManager D × Errors))

module _ (X : Externals) (D : Store) {S : Type 0} (next_host : S → S × Text × Errors) where
  -- A call that returns the error of `removeLegacyInstanceConfigs`.
  unfoldable pub finish_legacy : ReplicaCtrl X → HcManager D → Run X D
  finish_legacy c m =
      let (m', errors) = remove_legacy D c.key c.expect_version m in some (done (c, m', errors))

  -- `if err != nil { return err }` after a loop, or else the rest.
  unfoldable pub go_on : ReplicaCtrl X → (HcManager D → Run X D) → HcManager D → Errors → Run X D
  go_on c rest m [] = rest m
  go_on c rest m (e ∷ es) = some (done (c, m, e ∷ es))

  unfoldable pub added :
      ReplicaCtrl X
      → (HcManager D → Run X D)
      → Option (Outcome (HcManager D × S × Errors))
      → Run X D
  unfolding go_on
  added c rest none = none
  added c rest (some panicked) = some panicked
  added c rest (some (done (m, s, errors))) = go_on c rest m errors

  -- `err := addInstances(num)`, then the error or the rest.
  unfoldable pub after_adding :
      Waits → ℕ → S → ℤ → ReplicaCtrl X → HcManager D → (HcManager D → Run X D) → Run X D
  unfolding added
  after_adding w fuel s num c m rest =
      added c rest (add_instances D next_host c.key c.expect_version w.adding fuel num s m)

  unfoldable pub removed :
      ReplicaCtrl X → (HcManager D → Run X D) → Option (HcManager D × ℤ × Errors) → Run X D
  unfolding go_on
  removed c rest none = none
  removed c rest (some (m, n, errors)) = go_on c rest m errors

  -- `_, err := removeExpectInstances(num)`, then the error or the rest.
  unfoldable pub after_removing :
      Waits → ℕ → ℤ → ReplicaCtrl X → HcManager D → (HcManager D → Run X D) → Run X D
  unfolding removed
  after_removing w fuel num c m rest =
      removed c rest (remove_expect_instances D c.key c.expect_version w.removing fuel num m)

  -- `n, err := updateInstances(num)`, then the error or the rest. The number is only logged.
  unfoldable pub after_updating :
      Waits → ℤ → ReplicaCtrl X → HcManager D → (HcManager D → Run X D) → Run X D
  unfolding go_on
  after_updating w num c m rest =
      let (m', n, errors) = update_instances D c.key c.expect_version w.updating num m in
      go_on c rest m' errors

  -- `rollingUpdate`
  unfoldable pub rolling : Waits → ℕ → S → ReplicaCtrl X → HcManager D → Run X D
  unfolding after_adding after_removing after_updating finish_legacy
  rolling w fuel s c m =
      let (num_exp, num_unexp) = hc_stat c.expect_version (list_host_configs D c.key m) in
      let num_update = c.dc.num_of_instance -ℤ num_exp in
      let update : ℤ → HcManager D → Run X D =
        λ num m'. after_updating w num c m' (finish_legacy c) in
      if eqb_ℤ num_update (pos 0)
      then finish_legacy c m
      else if ltb_ℤ num_update (pos 0)
      then after_removing w fuel (pos 0 -ℤ num_update) c m (finish_legacy c)
      else if ltb_ℤ num_unexp num_update
      then after_adding w fuel s (num_update -ℤ num_unexp) c m (update num_unexp)
      else update num_update m

  -- `newDeploy`
  unfoldable pub deploy_new : Waits → ℕ → S → ReplicaCtrl X → HcManager D → Run X D
  unfolding after_adding
  deploy_new w fuel s c m =
      let armed = record c { legacy_timer = some c.legacy_verion_timeout } in
      let kept : ReplicaCtrl X = elim c.legacy_timer [ none ↦ armed | some left ↦ c ] in
      after_adding w fuel s c.dc.num_of_instance c m (λ m'. some (done (kept, m', [])))

  -- The function that `time.AfterFunc` calls at the end of the lease, in `newDeploy` and `mixUpdate`.
  unfoldable pub lease_ends : ReplicaCtrl X → HcManager D → ReplicaCtrl X × HcManager D
  lease_ends c m =
      let (m', errors) = remove_legacy D c.key c.expect_version m in
      (record c { legacy_timer = none }, m')

  -- The deferred function of `mixUpdate`: without an error it sets a timer that is there.
  unfoldable pub deferred : Run X D → Run X D
  deferred none = none
  deferred (some panicked) = some panicked
  deferred (some (done (c, m, e ∷ es))) = some (done (c, m, e ∷ es))
  deferred (some (done (c, m, []))) =
      let armed = record c { legacy_timer = some c.legacy_verion_timeout } in
      let c' : ReplicaCtrl X = elim c.legacy_timer [ none ↦ c | some left ↦ armed ] in
      some (done (c', m, []))

  -- `mixUpdate` at the policy `upo`.
  unfoldable pub mix_update : Waits → ℕ → S → UpdateOption X → ReplicaCtrl X → HcManager D → Run X D
  unfolding after_adding after_removing after_updating deferred
  mix_update w fuel s upo c m =
      let (num_exp, num_unexp) = hc_stat c.expect_version (list_host_configs D c.key m) in
      let num = c.dc.num_of_instance in
      let num_update = num_unexp -ℤ X.ceil_share num upo.new_percent in
      let stop : HcManager D → Run X D = λ m'. some (done (c, m', [])) in
      let exchange : HcManager D → Run X D =
        λ m'. if ltb_ℤ num num_update then after_updating w num c m' stop else stop m' in
      let add_some : ℤ → (HcManager D → Run X D) → Run X D =
        λ n rest. after_adding w fuel s n c m rest in
      let grow : Run X D =
        if leb_ℤ num_update (pos 0)
        then add_some (num -ℤ num_exp) stop
        else if ltb_ℤ (pos 0) (num -ℤ num_update)
        then add_some (num -ℤ num_update) exchange
        else exchange m in
      deferred (
        if ltb_ℤ num num_exp
        then after_removing w fuel (num_exp -ℤ num) c m stop
        else if leb_ℤ num num_exp
        then stop m
        else grow)

  -- The `switch` of `Deploy`; `glog.Fatalf` on another policy ends the process.
  unfoldable pub by_policy :
      Waits → ℕ → S → UpdatePolicyName → UpdateOption X → ReplicaCtrl X → HcManager D → Run X D
  unfolding rolling deploy_new mix_update
  by_policy w fuel s rolling_update upo c m = rolling w fuel s c m
  by_policy w fuel s new_deploy upo c m = deploy_new w fuel s c m
  by_policy w fuel s mixed_update upo c m = mix_update w fuel s upo c m
  by_policy w fuel s (other_policy p) upo c m = some panicked

  -- `upo.Policy` of a nil pointer panics.
  unfoldable pub by_option :
      Waits → ℕ → S → Option (UpdateOption X) → ReplicaCtrl X → HcManager D → Run X D
  unfolding by_policy
  by_option w fuel s none c m = some panicked
  by_option w fuel s (some upo) c m = by_policy w fuel s upo.policy upo c m

  -- `Deploy`: the policy of the configuration, or the default one of its service type.
  unfoldable pub deploy : Waits → ℕ → S → DeployConfig X → ReplicaCtrl X → HcManager D → Run X D
  unfolding by_option
  deploy w fuel s config c m =
      let upo : Option (UpdateOption X) = elim config.update_policy [
        | some upo ↦ some upo
        | none ↦ get_default_update_option X config.service_type
      ] in
      by_option w fuel s upo (record c { dc = config }) m
