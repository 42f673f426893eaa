-- ===== src/Replica/Policy/Lease.antt =====
-- `deployNew` of controllers/scheduler/replica.go and the end of the lease that it sets.
use snk_fork_dolphin.Base.{
  ℕ, ◌≡◌, ◌≢◌, refl, arith, Bool, [], ◌∷◌, Option, none, some, Option-cases, inl, inr,
}
use snk_fork_dolphin.Base.Int.{pos}
use snk_fork_dolphin.Base.Outcome.{Outcome, done, panicked}
use snk_fork_dolphin.Base.Text.{Text}
use snk_fork_dolphin.Base.Total.{IsDistinct}
use snk_fork_dolphin.HostConfig.{Store, HcManager, key_map, list_host_configs}
use snk_fork_dolphin.Types.Externals.{Externals}
use snk_fork_dolphin.Types.Fault.{Errors}
use snk_fork_dolphin.Replica.{ReplicaCtrl, hc_stat}
use snk_fork_dolphin.Replica.Legacy.Sums.{hc_stat-remove_legacy}
use snk_fork_dolphin.Replica.Distinct.Adding.{OfAdding, add_instances-Distinct}
use snk_fork_dolphin.Replica.Policy.{Waits, go_on, added, after_adding, deploy_new, lease_ends}

module _ (X : Externals) (D : Store) {S : Type 0} (next_host : S → S × Text × Errors)
    (c c' : ReplicaCtrl X) (m' : HcManager D) where
  added_done :
      (w : ℕ → Bool) (kept : ReplicaCtrl X) (o : Option (Outcome (HcManager D × S × Errors)))
      → OfAdding D c.key c.expect_version next_host w o
      → added X D next_host c (λ m. some (done (kept, m, []))) o ≡ some (done (c', m', []))
      → (c' ≡ kept) × IsDistinct (key_map D c.key m')
  unfolding added go_on
  added_done w kept none d e = cc
  added_done w kept (some panicked) d e = cc
  added_done w kept (some (done (m, s, f ∷ fs))) d e = cc
  added_done w kept (some (done (m, s, []))) d e = let same : m' ≡ m = cc in (cc, rw same d)

  -- After a new deployment that returns without an error the controller has a lease, and at its end
  -- `hcStat` counts the same number of instances of the expected version and none of the others,
  -- and there is no lease any more, given that in the map of the key a host stands once.
  pub deploy_new-lease_ends :
      (w : Waits) (fuel : ℕ) (s : S) (m : HcManager D)
      → IsDistinct (key_map D c.key m)
      → deploy_new X D next_host w fuel s c m ≡ some (done (c', m', []))
      → let stat = λ (n : HcManager D). hc_stat c.expect_version (list_host_configs D c.key n) in
        let later = lease_ends X D next_host c' m' in
        (c'.legacy_timer ≢ none)
        × (stat later.1 ≡ ((stat m').0, pos 0))
        × (later.0.legacy_timer ≡ none)
  unfolding deploy_new after_adding lease_ends
  deploy_new-lease_ends w fuel s m d e =
      let adds =
        add_instances-Distinct D c.key c.expect_version next_host w.adding fuel c.dc.num_of_instance
          s m d in
      let (kept, d') = added_done w.adding _ _ adds e in
      let clean = hc_stat-remove_legacy D c.key c.expect_version m' d' in
      let (same_key, same_version, leased) : (c'.key ≡ c.key)
          × (c'.expect_version ≡ c.expect_version)
          × (c'.legacy_timer ≢ none) =
        elim (Option-cases c.legacy_timer) [
          | inl none_yet ↦ (ground arith, ground arith, ground arith)
          | inr (left, there) ↦ (ground arith, ground arith, ground arith)
        ] in
      (leased, rw (same_key, same_version) clean, refl)
