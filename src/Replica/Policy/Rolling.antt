-- ===== src/Replica/Policy/Rolling.antt =====
-- What a rolling update that returns without an error leaves (controllers/scheduler/replica.go).
use snk_fork_dolphin.Base.{
  ℕ, ◌≡◌, ap, Bool, true, false, [], ◌∷◌, Option, none, some, if◌then◌else◌,
}
use snk_fork_dolphin.Base.Int.{ℤ, pos}
use snk_fork_dolphin.Base.Outcome.{Outcome, done, panicked}
use snk_fork_dolphin.Base.Text.{Text}
use snk_fork_dolphin.Base.Total.{IsDistinct}
use snk_fork_dolphin.HostConfig.{Store, HcManager, key_map, list_host_configs}
use snk_fork_dolphin.Types.Externals.{Externals}
use snk_fork_dolphin.Types.Fault.{Errors}
use snk_fork_dolphin.Replica.{ReplicaCtrl, hc_stat}
use snk_fork_dolphin.Replica.Legacy.{remove_legacy}
use snk_fork_dolphin.Replica.Legacy.Sums.{hc_stat-remove_legacy}
use snk_fork_dolphin.Replica.Distinct.{Distinct, update_instances-Distinct}
use snk_fork_dolphin.Replica.Distinct.Removing.{OfLoop, remove_expect_instances-Distinct}
use snk_fork_dolphin.Replica.Distinct.Adding.{OfAdding, add_instances-Distinct}
use snk_fork_dolphin.Replica.Policy.{
  Waits, Run, finish_legacy, go_on, added, removed, after_adding, after_removing, after_updating,
  rolling,
}

module _ (X : Externals) (D : Store) {S : Type 0} (next_host : S → S × Text × Errors) (w : Waits)
    (fuel : ℕ) (s : S) (c : ReplicaCtrl X) where
  abbrev Clean : HcManager D → Type 0
  Clean m = (hc_stat c.expect_version (list_host_configs D c.key m)).1 ≡ pos 0

  abbrev CleanIf : Run X D → Type 0
  CleanIf none = Unit
  CleanIf (some panicked) = Unit
  CleanIf (some (done (c', m, []))) = Clean m
  CleanIf (some (done (c', m, e ∷ es))) = Unit

  -- A call that returns without an error leaves no instance of another version.
  record Settles (r : Run X D) : Type 0 where
    settled : CleanIf r

  abbrev Proper : HcManager D → Type 0
  Proper m = Distinct D c.key c.expect_version m

  Settles-if : (b : Bool) {r r' : Run X D} → Settles r → Settles r' → Settles (if b then r else r')
  Settles-if true k k' = k
  Settles-if false k k' = k'

  cleaned : (m : HcManager D) (errors : Errors) → Clean m → CleanIf (some (done (c, m, errors)))
  cleaned m [] clean = clean
  cleaned m (e ∷ es) clean = tt

  finish_legacy-Settles : (m : HcManager D) → Proper m → Settles (finish_legacy X D next_host c m)
  unfolding finish_legacy
  finish_legacy-Settles m d =
      let (m', errors) = remove_legacy D c.key c.expect_version m in
      record {
        settled =
            cleaned m' errors (ap (λ n. n.1) (hc_stat-remove_legacy D c.key c.expect_version m d));
      }

  module _ (rest : HcManager D → Run X D)
      (k : (m : HcManager D) → Proper m → Settles (rest m)) where
    go_on-Settles :
        (m : HcManager D) (errors : Errors)
        → Proper m
        → Settles (go_on X D next_host c rest m errors)
    unfolding go_on
    go_on-Settles m [] d = k m d
    go_on-Settles m (e ∷ es) d = record { settled = tt }

    added-Settles :
        (o : Option (Outcome (HcManager D × S × Errors)))
        → OfAdding D c.key c.expect_version next_host w.adding o
        → Settles (added X D next_host c rest o)
    unfolding added
    added-Settles none d = record { settled = tt }
    added-Settles (some panicked) d = record { settled = tt }
    added-Settles (some (done (m, s', errors))) d = go_on-Settles m errors d

    removed-Settles :
        (num : ℤ) (o : Option (HcManager D × ℤ × Errors))
        → OfLoop D c.key c.expect_version w.removing num o
        → Settles (removed X D next_host c rest o)
    unfolding removed
    removed-Settles num none d = record { settled = tt }
    removed-Settles num (some (m, n, errors)) d = go_on-Settles m errors d

    after_adding-Settles :
        (num : ℤ) (m : HcManager D)
        → Proper m
        → Settles (after_adding X D next_host w fuel s num c m rest)
    unfolding after_adding
    after_adding-Settles num m d =
        added-Settles _
          (add_instances-Distinct D c.key c.expect_version next_host w.adding fuel num s m d)

    after_removing-Settles :
        (num : ℤ) (m : HcManager D)
        → Proper m
        → Settles (after_removing X D next_host w fuel num c m rest)
    unfolding after_removing
    after_removing-Settles num m d =
        removed-Settles num _
          (remove_expect_instances-Distinct D c.key c.expect_version w.removing fuel num m d)

    after_updating-Settles :
        (num : ℤ) (m : HcManager D)
        → Proper m
        → Settles (after_updating X D next_host w num c m rest)
    unfolding after_updating
    after_updating-Settles num m d =
        go_on-Settles _ _ (update_instances-Distinct D c.key c.expect_version w.updating num m d)

  rolling-Settles : (m : HcManager D) → Proper m → Settles (rolling X D next_host w fuel s c m)
  unfolding rolling
  rolling-Settles m d =
      let finish = finish_legacy X D next_host c in
      let update = λ (num : ℤ). after_updating-Settles finish finish_legacy-Settles num in
      Settles-if _ (finish_legacy-Settles m d) (
        Settles-if _ (after_removing-Settles finish finish_legacy-Settles _ m d)
          (Settles-if _ (after_adding-Settles _ (update _) _ m d) (update _ m d)))

  left-Clean :
      {r : Run X D} {c' : ReplicaCtrl X} {m' : HcManager D}
      → Settles r
      → r ≡ some (done (c', m', []))
      → Clean m'
  left-Clean st e = rw e at st.settled

  -- A rolling update that returns without an error leaves host configurations that ask for no
  -- instance of a version that is not expected, whatever the update did before, given that in the
  -- map of the key a host stands once.
  pub rolling_clean :
      (c' : ReplicaCtrl X) (m m' : HcManager D)
      → IsDistinct (key_map D c.key m)
      → rolling X D next_host w fuel s c m ≡ some (done (c', m', []))
      → (hc_stat c.expect_version (list_host_configs D c.key m')).1 ≡ pos 0
  rolling_clean c' m m' d e = left-Clean (rolling-Settles m d) e
