-- ===== src/Replica/Policy/Bounds.antt =====
-- How many instances of the expected version a rolling update asks for.
-- The code is in controllers/scheduler/replica.go.
use snk_fork_dolphin.Base.{
  ℕ, ◌<◌, ◌≡◌, ◌∙◌, refl, ap, arith, true, [], ◌∷◌, Option, none, some, Bool-cases, inl, inr,
}
use snk_fork_dolphin.Base.Int.{
  ℤ, pos, ◌-ℤ◌, ◌+ℤ◌, ◌≤ℤ◌, ◌<ℤ◌, ltb_ℤ, eqb_ℤ, eqb_ℤ_iff, int_laws, parts_of_eq,
}
use snk_fork_dolphin.Base.Outcome.{Outcome, done, panicked}
use snk_fork_dolphin.Base.Text.{Text}
use snk_fork_dolphin.Base.Total.{IsDistinct}
use snk_fork_dolphin.HostConfig.{Store, HcManager, key_map, list_host_configs}
use snk_fork_dolphin.Types.Externals.{Externals}
use snk_fork_dolphin.Types.Fault.{Errors}
use snk_fork_dolphin.Replica.{ReplicaCtrl, hc_stat}
use snk_fork_dolphin.Replica.Stat.{IsProper, expected_stat, unexpected_stat}
use snk_fork_dolphin.Replica.Legacy.Sums.{hc_stat-remove_legacy}
use snk_fork_dolphin.Replica.Add.Counts.{GivesKnown, Adds, add_instances-Adds}
use snk_fork_dolphin.Replica.Update.{update_instances}
use snk_fork_dolphin.Replica.Update.Counts.{update_instances_counts}
use snk_fork_dolphin.Replica.Distinct.{update_instances-Distinct}
use snk_fork_dolphin.Replica.Policy.{
  Waits, Run, finish_legacy, go_on, added, after_adding, after_updating, rolling,
}

ltb_ℤ_lt : (a b : ℤ) → ltb_ℤ a b ≡ true → a <ℤ b
ltb_ℤ_lt a b e = ground arith

module _ (X : Externals) (D : Store) {S : Type 0} (next_host : S → S × Text × Errors) (w : Waits)
    (fuel : ℕ) (s : S) (c : ReplicaCtrl X) where
  abbrev stat : HcManager D → ℤ × ℤ
  stat m = hc_stat c.expect_version (list_host_configs D c.key m)

  module _ (least : ℤ) where
    -- From `least` to the number in the deploy configuration.
    abbrev Within : ℤ → Type 0
    Within n = (least ≤ℤ n) × (n ≤ℤ c.dc.num_of_instance)

    abbrev WithinOf : Run X D → Type 0
    WithinOf none = ⊥
    WithinOf (some panicked) = ⊥
    WithinOf (some (done r)) = Within (stat r.1).0

    -- The call returns, and leaves a number of instances of the expected version in the bounds.
    record Bounded (r : Run X D) : Type 0 where
      bounds : WithinOf r

    finish_legacy-Bounded :
        (m : HcManager D)
        → IsDistinct (key_map D c.key m)
        → Within (stat m).0
        → Bounded (finish_legacy X D next_host c m)
    unfolding finish_legacy
    finish_legacy-Bounded m d b = record {
      bounds = rw (hc_stat-remove_legacy D c.key c.expect_version m d) b;
    }

    go_on-Bounded :
        (rest : HcManager D → Run X D) (m : HcManager D) (errors : Errors)
        → Within (stat m).0
        → (errors ≡ [] → Bounded (rest m))
        → Bounded (go_on X D next_host c rest m errors)
    unfolding go_on
    go_on-Bounded rest m [] b k = k refl
    go_on-Bounded rest m (e ∷ es) b k = record { bounds = b }

    after_updating-Bounded :
        (num : ℤ) (m : HcManager D)
        → IsProper (key_map D c.key m)
        → pos 0 ≤ℤ (stat m).1
        → pos 0 ≤ℤ num
        → least ≤ℤ (stat m).0
        → (stat m).0 +ℤ num ≤ℤ c.dc.num_of_instance
        → Bounded (after_updating X D next_host w num c m (finish_legacy X D next_host c))
    unfolding after_updating
    after_updating-Bounded num m p unexp nonneg low high =
        let r = update_instances D c.key c.expect_version w.updating num m in
        let counts = update_instances_counts D c.key c.expect_version w.updating num m p unexp in
        let most : r.1 ≤ℤ num = ground arith in
        let b : Within (stat r.0).0 = (
          omega (int_laws, parts_of_eq counts.0, counts.2),
          omega (int_laws, parts_of_eq counts.0, most),
        ) in
        go_on-Bounded (finish_legacy X D next_host c) r.0 r.2 b (λ none_left.
          finish_legacy-Bounded r.0
            (update_instances-Distinct D c.key c.expect_version w.updating num m p.hosts) b)

    added-Bounded :
        (rest : HcManager D → Run X D) (num : ℤ) (m : HcManager D)
        (o : Option (Outcome (HcManager D × S × Errors)))
        → Adds D c.key c.expect_version next_host w.adding num m o
        → ((m' : HcManager D) (j : ℤ)
            → pos 0 ≤ℤ j
            → j ≤ℤ num
            → (stat m').0 ≡ (stat m).0 +ℤ j
            → Within (stat m').0)
        → ((m' : HcManager D)
            → IsProper (key_map D c.key m')
            → (stat m').0 ≡ (stat m).0 +ℤ num
            → (stat m').1 ≡ (stat m).1
            → Bounded (rest m'))
        → Bounded (added X D next_host c rest o)
    unfolding added
    added-Bounded rest num m none a b k = absurd a
    added-Bounded rest num m (some panicked) a b k = absurd a
    added-Bounded rest num m (some (done (m', s', errors))) (j, g) b k =
        let up : (stat m').0 ≡ (stat m).0 +ℤ j = omega (
          int_laws,
          parts_of_eq g.expected,
          parts_of_eq (expected_stat D c.key c.expect_version m),
          parts_of_eq (expected_stat D c.key c.expect_version m'),
        ) in
        let same : (stat m').1 ≡ (stat m).1 = omega (
          int_laws,
          parts_of_eq g.unexpected,
          parts_of_eq (unexpected_stat D c.key c.expect_version m),
          parts_of_eq (unexpected_stat D c.key c.expect_version m'),
        ) in
        go_on-Bounded rest m' errors (b m' j g.least g.most up)
          (λ none_left. k m' g.proper (up ∙ ap (λ i. (stat m).0 +ℤ i) (g.whole none_left)) same)

    -- The branch that adds instances first.
    grow-Bounded :
        (last : ℕ) (m : HcManager D)
        → IsProper (key_map D c.key m)
        → pos 0 ≤ℤ (stat m).1
        → least ≡ (stat m).0
        → GivesKnown D c.key c.expect_version next_host w.adding (key_map D c.key m)
        → w.adding last ≡ true
        → last < fuel
        → let num_update = c.dc.num_of_instance -ℤ (stat m).0 in
          (stat m).1 <ℤ num_update
          → Bounded (
              after_adding X D next_host w fuel s (num_update -ℤ (stat m).1) c m (λ m'.
                after_updating X D next_host w (stat m).1 c m' (finish_legacy X D next_host c)))
    unfolding after_adding
    grow-Bounded last m p unexp low f over enough few =
        let num_update = c.dc.num_of_instance -ℤ (stat m).0 in
        let num = num_update -ℤ (stat m).1 in
        let adds =
          add_instances-Adds D c.key c.expect_version next_host w.adding fuel last num s m p f over
            enough (omega (int_laws, few)) in
        added-Bounded _ num m _ adds
          (λ m' j none_lost no_more up. (
            omega (int_laws, parts_of_eq low, parts_of_eq up, none_lost),
            omega (int_laws, parts_of_eq up, unexp, no_more),
          ))
          (λ m' p' up same.
            after_updating-Bounded (stat m).1 m' p' (omega (int_laws, parts_of_eq same)) unexp
              (omega (int_laws, parts_of_eq low, parts_of_eq up))
              (omega (int_laws, parts_of_eq up)))

    settled :
        (m : HcManager D)
        → eqb_ℤ (c.dc.num_of_instance -ℤ (stat m).0) (pos 0) ≡ true
        → least ≡ (stat m).0
        → Within (stat m).0
    settled m even low =
        let none_left = (eqb_ℤ_iff (c.dc.num_of_instance -ℤ (stat m).0) (pos 0)).0 even in
        (omega (int_laws, parts_of_eq low), omega (int_laws, parts_of_eq none_left))

    rolling-Bounded :
        (last : ℕ) (m : HcManager D)
        → IsProper (key_map D c.key m)
        → pos 0 ≤ℤ (stat m).1
        → least ≡ (stat m).0
        → least ≤ℤ c.dc.num_of_instance
        → GivesKnown D c.key c.expect_version next_host w.adding (key_map D c.key m)
        → w.adding last ≡ true
        → last < fuel
        → Bounded (rolling X D next_host w fuel s c m)
    unfolding rolling
    rolling-Bounded last m p unexp low high f over enough =
        let num_update = c.dc.num_of_instance -ℤ (stat m).0 in
        let nonneg : pos 0 ≤ℤ num_update = omega (int_laws, parts_of_eq low) in
        elim (Bool-cases (eqb_ℤ num_update (pos 0))) [
          | inl even ↦ rw even (finish_legacy-Bounded m p.hosts (settled m even low))
          | inr uneven ↦ elim (Bool-cases (ltb_ℤ num_update (pos 0))) [
            | inl less ↦ absurd (omega (arith, ltb_ℤ_lt num_update (pos 0) less, nonneg))
            | inr more ↦ elim (Bool-cases (ltb_ℤ (stat m).1 num_update)) [
              | inr enough_old ↦
                  rw (uneven, more, enough_old)
                    (after_updating-Bounded num_update m p unexp nonneg
                      (omega (int_laws, parts_of_eq low)) (omega int_laws))
              | inl few_old ↦
                  rw (uneven, more, few_old)
                    (grow-Bounded last m p unexp low f over enough
                      (ltb_ℤ_lt (stat m).1 num_update few_old))
            ]
          ]
        ]

  bounded_lem :
      (least : ℤ) (o : Run X D)
      → Bounded least o
      → (r : ReplicaCtrl X × HcManager D × Errors) × (o ≡ some (done r))
        × (least ≤ℤ (stat r.1).0)
        × ((stat r.1).0 ≤ℤ c.dc.num_of_instance)
  bounded_lem least none b = absurd b.bounds
  bounded_lem least (some panicked) b = absurd b.bounds
  bounded_lem least (some (done r)) b = (r, refl, b.bounds.0, b.bounds.1)

  -- A rolling update of a deployment that has no more instances of the expected version than are
  -- asked for, and no negative number of others, returns, with an error or without, at the latest
  -- when the context is found to have ended while instances are added, whatever the store answers
  -- and whenever the scheduler fails, given that a host that it gives without an error has a
  -- configuration for the key. The update leaves no fewer instances of the expected version than
  -- before, and no more than are asked for. In the map of the key a host stands once, and a version
  -- in the map of a host.
  pub rolling_bounds :
      (last : ℕ) (m : HcManager D)
      → IsProper (key_map D c.key m)
      → let asked = hc_stat c.expect_version (list_host_configs D c.key m) in
        pos 0 ≤ℤ asked.1
        → asked.0 ≤ℤ c.dc.num_of_instance
        → GivesKnown D c.key c.expect_version next_host w.adding (key_map D c.key m)
        → w.adding last ≡ true
        → last < fuel
        → (r : ReplicaCtrl X × HcManager D × Errors) × (rolling X D next_host w fuel s c m
            ≡ some (done r))
          × (asked.0 ≤ℤ (hc_stat c.expect_version (list_host_configs D c.key r.1)).0)
          × ((hc_stat c.expect_version (list_host_configs D c.key r.1)).0 ≤ℤ c.dc.num_of_instance)
  rolling_bounds last m p unexp high f over enough =
      bounded_lem (stat m).0 (rolling X D next_host w fuel s c m)
        (rolling-Bounded (stat m).0 last m p unexp refl high f over enough)
