-- ===== src/Replica/Distinct/Removing.antt =====
-- The passes of `removeExpectInstances` in controllers/scheduler/replica.go and hosts standing once.
use snk_fork_dolphin.Base.{
  ℕ, zero, suc, ◌+◌, Bool, [], ◌∷◌, Option, none, some, Bool-cases, Option-cases, inl, inr,
}
use snk_fork_dolphin.Base.Int.{ℤ, pos, ◌-ℤ◌, ltb_ℤ}
use snk_fork_dolphin.Base.Text.{Text}
use snk_fork_dolphin.Base.Table.{Table, lookup}
use snk_fork_dolphin.HostConfig.{Store, HcManager}
use snk_fork_dolphin.Types.Deploy.{DeploySpec}
use snk_fork_dolphin.Types.Fault.{Errors}
use snk_fork_dolphin.Replica.{entries}
use snk_fork_dolphin.HostConfig.{list_host_configs}
use snk_fork_dolphin.Replica.Remove.{
  Pass, returns, goes_on, after_one, remove_one_instance, remove_pass, remove_loop,
  remove_expect_instances,
}
use snk_fork_dolphin.Replica.Remove.Ends.{remove_pass-absent, remove_pass-present}
use snk_fork_dolphin.Replica.Distinct.{Distinct, remove_one_instance-Distinct}

module _ (D : Store) (key expect : Text) where
  module _ (ended : ℕ → Bool) (count : ℤ) where
    abbrev OfPass : Pass (HcManager D) → Type 0
    OfPass (returns m _ _) = Distinct D key expect m
    OfPass (goes_on m _ _) = Distinct D key expect m

    after_one-Distinct :
        (m : HcManager D) (errors : Errors) (num : ℤ) (stop : Bool) (next : Pass (HcManager D))
        → Distinct D key expect m
        → OfPass next
        → OfPass (after_one D key expect ended count m errors num stop next)
    unfolding after_one
    after_one-Distinct m (e ∷ es) num stop next d d' = d
    after_one-Distinct m [] num stop next d d' = elim (Bool-cases (ltb_ℤ (num -ℤ pos 1) (pos 0))) [
      | inl past ↦ rw past d
      | inr more ↦ rw more (elim (Bool-cases stop) [ inl s ↦ rw s d | inr s ↦ rw s d' ])
    ]

    remove_pass-Distinct :
        (hc : Table DeploySpec) (num : ℤ) (wait : ℕ) (m : HcManager D)
        → Distinct D key expect m
        → OfPass (remove_pass D key expect ended count hc num wait m)
    remove_pass-Distinct [] num wait m d = unfold remove_pass in d
    remove_pass-Distinct ((h, cfg) ∷ hc) num wait m d =
        let (m', errors) = remove_one_instance D key expect h m in
        let d' = remove_one_instance-Distinct D key expect h m d in
        elim (Option-cases (lookup expect (entries cfg))) [
          | inl absent ↦
              rw (remove_pass-absent D key expect ended count hc h cfg num wait m absent)
                (remove_pass-Distinct hc num wait m d)
          | inr (v, there) ↦
              rw (remove_pass-present D key expect ended count hc h cfg num wait m there) (
                after_one-Distinct m' errors num (ended wait) _ d'
                  (remove_pass-Distinct hc (num -ℤ pos 1) (wait + 1) m' d'))
        ]

    -- The manager that a loop leaves, if it leaves one.
    abbrev pub OfLoop : Option (HcManager D × ℤ × Errors) → Type 0
    OfLoop none = Unit
    OfLoop (some r) = Distinct D key expect r.0

    after_pass :
        (fuel : ℕ) (p : Pass (HcManager D))
        → ((num : ℤ) (wait : ℕ) (m : HcManager D)
            → Distinct D key expect m
            → OfLoop (remove_loop D key expect ended count fuel num wait m))
        → OfPass p
        → OfLoop (elim p [
          | returns m n errors ↦ some (m, n, errors)
          | goes_on m num wait ↦ remove_loop D key expect ended count fuel num wait m
        ])
    after_pass fuel (returns m n errors) later d = d
    after_pass fuel (goes_on m num wait) later d = later num wait m d

    remove_loop-Distinct :
        (fuel : ℕ) (num : ℤ) (wait : ℕ) (m : HcManager D)
        → Distinct D key expect m
        → OfLoop (remove_loop D key expect ended count fuel num wait m)
    unfolding remove_loop
    remove_loop-Distinct zero num wait m d = tt
    remove_loop-Distinct (suc fuel) num wait m d = elim (Bool-cases (ltb_ℤ (pos 0) num)) [
      | inr finished ↦ rw finished d
      | inl positive ↦ rw positive (
          after_pass fuel _ (remove_loop-Distinct fuel)
            (remove_pass-Distinct (list_host_configs D key m) num wait m d))
    ]

  pub remove_expect_instances-Distinct :
      (ended : ℕ → Bool) (fuel : ℕ) (num : ℤ) (m : HcManager D)
      → Distinct D key expect m
      → OfLoop ended num (remove_expect_instances D key expect ended fuel num m)
  unfolding remove_expect_instances
  remove_expect_instances-Distinct ended fuel num m d =
      remove_loop-Distinct ended num fuel num 0 m d
