-- ===== src/Replica/Distinct/Adding.antt =====
-- The loop of `addInstances` in controllers/scheduler/replica.go and hosts standing once.
use snk_fork_dolphin.Base.{
  ℕ, zero, suc, ◌+◌, ◌≡◌, ◌≢◌, arith, ◌++◌, Bool, true, false, [], ◌∷◌, Option, none, some,
  Bool-cases, inl, inr, List-cases,
}
use snk_fork_dolphin.Base.Int.{ℤ, pos, ◌-ℤ◌, ltb_ℤ}
use snk_fork_dolphin.Base.Outcome.{Outcome, done, panicked, Outcome-cases}
use snk_fork_dolphin.Base.Text.{Text}
use snk_fork_dolphin.HostConfig.{Store, HcManager}
use snk_fork_dolphin.Types.Fault.{Errors, cancelled}
use snk_fork_dolphin.Replica.Add.{add_one_instance, add_loop, add_instances}
use snk_fork_dolphin.Replica.Distinct.{Distinct, add_one_instance-Distinct}

module _ (D : Store) (key expect : Text) where
  module _ {S : Type 0} (next_host : S → S × Text × Errors) (ended : ℕ → Bool) where
    abbrev pub OfAdding : Option (Outcome (HcManager D × S × Errors)) → Type 0
    OfAdding none = Unit
    OfAdding (some panicked) = Unit
    OfAdding (some (done r)) = Distinct D key expect r.0

    module _ (fuel : ℕ) (num : ℤ) (wait : ℕ) (merr : Errors) (s : S) (m : HcManager D) where
      add_loop-finished :
          ltb_ℤ (pos 0) num ≡ false
          → add_loop D next_host key expect ended (suc fuel) num wait merr s m
            ≡ some (done (m, s, merr))
      unfolding add_loop
      add_loop-finished finished = ground arith

      add_loop-stopped :
          ltb_ℤ (pos 0) num ≡ true
          → ended wait ≡ true
          → add_loop D next_host key expect ended (suc fuel) num wait merr s m
            ≡ some (done (m, s, merr ++ cancelled ∷ []))
      unfolding add_loop
      add_loop-stopped positive stop = ground arith

      add_loop-again :
          ltb_ℤ (pos 0) num ≡ true
          → ended wait ≡ false
          → (next_host s).2 ≢ []
          → add_loop D next_host key expect ended (suc fuel) num wait merr s m
            ≡ add_loop D next_host key expect ended fuel num
                (wait + 1)
                (merr ++ (next_host s).2)
                (next_host s).0
                m
      unfolding add_loop
      add_loop-again positive go failed = ground arith

      add_loop-panicked :
          ltb_ℤ (pos 0) num ≡ true
          → ended wait ≡ false
          → (next_host s).2 ≡ []
          → add_one_instance D key expect (next_host s).1 m ≡ panicked
          → add_loop D next_host key expect ended (suc fuel) num wait merr s m ≡ some panicked
      unfolding add_loop
      add_loop-panicked positive go ok nil = ground arith

      add_loop-added :
          (r : HcManager D × Errors)
          → ltb_ℤ (pos 0) num ≡ true
          → ended wait ≡ false
          → (next_host s).2 ≡ []
          → add_one_instance D key expect (next_host s).1 m ≡ done r
          → add_loop D next_host key expect ended (suc fuel) num wait merr s m
            ≡ add_loop D next_host key expect ended fuel
                (num -ℤ pos 1)
                (wait + 1)
                (merr ++ r.1)
                (next_host s).0
                r.0
      unfolding add_loop
      add_loop-added r positive go ok made = ground arith

    add_loop-Distinct :
        (fuel : ℕ) (num : ℤ) (wait : ℕ) (merr : Errors) (s : S) (m : HcManager D)
        → Distinct D key expect m
        → OfAdding (add_loop D next_host key expect ended fuel num wait merr s m)
    add_loop-Distinct zero num wait merr s m d = unfold add_loop in tt
    add_loop-Distinct (suc fuel) num wait merr s m d = elim (Bool-cases (ltb_ℤ (pos 0) num)) [
      | inr finished ↦ rw (add_loop-finished fuel num wait merr s m finished) d
      | inl positive ↦ elim (Bool-cases (ended wait)) [
        | inl stop ↦ rw (add_loop-stopped fuel num wait merr s m positive stop) d
        | inr go ↦ elim (List-cases (next_host s).2) [
          | inr (e, es, failed) ↦
              rw (add_loop-again fuel num wait merr s m positive go (λ ok. cc))
                (add_loop-Distinct fuel num (wait + 1) _ _ m d)
          | inl ok ↦ elim (Outcome-cases (add_one_instance D key expect (next_host s).1 m)) [
            | inl nil ↦ rw (add_loop-panicked fuel num wait merr s m positive go ok nil) tt
            | inr (r, made) ↦ rw (add_loop-added fuel num wait merr s m r positive go ok made) (
                add_loop-Distinct fuel (num -ℤ pos 1) (wait + 1) _ _ r.0
                  (add_one_instance-Distinct D key expect (next_host s).1 m r made d))
          ]
        ]
      ]
    ]

    pub add_instances-Distinct :
        (fuel : ℕ) (num : ℤ) (s : S) (m : HcManager D)
        → Distinct D key expect m
        → OfAdding (add_instances D next_host key expect ended fuel num s m)
    unfolding add_instances
    add_instances-Distinct fuel num s m d = add_loop-Distinct fuel num 0 [] s m d
