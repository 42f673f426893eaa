-- ===== src/Replica/Add/Counts.antt =====
-- What `addInstances` adds, and where it panics (controllers/scheduler/replica.go).
use snk_fork_dolphin.Base.{
  ℕ, zero, suc, ◌+◌, ◌<◌, ◌≤◌, ◌≡◌, ◌≢◌, ◌⊎◌, refl, sym, ap, arith, ◌++◌, ◌==◌, ==_iff, Bool, true,
  false, [], ◌∷◌, Option, none, some, Bool-cases, inl, inr, pair_eq,
}
use snk_fork_dolphin.Base.Int.{
  ℤ, pos, ◌+ℤ◌, ◌-ℤ◌, ◌≤ℤ◌, ◌<ℤ◌, int_laws, parts_of_eq, -ℤ_parts, ltb_ℤ,
}
use snk_fork_dolphin.Base.Outcome.{Outcome, done, panicked}
use snk_fork_dolphin.Base.Text.{Text}
use snk_fork_dolphin.Base.Table.{Table, lookup}
use snk_fork_dolphin.Base.Total.{total}
use snk_fork_dolphin.HostConfig.{Store, HcManager, key_map, list_host_configs}
use snk_fork_dolphin.Types.Deploy.{DeploySpec}
use snk_fork_dolphin.Types.Fault.{Errors, Fault, cancelled}
use snk_fork_dolphin.Replica.{hc_stat}
use snk_fork_dolphin.Replica.Stat.{
  expected_of, unexpected_of, expected_stat, unexpected_stat, IsProper,
}
use snk_fork_dolphin.Replica.Add.{add_loop, add_instances}
use snk_fork_dolphin.Replica.Add.One.{
  IsConfigured, add_one_instance-unknown, add_one_instance-known, added, added-IsProper,
  added_counts, added-IsConfigured,
}

append_one : (xs : Errors) (e : Fault) → xs ++ e ∷ [] ≢ []
append_one [] e h = cc
append_one (x ∷ xs) e h = cc

Errors-cases : (es : Errors) → (es ≡ []) ⊎ ((e : Fault) × (rest : Errors) × (es ≡ e ∷ rest))
Errors-cases [] = inl refl
Errors-cases (e ∷ es) = inr (e, es, refl)

module _ (D : Store) (key expect : Text) where
  module _ {S : Type 0} (next_host : S → S × Text × Errors) (ended : ℕ → Bool) where
    not_yet :
        (wait last : ℕ) → ended last ≡ true → ended wait ≡ false → wait ≤ last → wait + 1 ≤ last
    not_yet wait last over running early = elim (Bool-cases (wait == last)) [
      | inl same ↦ absurd (cc (ap ended ((==_iff wait last).0 same), over, running))
      | inr apart ↦ ground arith
    ]

    -- The hosts that the scheduler gives without an error have a configuration in the table.
    abbrev pub GivesKnown : Table DeploySpec → Type 0
    GivesKnown t = (s : S) → (next_host s).2 ≡ [] → IsConfigured t (next_host s).1

    -- `j` of `num` instances have been added, and all of them if there is no error.
    pub record Grown (num : ℤ) (m m' : HcManager D) (errors : Errors) (j : ℤ) : Type 0 where
      pub proper : IsProper (key_map D key m')
      pub least : pos 0 ≤ℤ j
      pub most : j ≤ℤ num
      pub expected :
          total (expected_of expect) (key_map D key m')
          ≡ total (expected_of expect) (key_map D key m) +ℤ j
      pub unexpected :
          total (unexpected_of expect) (key_map D key m')
          ≡ total (unexpected_of expect) (key_map D key m)
      pub whole : errors ≡ [] → j ≡ num

    -- The loop ends with no panic, and some of `num` instances have been added.
    abbrev pub Adds : ℤ → HcManager D → Option (Outcome (HcManager D × S × Errors)) → Type 0
    Adds num m none = ⊥
    Adds num m (some panicked) = ⊥
    Adds num m (some (done r)) = (j : ℤ) × Grown num m r.0 r.2 j

    add_loop-failed :
        (fuel : ℕ) (num : ℤ) (wait : ℕ) (merr : Errors) (s : S) (m : HcManager D) (e : Fault)
        (es : Errors)
        → ltb_ℤ (pos 0) num ≡ true
        → ended wait ≡ false
        → (next_host s).2 ≡ e ∷ es
        → add_loop D next_host key expect ended (suc fuel) num wait merr s m
          ≡ add_loop D next_host key expect ended fuel num
              (wait + 1)
              (merr ++ (next_host s).2)
              (next_host s).0
              m
    unfolding add_loop
    add_loop-failed fuel num wait merr s m e es positive running failed = ground arith

    add_loop-step :
        (fuel : ℕ) (num : ℤ) (wait : ℕ) (merr : Errors) (s : S) (m : HcManager D) (info : Table ℤ)
        → ltb_ℤ (pos 0) num ≡ true
        → ended wait ≡ false
        → (next_host s).2 ≡ []
        → lookup (next_host s).1 (key_map D key m) ≡ some (record { info = some info })
        → add_loop D next_host key expect ended (suc fuel) num wait merr s m
          ≡ add_loop D next_host key expect ended fuel
              (num -ℤ pos 1)
              (wait + 1)
              (merr ++ (added D key expect (next_host s).1 info m).1)
              (next_host s).0
              (added D key expect (next_host s).1 info m).0
    unfolding add_loop
    add_loop-step fuel num wait merr s m info positive running found e =
        ground (arith, add_one_instance-known D key expect (next_host s).1 m info e)

    add_loop-finished :
        (fuel : ℕ) (num : ℤ) (wait : ℕ) (merr : Errors) (s : S) (m : HcManager D)
        → ltb_ℤ (pos 0) num ≡ false
        → add_loop D next_host key expect ended (suc fuel) num wait merr s m
          ≡ some (done (m, s, merr))
    unfolding add_loop
    add_loop-finished fuel num wait merr s m e = ground arith

    add_loop-ended :
        (fuel : ℕ) (num : ℤ) (wait : ℕ) (merr : Errors) (s : S) (m : HcManager D)
        → ltb_ℤ (pos 0) num ≡ true
        → ended wait ≡ true
        → add_loop D next_host key expect ended (suc fuel) num wait merr s m
          ≡ some (done (m, s, merr ++ cancelled ∷ []))
    unfolding add_loop
    add_loop-ended fuel num wait merr s m e over = ground arith

    Grown-nothing :
        (num : ℤ) (m : HcManager D) (errors : Errors)
        → IsProper (key_map D key m)
        → pos 0 ≤ℤ num
        → (errors ≡ [] → pos 0 ≡ num)
        → Grown num m m errors (pos 0)
    Grown-nothing num m errors p nonneg all = record {
      proper = p;
      least = omega int_laws;
      most = nonneg;
      expected = omega int_laws;
      unexpected = refl;
      whole = all;
    }

    Adds-step :
        (h : Text) (info : Table ℤ) (num : ℤ) (m : HcManager D)
        (r : Option (Outcome (HcManager D × S × Errors)))
        → IsProper (key_map D key m)
        → lookup h (key_map D key m) ≡ some (record { info = some info })
        → Adds (num -ℤ pos 1) (added D key expect h info m).0 r
        → Adds num m r
    Adds-step h info num m none p e a = a
    Adds-step h info num m (some panicked) p e a = a
    Adds-step h info num m (some (done r)) p e (j, g) =
        let counts = added_counts D key expect h info m p e in
        (
          j +ℤ pos 1,
          record {
            proper = g.proper;
            least = omega (int_laws, g.least);
            most = omega (int_laws, g.most);
            expected = omega (int_laws, parts_of_eq g.expected, parts_of_eq counts.0);
            unexpected = omega (int_laws, parts_of_eq g.unexpected, parts_of_eq counts.1);
            whole = λ none_left. omega (int_laws, parts_of_eq (g.whole none_left));
          },
        )

    -- The loop ends at the latest where the context has ended, at the wait `last`.
    add_loop-Adds :
        (fuel last : ℕ) (num : ℤ) (wait : ℕ) (merr : Errors) (s : S) (m : HcManager D)
        → IsProper (key_map D key m)
        → GivesKnown (key_map D key m)
        → ended last ≡ true
        → wait ≤ last
        → last < wait + fuel
        → pos 0 ≤ℤ num
        → Adds num m (add_loop D next_host key expect ended fuel num wait merr s m)
    add_loop-Adds zero last num wait merr s m p f over early enough nonneg =
        absurd (omega (arith, early, enough))
    add_loop-Adds (suc fuel) last num wait merr s m p f over early enough nonneg =
        elim (Bool-cases (ltb_ℤ (pos 0) num)) [
          | inr finished ↦
              let zero_left : num ≡ pos 0 = ground arith in
              rw (add_loop-finished fuel num wait merr s m finished)
                (pos 0, Grown-nothing num m merr p nonneg (λ e. sym zero_left))
          | inl positive ↦ elim (Bool-cases (ended wait)) [
            | inl now ↦
                rw (add_loop-ended fuel num wait merr s m positive now) (
                  pos 0,
                  Grown-nothing num m _ p nonneg (λ e. absurd (append_one merr cancelled e)),
                )
            | inr running ↦
                let later : wait + 1 ≤ last = not_yet wait last over running early in
                elim (Errors-cases (next_host s).2) [
                  | inr (e, es, failed) ↦
                      rw (add_loop-failed fuel num wait merr s m e es positive running failed) (
                        add_loop-Adds fuel last num (wait + 1) _ _ m p f over later
                          (omega (arith, enough)) nonneg)
                  | inl found ↦
                      let (info, e) = f s found in
                      let h = (next_host s).1 in
                      rw (add_loop-step fuel num wait merr s m info positive running found e) (
                        Adds-step h info num m _ p e (
                          add_loop-Adds fuel last (num -ℤ pos 1) (wait + 1) _ _
                            (added D key expect h info m).0
                            (added-IsProper D key expect h info m p e)
                            (λ s' found'.
                              added-IsConfigured D key expect h (next_host s').1 info m
                                (f s' found'))
                            over later (omega (arith, enough))
                            (ground (arith, -ℤ_parts num (pos 1)))))
                ]
          ]
        ]

    returned :
        (num : ℤ) (m : HcManager D) (o : Option (Outcome (HcManager D × S × Errors)))
        → Adds num m o
        → let before = hc_stat expect (list_host_configs D key m) in
          (r : HcManager D × S × Errors) × (j : ℤ) × (o ≡ some (done r))
          × (pos 0 ≤ℤ j)
          × (j ≤ℤ num)
          × (r.2 ≡ [] → j ≡ num)
          × (hc_stat expect (list_host_configs D key r.0) ≡ (before.0 +ℤ j, before.1))
    returned num m none a = absurd a
    returned num m (some panicked) a = absurd a
    returned num m (some (done r)) (j, g) = (
      r,
      j,
      refl,
      g.least,
      g.most,
      g.whole,
      pair_eq
          (omega (
            int_laws,
            parts_of_eq g.expected,
            parts_of_eq (expected_stat D key expect m),
            parts_of_eq (expected_stat D key expect r.0),
          ))
          (omega (
            int_laws,
            parts_of_eq g.unexpected,
            parts_of_eq (unexpected_stat D key expect m),
            parts_of_eq (unexpected_stat D key expect r.0),
          )),
    )

    pub add_instances-Adds :
        (fuel last : ℕ) (num : ℤ) (s : S) (m : HcManager D)
        → IsProper (key_map D key m)
        → GivesKnown (key_map D key m)
        → ended last ≡ true
        → last < fuel
        → pos 0 ≤ℤ num
        → Adds num m (add_instances D next_host key expect ended fuel num s m)
    unfolding add_instances
    add_instances-Adds fuel last num s m p f over enough nonneg =
        add_loop-Adds fuel last num 0 [] s m p f over (omega arith) (omega (arith, enough)) nonneg

    -- `addInstances` returns, at the latest at the wait at which the context has ended, whenever
    -- the scheduler fails and whatever the store answers, given that a host that the scheduler
    -- gives without an error has a configuration for the key. `hcStat` then counts some number of
    -- instances more of the expected version, from none to as many as were asked for, and exactly
    -- as many as were asked for if there is no error, and of the others as many as before. In the
    -- map of the key a host stands once, and a version in the map of a host.
    pub add_instances_counts :
        (last : ℕ) (num : ℤ) (s : S) (m : HcManager D)
        → IsProper (key_map D key m)
        → GivesKnown (key_map D key m)
        → ended last ≡ true
        → pos 0 ≤ℤ num
        → let before = hc_stat expect (list_host_configs D key m) in
          (r : HcManager D × S × Errors) × (j : ℤ) × (add_instances D next_host key expect ended
              (suc last)
              num
              s
              m
            ≡ some (done r))
          × (pos 0 ≤ℤ j)
          × (j ≤ℤ num)
          × (r.2 ≡ [] → j ≡ num)
          × (hc_stat expect (list_host_configs D key r.0) ≡ (before.0 +ℤ j, before.1))
    add_instances_counts last num s m p f over nonneg =
        returned num m (add_instances D next_host key expect ended (suc last) num s m)
          (add_instances-Adds (suc last) last num s m p f over (omega arith) nonneg)

    -- `addInstances` panics in its first round when the scheduler finds a host that has no
    -- configuration for the key.
    add_instances-unknown :
        (fuel : ℕ) (num : ℤ) (s : S) (m : HcManager D)
        → pos 0 <ℤ num
        → ended 0 ≡ false
        → (next_host s).2 ≡ []
        → lookup (next_host s).1 (key_map D key m) ≡ none
        → add_instances D next_host key expect ended (suc fuel) num s m ≡ some panicked
    unfolding add_instances add_loop
    add_instances-unknown fuel num s m positive running found absent =
        ground (arith, add_one_instance-unknown D key expect (next_host s).1 m absent)
