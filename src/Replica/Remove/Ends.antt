-- ===== src/Replica/Remove/Ends.antt =====
-- The end of the loop of `removeExpectInstances` in controllers/scheduler/replica.go, by the number
-- that is left after a pass over the hosts.
use snk_fork_dolphin.Base.{
  ℕ, zero, suc, ◌+◌, ◌<◌, ◌≡◌, ◌≢◌, ◌∙◌, refl, arith, Bool, true, false, [], ◌∷◌, Option, none,
  some, Bool-cases, Option-cases, inl, inr,
}
use snk_fork_dolphin.Base.Int.{
  ℤ, pos, ltb_ℤ, ◌<ℤ◌, ◌≤ℤ◌, ◌+ℤ◌, ◌-ℤ◌, int_laws, parts_of_eq, pos_part, pos_part-lt,
}
use snk_fork_dolphin.Base.Text.{Text}
use snk_fork_dolphin.Base.Table.{Table, lookup}
use snk_fork_dolphin.Base.Total.{IsDistinct, total}
use snk_fork_dolphin.HostConfig.{Store, HcManager, key_map}
use snk_fork_dolphin.HostConfig.Tables.{list_host_configs_lem}
use snk_fork_dolphin.Types.Deploy.{DeploySpec}
use snk_fork_dolphin.Types.Fault.{Errors}
use snk_fork_dolphin.Replica.{entries}
use snk_fork_dolphin.Replica.Stat.{expected_of, expected_absent}
use snk_fork_dolphin.Replica.Legacy.Lookup.{Agrees, Agrees-self, Agrees-other}
use snk_fork_dolphin.Replica.Remove.{
  Pass, returns, goes_on, after_one, remove_one_instance, remove_pass, remove_loop,
  remove_expect_instances,
}
use snk_fork_dolphin.Replica.Remove.One.{key_map-remove_one_instance, lookup-remove_one_instance}
use snk_fork_dolphin.Replica.Remove.Counted.{
  IsCounted, total-after_removal, remove_one_instance-IsCounted,
}

-- Some host of the snapshot holds the version.
abbrev has_version : Text → Table DeploySpec → Bool
has_version ver [] = false
has_version ver ((h, cfg) ∷ hc) = elim (lookup ver (entries cfg)) [
  | none ↦ has_version ver hc
  | some v ↦ true
]

total-has_version :
    (ver : Text) (hc : Table DeploySpec)
    → has_version ver hc ≡ false
    → total (expected_of ver) hc ≡ pos 0
unfolding total
total-has_version ver [] e = refl
total-has_version ver ((h, cfg) ∷ hc) e = elim (Option-cases (lookup ver (entries cfg))) [
  | inl absent ↦ omega (
    int_laws,
    parts_of_eq (expected_absent ver (entries cfg) absent),
    parts_of_eq (total-has_version ver hc (ground arith)),
  )
  | inr (v, found) ↦ ground arith
]

module _ (D : Store) (key ver : Text) (ended : ℕ → Bool) (count : ℤ) where
  instances : HcManager D → ℤ
  instances m = total (expected_of ver) (key_map D key m)

  -- A pass from `m` with `num` left that goes on has removed no more instances than it has
  -- counted, and has counted some where a host of the snapshot holds the version.
  abbrev PassInv : Table DeploySpec → ℤ → HcManager D → Pass (HcManager D) → Type 0
  PassInv hc num m (returns _ _ _) = Unit
  PassInv hc num m (goes_on m' num' _) =
      IsCounted ver (key_map D key m')
      × (num' ≤ℤ num)
      × (instances m +ℤ num' ≤ℤ instances m' +ℤ num)
      × (has_version ver hc ≡ true → num' <ℤ num)

  PassInv-step :
      (hc : Table DeploySpec) (h : Text) (cfg : DeploySpec) (num : ℤ) (m m' : HcManager D)
      (p : Pass (HcManager D))
      → instances m ≤ℤ instances m' +ℤ pos 1
      → PassInv hc (num -ℤ pos 1) m' p
      → PassInv ((h, cfg) ∷ hc) num m p
  PassInv-step hc h cfg num m m' (returns _ _ _) s i = tt
  PassInv-step hc h cfg num m m' (goes_on m'' num' w) s i =
      (i.0, omega (int_laws, i.1), omega (int_laws, i.2, s), λ _. omega (int_laws, i.1))

  after_one-PassInv :
      (hc : Table DeploySpec) (num num' : ℤ) (m m' : HcManager D) (errors : Errors) (stop : Bool)
      (next : Pass (HcManager D))
      → PassInv hc num m next
      → PassInv hc num m (after_one D key ver ended count m' errors num' stop next)
  unfolding after_one
  after_one-PassInv hc num num' m m' (e ∷ es) stop next i = tt
  after_one-PassInv hc num num' m m' [] stop next i =
      elim (Bool-cases (ltb_ℤ (num' -ℤ pos 1) (pos 0))) [
        | inl past ↦ rw past tt
        | inr more ↦ rw more (elim (Bool-cases stop) [ inl s ↦ rw s tt | inr s ↦ rw s i ])
      ]

  PassInv-skip :
      (hc : Table DeploySpec) (h : Text) (cfg : DeploySpec) (num : ℤ) (m : HcManager D)
      (p : Pass (HcManager D))
      → lookup ver (entries cfg) ≡ none
      → PassInv hc num m p
      → PassInv ((h, cfg) ∷ hc) num m p
  PassInv-skip hc h cfg num m (returns _ _ _) absent i = tt
  PassInv-skip hc h cfg num m (goes_on m' num' w) absent i =
      (i.0, i.1, i.2, λ e. i.3 (ground arith))

  pub remove_pass-absent :
      (hc : Table DeploySpec) (h : Text) (cfg : DeploySpec) (num : ℤ) (wait : ℕ) (m : HcManager D)
      → lookup ver (entries cfg) ≡ none
      → remove_pass D key ver ended count ((h, cfg) ∷ hc) num wait m
        ≡ remove_pass D key ver ended count hc num wait m
  unfolding remove_pass
  remove_pass-absent hc h cfg num wait m absent = ground arith

  pub remove_pass-present :
      (hc : Table DeploySpec) (h : Text) (cfg : DeploySpec) (num : ℤ) (wait : ℕ) (m : HcManager D)
      {v : ℤ}
      → lookup ver (entries cfg) ≡ some v
      → let (m', errors) = remove_one_instance D key ver h m in
        remove_pass D key ver ended count ((h, cfg) ∷ hc) num wait m
        ≡ after_one D key ver ended count m' errors num
            (ended wait)
            (remove_pass D key ver ended count hc (num -ℤ pos 1) (wait + 1) m')
  unfolding remove_pass
  remove_pass-present hc h cfg num wait m found = ground arith

  instances-remove_one_instance :
      (h : Text) (cfg : DeploySpec) (v : ℤ) (m : HcManager D)
      → IsCounted ver (key_map D key m)
      → lookup h (key_map D key m) ≡ some cfg
      → lookup ver (entries cfg) ≡ some v
      → instances m ≤ℤ instances (remove_one_instance D key ver h m).0 +ℤ pos 1
  unfolding instances
  instances-remove_one_instance h cfg v m c e ev =
      rw (key_map-remove_one_instance D key ver h m v e ev)
        (total-after_removal ver h cfg v (key_map D key m) c e ev)

  remove_pass-PassInv :
      (hc : Table DeploySpec) (num : ℤ) (wait : ℕ) (m : HcManager D)
      → IsDistinct hc
      → Agrees hc (key_map D key m)
      → IsCounted ver (key_map D key m)
      → PassInv hc num m (remove_pass D key ver ended count hc num wait m)
  remove_pass-PassInv [] num wait m d a c =
      unfold remove_pass in (c, omega int_laws, omega int_laws, λ e. cc)
  remove_pass-PassInv ((h, cfg) ∷ hc) num wait m d a c =
      let (m', errors) = remove_one_instance D key ver h m in
      let still : (v : ℤ) → lookup ver (entries cfg) ≡ some v → Agrees hc (key_map D key m') =
        λ v found.
          Agrees-other h hc (key_map D key m) (key_map D key m') d.0
            (λ i ne. lookup-remove_one_instance D key ver h m i v a.0 found ∙ rw ne) a.1 in
      elim (Option-cases (lookup ver (entries cfg))) [
        | inl absent ↦
            rw (remove_pass-absent hc h cfg num wait m absent)
              (PassInv-skip hc h cfg num m _ absent (remove_pass-PassInv hc num wait m d.1 a.1 c))
        | inr (v, found) ↦
            let c' = remove_one_instance-IsCounted D key ver h m cfg v c a.0 found in
            let later =
              remove_pass-PassInv hc (num -ℤ pos 1) (wait + 1) m' d.1 (still v found) c' in
            rw (remove_pass-present hc h cfg num wait m found) (
              after_one-PassInv ((h, cfg) ∷ hc) num num m m' errors (ended wait) _ (
                PassInv-step hc h cfg num m m' _
                  (instances-remove_one_instance h cfg v m c a.0 found) later))
      ]

  has_version-instances :
      (m : HcManager D) → pos 0 <ℤ instances m → has_version ver (key_map D key m) ≡ true
  unfolding instances
  has_version-instances m some_left = elim (Bool-cases (has_version ver (key_map D key m))) [
    | inl found ↦ found
    | inr absent ↦
        absurd (omega (int_laws, parts_of_eq (total-has_version ver (key_map D key m) absent)))
  ]

  loop_of_pass :
      (fuel : ℕ) (num : ℤ) (m : HcManager D) (p : Pass (HcManager D))
      → ((num' : ℤ) (wait' : ℕ) (m' : HcManager D)
          → IsCounted ver (key_map D key m')
          → num' <ℤ instances m'
          → pos_part num' < fuel
          → remove_loop D key ver ended count fuel num' wait' m' ≢ none)
      → PassInv (key_map D key m) num m p
      → num <ℤ instances m
      → pos_part num < suc fuel
      → pos 0 <ℤ num
      → ◌≢◌ {A = Option (HcManager D × ℤ × Errors)}
          (elim p [
            | returns m' n errors ↦ some (m', n, errors)
            | goes_on m' num' wait' ↦ remove_loop D key ver ended count fuel num' wait' m'
          ])
          none
  loop_of_pass fuel num m (returns m' n errors) ih i more enough positive = λ e. cc
  loop_of_pass fuel num m (goes_on m' num' wait') ih i more enough positive =
      let less = i.3 (has_version-instances m (omega arith)) in
      ih num' wait' m' i.0 (omega (int_laws, i.2))
        (omega (arith, pos_part-lt num' num less positive))

  remove_loop-ends :
      (fuel : ℕ) (num : ℤ) (wait : ℕ) (m : HcManager D)
      → IsCounted ver (key_map D key m)
      → num <ℤ instances m
      → pos_part num < fuel
      → remove_loop D key ver ended count fuel num wait m ≢ none
  unfolding remove_loop
  remove_loop-ends zero num wait m c more enough = elim enough [ ]
  remove_loop-ends (suc fuel) num wait m c more enough = elim (Bool-cases (ltb_ℤ (pos 0) num)) [
    | inr finished ↦ rw finished (λ e. cc)
    | inl positive ↦
        rw (positive, list_host_configs_lem D key m)
          (loop_of_pass fuel num m _ (remove_loop-ends fuel)
            (remove_pass-PassInv (key_map D key m) num wait m c.hosts
              (Agrees-self (key_map D key m) c.hosts) c)
            more enough (ground arith))
  ]

-- `removeExpectInstances` returns, after as many passes over the hosts as there are instances to
-- remove and one more, when fewer are to be removed than there are and every count of the version is
-- positive: whatever the store answers and whenever the context ends.
pub remove_expect_instances-ends :
    (D : Store) (key ver : Text) (ended : ℕ → Bool) (num : ℤ) (m : HcManager D)
    → IsCounted ver (key_map D key m)
    → num <ℤ total (expected_of ver) (key_map D key m)
    → remove_expect_instances D key ver ended (suc (pos_part num)) num m ≢ none
unfolding remove_expect_instances
remove_expect_instances-ends D key ver ended num m c more =
    remove_loop-ends D key ver ended num (suc (pos_part num)) num 0 m c (unfold instances in more)
      (omega arith)
