-- ===== src/Replica/Status/Agreement.antt =====
-- When `checkStatus` finds no fault, and what it repairs (controllers/scheduler/replica.go).
use snk_fork_dolphin.Base.{
  ℕ, ◌+◌, ◌≡◌, ◌≢◌, ◌↔◌, ◌⊎◌, ◌∙◌, refl, arith, ◌&&◌, [], ◌∷◌, none, if◌then◌else◌, pair_eq,
  Bool-cases, inl, inr,
}
use snk_fork_dolphin.Base.Int.{ℤ, pos, ◌-ℤ◌, ◌≤ℤ◌, ◌<ℤ◌, int_laws, parts_of_eq, ltb_ℤ, eqb_ℤ}
use snk_fork_dolphin.Base.Text.{Text, text_eq}
use snk_fork_dolphin.Base.Table.{Table}
use snk_fork_dolphin.Base.Total.{IsDistinct}
use snk_fork_dolphin.HostConfig.{Store, HcManager, key_map, list_host_configs}
use snk_fork_dolphin.Types.Externals.{Externals}
use snk_fork_dolphin.Types.Instance.{Instance}
use snk_fork_dolphin.Replica.{ReplicaCtrl, hc_stat}
use snk_fork_dolphin.Replica.Legacy.Sums.{hc_stat-remove_legacy}
use snk_fork_dolphin.Replica.Status.{tally, verdict, check_status, is_none}

-- How many of the instances are of the version, and how many are not.
abbrev pub of_version : Text → Table Instance → ℕ
of_version ver [] = 0
of_version ver ((_, ins) ∷ s) =
    if text_eq ins.version ver then 1 + of_version ver s else of_version ver s

abbrev pub of_others : Text → Table Instance → ℕ
of_others ver [] = 0
of_others ver ((_, ins) ∷ s) =
    if text_eq ins.version ver then of_others ver s else 1 + of_others ver s

tally_lem :
    (ver : Text) (s : Table Instance) (e u : ℤ)
    → tally ver s e u ≡ (e -ℤ pos (of_version ver s), u -ℤ pos (of_others ver s))
unfolding tally
tally_lem ver [] e u = pair_eq (omega int_laws) (omega int_laws)
tally_lem ver ((_, ins) ∷ s) e u = elim (Bool-cases (text_eq ins.version ver)) [
  | inl same ↦ rw same (tally_lem ver s (e -ℤ pos 1) u ∙ pair_eq (omega int_laws) (omega int_laws))
  | inr other ↦
      rw other (tally_lem ver s e (u -ℤ pos 1) ∙ pair_eq (omega int_laws) (omega int_laws))
]

verdict_iff : (e u : ℤ) → (verdict e u ≡ []) ↔ ((e ≡ pos 0) × (u ≡ pos 0))
unfolding verdict
verdict_iff e u = (λ h. ground arith, λ h. ground arith)

settled_iff :
    (e u : ℤ) (a b : ℕ) → (verdict (e -ℤ pos a) (u -ℤ pos b) ≡ []) ↔ ((e ≡ pos a) × (u ≡ pos b))
settled_iff e u a b =
    let zero_left = verdict_iff (e -ℤ pos a) (u -ℤ pos b) in
    (
      λ h.
          let z = zero_left.0 h in
          (omega (int_laws, parts_of_eq z.0), omega (int_laws, parts_of_eq z.1)),
      λ h. zero_left.1 (omega (int_laws, parts_of_eq h.0), omega (int_laws, parts_of_eq h.1)),
    )

module _ (X : Externals) (D : Store) where
  -- `checkStatus` reports no error exactly when the host configurations ask for the number of
  -- instances in the deploy configuration, there is no legacy version or a lease for it, and
  -- as many instances of the expected version and of the others run as are asked for.
  pub check_status_iff :
      (c : ReplicaCtrl X) (ins_map : Table Instance) (m : HcManager D)
      → let asked = hc_stat c.expect_version (list_host_configs D c.key m) in
        ((check_status X D c ins_map m).1 ≡ []) ↔ (
          (asked.0 ≡ c.dc.num_of_instance)
          × ((asked.1 ≤ℤ pos 0) ⊎ (c.legacy_timer ≢ none))
          × (asked.0 ≡ pos (of_version c.expect_version ins_map))
          × (asked.1 ≡ pos (of_others c.expect_version ins_map)))
  unfolding check_status
  check_status_iff c ins_map m =
      let asked = hc_stat c.expect_version (list_host_configs D c.key m) in
      let run = of_version c.expect_version ins_map in
      let others = of_others c.expect_version ins_map in
      let left = tally_lem c.expect_version ins_map asked.0 asked.1 in
      let settled = settled_iff asked.0 asked.1 run others in
      (λ h. ground (arith, left, settled), λ h. ground (arith, left, settled))

  -- When `checkStatus` finds legacy versions without a lease, it leaves host configurations that ask
  -- for the number of instances in the deploy configuration and for no other version. In every
  -- other case it changes nothing.
  check_status_repairs :
      (c : ReplicaCtrl X) (ins_map : Table Instance) (m : HcManager D)
      → IsDistinct (key_map D c.key m)
      → let asked = hc_stat c.expect_version (list_host_configs D c.key m) in
        let r = check_status X D c ins_map m in
        ((r.0 ≡ m)
          ⊎ ((pos 0 <ℤ asked.1)
              × (c.legacy_timer ≡ none)
              × (hc_stat c.expect_version (list_host_configs D c.key r.0)
                  ≡ (c.dc.num_of_instance, pos 0))))
  unfolding check_status
  check_status_repairs c ins_map m d =
      let asked = hc_stat c.expect_version (list_host_configs D c.key m) in
      let repaired = hc_stat-remove_legacy D c.key c.expect_version m d in
      elim (Bool-cases (eqb_ℤ asked.0 c.dc.num_of_instance)) [
        | inr wrong ↦ inl (rw wrong refl)
        | inl right ↦ elim (Bool-cases (ltb_ℤ (pos 0) asked.1 && is_none c.legacy_timer)) [
          | inr nothing ↦ inl (rw (right, nothing) refl)
          | inl legacy ↦ inr (
            ground arith,
            ground arith,
            rw (right, legacy) (repaired ∙ pair_eq (ground arith) refl),
          )
        ]
      ]
