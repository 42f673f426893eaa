-- ===== src/Replica/Legacy/Sums.antt =====
-- What `hcStat` counts when the legacy versions are removed (controllers/scheduler/replica.go).
use snk_fork_dolphin.Base.{
  ◌≡◌, ◌∙◌, refl, sym, ap, arith, true, false, [], ◌∷◌, some, is_empty, Bool-cases, inl, inr,
  pair_eq,
}
use snk_fork_dolphin.Base.Int.{ℤ, pos, ◌+ℤ◌, int_laws, parts_of_eq}
use snk_fork_dolphin.Base.Text.{Text, text_eq}
use snk_fork_dolphin.Base.Table.{Table, lookup, insert, delete}
use snk_fork_dolphin.Base.Total.{
  IsDistinct, total, total-insert-some, total-delete-some, insert-IsDistinct, delete-IsDistinct,
}
use snk_fork_dolphin.HostConfig.{Store, HcManager, key_map, list_host_configs}
use snk_fork_dolphin.HostConfig.Tables.{key_map-set_self, key_map-delete_self}
use snk_fork_dolphin.Types.Deploy.{DeploySpec}
use snk_fork_dolphin.Replica.{entries, hc_stat}
use snk_fork_dolphin.Replica.Stat.{expected, unexpected, expected_of, unexpected_of, hc_stat-total}
use snk_fork_dolphin.Replica.Legacy.{
  only_version, need_update, remove_legacy_host, remove_legacy_hosts, remove_legacy,
}
use snk_fork_dolphin.Replica.Legacy.Lookup.{
  Agrees, Agrees-self, Agrees-other, lookup-remove_legacy_host,
}

expected-only_version :
    (ver : Text) (info : Table ℤ) → expected ver (only_version ver info) ≡ expected ver info
unfolding only_version
expected-only_version ver [] = refl
expected-only_version ver ((v, n) ∷ info) = elim (Bool-cases (text_eq v ver)) [
  | inl same ↦ rw same (rw same (ap (λ s. n +ℤ s) (expected-only_version ver info)))
  | inr other ↦ rw other (omega (int_laws, parts_of_eq (expected-only_version ver info)))
]

unexpected-only_version :
    (ver : Text) (info : Table ℤ) → unexpected ver (only_version ver info) ≡ pos 0
unfolding only_version
unexpected-only_version ver [] = refl
unexpected-only_version ver ((v, n) ∷ info) = elim (Bool-cases (text_eq v ver)) [
  | inl same ↦ rw same (rw same (omega (int_laws, parts_of_eq (unexpected-only_version ver info))))
  | inr other ↦ rw other (unexpected-only_version ver info)
]

unexpected-need_update :
    (ver : Text) (info : Table ℤ) → need_update ver info ≡ false → unexpected ver info ≡ pos 0
unfolding need_update
unexpected-need_update ver [] e = refl
unexpected-need_update ver ((v, n) ∷ info) e = elim (Bool-cases (text_eq v ver)) [
  | inl same ↦
      rw same (omega (int_laws, parts_of_eq (unexpected-need_update ver info (ground arith))))
  | inr other ↦ ground arith
]

expected_no_version :
    (ver : Text) (info : Table ℤ)
    → is_empty (only_version ver info) ≡ true
    → expected ver info ≡ pos 0
expected_no_version ver info h = sym (expected-only_version ver info) ∙ ground arith

-- What one round of the loop keeps, and what it takes away.
record Round (ver h : Text) (cfg : DeploySpec) (t t' : Table DeploySpec) : Type 0 where
  distinct : IsDistinct t'
  expected_kept : total (expected_of ver) t' ≡ total (expected_of ver) t
  unexpected_gone :
      total (unexpected_of ver) t' +ℤ unexpected_of ver cfg ≡ total (unexpected_of ver) t

module _ (ver h : Text) (cfg : DeploySpec) (t : Table DeploySpec) where
  Round-delete :
      IsDistinct t
      → lookup h t ≡ some cfg
      → is_empty (only_version ver (entries cfg)) ≡ true
      → Round ver h cfg t (delete h t)
  Round-delete d e empty = record {
    distinct = delete-IsDistinct h t d;
    expected_kept = omega (
      int_laws,
      parts_of_eq (total-delete-some (expected_of ver) h t d e),
      parts_of_eq (expected_no_version ver (entries cfg) empty),
    );
    unexpected_gone = total-delete-some (unexpected_of ver) h t d e;
  }

  Round-insert :
      IsDistinct t
      → lookup h t ≡ some cfg
      → Round ver h cfg t (insert h (record { info = some (only_version ver (entries cfg)) }) t)
  Round-insert d e =
      let kept : DeploySpec = record { info = some (only_version ver (entries cfg)) } in
      record {
        distinct = insert-IsDistinct h kept t d;
        expected_kept = omega (
          int_laws,
          parts_of_eq (total-insert-some (expected_of ver) h kept t e),
          parts_of_eq (expected-only_version ver (entries cfg)),
        );
        unexpected_gone =
            total-insert-some (unexpected_of ver) h kept t e
            ∙ omega (int_laws, parts_of_eq (unexpected-only_version ver (entries cfg)));
      }

  Round-unchanged : IsDistinct t → need_update ver (entries cfg) ≡ false → Round ver h cfg t t
  Round-unchanged d e = record {
    distinct = d;
    expected_kept = refl;
    unexpected_gone = omega (int_laws, parts_of_eq (unexpected-need_update ver (entries cfg) e));
  }

module _ (D : Store) (key ver : Text) where
  remove_legacy_host-Round :
      (h : Text) (cfg : DeploySpec) (m : HcManager D)
      → IsDistinct (key_map D key m)
      → lookup h (key_map D key m) ≡ some cfg
      → Round ver h cfg (key_map D key m) (key_map D key (remove_legacy_host D key ver h cfg m).0)
  unfolding remove_legacy_host
  remove_legacy_host-Round h cfg m d e =
      let t = key_map D key m in
      elim (Bool-cases (is_empty (only_version ver (entries cfg)))) [
        | inl empty ↦
            rw empty (rw (key_map-delete_self D key h m) (Round-delete ver h cfg t d e empty))
        | inr some_left ↦ rw some_left (elim (Bool-cases (need_update ver (entries cfg))) [
          | inl changed ↦ rw changed (rw key_map-set_self (Round-insert ver h cfg t d e))
          | inr same ↦ rw same (Round-unchanged ver h cfg t d same)
        ])
      ]

  remove_legacy_hosts-total :
      (hc : Table DeploySpec) (m : HcManager D)
      → IsDistinct hc
      → IsDistinct (key_map D key m)
      → Agrees hc (key_map D key m)
      → let t' = key_map D key (remove_legacy_hosts D key ver hc m).0 in
        IsDistinct t'
        × (total (expected_of ver) t' ≡ total (expected_of ver) (key_map D key m))
        × (total (unexpected_of ver) t' +ℤ total (unexpected_of ver) hc
            ≡ total (unexpected_of ver) (key_map D key m))
  unfolding remove_legacy_hosts total
  remove_legacy_hosts-total [] m dh dt a = (dt, refl, omega int_laws)
  remove_legacy_hosts-total ((h, cfg) ∷ hc) m dh dt a =
      let m' = (remove_legacy_host D key ver h cfg m).0 in
      let round = remove_legacy_host-Round h cfg m dt a.0 in
      let still =
        Agrees-other h hc (key_map D key m) (key_map D key m') dh.0
          (λ i ne. lookup-remove_legacy_host D key ver h i cfg m a.0 ∙ rw ne) a.1 in
      let later = remove_legacy_hosts-total hc m' dh.1 round.distinct still in
      (
        later.0,
        later.1 ∙ round.expected_kept,
        omega (int_laws, parts_of_eq later.2, parts_of_eq round.unexpected_gone),
      )

  -- Once the legacy versions are removed `hcStat` counts as many instances of the expected version
  -- as before, and none of any other, whatever the store answers, given that in the map
  -- of the key a host stands once.
  pub hc_stat-remove_legacy :
      (m : HcManager D)
      → IsDistinct (key_map D key m)
      → hc_stat ver (list_host_configs D key (remove_legacy D key ver m).0)
        ≡ ((hc_stat ver (list_host_configs D key m)).0, pos 0)
  unfolding remove_legacy list_host_configs
  hc_stat-remove_legacy m d =
      let t = key_map D key m in
      let after = remove_legacy_hosts-total t m d d (Agrees-self t d) in
      hc_stat-total ver _
      ∙ pair_eq (after.1 ∙ sym (ap (λ s. s.0) (hc_stat-total ver t)))
          (omega (int_laws, parts_of_eq after.2))
