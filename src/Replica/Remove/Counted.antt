-- ===== src/Replica/Remove/Counted.antt =====
-- What `removeOneInstance` does to the counts of a version that are positive.
-- The code is in controllers/scheduler/replica.go.
use snk_fork_dolphin.Base.{◌≡◌, refl, arith, [], ◌∷◌, some, is_empty, Bool-cases, inl, inr}
use snk_fork_dolphin.Base.Int.{ℤ, pos, ltb_ℤ, ◌≤ℤ◌, ◌+ℤ◌, int_laws, parts_of_eq}
use snk_fork_dolphin.Base.Text.{Text, text_eq}
use snk_fork_dolphin.Base.Table.{Table, lookup, delete, lookup-delete_self}
use snk_fork_dolphin.Base.Total.{
  IsDistinct, total, total-insert-some, total-delete-some, insert-IsDistinct, delete-IsDistinct,
}
use snk_fork_dolphin.HostConfig.{Store, HcManager, key_map}
use snk_fork_dolphin.Types.Deploy.{DeploySpec}
use snk_fork_dolphin.Replica.{entries}
use snk_fork_dolphin.Replica.Stat.{expected, expected_of, expected_present}
use snk_fork_dolphin.Replica.Remove.{decremented, remove_one_instance}
use snk_fork_dolphin.Replica.Remove.One.{
  after_removal, after_removal_many, after_removal_last, after_removal_few, with_info,
  key_map-remove_one_instance, lookup-remove_one_instance,
}

-- Hosts and versions stand once, and every count of the version is positive.
pub record IsCounted (ver : Text) (t : Table DeploySpec) : Type 0 where
  pub hosts : IsDistinct t
  pub versions : (h : Text) (cfg : DeploySpec) → lookup h t ≡ some cfg → IsDistinct (entries cfg)
  pub counts :
      (h : Text) (cfg : DeploySpec) (n : ℤ)
      → lookup h t ≡ some cfg
      → lookup ver (entries cfg) ≡ some n
      → pos 1 ≤ℤ n

expected-delete : (ver : Text) (info : Table ℤ) → expected ver (delete ver info) ≡ pos 0
unfolding delete
expected-delete ver [] = refl
expected-delete ver ((v, n) ∷ info) = elim (Bool-cases (text_eq v ver)) [
  | inl same ↦ rw same (expected-delete ver info)
  | inr other ↦ rw other (rw other (omega (int_laws, parts_of_eq (expected-delete ver info))))
]

module _ (ver h : Text) (spec : DeploySpec) (v : ℤ) (t : Table DeploySpec) where
  -- One removal takes away one instance at most.
  pub total-after_removal :
      IsCounted ver t
      → lookup h t ≡ some spec
      → lookup ver (entries spec) ≡ some v
      → total (expected_of ver) t ≤ℤ total (expected_of ver) (after_removal ver h v spec t) +ℤ pos 1
  total-after_removal c e ev =
      let f = expected_of ver in
      let info = delete ver (entries spec) in
      let here = expected_present ver (entries spec) v (c.versions h spec e) ev in
      let positive = c.counts h spec v e ev in
      elim (Bool-cases (ltb_ℤ (pos 1) v)) [
        | inl many ↦
            rw (after_removal_many ver h v spec t many ev)
              (omega (int_laws, parts_of_eq (total-insert-some f h spec t e)))
        | inr one ↦
            let single : v ≡ pos 1 = ground arith in
            elim (Bool-cases (is_empty info)) [
              | inl last ↦ rw (after_removal_last ver h v spec t one last) (
                  omega (
                    int_laws,
                    parts_of_eq (total-delete-some f h t c.hosts e),
                    parts_of_eq here,
                    parts_of_eq single,
                  ))
              | inr few ↦ rw (after_removal_few ver h v spec t one few) (
                  omega (
                    int_laws,
                    parts_of_eq (total-insert-some f h (with_info info) t e),
                    parts_of_eq here,
                    parts_of_eq single,
                    parts_of_eq (expected-delete ver (entries spec)),
                  ))
            ]
      ]

  after_removal-IsDistinct : IsDistinct t → IsDistinct (after_removal ver h v spec t)
  after_removal-IsDistinct d =
      let info = decremented ver v (entries spec) in
      ground (arith, delete-IsDistinct h t d, insert-IsDistinct h (with_info info) t d)

module _ (D : Store) (key ver h : Text) (m : HcManager D) (spec : DeploySpec) (v : ℤ) where
  pub remove_one_instance-IsCounted :
      IsCounted ver (key_map D key m)
      → lookup h (key_map D key m) ≡ some spec
      → lookup ver (entries spec) ≡ some v
      → IsCounted ver (key_map D key (remove_one_instance D key ver h m).0)
  remove_one_instance-IsCounted c e ev = record {
    hosts =
        rw (key_map-remove_one_instance D key ver h m v e ev)
          (after_removal-IsDistinct ver h spec v (key_map D key m) c.hosts);
    versions = λ j cfg f. ground (
      arith,
      lookup-remove_one_instance D key ver h m j v e ev,
      c.versions h spec e,
      c.versions j cfg,
      delete-IsDistinct ver (entries spec) (c.versions h spec e),
    );
    counts = λ j cfg n f fv. ground (
      arith,
      lookup-remove_one_instance D key ver h m j v e ev,
      c.counts h spec n e,
      c.counts j cfg n,
      lookup-delete_self ver (entries spec),
    );
  }
