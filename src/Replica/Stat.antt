-- ===== src/Replica/Stat.antt =====
-- `hcStat` of controllers/scheduler/replica.go and sums over the hosts and versions.
use snk_fork_dolphin.Base.{
  ◌≡◌, refl, [], ◌∷◌, none, some, arith, if◌then◌else◌, Bool-cases, inl, inr, Option-cases, pair_eq,
  ap, ◌∙◌,
}
use snk_fork_dolphin.Base.Int.{ℤ, pos, ◌+ℤ◌, int_laws, parts_of_eq}
use snk_fork_dolphin.Base.Text.{Text, text_eq, text_eq_iff}
use snk_fork_dolphin.Base.Table.{Table, lookup, insert, lookup-insert}
use snk_fork_dolphin.Base.Total.{total, IsDistinct, at, insert-IsDistinct}
use snk_fork_dolphin.Types.Deploy.{DeploySpec}
use snk_fork_dolphin.HostConfig.{Store, HcManager, key_map, list_host_configs}
use snk_fork_dolphin.HostConfig.Tables.{list_host_configs_lem}
use snk_fork_dolphin.Replica.{entries, info_stat, hosts_stat, hc_stat}

-- The instances of the expected version among the entries of a specification.
abbrev pub expected : Text → Table ℤ → ℤ
expected ver [] = pos 0
expected ver ((v, n) ∷ info) = (if text_eq v ver then n else pos 0) +ℤ expected ver info

-- The instances of all other versions.
abbrev pub unexpected : Text → Table ℤ → ℤ
unexpected ver [] = pos 0
unexpected ver ((v, n) ∷ info) = (if text_eq v ver then pos 0 else n) +ℤ unexpected ver info

abbrev pub expected_of : Text → DeploySpec → ℤ
expected_of ver spec = expected ver (entries spec)

abbrev pub unexpected_of : Text → DeploySpec → ℤ
unexpected_of ver spec = unexpected ver (entries spec)

info_stat-sums :
    (ver : Text) (info : Table ℤ) (e u : ℤ)
    → info_stat ver info e u ≡ (e +ℤ expected ver info, u +ℤ unexpected ver info)
unfolding info_stat
info_stat-sums ver [] e u = pair_eq (omega int_laws) (omega int_laws)
info_stat-sums ver ((v, n) ∷ info) e u = elim (Bool-cases (text_eq v ver)) [
  | inl same ↦
      rw same (info_stat-sums ver info (e +ℤ n) u ∙ pair_eq (omega int_laws) (omega int_laws))
  | inr other ↦
      rw other (info_stat-sums ver info e (u +ℤ n) ∙ pair_eq (omega int_laws) (omega int_laws))
]

hosts_stat-total :
    (ver : Text) (hc : Table DeploySpec) (e u : ℤ)
    → hosts_stat ver hc e u ≡ (e +ℤ total (expected_of ver) hc, u +ℤ total (unexpected_of ver) hc)
unfolding hosts_stat total
hosts_stat-total ver [] e u = pair_eq (omega int_laws) (omega int_laws)
hosts_stat-total ver ((h, cfg) ∷ hc) e u =
    let one = info_stat-sums ver (entries cfg) e u in
    ap (λ s. hosts_stat ver hc s.0 s.1) one
    ∙ hosts_stat-total ver hc _ _
    ∙ pair_eq (omega int_laws) (omega int_laws)

-- `hcStat` gives the number of instances of the expected version and that of all the others,
-- summed over the hosts.
pub hc_stat-total :
    (ver : Text) (hc : Table DeploySpec)
    → hc_stat ver hc ≡ (total (expected_of ver) hc, total (unexpected_of ver) hc)
unfolding hc_stat
hc_stat-total ver hc =
    hosts_stat-total ver hc (pos 0) (pos 0) ∙ pair_eq (omega int_laws) (omega int_laws)

pub expected_absent :
    (ver : Text) (info : Table ℤ) → lookup ver info ≡ none → expected ver info ≡ pos 0
unfolding lookup
expected_absent ver [] e = refl
expected_absent ver ((v, n) ∷ info) e = elim (Bool-cases (text_eq v ver)) [
  | inl same ↦ ground arith
  | inr other ↦ rw other (omega (int_laws, parts_of_eq (expected_absent ver info (ground arith))))
]

pub expected_present :
    (ver : Text) (info : Table ℤ) (n : ℤ)
    → IsDistinct info
    → lookup ver info ≡ some n
    → expected ver info ≡ n
unfolding lookup
expected_present ver [] n d e = cc
expected_present ver ((v, k) ∷ info) n d e = elim (Bool-cases (text_eq v ver)) [
  | inl same ↦
      let same_count : k ≡ n = ground arith in
      let no_other = expected_absent ver info (cc ((text_eq_iff v ver).0 same, d.0)) in
      rw same (omega (int_laws, parts_of_eq same_count, parts_of_eq no_other))
  | inr other ↦
      rw other (omega (int_laws, parts_of_eq (expected_present ver info n d.1 (ground arith))))
]

pub expected-lookup :
    (ver : Text) (info : Table ℤ)
    → IsDistinct info
    → expected ver info ≡ at (λ n. n) (lookup ver info)
expected-lookup ver info d = elim (Option-cases (lookup ver info)) [
  | inl absent ↦ rw absent (expected_absent ver info absent)
  | inr (n, present) ↦ rw present (expected_present ver info n d present)
]

-- As in Go's maps, hosts and versions stand once.
pub record IsProper (t : Table DeploySpec) : Type 0 where
  pub hosts : IsDistinct t
  pub versions : (h : Text) (cfg : DeploySpec) → lookup h t ≡ some cfg → IsDistinct (entries cfg)

pub insert-IsProper :
    (h : Text) (info : Table ℤ) (t : Table DeploySpec)
    → IsDistinct info
    → IsProper t
    → IsProper (insert h (record { info = some info }) t)
insert-IsProper h info t d p =
    let spec : DeploySpec = record { info = some info } in
    record {
      hosts = insert-IsDistinct h spec t p.hosts;
      versions = λ j cfg e. ground (arith, lookup-insert h j spec t, p.versions j cfg);
    }

module _ (D : Store) (key ver : Text) (m : HcManager D) where
  pub expected_stat :
      (hc_stat ver (list_host_configs D key m)).0 ≡ total (expected_of ver) (key_map D key m)
  expected_stat =
      ap (λ hc. (hc_stat ver hc).0) (list_host_configs_lem D key m)
      ∙ ap (λ s. s.0) (hc_stat-total ver (key_map D key m))

  pub unexpected_stat :
      (hc_stat ver (list_host_configs D key m)).1 ≡ total (unexpected_of ver) (key_map D key m)
  unexpected_stat =
      ap (λ hc. (hc_stat ver hc).1) (list_host_configs_lem D key m)
      ∙ ap (λ s. s.1) (hc_stat-total ver (key_map D key m))
