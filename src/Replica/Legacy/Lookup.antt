-- ===== src/Replica/Legacy/Lookup.antt =====
-- What is left at each host when the legacy versions are removed.
-- The code is in controllers/scheduler/replica.go.
use snk_fork_dolphin.Base.{
  ◌≡◌, ◌∙◌, refl, arith, false, [], ◌∷◌, Option, none, some, if◌then◌else◌, is_empty, All,
}
use snk_fork_dolphin.Base.Text.{Text, text_eq, text_eq_iff}
use snk_fork_dolphin.Base.Table.{Table, lookup, lookup-insert, lookup-delete}
use snk_fork_dolphin.Base.Total.{IsDistinct}
use snk_fork_dolphin.HostConfig.{Store, HcManager, key_map, list_host_configs}
use snk_fork_dolphin.HostConfig.Tables.{key_map-set_self, key_map-delete_self}
use snk_fork_dolphin.Types.Deploy.{DeploySpec}
use snk_fork_dolphin.Replica.{entries}
use snk_fork_dolphin.Replica.Legacy.{
  only_version, need_update, remove_legacy_host, remove_legacy_hosts, remove_legacy,
}

-- The part of a host's specification that is of the expected version; nothing, if there is none.
abbrev pub legacy_removed : Text → DeploySpec → Option DeploySpec
legacy_removed expect cfg =
    let kept = only_version expect (entries cfg) in
    if is_empty kept
    then none
    else some (if need_update expect (entries cfg) then record { info = some kept } else cfg)

-- A snapshot of hosts that the table still holds.
abbrev pub Agrees : Table DeploySpec → Table DeploySpec → Type 0
Agrees hc t = All (λ e. lookup e.0 t ≡ some e.1) hc

-- The table holds the snapshot taken of it.
pub Agrees-cons :
    (h : Text) (cfg : DeploySpec) (hc t : Table DeploySpec)
    → lookup h hc ≡ none
    → Agrees hc t
    → Agrees hc ((h, cfg) ∷ t)
unfolding lookup
Agrees-cons h cfg [] t e a = tt
Agrees-cons h cfg ((i, c) ∷ hc) t e a =
    (ground (arith, text_eq_iff h i, text_eq_iff i h), Agrees-cons h cfg hc t (ground arith) a.1)

pub Agrees-self : (t : Table DeploySpec) → IsDistinct t → Agrees t t
unfolding lookup
Agrees-self [] d = tt
Agrees-self ((h, cfg) ∷ t) d =
    (ground (arith, text_eq_iff h h), Agrees-cons h cfg t t d.0 (Agrees-self t d.1))

-- A change at a host that the snapshot does not hold keeps the agreement.
pub Agrees-other :
    (h : Text) (hc t t' : Table DeploySpec)
    → lookup h hc ≡ none
    → ((j : Text) → text_eq h j ≡ false → lookup j t' ≡ lookup j t)
    → Agrees hc t
    → Agrees hc t'
unfolding lookup
Agrees-other h [] t t' e same a = tt
Agrees-other h ((i, c) ∷ hc) t t' e same a = (
  ground (arith, text_eq_iff h i, text_eq_iff i h, same i),
  Agrees-other h hc t t' (ground arith) same a.1,
)

module _ (D : Store) (key expect : Text) where
  pub lookup-remove_legacy_host :
      (h j : Text) (cfg : DeploySpec) (m : HcManager D)
      → lookup h (key_map D key m) ≡ some cfg
      → lookup j (key_map D key (remove_legacy_host D key expect h cfg m).0)
        ≡ (if text_eq h j then legacy_removed expect cfg else lookup j (key_map D key m))
  unfolding remove_legacy_host
  lookup-remove_legacy_host h j cfg m e =
      let kept : DeploySpec = record { info = some (only_version expect (entries cfg)) } in
      ground (
        arith,
        key_map-set_self D key h kept m,
        key_map-delete_self D key h m,
        lookup-insert h j kept (key_map D key m),
        lookup-delete h j (key_map D key m),
        text_eq_iff h j,
      )

  abbrev pub removed : Option DeploySpec → Option DeploySpec
  removed none = none
  removed (some cfg) = legacy_removed expect cfg

  lookup-remove_legacy_hosts :
      (hc : Table DeploySpec) (m : HcManager D) (j : Text)
      → IsDistinct hc
      → Agrees hc (key_map D key m)
      → lookup j (key_map D key (remove_legacy_hosts D key expect hc m).0) ≡ (elim (lookup j hc) [
        | none ↦ lookup j (key_map D key m)
        | some cfg ↦ legacy_removed expect cfg
      ])
  unfolding remove_legacy_hosts lookup
  lookup-remove_legacy_hosts [] m j d a = refl
  lookup-remove_legacy_hosts ((h, cfg) ∷ hc) m j d a =
      let m' = (remove_legacy_host D key expect h cfg m).0 in
      let step = λ (i : Text). lookup-remove_legacy_host h i cfg m a.0 in
      let later =
        Agrees-other h hc (key_map D key m) (key_map D key m') d.0 (λ i ne. step i ∙ rw ne) a.1 in
      ground (arith, step j, lookup-remove_legacy_hosts hc m' j d.1 later, text_eq_iff h j)

  -- After the legacy versions are removed each host keeps the part of its specification that is of
  -- the expected version, and a host with no such part is gone, whatever the store answers.
  lookup-remove_legacy :
      (m : HcManager D) (j : Text)
      → IsDistinct (key_map D key m)
      → lookup j (key_map D key (remove_legacy D key expect m).0)
        ≡ removed (lookup j (key_map D key m))
  unfolding remove_legacy list_host_configs
  lookup-remove_legacy m j d =
      ground (arith, lookup-remove_legacy_hosts (key_map D key m) m j d (Agrees-self _ d))
