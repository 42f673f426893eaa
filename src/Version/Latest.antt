-- ===== src/Version/Latest.antt =====
-- The versions that controllers/java/version/versioner.go answers against the events it was given.
use snk_fork_dolphin.Base.{
  ℕ, ◌≡◌, ◌∙◌, refl, ap, arith, ◌++◌, ◌&&◌, Bool, false, List, [], ◌∷◌, none, some, if◌then◌else◌,
  Option-cases, inl, inr, All,
}
use snk_fork_dolphin.Base.Text.{Text, text_eq, text_eq_iff, Lacks, Lacks-append_injective}
use snk_fork_dolphin.Base.Table.{lookup, lookup-insert, lookup-delete}
use snk_fork_dolphin.Version.{
  VersionInfo, VersionManger, Managers, VersionEvent, version_added, version_modified,
  version_deleted, version_error, version_key, get_version_info, change_info, getvm, with_vm,
  add_versions, set_expected_of, add_version, env_of_key, told_info, deleted_info, in_env,
  handle_version, watch_version, get_expected, get_backup, del_config, new_version_info, add_down,
}

append_right_cancel : (a b : Text) (c : ℕ) → a ++ c ∷ [] ≡ b ++ c ∷ [] → a ≡ b
append_right_cancel [] [] k e = refl
append_right_cancel [] (y ∷ []) k e = cc
append_right_cancel [] (y ∷ z ∷ b) k e = cc
append_right_cancel (x ∷ []) [] k e = cc
append_right_cancel (x ∷ z ∷ a) [] k e = cc
append_right_cancel (x ∷ a) (y ∷ b) k e = ground (arith, append_right_cancel a b k)

version_key-injective :
    (t t' c c' : Text)
    → Lacks b':' t
    → Lacks b':' t'
    → version_key t c ≡ version_key t' c'
    → (t ≡ t') × (c ≡ c')
unfolding version_key
version_key-injective t t' c c' l l' e =
    let (p, q) = Lacks-append_injective b':' t t' l l' e in (p, append_right_cancel c c' b':' q)

text_eq-version_key :
    (t t' c c' : Text)
    → Lacks b':' t
    → Lacks b':' t'
    → text_eq (version_key t c) (version_key t' c') ≡ (text_eq t t' && text_eq c c')
text_eq-version_key t t' c c' l l' = ground (
  arith,
  text_eq_iff t t',
  text_eq_iff c c',
  text_eq_iff (version_key t c) (version_key t' c'),
  version_key-injective t t' c c' l l',
)

module _ (typ cluster : Text) (l : Lacks b':' typ) where
  get_version_info-change_info :
      (t c : Text) (change : VersionInfo → VersionInfo) (vm : VersionManger)
      → Lacks b':' t
      → get_version_info typ cluster (change_info t c change vm) ≡ (
          if text_eq t typ && text_eq c cluster
          then change (get_version_info typ cluster vm)
          else get_version_info typ cluster vm)
  unfolding change_info get_version_info
  get_version_info-change_info t c change vm l' = ground (
    arith,
    lookup-insert (version_key t c) (version_key typ cluster) (change (get_version_info t c vm))
        vm.version_infos,
    text_eq-version_key t typ c cluster l' l,
    text_eq_iff t typ,
    text_eq_iff c cluster,
  )

  get_version_info-del_config :
      (t c : Text) (vm : VersionManger)
      → Lacks b':' t
      → get_version_info typ cluster (del_config t c vm) ≡ (
          if text_eq t typ && text_eq c cluster
          then new_version_info typ cluster [] []
          else get_version_info typ cluster vm)
  unfolding del_config get_version_info
  get_version_info-del_config t c vm l' = ground (
    arith,
    lookup-delete (version_key t c) (version_key typ cluster) vm.version_infos,
    text_eq-version_key t typ c cluster l' l,
  )

getvm-with_vm :
    (env e : Text) (change : VersionManger → VersionManger) (ms : Managers)
    → getvm env (with_vm e change ms)
      ≡ (if text_eq e env then change (getvm env ms) else getvm env ms)
unfolding with_vm getvm
getvm-with_vm env e change ms =
    ground (arith, lookup-insert e env (change (getvm e ms)) ms.version_managers, text_eq_iff e env)

-- What is known of a cluster: the version that is expected, and the one before.
abbrev pub Known : Type 0
Known = Text × Text

abbrev pub known_of : Text → Text → Text → Managers → Known
known_of env typ cluster ms =
    let vi = get_version_info typ cluster (getvm env ms) in (vi.expected, vi.backup)

-- The event is about the cluster in the environment.
abbrev pub concerns : Text → Text → Text → Text → VersionInfo → Bool
concerns env typ cluster key dat = elim (env_of_key key) [
  | none ↦ false
  | some e ↦ text_eq e env && (text_eq dat.typ typ && text_eq dat.cluster cluster)
]

-- What an event tells of the cluster: the version that it carries is expected, the one that was
-- expected is the one before.
abbrev pub told : Text → Text → Text → VersionEvent → Known → Known
told env typ cluster (version_added key dat) known =
    if concerns env typ cluster key dat then (dat.expected, known.0) else known
told env typ cluster (version_modified key dat) known =
    if concerns env typ cluster key dat then (dat.expected, known.0) else known
told env typ cluster (version_deleted key dat) known =
    if concerns env typ cluster key dat then ([], []) else known
told env typ cluster version_error known = known

abbrev pub told_all : Text → Text → Text → List VersionEvent → Known → Known
told_all env typ cluster [] known = known
told_all env typ cluster (e ∷ es) known = told_all env typ cluster es (told env typ cluster e known)

-- The type of the event's project has no colon.
abbrev pub IsPlainEvent : VersionEvent → Type 0
IsPlainEvent (version_added key dat) = Lacks b':' dat.typ
IsPlainEvent (version_modified key dat) = Lacks b':' dat.typ
IsPlainEvent (version_deleted key dat) = Lacks b':' dat.typ
IsPlainEvent version_error = Unit

get_version_info-empty :
    (typ cluster env : Text)
    → get_version_info typ cluster (record { env = env; version_infos = [] })
      ≡ record { typ = typ; cluster = cluster; backup = []; expected = [] }
unfolding get_version_info new_version_info lookup
get_version_info-empty typ cluster env = refl

new_version_info_lem :
    (typ cluster : Text)
    → new_version_info typ cluster [] []
      ≡ record { typ = typ; cluster = cluster; backup = []; expected = [] }
unfolding new_version_info
new_version_info_lem typ cluster = refl

module _ (env typ cluster : Text) (l : Lacks b':' typ) where
  known-told_info :
      (dat : VersionInfo) (e : Text) (ms : Managers)
      → Lacks b':' dat.typ
      → known_of env typ cluster (told_info dat e ms) ≡ (
          if text_eq e env && (text_eq dat.typ typ && text_eq dat.cluster cluster)
          then (dat.expected, (known_of env typ cluster ms).0)
          else known_of env typ cluster ms)
  unfolding told_info add_version add_versions add_down set_expected_of
  known-told_info dat e ms l' = ground (
    arith,
    getvm-with_vm env e
        (change_info dat.typ dat.cluster (add_versions (dat.backup ∷ dat.expected ∷ []))) ms,
    get_version_info-change_info typ cluster l dat.typ dat.cluster
        (add_versions (dat.backup ∷ dat.expected ∷ [])) (getvm env ms) l',
  )

  known-deleted_info :
      (dat : VersionInfo) (e : Text) (ms : Managers)
      → Lacks b':' dat.typ
      → known_of env typ cluster (deleted_info dat e ms) ≡ (
          if text_eq e env && (text_eq dat.typ typ && text_eq dat.cluster cluster)
          then ([], [])
          else known_of env typ cluster ms)
  unfolding deleted_info getvm
  known-deleted_info dat e ms l' = elim (Option-cases (lookup e ms.version_managers)) [
    | inl absent ↦ ground (arith, text_eq_iff e env, get_version_info-empty typ cluster env)
    | inr (vm, found) ↦ ground (
      arith,
      text_eq_iff e env,
      lookup-insert e env (del_config dat.typ dat.cluster vm) ms.version_managers,
      get_version_info-del_config typ cluster l dat.typ dat.cluster vm l',
      new_version_info_lem typ cluster,
    )
  ]

  known-handle_version :
      (e : VersionEvent) (ms : Managers)
      → IsPlainEvent e
      → known_of env typ cluster (handle_version e ms)
        ≡ told env typ cluster e (known_of env typ cluster ms)
  unfolding handle_version in_env
  known-handle_version (version_added key dat) ms l' = elim (Option-cases (env_of_key key)) [
    | inl absent ↦ ground arith
    | inr (e, found) ↦ ground (arith, known-told_info dat e ms l')
  ]
  known-handle_version (version_modified key dat) ms l' = elim (Option-cases (env_of_key key)) [
    | inl absent ↦ ground arith
    | inr (e, found) ↦ ground (arith, known-told_info dat e ms l')
  ]
  known-handle_version (version_deleted key dat) ms l' = elim (Option-cases (env_of_key key)) [
    | inl absent ↦ ground arith
    | inr (e, found) ↦ ground (arith, known-deleted_info dat e ms l')
  ]
  known-handle_version version_error ms l' = refl

  known-watch_version :
      (es : List VersionEvent) (ms : Managers)
      → All IsPlainEvent es
      → known_of env typ cluster (watch_version es ms)
        ≡ told_all env typ cluster es (known_of env typ cluster ms)
  unfolding watch_version
  known-watch_version [] ms l' = refl
  known-watch_version (e ∷ es) ms l' =
      known-watch_version es (handle_version e ms) l'.1
      ∙ ap (told_all env typ cluster es) (known-handle_version e ms l'.0)

  -- After any events, `GetExpected` gives the version that the last event about the cluster
  -- carried, or none where it was deleted, and `GetBackup` the version that was expected before
  -- that event, not the one that the event carried; where there was no event they give what they
  -- gave before. A version that was there already, or an empty one, is taken over as any other.
  -- No type of a project has a colon.
  pub watch_version-told :
      (es : List VersionEvent) (ms : Managers)
      → All IsPlainEvent es
      → let known : Known =
          ((get_expected env typ cluster ms).1, (get_backup env typ cluster ms).1) in
        let ms' = watch_version es ms in
        ((get_expected env typ cluster ms').1 ≡ (told_all env typ cluster es known).0)
        × ((get_backup env typ cluster ms').1 ≡ (told_all env typ cluster es known).1)
  unfolding get_expected get_backup
  watch_version-told es ms l' =
      let same = known-watch_version es ms l' in (ap (λ k. k.0) same, ap (λ k. k.1) same)
