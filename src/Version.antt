-- ===== src/Version.antt =====
-- controllers/java/version/version.go and versioner.go: which version of each cluster is expected,
-- and which was expected before, in each environment.
pub mod Encoding
pub mod Start
pub mod Latest
use snk_fork_dolphin.Base.{
  ℕ, zero, suc, ◌+◌, ◌++◌, Bool, true, false, List, [], ◌∷◌, Option, none, some, if◌then◌else◌,
  take, drop,
}
use snk_fork_dolphin.Base.Outcome.{Outcome, done, panicked}
use snk_fork_dolphin.Base.Text.{Text, codes, index}
use snk_fork_dolphin.Base.Table.{Table, lookup, insert, delete}
use snk_fork_dolphin.Types.Fault.{Errors}

pub record VersionInfo : Type 0 where
  pub typ : Text
  pub cluster : Text
  pub backup : Text
  pub expected : Text

-- The struct that `MarshalJSON` encodes and `UnmarshalJSON` decodes.
pub record EncodedInfo : Type 0 where
  pub typ : Text
  pub cluster : Text
  pub versions : List Text

unfoldable pub marshal_info : VersionInfo → EncodedInfo
marshal_info vi = record {
  typ = vi.typ;
  cluster = vi.cluster;
  versions = vi.expected ∷ vi.backup ∷ [];
}

-- The loop that makes a list of two versions at least.
unfoldable pub ensure_two : List Text → Text × Text
ensure_two [] = ([], [])
ensure_two (expected ∷ []) = (expected, [])
ensure_two (expected ∷ backup ∷ _) = (expected, backup)

unfoldable pub unmarshal_info : EncodedInfo → VersionInfo
unmarshal_info tmp =
    let (expected, backup) = ensure_two tmp.versions in
    record { typ = tmp.typ; cluster = tmp.cluster; backup = backup; expected = expected }

-- The methods `AddVersion` and `SetExpected`, which do the same.
unfoldable pub set_expected_of : Text → VersionInfo → VersionInfo
set_expected_of exp vi = record vi { backup = vi.expected; expected = exp }

unfoldable pub new_version_info : Text → Text → Text → Text → VersionInfo
new_version_info typ cluster expected backup = record {
  typ = typ;
  cluster = cluster;
  backup = backup;
  expected = expected;
}

-- `versionManger`; the infos of its map are pointers that no other map holds.
pub record VersionManger : Type 0 where
  pub env : Text
  pub version_infos : Table VersionInfo

-- The key of a cluster: its type and its name, each with a colon behind.
unfoldable pub version_key : Text → Text → Text
version_key typ cluster = typ ++ b':' ∷ (cluster ++ codes ":")

unfoldable pub del_config : Text → Text → VersionManger → VersionManger
del_config typ cluster vm = record vm {
  version_infos = delete (version_key typ cluster) vm.version_infos;
}

-- `getVersionInfo`, without the Boolean, which says whether the map has the key.
unfoldable pub get_version_info : Text → Text → VersionManger → VersionInfo
get_version_info typ cluster vm = elim (lookup (version_key typ cluster) vm.version_infos) [
  | none ↦ new_version_info typ cluster [] []
  | some vi ↦ vi
]

-- What both methods that change an info do: it is put into the map, if it is not there, and
-- changed in place.
unfoldable pub change_info :
    Text → Text → (VersionInfo → VersionInfo) → VersionManger → VersionManger
unfolding get_version_info
change_info typ cluster change vm = record vm {
  version_infos =
      insert (version_key typ cluster) (change (get_version_info typ cluster vm)) vm.version_infos;
}

-- The loop of `addVersion`, which runs down from the last version and leaves out the first.
unfoldable pub add_down : List Text → VersionInfo → VersionInfo
add_down [] vi = vi
add_down (v ∷ vs) vi = set_expected_of v (add_down vs vi)

unfoldable pub add_versions : List Text → VersionInfo → VersionInfo
unfolding add_down
add_versions [] vi = vi
add_versions (_ ∷ vs) vi = add_down vs vi

-- The package's variables: the managers of the environments, and whether `cancelFunc` is not nil.
pub record Managers : Type 0 where
  pub version_managers : Table VersionManger
  pub cancellable : Bool

-- `getvm`
unfoldable pub getvm : Text → Managers → VersionManger
getvm env ms = elim (lookup env ms.version_managers) [
  | none ↦ record { env = env; version_infos = [] }
  | some vm ↦ vm
]

-- `getvm` with a change of the manager, which is put into the map if it was not there.
unfoldable pub with_vm : Text → (VersionManger → VersionManger) → Managers → Managers
unfolding getvm
with_vm env change ms = record ms {
  version_managers = insert env (change (getvm env ms)) ms.version_managers;
}

-- The function `AddVersion`.
unfoldable pub add_version : Text → Text → Text → List Text → Managers → Managers
unfolding with_vm
add_version env typ cluster versions ms =
    with_vm env (change_info typ cluster (add_versions versions)) ms

-- The function `SetExpected`.
unfoldable pub set_expected : Text → Text → Text → Text → Managers → Managers
unfolding with_vm
set_expected env typ cluster version ms =
    with_vm env (change_info typ cluster (set_expected_of version)) ms

-- `GetExpected` and `GetBackup`, which make the manager of the environment too.
unfoldable pub get_expected : Text → Text → Text → Managers → Managers × Text
unfolding with_vm
get_expected env typ cluster ms =
    (with_vm env (λ vm. vm) ms, (get_version_info typ cluster (getvm env ms)).expected)

unfoldable pub get_backup : Text → Text → Text → Managers → Managers × Text
unfolding with_vm
get_backup env typ cluster ms =
    (with_vm env (λ vm. vm) ms, (get_version_info typ cluster (getvm env ms)).backup)

-- `watch.Event` of version infos, with its key.
pub data VersionEvent : Type 0 where
  version_added version_modified version_deleted : Text → VersionInfo → VersionEvent
  version_error : VersionEvent

-- `strings.SplitN` of a key at its first slash, the first part of two.
unfoldable pub env_of_key : Text → Option Text
env_of_key key = elim (index b'/' key) [ none ↦ none | some i ↦ some (take i key) ]

-- What `eventHandler` does for an environment.
unfoldable pub deleted_info : VersionInfo → Text → Managers → Managers
deleted_info dat env ms = elim (lookup env ms.version_managers) [
  | none ↦ ms
  | some vm ↦ record ms {
    version_managers = insert env (del_config dat.typ dat.cluster vm) ms.version_managers;
  }
]

unfoldable pub told_info : VersionInfo → Text → Managers → Managers
told_info dat env ms = add_version env dat.typ dat.cluster (dat.backup ∷ dat.expected ∷ []) ms

unfoldable pub in_env : Text → (Text → Managers → Managers) → Managers → Managers
in_env key act ms = elim (env_of_key key) [ none ↦ ms | some env ↦ act env ms ]

-- `eventHandler`; an event whose key has no slash is passed over.
unfoldable pub handle_version : VersionEvent → Managers → Managers
unfolding in_env
handle_version (version_added key dat) ms = in_env key (told_info dat) ms
handle_version (version_modified key dat) ms = in_env key (told_info dat) ms
handle_version (version_deleted key dat) ms = in_env key (deleted_info dat) ms
handle_version version_error ms = ms

-- `WatchVersion` with that handler, over the events that come in.
unfoldable pub watch_version : List VersionEvent → Managers → Managers
unfolding handle_version
watch_version [] ms = ms
watch_version (e ∷ es) ms = watch_version es (handle_version e ms)

-- `watchVersionInfo`, which calls itself, on fuel.
unfoldable pub watch_version_info : ℕ → Managers → Option (Managers × Errors)
watch_version_info zero ms = none
watch_version_info (suc fuel) ms = watch_version_info fuel ms

-- `Start`: the Boolean says whether it starts the loop that calls `watchVersionInfo`.
unfoldable pub start_versions : Managers → Managers × Bool
start_versions ms = if ms.cancellable then (ms, false) else (record ms { cancellable = true }, true)

-- `Stop`
unfoldable pub stop_versions : Managers → Managers
stop_versions ms = record ms { cancellable = false }

-- The loop that `Start` runs: `ended` answers the select before each call, by the calls that went
-- before. The loop's own rounds and the calls are on fuel.
unfoldable pub start_loop : (ℕ → Bool) → ℕ → ℕ → Managers → Option Managers
start_loop ended zero round ms = none
start_loop ended (suc fuel) round ms =
    let called : Option Managers = elim (watch_version_info fuel ms) [
      | none ↦ none
      | some (ms', _) ↦ start_loop ended fuel (round + 1) ms'
    ] in
    if ended round then some ms else called
