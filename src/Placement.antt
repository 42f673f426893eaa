-- ===== src/Placement.antt =====
-- controllers/scheduler/scheduler.go, utils.go and errors.go: the scheduler of one deploy key, which finds
-- hosts for new instances.
pub mod Found
use snk_fork_dolphin.Base.{
  ℕ, zero, suc, ◌+◌, ◌-◌, ◌%◌, Bool, true, false, ◌++◌, List, [], ◌∷◌, Option, none, some,
  if◌then◌else◌, is_empty, length,
}
use snk_fork_dolphin.Base.Int.{ℤ, pos, leb_ℤ}
use snk_fork_dolphin.Base.Text.{Text, codes, text_eq}
use snk_fork_dolphin.Base.Table.{Table}
use snk_fork_dolphin.EtcdKey.{host_info_dir, host_stat_path}
use snk_fork_dolphin.Types.Deploy.{DeployConfig}
use snk_fork_dolphin.Types.Externals.{Externals}
use snk_fork_dolphin.Types.Fault.{Errors, outside, no_host, short_of_resource, already_exists}
use snk_fork_dolphin.Types.Host.{HostInfo, HostStatus, get_resource, resource_used}
use snk_fork_dolphin.Types.Instance.{Instance, is_stopped}
use snk_fork_dolphin.Types.Resource.{DeployResource, no_resource, subtract, devide}
use snk_fork_dolphin.Types.Stage.{Stage}

abbrev pub empty_host : Text
empty_host = []

-- `avaliable[idx]`; `idx` is below the length wherever it is used.
unfoldable pub nth : Text → ℕ → List Text → Text
nth default idx [] = default
nth default zero (h ∷ hs) = h
nth default (suc idx) (h ∷ hs) = nth default idx hs

unfoldable pub last : Text → List Text → Text
last default [] = default
last default (h ∷ hs) = last h hs

unfoldable pub set : ℕ → Text → List Text → List Text
set idx x [] = []
set zero x (h ∷ hs) = x ∷ hs
set (suc idx) x (h ∷ hs) = h ∷ set idx x hs

unfoldable pub without_last : List Text → List Text
without_last [] = []
without_last (h ∷ []) = []
without_last (h ∷ i ∷ hs) = h ∷ without_last (i ∷ hs)

-- `avaliable[idx] = avaliable[len(avaliable)-1]`, and the slice one shorter.
unfoldable pub take_out : ℕ → List Text → List Text
unfolding set without_last last
take_out idx hs = without_last (set idx (last empty_host hs) hs)

module _ (X : Externals) where
  open X use {LabelSelector}

  -- What is read from etcd: `Get` of the value at a path, `none` for its error, with the decoding of
  -- a value as the type that is asked for, and `List` under a directory of the hosts whose labels a
  -- selector takes.
  pub record Hosts : Type 1 where
    pub Stored : Type 0
    pub get_value : Text → Option Stored
    pub decode_status : Stored → Option (HostStatus X)
    pub decode_info : Stored → Option HostInfo
    pub list_hosts : Text → Option LabelSelector → List HostInfo × Errors

  -- `ctypes.Require`
  pub record Require : Type 0 where
    pub host_selector : Option LabelSelector
    pub resource : DeployResource

  -- `toRequire`, where `medium` is the medium default of the stage and type, if there is one.
  unfoldable pub to_require : Option DeployResource → DeployConfig X → Require
  to_require medium dc = record {
    host_selector = dc.parsed;
    resource = elim dc.resource_required [
      | some rr ↦ rr
      | none ↦ elim medium [ some rr ↦ rr | none ↦ no_resource ]
    ];
  }

  -- `scheduler`
  pub record Scheduler : Type 0 where
    pub require : Require
    pub avaliable : List Text
    pub stage : Stage
    pub key : Text

  -- `newScheduler`
  unfoldable pub new_scheduler : Stage → Text → Require → Scheduler
  new_scheduler stage key rq = record { require = rq; avaliable = []; stage = stage; key = key }

  module _ (H : Hosts) where
    open H use {get_value, decode_status, decode_info, list_hosts}

    -- `getObject` with the decoder of the type of its argument.
    unfoldable pub get_object {ℓ} : {A : Type ℓ} → (H.Stored → Option A) → Text → Option A
    get_object decode path = elim (get_value path) [ none ↦ none | some v ↦ decode v ]

    -- `getHostStatus`
    unfoldable pub get_host_status : Stage → Text → Option (HostStatus X)
    unfolding get_object
    get_host_status stage host_id = get_object decode_status (host_stat_path stage host_id)

    -- `getHostInfo`, which reads the value at the path of the status, the same as `getHostStatus`.
    unfoldable pub get_host_info : Stage → Text → Option HostInfo
    unfolding get_object
    get_host_info stage host_id = get_object decode_info (host_stat_path stage host_id)

    -- The loop of `selectHost` over what was listed.
    unfoldable pub ids_of : List HostInfo → List Text
    ids_of [] = []
    ids_of (v ∷ hinfs) = v.host_id ∷ ids_of hinfs

    -- `selectHost`
    unfoldable pub select_host : Scheduler → List Text × Errors
    unfolding ids_of
    select_host s =
        let (hinfs, errors) = list_hosts (host_info_dir s.stage) s.require.host_selector in
        elim errors [ [] ↦ (ids_of hinfs, []) | e ∷ es ↦ ([], e ∷ es) ]

    -- What is free on a host.
    unfoldable pub free_on : HostInfo → HostStatus X → DeployResource
    free_on inf st =
        let free = subtract (get_resource inf) inf.resource_reserved in
        elim (resource_used X (some st)) [ none ↦ free | some used ↦ subtract free used ]

    -- The loop of `checkHostStatus` over the instances.
    unfoldable pub runs_on : Text → List Instance → Bool
    runs_on hid [] = false
    runs_on hid (v ∷ ins) = if text_eq v.host_id hid then true else runs_on hid ins

    -- `checkHostStatus`
    unfoldable pub check_host_status : Stage → Text → DeployResource → List Instance → Errors
    unfolding get_host_status get_host_info free_on runs_on
    check_host_status stage hid require ins =
        let both : HostStatus X → HostInfo → Errors = λ st inf.
          if leb_ℤ (devide (free_on inf st) require) (pos 0)
          then short_of_resource ∷ []
          else if runs_on hid ins
          then already_exists ∷ []
          else [] in
        elim (get_host_status stage hid) [
          | none ↦ outside 0 ∷ []
          | some st ↦ elim (get_host_info stage hid) [
            | none ↦ outside 1 ∷ []
            | some inf ↦ both st inf
          ]
        ]

    -- The instances of the key that have not stopped.
    unfoldable pub live : Table Instance → List Instance
    live [] = []
    live ((_, v) ∷ all) = if is_stopped v.life_cycle then live all else v ∷ live all

    -- `random` gives the random numbers in turn; `rand.Intn(n)` is one of them modulo `n`. `is_exist`
    -- is `os.IsExist`.
    module _ (random : ℕ → ℕ) (is_exist : Errors → Bool) (stage : Stage) (resource : DeployResource)
        (ins : List Instance) where
      -- The loop of `findSuitableHost`, with `max_try` tries left: what is left of the hosts, the host
      -- and the error.
      unfoldable pub find_loop : ℕ → List Text → Text → Errors → List Text × Text × Errors
      unfolding take_out nth
      find_loop max_try [] best err = ([], best, err)
      find_loop zero (h ∷ hs) best err = (h ∷ hs, best, err)
      find_loop (suc max_try) (h ∷ hs) best err =
          let idx = random max_try % length (h ∷ hs) in
          let hid = nth h idx (h ∷ hs) in
          let avaliable = take_out idx (h ∷ hs) in
          let terr = check_host_status stage hid resource ins in
          let best' = if is_exist terr then hid else best in
          let err' = if is_exist terr then terr else err in
          let next = find_loop max_try avaliable best' (if is_empty best' then terr else err') in
          elim terr [ [] ↦ (avaliable, hid, []) | e ∷ es ↦ next ]

    -- `findSuitableHost`, where `all_ins` is `RunningInstance` of the key.
    unfoldable pub find_suitable_host :
        (ℕ → ℕ) → (Errors → Bool) → Table Instance → Scheduler → Scheduler × Text × Errors
    unfolding find_loop live
    find_suitable_host random is_exist all_ins s =
        let (avaliable, best, err) =
          find_loop random is_exist s.stage s.require.resource (live all_ins) 50 s.avaliable
            empty_host [] in
        (record s { avaliable = avaliable }, best, err)

    -- `NextHost`
    unfoldable pub next_host :
        (ℕ → ℕ) → (Errors → Bool) → Table Instance → Scheduler → Scheduler × Text × Errors
    unfolding find_suitable_host select_host
    next_host random is_exist all_ins s =
        let found = find_suitable_host random is_exist all_ins s in
        let (hosts, errors) = select_host s in
        let renewed = find_suitable_host random is_exist all_ins (record s { avaliable = hosts }) in
        let selected : Scheduler × Text × Errors = elim errors [
          | e ∷ es ↦ (s, empty_host, e ∷ es)
          | [] ↦ if is_empty hosts then (s, empty_host, no_host ∷ []) else renewed
        ] in
        if is_empty s.avaliable then selected else found
