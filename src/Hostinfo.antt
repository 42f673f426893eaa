-- ===== src/Hostinfo.antt =====
-- types/hostinfo/info.go: what the agent knows of its host.
pub mod Addresses
use snk_fork_dolphin.Base.{
  ℕ, ◌++◌, Bool, true, false, not, ◌&&◌, ◌||◌, List, [], ◌∷◌, Option, none, some, if◌then◌else◌,
  is_empty,
}
use snk_fork_dolphin.Base.Chars.{trim, is_white}
use snk_fork_dolphin.Base.Int.{ℤ}
use snk_fork_dolphin.Base.Path.{split, join}
use snk_fork_dolphin.Base.Outcome.{Outcome, done, panicked}
use snk_fork_dolphin.Base.Table.{Table, lookup, insert, delete}
use snk_fork_dolphin.Base.Text.{Text, codes, text_eq, has_prefix, trim_prefix}
use snk_fork_dolphin.Machine.{Machine, over_write_stage, get_env, get_host_id}
use snk_fork_dolphin.Types.Fault.{Errors, outside, unknown_env, invalid_host_id, several_ips, no_ip}
use snk_fork_dolphin.Types.Host.{DiskStat}
use snk_fork_dolphin.Types.Stage.{Stage, unknown_stage, to_string, parse_stage}

-- `ipExists`
unfoldable pub ip_exists : Text → Table Text → Bool
ip_exists ip [] = false
ip_exists ip ((_, v) ∷ ips) = text_eq ip v || ip_exists ip ips

-- The loop of `getHostIPConfig` over the addresses, which `matches` tests against the expression;
-- `ip` is what is found, empty if nothing is.
unfoldable pub match_ips : (Text → Bool) → Table Text → Text → Text × Errors
match_ips matches [] ip = if is_empty ip then ([], no_ip ∷ []) else (ip, [])
match_ips matches ((_, v) ∷ ips) ip =
    let skipped = match_ips matches ips ip in
    let taken = match_ips matches ips v in
    if not (matches v) then skipped else if is_empty ip then taken else ([], several_ips ∷ [])

-- The loop over the names of the interfaces.
unfoldable pub find_nic : Table Text → List Text → Text × Errors
find_nic ips [] = ([], no_ip ∷ [])
find_nic ips (nic ∷ nics) =
    let rest = find_nic ips nics in
    elim (lookup nic ips) [ none ↦ rest | some ip ↦ if is_empty ip then rest else (ip, []) ]

-- `getHostIPConfig`; `compile` gives what an expression matches, and `regexp.MustCompile` panics on
-- one that does not compile.
unfoldable pub get_host_ip_config :
    (Text → Option (Text → Bool)) → Table Text → Text → List Text → Outcome (Text × Errors)
unfolding match_ips find_nic
get_host_ip_config compile ips ip_regexp nics =
    let by_name = done (find_nic ips nics) in
    if is_empty ip_regexp then by_name else elim (compile ip_regexp) [
      | none ↦ panicked
      | some matches ↦ done (match_ips matches ips [])
    ]

-- `internalIPRegexp`, written out.
unfoldable pub has_some_prefix : Text → List Text → Bool
has_some_prefix s [] = false
has_some_prefix s (p ∷ ps) = has_prefix s p || has_some_prefix s ps

abbrev pub internal_prefixes : List Text
internal_prefixes =
    codes "10."
    ∷ codes "192.168."
    ∷ codes "172.16."
    ∷ codes "172.17."
    ∷ codes "172.18."
    ∷ codes "172.19."
    ∷ codes "172.20."
    ∷ codes "172.21."
    ∷ codes "172.22."
    ∷ codes "172.23."
    ∷ codes "172.24."
    ∷ codes "172.25."
    ∷ codes "172.26."
    ∷ codes "172.27."
    ∷ codes "172.28."
    ∷ codes "172.29."
    ∷ codes "172.30."
    ∷ codes "172.31."
    ∷ []

unfoldable pub is_internal : Text → Bool
unfolding has_some_prefix
is_internal ip = has_some_prefix ip internal_prefixes

-- `GetInternalIP`: the first of the addresses, empty if there is none.
unfoldable pub get_internal_ip : Table Text → Text
unfolding is_internal
get_internal_ip [] = []
get_internal_ip ((_, ip) ∷ ips) = if is_internal ip then ip else get_internal_ip ips

-- `GetExternalIPS`
unfoldable pub get_external_ips : Table Text → List Text
unfolding is_internal
get_external_ips [] = []
get_external_ips ((_, ip) ∷ ips) =
    let rest = get_external_ips ips in
    if is_internal ip || has_prefix ip (codes "127.0.0") then rest else ip ∷ rest

-- `HostInfo`, the package's variable.
pub record StaticInfo : Type 0 where
  pub host_id : Text
  pub host_name : Text
  pub annotations : Table Text
  pub labels : Table Text
  pub ips : Table Text
  pub num_of_cpus : ℤ
  pub memory : ℕ
  pub swap_size : ℕ
  pub stage : Stage
  pub disk_stat : Table DiskStat

-- `AddAnnotation` and `DelAnnotatioin`.
unfoldable pub add_annotation : Text → Text → StaticInfo → StaticInfo
add_annotation k v hi = record hi { annotations = insert k v hi.annotations }

unfoldable pub del_annotatioin : Text → StaticInfo → StaticInfo
del_annotatioin k hi = record hi { annotations = delete k hi.annotations }

-- `UpdateStage`; `none` is the end of the program at an error.
unfoldable pub update_stage : Stage → Machine → StaticInfo → Option (Machine × StaticInfo)
unfolding over_write_stage
update_stage stage w hi =
    let (w', err) = over_write_stage stage w in
    if is_empty err then some (w', record hi { stage = stage }) else none

-- A partition as gopsutil tells it: its device after the symbolic links, its mount point, and the
-- size of what is mounted there, `none` for an error.
pub record Partition : Type 0 where
  pub real_path : Text
  pub mountpoint : Text
  pub total : Option ℕ

-- The first loop of `getDiskStat`: the last partition of each device below /dev.
unfoldable pub valid_partitions : List Partition → Table Partition → Table Partition
valid_partitions [] valid = valid
valid_partitions (p ∷ ps) valid = valid_partitions ps (elim (split b'/' p.real_path) [
  | _ ∷ dev ∷ _ ∷ _ ↦
      if text_eq dev (codes "dev")
      then insert (trim_prefix p.real_path (codes "/dev/")) p valid
      else valid
  | _ ↦ valid
])

-- The second loop.
unfoldable pub disk_stats : Table Partition → Table DiskStat × Errors
disk_stats [] = ([], [])
disk_stats ((dev, p) ∷ valid) =
    let (stats, errs) = disk_stats valid in
    elim p.total [
      | none ↦ (stats, outside 2 ∷ errs)
      | some total ↦ (
        (dev, record { devices = dev; mountpoint = p.mountpoint; totoal = total; free = 0 })
            ∷ stats,
        errs,
      )
    ]

-- `getDiskStat`; `none` is an error of the list.
unfoldable pub get_disk_stat : Option (List Partition) → Table DiskStat × Errors
unfolding valid_partitions disk_stats
get_disk_stat none = ([], outside 3 ∷ [])
get_disk_stat (some ps) = disk_stats (valid_partitions ps [])

-- What else the operating system answers, with its errors.
pub record Answers : Type 0 where
  pub ips : Table Text
  pub ips_error : Errors
  pub cpus : ℤ
  pub cpus_error : Errors
  pub memory : Option ℕ
  pub swap : Option ℕ
  pub hostname : Text
  pub hostname_error : Errors
  pub partitions : Option (List Partition)

abbrev pub or_zero : Option ℕ → ℕ
or_zero none = 0
or_zero (some n) = n

abbrev pub error_of_none : Option ℕ → Errors
error_of_none none = outside 4 ∷ []
error_of_none (some n) = []

-- `gatherHostInfo`: its maps of annotations and labels are nil.
unfoldable pub gather_host_info :
    (Text → Option Text) → Text → Answers → Machine → Machine × StaticInfo × Errors
unfolding get_host_id get_env get_disk_stat
gather_host_info parse_uuid fresh a w =
    let (w1, host_id, err1) = get_host_id parse_uuid fresh true w in
    let (w2, stage, err2) = get_env w1 in
    let (disk_stat, err3) = get_disk_stat a.partitions in
    (
      w2,
      record {
        host_id = host_id;
        host_name = a.hostname;
        annotations = [];
        labels = [];
        ips = a.ips;
        num_of_cpus = a.cpus;
        memory = or_zero a.memory;
        swap_size = or_zero a.swap;
        stage = stage;
        disk_stat = disk_stat;
      },
      err1
          ++ a.ips_error
          ++ a.cpus_error
          ++ error_of_none a.memory
          ++ error_of_none a.swap
          ++ a.hostname_error
          ++ err2
          ++ err3,
    )

-- `copyHostInfo`, which leaves the annotations and labels.
unfoldable pub copy_host_info : StaticInfo → StaticInfo → StaticInfo
copy_host_info dst src = record src { annotations = dst.annotations; labels = dst.labels }
