-- ===== src/Process/Check.antt =====
-- process/probe.go, the check of what a process uses against what it may use, and `Probe` of
-- process/scan.go, which gives an instance its status.
pub mod Limits
pub mod Status
use snk_fork_dolphin.Base.{
  ℕ, zero, suc, ◌+◌, ◌-◌, ◌*◌, ◌/◌, ◌%◌, ◌++◌, Bool, true, false, not, ◌&&◌, ◌||◌, List, [], ◌∷◌,
  Option, none, some, if◌then◌else◌, is_empty, ◌==◌, ltb, leb,
}
use snk_fork_dolphin.Base.Int.{ℤ, pos, negsuc, ◌-ℤ◌, ltb_ℤ}
use snk_fork_dolphin.Base.Outcome.{Outcome, done, panicked, ◌>>=◌}
use snk_fork_dolphin.Base.Text.{Text}
use snk_fork_dolphin.Process.{
  Condition, high_mem, high_cpu, high_disk_io, high_threads, probe_condition, InstanceStatus,
  instance_warning, instance_error, instance_success, ProcInstance,
}
use snk_fork_dolphin.Types.Answer.{ProbeAnswer, success, warning, failure, unknown}
use snk_fork_dolphin.Types.Fault.{Errors, nil_resource, unknown_process_type, outside}
use snk_fork_dolphin.Types.Resource.{DeployResource, u64}
use snk_fork_dolphin.Types.Stage.{Stage}

-- What the check reads of a `ProcessState`. `cpu_usage` is
-- `uint64(CPUPercent * float64(g/100))`, floating-point numbers being outside the model.
pub record ProcessState : Type 0 where
  pub pid : ℕ
  pub num_threads : ℤ
  pub cpu_usage : ℕ
  pub rss : ℕ
  pub write_bytes : ℕ

-- `diskIOInfo`, with the time in nanoseconds, and the map `lastDiskWrite`.
pub record DiskIoInfo : Type 0 where
  pub time : ℤ
  pub count : ℕ

abbrev pub DiskWrites : Type 0
DiskWrites = ℕ → Option DiskIoInfo

-- `n * 8 / 10` of an int, which Go rounds towards zero.
unfoldable pub eight_tenths : ℤ → ℤ
eight_tenths (pos n) = pos (n * 8 / 10)
eight_tenths (negsuc n) = pos 0 -ℤ pos (suc n * 8 / 10)

-- The conditions and the events.
abbrev pub Findings : Type 0
Findings = List Condition × List Condition

-- `memory * 100 / resReq.Memory`, for a memory that is not 0.
unfoldable pub mem_ratio : ProcessState → DeployResource → ℕ
mem_ratio ps req = u64 (ps.rss * 100) / req.memory

unfoldable pub check_mem : ProcessState → DeployResource → Findings
unfolding mem_ratio
check_mem ps req =
    if ltb 150 (mem_ratio ps req) && leb ps.rss req.max_allowed_memory
    then ([], high_mem ∷ [])
    else if leb req.max_allowed_memory req.memory
    then (high_mem ∷ [], [])
    else ([], [])

unfoldable pub check_threads : ProcessState → DeployResource → Findings
unfolding eight_tenths
check_threads ps req =
    if ltb_ℤ req.max_allowd_threads ps.num_threads
    then (high_threads ∷ [], [])
    else if ltb_ℤ (eight_tenths req.max_allowd_threads) ps.num_threads
    then ([], high_threads ∷ [])
    else ([], [])

unfoldable pub check_cpu : ProcessState → DeployResource → Findings
check_cpu ps req =
    if ltb req.max_allowed_cpu ps.cpu_usage
    then (high_cpu ∷ [], [])
    else if ltb (u64 (req.max_allowed_cpu * 8) / 10) ps.cpu_usage
        || ltb (u64 (req.cpu * 5)) ps.cpu_usage
    then ([], high_cpu ∷ [])
    else ([], [])

-- The bytes written since the last entry, as uint64.
unfoldable pub written : ProcessState → DiskIoInfo → ℕ
written ps info = u64 (ps.write_bytes + 18446744073709551616 - info.count)

-- The event of the disk, and whether a new entry is made.
unfoldable pub check_disk :
    ProcessState → DeployResource → ℤ → Option DiskIoInfo → List Condition × Bool
unfolding written
check_disk ps req now none = ([], true)
check_disk ps req now (some info) =
    if ltb_ℤ (now -ℤ info.time) (pos 300000000000)
    then (if ltb req.disk_space (u64 (written ps info * 288))
        then (high_disk_io ∷ [], true)
        else ([], false))
    else ([], true)

-- `lastDiskWrite[pid] = di`
unfoldable pub put_disk : ℕ → DiskIoInfo → DiskWrites → DiskWrites
put_disk pid di disks p = if p == pid then some di else disks p

-- `check` at the time `now`, in nanoseconds; a required memory of 0 panics in the division. The state
-- is never nil: the only caller gives it what `getProcessState` returns, which makes one always.
unfoldable pub check :
    ProcessState → Option DeployResource → ℤ → DiskWrites → Outcome (Findings × Errors × DiskWrites)
check ps none now disks = done (([], []), nil_resource ∷ [], disks)
check ps (some req) now disks =
    let (c1, e1) = check_mem ps req in
    let (c2, e2) = check_threads ps req in
    let (c3, e3) = check_cpu ps req in
    let (e4, renew) = check_disk ps req now (disks ps.pid) in
    let di : DiskIoInfo = record { time = now; count = ps.write_bytes } in
    let disks' : DiskWrites = if renew then put_disk ps.pid di disks else disks in
    if req.memory == 0 then panicked else done ((c1 ++ c2 ++ c3, e1 ++ e2 ++ e3 ++ e4), [], disks')

-- What the registry of types/ins/registry answers: of a known type, whether it has a prober, and
-- the default resource of a type in a stage.
pub record Registry : Type 0 where
  pub has_prober : Text → Option Bool
  pub default_medium : Stage → Text → Option DeployResource

-- The prober's answer adds a condition or an event; `none` is its error.
unfoldable pub answer_found : Bool → Option ProbeAnswer → Findings → Option Findings
answer_found false answer found = some found
answer_found true none found = none
answer_found true (some failure) (cs, es) = some (cs ++ probe_condition ∷ [], es)
answer_found true (some warning) (cs, es) = some (cs, es ++ probe_condition ∷ [])
answer_found true (some success) found = some found
answer_found true (some unknown) found = some found

unfoldable pub status_of : Findings → InstanceStatus
status_of (cs, es) =
    if not (is_empty es)
    then instance_warning
    else if not (is_empty cs)
    then instance_error
    else instance_success

-- What `Probe` writes to the instance at its end.
unfoldable pub set_found : Findings → ProcInstance → ProcInstance
unfolding status_of
set_found found ins = record ins {
  conditions = found.0;
  events = found.1;
  status = status_of found;
}

-- `Probe`; `answer` is what the prober of the type answers.
unfoldable pub probe :
    Registry
    → ProcInstance
    → ProcessState
    → Option DeployResource
    → Option ProbeAnswer
    → ℤ
    → DiskWrites
    → Outcome (ProcInstance × Errors × DiskWrites)
unfolding answer_found set_found
probe reg ins st res_req answer now disks =
    let req : Option DeployResource = elim res_req [
      | none ↦ reg.default_medium ins.stage ins.projec_type
      | some r ↦ some r
    ] in
    let checked : Outcome (Findings × Errors × DiskWrites) = elim req [
      | none ↦ done (([], []), [], disks)
      | some r ↦ check st (some r) now disks
    ] in
    elim (reg.has_prober ins.projec_type) [
      | none ↦ done (ins, unknown_process_type ∷ [], disks)
      | some probed ↦ do
        (found, errors, disks') ← checked
        done (elim (answer_found probed answer found) [
          | none ↦ (ins, outside 0 ∷ [], disks')
          | some found' ↦ (set_found found' ins, [], disks')
        ])
    ]
