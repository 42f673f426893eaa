-- ===== src/Process/Scan.antt =====
-- The scanner of process/scan.go: which processes are new, and what an instance is made of.
pub mod Again
use snk_fork_dolphin.Base.{
  ℕ, ◌+◌, ◌*◌, ◌++◌, Bool, true, false, not, ◌||◌, List, [], ◌∷◌, Option, none, some, if◌then◌else◌,
  is_empty, take, length, ltb, ◌==◌, ◌⊎◌, inl, inr,
}
use snk_fork_dolphin.Base.Decimal.{decimal}
use snk_fork_dolphin.Base.Int.{ℤ, pos}
use snk_fork_dolphin.Base.Outcome.{Outcome, done, panicked, ◌>>=◌}
use snk_fork_dolphin.Base.Table.{Table, insert}
use snk_fork_dolphin.Base.Text.{Text, codes, text_eq}
use snk_fork_dolphin.Process.{
  ProcInstance, instance_unknown, get_deploy_key, get_instance_id, proc_key, Addr,
}
use snk_fork_dolphin.Process.Watch.{InstanceEvent, et_starting}
use snk_fork_dolphin.Types.Deploy.{parse_deploy_key}
use snk_fork_dolphin.Types.Fault.{Errors, process_exited, invalid_deploy_key, outside}
use snk_fork_dolphin.Types.Instance.{LifeCycle, starting, running}
use snk_fork_dolphin.Types.Stage.{Stage}

-- A process as gopsutil and /proc show it; `environ` is what `environ` holds, `create_time` is in
-- milliseconds.
pub record Proc : Type 0 where
  pub pid : ℕ
  pub environ : Option Text
  pub exe : Text
  pub args : Text
  pub create_time : ℕ
  pub username : Text

-- What the rest of the agent answers: `hostinfo` of the host, and the registry of types: the type of
-- a process without a deploy key, `none` for `PTUnknown`, and the parsers of the types, whose error
-- is `some none`.
pub record Agent : Type 0 where
  pub host_id : Text
  pub stage : Stage
  pub instance_type : Proc → Option Text
  pub parser : Text → Option (ProcInstance → Proc → Option ProcInstance)

-- The host as a scan finds it: the processes that a signal does not reach, those that `GetAllPids`
-- lists, with the process 0 for the first file of /proc, and those that gopsutil opens.
pub record HostView : Type 0 where
  pub unreached : ℕ → Bool
  pub pids : List ℕ
  pub opened : ℕ → Option Proc

-- `isProcessStopped`; `Signal` of the process 0 is always an error.
unfoldable pub is_process_stopped : HostView → ℕ → Bool
is_process_stopped view pid = pid == 0 || view.unreached pid

-- What `parse` returns.
pub data Parsed : Type 0 where
  nothing : Parsed
  found : ProcInstance → Parsed
  failed : Errors → Parsed

-- The type and the name of the deployment, by the deploy key.
unfoldable pub type_of : Agent → Proc → Text → Parsed ⊎ (Text × Text)
type_of a p dkey =
    if is_empty dkey
    then elim (a.instance_type p) [ none ↦ inl nothing | some typ ↦ inr (typ, []) ]
    else elim (parse_deploy_key dkey) [
      | none ↦ inl (failed (invalid_deploy_key ∷ []))
      | some named ↦ inr named
    ]

-- The instance before its type's parser has seen it.
unfoldable pub fresh_instance : Agent → Proc → Text → Text → Text → ℤ → ProcInstance
fresh_instance a p typ dname id now = record {
  projec_type = typ;
  id = id;
  pid = p.pid;
  deploy_name = dname;
  user = p.username;
  host_id = a.host_id;
  stage = a.stage;
  is_service = false;
  start_time = pos (p.create_time * 1000000);
  update_time = now;
  life_cycle = starting;
  listening = [];
  status = instance_unknown;
  conditions = [];
  events = [];
}

-- `instanceID`, made of the host's when the environment has none; `hostID[:7]` panics if it is
-- shorter.
unfoldable pub instance_id : Agent → Proc → Text → Outcome Text
instance_id a p id =
    if not (is_empty id)
    then done id
    else if ltb (length a.host_id) 7
    then panicked
    else done (take 7 a.host_id ++ b'-' ∷ decimal p.pid)

-- `parse` after the type is known.
unfoldable pub parse_typed : Agent → Proc → Text → Text → ℤ → Outcome Parsed
unfolding instance_id fresh_instance
parse_typed a p typ dname now = elim (a.parser typ) [
  | none ↦ done nothing
  | some parser ↦ do
    from_env ← get_instance_id p.environ
    id ← instance_id a p from_env
    done (elim (parser (fresh_instance a p typ dname id now) p) [
      | none ↦ failed (outside 0 ∷ [])
      | some ins ↦ found ins
    ])
]

-- `parse` at the time `now`.
unfoldable pub parse : Agent → (ℕ → Bool) → ℤ → Proc → Outcome Parsed
unfolding type_of parse_typed
parse a stopped now p = if stopped p.pid then done (failed (process_exited ∷ [])) else do
  dkey ← get_deploy_key p.environ
  elim (type_of a p dkey) [ inl r ↦ done r | inr (typ, dname) ↦ parse_typed a p typ dname now ]

-- `scanner`: the known processes, by their pids, the instances, and what was sent to `eventChan`.
-- For each instance sent a goroutine runs `watchInstance`.
pub record Scanner : Type 0 where
  pub procs : List ℕ
  pub instances : Table ProcInstance
  pub sent : List InstanceEvent

abbrev pub mem_pid : ℕ → List ℕ → Bool
mem_pid n [] = false
mem_pid n (p ∷ ps) = p == n || mem_pid n ps

-- The first loop of `update`.
unfoldable pub forget_stopped : (ℕ → Bool) → List ℕ → List ℕ
forget_stopped stopped [] = []
forget_stopped stopped (p ∷ ps) =
    if stopped p then forget_stopped stopped ps else p ∷ forget_stopped stopped ps

-- What the instance of a new process changes.
unfoldable pub note : Parsed → Scanner → Scanner
note (found ins) s = record s {
  instances = insert (proc_key ins) ins s.instances;
  sent = s.sent ++ record { type = et_starting; ins = ins } ∷ [];
}
note nothing s = s
note (failed _) s = s

-- A new process.
unfoldable pub add_proc : Agent → (ℕ → Bool) → ℤ → Proc → ℕ → Scanner → Outcome Scanner
unfolding note
add_proc a stopped now p pid s = do
  r ← parse a stopped now p
  done (note r (record s { procs = pid ∷ s.procs }))

-- One round of the second loop.
unfoldable pub see_pid : Agent → HostView → ℤ → ℕ → Scanner → Outcome Scanner
see_pid a view now pid s = if mem_pid pid s.procs then done s else elim (view.opened pid) [
  | none ↦ done s
  | some p ↦ add_proc a (is_process_stopped view) now p pid s
]

unfoldable pub see_pids : Agent → HostView → ℤ → List ℕ → Scanner → Outcome Scanner
see_pids a view now [] s = done s
see_pids a view now (pid ∷ pids) s = do s' ← see_pid a view now pid s; see_pids a view now pids s'

-- `update`, which has no error.
unfoldable pub update : Agent → HostView → ℤ → Scanner → Outcome Scanner
unfolding forget_stopped
update a view now s =
    see_pids a view now view.pids
      (record s { procs = forget_stopped (is_process_stopped view) s.procs })

-- What a round of `listenPorts` finds: the process has stopped, its addresses, or the time is up.
pub data PortRound : Type 0 where
  gone : PortRound
  listens : List Addr → PortRound
  time_up : PortRound

-- `listenPorts`, over its rounds, which come 4, 8, 16, ... seconds apart, and the end of the time at
-- 125 seconds.
unfoldable pub listen_ports : List PortRound → ProcInstance → ProcInstance
listen_ports [] ins = ins
listen_ports (gone ∷ _) ins = ins
listen_ports (time_up ∷ _) ins = record ins { life_cycle = running }
listen_ports (listens [] ∷ rs) ins = listen_ports rs ins
listen_ports (listens (a ∷ as') ∷ _) ins = record ins {
  listening = a ∷ as';
  is_service = true;
  life_cycle = running;
}
