-- ===== src/Tests/Processes.antt =====
-- The processes of process/ at concrete inputs.
use snk_fork_dolphin.Base.{
  ℕ, ◌+◌, ◌≡◌, refl, arith, ◌++◌, ◌&&◌, ◌==◌, true, false, not, List, [], ◌∷◌, some, none, length,
  ltb, leb, if◌then◌else◌,
}
use snk_fork_dolphin.Base.Decimal.{decimal}
use snk_fork_dolphin.Base.Int.{pos, ltb_ℤ}
use snk_fork_dolphin.Base.Outcome.{Outcome, done, panicked}
use snk_fork_dolphin.Base.Table.{lookup}
use snk_fork_dolphin.Base.Text.{Text, codes, has_prefix, text_eq}
use snk_fork_dolphin.Process.{
  ProcInstance, instance_unknown, instance_warning, high_mem, high_threads, high_cpu, high_disk_io,
  get_deploy_key, get_instance_id, info_env, get_env_map, Addr,
}
use snk_fork_dolphin.Process.Env.{environ, get_deploy_key-environ}
use snk_fork_dolphin.Process.Check.{
  ProcessState, DiskWrites, Findings, Registry, check, probe, mem_ratio,
}
use snk_fork_dolphin.Process.Check.Limits.{has, check-conditions}
use snk_fork_dolphin.Process.Check.Status.{probe-masked}
use snk_fork_dolphin.Process.Watch.{Round, watch_instance, watch_rounds, Sent}
use snk_fork_dolphin.Process.Watch.Changes.{Changes, watch_instance-Changes}
use snk_fork_dolphin.Process.Scan.{
  Agent, HostView, Proc, Scanner, update, see_pids, see_pid, add_proc, parse, parse_typed,
  instance_id, type_of, forget_stopped, note, is_process_stopped, mem_pid,
}
use snk_fork_dolphin.Process.Scan.Again.{update_again}
use snk_fork_dolphin.Process.Ports.{
  decode_address, listen_ports_of_pid, listen_rows, other, listening, walk_links, without_ports,
}
use snk_fork_dolphin.Process.Ports.Address.{kernel_address, decode_address-kernel_address}
use snk_fork_dolphin.Process.Ports.Child.{listen_ports_of_pid-child}
use snk_fork_dolphin.Process.Ports.Rows.{listen_rows-stops}
use snk_fork_dolphin.Process.Shell.{Sessions, Command, cmd_stop_instance, execute_command}
use snk_fork_dolphin.Process.Shell.Failing.{Reports, execute_command-Reports}
use snk_fork_dolphin.Types.Fault.{Errors}
use snk_fork_dolphin.Types.Instance.{starting}
use snk_fork_dolphin.Types.Resource.{DeployResource, no_resource}
use snk_fork_dolphin.Types.Stage.{dev}

abbrev two_vars : List Text
two_vars = codes "_depolyKey=java/crm" ∷ codes "HOME=/" ∷ []

get_deploy_key-environ_example :
    get_deploy_key (some (environ two_vars)) ≡ (if length two_vars == 1 then panicked else done [])
get_deploy_key-environ_example = get_deploy_key-environ two_vars (ground arith)

abbrev limits : DeployResource
limits = record no_resource {
  memory = 100;
  cpu = 10;
  max_allowed_memory = 200;
  max_allowed_cpu = 100;
  max_allowd_threads = pos 10;
}

-- More threads than are allowed, and most of the CPU.
abbrev busy : ProcessState
busy = record { pid = 7; num_threads = pos 20; cpu_usage = 90; rss = 400; write_bytes = 0 }

abbrev no_writes : DiskWrites
no_writes p = none

check-conditions_example :
    (found : Findings) × (disks' : DiskWrites) × (check busy (some limits) (pos 0) no_writes
      ≡ done (found, [], disks'))
    × (has high_threads found.0 ≡ ltb_ℤ limits.max_allowd_threads busy.num_threads)
    × (has high_cpu found.0 ≡ ltb limits.max_allowed_cpu busy.cpu_usage)
    × (has high_disk_io found.0 ≡ false)
    × (has high_mem found.0 ≡ (
        leb limits.max_allowed_memory limits.memory
        && not (ltb 150 (mem_ratio busy limits) && leb busy.rss limits.max_allowed_memory)))
check-conditions_example = check-conditions busy limits (pos 0) no_writes (omega arith)

abbrev plain_types : Registry
plain_types = record { has_prober = λ t. some false; default_medium = λ s t. none }

abbrev worker : ProcInstance
worker = record {
  projec_type = codes "java";
  id = codes "i";
  pid = 7;
  deploy_name = codes "crm";
  user = [];
  host_id = codes "0123456789";
  stage = dev;
  is_service = false;
  start_time = pos 0;
  update_time = pos 0;
  life_cycle = starting;
  listening = [];
  status = instance_unknown;
  conditions = [];
  events = [];
}

probe-masked_example :
    (ins' : ProcInstance) × (disks' : DiskWrites) × (probe plain_types worker busy
        (some limits)
        none
        (pos 0)
        no_writes
      ≡ done (ins', [], disks'))
    × (has high_threads ins'.conditions ≡ true)
    × (ins'.status ≡ instance_warning)
probe-masked_example =
    probe-masked plain_types worker busy limits none (pos 0) no_writes refl (omega arith) refl refl
      refl

abbrev last_round : Round
last_round = record { now = pos 5; is_stopped = true; state = busy; res_req = none; answer = none }

abbrev busy_round : Round
busy_round = record {
  now = pos 3;
  is_stopped = false;
  state = busy;
  res_req = some limits;
  answer = none;
}

abbrev nothing_sent : Sent
nothing_sent = record { events = []; metrics = []; disks = no_writes }

abbrev sent_of : Outcome Sent → Sent
sent_of panicked = nothing_sent
sent_of (done s) = s

-- Two rounds with the same warning, and the stop.
abbrev rounds : List Round
rounds = busy_round ∷ busy_round ∷ last_round ∷ []

abbrev watched : Sent
watched = sent_of (watch_instance plain_types worker no_writes rounds)

watched_lem : watch_instance plain_types worker no_writes rounds ≡ done watched
unfolding watch_instance watch_rounds probe check
watched_lem = refl

watch_instance-Changes_example : Changes instance_unknown watched.events
watch_instance-Changes_example =
    watch_instance-Changes plain_types worker no_writes rounds watched watched_lem

-- The process 7, a Java program, and the process 0, which /proc stands for.
abbrev proc_of : ℕ → Proc
proc_of pid = record {
  pid = pid;
  environ = none;
  exe = codes "java";
  args = [];
  create_time = 5000;
  username = codes "app";
}

abbrev host : HostView
host = record { unreached = λ p. false; pids = 7 ∷ 0 ∷ []; opened = λ p. some (proc_of p) }

abbrev agent : Agent
agent = record {
  host_id = codes "0123456789";
  stage = dev;
  instance_type = λ p. some (codes "java");
  parser = λ t. some (λ ins p. some ins);
}

abbrev no_scan : Scanner
no_scan = record { procs = []; instances = []; sent = [] }

abbrev scan_of : Outcome Scanner → Scanner
scan_of panicked = no_scan
scan_of (done s) = s

abbrev first_scan : Scanner
first_scan = scan_of (update agent host (pos 0) no_scan)

scanned : update agent host (pos 0) no_scan ≡ done first_scan
unfolding update see_pids see_pid add_proc parse parse_typed instance_id type_of forget_stopped note
    is_process_stopped get_deploy_key get_instance_id info_env get_env_map lookup
scanned = refl

update_again_example :
    (s : Scanner) × (update agent host (pos 5) first_scan ≡ done s)
    × (s.instances ≡ first_scan.instances)
    × (s.sent ≡ first_scan.sent)
    × ((p : ℕ) → mem_pid p s.procs ≡ mem_pid p first_scan.procs)
update_again_example =
    update_again agent host (pos 0) (pos 5) no_scan first_scan (λ pid p e. ground (arith, e))
      scanned

decode_address-kernel_address_example :
    decode_address (λ bs. []) (kernel_address 10 0 0 5 22)
    ≡ some (record {
      ip = decimal 10 ++ b'.' ∷ decimal 0 ++ b'.' ∷ decimal 0 ++ b'.' ∷ decimal 5;
      port = pos 22;
    })
decode_address-kernel_address_example =
    decode_address-kernel_address (λ bs. []) 10 0 0 5 22 (omega arith) (omega arith) (omega arith)
      (omega arith) (omega arith)

abbrev ssh : Addr
ssh = record { ip = codes "10.0.0.5"; port = pos 22 }

child_found :
    listen_ports_of_pid true (some ((codes "17", ssh) ∷ [])) (codes "socket:[17]" ∷ []) 9 []
    ≡ done ([], [])
unfolding listen_ports_of_pid walk_links without_ports has_prefix lookup text_eq
child_found = refl

listen_ports_of_pid-child_example : ◌≡◌ {A = List Addr × Errors} ([], []) ([], [])
listen_ports_of_pid-child_example =
    listen_ports_of_pid-child ((codes "17", ssh) ∷ []) (codes "socket:[17]" ∷ []) 9 [] ([], []) refl
      child_found

listen_rows-stops_example :
    listen_rows
      ([]
        ++ ((other ∷ other ∷ other ∷ other ∷ other ∷ other ∷ [])
            ++ listening (codes "17") (some ssh) ∷ []))
      0
      []
    ≡ listen_rows [] 0 []
listen_rows-stops_example =
    listen_rows-stops [] (other ∷ other ∷ other ∷ other ∷ other ∷ other ∷ [])
      (listening (codes "17") (some ssh) ∷ []) 0 []
      (refl, (refl, (refl, (refl, (refl, (refl, tt)))))) (omega arith) (omega arith)

-- Sessions that count what is run.
abbrev counting : Sessions
counting = record {
  World = ℕ;
  start = λ s w. (w + 1, []);
  wait = λ s w. (w, []);
  kill = λ s w. w;
  output = λ s w. (w + 1, [], []);
  cancelled = λ w. false;
  context_error = [];
}

abbrev stop_crm : Command
stop_crm = record {
  comand_id = codes "1";
  type = cmd_stop_instance;
  args = some (codes "java" ∷ codes "crm" ∷ []);
  envs = [];
  needout = false;
}

execute_command-Reports_example : Reports counting stop_crm 0 (execute_command counting stop_crm 0)
execute_command-Reports_example = execute_command-Reports counting stop_crm 0
