-- ===== src/Process/Shell.antt =====
-- process/sh.go and types/command.go: the commands that the agent runs through its script.
pub mod Failing
use snk_fork_dolphin.Base.{
  ◌++◌, Bool, true, false, not, List, [], ◌∷◌, Option, none, some, if◌then◌else◌, is_empty, ℕ,
}
use snk_fork_dolphin.Base.Decimal.{decimal}
use snk_fork_dolphin.Base.Table.{Table}
use snk_fork_dolphin.Base.Text.{Text, codes}
use snk_fork_dolphin.Process.{ProcInstance}
use snk_fork_dolphin.Types.Fault.{Errors, invalid_args, unsupported_command}

-- The command that a session of go-sh runs: the arguments of the script, and the environment.
pub record Cmd : Type 0 where
  pub args : List Text
  pub env : Table Text

-- What go-sh does: it starts a command, waits for it, kills it and returns its output. `cancelled`
-- says whether the context ends before the command does.
pub record Sessions : Type 1 where
  pub World : Type 0
  pub start : Cmd → World → World × Errors
  pub wait : Cmd → World → World × Errors
  pub kill : Cmd → World → World
  pub output : Cmd → World → World × Text × Errors
  pub cancelled : World → Bool
  pub context_error : Errors

-- `CommandType`
pub data CommandType : Type 0 where
  cmd_probe cmd_stop_instance cmd_start_instance cmd_restart_instance : CommandType
  other_command : Text → CommandType

-- `Command`; `args` is `none` if what it holds is no list of strings. The times are left out.
pub record Command : Type 0 where
  pub comand_id : Text
  pub type : CommandType
  pub args : Option (List Text)
  pub envs : Table Text
  pub needout : Bool

-- `CommandResult`, without the time that it took.
pub record CommandResult : Type 0 where
  pub command_id : Text
  pub success : Bool
  pub output : Text
  pub err : Errors

-- `newCmd`; the script is the same always.
unfoldable pub new_cmd : Text → List Text → Table Text → Cmd
new_cmd cmd args env = record { args = cmd ∷ args; env = env }

-- What the switch of `Execute` makes of a command: a session, or an error.
unfoldable pub with_args : Text → Command → Option Cmd × Errors
unfolding new_cmd
with_args verb action = elim action.args [
  | none ↦ (none, invalid_args ∷ [])
  | some args ↦ (some (new_cmd verb args action.envs), [])
]

unfoldable pub session_by : CommandType → Command → Option Cmd × Errors
unfolding with_args
session_by cmd_stop_instance action = with_args (codes "stop") action
session_by cmd_start_instance action = with_args (codes "start") action
session_by cmd_restart_instance action = with_args (codes "restart") action
session_by cmd_probe action = (none, unsupported_command ∷ [])
session_by (other_command _) action = (none, unsupported_command ∷ [])

module _ (sh : Sessions) where
  open sh use {World, start, wait, kill, output, cancelled, context_error}

  -- `execute`
  unfoldable pub execute : Cmd → World → World × Errors
  execute s w =
      let (w1, err) = start s w in
      if not (is_empty err)
      then (w1, err)
      else if cancelled w1
      then (kill s w1, context_error)
      else wait s w1

  -- `stop`, `start` and `restart`, which differ in the verb: after an error of `execute` the error
  -- of `Output` is returned in its place.
  unfoldable pub run_script : Text → List Text → Table Text → World → World × Text × Errors
  unfolding new_cmd execute
  run_script verb args env w =
      let s = new_cmd verb args env in
      let (w1, err) = execute s w in
      let (w2, out, err2) = output s w1 in
      if not (is_empty err) then (w2, out, err2) else (w2, out, err)

  -- `Execute`
  unfoldable pub execute_command : Command → World → World × CommandResult
  unfolding session_by
  execute_command action w =
      let (session, err) = session_by action.type action in
      elim session [
        | none ↦
            (w, record { command_id = action.comand_id; success = false; output = []; err = err })
        | some s ↦
            let (w1, err1) = execute s w in
            let (w2, out, err2) = output s w1 in
            (
              w2,
              record {
                command_id = action.comand_id;
                success = false;
                output = out;
                err = if is_empty err1 then err2 else err1;
              },
            )
      ]

-- `StopCmdArgs`; `string(ins.Pid)` is the character with the number of the pid.
unfoldable pub stop_cmd_args : ProcInstance → List Text
stop_cmd_args ins = ins.projec_type ∷ ins.deploy_name ∷ (ins.pid ∷ []) ∷ []

-- `startCmd`, with a fresh id of the instance, `restartCmd` and `stopCmd`.
unfoldable pub start_cmd : Text → Text → Text → Command
start_cmd ver key id = record {
  comand_id = [];
  type = cmd_start_instance;
  args = some (key ∷ ver ∷ []);
  envs = (codes "_depolyKey", key) ∷ (codes "_version", ver) ∷ (codes "_instanceID", id) ∷ [];
  needout = false;
}

unfoldable pub restart_cmd : ProcInstance → Command
unfolding stop_cmd_args
restart_cmd v = record {
  comand_id = [];
  type = cmd_restart_instance;
  args = some (stop_cmd_args v);
  envs = [];
  needout = false;
}

unfoldable pub stop_cmd : ProcInstance → Command
unfolding stop_cmd_args
stop_cmd v = record {
  comand_id = [];
  type = cmd_stop_instance;
  args = some (stop_cmd_args v);
  envs = [];
  needout = false;
}
