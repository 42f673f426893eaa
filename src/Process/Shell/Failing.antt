-- ===== src/Process/Shell/Failing.antt =====
-- What `Execute` of process/sh.go runs and reports.
use snk_fork_dolphin.Base.{
  ◌≡◌, ◌≢◌, ◌⊎◌, inl, inr, false, List, [], ◌∷◌, Option, none, some, arith, is_empty, Option-cases,
  Bool-cases, if◌then◌else◌,
}
use snk_fork_dolphin.Base.Table.{Table}
use snk_fork_dolphin.Base.Text.{Text, codes}
use snk_fork_dolphin.Types.Fault.{Errors}
use snk_fork_dolphin.Process.Shell.{
  Sessions, Command, CommandResult, execute, execute_command, Cmd, CommandType, session_by,
  with_args, new_cmd, cmd_stop_instance, cmd_start_instance, cmd_restart_instance, cmd_probe,
  other_command,
}

-- The command line of the script that a command stands for: stop, start or restart with its
-- arguments, where these are a list of strings, and nothing for any other command.
abbrev pub script_of : CommandType → Option (List Text) → Option (List Text)
script_of cmd_stop_instance (some args) = some (codes "stop" ∷ args)
script_of cmd_start_instance (some args) = some (codes "start" ∷ args)
script_of cmd_restart_instance (some args) = some (codes "restart" ∷ args)
script_of _ _ = none

-- How the run of a session ends, in a state and with an error: it does not start, it is killed when
-- the context ends, or it is waited for.
abbrev pub Ran : (sh : Sessions) → Cmd → sh.World → sh.World × Errors → Type 0
Ran sh s w r =
    ((sh.start s w).1 ≢ [] × (r ≡ sh.start s w))
    ⊎ (((sh.start s w).1 ≡ [])
        × (if sh.cancelled (sh.start s w).0
            then r ≡ (sh.kill s (sh.start s w).0, sh.context_error)
            else r ≡ sh.wait s (sh.start s w).0))

-- What is left of the world and reported.
abbrev pub ReportsOf : (sh : Sessions) → Option Cmd → sh.World → sh.World × CommandResult → Type 0
ReportsOf sh none w r = (r.0 ≡ w) × (is_empty r.1.err ≡ false)
ReportsOf sh (some s) w r =
    (e : sh.World × Errors) × Ran sh s w e
    × (r.0 ≡ (sh.output s e.0).0)
    × (r.1.output ≡ (sh.output s e.0).1)
    × (r.1.err ≡ (if is_empty e.1 then (sh.output s e.0).2 else e.1))

abbrev pub with_env : Table Text → Option (List Text) → Option Cmd
with_env env none = none
with_env env (some args) = some (record { args = args; env = env })

abbrev pub Reports : (sh : Sessions) → Command → sh.World → sh.World × CommandResult → Type 0
Reports sh action w r =
    (r.1.success ≡ false)
    × (r.1.command_id ≡ action.comand_id)
    × ReportsOf sh (with_env action.envs (script_of action.type action.args)) w r

-- The session is that of the script, and there is an error where there is none.
session_by_script :
    (t : CommandType) (action : Command)
    → ((session_by t action).0 ≡ with_env action.envs (script_of t action.args))
      × ((session_by t action).0 ≡ none → is_empty (session_by t action).1 ≡ false)
unfolding session_by with_args new_cmd
session_by_script cmd_stop_instance action = ground arith
session_by_script cmd_start_instance action = ground arith
session_by_script cmd_restart_instance action = ground arith
session_by_script cmd_probe action = ground arith
session_by_script (other_command t) action = ground arith

execute-Ran : (sh : Sessions) (s : Cmd) (w : sh.World) → Ran sh s w (execute sh s w)
unfolding execute
execute-Ran sh s w = elim (Bool-cases (is_empty (sh.start s w).1)) [
  | inr failed ↦ inl (ground (arith, failed), ground (arith, failed))
  | inl started ↦ elim (Bool-cases (sh.cancelled (sh.start s w).0)) [
    | inl ended ↦ inr (ground (arith, started), rw ended (ground (arith, started, ended)))
    | inr waits ↦ inr (ground (arith, started), rw waits (ground (arith, started, waits)))
  ]
]

-- `Execute` runs the script with stop, start or restart and the arguments of the command, in its
-- environment, for a command of one of these three types whose arguments are a list of strings, and
-- nothing for any other, which it reports with an error. Of a run it reports the output, with the
-- error of the run, or else that of reading the output. It never reports a success.
pub execute_command-Reports :
    (sh : Sessions) (action : Command) (w : sh.World)
    → Reports sh action w (execute_command sh action w)
unfolding execute_command
execute_command-Reports sh action w =
    let (same, refused) = session_by_script action.type action in
    elim (Option-cases (session_by action.type action).0) [
      | inl none_made ↦ rw (← same) (
          rw none_made (
            ground (arith, none_made),
            ground (arith, none_made),
            (ground (arith, none_made), ground (arith, none_made, refused none_made)),
          ))
      | inr (s, made) ↦ rw (← same) (
          rw made (
            ground (arith, made),
            ground (arith, made),
            (
              execute sh s w,
              execute-Ran sh s w,
              ground (arith, made),
              ground (arith, made),
              ground (arith, made),
            ),
          ))
    ]
