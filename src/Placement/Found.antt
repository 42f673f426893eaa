-- ===== src/Placement/Found.antt =====
-- Whether `NextHost` finds a host (controllers/scheduler/scheduler.go).
use snk_fork_dolphin.Base.{ℕ, ◌%◌, ◌≡◌, Bool, List, [], ◌∷◌, some, if◌then◌else◌, is_empty, length}
use snk_fork_dolphin.Base.Text.{Text}
use snk_fork_dolphin.Base.Table.{Table}
use snk_fork_dolphin.Types.Externals.{Externals}
use snk_fork_dolphin.Types.Fault.{Errors}
use snk_fork_dolphin.Types.Host.{HostInfo}
use snk_fork_dolphin.Types.Instance.{Instance}
use snk_fork_dolphin.Types.Resource.{DeployResource}
use snk_fork_dolphin.Types.Stage.{Stage}
use snk_fork_dolphin.Placement.{
  Hosts, Scheduler, nth, get_host_info, check_host_status, live, find_loop,
}

module _ (X : Externals) (H : Hosts X) where
  -- What is stored as the status of a host has no memory for an information.
  abbrev pub StoresStatuses : Stage → Type 0
  StoresStatuses stage =
      (hid : Text) (inf : HostInfo)
      → get_host_info X H stage hid ≡ some inf
      → (inf.memory ≡ 0) × (inf.swap_size ≡ 0)

  module _ (random : ℕ → ℕ) (is_exist : Errors → Bool) (stage : Stage) (need : DeployResource)
      (ins : List Instance) where
    abbrev found : ℕ → List Text → Text → Errors → List Text × Text × Errors
    found = find_loop X H random is_exist stage need ins

    abbrev tried : ℕ → Text → List Text → Text
    tried max_try h hs = nth h (random max_try % length (h ∷ hs)) (h ∷ hs)

    abbrev next_best : Text → Errors → Text → Text
    next_best hid terr best = if is_exist terr then hid else best

    abbrev next_err : Text → Errors → Text → Errors → Errors
    next_err hid terr best err =
        if is_empty (next_best hid terr best) then terr else if is_exist terr then terr else err

    abbrev Passes : List Text × Text × Errors → Type 0
    Passes r = r.2 ≡ [] → check_host_status X H stage r.1 need ins ≡ []

  module _ (random : ℕ → ℕ) (is_exist : Errors → Bool) (all_ins : Table Instance)
      (s : Scheduler X) where
    -- The host passes the check, for the instances that have not stopped.
    abbrev pub IsSuitable : Text → Type 0
    IsSuitable hid = check_host_status X H s.stage hid s.require.resource (live X H all_ins) ≡ []
