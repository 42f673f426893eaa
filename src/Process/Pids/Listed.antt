-- ===== src/Process/Pids/Listed.antt =====
-- What `GetAllPids` of process/process_scan.go lists.
use snk_fork_dolphin.Base.{◌≡◌, refl, ◌++◌, List, [], ◌∷◌, arith, All, Option-cases, inl, inr}
use snk_fork_dolphin.Base.Decimal.{atoi}
use snk_fork_dolphin.Base.Int.{pos}
use snk_fork_dolphin.Base.Text.{Text}
use snk_fork_dolphin.Process.Pids.{Entry, directory, file, Regexps, get_pids, get_all_pids}

abbrev pub IsDirectory : Entry → Type 0
IsDirectory (directory name cmdline) = Unit
IsDirectory (file name) = ⊥

-- The walk of /proc for all processes ends at the first entry that is a file: it lists those that
-- the directories before it name, then the process 0, and nothing that comes after.
pub get_all_pids-file :
    (re : Regexps) (dirs rest : List Entry) (name : Text)
    → All IsDirectory dirs
    → get_all_pids re (dirs ++ file name ∷ rest) ≡ get_all_pids re dirs ++ pos 0 ∷ []
unfolding get_all_pids get_pids
get_all_pids-file re [] rest name h = refl
get_all_pids-file re (file f ∷ dirs) rest name h = absurd h.0
get_all_pids-file re (directory d cmdline ∷ dirs) rest name h = elim (Option-cases (atoi d)) [
  | inl other ↦ ground (arith, other, get_all_pids-file re dirs rest name h.1)
  | inr (pid, numbered) ↦ ground (arith, numbered, get_all_pids-file re dirs rest name h.1)
]
