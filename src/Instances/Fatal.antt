-- ===== src/Instances/Fatal.antt =====
-- What `watch` of controllers/types/impl/instance.go comes to.
use snk_fork_dolphin.Base.{true, false, Bool, List, [], ◌∷◌}
use snk_fork_dolphin.Base.Text.{Text}
use snk_fork_dolphin.Types.Instance.{Instance}
use snk_fork_dolphin.Types.Stage.{Stage}
use snk_fork_dolphin.Instances.{Event, added, modified, deleted, watch_error}

abbrev pub only_errors : List (Event Instance) → Bool
only_errors [] = true
only_errors (watch_error ∷ es) = only_errors es
only_errors (added dat ∷ es) = false
only_errors (modified dat ∷ es) = false
only_errors (deleted dat ∷ es) = false
