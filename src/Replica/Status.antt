-- ===== src/Replica/Status.antt =====
-- `checkStatus` of controllers/scheduler/replica.go.
pub mod Agreement
use snk_fork_dolphin.Base.{
  Bool, true, false, ◌&&◌, not, ◌++◌, List, [], ◌∷◌, Option, none, some, if◌then◌else◌,
}
use snk_fork_dolphin.Base.Int.{ℤ, pos, ◌-ℤ◌, ltb_ℤ, eqb_ℤ}
use snk_fork_dolphin.Base.Text.{Text, text_eq}
use snk_fork_dolphin.Base.Table.{Table}
use snk_fork_dolphin.HostConfig.{Store, HcManager, list_host_configs}
use snk_fork_dolphin.Types.Externals.{Externals}
use snk_fork_dolphin.Types.Fault.{
  Errors, spec_inconsistent, legacy_running, missing_expected, surplus_expected, running_differs,
}
use snk_fork_dolphin.Types.Instance.{Instance}
use snk_fork_dolphin.Replica.{ReplicaCtrl, hc_stat}
use snk_fork_dolphin.Replica.Legacy.{remove_legacy}

-- The loop over the running instances, which takes each off one of the two numbers.
unfoldable pub tally : Text → Table Instance → ℤ → ℤ → ℤ × ℤ
tally expect [] num_exp num_unexp = (num_exp, num_unexp)
tally expect ((_, ins) ∷ s) num_exp num_unexp =
    tally expect s (if text_eq ins.version expect then num_exp -ℤ pos 1 else num_exp)
      (if text_eq ins.version expect then num_unexp else num_unexp -ℤ pos 1)

-- The errors at the end, from the two numbers.
unfoldable pub verdict : ℤ → ℤ → Errors
verdict num_exp num_unexp =
    let first : Errors =
      if ltb_ℤ (pos 0) num_exp
      then missing_expected ∷ []
      else if ltb_ℤ num_exp (pos 0)
      then surplus_expected ∷ []
      else [] in
    first ++ (if eqb_ℤ num_unexp (pos 0) then [] else running_differs ∷ [])

abbrev pub is_none {ℓ} : {A : Type ℓ} → Option A → Bool
is_none none = true
is_none (some _) = false

module _ (X : Externals) (D : Store) where
  -- `checkStatus`, where `insMap` is what the instance manager answers for the key.
  unfoldable pub check_status : ReplicaCtrl X → Table Instance → HcManager D → HcManager D × Errors
  unfolding tally verdict
  check_status c ins_map m =
      let (num_exp, num_unexp) = hc_stat c.expect_version (list_host_configs D c.key m) in
      let (m', errors) = remove_legacy D c.key c.expect_version m in
      let (left_exp, left_unexp) = tally c.expect_version ins_map num_exp num_unexp in
      if not (eqb_ℤ num_exp c.dc.num_of_instance)
      then (m, spec_inconsistent ∷ [])
      else if ltb_ℤ (pos 0) num_unexp && is_none c.legacy_timer
      then (m', legacy_running ∷ errors)
      else (m, verdict left_exp left_unexp)
