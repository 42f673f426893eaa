-- ===== src/Replica/Legacy.antt =====
-- `removeLegacyInstanceConfigs` of controllers/scheduler/replica.go.
pub mod Lookup
pub mod Sums
use snk_fork_dolphin.Base.{
  Bool, true, false, ◌++◌, ◌||◌, not, List, [], ◌∷◌, Option, none, some, if◌then◌else◌, is_empty,
}
use snk_fork_dolphin.Base.Int.{ℤ}
use snk_fork_dolphin.Base.Text.{Text, text_eq}
use snk_fork_dolphin.Base.Table.{Table}
use snk_fork_dolphin.HostConfig.{
  Store, HcManager, list_host_configs, set_host_config, delete_host_configs,
}
use snk_fork_dolphin.Types.Deploy.{DeploySpec}
use snk_fork_dolphin.Types.Fault.{Errors}
use snk_fork_dolphin.Replica.{entries}

-- `cfg.Info` after the loop that deletes the versions that are not expected.
unfoldable pub only_version : Text → Table ℤ → Table ℤ
only_version expect [] = []
only_version expect ((v, n) ∷ info) =
    if text_eq v expect then (v, n) ∷ only_version expect info else only_version expect info

-- `needUpdate` after that loop.
unfoldable pub need_update : Text → Table ℤ → Bool
need_update expect [] = false
need_update expect ((v, n) ∷ info) = not (text_eq v expect) || need_update expect info

module _ (D : Store) where
  -- What the loop does for one host.
  unfoldable pub remove_legacy_host :
      Text → Text → Text → DeploySpec → HcManager D → HcManager D × Errors
  remove_legacy_host key expect h cfg m =
      let kept = only_version expect (entries cfg) in
      if is_empty kept
      then delete_host_configs D key (h ∷ []) m
      else if need_update expect (entries cfg)
      then set_host_config D key h (record { info = some kept }) m
      else (m, [])

  -- The loop over the hosts.
  unfoldable pub remove_legacy_hosts :
      Text → Text → Table DeploySpec → HcManager D → HcManager D × Errors
  remove_legacy_hosts key expect [] m = (m, [])
  remove_legacy_hosts key expect ((h, cfg) ∷ hc) m =
      let (m', errors) = remove_legacy_host key expect h cfg m in
      let (m'', later) = remove_legacy_hosts key expect hc m' in (m'', errors ++ later)

  -- `removeLegacyInstanceConfigs`
  unfoldable pub remove_legacy : Text → Text → HcManager D → HcManager D × Errors
  unfolding remove_legacy_hosts
  remove_legacy key expect m = remove_legacy_hosts key expect (list_host_configs D key m) m
