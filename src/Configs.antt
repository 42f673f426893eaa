-- ===== src/Configs.antt =====
-- controllers/types/impl/dc.go: the manager of the deploy configurations of one stage.
pub mod Latest
use snk_fork_dolphin.Base.{Bool, true, false, List, [], ◌∷◌, Option, none, some, if◌then◌else◌}
use snk_fork_dolphin.Base.Outcome.{Outcome, done, panicked}
use snk_fork_dolphin.Base.Text.{Text, trim_prefix}
use snk_fork_dolphin.Base.Table.{Table, lookup, insert, delete}
use snk_fork_dolphin.EtcdKey.{deploy_config_dir}
use snk_fork_dolphin.Types.Deploy.{DeployConfig, key_of, parse_deploy_key}
use snk_fork_dolphin.Types.Externals.{Externals}
use snk_fork_dolphin.Types.Fault.{Errors, outside}
use snk_fork_dolphin.Types.Resource.{DeployResource}
use snk_fork_dolphin.Types.Stage.{Stage}

module _ (X : Externals) where
  -- `deployConfigManager`; `watching` says that `df` is not nil.
  pub record ConfigManager : Type 0 where
    pub stage : Stage
    pub dc : Table (DeployConfig X)
    pub watching : Bool

  -- `watch.Event` of deploy configurations, with its key.
  pub data ConfigEvent : Type 0 where
    config_added config_modified : Text → DeployConfig X → ConfigEvent
    config_deleted : Text → ConfigEvent
    config_error : ConfigEvent

  -- The loop of `load`.
  unfoldable pub load_configs :
      List (DeployConfig X) → Table (DeployConfig X) → Table (DeployConfig X)
  load_configs [] dc = dc
  load_configs (v ∷ ret) dc = load_configs ret (insert (key_of X v) v dc)

  -- `NewDeployConfigManager` and `load`, where `listed` is what the store lists, `none` its error.
  unfoldable pub new_deploy_config_manager :
      Stage → Option (List (DeployConfig X)) → Option ConfigManager × Errors
  unfolding load_configs
  new_deploy_config_manager stage listed = elim listed [
    | none ↦ (none, outside 0 ∷ [])
    | some ret ↦ (some (record { stage = stage; dc = load_configs ret []; watching = false }), [])
  ]

  -- `watch`, with no error of the store.
  unfoldable pub start_watch : ConfigManager → ConfigManager
  start_watch m = record m { watching = true }

  -- `Destroy`: a call of the nil function panics.
  unfoldable pub stop_watch : ConfigManager → Outcome ConfigManager
  stop_watch m = if m.watching then done m else panicked

  -- One round of the loop of `watchDeployConfig` with `eventHandler`.
  unfoldable pub handle_config : ConfigEvent → ConfigManager → ConfigManager
  handle_config (config_added k dat) m = record m {
    dc = insert (trim_prefix k (deploy_config_dir m.stage)) dat m.dc;
  }
  handle_config (config_modified k dat) m = record m {
    dc = insert (trim_prefix k (deploy_config_dir m.stage)) dat m.dc;
  }
  handle_config (config_deleted k) m = record m {
    dc = delete (trim_prefix k (deploy_config_dir m.stage)) m.dc;
  }
  handle_config config_error m = m

  -- The loop of `watchDeployConfig` over the events that come in.
  unfoldable pub watch_configs : List ConfigEvent → ConfigManager → ConfigManager
  unfolding handle_config
  watch_configs [] m = m
  watch_configs (e ∷ es) m = watch_configs es (handle_config e m)

  -- `GetDeployConfig`; `none` is the nil pointer.
  unfoldable pub get_deploy_config : Text → ConfigManager → Option (DeployConfig X)
  get_deploy_config key m = lookup key m.dc

  -- `GetDeployResouce`, where `medium` is the medium default of a stage and a type, if there is one.
  unfoldable pub get_deploy_resouce :
      (Stage → Text → Option DeployResource) → Text → ConfigManager → Option DeployResource
  get_deploy_resouce medium key m =
      let default : Option DeployResource = elim (parse_deploy_key key) [
        | none ↦ none
        | some tn ↦ medium m.stage tn.0
      ] in
      elim (lookup key m.dc) [
        | none ↦ default
        | some r ↦ elim r.resource_required [ none ↦ default | some rr ↦ some rr ]
      ]
