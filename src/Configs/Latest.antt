-- ===== src/Configs/Latest.antt =====
-- The manager of controllers/types/impl/dc.go against what was loaded and then told.
use snk_fork_dolphin.Base.{
  ◌≡◌, ◌∙◌, refl, sym, ap, arith, false, List, [], ◌∷◌, Option, none, some, if◌then◌else◌,
}
use snk_fork_dolphin.Base.Outcome.{panicked}
use snk_fork_dolphin.Base.Text.{Text, text_eq, trim_prefix, trim_prefix-append}
use snk_fork_dolphin.Base.Table.{Table, lookup, insert, lookup-insert, lookup-delete}
use snk_fork_dolphin.EtcdKey.{deploy_config_dir, depoy_config_of_key}
use snk_fork_dolphin.Types.Deploy.{DeployConfig, key_of}
use snk_fork_dolphin.Types.Externals.{Externals}
use snk_fork_dolphin.Types.Stage.{Stage}
use snk_fork_dolphin.Configs.{
  ConfigManager, ConfigEvent, config_added, config_modified, config_deleted, config_error,
  load_configs, new_deploy_config_manager, start_watch, stop_watch, handle_config, watch_configs,
  get_deploy_config,
}

module _ (X : Externals) where
  -- What happens to the configuration of a key in etcd.
  pub data Change : Type 0 where
    created changed : Text → DeployConfig X → Change
    removed : Text → Change
    failed : Change

  -- The event of a change, whose key is the path of the configuration.
  abbrev pub event_of : Stage → Change → ConfigEvent X
  event_of stage (created k dc) = config_added (depoy_config_of_key stage k) dc
  event_of stage (changed k dc) = config_modified (depoy_config_of_key stage k) dc
  event_of stage (removed k) = config_deleted (depoy_config_of_key stage k)
  event_of stage failed = config_error

  abbrev pub events_of : Stage → List Change → List (ConfigEvent X)
  events_of stage [] = []
  events_of stage (c ∷ cs) = event_of stage c ∷ events_of stage cs

  -- The configuration of a key after what was listed, and then after the changes.
  abbrev pub listed_last :
      Text → List (DeployConfig X) → Option (DeployConfig X) → Option (DeployConfig X)
  listed_last key [] known = known
  listed_last key (v ∷ ret) known =
      listed_last key ret (if text_eq (key_of X v) key then some v else known)

  abbrev pub told : Text → Change → Option (DeployConfig X) → Option (DeployConfig X)
  told key (created k dc) known = if text_eq k key then some dc else known
  told key (changed k dc) known = if text_eq k key then some dc else known
  told key (removed k) known = if text_eq k key then none else known
  told key failed known = known

  abbrev pub changed_last : Text → List Change → Option (DeployConfig X) → Option (DeployConfig X)
  changed_last key [] known = known
  changed_last key (c ∷ cs) known = changed_last key cs (told key c known)

  trim_prefix-depoy_config_of_key :
      (stage : Stage) (k : Text)
      → trim_prefix (depoy_config_of_key stage k) (deploy_config_dir stage) ≡ k
  unfolding depoy_config_of_key
  trim_prefix-depoy_config_of_key stage k = trim_prefix-append (deploy_config_dir stage) k

  lookup-load_configs :
      (key : Text) (ret : List (DeployConfig X)) (dc : Table (DeployConfig X))
      → lookup key (load_configs X ret dc) ≡ listed_last key ret (lookup key dc)
  unfolding load_configs
  lookup-load_configs key [] dc = refl
  lookup-load_configs key (v ∷ ret) dc =
      lookup-load_configs key ret (insert (key_of X v) v dc)
      ∙ ap (listed_last key ret) (lookup-insert (key_of X v) key v dc)

  handle_config_lem :
      (stage : Stage) (key : Text) (c : Change) (m : ConfigManager X)
      → m.stage ≡ stage
      → (lookup key (handle_config X (event_of stage c) m).dc ≡ told key c (lookup key m.dc))
        × ((handle_config X (event_of stage c) m).stage ≡ stage)
  unfolding handle_config
  handle_config_lem stage key (created k dat) m same =
      (ground (arith, trim_prefix-depoy_config_of_key stage k, lookup-insert k key dat m.dc), same)
  handle_config_lem stage key (changed k dat) m same =
      (ground (arith, trim_prefix-depoy_config_of_key stage k, lookup-insert k key dat m.dc), same)
  handle_config_lem stage key (removed k) m same =
      (ground (arith, trim_prefix-depoy_config_of_key stage k, lookup-delete k key m.dc), same)
  handle_config_lem stage key failed m same = (refl, same)

  lookup-watch_configs :
      (stage : Stage) (key : Text) (cs : List Change) (m : ConfigManager X)
      → m.stage ≡ stage
      → lookup key (watch_configs X (events_of stage cs) m).dc
        ≡ changed_last key cs (lookup key m.dc)
  unfolding watch_configs
  lookup-watch_configs stage key [] m same = refl
  lookup-watch_configs stage key (c ∷ cs) m same =
      let step = handle_config_lem stage key c m same in
      lookup-watch_configs stage key cs (handle_config X (event_of stage c) m) step.1
      ∙ ap (changed_last key cs) step.0

  -- A new manager of the deploy configurations that watches gives for each key, after any changes
  -- in etcd, the configuration that was created or changed last, or nothing where it was removed
  -- since, and the one listed last when it was made where nothing has happened to it. Before it
  -- watches, `Destroy` panics.
  pub get_deploy_config-changed_last :
      (stage : Stage) (ret : List (DeployConfig X)) (cs : List Change) (key : Text)
      (m : ConfigManager X)
      → new_deploy_config_manager X stage (some ret) ≡ (some m, [])
      → (get_deploy_config X key (watch_configs X (events_of stage cs) (start_watch X m))
          ≡ changed_last key cs (listed_last key ret none))
        × (stop_watch X m ≡ panicked)
  unfolding new_deploy_config_manager get_deploy_config start_watch stop_watch lookup
  get_deploy_config-changed_last stage ret cs key m made =
      let made_stage : stage ≡ m.stage = ground arith in
      let made_dc : load_configs X ret [] ≡ m.dc = ground arith in
      let unwatched : m.watching ≡ false = ground arith in
      (
        lookup-watch_configs stage key cs (start_watch X m) (sym made_stage)
            ∙ ap (changed_last key cs)
                (ap (lookup key) (sym made_dc) ∙ lookup-load_configs key ret []),
        ground arith,
      )
