-- ===== src/HostConfig/Tables.antt =====
-- What the operations of the manager do to the map of each key (controllers/types/impl/hc.go).
use snk_fork_dolphin.Base.{
  ◌≡◌, refl, List, [], ◌∷◌, none, some, arith, if◌then◌else◌, Option-cases, inl, inr,
}
use snk_fork_dolphin.Base.Text.{Text, text_eq, text_eq_iff}
use snk_fork_dolphin.Base.Table.{
  Table, lookup, insert, delete, lookup-insert, lookup-delete, is_empty-insert,
}
use snk_fork_dolphin.Types.Deploy.{DeploySpec}
use snk_fork_dolphin.HostConfig.{
  Store, HcManager, key_map, set_host_config, get_host_config, delete_hosts, delete_host_configs,
  list_host_configs, no_spec,
}

abbrev pub delete_all : List Text → Table DeploySpec → Table DeploySpec
delete_all [] t = t
delete_all (h ∷ hs) t = delete_all hs (delete h t)

delete_all-nil : (hs : List Text) → delete_all hs [] ≡ []
unfolding delete
delete_all-nil [] = refl
delete_all-nil (h ∷ hs) = delete_all-nil hs

module _ (D : Store) where
  delete_hosts-delete_all :
      (hs : List Text) (key : Text) (t : Table DeploySpec) (m : HcManager D)
      → (delete_hosts D hs key t m).0 ≡ delete_all hs t
  unfolding delete_hosts
  delete_hosts-delete_all [] key t m = refl
  delete_hosts-delete_all (h ∷ hs) key t m = delete_hosts-delete_all hs key (delete h t) _

  delete_hosts-stage :
      (hs : List Text) (key : Text) (t : Table DeploySpec) (m : HcManager D)
      → (delete_hosts D hs key t m).1.stage ≡ m.stage
  unfolding delete_hosts
  delete_hosts-stage [] key t m = refl
  delete_hosts-stage (h ∷ hs) key t m = delete_hosts-stage hs key (delete h t) _

  -- `SetHostConfig` puts the specification into the key's map, whatever the store answers, and
  -- leaves the maps of the other keys.
  pub key_map-set_host_config :
      (k j h : Text) (cfg : DeploySpec) (m : HcManager D)
      → key_map D j (set_host_config D k h cfg m).0
        ≡ (if text_eq k j then insert h cfg (key_map D k m) else key_map D j m)
  unfolding set_host_config key_map
  key_map-set_host_config k j h cfg m =
      ground (arith, lookup-insert k j (insert h cfg (key_map D k m)) m.cfgs)

  -- `DeleteHostConfigs` takes the hosts out of the key's map, whatever the store answers, and
  -- leaves the maps of the other keys.
  pub key_map-delete_host_configs :
      (k j : Text) (hs : List Text) (m : HcManager D)
      → key_map D j (delete_host_configs D k hs m).0
        ≡ (if text_eq k j then delete_all hs (key_map D k m) else key_map D j m)
  unfolding delete_host_configs key_map
  key_map-delete_host_configs k j hs m = elim (Option-cases (lookup k m.cfgs)) [
    | inl absent ↦ ground (arith, text_eq_iff k j, delete_all-nil hs)
    | inr (hosts, found) ↦ ground (
      arith,
      lookup-delete k j m.cfgs,
      lookup-insert k j (delete_all hs hosts) m.cfgs,
      delete_hosts-delete_all hs k hosts m,
    )
  ]

  pub stage-set_host_config :
      (k h : Text) (cfg : DeploySpec) (m : HcManager D)
      → (set_host_config D k h cfg m).0.stage ≡ m.stage
  unfolding set_host_config
  stage-set_host_config k h cfg m = refl

  pub stage-delete_host_configs :
      (k : Text) (hs : List Text) (m : HcManager D)
      → (delete_host_configs D k hs m).0.stage ≡ m.stage
  unfolding delete_host_configs
  stage-delete_host_configs k hs m = elim (Option-cases (lookup k m.cfgs)) [
    | inl absent ↦ ground arith
    | inr (hosts, found) ↦ ground (arith, delete_hosts-stage hs k hosts m)
  ]

  -- What `GetHostConfig` gives after `SetHostConfig`, whatever the store answers: the new
  -- specification at the same key and host, the zero specification at another host of the key
  -- that has none, and at all else what it gave before.
  pub get-set_host_config :
      (k h j i : Text) (cfg : DeploySpec) (m : HcManager D)
      → get_host_config D j i (set_host_config D k h cfg m).0 ≡ (
          if text_eq k j
          then if text_eq h i
            then some cfg
            else some (elim (lookup i (key_map D k m)) [ none ↦ no_spec | some c ↦ c ])
          else get_host_config D j i m)
  unfolding get_host_config
  get-set_host_config k h j i cfg m = ground (
    arith,
    key_map-set_host_config k j h cfg m,
    lookup-insert h i cfg (key_map D k m),
    is_empty-insert h cfg (key_map D k m),
  )

  pub key_map-set_self :
      (k h : Text) (cfg : DeploySpec) (m : HcManager D)
      → key_map D k (set_host_config D k h cfg m).0 ≡ insert h cfg (key_map D k m)
  key_map-set_self k h cfg m = ground (arith, key_map-set_host_config k k h cfg m, text_eq_iff k k)

  pub key_map-delete_self :
      (k h : Text) (m : HcManager D)
      → key_map D k (delete_host_configs D k (h ∷ []) m).0 ≡ delete h (key_map D k m)
  key_map-delete_self k h m =
      ground (arith, key_map-delete_host_configs k k (h ∷ []) m, text_eq_iff k k)

  pub list_host_configs_lem : (k : Text) (m : HcManager D) → list_host_configs D k m ≡ key_map D k m
  unfolding list_host_configs
  list_host_configs_lem k m = refl
