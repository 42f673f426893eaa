-- ===== src/HostConfig/Mirror.antt =====
-- The tables of `hcManager` in controllers/types/impl/hc.go against what etcd holds.
use snk_fork_dolphin.Base.{
  ◌≡◌, refl, Bool, false, ◌&&◌, ◌||◌, List, [], ◌∷◌, none, some, arith, if◌then◌else◌, Option-cases,
  inl, inr, All, append-eq_nil,
}
use snk_fork_dolphin.Base.Text.{Text, text_eq, text_eq_iff, Lacks}
use snk_fork_dolphin.Base.Table.{Table, lookup, delete, lookup-insert, lookup-delete}
use snk_fork_dolphin.EtcdKey.{deploy_host_expect_path_of}
use snk_fork_dolphin.EtcdKey.Injective.{text_eq-deploy_host_expect_path_of}
use snk_fork_dolphin.Types.Deploy.{DeploySpec}
use snk_fork_dolphin.HostConfig.{
  Store, HcManager, key_map, set_host_config, delete_host_deployspec, delete_hosts,
  delete_host_configs,
}
use snk_fork_dolphin.HostConfig.Tables.{
  delete_all, key_map-set_host_config, key_map-delete_host_configs, stage-set_host_config,
  stage-delete_host_configs,
}

-- What a key-value store promises of a write that it answers without an error.
pub record StoreLaws (D : Store) : Type 0 where
  pub read-update :
      (p q : Text) (c : DeploySpec) (s : D.State)
      → (D.update p c s).1 ≡ []
      → D.read q (D.update p c s).0 ≡ (if text_eq p q then some c else D.read q s)
  pub read-remove :
      (p q : Text) (s : D.State)
      → (D.remove p s).1 ≡ []
      → D.read q (D.remove p s).0 ≡ (if text_eq p q then none else D.read q s)

abbrev pub mem : Text → List Text → Bool
mem i [] = false
mem i (h ∷ hs) = text_eq h i || mem i hs

lookup-delete_all :
    (hs : List Text) (i : Text) (t : Table DeploySpec)
    → lookup i (delete_all hs t) ≡ (if mem i hs then none else lookup i t)
lookup-delete_all [] i t = refl
lookup-delete_all (h ∷ hs) i t =
    ground (arith, lookup-delete_all hs i (delete h t), lookup-delete h i t)

module _ (D : Store) where
  open D use {read}

  -- At every key and host the store holds what the manager's tables hold.
  abbrev pub Mirrors : HcManager D → Type 0
  Mirrors m =
      (h k : Text)
      → Lacks b'/' h
      → read (deploy_host_expect_path_of m.stage h k) m.store ≡ lookup h (key_map D k m)

  module _ (laws : StoreLaws D) where
    read-set_host_config :
        (k h : Text) (cfg : DeploySpec) (m : HcManager D) (q : Text)
        → (set_host_config D k h cfg m).1 ≡ []
        → read q (set_host_config D k h cfg m).0.store ≡ (
            if text_eq (deploy_host_expect_path_of m.stage h k) q then some cfg else read q m.store)
    unfolding set_host_config
    read-set_host_config k h cfg m q ok =
        ground (arith, laws.read-update (deploy_host_expect_path_of m.stage h k) q cfg m.store)

    -- Where the store holds at every key and host with no slash in its id what the manager's tables
    -- hold, it does so after a `SetHostConfig` without an error for such a host, given that a write
    -- that the store answers without an error is read back and changes no other path.
    pub set_host_config-Mirrors :
        (k h : Text) (cfg : DeploySpec) (m : HcManager D)
        → Lacks b'/' h
        → (set_host_config D k h cfg m).1 ≡ []
        → Mirrors m
        → Mirrors (set_host_config D k h cfg m).0
    set_host_config-Mirrors k h cfg m l ok same i j l' = ground (
      arith,
      read-set_host_config k h cfg m (deploy_host_expect_path_of m.stage i j) ok,
      stage-set_host_config D k h cfg m,
      key_map-set_host_config D k j h cfg m,
      lookup-insert h i cfg (key_map D k m),
      same i j l',
      text_eq_iff k j,
      text_eq-deploy_host_expect_path_of m.stage h i k j l l',
    )

    read-delete_hosts :
        (hs : List Text) (k : Text) (t : Table DeploySpec) (m : HcManager D) (i j : Text)
        → All (Lacks b'/') hs
        → Lacks b'/' i
        → (delete_hosts D hs k t m).2 ≡ []
        → read (deploy_host_expect_path_of m.stage i j) (delete_hosts D hs k t m).1.store ≡ (
            if mem i hs && text_eq k j
            then none
            else read (deploy_host_expect_path_of m.stage i j) m.store)
    unfolding delete_hosts
    read-delete_hosts [] k t m i j l l' ok = refl
    read-delete_hosts (h ∷ hs) k t m i j l l' ok =
        let path = deploy_host_expect_path_of m.stage in
        let first = delete_host_deployspec D h k m in
        ground (
          arith,
          laws.read-remove (path h k) (path i j) m.store,
          text_eq-deploy_host_expect_path_of m.stage h i k j l.0 l',
          append-eq_nil first.1 (delete_hosts D hs k (delete h t) (record m { store = first.0 })).2,
          read-delete_hosts hs k (delete h t) (record m { store = first.0 }) i j l.1 l',
        )

    -- Where the store holds at every key and host with no slash in its id what the manager's tables
    -- hold, it does so after a `DeleteHostConfigs` without an error for such hosts, given that a
    -- path that the store deletes without an error is gone and no other path is changed.
    pub delete_host_configs-Mirrors :
        (k : Text) (hs : List Text) (m : HcManager D)
        → All (Lacks b'/') hs
        → (delete_host_configs D k hs m).1 ≡ []
        → Mirrors m
        → Mirrors (delete_host_configs D k hs m).0
    unfolding delete_host_configs
    delete_host_configs-Mirrors k hs m l ok same i j l' = elim (Option-cases (lookup k m.cfgs)) [
      | inl absent ↦ ground (arith, same i j l')
      | inr (hosts, found) ↦ ground (
        arith,
        read-delete_hosts hs k hosts m i j l l',
        stage-delete_host_configs D k hs m,
        key_map-delete_host_configs D k j hs m,
        lookup-delete_all hs i (key_map D k m),
        same i j l',
        text_eq_iff k j,
      )
    ]
