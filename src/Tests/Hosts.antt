-- ===== src/Tests/Hosts.antt =====
-- Host configurations and keys at concrete inputs.
use snk_fork_dolphin.Base.{◌≡◌, refl, [], ◌∷◌}
use snk_fork_dolphin.Base.Int.{pos}
use snk_fork_dolphin.Base.Text.{text_eq, codes, Lacks}
use snk_fork_dolphin.Base.Table.{lookup, insert}
use snk_fork_dolphin.EtcdKey.Injective.{deploy_host_expect_path_of-injective}
use snk_fork_dolphin.HostConfig.{HcManager, set_host_config, delete_host_configs, key_map}
use snk_fork_dolphin.HostConfig.Mirror.{
  Mirrors, set_host_config-Mirrors, delete_host_configs-Mirrors,
}
use snk_fork_dolphin.Types.Stage.{dev}
use snk_fork_dolphin.Tests.{
  plain_store, plain_laws, host_a, host_b, ver_1, key, spec, empty_manager, host_a-Lacks,
  host_b-Lacks,
}

-- The manager once the first instance is expected on a host.
abbrev one_manager : HcManager plain_store
one_manager = (set_host_config plain_store key host_a (spec ((ver_1, pos 1) ∷ [])) empty_manager).0

empty-Mirrors : Mirrors plain_store empty_manager
unfolding lookup key_map
empty-Mirrors h k l = refl

one-Mirrors : Mirrors plain_store one_manager
one-Mirrors =
    set_host_config-Mirrors plain_store plain_laws key host_a (spec ((ver_1, pos 1) ∷ []))
      empty_manager host_a-Lacks (unfold set_host_config in refl) empty-Mirrors

set_host_config-Mirrors_example :
    Mirrors plain_store
      (set_host_config plain_store key host_b (spec ((ver_1, pos 1) ∷ [])) one_manager).0
set_host_config-Mirrors_example =
    set_host_config-Mirrors plain_store plain_laws key host_b (spec ((ver_1, pos 1) ∷ []))
      one_manager host_b-Lacks (unfold set_host_config in refl) one-Mirrors

delete_host_configs-Mirrors_example :
    Mirrors plain_store (delete_host_configs plain_store key (host_a ∷ []) one_manager).0
unfolding delete_host_configs set_host_config lookup text_eq key_map insert
delete_host_configs-Mirrors_example =
    delete_host_configs-Mirrors plain_store plain_laws key (host_a ∷ []) one_manager
      (host_a-Lacks, tt) refl one-Mirrors

java-Lacks : Lacks b'/' (codes "java")
java-Lacks = (λ e. cc, (λ e. cc, (λ e. cc, (λ e. cc, tt))))

crm-Lacks : Lacks b'/' (codes "crm")
crm-Lacks = (λ e. cc, (λ e. cc, (λ e. cc, tt)))

deploy_host_expect_path_of-injective_example : (host_a ≡ host_a) × (key ≡ key)
deploy_host_expect_path_of-injective_example =
    deploy_host_expect_path_of-injective dev host_a host_a key key host_a-Lacks host_a-Lacks refl
