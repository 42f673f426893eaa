-- ===== src/EtcdKey/Injective.antt =====
-- The paths of host deployments in registry/etcdkey, compared with one another.
use mathlib.Core.List.{append_assoc}
use snk_fork_dolphin.Base.{◌≡◌, sym, ◌∙◌, ◌++◌, ◌&&◌, arith, ◌∷◌}
use snk_fork_dolphin.Base.Text.{
  Text, Lacks, Lacks-append_injective, append_left_cancel, text_eq, text_eq_iff,
}
use snk_fork_dolphin.Types.Stage.{Stage}
use snk_fork_dolphin.EtcdKey.{
  deploy_host_expect_dir, deploy_host_expect_path_of, deploy_host_expect_dir_of,
}

pub deploy_host_expect_path_of-split :
    (stage : Stage) (h k : Text)
    → deploy_host_expect_path_of stage h k ≡ deploy_host_expect_dir stage ++ (h ++ (b'/' ∷ k))
unfolding deploy_host_expect_path_of deploy_host_expect_dir_of
deploy_host_expect_path_of-split stage h k = simp append_assoc

-- Two deployments of one stage are expected at one path only if they are the same key on the same
-- host, given host ids with no slash.
pub deploy_host_expect_path_of-injective :
    (stage : Stage) (h h' k k' : Text)
    → Lacks b'/' h
    → Lacks b'/' h'
    → deploy_host_expect_path_of stage h k ≡ deploy_host_expect_path_of stage h' k'
    → (h ≡ h') × (k ≡ k')
deploy_host_expect_path_of-injective stage h h' k k' l l' e =
    Lacks-append_injective b'/' h h' l l' (
      append_left_cancel (deploy_host_expect_dir stage) (
        sym (deploy_host_expect_path_of-split stage h k)
        ∙ e
        ∙ deploy_host_expect_path_of-split stage h' k'))

pub text_eq-deploy_host_expect_path_of :
    (stage : Stage) (h i k j : Text)
    → Lacks b'/' h
    → Lacks b'/' i
    → text_eq (deploy_host_expect_path_of stage h k) (deploy_host_expect_path_of stage i j)
      ≡ (text_eq h i && text_eq k j)
text_eq-deploy_host_expect_path_of stage h i k j l l' = ground (
  arith,
  text_eq_iff h i,
  text_eq_iff k j,
  text_eq_iff (deploy_host_expect_path_of stage h k) (deploy_host_expect_path_of stage i j),
  deploy_host_expect_path_of-injective stage h i k j l l',
)
