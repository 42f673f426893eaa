-- ===== src/HostConfig/Load.antt =====
-- What `loadHostDeploySpec` makes of the names under which the manager has saved specifications.
-- The code is in controllers/types/impl/hc.go.
use mathlib.Core.List.{append_assoc}
use native.Mathlib.Numerals.{add-one}
use snk_fork_dolphin.Base.{
  ◌≡◌, ◌≢◌, sym, ap, ◌∙◌, ◌++◌, ◌∷◌, some, arith, length, take-length_append, drop-suc-length,
  length-append,
}
use snk_fork_dolphin.Base.Text.{
  Text, Lacks, trim_prefix, trim_prefix-append, last_index-append, Lacks-append_injective,
}
use snk_fork_dolphin.EtcdKey.{deploy_host_expect_path_of, deploy_host_expect_dir}
use snk_fork_dolphin.EtcdKey.Injective.{deploy_host_expect_path_of-split}
use snk_fork_dolphin.Types.Deploy.{deploy_key}
use snk_fork_dolphin.Types.Stage.{Stage}
use snk_fork_dolphin.HostConfig.{load_name}

-- The name that the store lists for a deploy key on a host: its path below the listed directory.
abbrev pub listed_name : Stage → Text → Text → Text
listed_name stage h k =
    trim_prefix (deploy_host_expect_path_of stage h k) (deploy_host_expect_dir stage)

listed_name-append : (stage : Stage) (h k : Text) → listed_name stage h k ≡ h ++ (b'/' ∷ k)
listed_name-append stage h k =
    ap (λ p. trim_prefix p (deploy_host_expect_dir stage))
      (deploy_host_expect_path_of-split stage h k)
    ∙ trim_prefix-append (deploy_host_expect_dir stage) (h ++ (b'/' ∷ k))

load_name-append : (s t : Text) → Lacks b'/' t → load_name (s ++ (b'/' ∷ t)) ≡ some (s, t)
unfolding load_name
load_name-append s t l = ground (
  arith,
  last_index-append b'/' s t l,
  take-length_append s (b'/' ∷ t),
  drop-suc-length s b'/' t,
  length-append s (b'/' ∷ t),
  add-one (length s),
)

load_name-deploy_key :
    (h t n : Text)
    → Lacks b'/' n
    → load_name (h ++ (b'/' ∷ deploy_key t n)) ≡ some (deploy_key h t, n)
unfolding deploy_key
load_name-deploy_key h t n l =
    ap load_name (sym (append_assoc h (b'/' ∷ t) (b'/' ∷ n)))
    ∙ load_name-append (h ++ (b'/' ∷ t)) n l

deploy_key-head :
    (h t n k : Text) → Lacks b'/' h → Lacks b'/' t → deploy_key h k ≡ deploy_key t n → h ≡ t
unfolding deploy_key
deploy_key-head h t n k lh lt e = (Lacks-append_injective b'/' h t lh lt e).0

-- The specification saved for the key `t/n` on the host `h` is loaded back for the key `h/t` on a
-- host `n`, where host id, type and name have no slash and the host id is not the project type.
-- That is not where it was saved.
pub load_name_misplaces :
    (stage : Stage) (h t n : Text)
    → Lacks b'/' h
    → Lacks b'/' t
    → Lacks b'/' n
    → h ≢ t
    → (load_name (listed_name stage h (deploy_key t n)) ≡ some (deploy_key h t, n))
      × (load_name (listed_name stage h (deploy_key t n)) ≢ some (deploy_key t n, h))
load_name_misplaces stage h t n lh lt ln ne =
    let loaded : load_name (listed_name stage h (deploy_key t n)) ≡ some (deploy_key h t, n) =
      ap load_name (listed_name-append stage h (deploy_key t n)) ∙ load_name-deploy_key h t n ln in
    (loaded, λ e. ne (deploy_key-head h t n t lh lt (cc loaded)))
