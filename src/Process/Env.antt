-- ===== src/Process/Env.antt =====
-- What the agent reads of the environment of a process: process/scan.go.
use snk_fork_dolphin.Base.{
  ◌≡◌, ◌∙◌, refl, ap, ◌++◌, true, false, List, [], ◌∷◌, some, arith, if◌then◌else◌, ◌==◌, length,
  length-append, All,
}
use snk_fork_dolphin.Base.Outcome.{done, panicked}
use snk_fork_dolphin.Base.Path.{split, split-append}
use snk_fork_dolphin.Base.Table.{Table, lookup}
use snk_fork_dolphin.Base.Text.{Text, Lacks, index}
use snk_fork_dolphin.Process.{put_envs, get_env_map, info_env, get_deploy_key, env_value}

-- How the kernel writes the variables: each with a zero byte behind it.
pub environ : List Text → Text
environ [] = []
environ (v ∷ vs) = v ++ 0 ∷ environ vs

split-environ : (vs : List Text) → All (Lacks 0) vs → split 0 (environ vs) ≡ vs ++ [] ∷ []
unfolding environ split
split-environ [] h = refl
split-environ (v ∷ vs) h = split-append 0 v (environ vs) h.0 ∙ ap (◌∷◌ v) (split-environ vs h.1)

put_envs-skipped : (es : List Text) (ret : Table Text) → put_envs false es ret ≡ done ret
unfolding put_envs
put_envs-skipped [] ret = refl
put_envs-skipped (e ∷ es) ret = put_envs-skipped es ret

put_envs-one : (v : Text) (ret : Table Text) → put_envs true (v ∷ [] ∷ []) ret ≡ panicked
unfolding put_envs index
put_envs-one v ret = ground arith

-- `getEnvMap` of what the kernel writes panics if there is exactly one variable, and else has no
-- variable at all.
pub get_env_map-environ :
    (vs : List Text)
    → All (Lacks 0) vs
    → get_env_map (some (environ vs)) ≡ (if length vs == 1 then panicked else done (some []))
unfolding get_env_map
get_env_map-environ [] h = rw (split-environ [] h) (rw (put_envs-skipped ([] ∷ []) []) refl)
get_env_map-environ (v ∷ []) h = rw (split-environ (v ∷ []) h, put_envs-one v []) refl
get_env_map-environ (v ∷ w ∷ vs) h =
    let many : (length (v ∷ w ∷ (vs ++ [] ∷ [])) == 2) ≡ false =
      ground (arith, length-append vs ([] ∷ [])) in
    rw (split-environ (v ∷ w ∷ vs) h, many, put_envs-skipped (v ∷ w ∷ (vs ++ [] ∷ [])) [])
      (ground arith)

-- Of a process with more than one variable, or with none, the deploy key is read as empty,
-- whatever the variables are, and of a process with exactly one the reading panics. The kernel
-- writes each variable with a zero byte behind it and none inside.
pub get_deploy_key-environ :
    (vs : List Text)
    → All (Lacks 0) vs
    → get_deploy_key (some (environ vs)) ≡ (if length vs == 1 then panicked else done [])
unfolding get_deploy_key info_env env_value lookup
get_deploy_key-environ vs h = ground (arith, get_env_map-environ vs h)
