-- ===== src/Types/Deploy/Key.antt =====
-- Deploy keys of types/deploy.go: printing and parsing.
use snk_fork_dolphin.Base.{
  ◌+◌, ◌≡◌, ◌≢◌, ap, [], ◌∷◌, some, length, arith, length-append, length-drop, Option-cases,
  take-length_append, drop-suc-length, inl, inr,
}
use native.Mathlib.Numerals.{add-one}
use snk_fork_dolphin.Base.Text.{Text, index, index-append, index-split, Lacks}
use snk_fork_dolphin.Types.Deploy.{deploy_key, parse_deploy_key}

-- The key of a type with no slash and a name that is not empty is parsed into the two, whatever
-- slashes the name holds.
parse_deploy_key-deploy_key :
    (t n : Text) → Lacks b'/' t → n ≢ [] → parse_deploy_key (deploy_key t n) ≡ some (t, n)
unfolding parse_deploy_key deploy_key
parse_deploy_key-deploy_key t n h ne = ground (
  arith,
  index-append b'/' t n h,
  take-length_append t (b'/' ∷ n),
  drop-suc-length t b'/' n,
  length-append t (b'/' ∷ n),
  add-one (length t),
)

-- What is parsed out of a key makes up the key, and its name is not empty.
pub deploy_key-parse_deploy_key :
    (key : Text) {t n : Text}
    → parse_deploy_key key ≡ some (t, n)
    → (deploy_key t n ≡ key) × (n ≢ [])
unfolding parse_deploy_key deploy_key
deploy_key-parse_deploy_key key e = elim (Option-cases (index b'/' key)) [
  | inl absent ↦ ground arith
  | inr (i, found) ↦
      let (split, room) = index-split b'/' key found in
      let size = length-drop (i + 1) key in
      (ground (arith, add-one i), λ empty. ground (arith, ap length empty, size))
]
