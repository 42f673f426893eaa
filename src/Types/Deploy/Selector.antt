-- ===== src/Types/Deploy/Selector.antt =====
-- `Selector.ToSelector` of types/deploy.go.
use mathlib.Core.List.{reverse, append-nil}
use snk_fork_dolphin.Base.{
  ◌-◌, ◌≡◌, ◌≢◌, refl, arith, All, Bool, true, ◌++◌, ◌||◌, [], ◌∷◌, Option, none, some,
  if◌then◌else◌, ◌==◌, length, take,
}
use snk_fork_dolphin.Base.Text.{Text, codes, has_prefix}
use snk_fork_dolphin.Base.Table.{Table}
use snk_fork_dolphin.Types.Fault.{Errors, selector_key_empty, outside}
use snk_fork_dolphin.Types.Externals.{Externals}

-- `strings.TrimSuffix`
unfoldable pub trim_suffix : Text → Text → Text
trim_suffix s p = if has_prefix (reverse s) (reverse p) then take (length s - length p) s else s

-- `len(parts[0]) == 0`: the whole match of `^(=|!=|in |notin )?.*` is the first line of the value.
unfoldable pub no_match : Text → Bool
no_match [] = true
no_match (c ∷ s) = c == b'\n'

-- `len(parts[1]) != 0`: the value begins with one of the four operators.
unfoldable pub has_operator : Text → Bool
has_operator v =
    has_prefix v (codes "=")
    || has_prefix v (codes "!=")
    || has_prefix v (codes "in ")
    || has_prefix v (codes "notin ")

-- What one entry adds to `raw`.
unfoldable pub requirement : Text → Text → Text
unfolding no_match has_operator
requirement k v =
    if no_match v
    then k ++ (b',' ∷ [])
    else if has_operator v
    then []
    else k ++ (b'=' ∷ (v ++ (b',' ∷ [])))

-- The loop over the selector, in the order given. `none` is the error on an empty key.
unfoldable pub raw_selector : Text → Table Text → Option Text
unfolding requirement
raw_selector raw [] = some raw
raw_selector raw (([], v) ∷ s) = none
raw_selector raw ((c ∷ k, v) ∷ s) = raw_selector (raw ++ requirement (c ∷ k) v) s

module _ (X : Externals) where
  open X use {LabelSelector, parse_labels}

  -- `Selector.ToSelector`
  unfoldable pub to_selector : Table Text → Option LabelSelector × Errors
  unfolding raw_selector trim_suffix
  to_selector s = elim (raw_selector [] s) [
    | none ↦ (none, selector_key_empty ∷ [])
    | some raw ↦ elim (parse_labels (trim_suffix raw (codes ","))) [
      | none ↦ (none, outside 0 ∷ [])
      | some r ↦ (some r, [])
    ]
  ]

-- Every key is there, and every value begins with one of the operators.
abbrev pub AllOperators : Table Text → Type 0
AllOperators = All (λ e. (e.0 ≢ []) × (has_operator e.1 ≡ true))

requirement-has_operator : (k v : Text) → has_operator v ≡ true → requirement k v ≡ []
unfolding requirement has_prefix
requirement-has_operator k [] h = cc
requirement-has_operator k (c ∷ v) h = ground arith

raw_selector-AllOperators :
    (raw : Text) (s : Table Text) → AllOperators s → raw_selector raw s ≡ some raw
unfolding raw_selector
raw_selector-AllOperators raw [] h = refl
raw_selector-AllOperators raw (([], v) ∷ s) h = absurd (h.0.0 refl)
raw_selector-AllOperators raw ((c ∷ k, v) ∷ s) h =
    rw (requirement-has_operator (c ∷ k) v h.0.1, append-nil) (raw_selector-AllOperators raw s h.1)

module _ (X : Externals) where
  -- A selector all of whose values begin with `=`, `!=`, `in ` or `notin ` is turned into the
  -- selector that the label library reads from the empty text: the constraints are dropped.
  pub to_selector_drops_operators :
      (s : Table Text) → AllOperators s → to_selector X s ≡ to_selector X []
  unfolding to_selector
  to_selector_drops_operators s h =
      rw (raw_selector-AllOperators [] s h, raw_selector, to_selector) refl

  -- With no error there is a selector.
  pub to_selector_ok : (s : Table Text) → (to_selector X s).1 ≡ [] → (to_selector X s).0 ≢ none
  unfolding to_selector
  to_selector_ok s h = ground arith
