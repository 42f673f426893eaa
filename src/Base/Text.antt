-- ===== src/Base/Text.antt =====
-- Texts as lists of bytes, and the functions of Go's `strings` that the program calls on them.
use Prim.Native.Char.{code}
use Prim.Native.String.{String}
use Prim.Native.Nat.{ℕ, suc, ◌≤◌}
use mathlib.Core.Path.{◌≡◌, refl}
use mathlib.Core.Logic.{◌↔◌, inl, inr, ◌≢◌}
use mathlib.Core.Bool.{Bool, true, false, ◌&&◌}
use mathlib.Core.List.{List, [], ◌∷◌, ◌++◌}
use mathlib.Core.Option.{Option, none, some}
use native.Mathlib.Omega.{arith}
use snk_fork_dolphin.Base.Tests.{◌==◌, if◌then◌else◌, Option-cases}
use snk_fork_dolphin.Base.Lists.{length, take, drop, drop-length_append}

abbrev pub Text : Type 0
Text = List ℕ

-- The bytes of an ASCII literal.
abbrev pub codes : String → Text
codes String.[] = []
codes (String.◌∷◌ c s) = code c ∷ codes s

unfoldable pub text_eq : Text → Text → Bool
text_eq [] [] = true
text_eq (x ∷ xs) (y ∷ ys) = x == y && text_eq xs ys
text_eq _ _ = false

pub text_eq_iff : (a b : Text) → (text_eq a b ≡ true) ↔ (a ≡ b)
unfolding text_eq
text_eq_iff (x ∷ a) (y ∷ b) = ground (arith, text_eq_iff a b)
text_eq_iff _ _ = ground arith

pub text_eq_refl : (a : Text) → text_eq a a ≡ true
text_eq_refl a = (text_eq_iff a a).1 refl

-- `strings.HasPrefix`
unfoldable pub has_prefix : Text → Text → Bool
has_prefix s [] = true
has_prefix [] (p ∷ ps) = false
has_prefix (c ∷ s) (p ∷ ps) = c == p && has_prefix s ps

pub has_prefix-append : (p s : Text) → has_prefix (p ++ s) p ≡ true
unfolding has_prefix
has_prefix-append [] [] = refl
has_prefix-append [] (c ∷ s) = refl
has_prefix-append (c ∷ p) s = ground (arith, has_prefix-append p s)

-- `strings.TrimPrefix`
unfoldable pub trim_prefix : Text → Text → Text
trim_prefix s p = if has_prefix s p then drop (length p) s else s

pub trim_prefix-append : (p s : Text) → trim_prefix (p ++ s) p ≡ s
unfolding trim_prefix
trim_prefix-append p s = ground (arith, has_prefix-append p s, drop-length_append p s)

-- `strings.Index` of one byte.
unfoldable pub index : ℕ → Text → Option ℕ
index b [] = none
index b (c ∷ s) =
    if c == b then some 0 else elim (index b s) [ none ↦ none | some i ↦ some (suc i) ]

-- `strings.LastIndex` of one byte.
unfoldable pub last_index : ℕ → Text → Option ℕ
last_index b [] = none
last_index b (c ∷ s) = elim (last_index b s) [
  | none ↦ if c == b then some 0 else none
  | some i ↦ some (suc i)
]

-- The byte stands nowhere in the text.
abbrev pub Lacks : ℕ → Text → Type 0
Lacks b [] = Unit
Lacks b (c ∷ s) = (c ≢ b) × Lacks b s

pub index-append : (b : ℕ) (s t : Text) → Lacks b s → index b (s ++ b ∷ t) ≡ some (length s)
unfolding index
index-append b [] t h = ground arith
index-append b (c ∷ s) t h = ground (arith, index-append b s t h.1)

pub last_index-Lacks : (b : ℕ) (s : Text) → Lacks b s → last_index b s ≡ none
unfolding last_index
last_index-Lacks b [] h = refl
last_index-Lacks b (c ∷ s) h = ground (arith, last_index-Lacks b s h.1)

pub last_index-append :
    (b : ℕ) (s t : Text) → Lacks b t → last_index b (s ++ b ∷ t) ≡ some (length s)
unfolding last_index
last_index-append b [] t h = ground (arith, last_index-Lacks b t h)
last_index-append b (c ∷ s) t h = ground (arith, last_index-append b s t h)

-- Where a byte is found the text splits around it.
pub index-split :
    (b : ℕ) (s : Text) {i : ℕ}
    → index b s ≡ some i
    → (s ≡ take i s ++ (b ∷ drop (suc i) s)) × (suc i ≤ length s)
unfolding index
index-split b [] e = cc
index-split b (c ∷ s) e = elim (Option-cases (index b s)) [
  | inl absent ↦ ground arith
  | inr (j, found) ↦ ground (arith, index-split b s found)
]

-- Two texts that are split at the first `b` have the same parts.
pub Lacks-append_injective :
    (b : ℕ) (s s' : Text) {t t' : Text}
    → Lacks b s
    → Lacks b s'
    → s ++ b ∷ t ≡ s' ++ b ∷ t'
    → (s ≡ s') × (t ≡ t')
Lacks-append_injective b [] [] h h' e = ground arith
Lacks-append_injective b [] (c ∷ s') h h' e = ground arith
Lacks-append_injective b (c ∷ s) [] h h' e = ground arith
Lacks-append_injective b (c ∷ s) (c' ∷ s') {t = t} {t' = t'} h h' e =
    ground (arith, Lacks-append_injective b s s' {t = t} {t' = t'} h.1 h'.1)

pub append_left_cancel : (p : Text) {s t : Text} → p ++ s ≡ p ++ t → s ≡ t
append_left_cancel [] e = e
append_left_cancel (c ∷ p) {s = s} {t = t} e = ground (arith, append_left_cancel p {s = s} {t = t})
