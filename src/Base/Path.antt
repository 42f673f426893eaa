-- ===== src/Base/Path.antt =====
-- Texts cut at a byte, as Go's `strings.Split` and `strings.Join` do, and the paths of Go's package
-- `path`.
use mathlib.Core.Path.{◌≡◌, refl, ap, ◌∙◌}
use mathlib.Core.Bool.{Bool, true, false, ◌||◌}
use mathlib.Core.List.{List, [], ◌∷◌, ◌++◌}
use Prim.Native.Nat.{ℕ}
use native.Mathlib.Omega.{arith}
use mathlib.Core.Logic.{inl, inr}
use snk_fork_dolphin.Base.Tests.{◌==◌, if◌then◌else◌, Bool-cases}
use snk_fork_dolphin.Base.Lists.{All}
use snk_fork_dolphin.Base.Text.{Text, codes, text_eq, has_prefix, Lacks}

unfoldable pub cons_head : ℕ → List Text → List Text
cons_head c [] = (c ∷ []) ∷ []
cons_head c (p ∷ ps) = (c ∷ p) ∷ ps

-- `strings.Split` at one byte.
unfoldable pub split : ℕ → Text → List Text
split b [] = [] ∷ []
split b (c ∷ s) = let rest = split b s in if c == b then [] ∷ rest else cons_head c rest

-- `strings.Join` with one byte between.
unfoldable pub join : ℕ → List Text → Text
join b [] = []
join b (p ∷ []) = p
join b (p ∷ q ∷ ps) = p ++ b ∷ join b (q ∷ ps)

-- The elements that a `..` leaves of those before it, the last one first.
unfoldable pub up : Bool → List Text → List Text
up rooted [] = if rooted then [] else codes ".." ∷ []
up rooted (p ∷ ps) = if text_eq p (codes "..") then codes ".." ∷ p ∷ ps else ps

unfoldable pub step : Bool → List Text → Text → List Text
step rooted before p =
    if text_eq p [] || text_eq p (codes ".")
    then before
    else (if text_eq p (codes "..") then up rooted before else p ∷ before)

unfoldable pub reversed_onto : List Text → List Text → List Text
reversed_onto [] ps = ps
reversed_onto (q ∷ qs) ps = reversed_onto qs (q ∷ ps)

unfoldable pub resolve : Bool → List Text → List Text → List Text
resolve rooted before [] = reversed_onto before []
resolve rooted before (p ∷ ps) = resolve rooted (step rooted before p) ps

-- `path.Clean`
unfoldable pub clean : Text → Text
clean s =
    let rooted = has_prefix s (codes "/") in
    let body = join b'/' (resolve rooted [] (split b'/' s)) in
    if rooted then b'/' ∷ body else (if text_eq body [] then codes "." else body)

unfoldable pub without_empty : List Text → List Text
without_empty [] = []
without_empty (p ∷ ps) = let rest = without_empty ps in if text_eq p [] then rest else p ∷ rest

unfoldable pub joined : List Text → Text
joined [] = []
joined (p ∷ ps) = clean (join b'/' (p ∷ ps))

-- `path.Join`
unfoldable pub path_join : List Text → Text
path_join ps = joined (without_empty ps)

-- An element of a path that stands for itself.
abbrev pub IsPlain : Text → Type 0
IsPlain p =
    (text_eq p [] ≡ false)
    × (text_eq p (codes ".") ≡ false)
    × (text_eq p (codes "..") ≡ false)
    × Lacks b'/' p

abbrev pub ArePlain : List Text → Type 0
ArePlain [] = Unit
ArePlain (p ∷ ps) = IsPlain p × ArePlain ps

pub split-Lacks : (b : ℕ) (p : Text) → Lacks b p → split b p ≡ p ∷ []
unfolding split cons_head
split-Lacks b [] l = refl
split-Lacks b (c ∷ p) l = ground (arith, split-Lacks b p l.1)

pub split-append : (b : ℕ) (p s : Text) → Lacks b p → split b (p ++ b ∷ s) ≡ p ∷ split b s
unfolding split cons_head
split-append b [] s l = ground arith
split-append b (c ∷ p) s l = ground (arith, split-append b p s l.1)

pub split-join :
    (p : Text) (ps : List Text) → ArePlain (p ∷ ps) → split b'/' (join b'/' (p ∷ ps)) ≡ p ∷ ps
unfolding join
split-join p [] l = split-Lacks b'/' p l.0.3
split-join p (q ∷ ps) l = rw (split-append, l.0.3, split-join q ps l.1)

pub step-plain :
    (rooted : Bool) (before : List Text) (p : Text) → IsPlain p → step rooted before p ≡ p ∷ before
unfolding step
step-plain rooted before p h = ground arith

pub resolve-plain :
    (rooted : Bool) (before ps : List Text)
    → ArePlain ps
    → resolve rooted before ps ≡ reversed_onto before ps
unfolding resolve reversed_onto
resolve-plain rooted before [] h = refl
resolve-plain rooted before (p ∷ ps) h =
    rw (step-plain rooted before p h.0) (resolve-plain rooted (p ∷ before) ps h.1)

pub without_empty-plain : (ps : List Text) → ArePlain ps → without_empty ps ≡ ps
unfolding without_empty
without_empty-plain [] h = refl
without_empty-plain (p ∷ ps) h = ground (arith, without_empty-plain ps h.1)

step-empty : (rooted : Bool) (before : List Text) → step rooted before [] ≡ before
unfolding step text_eq
step-empty rooted before = refl

-- An empty element between others goes away.
pub resolve-gap :
    (rooted : Bool) (before ds ps : List Text)
    → ArePlain ds
    → ArePlain ps
    → resolve rooted before (ds ++ [] ∷ ps) ≡ reversed_onto before (ds ++ ps)
unfolding resolve reversed_onto
resolve-gap rooted before [] ps h h' =
    ap (λ b. resolve rooted b ps) (step-empty rooted before) ∙ resolve-plain rooted before ps h'
resolve-gap rooted before (d ∷ ds) ps h h' =
    ap (λ b. resolve rooted b (ds ++ [] ∷ ps)) (step-plain rooted before d h.0)
    ∙ resolve-gap rooted (d ∷ before) ds ps h.1 h'

pub resolve_rooted-gap :
    (ds ps : List Text)
    → ArePlain ds
    → ArePlain ps
    → resolve true [] ([] ∷ (ds ++ [] ∷ ps)) ≡ ds ++ ps
unfolding resolve reversed_onto
resolve_rooted-gap ds ps h h' =
    ap (λ b. resolve true b (ds ++ [] ∷ ps)) (step-empty true []) ∙ resolve-gap true [] ds ps h h'

pub path_join_lem :
    (ps : List Text) {q : Text} {qs : List Text}
    → without_empty ps ≡ q ∷ qs
    → path_join ps ≡ clean (join b'/' (q ∷ qs))
unfolding path_join joined
path_join_lem ps e = ap joined e

pub without_empty-cons :
    (p : Text) (ps : List Text) {qs : List Text}
    → text_eq p [] ≡ false
    → without_empty ps ≡ qs
    → without_empty (p ∷ ps) ≡ p ∷ qs
unfolding without_empty
without_empty-cons p ps e e' = ground arith

-- A path that begins with a slash and has one empty element more.
pub clean-rooted :
    (s : Text) (ds ps : List Text)
    → has_prefix s (codes "/") ≡ true
    → split b'/' s ≡ [] ∷ (ds ++ [] ∷ ps)
    → ArePlain ds
    → ArePlain ps
    → clean s ≡ b'/' ∷ join b'/' (ds ++ ps)
unfolding clean
clean-rooted s ds ps rooted cut h h' = rw (rooted, cut, resolve_rooted-gap ds ps h h') refl

-- What is joined at a byte that no part has is split into the parts.
pub split-join-All :
    (b : ℕ) (p : Text) (ps : List Text)
    → All (Lacks b) (p ∷ ps)
    → split b (join b (p ∷ ps)) ≡ p ∷ ps
unfolding join
split-join-All b p [] l = split-Lacks b p l.0
split-join-All b p (q ∷ ps) l = rw (split-append, l.0, split-join-All b q ps l.1)

All-cons_head :
    (b c : ℕ) (ps : List Text)
    → (c == b) ≡ false
    → All (Lacks b) ps
    → All (Lacks b) (cons_head c ps)
unfolding cons_head
All-cons_head b c [] other h = ((ground arith, tt), tt)
All-cons_head b c (p ∷ ps) other h = ((ground arith, h.0), h.1)

-- No part of a text that is split has the byte.
pub All-split : (b : ℕ) (s : Text) → All (Lacks b) (split b s)
unfolding split
All-split b [] = (tt, tt)
All-split b (c ∷ s) = elim (Bool-cases (c == b)) [
  | inl same ↦ rw same (tt, All-split b s)
  | inr other ↦ rw other (All-cons_head b c (split b s) other (All-split b s))
]
