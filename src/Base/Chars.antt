-- ===== src/Base/Chars.antt =====
-- Runs of characters: what Go's `strings.Trim` and the parts `x+` and `x*` of a regular expression
-- do, for a set of characters given by a test.
use Prim.Native.Nat.{ℕ}
use mathlib.Core.Path.{◌≡◌, refl, ap, ◌∙◌}
use mathlib.Core.Bool.{Bool, true, false, ◌&&◌, ◌||◌}
use mathlib.Core.List.{[], ◌∷◌, ◌++◌}
use native.Mathlib.Omega.{arith}
use mathlib.Core.Logic.{inl, inr}
use snk_fork_dolphin.Base.Tests.{◌==◌, leb, if◌then◌else◌, Bool-cases}
use snk_fork_dolphin.Base.Lists.{is_empty}
use snk_fork_dolphin.Base.Text.{Text, Lacks}

-- The character class `\w`, and the classes `\s` and of spaces and tabs.
unfoldable pub is_word : ℕ → Bool
is_word c =
    (leb b'0' c && leb c b'9')
    || (leb b'A' c && leb c b'Z')
    || (leb b'a' c && leb c b'z')
    || c == b'_'

unfoldable pub is_space : ℕ → Bool
is_space c = c == 32 || c == 9 || c == 10 || c == 12 || c == 13

unfoldable pub is_blank : ℕ → Bool
is_blank c = c == 32 || c == 9

-- Every character of the text passes the test.
abbrev pub AllChars : (ℕ → Bool) → Text → Type 0
AllChars p [] = Unit
AllChars p (c ∷ s) = (p c ≡ true) × AllChars p s

-- No character of the text passes the test at its start.
abbrev pub Stops : (ℕ → Bool) → Text → Type 0
Stops p [] = Unit
Stops p (c ∷ s) = p c ≡ false

-- The longest run at the start, and what is left.
unfoldable pub span : (ℕ → Bool) → Text → Text × Text
span p [] = ([], [])
span p (c ∷ s) = let (run, rest) = span p s in if p c then (c ∷ run, rest) else ([], c ∷ s)

unfoldable pub trim_left : (ℕ → Bool) → Text → Text
trim_left p [] = []
trim_left p (c ∷ s) = if p c then trim_left p s else c ∷ s

unfoldable pub trim_right : (ℕ → Bool) → Text → Text
trim_right p [] = []
trim_right p (c ∷ s) = let rest = trim_right p s in if is_empty rest && p c then [] else c ∷ rest

-- `strings.Trim`
unfoldable pub trim : (ℕ → Bool) → Text → Text
unfolding trim_left trim_right
trim p s = trim_left p (trim_right p s)

pub is_empty-append_right : (s t : Text) → is_empty t ≡ false → is_empty (s ++ t) ≡ false
is_empty-append_right [] t filled = filled
is_empty-append_right (c ∷ s) t filled = refl

pub is_empty-append_left : (s t : Text) → is_empty s ≡ false → is_empty (s ++ t) ≡ false
is_empty-append_left [] t filled = cc
is_empty-append_left (c ∷ s) t filled = refl

module _ (p : ℕ → Bool) where
  pub span-append : (s rest : Text) → AllChars p s → Stops p rest → span p (s ++ rest) ≡ (s, rest)
  unfolding span
  span-append [] [] h stop = refl
  span-append [] (c ∷ rest) h stop = ground arith
  span-append (c ∷ s) rest h stop = ground (arith, span-append s rest h.1 stop)

  pub trim_left-Stops : (s : Text) → Stops p s → trim_left p s ≡ s
  unfolding trim_left
  trim_left-Stops [] stop = refl
  trim_left-Stops (c ∷ s) stop = ground arith

  -- A text that ends in one that is not trimmed on the right is not trimmed there either.
  pub trim_right-append :
      (s t : Text) → trim_right p t ≡ t → is_empty t ≡ false → trim_right p (s ++ t) ≡ s ++ t
  unfolding trim_right
  trim_right-append [] t stays filled = stays
  trim_right-append (d ∷ []) t stays filled = ground arith
  trim_right-append (d ∷ e ∷ s) t stays filled =
      ground (arith, trim_right-append (e ∷ s) t stays filled)

  trim_left-append : (s t : Text) → AllChars p s → Stops p t → trim_left p (s ++ t) ≡ t
  unfolding trim_left
  trim_left-append [] t h stop = trim_left-Stops t stop
  trim_left-append (c ∷ s) t h stop = ground (arith, trim_left-append s t h.1 stop)

  pub trim-append :
      (s t u : Text)
      → AllChars p s
      → Stops p (t ++ u)
      → trim_right p u ≡ u
      → is_empty u ≡ false
      → trim p (s ++ (t ++ u)) ≡ t ++ u
  unfolding trim
  trim-append s t u h stop stays filled =
      ap (trim_left p) (
        trim_right-append s (t ++ u) (trim_right-append t u stays filled)
          (is_empty-append_right t u filled))
      ∙ trim_left-append s (t ++ u) h stop

abbrev pub NoChars : (ℕ → Bool) → Text → Type 0
NoChars p [] = Unit
NoChars p (c ∷ s) = (p c ≡ false) × NoChars p s

trim_right-NoChars : (p : ℕ → Bool) (s : Text) → NoChars p s → trim_right p s ≡ s
unfolding trim_right
trim_right-NoChars p [] h = refl
trim_right-NoChars p (c ∷ s) h = ground (arith, trim_right-NoChars p s h.1)

pub trim-NoChars : (p : ℕ → Bool) (s : Text) → NoChars p s → trim p s ≡ s
unfolding trim
trim-NoChars p [] h = refl
trim-NoChars p (c ∷ s) h = rw (trim_right-NoChars p (c ∷ s) h) (trim_left-Stops p (c ∷ s) h.0)

pub AllChars-append :
    (p : ℕ → Bool) (s t : Text) → AllChars p s → AllChars p t → AllChars p (s ++ t)
AllChars-append p [] t h h' = h'
AllChars-append p (c ∷ s) t h h' = (h.0, AllChars-append p s t h.1 h')

pub NoChars-append : (p : ℕ → Bool) (s t : Text) → NoChars p s → NoChars p t → NoChars p (s ++ t)
NoChars-append p [] t h h' = h'
NoChars-append p (c ∷ s) t h h' = (h.0, NoChars-append p s t h.1 h')

-- Characters that pass one test pass another, or fail it.
pub AllChars-weaken :
    (p q : ℕ → Bool) (s : Text) → ((c : ℕ) → p c ≡ true → q c ≡ true) → AllChars p s → AllChars q s
AllChars-weaken p q [] w h = tt
AllChars-weaken p q (c ∷ s) w h = (w c h.0, AllChars-weaken p q s w h.1)

pub NoChars-of_AllChars :
    (p q : ℕ → Bool) (s : Text) → ((c : ℕ) → p c ≡ true → q c ≡ false) → AllChars p s → NoChars q s
NoChars-of_AllChars p q [] w h = tt
NoChars-of_AllChars p q (c ∷ s) w h = (w c h.0, NoChars-of_AllChars p q s w h.1)

pub Lacks-of_AllChars : (p : ℕ → Bool) (b : ℕ) (s : Text) → p b ≡ false → AllChars p s → Lacks b s
Lacks-of_AllChars p b [] w h = tt
Lacks-of_AllChars p b (c ∷ s) w h = (λ e. ground arith, Lacks-of_AllChars p b s w h.1)

pub is_blank-of_is_space : (c : ℕ) → is_space c ≡ false → is_blank c ≡ false
unfolding is_space is_blank
is_blank-of_is_space c h = ground arith

-- `strings.TrimSpace`
unfoldable pub is_white : ℕ → Bool
is_white c = (leb 9 c && leb c 13) || c == 32 || c == 133 || c == 160

module _ (p : ℕ → Bool) where
  Stops-trim_left : (s : Text) → Stops p (trim_left p s)
  unfolding trim_left
  Stops-trim_left [] = tt
  Stops-trim_left (c ∷ s) = elim (Bool-cases (p c)) [
    | inl more ↦ rw more (Stops-trim_left s)
    | inr stop ↦ rw stop stop
  ]

  trim_right_again : (s : Text) → trim_right p (trim_right p s) ≡ trim_right p s
  unfolding trim_right
  trim_right_again [] = refl
  trim_right_again (c ∷ s) = ground (arith, trim_right_again s)

  trim_right-trim_left :
      (s : Text) → trim_right p s ≡ s → trim_right p (trim_left p s) ≡ trim_left p s
  unfolding trim_right trim_left
  trim_right-trim_left [] h = refl
  trim_right-trim_left (c ∷ s) h = ground (arith, trim_right-trim_left s, h)

  pub trim_again : (s : Text) → trim p (trim p s) ≡ trim p s
  unfolding trim
  trim_again s =
      ap (trim_left p) (trim_right-trim_left (trim_right p s) (trim_right_again s))
      ∙ trim_left-Stops p _ (Stops-trim_left (trim_right p s))

  Lacks-trim_left : (b : ℕ) (s : Text) → Lacks b s → Lacks b (trim_left p s)
  unfolding trim_left
  Lacks-trim_left b [] l = tt
  Lacks-trim_left b (c ∷ s) l = elim (Bool-cases (p c)) [
    | inl more ↦ rw more (Lacks-trim_left b s l.1)
    | inr stop ↦ rw stop l
  ]

  Lacks-trim_right : (b : ℕ) (s : Text) → Lacks b s → Lacks b (trim_right p s)
  unfolding trim_right
  Lacks-trim_right b [] l = tt
  Lacks-trim_right b (c ∷ s) l = elim (Bool-cases (is_empty (trim_right p s) && p c)) [
    | inl gone ↦ rw gone tt
    | inr stays ↦ rw stays (l.0, Lacks-trim_right b s l.1)
  ]

  pub Lacks-trim : (b : ℕ) (s : Text) → Lacks b s → Lacks b (trim p s)
  unfolding trim
  Lacks-trim b s l = Lacks-trim_left b _ (Lacks-trim_right b s l)
