-- ===== src/Router/Clauses.antt =====
-- One clause of a route, `key=value` or `key!=value`, in the patterns of
-- controllers/java/router/types.go.
use mathlib.Core.List.{append-nil}
use snk_fork_dolphin.Base.{
  ℕ, ◌≡◌, ◌∙◌, refl, sym, ap, arith, ◌++◌, Bool, true, false, List, [], ◌∷◌, Option, some, is_empty,
  All, ◌==◌,
}
use snk_fork_dolphin.Base.Chars.{
  AllChars, Stops, NoChars, is_space, is_blank, span-append, AllChars-append, NoChars-of_AllChars,
  NoChars-append, trim-NoChars, is_blank-of_is_space,
}
use snk_fork_dolphin.Base.Path.{join, split, split-join-All}
use snk_fork_dolphin.Base.Text.{Text, codes, Lacks}
use snk_fork_dolphin.Router.{Match, skip_space, run_of, clause, get_value}

pub skip_space-Stops : (s : Text) → Stops is_space s → skip_space s ≡ s
skip_space-Stops s stop = ap (λ r. r.1) (span-append is_space [] s tt stop)

run_of-append :
    (p : ℕ → Bool) (s rest : Text)
    → AllChars p s
    → is_empty s ≡ false
    → Stops p rest
    → run_of p (s ++ rest) ≡ some (s, rest)
unfolding run_of
run_of-append p s rest h filled stop = rw (span-append p s rest h stop, filled) refl

-- A test passes at no character of a class, so a text that begins in the class stops it.
pub Stops-append :
    (p q : ℕ → Bool) (s rest : Text)
    → ((c : ℕ) → p c ≡ true → q c ≡ false)
    → AllChars p s
    → is_empty s ≡ false
    → Stops q (s ++ rest)
Stops-append p q [] rest apart h filled = cc
Stops-append p q (c ∷ s) rest apart h filled = apart c h.0

-- What an operator's pattern takes is the operator, at the start of any text.
abbrev pub Takes : (Text → Option (Text × Text)) → Text → Type 0
Takes op o = (t : Text) → op (o ++ t) ≡ some (o, t)

-- The classes of characters of a pattern's keys and values, and the byte between values. No class
-- has a space, and the keys have no operator and no mark of a comment.
pub record Pattern : Type 0 where
  pub in_key : ℕ → Bool
  pub in_value : ℕ → Bool
  pub fsep : ℕ
  pub key_space : (c : ℕ) → in_key c ≡ true → is_space c ≡ false
  pub value_space : (c : ℕ) → in_value c ≡ true → is_space c ≡ false
  pub key_hash : (c : ℕ) → in_key c ≡ true → (c == b'#') ≡ false
  pub no_eq : in_key b'=' ≡ false
  pub no_ne : in_key b'!' ≡ false
  pub key_break : in_key b'\n' ≡ false
  pub value_break : in_value b'\n' ≡ false
  pub sep_value : in_value fsep ≡ true

pub data IsOp : Text → Type 0 where
  is_eq : IsOp (codes "=")
  is_ne : IsOp (codes "!=")

split-joined :
    (fsep : ℕ) (vs : List Text)
    → All (Lacks fsep) vs
    → is_empty (join fsep vs) ≡ false
    → split fsep (join fsep vs) ≡ vs
unfolding join
split-joined fsep [] l filled = cc
split-joined fsep (v ∷ vs) l filled = split-join-All fsep v vs l

module _ (pat : Pattern) where
  open pat use {in_key, in_value, fsep}

  Stops-op : {o : Text} → IsOp o → (t : Text) → Stops in_key (o ++ t)
  Stops-op is_eq t = pat.no_eq
  Stops-op is_ne t = pat.no_ne

  Stops-op_space : {o : Text} → IsOp o → (t : Text) → Stops is_space (o ++ t)
  unfolding is_space
  Stops-op_space is_eq t = refl
  Stops-op_space is_ne t = refl

  pub clause-append :
      (op : Text → Option (Text × Text)) (k o v rest : Text)
      → IsOp o
      → Takes op o
      → AllChars in_key k
      → is_empty k ≡ false
      → AllChars in_value v
      → is_empty v ≡ false
      → Stops in_value rest
      → clause op in_key in_value (k ++ (o ++ (v ++ rest))) ≡ some ((k, o, v), rest)
  unfolding clause
  clause-append op k o v rest is_op takes hk fk hv fv stop = ground (
    arith,
    run_of-append in_key k (o ++ (v ++ rest)) hk fk (Stops-op is_op (v ++ rest)),
    skip_space-Stops (o ++ (v ++ rest)) (Stops-op_space is_op (v ++ rest)),
    takes (v ++ rest),
    skip_space-Stops (v ++ rest) (Stops-append in_value is_space v rest pat.value_space hv fv),
    run_of-append in_value v rest hv fv stop,
  )

  pub clause-whole :
      (op : Text → Option (Text × Text)) (k o v : Text)
      → IsOp o
      → Takes op o
      → AllChars in_key k
      → is_empty k ≡ false
      → AllChars in_value v
      → is_empty v ≡ false
      → clause op in_key in_value (k ++ (o ++ v)) ≡ some ((k, o, v), [])
  clause-whole op k o v is_op takes hk fk hv fv =
      ap (λ t. clause op in_key in_value (k ++ (o ++ t))) (sym (append-nil v))
      ∙ clause-append op k o v [] is_op takes hk fk hv fv tt

  -- A match that is printed in a way that the pattern reads: its key and its values are of the
  -- classes, and not empty, and no value has the separator.
  pub record IsPrintable (m : Match) : Type 0 where
    pub is_op : IsOp m.op
    pub key_chars : AllChars in_key m.key
    pub key_filled : is_empty m.key ≡ false
    pub value_chars : All (AllChars in_value) m.value
    pub no_sep : All (Lacks fsep) m.value
    pub value_filled : is_empty (join fsep m.value) ≡ false

  join-AllChars : (vs : List Text) → All (AllChars in_value) vs → AllChars in_value (join fsep vs)
  unfolding join
  join-AllChars [] h = tt
  join-AllChars (v ∷ []) h = h.0
  join-AllChars (v ∷ w ∷ vs) h =
      AllChars-append in_value v (fsep ∷ join fsep (w ∷ vs)) h.0
        (pat.sep_value, join-AllChars (w ∷ vs) h.1)

  module _ (m : Match) (h : IsPrintable m) where
    pub joined_chars : AllChars in_value (join fsep m.value)
    joined_chars = join-AllChars m.value h.value_chars

    op_NoChars : {o : Text} → IsOp o → NoChars is_blank o
    unfolding is_blank
    op_NoChars is_eq = (refl, tt)
    op_NoChars is_ne = (refl, (refl, tt))

    pub get_value-printable : get_value fsep m ≡ m.key ++ (m.op ++ join fsep m.value)
    unfolding get_value
    get_value-printable = trim-NoChars is_blank (m.key ++ (m.op ++ join fsep m.value)) (
        NoChars-append is_blank m.key (m.op ++ join fsep m.value)
          (NoChars-of_AllChars in_key is_blank m.key
            (λ c e. is_blank-of_is_space c (pat.key_space c e)) h.key_chars)
          (NoChars-append is_blank m.op (join fsep m.value) (op_NoChars h.is_op) (
            NoChars-of_AllChars in_value is_blank (join fsep m.value)
              (λ c e. is_blank-of_is_space c (pat.value_space c e)) joined_chars)))

    pub split-values : split fsep (join fsep m.value) ≡ m.value
    split-values = split-joined fsep m.value h.no_sep h.value_filled
