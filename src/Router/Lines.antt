-- ===== src/Router/Lines.antt =====
-- The line of a route in controllers/java/router/types.go, and what is parsed out of it.
use mathlib.Core.List.{append_assoc}
use snk_fork_dolphin.Base.{
  ℕ, ◌≡◌, ◌∙◌, refl, ap, arith, ◌++◌, Bool, true, false, [], ◌∷◌, some, is_empty, ◌==◌,
}
use snk_fork_dolphin.Base.Chars.{
  Stops, is_space, is_blank, span, trim, trim_left, trim_right, trim-append, is_empty-append_left,
  Lacks-of_AllChars, is_blank-of_is_space,
}
use snk_fork_dolphin.Base.Path.{join}
use snk_fork_dolphin.Base.Text.{Text, codes, Lacks}
use snk_fork_dolphin.Router.{
  Match, no_match, RouteItem, skip_space, eq_op, any_op, get_value, item_value, dst_of, only_space,
  match_v2, is_comment, item, parse_v2,
}
use snk_fork_dolphin.Router.Patterns.{v2, v2_key-space, v2_key-hash}
use snk_fork_dolphin.Router.Clauses.{
  Pattern, IsOp, is_eq, is_ne, Takes, IsPrintable, clause-whole, get_value-printable, joined_chars,
  split-values, skip_space-Stops, Stops-append,
}

pub any_op-Takes : {o : Text} → IsOp o → Takes any_op o
unfolding any_op eq_op
any_op-Takes is_eq [] = refl
any_op-Takes is_eq (c ∷ t) = refl
any_op-Takes is_ne t = refl

eq_op-Takes : Takes eq_op (codes "=")
unfolding eq_op
eq_op-Takes t = refl

is_comment-Stops : (p : Text) → Stops is_space p → Stops (λ c. c == b'#') p → is_comment p ≡ false
unfolding is_comment span
is_comment-Stops [] stop hash = refl
is_comment-Stops (c ∷ p) stop hash = ground (arith, skip_space-Stops (c ∷ p) stop)

pub only_space-Stops : (p : Text) → Stops is_space p → is_empty p ≡ false → only_space p ≡ false
unfolding only_space
only_space-Stops p stop filled = rw (skip_space-Stops p stop) filled

pub Lacks-append : (b : ℕ) (s t : Text) → Lacks b s → Lacks b t → Lacks b (s ++ t)
Lacks-append b [] t l l' = l'
Lacks-append b (c ∷ s) t l l' = (l.0, Lacks-append b s t l.1 l')

-- The text of a printable match.
abbrev pub printed : ℕ → Match → Text
printed fsep m = m.key ++ (m.op ++ join fsep m.value)

module _ (pat : Pattern) (m : Match) (h : IsPrintable pat m) where
  open pat use {in_key, in_value, fsep}

  pub printed-Stops :
      (q : ℕ → Bool) (t : Text)
      → ((c : ℕ) → in_key c ≡ true → q c ≡ false)
      → Stops q (printed fsep m ++ t)
  printed-Stops q t apart = rw (append_assoc m.key (m.op ++ join fsep m.value) t) (
      Stops-append in_key q m.key ((m.op ++ join fsep m.value) ++ t) apart h.key_chars h.key_filled)

  pub printed_alone-Stops :
      (q : ℕ → Bool) → ((c : ℕ) → in_key c ≡ true → q c ≡ false) → Stops q (printed fsep m)
  printed_alone-Stops q apart =
      Stops-append in_key q m.key (m.op ++ join fsep m.value) apart h.key_chars h.key_filled

  pub printed-filled : is_empty (printed fsep m) ≡ false
  printed-filled = is_empty-append_left m.key (m.op ++ join fsep m.value) h.key_filled

  op-Lacks : {o : Text} → IsOp o → Lacks b'\n' o
  op-Lacks is_eq = ground arith
  op-Lacks is_ne = ground arith

  pub printed-Lacks : Lacks b'\n' (printed fsep m)
  printed-Lacks =
      Lacks-append b'\n' m.key (m.op ++ join fsep m.value)
        (Lacks-of_AllChars in_key b'\n' m.key pat.key_break h.key_chars)
        (Lacks-append b'\n' m.op (join fsep m.value) (op-Lacks h.is_op) (
          Lacks-of_AllChars in_value b'\n' (join fsep m.value) pat.value_break
            (joined_chars pat m h)))

  pub printed-blank : (t : Text) → Stops is_blank (printed fsep m ++ t)
  printed-blank t = printed-Stops is_blank t (λ c e. is_blank-of_is_space c (pat.key_space c e))

  pub skip_space-printed : skip_space (printed fsep m) ≡ printed fsep m
  skip_space-printed = skip_space-Stops _ (printed_alone-Stops is_space pat.key_space)

  pub only_space-printed : only_space (printed fsep m) ≡ false
  only_space-printed =
      only_space-Stops _ (printed_alone-Stops is_space pat.key_space) printed-filled

-- The newline at the end of a line stays.
pub newline-stays : trim_right is_blank (codes "\n") ≡ codes "\n"
unfolding trim_right is_blank
newline-stays = refl

pub get_value-no_match : (fsep : ℕ) → get_value fsep no_match ≡ []
unfolding get_value trim trim_left trim_right join
get_value-no_match fsep = refl

-- What a route of API 2.0 must be for its line to be read back: it has no first match.
pub record IsV2 (ri : RouteItem) : Type 0 where
  pub no_src : ri.src ≡ no_match
  pub dst : IsPrintable v2 ri.dst
  pub dst_eq : ri.dst.op ≡ codes "="

module _ (ri : RouteItem) (h : IsV2 ri) where
  abbrev pub v2_line : Text
  v2_line = printed b';' ri.dst

  pub v2_printed : item_value [] b';' ri ≡ v2_line ++ codes "\n"
  unfolding item_value is_blank
  v2_printed =
      ap
        (λ m.
          trim is_blank (get_value b';' m ++ (codes "  " ++ (get_value b';' ri.dst ++ codes "\n"))))
        h.no_src
      ∙ ap (λ s. trim is_blank (s ++ (codes "  " ++ (get_value b';' ri.dst ++ codes "\n"))))
          (get_value-no_match b';')
      ∙ ap (λ s. trim is_blank (codes "  " ++ (s ++ codes "\n")))
          (get_value-printable v2 ri.dst h.dst)
      ∙ trim-append is_blank (codes "  ") v2_line (codes "\n") (refl, (refl, tt))
          (printed-blank v2 ri.dst h.dst (codes "\n")) newline-stays refl

  Takes-dst : Takes eq_op ri.dst.op
  Takes-dst t = rw h.dst_eq (eq_op-Takes t)

  v2_matched : match_v2 v2_line ≡ some (ri.dst.key, ri.dst.op, join b';' ri.dst.value)
  unfolding match_v2 only_space span
  v2_matched = ground (
    arith,
    skip_space-printed v2 ri.dst h.dst,
    clause-whole v2 eq_op ri.dst.key ri.dst.op (join b';' ri.dst.value) h.dst.is_op Takes-dst
        h.dst.key_chars h.dst.key_filled (joined_chars v2 ri.dst h.dst) h.dst.value_filled,
  )

  pub v2_parsed : parse_v2 v2_line ≡ item ri
  unfolding parse_v2 dst_of
  v2_parsed = ground (
    arith,
    h.no_src,
    is_comment-Stops v2_line (printed_alone-Stops v2 ri.dst h.dst is_space v2_key-space)
        (printed_alone-Stops v2 ri.dst h.dst (λ c. c == b'#') v2_key-hash),
    only_space-printed v2 ri.dst h.dst,
    v2_matched,
    split-values v2 ri.dst h.dst,
  )
