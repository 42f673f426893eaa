-- ===== src/Router/Arrows.antt =====
-- The lines of API 4.0 in controllers/java/router/types.go, with an arrow, and what is parsed out
-- of them.
use mathlib.Core.List.{append_assoc}
use snk_fork_dolphin.Base.{ℕ, ◌≡◌, ◌∙◌, refl, sym, ap, arith, ◌++◌, [], ◌∷◌, some, inl, inr, ◌⊎◌}
use snk_fork_dolphin.Base.Chars.{
  is_space, is_blank, span, trim, trim_right-append, trim-append, is_empty-append_left,
}
use snk_fork_dolphin.Base.Path.{join}
use snk_fork_dolphin.Base.Text.{Text, codes, Lacks}
use snk_fork_dolphin.Router.{
  run_of, Match, no_match, RouteItem, skip_space, any_op, clause, get_value, item_value, dst_of,
  src_of, only_space, v4_key, v4_value, match_v4, arrow, first_clause, item, parse_v4,
}
use snk_fork_dolphin.Router.Patterns.{v4, v4_key-space}
use snk_fork_dolphin.Router.Clauses.{
  IsPrintable, clause-append, clause-whole, get_value-printable, joined_chars, split-values,
  skip_space-Stops,
}
use snk_fork_dolphin.Router.Lines.{
  printed, printed-Stops, printed-filled, printed-blank, skip_space-printed, only_space-Stops,
  newline-stays, get_value-no_match, any_op-Takes, printed-Lacks, Lacks-append,
}

-- What a route of API 4.0 must be for its line to be read back.
pub record IsV4 (ri : RouteItem) : Type 0 where
  pub src : (ri.src ≡ no_match) ⊎ IsPrintable v4 ri.src
  pub dst : IsPrintable v4 ri.dst

first_clause-found :
    (s : Text) {found : (Text × Text × Text) × Text}
    → clause any_op v4_key v4_value s ≡ some found
    → first_clause s ≡ found
unfolding first_clause
first_clause-found s e = ground (arith, e)

printed-append :
    (fsep : ℕ) (m : Match) (t : Text)
    → printed fsep m ++ t ≡ m.key ++ (m.op ++ (join fsep m.value ++ t))
printed-append fsep m t =
    append_assoc m.key (m.op ++ join fsep m.value) t
    ∙ ap (λ s. m.key ++ s) (append_assoc m.op (join fsep m.value) t)

module _ (dst : Match) (h : IsPrintable v4 dst) where
  -- The arrow and what is behind it.
  abbrev arrow_line : Text
  arrow_line = codes "=> " ++ printed b',' dst

  arrow_lem : (s : Text) → skip_space s ≡ arrow_line → arrow s ≡ some (printed b',' dst)
  unfolding arrow is_space span
  arrow_lem s e = ground (arith, e, skip_space-printed v4 dst h)

  dst_matched :
      clause any_op v4_key v4_value (printed b',' dst)
      ≡ some ((dst.key, dst.op, join b',' dst.value), [])
  dst_matched =
      clause-whole v4 any_op dst.key dst.op (join b',' dst.value) h.is_op (any_op-Takes h.is_op)
        h.key_chars h.key_filled (joined_chars v4 dst h) h.value_filled

  match_v4-parts :
      (p rest : Text) (src : Text × Text × Text)
      → first_clause (skip_space p) ≡ (src, rest)
      → arrow rest ≡ some (printed b',' dst)
      → match_v4 p ≡ some (src, (dst.key, dst.op, join b',' dst.value))
  unfolding match_v4 only_space span
  match_v4-parts p rest src e e' = ground (arith, e, e', dst_matched)

  no_src_matched : match_v4 arrow_line ≡ some (([], [], []), (dst.key, dst.op, join b',' dst.value))
  unfolding first_clause clause run_of span v4_key is_space
  no_src_matched =
      match_v4-parts arrow_line arrow_line ([], [], []) refl (arrow_lem arrow_line refl)

  module _ (src : Match) (g : IsPrintable v4 src) where
    abbrev whole_line : Text
    whole_line = printed b',' src ++ (b' ' ∷ arrow_line)

    first_clause-whole_line :
        first_clause whole_line ≡ ((src.key, src.op, join b',' src.value), b' ' ∷ arrow_line)
    unfolding first_clause v4_value
    first_clause-whole_line =
        ap first_clause (printed-append b',' src (b' ' ∷ arrow_line))
        ∙ first_clause-found _ (
            clause-append v4 any_op src.key src.op (join b',' src.value) (b' ' ∷ arrow_line) g.is_op
              (any_op-Takes g.is_op) g.key_chars g.key_filled (joined_chars v4 src g) g.value_filled
              refl)

    src_matched :
        match_v4 whole_line
        ≡ some ((src.key, src.op, join b',' src.value), (dst.key, dst.op, join b',' dst.value))
    unfolding is_space span
    src_matched =
        match_v4-parts whole_line (b' ' ∷ arrow_line) (src.key, src.op, join b',' src.value)
          (ap first_clause (
              skip_space-Stops whole_line
                (printed-Stops v4 src g is_space (b' ' ∷ arrow_line) v4_key-space))
            ∙ first_clause-whole_line)
          (arrow_lem (b' ' ∷ arrow_line) refl)

module _ (ri : RouteItem) (h : IsV4 ri) where
  open ri use {src, dst}

  -- The line of the route: what stands before the arrow, if anything, and what is behind.
  abbrev pub IsLine : Text → Type 0
  IsLine line =
      (item_value (codes "=>") b',' ri ≡ line ++ codes "\n")
      × Lacks b'\n' line
      × (parse_v4 line ≡ item ri)

  no_src-IsLine : src ≡ no_match → IsLine (arrow_line dst h.dst)
  unfolding item_value is_blank parse_v4 dst_of src_of only_space span is_space
  no_src-IsLine e = (
    ap
          (λ m.
            trim is_blank
              (get_value b',' m ++ (codes " => " ++ (get_value b',' dst ++ codes "\n"))))
          e
        ∙ ap (λ s. trim is_blank (s ++ (codes " => " ++ (get_value b',' dst ++ codes "\n"))))
            (get_value-no_match b',')
        ∙ ap (λ s. trim is_blank (codes " => " ++ (s ++ codes "\n")))
            (get_value-printable v4 dst h.dst)
        ∙ trim-append is_blank (codes " ") (arrow_line dst h.dst) (codes "\n") (refl, tt) refl
            newline-stays refl,
    (λ e. ground arith, (λ e. ground arith, (λ e. ground arith, printed-Lacks v4 dst h.dst))),
    ground (arith, e, no_src_matched dst h.dst, split-values v4 dst h.dst),
  )

  src-IsLine : (g : IsPrintable v4 src) → IsLine (whole_line dst h.dst src g)
  unfolding item_value parse_v4 dst_of src_of
  src-IsLine g = (
    ap (λ s. trim is_blank (s ++ (codes " => " ++ (get_value b',' dst ++ codes "\n"))))
          (get_value-printable v4 src g)
        ∙ ap (λ s. trim is_blank (printed b',' src ++ (codes " => " ++ (s ++ codes "\n"))))
            (get_value-printable v4 dst h.dst)
        ∙ trim-append is_blank [] (printed b',' src) (b' ' ∷ (arrow_line dst h.dst ++ codes "\n"))
            tt (printed-blank v4 src g (b' ' ∷ (arrow_line dst h.dst ++ codes "\n")))
            (trim_right-append is_blank (b' ' ∷ arrow_line dst h.dst) (codes "\n") newline-stays
              refl)
            refl
        ∙ sym (append_assoc (printed b',' src) (b' ' ∷ arrow_line dst h.dst) (codes "\n")),
    Lacks-append b'\n' (printed b',' src) (b' ' ∷ arrow_line dst h.dst) (printed-Lacks v4 src g) (
      λ e. ground arith,
      (λ e. ground arith, (λ e. ground arith, (λ e. ground arith, printed-Lacks v4 dst h.dst))),
    ),
    ground (
      arith,
      only_space-Stops (whole_line dst h.dst src g)
          (printed-Stops v4 src g is_space (b' ' ∷ arrow_line dst h.dst) v4_key-space)
          (is_empty-append_left (printed b',' src) (b' ' ∷ arrow_line dst h.dst)
            (printed-filled v4 src g)),
      src_matched dst h.dst src g,
      split-values v4 dst h.dst,
      split-values v4 src g,
      g.value_filled,
    ),
  )

  -- Every such route has a line.
  pub v4-IsLine : (line : Text) × IsLine line
  v4-IsLine = elim h.src [
    | inl e ↦ (arrow_line dst h.dst, no_src-IsLine e)
    | inr g ↦ (whole_line dst h.dst src g, src-IsLine g)
  ]
