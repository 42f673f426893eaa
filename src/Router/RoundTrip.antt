-- ===== src/Router/RoundTrip.antt =====
-- Routes of controllers/java/router/types.go, printed and parsed.
use mathlib.Core.List.{append_assoc, append-nil}
use snk_fork_dolphin.Base.{
  Bool, ◌≡◌, ◌∙◌, refl, sym, ap, arith, ◌++◌, true, false, List, [], ◌∷◌, All,
}
use snk_fork_dolphin.Base.Chars.{span, is_space}
use snk_fork_dolphin.Base.Path.{split, split-append}
use snk_fork_dolphin.Base.Text.{Text, codes, text_eq, Lacks}
use snk_fork_dolphin.Types.Fault.{Errors}
use snk_fork_dolphin.Router.{
  RouteItem, RouteCfg, api_v2, api_v4, route_sep, field_sep, header, item_value, print_items,
  route_string, parse_route_item, parse_lines, parse, item, ignored, parse_v2, parse_v4, is_comment,
  only_space,
}
use snk_fork_dolphin.Router.Lines.{IsV2, v2_line, v2_printed, v2_parsed, printed-Lacks}
use snk_fork_dolphin.Router.Patterns.{v2}
use snk_fork_dolphin.Router.Arrows.{IsV4, v4-IsLine}

-- The item has a line of its own, which is parsed back.
abbrev HasLine : Text → RouteItem → Type 0
HasLine version ri =
    (line : Text) × (item_value (route_sep version) (field_sep version) ri ≡ line ++ codes "\n")
    × Lacks b'\n' line
    × (parse_route_item line version ≡ item ri)

module _ (version : Text) where
  abbrev printed_items : List RouteItem → Text → Text
  printed_items items ret = print_items (route_sep version) (field_sep version) items ret

  -- What has been printed stands in front.
  print_items-append :
      (items : List RouteItem) (ret more : Text)
      → printed_items items (ret ++ more) ≡ ret ++ printed_items items more
  unfolding print_items
  print_items-append [] ret more = refl
  print_items-append (i ∷ items) ret more =
      ap (printed_items items)
        (append_assoc ret more (item_value (route_sep version) (field_sep version) i))
      ∙ print_items-append items ret (more ++ item_value (route_sep version) (field_sep version) i)

  parse_lines-item :
      (line : Text) (ps : List Text) (ri : RouteItem)
      → parse_route_item line version ≡ item ri
      → parse_lines version (line ∷ ps)
        ≡ (ri ∷ (parse_lines version ps).0, (parse_lines version ps).1)
  unfolding parse_lines
  parse_lines-item line ps ri e = ground (arith, e)

  parse_lines-ignored :
      (line : Text) (ps : List Text)
      → parse_route_item line version ≡ ignored
      → parse_lines version (line ∷ ps) ≡ parse_lines version ps
  unfolding parse_lines
  parse_lines-ignored line ps e = ground (arith, e)

  parse_lines-print_items :
      (items : List RouteItem)
      → parse_route_item [] version ≡ ignored
      → All (HasLine version) items
      → parse_lines version (split b'\n' (printed_items items [])) ≡ (items, [])
  unfolding print_items split parse_lines
  parse_lines-print_items [] empty h = parse_lines-ignored [] [] empty
  parse_lines-print_items (i ∷ items) empty ((line, text, lacks, parsed), h) =
      ap (λ s. parse_lines version (split b'\n' s))
        (ap (printed_items items) text
          ∙ ap (printed_items items) (sym (append-nil (line ++ codes "\n")))
          ∙ print_items-append items (line ++ codes "\n") []
          ∙ append_assoc line (codes "\n") (printed_items items []))
      ∙ ap (parse_lines version) (split-append b'\n' line (printed_items items []) lacks)
      ∙ parse_lines-item line (split b'\n' (printed_items items [])) i parsed
      ∙ ap (λ r. (i ∷ r.0, r.1)) (parse_lines-print_items items empty h)

v2-HasLine : (ri : RouteItem) → IsV2 ri → HasLine api_v2 ri
unfolding parse_route_item text_eq
v2-HasLine ri h = (v2_line ri h, v2_printed ri h, printed-Lacks v2 ri.dst h.dst, v2_parsed ri h)

v4-HasLine : (ri : RouteItem) → IsV4 ri → HasLine api_v4 ri
unfolding parse_route_item text_eq
v4-HasLine ri h = let (line, is_line) = v4-IsLine ri h in (line, is_line.0, is_line.1, is_line.2)

-- The versions of the interface, and what their routes must be to be read back.
abbrev pub version_of : Bool → Text
version_of true = api_v4
version_of false = api_v2

abbrev pub IsReadable : Bool → RouteItem → Type 0
IsReadable true ri = IsV4 ri
IsReadable false ri = IsV2 ri

All-lines :
    (newer : Bool) (items : List RouteItem)
    → All (IsReadable newer) items
    → All (HasLine (version_of newer)) items
All-lines newer [] h = tt
All-lines true (ri ∷ items) h = (v4-HasLine ri h.0, All-lines true items h.1)
All-lines false (ri ∷ items) h = (v2-HasLine ri h.0, All-lines false items h.1)

empty_line : (newer : Bool) → parse_route_item [] (version_of newer) ≡ ignored
unfolding parse_route_item parse_v2 parse_v4 is_comment only_space span text_eq
empty_line true = refl
empty_line false = refl

-- The header's line, without its newline.
abbrev comment : Text
comment = codes "# auto generated, please donnot  modify"

comment-Lacks : Lacks b'\n' comment
comment-Lacks = ground arith

comment-ignored : parse_route_item comment api_v2 ≡ ignored
unfolding parse_route_item parse_v2 is_comment only_space span is_space text_eq
comment-ignored = refl

-- Routes of API 2.0 or 4.0 that are printed and parsed are the routes again, in their order and
-- without an error, given that each has keys, operators and values of the characters that its
-- pattern allows, no value with the separator in it, and in API 2.0 no first match and the
-- operator `=`.
pub parse-route_string :
    (newer : Bool) (items : List RouteItem)
    → All (IsReadable newer) items
    → let cfg : RouteCfg = record { api_version = version_of newer; route_items = items } in
      parse (route_string cfg) cfg.api_version ≡ (cfg, [])
unfolding parse route_string text_eq
parse-route_string true items h =
    ap (λ (r : List RouteItem × Errors). (record { api_version = api_v4; route_items = r.0 }, r.1))
      (parse_lines-print_items api_v4 items (empty_line true) (All-lines true items h))
parse-route_string false items h =
    ap (λ (r : List RouteItem × Errors). (record { api_version = api_v2; route_items = r.0 }, r.1))
      (ap (λ s. parse_lines api_v2 (split b'\n' s)) (print_items-append api_v2 items header [])
        ∙ ap (parse_lines api_v2) (
            split-append b'\n' comment (print_items (route_sep api_v2) (field_sep api_v2) items [])
              comment-Lacks)
        ∙ parse_lines-ignored api_v2 comment _ comment-ignored
        ∙ parse_lines-print_items api_v2 items (empty_line false) (All-lines false items h))
