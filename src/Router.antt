-- ===== src/Router.antt =====
-- controllers/java/router/types.go: the routes of a Java service, which are kept in ZooKeeper as a
-- text with one route on a line. The regular expressions are written out: at no place of a line can
-- more than one of their parts match.
pub mod Clauses
pub mod Patterns
pub mod Lines
pub mod Arrows
pub mod RoundTrip
pub mod Node
use snk_fork_dolphin.Base.{
  ℕ, ◌++◌, Bool, true, false, ◌&&◌, ◌||◌, List, [], ◌∷◌, Option, none, some, if◌then◌else◌, ◌==◌,
  is_empty,
}
use snk_fork_dolphin.Base.Chars.{is_word, is_space, is_blank, span, trim}
use snk_fork_dolphin.Base.Path.{split, join}
use snk_fork_dolphin.Base.Text.{Text, codes, text_eq}
use snk_fork_dolphin.Types.Fault.{Errors, unknown_route_item, unknown_route_version}

pub record Match : Type 0 where
  pub key : Text
  pub op : Text
  pub value : List Text

abbrev pub no_match : Match
no_match = record { key = []; op = []; value = [] }

pub record RouteItem : Type 0 where
  pub src : Match
  pub dst : Match

pub record RouteCfg : Type 0 where
  pub api_version : Text
  pub route_items : List RouteItem

abbrev pub api_v2 : Text
api_v2 = codes "2.0"

abbrev pub api_v4 : Text
api_v4 = codes "4.0"

-- `Match.getValue`; the separator is one byte.
unfoldable pub get_value : ℕ → Match → Text
get_value sep m = trim is_blank (m.key ++ (m.op ++ join sep m.value))

-- `RouteItem.getValue`
unfoldable pub item_value : Text → ℕ → RouteItem → Text
unfolding get_value
item_value sep fsep ri = trim is_blank (
    get_value fsep ri.src
    ++ (codes " " ++ (sep ++ (codes " " ++ (get_value fsep ri.dst ++ codes "\n")))))

-- The loop of `RouteCfg.String`.
unfoldable pub print_items : Text → ℕ → List RouteItem → Text → Text
print_items sep fsep [] ret = ret
print_items sep fsep (item ∷ items) ret =
    print_items sep fsep items (ret ++ item_value sep fsep item)

abbrev pub header : Text
header = codes "# auto generated, please donnot  modify\n"

abbrev pub route_sep : Text → Text
route_sep version = if text_eq version api_v4 then codes "=>" else []

abbrev pub field_sep : Text → ℕ
field_sep version = if text_eq version api_v4 then b',' else b';'

-- `RouteCfg.String`
unfoldable pub route_string : RouteCfg → Text
unfolding print_items
route_string rc =
    let ret = if text_eq rc.api_version api_v2 then header else [] in
    print_items (route_sep rc.api_version) (field_sep rc.api_version) rc.route_items ret

-- The classes of characters in the keys and the values.
unfoldable pub v2_key : ℕ → Bool
unfolding is_word
v2_key c = c == b'-' || is_word c

unfoldable pub v2_value : ℕ → Bool
unfolding is_word
v2_value c = c == b'-' || c == b'/' || c == b'.' || c == b':' || c == b';' || c == b',' || is_word c

unfoldable pub v4_key : ℕ → Bool
unfolding is_word
v4_key c = c == b'-' || c == b'*' || is_word c

unfoldable pub v4_value : ℕ → Bool
unfolding is_word
v4_value c = c == b'-' || c == b'/' || c == b'.' || c == b':' || c == b',' || c == b'*' || is_word c

abbrev pub skip_space : Text → Text
skip_space s = (span is_space s).1

-- `\s*` at the end of a pattern.
unfoldable pub only_space : Text → Bool
only_space s = is_empty (skip_space s)

-- A run that is not empty.
unfoldable pub run_of : (ℕ → Bool) → Text → Option (Text × Text)
run_of p s = let (run, rest) = span p s in if is_empty run then none else some (run, rest)

-- `(=)` and `(!?=)`.
unfoldable pub eq_op : Text → Option (Text × Text)
eq_op (c ∷ s) = if c == b'=' then some (codes "=", s) else none
eq_op [] = none

unfoldable pub any_op : Text → Option (Text × Text)
any_op (c ∷ d ∷ s) =
    if c == b'!' && d == b'='
    then some (codes "!=", s)
    else (if c == b'=' then some (codes "=", d ∷ s) else none)
any_op s = eq_op s

-- `(key+)\s*(op)\s*(value+)`: the three parts, and what is left.
unfoldable pub clause :
    (Text → Option (Text × Text))
    → (ℕ → Bool)
    → (ℕ → Bool)
    → Text
    → Option ((Text × Text × Text) × Text)
clause op in_key in_value s = elim (run_of in_key s) [
  | none ↦ none
  | some (key, s') ↦ elim (op (skip_space s')) [
    | none ↦ none
    | some (o, s'') ↦ elim (run_of in_value (skip_space s'')) [
      | none ↦ none
      | some (v, rest) ↦ some ((key, o, v), rest)
    ]
  ]
]

-- `v2Re`
unfoldable pub match_v2 : Text → Option (Text × Text × Text)
match_v2 p = elim (clause eq_op v2_key v2_value (skip_space p)) [
  | none ↦ none
  | some (parts, rest) ↦ if only_space rest then some parts else none
]

-- `\s*=>\s*`
unfoldable pub arrow : Text → Option Text
arrow s = elim (skip_space s) [
  | [] ↦ none
  | c ∷ [] ↦ none
  | c ∷ d ∷ rest ↦ if c == b'=' && d == b'>' then some (skip_space rest) else none
]

-- The optional first clause of `v4Re`, or three empty parts.
unfoldable pub first_clause : Text → (Text × Text × Text) × Text
first_clause s = elim (clause any_op v4_key v4_value s) [
  | none ↦ (([], [], []), s)
  | some found ↦ found
]

-- `v4Re`
unfoldable pub match_v4 : Text → Option ((Text × Text × Text) × (Text × Text × Text))
unfolding first_clause
match_v4 p =
    let (src, rest) = first_clause (skip_space p) in
    elim (arrow rest) [
      | none ↦ none
      | some s ↦ elim (clause any_op v4_key v4_value s) [
        | none ↦ none
        | some (dst, rest') ↦ if only_space rest' then some (src, dst) else none
      ]
    ]

-- `commentRe`
unfoldable pub is_comment : Text → Bool
is_comment p = elim (skip_space p) [ [] ↦ false | c ∷ rest ↦ c == b'#' ]

-- What `parseRouteItem` returns: nothing, an item, or an error.
pub data ParsedItem : Type 0 where
  ignored : ParsedItem
  item : RouteItem → ParsedItem
  failed : Errors → ParsedItem

unfoldable pub dst_of : ℕ → Text × Text × Text → Match
dst_of fsep (k, o, v) = record { key = k; op = o; value = split fsep v }

unfoldable pub src_of : Text × Text × Text → Match
src_of (k, o, v) = record { key = k; op = o; value = if is_empty v then [] else split b',' v }

unfoldable pub parse_v2 : Text → ParsedItem
parse_v2 p = if is_comment p || only_space p then ignored else elim (match_v2 p) [
  | none ↦ failed (unknown_route_item ∷ [])
  | some dst ↦ item (record { src = no_match; dst = dst_of b';' dst })
]

unfoldable pub parse_v4 : Text → ParsedItem
parse_v4 p = if only_space p then ignored else elim (match_v4 p) [
  | none ↦ failed (unknown_route_item ∷ [])
  | some (src, dst) ↦ item (record { src = src_of src; dst = dst_of b',' dst })
]

-- `parseRouteItem`
unfoldable pub parse_route_item : Text → Text → ParsedItem
parse_route_item val version =
    if text_eq version api_v2
    then parse_v2 val
    else (if text_eq version api_v4 then parse_v4 val else failed (unknown_route_version ∷ []))

-- The loop of `Parse`: the items and the errors of the lines.
unfoldable pub parse_lines : Text → List Text → List RouteItem × Errors
parse_lines version [] = ([], [])
parse_lines version (p ∷ ps) =
    let (items, errors) = parse_lines version ps in
    elim (parse_route_item p version) [
      | ignored ↦ (items, errors)
      | item ri ↦ (ri ∷ items, errors)
      | failed e ↦ (items, e ++ errors)
    ]

-- `Parse`
unfoldable pub parse : Text → Text → RouteCfg × Errors
parse content version =
    let (items, errors) = parse_lines version (split b'\n' content) in
    (record { api_version = version; route_items = items }, errors)
