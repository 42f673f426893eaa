-- ===== src/Tests/Routes.antt =====
-- Routes of controllers/java/router at concrete inputs.
use snk_fork_dolphin.Base.{◌≡◌, refl, arith, true, [], ◌∷◌, inl, inr}
use snk_fork_dolphin.Base.Text.{codes}
use snk_fork_dolphin.Router.{
  no_match, RouteItem, RouteCfg, api_v4, parse, route_string, v4_key, v4_value,
}
use snk_fork_dolphin.Router.Clauses.{IsPrintable, is_eq, is_ne}
use snk_fork_dolphin.Router.Patterns.{v4}
use snk_fork_dolphin.Base.Path.{join}
use snk_fork_dolphin.Router.RoundTrip.{parse-route_string}

abbrev to_version : RouteItem
to_version = record {
  src = record { key = codes "host"; op = codes "!="; value = codes "a1" ∷ codes "a2" ∷ [] };
  dst = record { key = codes "version"; op = codes "="; value = codes "1.2" ∷ [] };
}

abbrev to_any : RouteItem
to_any = record { src = no_match; dst = to_version.dst }

to_a-IsPrintable : IsPrintable v4 to_version.src
unfolding v4_key v4_value join
to_a-IsPrintable = record {
  is_op = is_ne;
  key_chars = ground arith;
  key_filled = refl;
  value_chars = ground arith;
  no_sep = ground arith;
  value_filled = refl;
}

to_b-IsPrintable : IsPrintable v4 to_version.dst
unfolding v4_key v4_value join
to_b-IsPrintable = record {
  is_op = is_eq;
  key_chars = ground arith;
  key_filled = refl;
  value_chars = ground arith;
  no_sep = ground arith;
  value_filled = refl;
}

parse-route_string_example :
    let cfg : RouteCfg = record { api_version = api_v4; route_items = to_version ∷ to_any ∷ [] } in
    parse (route_string cfg) cfg.api_version ≡ (cfg, [])
parse-route_string_example = parse-route_string true (to_version ∷ to_any ∷ []) (
  record { src = inr to_a-IsPrintable; dst = to_b-IsPrintable },
  (record { src = inl refl; dst = to_b-IsPrintable }, tt),
)
