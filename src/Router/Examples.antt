-- ===== src/Router/Examples.antt =====
-- Router: tests at concrete inputs.
use secure_edge_platform.Prelude.{◌≡◌, refl, Option, none, some, List, [], ◌∷◌}
use secure_edge_platform.Prelude.Text.{
  Str, codes, has_prefix, has_suffix, trim_prefix, trim_suffix, strip_prefix, trim_space, trim_left,
  is_space, to_lower, lower, split, str_dec,
}
use secure_edge_platform.Paths.{
  canonical_request_path, clean_rooted, clean_parts, clean_part, join, path_prefix_matches,
}
use secure_edge_platform.Router.Hosts.{
  split_host_port, unbracketed, bracketed, cut_last, cut, contains,
}
use secure_edge_platform.Router.{
  Route, canonical_host, match_route, match_from, consider, host_score, host_score_from,
  pattern_score,
}
use secure_edge_platform.Router.Selection.{IsBestMatch, match_route-IsBestMatch}

program : Unit {0}
unfolding canonical_host match_route match_from consider host_score host_score_from pattern_score
    canonical_request_path clean_rooted clean_parts clean_part join path_prefix_matches
    split_host_port unbracketed bracketed cut_last cut contains has_prefix has_suffix trim_prefix
    trim_suffix strip_prefix trim_space trim_left is_space to_lower lower split str_dec
program = tt

-- No text is an address.
abbrev no_ip : Str → Option Str
no_ip s = none

abbrev wildcard : Route
wildcard = record {
  name = codes "wild";
  hosts = codes "*.example.com" ∷ [];
  path_prefix = codes "/api";
}

abbrev exact : Route
exact = record {
  name = codes "exact";
  hosts = codes "A.example.com" ∷ [];
  path_prefix = codes "/api";
}

abbrev any_host : Route
any_host = record { name = codes "any"; hosts = codes "*" ∷ []; path_prefix = codes "/" }

abbrev routes : List Route
routes = any_host ∷ wildcard ∷ exact ∷ []

exact_wins :
    match_route no_ip routes (codes "a.EXAMPLE.com.:8080") (codes "/api/../api/x") ≡ some exact
unfolding program
exact_wins = refl

match_route-IsBestMatch_example :
    IsBestMatch
      (canonical_host no_ip (codes "a.EXAMPLE.com.:8080"))
      (canonical_request_path (codes "/api/../api/x"))
      routes
      (match_route no_ip routes (codes "a.EXAMPLE.com.:8080") (codes "/api/../api/x"))
match_route-IsBestMatch_example =
    match_route-IsBestMatch no_ip routes (codes "a.EXAMPLE.com.:8080") (codes "/api/../api/x")
