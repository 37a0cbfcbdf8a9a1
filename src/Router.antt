-- ===== src/Router.antt =====
-- apps/edgeproxy/internal/router/router.go: the route of a request, by its host and its path.
-- A score of -1 is none. `ip` is net.ParseIP followed by String: the canonical text of an address.
pub mod Hosts
pub mod Selection
mod Examples
use secure_edge_platform.Prelude.{
  ℕ, zero, suc, ◌+◌, Bool, true, false, not, ◌&&◌, ◌||◌, Option, none, some, List, [], ◌∷◌, ◌++◌,
  length, drop, ltb, ◌==◌, if◌then◌else◌,
}
use mathlib.Core.List.{reverse}
use secure_edge_platform.Prelude.Text.{
  Str, codes, same, has_prefix, has_suffix, trim_prefix, trim_suffix, trim_space, to_lower,
}
use secure_edge_platform.Paths.{canonical_request_path, path_prefix_matches}
use Hosts.{split_host_port}

pub record Route : Type 0 where
  pub name : Str
  pub hosts : List Str
  pub path_prefix : Str

pub canonical_host : (Str → Option Str) → Str → Str
unfolding split_host_port
canonical_host ip raw =
    let hostport = trim_space raw in
    let host : Str = elim (split_host_port hostport) [
      | some (host, port) ↦ host
      | none ↦
          if has_prefix hostport (codes "[") && has_suffix hostport (codes "]")
          then elim (ip (trim_suffix (trim_prefix hostport (codes "[")) (codes "]"))) [
            | none ↦ hostport
            | some address ↦ address
          ]
          else hostport
    ] in
    to_lower (trim_suffix host (codes "."))

-- One pattern of a route: the score at which it matches the host.
pub pattern_score : Str → Str → Option ℕ
pattern_score raw host =
    let p = to_lower (trim_space (trim_suffix raw (codes "."))) in
    let suffix = trim_prefix p (codes "*") in
    if same p (codes "*")
    then some 1
    else if has_prefix p (codes "*.")
    then (if has_suffix host suffix && not (same host (trim_prefix suffix (codes ".")))
        then some (1_000 + length suffix)
        else none)
    else if same p host
    then some (1_000_000 + length p)
    else none

-- score > best
abbrev above : Option ℕ → Option ℕ → Bool
above none best = false
above (some s) none = true
above (some s) (some b) = ltb b s

-- The loop of hostMatchSpecificity; "*" replaces a best below 1, and its score is 1.
pub host_score_from : Str → List Str → Option ℕ → Option ℕ
unfolding pattern_score
host_score_from host [] best = best
host_score_from host (raw ∷ ps) best =
    host_score_from host ps
      (if above (pattern_score raw host) best then pattern_score raw host else best)

-- None where no pattern matches.
pub host_score : List Str → Str → Option ℕ
unfolding host_score_from
host_score patterns host = host_score_from host patterns none

-- The best route so far, with the length of its prefix and its host's score.
pub record Best : Type 0 where
  pub route : Route
  pub path_length : ℕ
  pub score : ℕ

abbrev pub beats : Route → ℕ → Option Best → Bool
beats route score none = true
beats route score (some b) =
    ltb b.path_length (length route.path_prefix)
    || length route.path_prefix == b.path_length && ltb b.score score

pub consider : Str → Str → Route → Option Best → Option Best
unfolding host_score
consider host path route best = elim (host_score route.hosts host) [
  | none ↦ best
  | some score ↦
      if not (path_prefix_matches path route.path_prefix)
      then best
      else if beats route score best
      then some (record { route = route; path_length = length route.path_prefix; score = score })
      else best
]

pub match_from : Str → Str → List Route → Option Best → Option Best
unfolding consider
match_from host path [] best = best
match_from host path (route ∷ rest) best = match_from host path rest (consider host path route best)

abbrev pub route_of : Option Best → Option Route
route_of none = none
route_of (some b) = some b.route

-- Match, for the Host header and the path of a request.
pub match_route : (Str → Option Str) → List Route → Str → Str → Option Route
unfolding canonical_host match_from
match_route ip routes host path =
    route_of (match_from (canonical_host ip host) (canonical_request_path path) routes none)
