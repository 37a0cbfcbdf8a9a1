-- ===== src/Router/Selection.antt =====
-- Router: Match returns a matching route that no other matching route beats, or none matches.
use secure_edge_platform.Prelude.{
  ℕ, ◌≤◌, ◌<◌, ◌≡◌, refl, sym, ◌∙◌, ◌⊎◌, inl, inr, Bool, true, false, Option, none, some, List, [],
  ◌∷◌, arith, length, All, if◌then◌else◌, Bool-cases, Option-cases,
}
use secure_edge_platform.Prelude.Text.{Str}
use secure_edge_platform.Paths.{canonical_request_path, path_prefix_matches}
use secure_edge_platform.Router.{
  Route, Best, canonical_host, host_score, beats, consider, match_from, match_route, route_of,
}

abbrev entry_if : Bool → Best → Option Best
entry_if true b = some b
entry_if false b = none

-- A route as a match of a request: the length of its prefix and its host's score; none if its hosts
-- or its prefix do not match.
unfoldable pub candidate : Str → Str → Route → Option Best
candidate host path route = elim (host_score route.hosts host) [
  | none ↦ none
  | some score ↦
      entry_if (path_prefix_matches path route.path_prefix)
        (record { route = route; path_length = length route.path_prefix; score = score })
]

-- A match is at least as good as another: by its prefix first, then by its host.
abbrev IsAsGood : Option Best → Option Best → Type 0
IsAsGood o none = Unit {0}
IsAsGood none (some c) = ⊥
IsAsGood (some b) (some c) =
    (c.path_length < b.path_length) ⊎ (c.path_length ≡ b.path_length) × (c.score ≤ b.score)

-- The result is the match of one of the routes.
abbrev ComesFrom : Str → Str → Option Best → List Route → Type 0
ComesFrom host path o [] = ⊥
ComesFrom host path o (r ∷ rs) = (candidate host path r ≡ o) ⊎ ComesFrom host path o rs

IsAsGood-trans : (a b c : Option Best) → IsAsGood a b → IsAsGood b c → IsAsGood a c
IsAsGood-trans a b none p q = tt
IsAsGood-trans a none (some c) p q = absurd q
IsAsGood-trans none (some b) (some c) p q = absurd p
IsAsGood-trans (some a) (some b) (some c) p q = ground arith

IsAsGood-refl : (a : Option Best) → IsAsGood a a
IsAsGood-refl none = tt
IsAsGood-refl (some a) = inr (refl, omega arith)

-- One round keeps the better of the best so far and the route's own match.
abbrev Considered : Option Best → Option Best → Option Best → Type 0
Considered kept best own = IsAsGood kept best × IsAsGood kept own × ((kept ≡ best) ⊎ (kept ≡ own))

abbrev own_match : Route → ℕ → Option Best
own_match route score =
    some (record { route = route; path_length = length route.path_prefix; score = score })

keep_better :
    (route : Route) (score : ℕ) (best : Option Best)
    → Considered
        (if beats route score best then own_match route score else best)
        best
        (own_match route score)
keep_better route score none = (tt, IsAsGood-refl (own_match route score), inr refl)
keep_better route score (some b) = ground arith

consider_lem :
    (host path : Str) (route : Route) (best : Option Best)
    → Considered (consider host path route best) best (candidate host path route)
unfolding consider candidate
consider_lem host path route best = elim (Option-cases (host_score route.hosts host)) [
  | inl e ↦ rw (e, consider, candidate) (IsAsGood-refl best, tt, inl refl)
  | inr (score, e) ↦ elim (Bool-cases (path_prefix_matches path route.path_prefix)) [
    | inl f ↦ rw (e, f, consider, candidate) (keep_better route score best)
    | inr f ↦ rw (e, f, consider, candidate) (IsAsGood-refl best, tt, inl refl)
  ]
]

-- What the loop keeps is as good as every route's match, and is the first best or a route's match.
match_from_lem :
    (host path : Str) (routes : List Route) (best : Option Best)
    → IsAsGood (match_from host path routes best) best
      × All (λ r. IsAsGood (match_from host path routes best) (candidate host path r)) routes
      × ((match_from host path routes best ≡ best)
          ⊎ ComesFrom host path (match_from host path routes best) routes)
unfolding match_from
match_from_lem host path [] best = (IsAsGood-refl best, tt, inl refl)
match_from_lem host path (r ∷ rs) best =
    let next = consider host path r best in
    let kept = match_from host path rs next in
    let (at_least, all, from) = match_from_lem host path rs next in
    let (c_best, c_own, c_from) = consider_lem host path r best in
    (
      IsAsGood-trans kept next best at_least c_best,
      (IsAsGood-trans kept next (candidate host path r) at_least c_own, all),
      elim from [
        | inl e ↦ elim c_from [ inl f ↦ inl (e ∙ f) | inr f ↦ inr (inl (sym f ∙ sym e)) ]
        | inr f ↦ inr (inr f)
      ],
    )

-- The answer is the route of the best match, and none only where no route matches.
abbrev pub IsBestMatch : Str → Str → List Route → Option Route → Type 0
IsBestMatch host path routes none = All (λ r. candidate host path r ≡ none) routes
IsBestMatch host path routes (some route) =
    (b : Best) × (b.route ≡ route)
    × ComesFrom host path (some b) routes
    × All (λ r. IsAsGood (some b) (candidate host path r)) routes

none_best : (o : Option Best) → IsAsGood none o → o ≡ none
none_best none p = refl
none_best (some b) p = absurd p

All-none :
    (host path : Str) (routes : List Route)
    → All (λ r. IsAsGood none (candidate host path r)) routes
    → All (λ r. candidate host path r ≡ none) routes
All-none host path [] p = tt
All-none host path (r ∷ rs) (p, ps) =
    (none_best (candidate host path r) p, All-none host path rs ps)

best_match :
    (host path : Str) (routes : List Route) (o : Option Best)
    → All (λ r. IsAsGood o (candidate host path r)) routes
    → ((o ≡ none) ⊎ ComesFrom host path o routes)
    → IsBestMatch host path routes (route_of o)
best_match host path routes none all from = All-none host path routes all
best_match host path routes (some b) all (inl e) = ground arith
best_match host path routes (some b) all (inr f) = (b, refl, f, all)

-- Match returns a route of the list whose hosts and prefix match the request's host and path, both
-- canonical, and no route that matches too has a longer prefix, or a prefix as long and a host of a
-- higher score; it returns none only where no route matches.
pub match_route-IsBestMatch :
    (ip : Str → Option Str) (routes : List Route) (host path : Str)
    → IsBestMatch
        (canonical_host ip host)
        (canonical_request_path path)
        routes
        (match_route ip routes host path)
unfolding match_route
match_route-IsBestMatch ip routes host path =
    let (_, all, from) =
      match_from_lem (canonical_host ip host) (canonical_request_path path) routes none in
    best_match (canonical_host ip host) (canonical_request_path path) routes _ all from
