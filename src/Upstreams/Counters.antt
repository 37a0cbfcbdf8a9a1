-- ===== src/Upstreams/Counters.antt =====
-- Upstreams: what a pick and a release do to the counters of the nodes.
use secure_edge_platform.Prelude.{
  ℕ, zero, suc, ◌+◌, ◌-◌, ◌%◌, ◌^◌, ◌<◌, ◌≡◌, refl, ap, sym, ◌∙◌, ◌⊎◌, ◌≢◌, inl, inr, Bool, true,
  false, not, none, some, List, [], ◌∷◌, arith, length, ◌==◌, if◌then◌else◌, Bool-cases,
  Option-cases,
}
use mathlib.Core.Path.{subst₂}
use secure_edge_platform.Prelude.Int.{pos, ◌+ℤ◌, ◌-ℤ◌}
use secure_edge_platform.Upstreams.Nodes.{
  Upstream, read, update, read-update, read-update_ne, length-update,
}
use secure_edge_platform.Upstreams.{
  Algorithm, Pool, Arithmetic, Choice, Round, gain, smooth_loop, settle, pick_smooth_weighted,
  pick_group, pick_priority, schedule, schedule_by, pick_random_weighted, pick_round_robin,
  weighted_round_robin, least_connections, priority_failover, adaptive_latency, random_weighted,
  round_robin, total_weight, count_pick, pick_from, pick, candidates, picked, nothing, panics,
  Outcome, release_active, set_node_health, group_of, minimum_from,
}

-- A node but for its current weight.
abbrev pub settled : Upstream → Upstream
settled u = record u { current_weight = pos 0 }

-- The same nodes but for the current weights.
abbrev SameNodes : List Upstream → List Upstream → Type 0
SameNodes us vs = (length us ≡ length vs) × ((j : ℕ) → settled (read us j) ≡ settled (read vs j))

settled-update :
    (us : List Upstream) (i j : ℕ) (f : Upstream → Upstream)
    → ((u : Upstream) → settled (f u) ≡ settled u)
    → settled (read (update us i f) j) ≡ settled (read us j)
unfolding read update
settled-update [] i j f h = refl
settled-update (u ∷ us) zero zero f h = h u
settled-update (u ∷ us) zero (suc j) f h = refl
settled-update (u ∷ us) (suc i) zero f h = refl
settled-update (u ∷ us) (suc i) (suc j) f h = settled-update us i j f h

update-SameNodes :
    (us : List Upstream) (i : ℕ) (f : Upstream → Upstream)
    → ((u : Upstream) → settled (f u) ≡ settled u)
    → SameNodes (update us i f) us
update-SameNodes us i f h = (length-update us i f, λ j. settled-update us i j f h)

smooth_loop-SameNodes :
    (weight : Upstream → ℕ) (is : List ℕ) (r : Round)
    → SameNodes (smooth_loop weight is r).nodes r.nodes
unfolding smooth_loop gain
smooth_loop-SameNodes weight [] r = (refl, λ j. refl)
smooth_loop-SameNodes weight (i ∷ is) r =
    let (p, q) = smooth_loop-SameNodes weight is _ in
    let (s, t) =
      update-SameNodes r.nodes i
        (λ u. record u { current_weight = u.current_weight +ℤ pos (weight (read r.nodes i)) })
        (λ u. refl) in
    (p ∙ s, λ j. q j ∙ t j)

settle-SameNodes : (r : Round) → SameNodes (settle r).0 r.nodes
unfolding settle
settle-SameNodes r = elim (Option-cases r.selected) [
  | inl e ↦ rw (e, settle) (refl, λ j. refl)
  | inr (s, e) ↦
      rw (e, settle)
        (update-SameNodes r.nodes s
          (λ u. record u { current_weight = u.current_weight -ℤ pos r.total }) (λ u. refl))
]

pick_smooth_weighted-SameNodes :
    (weight : Upstream → ℕ) (nodes : List Upstream) (is : List ℕ)
    → SameNodes (pick_smooth_weighted weight nodes is).0 nodes
unfolding pick_smooth_weighted
pick_smooth_weighted-SameNodes weight nodes is =
    let r : Round = smooth_loop weight is (record { nodes = nodes; total = 0; selected = none }) in
    let (p, q) = settle-SameNodes r in
    let (s, t) =
      smooth_loop-SameNodes weight is (record { nodes = nodes; total = 0; selected = none }) in
    (p ∙ s, λ j. q j ∙ t j)

pick_group-SameNodes : (nodes : List Upstream) (l : List ℕ) → SameNodes (pick_group nodes l).0 nodes
unfolding pick_group
pick_group-SameNodes nodes [] = pick_smooth_weighted-SameNodes (λ u. u.weight) nodes []
pick_group-SameNodes nodes (i ∷ []) = (refl, λ j. refl)
pick_group-SameNodes nodes (i ∷ k ∷ l) =
    pick_smooth_weighted-SameNodes (λ u. u.weight) nodes (i ∷ k ∷ l)

schedule-SameNodes :
    (a : Arithmetic) (p : Pool) (i : ℕ) (is : List ℕ)
    → SameNodes (schedule a p i is).0.nodes p.nodes
unfolding schedule
schedule-SameNodes a p i is = go p.algorithm
  where
    go : (g : Algorithm) → SameNodes (schedule_by a g p i is).0.nodes p.nodes
    go weighted_round_robin =
        unfold schedule_by in pick_smooth_weighted-SameNodes (λ u. u.weight) p.nodes (i ∷ is)
    go least_connections = unfold schedule_by in (refl, λ j. refl)
    go priority_failover =
        unfold schedule_by pick_priority in
        pick_group-SameNodes p.nodes
          (group_of p.nodes (minimum_from p.nodes (read p.nodes i).priority is) (i ∷ is))
    go adaptive_latency =
        unfold schedule_by in pick_smooth_weighted-SameNodes a.adaptive_weight p.nodes (i ∷ is)
    go random_weighted =
        unfold schedule_by pick_random_weighted in
        elim (Bool-cases (total_weight p.nodes (i ∷ is) == 0)) [
          | inl e ↦ rw e (refl, λ j. refl)
          | inr e ↦ rw e (refl, λ j. refl)
        ]
    go round_robin = unfold schedule_by pick_round_robin in (refl, λ j. refl)

-- What a pick and the release of its node have done to the nodes of a pool.
pub record IsCounted (us picked_us released_us : List Upstream) (s : ℕ) : Type 0 where
  pub chosen : s < length us → (read picked_us s).active ≡ (read us s).active + 1
  pub others : (j : ℕ) → j ≢ s → settled (read picked_us j) ≡ settled (read us j)
  pub released : (j : ℕ) → (read released_us j).active ≡ (read us j).active
  pub health : (j : ℕ) → (read released_us j).healthy ≡ (read us j).healthy

abbrev raise : Upstream → Upstream
raise u = record u { selections = (u.selections + 1) % 2 ^ 64; active = u.active + 1 }

abbrev lower : Upstream → Upstream
lower u = record u { active = u.active - 1 }

lower-raise :
    (vs : List Upstream) (k j : ℕ)
    → ((read (update (update vs k raise) k lower) j).active ≡ (read vs j).active)
      × ((read (update (update vs k raise) k lower) j).healthy ≡ (read vs j).healthy)
unfolding read update
lower-raise [] k j = (refl, refl)
lower-raise (u ∷ vs) zero zero = (omega arith, refl)
lower-raise (u ∷ vs) zero (suc j) = (refl, refl)
lower-raise (u ∷ vs) (suc k) zero = (refl, refl)
lower-raise (u ∷ vs) (suc k) (suc j) = lower-raise vs k j

counted :
    (us vs : List Upstream) (k : ℕ)
    → SameNodes vs us
    → IsCounted us (update vs k raise) (update (update vs k raise) k lower) k
counted us vs k same = record {
  chosen = λ h.
      ap (λ u. u.active) (read-update vs k raise (omega (arith, same.0)))
      ∙ ap (λ u. u.active + 1) (same.1 k);
  others = λ j other. ap settled (read-update_ne vs k j raise (λ e. other (sym e))) ∙ same.1 j;
  released = λ j. (lower-raise vs k j).0 ∙ ap (λ u. u.active) (same.1 j);
  health = λ j. (lower-raise vs k j).1 ∙ ap (λ u. u.healthy) (same.1 j);
}

abbrev nodes_of : Outcome → List Upstream
nodes_of nothing = []
nodes_of panics = []
nodes_of (picked q s) = q.nodes

abbrev place_of : Outcome → ℕ
place_of nothing = 0
place_of panics = 0
place_of (picked q s) = s

count_pick-IsCounted :
    (c : Choice) (us : List Upstream) (q : Pool) (s : ℕ)
    → SameNodes c.0.nodes us
    → count_pick c ≡ picked q s
    → IsCounted us q.nodes (release_active q s).nodes s
unfolding count_pick release_active
count_pick-IsCounted (p, none) us q s same e = cc
count_pick-IsCounted (p, some k) us q s same e =
    subst₂ (λ vs i. IsCounted us vs (update vs i lower) i) (ap nodes_of e) (ap place_of e)
      (counted us p.nodes k same)

-- A pick counts one more request at the node that it picks and changes nothing at the others but
-- current weights; the release then gives every node its number of requests back. Neither touches a
-- node's health.
pub pick-IsCounted :
    (a : Arithmetic) (p q : Pool) (exclude : List ℕ) (s : ℕ)
    → pick a p exclude ≡ picked q s
    → IsCounted p.nodes q.nodes (release_active q s).nodes s
unfolding pick
pick-IsCounted a p q exclude s e = go (candidates p exclude) e
  where
    go :
        (l : List ℕ)
        → pick_from a p l ≡ picked q s
        → IsCounted p.nodes q.nodes (release_active q s).nodes s
    go [] f = unfold pick_from in cc f
    go (i ∷ is) f =
        unfold pick_from in
        count_pick-IsCounted (schedule a p i is) p.nodes q s (schedule-SameNodes a p i is) f

-- A health check that finds a node as it was reports nothing and counts nothing; one that finds a
-- change reports it and counts one recovery or one failure.
set_node_health_lem :
    (u : Upstream) (found : Bool)
    → ((set_node_health u found).0.healthy ≡ found)
      × (((set_node_health u found).1 ≡ false)
            × (u.healthy ≡ found)
            × ((set_node_health u found).0 ≡ u)
          ⊎ ((set_node_health u found).1 ≡ true)
            × (u.healthy ≡ not found)
            × ((set_node_health u found).0.health_failures
                ≡ (if found then u.health_failures else (u.health_failures + 1) % 2 ^ 64))
            × ((set_node_health u found).0.health_recoveries
                ≡ (if found then (u.health_recoveries + 1) % 2 ^ 64 else u.health_recoveries)))
unfolding set_node_health
set_node_health_lem u true = ground arith
set_node_health_lem u false = ground arith
