-- ===== src/Upstreams/History.antt =====
-- Upstreams: a pool from its start, through any picks, releases and health checks.
use secure_edge_platform.Prelude.{
  ℕ, zero, suc, ◌<◌, ◌≡◌, refl, ap, subst, ◌∙◌, inl, inr, Bool, true, false, not, none, some, List,
  [], ◌∷◌, arith, length, All, Bool-cases, Option-cases,
}
use secure_edge_platform.Prelude.Text.{Str}
use secure_edge_platform.Prelude.Int.{pos, ◌+ℤ◌}
use secure_edge_platform.Upstreams.Nodes.{Upstream, update, Among}
use secure_edge_platform.Upstreams.{
  Pool, Arithmetic, Outcome, nothing, panics, picked, pick, pick_from, count_pick, candidates,
  schedule, Choice, release_active, set_node_health,
}
use secure_edge_platform.Upstreams.Picks.{candidates-IsGoodPick}
use secure_edge_platform.Upstreams.Weights.{balance, balance-schedule}
use secure_edge_platform.Upstreams.Setup.{RouteConfig, UpstreamConfig, new_nodes, new_upstream_pool}

-- A pick that leaves out some nodes, the end of a request at a node, and a health check of a node.
pub data Call : Type 0 where
  picks : List ℕ → Call
  releases : ℕ → Call
  checks : ℕ → Bool → Call

abbrev after : Pool → Outcome → Pool
after p nothing = p
after p panics = p
after p (picked q s) = q

unfoldable pub step : Arithmetic → Pool → Call → Pool
step a p (picks exclude) = after p (pick a p exclude)
step a p (releases i) = release_active p i
step a p (checks i healthy) = record p {
  nodes = update p.nodes i (λ u. (set_node_health u healthy).0);
}

unfoldable pub run : Arithmetic → Pool → List Call → Pool
unfolding step
run a p [] = p
run a p (c ∷ cs) = run a (step a p c) cs

balance-update_same :
    (us : List Upstream) (i : ℕ) (f : Upstream → Upstream)
    → ((u : Upstream) → (f u).current_weight ≡ u.current_weight)
    → balance (update us i f) ≡ balance us
unfolding balance update
balance-update_same [] i f h = refl
balance-update_same (u ∷ us) zero f h = ap (λ w. w +ℤ balance us) (h u)
balance-update_same (u ∷ us) (suc i) f h =
    ap (λ b. u.current_weight +ℤ b) (balance-update_same us i f h)

set_node_health_weight :
    (u : Upstream) (b : Bool) → (set_node_health u b).0.current_weight ≡ u.current_weight
unfolding set_node_health
set_node_health_weight u true = ground arith
set_node_health_weight u false = ground arith

All-of_Among : (n : ℕ) (l : List ℕ) → ((s : ℕ) → Among s l → s < n) → All (λ j. j < n) l
All-of_Among n [] h = tt
All-of_Among n (i ∷ l) h = (h i (inl refl), All-of_Among n l (λ s m. h s (inr m)))

balance-count_pick :
    (p : Pool) (c : Choice)
    → balance c.0.nodes ≡ balance p.nodes
    → balance (after p (count_pick c)).nodes ≡ balance p.nodes
unfolding count_pick
balance-count_pick p (q, none) h = refl
balance-count_pick p (q, some s) h = balance-update_same q.nodes s _ (λ u. refl) ∙ h

balance-pick_from :
    (a : Arithmetic) (p : Pool) (l : List ℕ)
    → All (λ j. j < length p.nodes) l
    → balance (after p (pick_from a p l)).nodes ≡ balance p.nodes
unfolding pick_from
balance-pick_from a p [] v = refl
balance-pick_from a p (i ∷ is) v =
    balance-count_pick p (schedule a p i is) (balance-schedule a p i is v)

balance-step : (a : Arithmetic) (p : Pool) (c : Call) → balance (step a p c).nodes ≡ balance p.nodes
unfolding step pick release_active
balance-step a p (picks exclude) = balance-pick_from a p (candidates p exclude) (
    All-of_Among (length p.nodes) (candidates p exclude)
      (λ s m. (candidates-IsGoodPick p exclude s m).a_node))
balance-step a p (releases i) = balance-update_same p.nodes i _ (λ u. refl)
balance-step a p (checks i healthy) =
    balance-update_same p.nodes i _ (λ u. set_node_health_weight u healthy)

balance-run :
    (a : Arithmetic) (p : Pool) (cs : List Call) → balance (run a p cs).nodes ≡ balance p.nodes
unfolding run
balance-run a p [] = refl
balance-run a p (c ∷ cs) = balance-run a (step a p c) cs ∙ balance-step a p c

some_eq : {A : Type 0} {x y : A} → some x ≡ some y → x ≡ y
some_eq h = cc h

zero_sum : pos 0 +ℤ pos 0 ≡ pos 0
unfolding ◌+ℤ◌
zero_sum = refl

balance-new_nodes :
    (url_parses : Str → Bool) (route : RouteConfig) (raws : List UpstreamConfig)
    (us : List Upstream)
    → new_nodes url_parses route raws ≡ some us
    → balance us ≡ pos 0
unfolding new_nodes balance
balance-new_nodes url_parses route [] us e = subst (λ l. balance l ≡ pos 0) (some_eq e) refl
balance-new_nodes url_parses route (raw ∷ raws) us e =
    elim (Bool-cases (not (url_parses raw.url))) [
      | inl f ↦ absurd (ground (arith, e, f))
      | inr f ↦ elim (Option-cases (new_nodes url_parses route raws)) [
        | inl g ↦ absurd (ground (arith, e, f, g))
        | inr (rest, g) ↦
            subst (λ l. balance l ≡ pos 0) (some_eq (rw (f, g) at e))
              (ap (λ b. pos 0 +ℤ b) (balance-new_nodes url_parses route raws rest g) ∙ zero_sum)
      ]
    ]

balance-new_pool :
    (url_parses : Str → Bool) (route : RouteConfig) (seed : ℕ) (p : Pool)
    → new_upstream_pool url_parses route seed ≡ some p
    → balance p.nodes ≡ pos 0
unfolding new_upstream_pool
balance-new_pool url_parses route seed p e =
    elim (Option-cases (new_nodes url_parses route route.upstreams)) [
      | inl g ↦ absurd (ground (arith, e, g))
      | inr (nodes, g) ↦
          balance-new_nodes url_parses route route.upstreams p.nodes
            (g ∙ ap some (ap (λ q. q.nodes) (some_eq (rw (g, new_upstream_pool) at e))))
    ]

-- From the pool that a configuration makes, through any picks, releases and health checks, the
-- current weights of all nodes always add up to zero.
pub balance-run-new :
    (a : Arithmetic) (url_parses : Str → Bool) (route : RouteConfig) (seed : ℕ) (p : Pool)
    (calls : List Call)
    → new_upstream_pool url_parses route seed ≡ some p
    → balance (run a p calls).nodes ≡ pos 0
balance-run-new a url_parses route seed p calls e =
    balance-run a p calls ∙ balance-new_pool url_parses route seed p e
