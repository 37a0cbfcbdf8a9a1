-- ===== src/Upstreams.antt =====
-- apps/edgeproxy/internal/proxy/upstream.go: the pool of origins behind a route and its schedulers.
-- A node is named by its place in the pool, so a list of *upstream is a list of numbers. The mutex
-- and the atomic operations make each call one step. Counters are uint64 and wrap; `active` is an
-- int64 that falls only after it rose. The two float64 formulas are the parameter Arithmetic.
pub mod Nodes
pub mod Eligibility
pub mod Choice
pub mod Picks
pub mod Weights
pub mod Counters
pub mod Fairness
pub mod Setup
pub mod History
mod Examples
use Prim.Native.Nat.{bit_xor}
use secure_edge_platform.Prelude.{
  ℕ, zero, suc, ◌+◌, ◌-◌, ◌*◌, ◌/◌, ◌%◌, ◌^◌, Bool, true, false, not, ◌&&◌, ◌||◌, Option, none,
  some, List, [], ◌∷◌, length, get_elem?, any, keep, ltb, leb, ◌==◌, if◌then◌else◌,
}
use secure_edge_platform.Prelude.Int.{ℤ, pos, ◌+ℤ◌, ◌-ℤ◌, ltb_ℤ}
use Nodes.{Upstream, read, update, eligible}

pub data Algorithm : Type 0 where
  weighted_round_robin least_connections priority_failover : Algorithm
  adaptive_latency random_weighted round_robin : Algorithm

pub record Pool : Type 0 where
  pub nodes : List Upstream
  pub next : ℕ
  pub random_state : ℕ
  pub algorithm : Algorithm

-- `less_load a v b w` is the test a / v < b / w on float64, `same_load` the equation; and
-- `adaptive_weight` is the weight that latency and load leave a node.
pub record Arithmetic : Type 0 where
  pub less_load : ℕ → ℕ → ℕ → ℕ → Bool
  pub same_load : ℕ → ℕ → ℕ → ℕ → Bool
  pub adaptive_weight : Upstream → ℕ

-- p.next.Add(1)-1, as an int, modulo the number of candidates; none where the index is negative and
-- the program panics.
pub round_robin_index : ℕ → ℕ → Option ℕ
round_robin_index next n =
    if ltb next (2 ^ 63) then some (next % n) else if (2 ^ 64 - next) % n == 0 then some 0 else none

pub record Round : Type 0 where
  pub nodes : List Upstream
  pub total : ℕ
  pub selected : Option ℕ

-- selected == nil || node.currentWeight > selected.currentWeight
pub better : List Upstream → ℕ → Option ℕ → ℕ
better nodes i none = i
better nodes i (some s) =
    if ltb_ℤ (read nodes s).current_weight (read nodes i).current_weight then i else s

pub gain : List Upstream → ℕ → ℕ → List Upstream
gain nodes i w = update nodes i (λ u. record u { current_weight = u.current_weight +ℤ pos w })

-- The loop of pickSmoothWeighted, for some weights.
pub smooth_loop : (Upstream → ℕ) → List ℕ → Round → Round
unfolding better gain
smooth_loop weight [] r = r
smooth_loop weight (i ∷ is) r =
    let w = weight (read r.nodes i) in
    let nodes = gain r.nodes i w in
    smooth_loop weight is
      (record { nodes = nodes; total = r.total + w; selected = some (better nodes i r.selected) })

pub settle : Round → List Upstream × Option ℕ
settle r = elim r.selected [
  | none ↦ (r.nodes, none)
  | some s ↦ (
    update r.nodes s (λ u. record u { current_weight = u.current_weight -ℤ pos r.total }),
    some s,
  )
]

pub pick_smooth_weighted : (Upstream → ℕ) → List Upstream → List ℕ → List Upstream × Option ℕ
unfolding smooth_loop settle
pick_smooth_weighted weight nodes candidates =
    settle (smooth_loop weight candidates (record { nodes = nodes; total = 0; selected = none }))

-- The loops of pickLeastConnections and pickPriority from the first candidate on.
pub least_from : Arithmetic → List Upstream → ℕ → List ℕ → ℕ
least_from a nodes best [] = best
least_from a nodes best (i ∷ is) =
    let u = read nodes i in
    let b = read nodes best in
    least_from a nodes
      (if a.less_load (u.active + 1) u.weight (b.active + 1) b.weight
          || a.same_load (u.active + 1) u.weight (b.active + 1) b.weight
            && ltb u.priority b.priority
        then i
        else best)
      is

pub minimum_from : List Upstream → ℕ → List ℕ → ℕ
minimum_from nodes m [] = m
minimum_from nodes m (i ∷ is) =
    minimum_from nodes (if ltb (read nodes i).priority m then (read nodes i).priority else m) is

pub group_of : List Upstream → ℕ → List ℕ → List ℕ
group_of nodes m = keep (λ i. (read nodes i).priority == m)

-- A group of one is chosen without touching its weight.
pub pick_group : List Upstream → List ℕ → List Upstream × Option ℕ
unfolding pick_smooth_weighted
pick_group nodes (i ∷ []) = (nodes, some i)
pick_group nodes [] = pick_smooth_weighted (λ u. u.weight) nodes []
pick_group nodes (i ∷ j ∷ is) = pick_smooth_weighted (λ u. u.weight) nodes (i ∷ j ∷ is)

pub pick_priority : List Upstream → ℕ → List ℕ → List Upstream × Option ℕ
unfolding minimum_from group_of pick_group
pick_priority nodes i is =
    pick_group nodes (group_of nodes (minimum_from nodes (read nodes i).priority is) (i ∷ is))

-- The sum of the weights as a uint64.
pub total_weight : List Upstream → List ℕ → ℕ
total_weight nodes [] = 0
total_weight nodes (i ∷ is) = ((read nodes i).weight + total_weight nodes is) % 2 ^ 64

-- The loop that finds the node for a random number; past the end it is the last candidate.
pub weighted_at : List Upstream → ℕ → ℕ → List ℕ → ℕ
weighted_at nodes x i [] = i
weighted_at nodes x i (j ∷ js) =
    let rest = weighted_at nodes (x - (read nodes i).weight) j js in
    if ltb x (read nodes i).weight then i else rest

rotate_left_17 : ℕ → ℕ
rotate_left_17 x = x * 2 ^ 17 % 2 ^ 64 + x / 2 ^ 47

pub mix : ℕ → ℕ
unfolding rotate_left_17
mix x = bit_xor x (rotate_left_17 x) * 0xbf58476d1ce4e5b9 % 2 ^ 64

pub next_random : ℕ → ℕ
next_random state = (state + 0x9e3779b97f4a7c15) % 2 ^ 64

-- What a scheduler gives: the pool with its own state moved on, and a candidate; none is a panic.
abbrev pub Choice : Type 0
Choice = Pool × Option ℕ

abbrev with_nodes : Pool → List Upstream × Option ℕ → Choice
with_nodes p (nodes, s) = (record p { nodes = nodes }, s)

pub pick_random_weighted : Pool → ℕ → List ℕ → Choice
unfolding total_weight weighted_at mix next_random
pick_random_weighted p i is =
    let total = total_weight p.nodes (i ∷ is) in
    if total == 0 then (p, some i) else (
      record p { random_state = next_random p.random_state },
      some (weighted_at p.nodes (mix (next_random p.random_state) % total) i is),
    )

abbrev at_index : List ℕ → Option ℕ → Option ℕ
at_index candidates none = none
at_index candidates (some k) = get_elem? candidates k

pub pick_round_robin : Pool → List ℕ → Choice
unfolding round_robin_index
pick_round_robin p candidates = (
  record p { next = (p.next + 1) % 2 ^ 64 },
  at_index candidates (round_robin_index p.next (length candidates)),
)

pub schedule_by : Arithmetic → Algorithm → Pool → ℕ → List ℕ → Choice
unfolding pick_smooth_weighted pick_priority pick_random_weighted pick_round_robin
schedule_by a weighted_round_robin p i is =
    with_nodes p (pick_smooth_weighted (λ u. u.weight) p.nodes (i ∷ is))
schedule_by a least_connections p i is = (p, some (least_from a p.nodes i is))
schedule_by a priority_failover p i is = with_nodes p (pick_priority p.nodes i is)
schedule_by a adaptive_latency p i is =
    with_nodes p (pick_smooth_weighted a.adaptive_weight p.nodes (i ∷ is))
schedule_by a random_weighted p i is = pick_random_weighted p i is
schedule_by a round_robin p i is = pick_round_robin p (i ∷ is)

pub schedule : Arithmetic → Pool → ℕ → List ℕ → Choice
unfolding schedule_by
schedule a p i is = schedule_by a p.algorithm p i is

abbrev or_else : List ℕ → List ℕ → List ℕ
or_else [] l = l
or_else (i ∷ is) l = i ∷ is

-- Healthy nodes not excluded, or all not excluded, or all healthy, or all.
pub candidates : Pool → List ℕ → List ℕ
candidates p exclude = or_else (eligible exclude true p.nodes) (
    or_else (eligible exclude false p.nodes)
      (or_else (eligible [] true p.nodes) (eligible [] false p.nodes)))

-- Nothing to pick from, a panic, or the node picked with its counters raised.
pub data Outcome : Type 0 where
  nothing panics : Outcome
  picked : Pool → ℕ → Outcome

pub count_pick : Choice → Outcome
count_pick (p, none) = panics
count_pick (p, some s) =
    picked
      (record p {
        nodes =
            update p.nodes s
              (λ u. record u { selections = (u.selections + 1) % 2 ^ 64; active = u.active + 1 });
      })
      s

pub pick_from : Arithmetic → Pool → List ℕ → Outcome
unfolding schedule count_pick
pick_from a p [] = nothing
pick_from a p (i ∷ is) = count_pick (schedule a p i is)

pub pick : Arithmetic → Pool → List ℕ → Outcome
unfolding candidates pick_from
pick a p exclude = pick_from a p (candidates p exclude)

abbrev head? : List ℕ → Option ℕ
head? [] = none
head? (i ∷ is) = some i

-- A probe takes the first candidate and counts nothing.
pick_probe : Pool → List ℕ → Option ℕ
pick_probe p exclude =
    head? (or_else (eligible exclude true p.nodes) (eligible exclude false p.nodes))

pub release_active : Pool → ℕ → Pool
release_active p s = record p { nodes = update p.nodes s (λ u. record u { active = u.active - 1 }) }

has_healthy : Pool → Bool
has_healthy p = any (λ u. u.healthy) p.nodes

-- setNodeHealth: the new health, and whether it is a change to report.
pub set_node_health : Upstream → Bool → Upstream × Bool
set_node_health u true =
    if u.healthy
    then (u, false)
    else (record u { healthy = true; health_recoveries = (u.health_recoveries + 1) % 2 ^ 64 }, true)
set_node_health u false =
    if u.healthy
    then (record u { healthy = false; health_failures = (u.health_failures + 1) % 2 ^ 64 }, true)
    else (u, false)
