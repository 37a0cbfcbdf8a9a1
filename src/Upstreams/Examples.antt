-- ===== src/Upstreams/Examples.antt =====
-- Upstreams: tests at concrete inputs.
use secure_edge_platform.Prelude.{
  ℕ, ◌*◌, ◌^◌, ◌<◌, ◌≡◌, ◌≢◌, refl, true, false, Option, none, some, List, [], ◌∷◌, arith, ltb,
  ◌==◌,
}
use secure_edge_platform.Prelude.Int.{◌+ℤ◌, ◌-ℤ◌, pos}
use secure_edge_platform.Upstreams.Nodes.{
  Upstream, no_upstream, read, update, excluded, eligible, eligible_from,
}
use secure_edge_platform.Upstreams.{
  weighted_round_robin, Pool, Arithmetic, Outcome, picked, pick, pick_from, candidates, schedule,
  schedule_by, pick_smooth_weighted, smooth_loop, gain, better, settle, count_pick, pick_priority,
  minimum_from, group_of, pick_group, weighted_at, round_robin_index,
}
use secure_edge_platform.Router.Hosts.{contains}
use secure_edge_platform.Prelude.Text.{
  codes, trim_space, trim_left, is_space, has_prefix, trim_prefix, strip_prefix, str_dec,
}
use secure_edge_platform.Upstreams.Setup.{
  RouteConfig, new_upstream_pool, new_nodes, health_check_host, probe_host,
}
use secure_edge_platform.Upstreams.History.{Call, picks, releases, checks, run, balance-run-new}
use secure_edge_platform.Upstreams.Picks.{IsGoodPick, pick-IsGoodPick}
use secure_edge_platform.Upstreams.Weights.{balance}
use secure_edge_platform.Upstreams.Fairness.{weight_sum}

program : Unit {0}
unfolding read update excluded eligible eligible_from pick pick_from candidates schedule schedule_by
    pick_smooth_weighted smooth_loop gain better settle count_pick pick_priority minimum_from
    group_of pick_group weighted_at round_robin_index ◌+ℤ◌ ◌-ℤ◌ weight_sum
program = tt

abbrev node : Upstream
node = record no_upstream { weight = 3; priority = 1; healthy = true }

abbrev nodes : List Upstream
nodes = node ∷ record node { weight = 1; priority = 2 } ∷ record node { healthy = false } ∷ []

abbrev pool : Pool
pool = record { nodes = nodes; next = 0; random_state = 1; algorithm = weighted_round_robin }

abbrev exact : Arithmetic
exact = record {
  less_load = λ a v b w. ltb (a * w) (b * v);
  same_load = λ a v b w. a * w == b * v;
  adaptive_weight = λ u. u.weight;
}

abbrev node_picked : Outcome → Option ℕ
node_picked (picked q s) = some s
node_picked o = none

abbrev pool_after : Outcome → Pool
pool_after (picked q s) = q
pool_after o = pool

-- The unhealthy node is left out, and so is the excluded one.
picks_second : node_picked (pick exact pool (0 ∷ [])) ≡ some 1
unfolding program
picks_second = refl

some_node : nodes ≢ []
some_node h = ground (arith, h)

pick-IsGoodPick_example :
    (q : Pool) × (s : ℕ) × (pick exact pool (0 ∷ []) ≡ picked q s) × IsGoodPick pool (0 ∷ []) s
pick-IsGoodPick_example = pick-IsGoodPick exact pool (0 ∷ []) some_node (omega arith)

picks_first : pick exact pool [] ≡ picked (pool_after (pick exact pool [])) 0
unfolding program
picks_first = refl

least_is_first : (pick_priority nodes 1 (0 ∷ [])).1 ≡ some 0
unfolding program
least_is_first = refl

weight_of_second : 0 < (read nodes 1).weight
unfolding program
weight_of_second = omega arith

-- After 2 ^ 63 picks the index is negative and the program panics.
panics_at_last : round_robin_index (2 ^ 63) 3 ≡ none
unfolding program
panics_at_last = refl

abbrev route : RouteConfig
route = record {
  upstreams =
      record { name = codes "a"; url = codes "http://a"; weight = 3; priority = 1 }
      ∷ record { name = codes "b"; url = codes "http://b"; weight = 1; priority = 1 }
      ∷ [];
  algorithm = weighted_round_robin;
  health_checked = false;
  preserve_host = true;
  hosts = codes "*" ∷ codes "*.example" ∷ codes "a.example" ∷ [];
}

abbrev both : Pool
both = record {
  nodes =
      record no_upstream { name = codes "a"; weight = 3; priority = 1; healthy = true }
      ∷ record no_upstream { name = codes "b"; weight = 1; priority = 1; healthy = true }
      ∷ [];
  next = 0;
  random_state = 7;
  algorithm = weighted_round_robin;
}

makes_both : new_upstream_pool (λ url. true) route 7 ≡ some both
unfolding new_upstream_pool new_nodes
makes_both = refl

abbrev calls : List Call
calls = picks [] ∷ picks (0 ∷ []) ∷ releases 0 ∷ checks 1 false ∷ picks [] ∷ []

balance-run-new_example : balance (run exact both calls).nodes ≡ pos 0
balance-run-new_example = balance-run-new exact (λ url. true) route 7 both calls makes_both

-- The exact host is asked for, not the wildcard before it.
probes_exact : health_check_host (λ s. none) route ≡ codes "a.example"
unfolding health_check_host probe_host trim_space trim_left is_space has_prefix trim_prefix
    strip_prefix str_dec contains
probes_exact = refl
