-- ===== src/Upstreams/Setup.antt =====
-- Upstreams: newUpstreamPool and healthCheckHost. `url_parses` is whether url.Parse succeeds, and `ip`
-- is net.ParseIP followed by String; the transports of the nodes are left out.
use secure_edge_platform.Prelude.{
  ℕ, Bool, not, Option, none, some, List, [], ◌∷◌, ◌++◌, if◌then◌else◌,
}
use secure_edge_platform.Prelude.Text.{
  Str, codes, same, is_empty, has_prefix, trim_prefix, trim_space,
}
use secure_edge_platform.Router.Hosts.{contains, colon}
use secure_edge_platform.Upstreams.Nodes.{Upstream, no_upstream}
use secure_edge_platform.Upstreams.{Algorithm, Pool}

pub record UpstreamConfig : Type 0 where
  pub name : Str
  pub url : Str
  pub weight : ℕ
  pub priority : ℕ

pub record RouteConfig : Type 0 where
  pub upstreams : List UpstreamConfig
  pub algorithm : Algorithm
  pub health_checked : Bool
  pub preserve_host : Bool
  pub hosts : List Str

abbrev new_node : RouteConfig → UpstreamConfig → Upstream
new_node route raw = record no_upstream {
  name = raw.name;
  weight = raw.weight;
  priority = raw.priority;
  healthy = not route.health_checked;
}

-- None is an error.
unfoldable pub new_nodes : (Str → Bool) → RouteConfig → List UpstreamConfig → Option (List Upstream)
new_nodes url_parses route [] = some []
new_nodes url_parses route (raw ∷ raws) =
    let rest = new_nodes url_parses route raws in
    if not (url_parses raw.url)
    then none
    else elim rest [ none ↦ none | some nodes ↦ some (new_node route raw ∷ nodes) ]

-- `seed` is what the clock and the route's name make the random state.
unfoldable pub new_upstream_pool : (Str → Bool) → RouteConfig → ℕ → Option Pool
unfolding new_nodes
new_upstream_pool url_parses route seed = elim (new_nodes url_parses route route.upstreams) [
  | none ↦ none
  | some nodes ↦
      some (record { nodes = nodes; next = 0; random_state = seed; algorithm = route.algorithm })
]

abbrev address_or_host : Option Str → Str → Str
address_or_host none host = host
address_or_host (some address) host =
    if contains colon host then codes "[" ++ (address ++ codes "]") else host

-- The loop of healthCheckHost, with the wildcard found so far.
unfoldable pub probe_host : (Str → Option Str) → List Str → Str → Str
unfolding contains
probe_host ip [] wildcard = wildcard
probe_host ip (raw ∷ hosts) wildcard =
    let host = trim_space raw in
    let wild =
      if is_empty wildcard
      then codes "health-probe." ++ trim_prefix host (codes "*.")
      else wildcard in
    let on = probe_host ip hosts wildcard in
    let on_wild = probe_host ip hosts wild in
    if same host (codes "*")
    then on
    else if has_prefix host (codes "*.")
    then on_wild
    else address_or_host (ip host) host

unfoldable pub health_check_host : (Str → Option Str) → RouteConfig → Str
unfolding probe_host
health_check_host ip route = if not route.preserve_host then [] else probe_host ip route.hosts []
