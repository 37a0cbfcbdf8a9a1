-- ===== src/Gateway/Examples.antt =====
-- Gateway: tests at concrete inputs.
use secure_edge_platform.Prelude.{
  ℕ, ◌+◌, ◌*◌, ◌/◌, ◌-◌, ◌≡◌, refl, true, false, Option, none, some, List, [], ◌∷◌, arith, length,
  ltb, leb, ◌↔◌,
}
use secure_edge_platform.Prelude.Text.{
  Str, codes, str_dec, same, is_space, trim_left, trim_space, to_lower, lower, split, has_prefix,
}
use secure_edge_platform.Prelude.Maps.{lookup, insert, delete}
use secure_edge_platform.CachePolicy.{values, get}
use secure_edge_platform.Admission
use secure_edge_platform.Admission.Invariant.{IsValid}
use secure_edge_platform.Bans
use secure_edge_platform.RateLimit
use secure_edge_platform.Waf
use secure_edge_platform.Waf.Examples
use secure_edge_platform.Waf.Inspectors
use secure_edge_platform.Waf.Rules
use secure_edge_platform.Waf.Json
use secure_edge_platform.Waf.Samples
use secure_edge_platform.Paths
use secure_edge_platform.Prelude.Text
use secure_edge_platform.Waf.Samples.{HttpRequest}
use secure_edge_platform.Gateway.Shape
use secure_edge_platform.Gateway.Shape.{Request, Limits, validate_request_shape}
use secure_edge_platform.Gateway.Shape.Faults.{IsFault, IsWellFormed, validate_request_shape_iff}
use secure_edge_platform.Gateway.Staging.{Body, at_eof, staged_body, stage_request_body}
use secure_edge_platform.Gateway.Responses
use secure_edge_platform.Gateway.Responses.{
  set_header, reads_past_limit, final_status_of, writes_header, close_writer, allow,
}
use secure_edge_platform.Gateway.Responses.Statuses.{finals}
use secure_edge_platform.Gateway.Types.{
  Addresses, Policy, Arrival, Gateway, ServerConfig, inspected, block_mode, ip_matches,
  retry_seconds, is_block, is_off, allowed,
}
use secure_edge_platform.Gateway.{
  shaped, after_staging, prepare_body, judge, skips, limit_reason, is_client_excess, limit_rate,
  match_lists, apply_policy, check_ban, check, deny_violation, pass_on, overloaded, finish,
  after_acquire, serve,
}
use secure_edge_platform.Gateway.Exits.{Exit}
use secure_edge_platform.Gateway.Checks.{check-Exit}
use secure_edge_platform.Gateway.Screening.{screen}
use secure_edge_platform.Gateway.Serving.{is_forwarded}
use secure_edge_platform.Gateway.Overruns.{IsCutOff, pass_on-IsCutOff}
use secure_edge_platform.Gateway.Flights
use secure_edge_platform.Gateway.Flights.{Event, arrive, decide, conclude}
use secure_edge_platform.Gateway.Flights.Balance.{
  is_over, handle_of, admissions, run_balanced, run_no_leak,
}
use secure_edge_platform.Gateway.Tunnels
use secure_edge_platform.Gateway.Tunnels.{
  close_all, new_tunnels, track_hijacked_conn, hijack, close_tunnel,
}
use secure_edge_platform.Gateway.Tunnels.Closing.{close_all_settles}

program : Unit {0}
unfolding str_dec is_space trim_left trim_space to_lower lower split has_prefix lookup insert delete
    values get Admission.new Admission.active Admission.admit Admission.acquire Admission.release
    Bans.new Bans.is_banned Bans.cleanup_clients Bans.cleanup_inactive Bans.oldest_inactive
    Bans.evict_oldest_inactive Bans.add_violation Bans.punish Bans.make_room Bans.track
    Bans.record_violation RateLimit.global_key RateLimit.client_key RateLimit.retry_after
    RateLimit.refilled RateLimit.spend RateLimit.allow_locked RateLimit.give_back
    RateLimit.client_step RateLimit.allow Shape.reason_text Shape.header_field_count
    Shape.request_header_field_count Shape.request_has_body Shape.request_needs_body_staging
    Shape.request_has_non_identity_content_encoding Shape.content_type_allowed Shape.method_allowed
    Shape.oversized_value validate_request_shape staged_body stage_request_body ip_matches
    retry_seconds is_block is_off Responses.action_text Responses.set_base_headers
    Responses.set_decision_headers Responses.send Responses.write_header
    Responses.request_body_limit_exceeded Responses.finalize Responses.write Responses.flush
    Responses.hijack Responses.enforce_body_limit final_status_of Responses.step Responses.run
    close_writer finals shaped after_staging prepare_body judge skips limit_reason is_client_excess
    limit_rate match_lists apply_policy check_ban check deny_violation pass_on overloaded finish
    after_acquire serve is_forwarded Flights.arrived Flights.checked Flights.decided
    Flights.concluded Flights.at_flight Flights.step Flights.run is_over handle_of
program = tt

-- Whole numbers in place of float64, addresses that are their text, no networks.
abbrev whole : RateLimit.Float64
whole = record {
  F = ℕ;
  of_int = λ n. n;
  seconds = λ n. n / 1_000_000_000;
  duration = λ x. x;
  add = λ x y. x + y;
  sub = λ x y. x - y;
  mul = λ x y. x * y;
  div = λ x y. x / y;
  less = λ x y. ltb x y;
  at_most = λ x y. leb x y;
  is_nan = λ x. false;
  is_inf = λ x. false;
  max_seconds = 9_223_372_036;
  nanoseconds = λ x. x * 1_000_000_000;
}

abbrev net : Addresses
net = record { Ip = Str; parse_ip = λ s. some s; equal = λ x y. same x y; parse_cidr = λ s. none }

abbrev parse : Str → Option Str
parse s = some s

abbrev itoa : ℕ → Str
itoa n = (48 + n) ∷ []

abbrev limits : Limits
limits = record {
  max_path_bytes = 64;
  max_query_bytes = 64;
  max_header_count = 4;
  max_header_value_bytes = 16;
  max_request_body_bytes = 8;
  reject_encoded_request_bodies = true;
  inspect_request_body = true;
  reject_unsupported_body_types = false;
  body_content_types = [];
}

abbrev policy : Policy ℕ
policy = record {
  enabled = true;
  mode = block_mode;
  anomaly_threshold = 5;
  allowed_methods = codes "GET" ∷ [];
  ip_allowlist = [];
  ip_denylist = [];
  block_on_inspection_limit = true;
  rate_limit = record {
    enabled = false;
    requests_per_second = 0;
    burst = 1;
    global_requests_per_second = 0;
    global_burst = 1;
    max_buckets = 1;
  };
  auto_ban = record {
    enabled = true;
    violation_threshold = 1;
    window = 100;
    ban_duration = 1_000;
    max_tracked_clients = 4;
  };
  limits = limits;
}

abbrev server : ServerConfig
server = record {
  max_concurrent_requests = 2;
  max_concurrent_per_client = 1;
  add_security_headers = false;
}

abbrev gateway : Gateway ℕ
gateway = record { admission = Admission.new; bans = Bans.new; buckets = [] }

abbrev whole_body : Body
whole_body = record {
  size = 3;
  ends = at_eof;
  trailer = [];
  create_fails = false;
  write_fails = false;
  close_fails = false;
  seek_fails = false;
}

abbrev request : Str → Request
request host = record {
  method = codes "GET";
  host = host;
  escaped_path = codes "/a";
  raw_query = [];
  header = [];
  trailer = [];
  content_length = none;
  body = true;
}

-- A request of client "c" at a time.
abbrev request_at : Str → ℕ → Arrival
request_at host now = record {
  request = request host;
  request_id = codes "1";
  route = codes "r";
  client = codes "c";
  body = whole_body;
  context_done = false;
  inspection = λ req.
      inspected (record { score = 0; matches = 0; body_truncated = false; excluded = false });
  downstream = λ req. writes_header 103 ∷ writes_header 204 ∷ writes_header 500 ∷ [];
  ban_checked_at = now;
  rate_checked_at = now;
  violation_at = now;
}

abbrev good : ℕ → Arrival
good = request_at (codes "h")

-- Its host is empty.
abbrev bad : ℕ → Arrival
bad = request_at []

passes_on : is_forwarded (serve whole net parse itoa server policy gateway (good 10)).2 ≡ true
unfolding program
passes_on = refl

refuses_host : (serve whole net parse itoa server policy gateway (bad 10)).1.status ≡ 400
unfolding program
refuses_host = refl

status_of_good : (serve whole net parse itoa server policy gateway (good 10)).1.status ≡ 204
unfolding program
status_of_good = refl

check-Exit_example :
    Exit whole net parse policy (good 10) gateway (check whole net parse gateway policy (good 10))
check-Exit_example = check-Exit whole net parse policy (good 10) gateway

-- The client violates again while it is banned, and another client is served.
abbrev meanwhile : List Arrival
meanwhile = bad 20 ∷ record (good 30) { client = codes "d" } ∷ []

-- The handler sets a field, reads too much, and then writes.
abbrev reads_too_much : Arrival
reads_too_much = record (good 10) {
  downstream = λ req.
      set_header (codes "Server") (codes "x" ∷ []) ∷ reads_past_limit ∷ writes_header 200 ∷ [];
}

pass_on-IsCutOff_example : IsCutOff whole net parse itoa server policy gateway reads_too_much (
    pass_on whole net parse itoa server gateway policy reads_too_much allowed
      (request (codes "h"))
      true)
unfolding program
pass_on-IsCutOff_example =
    pass_on-IsCutOff whole net parse itoa server policy gateway reads_too_much allowed
      (request (codes "h")) (set_header (codes "Server") (codes "x" ∷ []) ∷ [])
      (writes_header 200 ∷ []) refl refl (omega arith, tt)

-- Two requests at once, of which the second is one too many of its client.
abbrev events : List Event
events = arrive (good 10) ∷ arrive (good 20) ∷ decide 0 ∷ conclude 0 ∷ []

abbrev ended : Flights.System ℕ
ended =
    Flights.run whole net parse itoa server policy (record { gateway = gateway; flights = [] })
      events

run_balanced_example : IsValid 2 1 (admissions ended)
run_balanced_example = run_balanced whole net parse itoa server policy gateway events refl

all_over : ended.gateway.admission ≡ Admission.new
unfolding program
all_over = run_no_leak whole net parse itoa server policy gateway events refl (refl, tt)

abbrev http_of : Request → HttpRequest
http_of req = Waf.Examples.request

-- A policy that lets a score of 133 pass, which is what the rules find in the request of the WAF's
-- tests.
abbrev lenient : Policy ℕ
lenient = record policy { anomaly_threshold = 134 }

abbrev screened : Arrival
screened = record (good 10) {
  inspection =
      λ req. screen Waf.Examples.codec Waf.Examples.inspector Waf.Examples.policy http_of false req;
}

validate_request_shape_iff_example :
    ((validate_request_shape parse (request []) limits ≡ none)
      ↔ IsWellFormed parse (request []) limits)
    × IsFault (validate_request_shape parse (request []) limits)
validate_request_shape_iff_example = validate_request_shape_iff parse (request []) limits

-- Two connections are taken over, and one of them is closed twice.
abbrev tunnel_calls : List Tunnels.Call
tunnel_calls = hijack ∷ hijack ∷ close_tunnel 0 ∷ close_tunnel 0 ∷ []

close_all_settles_example :
    ((Tunnels.run new_tunnels tunnel_calls).wait_group
      ≡ length (Tunnels.run new_tunnels tunnel_calls).tunnels)
    × ((close_all (Tunnels.run new_tunnels tunnel_calls)).tunnels ≡ [])
    × ((close_all (Tunnels.run new_tunnels tunnel_calls)).wait_group ≡ 0)
    × ((track_hijacked_conn (close_all (Tunnels.run new_tunnels tunnel_calls))).1 ≡ none)
close_all_settles_example = close_all_settles tunnel_calls
