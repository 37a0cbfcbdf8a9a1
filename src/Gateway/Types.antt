-- ===== src/Gateway/Types.antt =====
-- apps/securityedge/internal/gateway/handler.go: what ServeHTTP is given, what it keeps and what it
-- answers; the policy's parts that it reads, and the lists of addresses.
use secure_edge_platform.Prelude.{
  ℕ, ◌+◌, ◌/◌, Bool, true, false, not, ◌&&◌, ◌||◌, Option, none, some, List, any, ltb,
  if◌then◌else◌,
}
use secure_edge_platform.Prelude.Text.{Str, is_empty, trim_space}
use secure_edge_platform.Prelude.Maps.{Map}
use secure_edge_platform.Admission
use secure_edge_platform.Bans
use secure_edge_platform.RateLimit
use secure_edge_platform.Gateway.Shape.{Request, Limits, Reason, no_reason}
use secure_edge_platform.Gateway.Staging.{Body}
use secure_edge_platform.Gateway.Responses.{Action, allow, Writer, Call}

-- What net.ParseIP and net.ParseCIDR make of a string: an address, a network, and whether they match.
pub record Addresses : Type 1 where
  pub Ip : Type 0
  pub parse_ip : Str → Option Ip
  pub equal : Ip → Ip → Bool
  pub parse_cidr : Str → Option (Ip → Bool)

pub data Mode : Type 0 where
  off monitor block_mode : Mode

pub record Policy (F : Type 0) : Type 0 where
  pub enabled : Bool
  pub mode : Mode
  pub anomaly_threshold : ℕ
  pub allowed_methods : List Str
  pub ip_allowlist : List Str
  pub ip_denylist : List Str
  pub block_on_inspection_limit : Bool
  pub rate_limit : RateLimit.Config F
  pub auto_ban : Bans.AutoBanConfig
  -- the limits on the form of a request, max_request_body_bytes of the server's among them
  pub limits : Limits

pub record ServerConfig : Type 0 where
  pub max_concurrent_requests : ℕ
  pub max_concurrent_per_client : ℕ
  pub add_security_headers : Bool

-- waf.Result, as far as the handler acts on it
pub record Inspected : Type 0 where
  pub score : ℕ
  pub matches : ℕ
  pub body_truncated : Bool
  pub excluded : Bool

-- What Inspect returns: a result, or an error for a body past its limit or any other.
pub data Inspection : Type 0 where
  inspected : Inspected → Inspection
  max_bytes_error other_error : Inspection

-- A request with all that happens to it. `context_done` is req.Context().Err() != nil after an error,
-- `downstream` what the next handler does with the request that it gets.
pub record Arrival : Type 0 where
  pub request : Request
  pub request_id : Str
  pub route : Str
  pub client : Str
  pub body : Body
  pub context_done : Bool
  pub inspection : Request → Inspection
  pub downstream : Request → List Call
  pub ban_checked_at : ℕ
  pub rate_checked_at : ℕ
  pub violation_at : ℕ

pub record Gateway (F : Type 0) : Type 0 where
  pub admission : Admission.Limiter
  pub bans : Bans.BanManager
  pub buckets : Map (RateLimit.Bucket F)

-- The variables of ServeHTTP that its closing function reports.
pub record Verdict : Type 0 where
  pub action : Action
  pub reason : Reason
  pub status : ℕ
  pub score : ℕ
  pub retry_after : ℕ
  pub auto_banned : Bool
  pub processing_error : Bool

-- What the client gets: the answer of writeBlocked with the code that it names and the Retry-After
-- header, nothing, or what the downstream handler made the writer do.
pub data Reply : Type 0 where
  blocked_reply : (status : ℕ) (code : Str) (retry : Option ℕ) → Reply
  no_reply : Reply
  forwarded_reply : Writer → Reply

-- Where the checks leave a request: it is answered, or it goes to the downstream handler.
pub data Checked (F : Type 0) : Type 0 where
  answered : Gateway F → Verdict → Reply → Checked F
  forwarded : Gateway F → Verdict → Request → (limited : Bool) → Checked F

abbrev pub verdict : Action → Reason → ℕ → Verdict
verdict action reason status = record {
  action = action;
  reason = reason;
  status = status;
  score = 0;
  retry_after = 0;
  auto_banned = false;
  processing_error = false;
}

abbrev pub allowed : Verdict
allowed = verdict allow no_reason 0

unfoldable pub is_block : Mode → Bool
is_block block_mode = true
is_block _ = false

unfoldable pub is_off : Mode → Bool
is_off off = true
is_off _ = false

-- retrySeconds: whole seconds, a half rounded up, and one at least.
unfoldable pub retry_seconds : ℕ → ℕ
retry_seconds d = let n = (d + 500_000_000) / 1_000_000_000 in if ltb n 1 then 1 else n

module _ (net : Addresses) where
  open net use {Ip, parse_ip, equal, parse_cidr}

  abbrev same_ip : Ip → Str → Bool
  same_ip ip raw = elim (parse_ip raw) [ none ↦ false | some candidate ↦ equal candidate ip ]

  abbrev in_network : Ip → Str → Bool
  in_network ip raw = elim (parse_cidr raw) [ none ↦ false | some contains ↦ contains ip ]

  abbrev entry_matches : Ip → Str → Bool
  entry_matches ip entry =
      let raw = trim_space entry in not (is_empty raw) && (same_ip ip raw || in_network ip raw)

  unfoldable pub ip_matches : Str → List Str → Bool
  ip_matches ip entries = elim (parse_ip ip) [
    | none ↦ false
    | some parsed ↦ any (entry_matches parsed) entries
  ]
