-- ===== src/Gateway/Exits.antt =====
-- Gateway: the ways in which the checks of a request end.
use secure_edge_platform.Prelude.{
  ℕ, ◌≡◌, ◌≢◌, ◌≤◌, ◌<◌, ◌⊎◌, Bool, true, false, ◌&&◌, Option, none, leb,
}
use secure_edge_platform.Prelude.Text.{Str}
use secure_edge_platform.Bans
use secure_edge_platform.RateLimit
use secure_edge_platform.Gateway.Shape
use secure_edge_platform.Gateway.Shape.{
  Request, Limits, Reason, validate_request_shape, method_allowed, request_needs_body_staging,
  reason_text,
}
use secure_edge_platform.Gateway.Shape.Faults.{is_offence}
use secure_edge_platform.Gateway.Responses.{allow, log, canceled}
use secure_edge_platform.Gateway.Types.{
  Addresses, Policy, Inspected, inspected, Arrival, Gateway, Verdict, Reply, blocked_reply,
  no_reply, Checked, answered, forwarded, verdict, is_block, ip_matches,
}
use secure_edge_platform.Gateway.{deny_violation, skips}

-- A verdict against a request with its answer: an error status, which the answer has too; or none of
-- either, where the client has gone.
pub data Refusal : Verdict → Reply → Type 0 where
  refusal :
      (v : Verdict) (code : Str) (retry : Option ℕ)
      → v.action ≢ allow
      → v.action ≢ log
      → 400 ≤ v.status
      → v.status < 600
      → v.auto_banned ≡ false
      → Refusal v (blocked_reply v.status code retry)
  gone : Refusal (verdict canceled Shape.client_canceled 0) no_reply

module _ (f : RateLimit.Float64) (net : Addresses) (parse : Str → Option Str) where
  open f use {F}

  module _ (policy : Policy F) (a : Arrival) where
    -- The gateway at some later check: the ban's check may have touched the bans, nothing else.
    pub record Reached (g g' : Gateway F) : Type 0 where
      pub admission : g'.admission ≡ g.admission
      pub bans :
          (g'.bans ≡ g.bans) ⊎ (g'.bans ≡ (Bans.is_banned g.bans a.client a.ban_checked_at).0)

    -- A result of the inspection that the policy does not block.
    pub record IsTolerated (v : Verdict) (result : Inspected) : Type 0 where
      pub whole : (result.body_truncated && policy.block_on_inspection_limit) ≡ false
      pub harmless :
          (result.excluded ≡ true)
          ⊎ (result.matches ≡ 0)
          ⊎ ((leb policy.anomaly_threshold result.score && is_block policy.mode) ≡ false)
      pub score : v.score ≡ result.score

    -- What a request has passed that was inspected.
    pub record IsInspected (g : Gateway F) (v : Verdict) (req : Request) : Type 0 where
      pub listed : ip_matches net a.client policy.ip_denylist ≡ false
      pub method : method_allowed a.request.method policy.allowed_methods ≡ true
      pub rate :
          (RateLimit.allow f g.buckets a.route a.client policy.rate_limit
            a.rate_checked_at).1.allowed
          ≡ true
      pub inspection :
          (result : Inspected) × (a.inspection req ≡ inspected result) × IsTolerated v result

    pub record HasPassed (g : Gateway F) (v : Verdict) (req : Request) : Type 0 where
      pub shaped : validate_request_shape parse a.request policy.limits ≡ none
      pub unbanned :
          (ip_matches net a.client policy.ip_allowlist ≡ true)
          ⊎ ((Bans.is_banned g.bans a.client a.ban_checked_at).1 ≡ false)
      pub policies :
          (skips policy (ip_matches net a.client policy.ip_allowlist) ≡ true) ⊎ IsInspected g v req

    -- How the checks end: an offence, which is recorded; another refusal; or the request is passed on.
    pub data Exit (g : Gateway F) : Checked F → Type 0 where
      offends :
          (g' : Gateway F) (v : Verdict) (reply : Reply)
          → Reached g g'
          → Refusal v reply
          → is_offence v.reason ≡ true
          → Exit g (deny_violation f net parse g' policy a v reply)
      refuses :
          (g' : Gateway F) (v : Verdict) (reply : Reply)
          → Reached g g'
          → Refusal v reply
          → is_offence v.reason ≡ false
          → Exit g (answered g' v reply)
      passes :
          (g' : Gateway F) (v : Verdict) (req : Request) (limited : Bool)
          → Reached g g'
          → HasPassed g v req
          → v.auto_banned ≡ false
          → Exit g (forwarded g' v req limited)
