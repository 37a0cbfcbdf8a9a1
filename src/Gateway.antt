-- ===== src/Gateway.antt =====
-- apps/securityedge/internal/gateway/handler.go, ServeHTTP: the checks of a request, in order, over
-- the admission limiter, the ban manager and the rate limiter. The request's route and client are
-- those that the router and the resolver found; what the body, the inspection and the downstream
-- handler do are arguments, as are the times that time.Now gives. A retry time is in nanoseconds.
pub mod Shape
pub mod Staging
pub mod Types
pub mod Responses
pub mod Exits
pub mod Inspections
pub mod Checks
pub mod Screening
pub mod Serving
pub mod Overruns
pub mod Flights
pub mod Tunnels
pub mod Logging
mod Examples
use secure_edge_platform.Prelude.{
  ℕ, ◌+◌, ◌/◌, Bool, true, false, not, ◌&&◌, ◌||◌, Option, none, some, List, [], ◌∷◌, any, ltb, leb,
  ◌==◌, if◌then◌else◌,
}
use secure_edge_platform.Prelude.Text.{Str, codes, is_empty, trim_space}
use secure_edge_platform.Prelude.Maps.{Map, insert}
use secure_edge_platform.Admission
use secure_edge_platform.Bans
use secure_edge_platform.RateLimit
use Shape.{
  Request, Limits, Reason, validate_request_shape, method_allowed, request_needs_body_staging,
  no_reason, header_value_too_large, body_too_large, body_read_failed, client_canceled,
  global_concurrency, client_concurrency, temporary_auto_ban, ip_denied, method_not_allowed,
  global_rate_limit, client_rate_limit, rate_limit_capacity, inspection_failed,
  inspection_limit_exceeded, waf_threshold, waf_detection, reason_text,
}
use Staging.{Staged, stage_request_body, not_staged, trailer_too_large, too_large, failed, staged}
use Types.{
  Addresses, Policy, Inspection, inspected, max_bytes_error, other_error, Arrival, Gateway, Verdict,
  Reply, blocked_reply, no_reply, forwarded_reply, Checked, answered, forwarded, verdict, allowed,
  is_block, is_off, retry_seconds, ip_matches, ServerConfig,
}
use Responses.{
  Action, allow, block, log, rate_limit, overload, banned, canceled, Writer, Call, run,
  close_writer, final_status_of, action_text, set_decision_headers,
}

-- A policy that is off, and a client of the allowlist, skip the checks but for the body's.
pub skips : {F : Type 0} → Policy F → Bool → Bool
skips policy allowlisted = not policy.enabled || (is_off policy.mode || allowlisted)

pub limit_reason : RateLimit.Decision → Reason
limit_reason d = elim d.reason [
  | RateLimit.bucket_capacity ↦ rate_limit_capacity
  | _ ↦ elim d.scope [ RateLimit.global_scope ↦ global_rate_limit | _ ↦ client_rate_limit ]
]

-- decision.Scope == "client" && decision.Reason == "rate_exceeded"
pub is_client_excess : RateLimit.Decision → Bool
is_client_excess d = elim d.scope [
  | RateLimit.client_scope ↦ elim d.reason [ RateLimit.rate_exceeded ↦ true | _ ↦ false ]
  | _ ↦ false
]

abbrev pub limited_verdict : RateLimit.Decision → Verdict
limited_verdict d = record (verdict rate_limit (limit_reason d) 429) { retry_after = d.retry_after }

abbrev pub limited_reply : RateLimit.Decision → Reply
limited_reply d = blocked_reply 429 (codes "rate_limited") (some (retry_seconds d.retry_after))

module _ (f : RateLimit.Float64) (net : Addresses) (parse_media_type : Str → Option Str) where
  open f use {F}

  -- A violation of the client is recorded, and the request is answered.
  pub deny_violation : Gateway F → Policy F → Arrival → Verdict → Reply → Checked F
  deny_violation g policy a v reply =
      let (bans, now_banned, d) =
        Bans.record_violation g.bans a.client policy.auto_ban a.violation_at in
      answered (record g { bans = bans }) (record v { auto_banned = now_banned }) reply

  -- The refusal of a request by its form, or what follows.
  pub shaped : Gateway F → Policy F → Arrival → Option (ℕ × Reason) → Checked F → Checked F
  unfolding deny_violation
  shaped g policy a none next = next
  shaped g policy a (some (code, why)) next =
      deny_violation g policy a (verdict block why code) (blocked_reply code (reason_text why) none)

  -- What follows the staging of the body, whose trailers are then looked at.
  pub after_staging :
      Gateway F → Policy F → Arrival → Request → (Request → Bool → Checked F) → Staged → Checked F
  unfolding deny_violation shaped
  after_staging g policy a req next not_staged =
      next req (req.body && ltb 0 policy.limits.max_request_body_bytes)
  after_staging g policy a req next too_large =
      deny_violation g policy a (verdict block body_too_large 413)
        (blocked_reply 413 (codes "body_too_large") none)
  after_staging g policy a req next trailer_too_large =
      deny_violation g policy a (verdict block header_value_too_large 431)
        (blocked_reply 431 (codes "header_value_too_large") none)
  after_staging g policy a req next failed =
      if a.context_done
      then answered g (verdict canceled client_canceled 0) no_reply
      else answered g (record (verdict block body_read_failed 400) { processing_error = true })
          (blocked_reply 400 (codes "body_read_failed") none)
  after_staging g policy a req next (staged req' n) =
      shaped g policy a (validate_request_shape parse_media_type req' policy.limits)
        (next req' (req'.body && ltb 0 policy.limits.max_request_body_bytes))

  -- prepareBody, which a request passes once: the request for the next reader, or an answer.
  pub prepare_body :
      Gateway F → Policy F → Arrival → Request → (Request → Bool → Checked F) → Checked F
  unfolding after_staging
  prepare_body g policy a req next =
      if not (request_needs_body_staging req)
      then next req (req.body && ltb 0 policy.limits.max_request_body_bytes)
      else after_staging g policy a req next
          (stage_request_body req a.body policy.limits.max_request_body_bytes)

  -- What the inspection leads to, and the request goes on.
  pub judge : Gateway F → Policy F → Arrival → Request → Bool → Inspection → Checked F
  unfolding deny_violation
  judge g policy a req limited max_bytes_error =
      deny_violation g policy a (verdict block body_too_large 413)
        (blocked_reply 413 (codes "body_too_large") none)
  judge g policy a req limited other_error =
      if a.context_done
      then answered g (verdict canceled client_canceled 0) no_reply
      else answered g (record (verdict block inspection_failed 400) { processing_error = true })
          (blocked_reply 400 (codes "inspection_failed") none)
  judge g policy a req limited (inspected result) =
      if result.body_truncated && policy.block_on_inspection_limit
      then deny_violation g policy a
          (record (verdict block inspection_limit_exceeded 413) { score = result.score })
          (blocked_reply 413 (codes "inspection_limit_exceeded") none)
      else if not result.excluded && ltb 0 result.matches
      then (if leb policy.anomaly_threshold result.score && is_block policy.mode
          then deny_violation g policy a
              (record (verdict block waf_threshold 403) { score = result.score })
              (blocked_reply 403 (codes "waf_blocked") none)
          else forwarded g (record (verdict log waf_detection 0) { score = result.score }) req
              limited)
      else forwarded g (record allowed { score = result.score }) req limited

  -- The tokens of the route and of the client, then the body and the inspection.
  pub limit_rate : Gateway F → Policy F → Arrival → Request → Checked F
  unfolding deny_violation prepare_body judge
  limit_rate g policy a req =
      let (buckets, d) =
        RateLimit.allow f g.buckets a.route a.client policy.rate_limit a.rate_checked_at in
      let g' = record g { buckets = buckets } in
      if not d.allowed
      then (if is_client_excess d
          then deny_violation g' policy a (limited_verdict d) (limited_reply d)
          else answered g' (limited_verdict d) (limited_reply d))
      else prepare_body g' policy a req
          (λ req' limited. judge g' policy a req' limited (a.inspection req'))

  -- The lists of the policy, for a request that is inspected.
  pub match_lists : Gateway F → Policy F → Arrival → Request → Checked F
  unfolding deny_violation limit_rate
  match_lists g policy a req =
      if ip_matches net a.client policy.ip_denylist
      then deny_violation g policy a (verdict block ip_denied 403)
          (blocked_reply 403 (codes "ip_denied") none)
      else if not (method_allowed req.method policy.allowed_methods)
      then answered g (verdict block method_not_allowed 405)
          (blocked_reply 405 (codes "method_not_allowed") none)
      else limit_rate g policy a req

  -- The checks after the ban's.
  pub apply_policy : Gateway F → Policy F → Arrival → Bool → Request → Checked F
  unfolding match_lists skips prepare_body
  apply_policy g policy a allowlisted req =
      if skips policy allowlisted
      then prepare_body g policy a req (forwarded g allowed)
      else match_lists g policy a req

  -- A ban counts for a client that is not on the allowlist, which is not even looked up then.
  pub check_ban : Gateway F → Policy F → Arrival → Request → Checked F
  unfolding apply_policy
  check_ban g policy a req =
      let allowlisted = ip_matches net a.client policy.ip_allowlist in
      if allowlisted
      then apply_policy g policy a true req
      else (let (bans, blocked, retry) = Bans.is_banned g.bans a.client a.ban_checked_at in
          let g' = record g { bans = bans } in
          if blocked
          then answered g' (record (verdict banned temporary_auto_ban 429) { retry_after = retry })
              (blocked_reply 429 (codes "temporarily_banned") (some (retry_seconds retry)))
          else apply_policy g' policy a false req)

  abbrev with_id : Request → Str → Request
  with_id req id = record req { header = insert (codes "X-Request-Id") (id ∷ []) req.header }

  -- From validateRequestShape to the downstream handler, for a request that was admitted.
  pub check : Gateway F → Policy F → Arrival → Checked F
  unfolding shaped check_ban
  check g policy a =
      shaped g policy a (validate_request_shape parse_media_type a.request policy.limits)
        (check_ban g policy a (with_id a.request a.request_id))

  -- The answer to a request that was forwarded, and a violation where its body was too long.
  abbrev opened : (ℕ → Str) → ServerConfig → Arrival → Verdict → Bool → Writer
  opened itoa server a v limited = record {
    request_id = a.request_id;
    action = v.action;
    score = itoa v.score;
    add_security_headers = server.add_security_headers;
    body_limit = limited;
    exceeded = false;
    status = 0;
    header =
        set_decision_headers [] (action_text v.action) (itoa v.score) server.add_security_headers;
    sent = [];
    body = [];
  }

  pub pass_on :
      (ℕ → Str)
      → ServerConfig
      → Gateway F
      → Policy F
      → Arrival
      → Verdict
      → Request
      → Bool
      → Gateway F × Verdict × Reply
  pass_on itoa server g policy a v req limited =
      let (w, exceeded) = close_writer (run (opened itoa server a v limited) (a.downstream req)) in
      let (bans, now_banned, d) =
        Bans.record_violation g.bans a.client policy.auto_ban a.violation_at in
      if exceeded
      then (
        record g { bans = bans },
        record v {
          action = block;
          reason = body_too_large;
          status = final_status_of w;
          auto_banned = now_banned;
        },
        forwarded_reply w,
      )
      else (g, record v { status = final_status_of w }, forwarded_reply w)

  -- The refusal of Acquire.
  pub overloaded : Gateway F → Policy F → Arrival → Admission.Reason → Gateway F × Verdict × Reply
  overloaded g policy a Admission.global_concurrency = (
    g,
    record (verdict overload global_concurrency 503) { retry_after = 1_000_000_000 },
    blocked_reply 503 (codes "server_busy") (some 1),
  )
  overloaded g policy a Admission.client_concurrency =
      let (bans, now_banned, d) =
        Bans.record_violation g.bans a.client policy.auto_ban a.violation_at in
      (
        record g { bans = bans },
        record (verdict overload client_concurrency 503) {
          retry_after = 1_000_000_000;
          auto_banned = now_banned;
        },
        blocked_reply 503 (codes "server_busy") (some 1),
      )

  pub finish :
      (ℕ → Str) → ServerConfig → Policy F → Arrival → Checked F → Gateway F × Verdict × Reply
  unfolding pass_on
  finish itoa server policy a (answered g v reply) = (g, v, reply)
  finish itoa server policy a (forwarded g v req limited) =
      pass_on itoa server g policy a v req limited

  abbrev released : Str → Gateway F × Verdict × Reply → Gateway F × Verdict × Reply
  released client (g, v, reply) =
      (record g { admission = Admission.release g.admission client }, v, reply)

  -- What follows Acquire; the deferred release runs at the end.
  pub after_acquire :
      (ℕ → Str)
      → ServerConfig
      → Policy F
      → Gateway F
      → Arrival
      → Admission.Outcome
      → Gateway F × Verdict × Reply
  unfolding check finish overloaded
  after_acquire itoa server policy g a (Admission.rejected why) = overloaded g policy a why
  after_acquire itoa server policy g a (Admission.admitted l) =
      released a.client (finish itoa server policy a (check (record g { admission = l }) policy a))

  -- A request that nothing else comes between.
  pub serve :
      (ℕ → Str) → ServerConfig → Policy F → Gateway F → Arrival → Gateway F × Verdict × Reply
  unfolding after_acquire
  serve itoa server policy g a = after_acquire itoa server policy g a (
      Admission.acquire g.admission a.client server.max_concurrent_requests
        server.max_concurrent_per_client)
