-- ===== src/Gateway/Checks.antt =====
-- Gateway: every way in which the checks of a request end.
use secure_edge_platform.Prelude.{
  ◌≡◌, ◌⊎◌, inl, inr, refl, sym, ap, subst, ◌∙◌, Bool, true, false, not, Option, none,
  if◌then◌else◌, arith, if_elim,
}
use secure_edge_platform.Prelude.Text.{Str}
use secure_edge_platform.Prelude.Maps.{Map}
use secure_edge_platform.Bans
use secure_edge_platform.RateLimit
use secure_edge_platform.RateLimit.Refusals.{Refused, by_capacity, by_rate, allow-Refused}
use secure_edge_platform.Gateway.Shape
use secure_edge_platform.Gateway.Shape.{
  Request, Limits, Reason, validate_request_shape, method_allowed, request_needs_body_staging,
  reason_text,
}
use secure_edge_platform.Gateway.Shape.Faults.{is_offence, shape-IsFault}
use secure_edge_platform.Gateway.Responses.{block, banned}
use secure_edge_platform.Gateway.Types.{
  Addresses, Policy, Inspected, inspected, Arrival, Gateway, Verdict, answered, verdict, allowed,
  ip_matches,
}
use secure_edge_platform.Gateway.{
  deny_violation, prepare_body, judge, limit_reason, is_client_excess, limited_verdict,
  limited_reply, limit_rate, match_lists, skips, apply_policy, check_ban, check, with_id,
}
use secure_edge_platform.Gateway.Exits.{
  Refusal, refusal, Reached, IsTolerated, IsInspected, HasPassed, Exit, offends, refuses, passes,
}
use secure_edge_platform.Gateway.Inspections.{shaped-Exit, blocked, prepare_body-Exit, judge-Exit}

module _ (f : RateLimit.Float64) (net : Addresses) (parse : Str → Option Str) where
  open f use {F}

  module _ (policy : Policy F) (a : Arrival) (g : Gateway F) where
    limited_verdict-Refusal :
        (d : RateLimit.Decision) → Refusal (limited_verdict d) (limited_reply d)
    limited_verdict-Refusal d =
        refusal (limited_verdict d) _ _ (λ q. cc) (λ q. cc) (omega arith) (omega arith) refl

    is_client_excess-is_offence :
        (d : RateLimit.Decision) → Refused d → is_client_excess d ≡ is_offence (limit_reason d)
    unfolding is_client_excess limit_reason is_offence
    is_client_excess-is_offence _ (by_capacity retry s (inl e)) = rw e refl
    is_client_excess-is_offence _ (by_capacity retry s (inr e)) = rw e refl
    is_client_excess-is_offence _ (by_rate retry s (inl e)) = rw e refl
    is_client_excess-is_offence _ (by_rate retry s (inr e)) = rw e refl

    limit_rate-Exit :
        (g' : Gateway F) (req : Request)
        → Reached f net parse policy a g g'
        → g'.buckets ≡ g.buckets
        → ((v : Verdict) (r : Request)
            → (RateLimit.allow f g'.buckets a.route a.client policy.rate_limit
                a.rate_checked_at).1.allowed
              ≡ true
            → (result : Inspected) → a.inspection r ≡ inspected result
            → IsTolerated f net parse policy a v result
            → HasPassed f net parse policy a g v r)
        → Exit f net parse policy a g (limit_rate f net parse g' policy a req)
    unfolding limit_rate
    limit_rate-Exit g' req r same passed =
        go (RateLimit.allow f g'.buckets a.route a.client policy.rate_limit a.rate_checked_at)
          (allow-Refused f g'.buckets a.route a.client policy.rate_limit a.rate_checked_at) passed
      where
        go :
            (answer : Map (RateLimit.Bucket F) × RateLimit.Decision)
            → (answer.1.allowed ≡ true) ⊎ Refused answer.1
            → ((v : Verdict) (r : Request)
                → answer.1.allowed ≡ true
                → (result : Inspected) → a.inspection r ≡ inspected result
                → IsTolerated f net parse policy a v result
                → HasPassed f net parse policy a g v r)
            → Exit f net parse policy a g (
                if not answer.1.allowed
                then (if is_client_excess answer.1
                    then deny_violation f net parse
                        (record g' { buckets = answer.0 })
                        policy
                        a
                        (limited_verdict answer.1)
                        (limited_reply answer.1)
                    else answered
                        (record g' { buckets = answer.0 })
                        (limited_verdict answer.1)
                        (limited_reply answer.1))
                else prepare_body f net parse
                    (record g' { buckets = answer.0 })
                    policy
                    a
                    req
                    (λ req' limited.
                      judge f net parse
                        (record g' { buckets = answer.0 })
                        policy
                        a
                        req'
                        limited
                        (a.inspection req')))
        go (buckets, d) w pass =
            if_elim (Exit f net parse policy a g) (not d.allowed) _ _
              (λ n.
                if_elim (Exit f net parse policy a g) (is_client_excess d) _ _
                  (λ e.
                    offends now (limited_verdict d) _ still (limited_verdict-Refusal d)
                      (sym (is_client_excess-is_offence d (named n w)) ∙ e))
                  (λ e.
                    refuses now (limited_verdict d) _ still (limited_verdict-Refusal d)
                      (sym (is_client_excess-is_offence d (named n w)) ∙ e)))
              (λ y. prepare_body-Exit f net parse policy a g now req _ still (λ req' limited.
                judge-Exit f net parse policy a g now req' limited (a.inspection req') still
                  (λ v result e t. pass v req' (ground (arith, y)) result e t)))
          where
            now : Gateway F
            now = record g' { buckets = buckets }

            still : Reached f net parse policy a g now
            still = record { admission = r.admission; bans = r.bans }

            named : not d.allowed ≡ true → (d.allowed ≡ true) ⊎ Refused d → Refused d
            named n (inl ok) = absurd (ground (arith, n, ok))
            named n (inr w) = w

    match_lists-Exit :
        (g' : Gateway F) (req : Request)
        → Reached f net parse policy a g g'
        → g'.buckets ≡ g.buckets
        → req.method ≡ a.request.method
        → ((v : Verdict) (r : Request)
            → IsInspected f net parse policy a g v r
            → HasPassed f net parse policy a g v r)
        → Exit f net parse policy a g (match_lists f net parse g' policy a req)
    unfolding match_lists
    match_lists-Exit g' req r same method passed =
        if_elim (Exit f net parse policy a g) (ip_matches net a.client policy.ip_denylist) _ _
          (λ e.
            offends g' (verdict block Shape.ip_denied 403) _ r
              (blocked f net parse policy a g _ _ refl (omega arith) (omega arith) refl)
              (unfold is_offence in refl))
          (λ listed.
            if_elim (Exit f net parse policy a g)
              (not (method_allowed req.method policy.allowed_methods)) _ _
              (λ e.
                refuses g' (verdict block Shape.method_not_allowed 405) _ r
                  (blocked f net parse policy a g _ _ refl (omega arith) (omega arith) refl)
                  (unfold is_offence in refl))
              (λ m. limit_rate-Exit g' req r same (λ v r' ok result e t. passed v r' (record {
                listed = listed;
                method = ground (arith, m, method);
                rate =
                    ap
                      (λ b.
                        (RateLimit.allow f b a.route a.client policy.rate_limit
                          a.rate_checked_at).1.allowed)
                      (sym same)
                    ∙ ok;
                inspection = (result, e, t);
              }))))

    apply_policy-Exit :
        (g' : Gateway F) (req : Request)
        → Reached f net parse policy a g g'
        → g'.buckets ≡ g.buckets
        → req.method ≡ a.request.method
        → validate_request_shape parse a.request policy.limits ≡ none
        → (ip_matches net a.client policy.ip_allowlist ≡ true)
          ⊎ ((Bans.is_banned g.bans a.client a.ban_checked_at).1 ≡ false)
        → Exit f net parse policy a g
            (apply_policy f net parse g' policy a (ip_matches net a.client policy.ip_allowlist) req)
    unfolding apply_policy
    apply_policy-Exit g' req r same method shape unbanned =
        if_elim (Exit f net parse policy a g)
          (skips policy (ip_matches net a.client policy.ip_allowlist)) _ _
          (λ e. prepare_body-Exit f net parse policy a g g' req _ r (λ r' b.
            passes g' allowed r' b r
              (record { shaped = shape; unbanned = unbanned; policies = inl e }) refl))
          (λ e.
            match_lists-Exit g' req r same method
              (λ v r' w. record { shaped = shape; unbanned = unbanned; policies = inr w }))

    check_ban-Exit :
        (req : Request)
        → req.method ≡ a.request.method
        → validate_request_shape parse a.request policy.limits ≡ none
        → Exit f net parse policy a g (check_ban f net parse g policy a req)
    unfolding check_ban
    check_ban-Exit req method shape =
        if_elim (Exit f net parse policy a g) (ip_matches net a.client policy.ip_allowlist) _ _
          (λ e. from g e (
            apply_policy-Exit g req (record { admission = refl; bans = inl refl }) refl method shape
              (inl e)))
          (λ e.
            if_elim (Exit f net parse policy a g)
              (Bans.is_banned g.bans a.client a.ban_checked_at).1 _ _
              (λ b.
                refuses now
                  (record (verdict banned Shape.temporary_auto_ban 429) {
                    retry_after = (Bans.is_banned g.bans a.client a.ban_checked_at).2;
                  })
                  _ still (refusal _ _ _ (λ q. cc) (λ q. cc) (omega arith) (omega arith) refl)
                  (unfold is_offence in refl))
              (λ b. from now e (apply_policy-Exit now req still refl method shape (inr b))))
      where
        now : Gateway F
        now = record g { bans = (Bans.is_banned g.bans a.client a.ban_checked_at).0 }

        still : Reached f net parse policy a g now
        still = record { admission = refl; bans = inr refl }

        from :
            {b : Bool} (g' : Gateway F)
            → ip_matches net a.client policy.ip_allowlist ≡ b
            → Exit f net parse policy a g (
                apply_policy f net parse g' policy a
                  (ip_matches net a.client policy.ip_allowlist)
                  req)
            → Exit f net parse policy a g (apply_policy f net parse g' policy a b req)
        from g' e =
            subst (λ b. Exit f net parse policy a g (apply_policy f net parse g' policy a b req)) e

    -- Between admission and the downstream handler a request ends in one of three ways. An offence
    -- is answered with an error status and recorded once against the client. Any other refusal is
    -- answered with an error status, or not at all where the client has gone, and is recorded
    -- against no one. The request is passed on only if it is well formed, its client is on the
    -- allowlist or not banned, and the policy is off for it or the denylist, the methods, the rate
    -- limits and the inspection all let it pass.
    pub check-Exit : Exit f net parse policy a g (check f net parse g policy a)
    unfolding check
    check-Exit =
        shaped-Exit f net parse policy a g g _ _ (record { admission = refl; bans = inl refl })
          (shape-IsFault parse a.request policy.limits)
          (λ e. check_ban-Exit (with_id f net parse a.request a.request_id) refl e)
