-- ===== src/Gateway/Inspections.antt =====
-- Gateway: what follows the form of a request, the staging of its body, and its inspection.
use secure_edge_platform.Prelude.{
  ℕ, ◌≡◌, ◌≢◌, ◌≤◌, ◌<◌, inr, refl, sym, ◌∙◌, Bool, true, false, not, ◌&&◌, Option, none, some, ltb,
  leb, if◌then◌else◌, arith, if_elim,
}
use secure_edge_platform.Prelude.Text.{Str}
use secure_edge_platform.RateLimit
use secure_edge_platform.Gateway.Shape
use secure_edge_platform.Gateway.Shape.{
  Request, Limits, Reason, validate_request_shape, method_allowed, request_needs_body_staging,
  reason_text,
}
use secure_edge_platform.Gateway.Shape.Faults.{is_offence, IsFault, fault, shape-IsFault}
use secure_edge_platform.Gateway.Staging.{
  Staged, not_staged, trailer_too_large, too_large, failed, staged,
}
use secure_edge_platform.Gateway.Responses.{allow, block, log, canceled}
use secure_edge_platform.Gateway.Types.{
  Addresses, Policy, Inspection, Inspected, inspected, max_bytes_error, other_error, Arrival,
  Gateway, Verdict, blocked_reply, no_reply, Checked, answered, verdict, is_block,
}
use secure_edge_platform.Gateway.{shaped, after_staging, prepare_body, judge}
use secure_edge_platform.Gateway.Exits.{
  Refusal, refusal, gone, Reached, IsTolerated, HasPassed, Exit, offends, refuses, passes,
}

block-allow : block ≢ allow
block-allow e = cc

block-log : block ≢ log
block-log e = cc

client_canceled_no_offence : is_offence Shape.client_canceled ≡ false
unfolding is_offence
client_canceled_no_offence = refl

module _ (f : RateLimit.Float64) (net : Addresses) (parse : Str → Option Str) where
  open f use {F}

  module _ (policy : Policy F) (a : Arrival) (g : Gateway F) where
    pub shaped-Exit :
        (g' : Gateway F) (o : Option (ℕ × Reason)) (c : Checked F)
        → Reached f net parse policy a g g'
        → IsFault o
        → (o ≡ none → Exit f net parse policy a g c)
        → Exit f net parse policy a g (shaped f net parse g' policy a o c)
    unfolding shaped
    shaped-Exit g' none c r w e = e refl
    shaped-Exit g' (some _) c r (fault code why l u o) e =
        offends g' _ _ r (refusal (verdict block why code) _ _ (λ q. cc) (λ q. cc) l u refl) o

    -- A block, and an error that a client that has gone does not see.
    pub blocked :
        (v : Verdict) (code : Str)
        → v.action ≡ block
        → 400 ≤ v.status
        → v.status < 600
        → v.auto_banned ≡ false
        → Refusal v (blocked_reply v.status code none)
    blocked v code e l u b =
        refusal v code none (λ q. absurd (block-allow (sym e ∙ q)))
          (λ q. absurd (block-log (sym e ∙ q))) l u b

    canceled-Exit :
        (g' : Gateway F) (why : Reason) (code : Str)
        → Reached f net parse policy a g g'
        → is_offence why ≡ false
        → Exit f net parse policy a g (
            if a.context_done
            then answered g' (verdict canceled Shape.client_canceled 0) no_reply
            else answered g'
                (record (verdict block why 400) { processing_error = true })
                (blocked_reply 400 code none))
    canceled-Exit g' why code r o =
        if_elim (Exit f net parse policy a g) a.context_done _ _
          (λ e. refuses g' _ _ r gone client_canceled_no_offence)
          (λ e. refuses g' _ _ r (blocked _ code refl (omega arith) (omega arith) refl) o)

    after_staging-Exit :
        (g' : Gateway F) (req : Request) (next : Request → Bool → Checked F) (s : Staged)
        → Reached f net parse policy a g g'
        → ((r : Request) (b : Bool) → Exit f net parse policy a g (next r b))
        → Exit f net parse policy a g (after_staging f net parse g' policy a req next s)
    unfolding after_staging is_offence
    after_staging-Exit g' req next not_staged r go = go _ _
    after_staging-Exit g' req next too_large r go =
        offends g' (verdict block Shape.body_too_large 413) _ r
          (blocked _ _ refl (omega arith) (omega arith) refl) refl
    after_staging-Exit g' req next trailer_too_large r go =
        offends g' (verdict block Shape.header_value_too_large 431) _ r
          (blocked _ _ refl (omega arith) (omega arith) refl) refl
    after_staging-Exit g' req next failed r go = canceled-Exit g' _ _ r refl
    after_staging-Exit g' req next (staged req' n) r go =
        shaped-Exit g' _ _ r (shape-IsFault parse req' policy.limits) (λ e. go _ _)

    pub prepare_body-Exit :
        (g' : Gateway F) (req : Request) (next : Request → Bool → Checked F)
        → Reached f net parse policy a g g'
        → ((r : Request) (b : Bool) → Exit f net parse policy a g (next r b))
        → Exit f net parse policy a g (prepare_body f net parse g' policy a req next)
    unfolding prepare_body
    prepare_body-Exit g' req next r go =
        if_elim (Exit f net parse policy a g) (not (request_needs_body_staging req)) _ _
          (λ e. go _ _) (λ e. after_staging-Exit g' req next _ r go)

    pub judge-Exit :
        (g' : Gateway F) (req : Request) (limited : Bool) (i : Inspection)
        → Reached f net parse policy a g g'
        → ((v : Verdict) (result : Inspected)
            → i ≡ inspected result
            → IsTolerated f net parse policy a v result
            → HasPassed f net parse policy a g v req)
        → Exit f net parse policy a g (judge f net parse g' policy a req limited i)
    unfolding judge is_offence
    judge-Exit g' req limited max_bytes_error r passed =
        offends g' (verdict block Shape.body_too_large 413) _ r
          (blocked _ _ refl (omega arith) (omega arith) refl) refl
    judge-Exit g' req limited other_error r passed = canceled-Exit g' _ _ r refl
    judge-Exit g' req limited (inspected result) r passed =
        if_elim (Exit f net parse policy a g)
          (result.body_truncated && policy.block_on_inspection_limit) _ _
          (λ e.
            offends g'
              (record (verdict block Shape.inspection_limit_exceeded 413) { score = result.score })
              _ r (blocked _ _ refl (omega arith) (omega arith) refl) refl)
          (λ whole.
            if_elim (Exit f net parse policy a g) (not result.excluded && ltb 0 result.matches) _ _
              (λ found.
                if_elim (Exit f net parse policy a g)
                  (leb policy.anomaly_threshold result.score && is_block policy.mode) _ _
                  (λ e.
                    offends g'
                      (record (verdict block Shape.waf_threshold 403) { score = result.score }) _ r
                      (blocked _ _ refl (omega arith) (omega arith) refl) refl)
                  (λ mild.
                    passes g' _ req limited r
                      (passed _ result refl
                        (record { whole = whole; harmless = inr (inr mild); score = refl }))
                      refl))
              (λ quiet.
                passes g' _ req limited r
                  (passed _ result refl
                    (record { whole = whole; harmless = ground (arith, quiet); score = refl }))
                  refl))
