-- ===== src/RateLimit/Refusals.antt =====
-- RateLimit: what a refusal tells.
use secure_edge_platform.Prelude.{
  ℕ, ◌≡◌, ◌⊎◌, inl, inr, refl, true, false, not, if_elim, arith, leb, Bool-cases, Option-cases,
  length,
}
use secure_edge_platform.Prelude.Text.{Str}
use secure_edge_platform.Prelude.Maps.{Map, lookup}
use secure_edge_platform.RateLimit.{
  Float64, Bucket, Config, Answer, Decision, Reason, Scope, bucket_capacity, rate_exceeded,
  global_scope, client_scope, refilled, spend, allow_locked, client_step, allow, full_bucket,
  refused, global_key, client_key,
}

abbrev IsReason : Reason → Type 0
IsReason r = (r ≡ bucket_capacity) ⊎ (r ≡ rate_exceeded)

-- A refusal names a scope and a reason.
pub data Refused : Decision → Type 0 where
  by_capacity :
      (retry : ℕ) (s : Scope)
      → (s ≡ global_scope) ⊎ (s ≡ client_scope)
      → Refused
          (record { allowed = false; retry_after = retry; scope = s; reason = bucket_capacity })
  by_rate :
      (retry : ℕ) (s : Scope)
      → (s ≡ global_scope) ⊎ (s ≡ client_scope)
      → Refused (record { allowed = false; retry_after = retry; scope = s; reason = rate_exceeded })

module _ (f : Float64) where
  spend-why :
      (m : Map (Bucket f.F)) (key : Str) (b : Bucket f.F) (rate : f.F) (burst now : ℕ)
      → ((spend f m key b rate burst now).1.ok ≡ true)
        ⊎ IsReason (spend f m key b rate burst now).1.why
  unfolding spend
  spend-why m key b rate burst now =
      elim (Bool-cases (f.at_most (f.of_int 1) (refilled f b rate burst now))) [
        | inl e ↦ rw e (inl refl)
        | inr e ↦ rw e (inr (inr refl))
      ]

  allow_locked-why :
      (m : Map (Bucket f.F)) (key : Str) (rate : f.F) (burst max_buckets now : ℕ)
      → ((allow_locked f m key rate burst max_buckets now).1.ok ≡ true)
        ⊎ IsReason (allow_locked f m key rate burst max_buckets now).1.why
  unfolding allow_locked
  allow_locked-why m key rate burst max_buckets now = elim (Option-cases (lookup key m)) [
    | inr (b, e) ↦ rw (e, allow_locked) (spend-why m key b rate burst now)
    | inl e ↦
        rw (e, allow_locked)
          (elim (Bool-cases (leb max_buckets (length m))) [
            | inl full ↦ rw full (inr (inl refl))
            | inr room ↦ rw room (spend-why _ key (full_bucket f burst now) rate burst now)
          ])
  ]

  refused-Refused :
      (a : Answer) (s : Scope)
      → (s ≡ global_scope) ⊎ (s ≡ client_scope)
      → IsReason a.why
      → Refused (refused f s a)
  refused-Refused a s e (inl r) = rw r (by_capacity a.retry s e)
  refused-Refused a s e (inr r) = rw r (by_rate a.retry s e)

  -- A request is granted, or refused with the scope and the reason of the refusal.
  pub allow-Refused :
      (m : Map (Bucket f.F)) (route client : Str) (cfg : Config f.F) (now : ℕ)
      → ((allow f m route client cfg now).1.allowed ≡ true)
        ⊎ Refused (allow f m route client cfg now).1
  unfolding allow client_step
  allow-Refused m route client cfg now =
      if_elim P (not cfg.enabled) _ _ (λ e. inl refl)
        (λ e.
          if_elim P (not first.1.ok) _ _
            (λ d. inr (from global_scope first.1 (inl refl) d (allow_locked-why _ _ _ _ _ _)))
            (λ d.
              if_elim P (not second.1.ok) _ _
                (λ c. inr (from client_scope second.1 (inr refl) c (allow_locked-why _ _ _ _ _ _)))
                (λ c. inl refl)))
    where
      P : Map (Bucket f.F) × Decision → Type 0
      P r = (r.1.allowed ≡ true) ⊎ Refused r.1

      first : Map (Bucket f.F) × Answer
      first =
          allow_locked f m (global_key route) cfg.global_requests_per_second cfg.global_burst
            cfg.max_buckets now

      second : Map (Bucket f.F) × Answer
      second =
          allow_locked f first.0 (client_key route client) cfg.requests_per_second cfg.burst
            cfg.max_buckets now

      from :
          (s : Scope) (a : Answer)
          → (s ≡ global_scope) ⊎ (s ≡ client_scope)
          → not a.ok ≡ true
          → (a.ok ≡ true) ⊎ IsReason a.why
          → Refused (refused f s a)
      from s a e h (inl o) = absurd (ground (arith, h, o))
      from s a e h (inr r) = refused-Refused a s e r
