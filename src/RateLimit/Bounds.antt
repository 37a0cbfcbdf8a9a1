-- ===== src/RateLimit/Bounds.antt =====
-- RateLimit: the number of buckets and their tokens stay within the configuration.
use secure_edge_platform.Prelude.{
  ℕ, ◌-◌, ◌≤◌, ◌<◌, ◌≡◌, refl, ap, sym, subst, ◌∙◌, inl, inr, true, false, Option, some, arith, leb,
  Bool-cases, Option-cases, length, max,
}
use mathlib.Core.Logic.{if_pos}
use secure_edge_platform.Prelude.Text.{Str, str_dec}
use secure_edge_platform.Prelude.Maps.{
  Map, lookup, insert, lookup-insert, length-insert, length-insert_present,
}
use secure_edge_platform.RateLimit.{
  Float64, Float64Laws, Bucket, Config, Answer, global_key, client_key, refilled, spend,
  allow_locked, give_back, client_step, allow, full_bucket,
}
use secure_edge_platform.RateLimit.Rollback.{returned, allow_cases}

module _ (f : Float64) where
  length-spend :
      (m : Map (Bucket f.F)) (key : Str) (b c : Bucket f.F) (rate : f.F) (burst now : ℕ)
      → lookup key m ≡ some c
      → length (spend f m key b rate burst now).0 ≡ length m
  unfolding spend
  length-spend m key b c rate burst now h =
      elim (Bool-cases (f.at_most (f.of_int 1) (refilled f b rate burst now))) [
        | inl e ↦ rw e (length-insert_present key _ m {w = c} h)
        | inr e ↦ rw e (length-insert_present key _ m {w = c} h)
      ]

  length-allow_locked :
      (m : Map (Bucket f.F)) (key : Str) (rate : f.F) (burst max_buckets now : ℕ)
      → length (allow_locked f m key rate burst max_buckets now).0 ≤ max (length m) max_buckets
  unfolding allow_locked
  length-allow_locked m key rate burst max_buckets now = elim (Option-cases (lookup key m)) [
    | inr (b, e) ↦ rw (e, allow_locked) (omega (arith, length-spend m key b b rate burst now e))
    | inl e ↦
        rw (e, allow_locked)
          (elim (Bool-cases (leb max_buckets (length m))) [
            | inl full ↦ rw full (omega arith)
            | inr room ↦ rw room (
                omega (
                  arith,
                  leb_false (length m) max_buckets room,
                  length-insert key (full_bucket f burst now) m e,
                  length-spend (insert key (full_bucket f burst now) m) key
                      (full_bucket f burst now) (full_bucket f burst now) rate burst now
                      (lookup-insert key key (full_bucket f burst now) m
                        ∙ if_pos (str_dec key key) refl _ _),
                ))
          ])
  ]
    where
      leb_false : (n k : ℕ) → leb k n ≡ false → n < k
      leb_false n k h = ground arith

  length-give_back :
      (m : Map (Bucket f.F)) (key : Str) (burst : ℕ) → length (give_back f m key burst) ≡ length m
  unfolding give_back
  length-give_back m key burst = elim (Option-cases (lookup key m)) [
    | inl e ↦ rw (e, give_back) refl
    | inr (b, e) ↦
        rw (e, give_back)
          (elim (Bool-cases (f.less b.tokens (f.of_int burst))) [
            | inl h ↦ rw h (length-insert_present key _ m {w = b} e)
            | inr h ↦ rw h refl
          ])
  ]

  length-client_step :
      (m : Map (Bucket f.F)) (a : Answer) (route client : Str) (cfg : Config f.F) (now : ℕ)
      → length (client_step f m a route client cfg now).0 ≤ max (length m) cfg.max_buckets
  unfolding client_step
  length-client_step m a route client cfg now = ground (
    arith,
    length-allow_locked m (client_key route client) cfg.requests_per_second cfg.burst
        cfg.max_buckets now,
    length-give_back
        (allow_locked f m (client_key route client) cfg.requests_per_second cfg.burst
          cfg.max_buckets now).0
        (global_key route) cfg.global_burst,
  )

  -- A request leaves no more buckets than there were before or than the configuration allows,
  -- whichever is more.
  pub length-allow :
      (m : Map (Bucket f.F)) (route client : Str) (cfg : Config f.F) (now : ℕ)
      → length (allow f m route client cfg now).0 ≤ max (length m) cfg.max_buckets
  unfolding allow
  length-allow m route client cfg now = ground (
    arith,
    length-allow_locked m (global_key route) cfg.global_requests_per_second cfg.global_burst
        cfg.max_buckets now,
    length-client_step
        (allow_locked f m (global_key route) cfg.global_requests_per_second cfg.global_burst
          cfg.max_buckets now).0
        (allow_locked f m (global_key route) cfg.global_requests_per_second cfg.global_burst
          cfg.max_buckets now).1
        route client cfg now,
  )

  module _ (laws : Float64Laws f) where
    -- A bucket that has answered holds no more than the burst.
    abbrev Capped : ℕ → Option (Bucket f.F) → Type 0
    Capped burst o = (b : Bucket f.F) → o ≡ some b → f.less (f.of_int burst) b.tokens ≡ false

    refilled_capped :
        (b : Bucket f.F) (rate : f.F) (burst now : ℕ)
        → f.less (f.of_int burst) (refilled f b rate burst now) ≡ false
    unfolding refilled
    refilled_capped b rate burst now =
        elim (Bool-cases
          (f.less (f.of_int burst) (f.add b.tokens (f.mul (f.seconds (now - b.last)) rate)))) [
            | inl e ↦ rw e (laws.less_irrefl (f.of_int burst))
            | inr e ↦ rw e e
          ]

    Capped-insert :
        (m : Map (Bucket f.F)) (key : Str) (burst : ℕ) (c : Bucket f.F)
        → f.less (f.of_int burst) c.tokens ≡ false
        → Capped burst (lookup key (insert key c m))
    Capped-insert m key burst c h b e =
        let found : c ≡ b = ground (arith, lookup-insert key key c m, e) in
        subst (λ (d : Bucket f.F). f.less (f.of_int burst) d.tokens ≡ false) found h

    spend-Capped :
        (m : Map (Bucket f.F)) (key : Str) (b : Bucket f.F) (rate : f.F) (burst now : ℕ)
        → Capped burst (lookup key (spend f m key b rate burst now).0)
    unfolding spend
    spend-Capped m key b rate burst now =
        elim (Bool-cases (f.at_most (f.of_int 1) (refilled f b rate burst now))) [
          | inl e ↦ rw e (
              Capped-insert m key burst _
                (laws.less-sub_one burst _ (refilled_capped b rate burst now)))
          | inr e ↦ rw e (Capped-insert m key burst _ (refilled_capped b rate burst now))
        ]

    allow_locked-Capped :
        (m : Map (Bucket f.F)) (key : Str) (rate : f.F) (burst max_buckets now : ℕ)
        → Capped burst (lookup key (allow_locked f m key rate burst max_buckets now).0)
    unfolding allow_locked
    allow_locked-Capped m key rate burst max_buckets now = elim (Option-cases (lookup key m)) [
      | inr (b, e) ↦ rw (e, allow_locked) (spend-Capped m key b rate burst now)
      | inl e ↦
          rw (e, allow_locked)
            (elim (Bool-cases (leb max_buckets (length m))) [
              | inl full ↦ rw full (λ b h. cc h)
              | inr room ↦ rw room (
                  spend-Capped (insert key (full_bucket f burst now) m) key
                    (full_bucket f burst now) rate burst now)
            ])
    ]

    -- A bucket that let a request pass holds one token less than it could.
    abbrev Spent : ℕ → Option (Bucket f.F) → Type 0
    Spent burst o =
        (x : f.F) × (b : Bucket f.F) × (o ≡ some b)
        × (b.tokens ≡ f.sub x (f.of_int 1))
        × (f.less (f.of_int burst) x ≡ false)

    spend-Spent :
        (m : Map (Bucket f.F)) (key : Str) (b : Bucket f.F) (rate : f.F) (burst now : ℕ)
        → (spend f m key b rate burst now).1.ok ≡ true
        → Spent burst (lookup key (spend f m key b rate burst now).0)
    unfolding spend
    spend-Spent m key b rate burst now =
        elim (Bool-cases (f.at_most (f.of_int 1) (refilled f b rate burst now))) [
          | inl e ↦ rw e (λ h. (
            refilled f b rate burst now,
            record {
              tokens = f.sub (refilled f b rate burst now) (f.of_int 1);
              last = now;
              seen = now;
            },
            lookup-insert key key _ m ∙ if_pos (str_dec key key) refl _ _,
            refl,
            refilled_capped b rate burst now,
          ))
          | inr e ↦ rw e (λ h. cc)
        ]

    allow_locked-Spent :
        (m : Map (Bucket f.F)) (key : Str) (rate : f.F) (burst max_buckets now : ℕ)
        → (allow_locked f m key rate burst max_buckets now).1.ok ≡ true
        → Spent burst (lookup key (allow_locked f m key rate burst max_buckets now).0)
    unfolding allow_locked
    allow_locked-Spent m key rate burst max_buckets now = elim (Option-cases (lookup key m)) [
      | inr (b, e) ↦ rw (e, allow_locked) (spend-Spent m key b rate burst now)
      | inl e ↦
          rw (e, allow_locked)
            (elim (Bool-cases (leb max_buckets (length m))) [
              | inl full ↦ rw full (λ h. cc)
              | inr room ↦ rw room (
                  spend-Spent (insert key (full_bucket f burst now) m) key (full_bucket f burst now)
                    rate burst now)
            ])
    ]

    returned-Capped :
        (burst : ℕ) (o : Option (Bucket f.F)) → Spent burst o → Capped burst (returned f burst o)
    returned-Capped burst o (x, b, e, t, h) c g =
        elim (Bool-cases (f.less b.tokens (f.of_int burst))) [
          | inl p ↦
              subst (λ (y : f.F). f.less (f.of_int burst) y ≡ false)
                (ap (λ y. f.add y (f.of_int 1)) (sym t) ∙ ground (arith, e, g, p))
                (laws.less-add_one burst x h)
          | inr p ↦
              subst (λ (y : f.F). f.less (f.of_int burst) y ≡ false)
                (sym t ∙ ground (arith, e, g, p)) (laws.less-sub_one burst x h)
        ]

    -- Where the limiter is enabled and float64 keeps the laws of Float64Laws, the bucket of a
    -- request's route then holds no more than the burst, whatever the answer: not even the token
    -- that a refused client gives back takes it above.
    pub allow-Capped :
        (m : Map (Bucket f.F)) (route client : Str) (cfg : Config f.F) (now : ℕ)
        → cfg.enabled ≡ true
        → (b : Bucket f.F) → lookup (global_key route) (allow f m route client cfg now).0 ≡ some b
        → f.less (f.of_int cfg.global_burst) b.tokens ≡ false
    allow-Capped m route client cfg now on = elim (allow_cases f m route client cfg now on) [
      | inl same ↦ subst (Capped cfg.global_burst) (sym same) after
      | inr (passed, back) ↦ subst (Capped cfg.global_burst) (sym back) (
          returned-Capped cfg.global_burst _ (
            allow_locked-Spent m (global_key route) cfg.global_requests_per_second cfg.global_burst
              cfg.max_buckets now passed))
    ]
      where
        after : Capped cfg.global_burst (
            lookup
              (global_key route)
              (allow_locked f m
                (global_key route)
                cfg.global_requests_per_second
                cfg.global_burst
                cfg.max_buckets
                now).0)
        after =
            allow_locked-Capped m (global_key route) cfg.global_requests_per_second cfg.global_burst
              cfg.max_buckets now
