-- ===== src/RateLimit/Rollback.antt =====
-- RateLimit: which buckets a request touches, and that a refused client costs the route nothing.
use secure_edge_platform.Prelude.{
  ℕ, ◌≡◌, refl, sym, ◌∙◌, ◌≢◌, ◌⊎◌, inl, inr, true, false, Option, none, some, arith, leb,
  if◌then◌else◌, Bool-cases, Option-cases, length,
}
use mathlib.Core.Logic.{if_pos, if_neg}
use secure_edge_platform.Prelude.Text.{Str, str_dec}
use secure_edge_platform.Prelude.Maps.{Map, lookup, insert, lookup-insert}
use secure_edge_platform.RateLimit.{
  Float64, Bucket, Config, Answer, global_key, client_key, refilled, spend, allow_locked, give_back,
  client_step, allow, full_bucket, refused, granted, global_scope, client_scope,
}
use secure_edge_platform.RateLimit.Keys.{global_key-ne-client_key}

module _ (f : Float64) where
  lookup-spend_ne :
      (m : Map (Bucket f.F)) (key j : Str) (b : Bucket f.F) (rate : f.F) (burst now : ℕ)
      → key ≢ j
      → lookup j (spend f m key b rate burst now).0 ≡ lookup j m
  unfolding spend
  lookup-spend_ne m key j b rate burst now h =
      elim (Bool-cases (f.at_most (f.of_int 1) (refilled f b rate burst now))) [
        | inl e ↦ rw e (lookup-insert key j _ m ∙ if_neg (str_dec key j) h _ _)
        | inr e ↦ rw e (lookup-insert key j _ m ∙ if_neg (str_dec key j) h _ _)
      ]

  lookup-allow_locked_ne :
      (m : Map (Bucket f.F)) (key j : Str) (rate : f.F) (burst max_buckets now : ℕ)
      → key ≢ j
      → lookup j (allow_locked f m key rate burst max_buckets now).0 ≡ lookup j m
  unfolding allow_locked
  lookup-allow_locked_ne m key j rate burst max_buckets now h = elim (Option-cases (lookup key m)) [
    | inr (b, e) ↦ rw (e, allow_locked) (lookup-spend_ne m key j b rate burst now h)
    | inl e ↦
        rw (e, allow_locked)
          (elim (Bool-cases (leb max_buckets (length m))) [
            | inl full ↦ rw full refl
            | inr room ↦ rw room (
                lookup-spend_ne (insert key (full_bucket f burst now) m) key j
                  (full_bucket f burst now) rate burst now h
                ∙ lookup-insert key j _ m
                ∙ if_neg (str_dec key j) h _ _)
          ])
  ]

  lookup-give_back_ne :
      (m : Map (Bucket f.F)) (key j : Str) (burst : ℕ)
      → key ≢ j
      → lookup j (give_back f m key burst) ≡ lookup j m
  unfolding give_back
  lookup-give_back_ne m key j burst h = elim (Option-cases (lookup key m)) [
    | inl e ↦ rw (e, give_back) refl
    | inr (b, e) ↦
        rw (e, give_back)
          (elim (Bool-cases (f.less b.tokens (f.of_int burst))) [
            | inl p ↦ rw p (lookup-insert key j _ m ∙ if_neg (str_dec key j) h _ _)
            | inr p ↦ rw p refl
          ])
  ]

  -- What one request does to the bucket of its route, given the bucket that the route's test left.
  abbrev pub returned : ℕ → Option (Bucket f.F) → Option (Bucket f.F)
  returned burst none = none
  returned burst (some b) = some (
      if f.less b.tokens (f.of_int burst)
      then record b { tokens = f.add b.tokens (f.of_int 1) }
      else b)

  lookup-give_back :
      (m : Map (Bucket f.F)) (key : Str) (burst : ℕ)
      → lookup key (give_back f m key burst) ≡ returned burst (lookup key m)
  unfolding give_back
  lookup-give_back m key burst = elim (Option-cases (lookup key m)) [
    | inl e ↦ rw (e, give_back) e
    | inr (b, e) ↦
        rw (e, give_back)
          (elim (Bool-cases (f.less b.tokens (f.of_int burst))) [
            | inl p ↦ rw p (lookup-insert key key _ m ∙ if_pos (str_dec key key) refl _ _)
            | inr p ↦ rw p e
          ])
  ]

  module _ (m : Map (Bucket f.F)) (route client : Str) (cfg : Config f.F) (now : ℕ) where
    -- The route's test, and the client's test after it.
    abbrev pub route_test : Map (Bucket f.F) × Answer
    route_test =
        allow_locked f m (global_key route) cfg.global_requests_per_second cfg.global_burst
          cfg.max_buckets now

    abbrev pub client_test : Map (Bucket f.F) × Answer
    client_test =
        allow_locked f route_test.0 (client_key route client) cfg.requests_per_second cfg.burst
          cfg.max_buckets now

    -- A request touches the bucket of its route and that of its client at the route, no other.
    lookup-allow_ne :
        (j : Str)
        → global_key route ≢ j
        → client_key route client ≢ j
        → lookup j (allow f m route client cfg now).0 ≡ lookup j m
    unfolding allow client_step
    lookup-allow_ne j h k = ground (
      arith,
      lookup-allow_locked_ne m (global_key route) j cfg.global_requests_per_second cfg.global_burst
          cfg.max_buckets now h,
      lookup-allow_locked_ne route_test.0 (client_key route client) j cfg.requests_per_second
          cfg.burst cfg.max_buckets now k,
      lookup-give_back_ne client_test.0 (global_key route) j cfg.global_burst h,
    )

    -- Where the limiter is enabled, a request passes exactly if both buckets let it. It is refused
    -- for the route before its client is asked, and then the client's bucket is as it was; where the
    -- client is refused the route's bucket has its token back.
    pub allow_lem :
        cfg.enabled ≡ true
        → (route_test.1.ok ≡ false)
            × ((allow f m route client cfg now).1 ≡ refused f global_scope route_test.1)
            × (lookup (client_key route client) (allow f m route client cfg now).0
                ≡ lookup (client_key route client) m)
          ⊎ (route_test.1.ok ≡ true)
            × (client_test.1.ok ≡ false)
            × ((allow f m route client cfg now).1 ≡ refused f client_scope client_test.1)
            × (lookup (global_key route) (allow f m route client cfg now).0
                ≡ returned cfg.global_burst (lookup (global_key route) route_test.0))
          ⊎ (route_test.1.ok ≡ true)
            × (client_test.1.ok ≡ true)
            × ((allow f m route client cfg now).1 ≡ granted)
            × (lookup (global_key route) (allow f m route client cfg now).0
                ≡ lookup (global_key route) route_test.0)
    unfolding allow client_step
    allow_lem on = ground (
      arith,
      lookup-allow_locked_ne m (global_key route) (client_key route client)
          cfg.global_requests_per_second cfg.global_burst cfg.max_buckets now
          (global_key-ne-client_key route route client),
      lookup-allow_locked_ne route_test.0 (client_key route client) (global_key route)
          cfg.requests_per_second cfg.burst cfg.max_buckets now
          (λ e. global_key-ne-client_key route route client (sym e)),
      lookup-give_back client_test.0 (global_key route) cfg.global_burst,
    )

    -- The route's bucket after a request: as its test left it, or with its token back.
    pub allow_cases :
        cfg.enabled ≡ true
        → (lookup (global_key route) (allow f m route client cfg now).0
            ≡ lookup (global_key route) route_test.0)
          ⊎ (route_test.1.ok ≡ true)
            × (lookup (global_key route) (allow f m route client cfg now).0
                ≡ returned cfg.global_burst (lookup (global_key route) route_test.0))
    unfolding allow client_step
    allow_cases on = ground (
      arith,
      lookup-allow_locked_ne route_test.0 (client_key route client) (global_key route)
          cfg.requests_per_second cfg.burst cfg.max_buckets now
          (λ e. global_key-ne-client_key route route client (sym e)),
      lookup-give_back client_test.0 (global_key route) cfg.global_burst,
    )
