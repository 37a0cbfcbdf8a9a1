-- ===== src/CachePolicy/Lifetimes.antt =====
-- CachePolicy: which responses are stored, and until when.
use secure_edge_platform.Prelude.{
  ℕ, suc, ◌+◌, ◌-◌, ◌^◌, ◌≡◌, ◌≤◌, ◌<◌, ap, ◌⊎◌, inl, inr, Bool, true, false, not, ◌&&◌, Option,
  none, some, arith, ◌==◌, any, if◌then◌else◌, Bool-cases, leb,
}
use secure_edge_platform.Prelude.Text.{Str, codes}
use secure_edge_platform.Prelude.Int.{ℤ, pos, negsuc, pos_part, ◌-ℤ◌}
use secure_edge_platform.CachePolicy.{
  CacheConfig, Response, Policy, values, header_has_non_empty_value, vary_is_supported,
  origin_forbids, must_revalidate, origin_ttl, response_initial_age, sub_duration, cached_for, aged,
  response_cache_policy, max_duration, Header,
}

-- A response that may be shared under a configuration.
pub record IsCacheableResponse (resp : Response) (cfg : CacheConfig) : Type 0 where
  pub status : any (λ status. resp.status_code == status) cfg.cacheable_status_codes ≡ true
  pub cookieless :
      (header_has_non_empty_value resp.header (codes "Set-Cookie")
        && not cfg.cache_set_cookie_responses)
      ≡ false
  pub keyed : vary_is_supported (values resp.header (codes "Vary")) cfg ≡ true
  pub allowed : (cfg.respect_origin_headers && origin_forbids resp.header) ≡ false

-- Its times: it expires after it is stored, and may be used stale for the configured time, or not at
-- all where the origin wants it revalidated.
pub record IsTimed (resp : Response) (cfg : CacheConfig) (now : ℕ) (p : Policy) : Type 0 where
  pub fresh : now < p.expires_at
  pub stale : p.stale_until ≡ (
      if cfg.respect_origin_headers && must_revalidate resp.header
      then p.expires_at
      else p.expires_at + cfg.stale_if_error)

cached_for_sound :
    (ttl : ℤ) (age : ℕ) (b : Bool) (stale now : ℕ) (p : Policy)
    → cached_for ttl age b stale now ≡ some p
    → (now < p.expires_at) × (p.stale_until ≡ (if b then p.expires_at + stale else p.expires_at))
cached_for_sound (negsuc n) age b stale now p h = absurd (ground (arith, h))
cached_for_sound (pos n) age b stale now p h = ground (arith, h)

aged_sound :
    (ttl : Option ℤ) (age : ℕ) (b : Bool) (stale now : ℕ) (p : Policy)
    → aged ttl age b stale now ≡ some p
    → (now < p.expires_at) × (p.stale_until ≡ (if b then p.expires_at + stale else p.expires_at))
unfolding aged
aged_sound none age b stale now p h = absurd (ground (arith, h))
aged_sound (some ttl) age b stale now p h =
    cached_for_sound (sub_duration ttl age) age b stale now p h

-- A response is stored only if its status is configured, it sets no cookie unless that is allowed,
-- its Vary is supported and the origin, if respected, does not forbid it. Then it expires later
-- than now, and may be used stale for the configured time after that, or not at all where the
-- origin, if respected, wants it revalidated.
pub response_cache_policy_sound :
    (parse_time : Str → Option ℕ) (resp : Response) (cfg : CacheConfig) (now : ℕ) (p : Policy)
    → response_cache_policy parse_time resp cfg now ≡ some p
    → IsCacheableResponse resp cfg × IsTimed resp cfg now p
unfolding response_cache_policy
response_cache_policy_sound parse_time resp cfg now p h = (
  record {
    status = ground (arith, h);
    cookieless = ground (arith, h);
    keyed = ground (arith, h);
    allowed = ground (arith, h);
  },
  timed (Bool-cases cfg.respect_origin_headers),
)
  where
    timed :
        (cfg.respect_origin_headers ≡ true) ⊎ (cfg.respect_origin_headers ≡ false)
        → IsTimed resp cfg now p
    timed (inr e) =
        let (a, b) =
          cached_for_sound (pos cfg.default_ttl) 0 true cfg.stale_if_error now p
            (ground (arith, h, e)) in
        record { fresh = a; stale = rw e b }
    timed (inl e) =
        let (a, b) =
          aged_sound (origin_ttl parse_time resp.header cfg.default_ttl now)
            (response_initial_age parse_time resp.header now) (not (must_revalidate resp.header))
            cfg.stale_if_error now p (ground (arith, h, e)) in
        record { fresh = a; stale = ground (arith, b, e) }

sub_duration-pos :
    (t age : ℕ)
    → age ≤ max_duration
    → 0 < pos_part (sub_duration (pos t) age)
    → sub_duration (pos t) age ≡ pos (t - age)
unfolding sub_duration ◌-ℤ◌
sub_duration-pos t age h k = ground (arith, h, k)

cached_for-time :
    (ttl : ℤ) (age : ℕ) (b : Bool) (stale now : ℕ) (p : Policy)
    → cached_for ttl age b stale now ≡ some p
    → (0 < pos_part ttl) × (p.expires_at ≡ now + pos_part ttl) × (p.initial_age ≡ age)
cached_for-time (negsuc n) age b stale now p h = absurd (ground (arith, h))
cached_for-time (pos n) age b stale now p h = ground (arith, h)

response_initial_age-le :
    (parse_time : Str → Option ℕ) (h : Header) (now : ℕ)
    → response_initial_age parse_time h now ≤ max_duration
unfolding response_initial_age
response_initial_age-le parse_time h now = ground arith

aged-time :
    (t age : ℕ) (b : Bool) (stale now : ℕ) (p : Policy)
    → age ≤ max_duration
    → aged (some (pos t)) age b stale now ≡ some p
    → p.expires_at + p.initial_age ≡ now + t
unfolding aged
aged-time t age b stale now p h k =
    let (positive, expires, initial) =
      cached_for-time (sub_duration (pos t) age) age b stale now p k in
    let e = ap pos_part (sub_duration-pos t age h positive) in
    omega (arith, expires, initial, positive, e)

aged-initial :
    (ttl : Option ℤ) (age : ℕ) (b : Bool) (stale now : ℕ) (p : Policy)
    → aged ttl age b stale now ≡ some p
    → p.initial_age ≡ age
unfolding aged
aged-initial none age b stale now p h = absurd (ground (arith, h))
aged-initial (some ttl) age b stale now p h =
    (cached_for-time (sub_duration ttl age) age b stale now p h).2

-- The time that a response has spent in other caches counts: where the origin is respected and the
-- lifetime, be it that of s-maxage, max-age, Expires or the default, is not negative, a response
-- that is stored expires when that lifetime, less the age that its Age and Date give it, has
-- passed.
pub response_cache_policy-time :
    (parse_time : Str → Option ℕ) (resp : Response) (cfg : CacheConfig) (now t : ℕ) (p : Policy)
    → cfg.respect_origin_headers ≡ true
    → origin_ttl parse_time resp.header cfg.default_ttl now ≡ some (pos t)
    → response_cache_policy parse_time resp cfg now ≡ some p
    → (p.initial_age ≡ response_initial_age parse_time resp.header now)
      × (p.expires_at + p.initial_age ≡ now + t)
unfolding response_cache_policy
response_cache_policy-time parse_time resp cfg now t p e f h =
    let age = response_initial_age parse_time resp.header now in
    let k : aged (some (pos t)) age (not (must_revalidate resp.header)) cfg.stale_if_error now
        ≡ some p =
      ground (arith, e, f, h) in
    (
      aged-initial (some (pos t)) age _ cfg.stale_if_error now p k,
      aged-time t age _ cfg.stale_if_error now p
          (response_initial_age-le parse_time resp.header now) k,
    )

sub_duration-negsuc :
    (n age : ℕ) → n + age ≤ max_duration → sub_duration (negsuc n) age ≡ negsuc (n + age)
unfolding sub_duration ◌-ℤ◌
sub_duration-negsuc n age h = ground (arith, h)

sub_duration-wraps :
    (n age : ℕ)
    → max_duration < n + age
    → sub_duration (negsuc n) age ≡ pos (2 ^ 64 - suc (n + age))
unfolding sub_duration ◌-ℤ◌
sub_duration-wraps n age h = ground (arith, h)

-- A lifetime that was over before the response came leaves it out of the cache only while the
-- subtraction of its age stays within an int64. Past that it wraps, and the response is stored for
-- 2 ^ 64 nanoseconds less what its lifetime was over by and its age.
pub aged-wraps :
    (n age : ℕ) (b : Bool) (stale now : ℕ)
    → aged (some (negsuc n)) age b stale now ≡ (
        if leb (n + age) max_duration
        then none
        else cached_for (pos (2 ^ 64 - suc (n + age))) age b stale now)
unfolding aged
aged-wraps n age b stale now = elim (Bool-cases (leb (n + age) max_duration)) [
  | inl e ↦
      rw e (ap (λ d. cached_for d age b stale now) (sub_duration-negsuc n age (ground (arith, e))))
  | inr e ↦
      rw e (ap (λ d. cached_for d age b stale now) (sub_duration-wraps n age (ground (arith, e))))
]
