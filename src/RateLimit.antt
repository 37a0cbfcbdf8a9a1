-- ===== src/RateLimit.antt =====
-- apps/securityedge/internal/ratelimit/limiter.go, Limiter: token buckets for a route and for each
-- client of it. Times are nanoseconds since Go's zero time; a bucket whose clock went back gains
-- nothing, as a difference that stops at 0 has it. float64 is the parameter Float64.
pub mod Keys
pub mod Rollback
pub mod Refusals
pub mod Bounds
mod Examples
use secure_edge_platform.Prelude.{
  ℕ, ◌+◌, ◌-◌, ◌*◌, ◌≡◌, Bool, true, false, not, ◌&&◌, ◌||◌, Option, none, some, List, [], ◌∷◌,
  ◌++◌, length, ltb, leb, if◌then◌else◌,
}
use secure_edge_platform.Prelude.Text.{Str, codes}
use secure_edge_platform.Prelude.Maps.{Map, lookup, insert}

-- The operations of float64 that the limiter uses. `seconds` is Duration.Seconds, `duration` the
-- conversion of a number of nanoseconds, `max_seconds` the longest time.Duration.
pub record Float64 : Type 1 where
  pub F : Type 0
  pub of_int : ℕ → F
  pub seconds : ℕ → F
  pub duration : F → ℕ
  pub add : F → F → F
  pub sub : F → F → F
  pub mul : F → F → F
  pub div : F → F → F
  pub less : F → F → Bool
  pub at_most : F → F → Bool
  pub is_nan : F → Bool
  pub is_inf : F → Bool
  pub max_seconds : F
  pub nanoseconds : F → F

-- What the limiter relies on, by IEEE 754: no number is below itself; a cap that a number does not
-- exceed is not exceeded after 1 is taken off, nor after it is then added back.
pub record Float64Laws (f : Float64) : Type 1 where
  pub less_irrefl : (x : f.F) → f.less x x ≡ false
  pub less-sub_one :
      (b : ℕ) (x : f.F)
      → f.less (f.of_int b) x ≡ false
      → f.less (f.of_int b) (f.sub x (f.of_int 1)) ≡ false
  pub less-add_one :
      (b : ℕ) (x : f.F)
      → f.less (f.of_int b) x ≡ false
      → f.less (f.of_int b) (f.add (f.sub x (f.of_int 1)) (f.of_int 1)) ≡ false

pub record Bucket (F : Type 0) : Type 0 where
  pub tokens : F
  pub last : ℕ
  pub seen : ℕ

pub record Config (F : Type 0) : Type 0 where
  pub enabled : Bool
  pub requests_per_second : F
  pub burst : ℕ
  pub global_requests_per_second : F
  pub global_burst : ℕ
  pub max_buckets : ℕ

pub data Scope : Type 0 where
  no_scope global_scope client_scope : Scope

pub data Reason : Type 0 where
  no_reason bucket_capacity rate_exceeded : Reason

pub record Decision : Type 0 where
  pub allowed : Bool
  pub retry_after : ℕ
  pub scope : Scope
  pub reason : Reason

-- The answer of allowLocked.
pub record Answer : Type 0 where
  pub ok : Bool
  pub retry : ℕ
  pub why : Reason

unfoldable pub global_key : Str → Str
global_key route = codes "global|" ++ route

unfoldable pub client_key : Str → Str → Str
client_key route client = codes "client|" ++ (route ++ (codes "|" ++ client))

abbrev millisecond : ℕ
millisecond = 1_000_000

abbrev max_duration : ℕ
max_duration = 9_223_372_036_854_775_807

abbrev pub granted : Decision
granted = record { allowed = true; retry_after = 0; scope = no_scope; reason = no_reason }

module _ (f : Float64) where
  unfoldable pub retry_after : f.F → f.F → ℕ
  retry_after tokens rate =
      let wait = f.div (f.sub (f.of_int 1) tokens) rate in
      if f.is_nan wait || f.at_most wait (f.of_int 0)
      then millisecond
      else if f.is_inf wait || f.at_most f.max_seconds wait
      then max_duration
      else if ltb (f.duration (f.nanoseconds wait)) millisecond
      then millisecond
      else f.duration (f.nanoseconds wait)

  -- The tokens of a bucket at a time: those it had, what the rate adds, and no more than the burst.
  unfoldable pub refilled : Bucket f.F → f.F → ℕ → ℕ → f.F
  refilled b rate burst now =
      let tokens = f.add b.tokens (f.mul (f.seconds (now - b.last)) rate) in
      if f.less (f.of_int burst) tokens then f.of_int burst else tokens

  unfoldable pub spend :
      Map (Bucket f.F) → Str → Bucket f.F → f.F → ℕ → ℕ → Map (Bucket f.F) × Answer
  unfolding refilled retry_after
  spend buckets key b rate burst now =
      let tokens = refilled b rate burst now in
      if f.at_most (f.of_int 1) tokens
      then (
        insert key (record { tokens = f.sub tokens (f.of_int 1); last = now; seen = now }) buckets,
        record { ok = true; retry = 0; why = no_reason },
      )
      else (
        insert key (record { tokens = tokens; last = now; seen = now }) buckets,
        record { ok = false; retry = retry_after tokens rate; why = rate_exceeded },
      )

  abbrev full_bucket : ℕ → ℕ → Bucket f.F
  full_bucket burst now = record { tokens = f.of_int burst; last = now; seen = now }

  unfoldable pub allow_locked : Map (Bucket f.F) → Str → f.F → ℕ → ℕ → ℕ → Map (Bucket f.F) × Answer
  unfolding spend
  allow_locked buckets key rate burst max_buckets now = elim (lookup key buckets) [
    | some b ↦ spend buckets key b rate burst now
    | none ↦
        if leb max_buckets (length buckets)
        then (buckets, record { ok = false; retry = 1_000_000_000; why = bucket_capacity })
        else spend (insert key (full_bucket burst now) buckets) key (full_bucket burst now) rate
            burst now
  ]

  -- The global token goes back when the client's bucket refuses.
  unfoldable pub give_back : Map (Bucket f.F) → Str → ℕ → Map (Bucket f.F)
  give_back buckets key global_burst = elim (lookup key buckets) [
    | none ↦ buckets
    | some b ↦
        if f.less b.tokens (f.of_int global_burst)
        then insert key (record b { tokens = f.add b.tokens (f.of_int 1) }) buckets
        else buckets
  ]

  abbrev pub refused : Scope → Answer → Decision
  refused scope a = record { allowed = false; retry_after = a.retry; scope = scope; reason = a.why }

  -- Allow after the route's bucket has answered.
  unfoldable pub client_step :
      Map (Bucket f.F) → Answer → Str → Str → Config f.F → ℕ → Map (Bucket f.F) × Decision
  unfolding give_back
  client_step buckets a route client cfg now =
      if not a.ok
      then (buckets, refused global_scope a)
      else (let (after, b) =
            allow_locked buckets (client_key route client) cfg.requests_per_second cfg.burst
              cfg.max_buckets now in
          if not b.ok
          then (give_back after (global_key route) cfg.global_burst, refused client_scope b)
          else (after, granted))

  unfoldable pub allow : Map (Bucket f.F) → Str → Str → Config f.F → ℕ → Map (Bucket f.F) × Decision
  unfolding client_step
  allow buckets route client cfg now =
      if not cfg.enabled
      then (buckets, granted)
      else (let (after, a) =
            allow_locked buckets (global_key route) cfg.global_requests_per_second cfg.global_burst
              cfg.max_buckets now in
          client_step after a route client cfg now)

  -- One tick of the cleanup loop.
  cleanup_tick : ℕ → ℕ → Map (Bucket f.F) → Map (Bucket f.F)
  cleanup_tick idle_ttl now [] = []
  cleanup_tick idle_ttl now ((key, b) ∷ m) =
      let rest = cleanup_tick idle_ttl now m in
      if ltb idle_ttl (now - b.seen) then rest else (key, b) ∷ rest
