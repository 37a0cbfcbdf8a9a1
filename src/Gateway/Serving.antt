-- ===== src/Gateway/Serving.antt =====
-- Gateway: a whole request over the components, and what the next one meets.
use secure_edge_platform.Prelude.{ℕ, ◌≡◌, ◌<◌, ◌≤◌, List, [], ◌∷◌, Bool, true, false, Option}
use secure_edge_platform.Prelude.Text.{Str}
use secure_edge_platform.Admission
use secure_edge_platform.Bans
use secure_edge_platform.Prelude.Maps.{IsDistinct}
use secure_edge_platform.RateLimit
use secure_edge_platform.Gateway.Types.{
  Addresses, Policy, Arrival, Gateway, Verdict, Reply, ServerConfig, forwarded_reply,
}
use secure_edge_platform.Gateway.{serve}

unfoldable pub is_forwarded : Reply → Bool
is_forwarded (forwarded_reply w) = true
is_forwarded _ = false

module _ (f : RateLimit.Float64) (net : Addresses) (parse : Str → Option Str) (itoa : ℕ → Str)
    (server : ServerConfig) (policy : Policy f.F) where
  open f use {F}

  -- A ban that a request reports is one that the ban manager has just made for its client.
  data HasBanned (a : Arrival) : Gateway F × Verdict × Reply → Type 0 where
    no_ban :
        (g : Gateway F) (v : Verdict) (r : Reply) → v.auto_banned ≡ false → HasBanned a (g, v, r)
    banned_now :
        (m : Bans.BanManager) (g : Gateway F) (v : Verdict) (r : Reply)
        → IsDistinct m.clients
        → g.bans ≡ (Bans.record_violation m a.client policy.auto_ban a.violation_at).0
        → v.auto_banned ≡ (Bans.record_violation m a.client policy.auto_ban a.violation_at).1
        → HasBanned a (g, v, r)

  -- Requests one after another.
  pub serve_all : Gateway F → List Arrival → Gateway F
  serve_all g [] = g
  serve_all g (a ∷ rest) = serve_all (serve f net parse itoa server policy g a).0 rest

  -- A request that a ban which began at one time and ends at another meets, by the clock.
  pub record IsWithin (from until : ℕ) (c : Arrival) : Type 0 where
    pub checked : c.ban_checked_at < until
    pub not_before : from ≤ c.violation_at
    pub violated : c.violation_at < until
