-- ===== src/Bans/Capacity.antt =====
-- Bans: the manager tracks no more clients than it may, and stores few violations for each.
use secure_edge_platform.Prelude.{
  ℕ, ◌+◌, ◌≤◌, ◌≡◌, ◌⊎◌, inl, inr, Bool, true, false, not, ◌||◌, none, [], ◌∷◌, arith,
  if◌then◌else◌, Bool-cases, Option-cases, length, max,
}
use secure_edge_platform.Prelude.Text.{Str, is_empty}
use secure_edge_platform.Prelude.Maps.{
  Map, lookup, delete, IsDistinct, length-insert, length-insert_present, length-delete,
  length-delete-le, lookup-delete,
}
use secure_edge_platform.Bans.{
  BanManager, Violation, AutoBanConfig, cleanup_clients, cleanup_inactive, oldest_inactive,
  evict_oldest_inactive, add_violation, punish, make_room, track, record_violation, no_violation,
}
use secure_edge_platform.Bans.Keeping.{inactive, oldest_inactive_lem, cleanup_inactive-IsDistinct}

length-cleanup-le :
    (cfg : AutoBanConfig) (now : ℕ) (m : Map Violation)
    → length (cleanup_clients cfg now m) ≤ length m
unfolding cleanup_clients
length-cleanup-le cfg now [] = omega arith
length-cleanup-le cfg now ((k, v) ∷ m) = ground (arith, length-cleanup-le cfg now m)

length-cleanup_inactive-le :
    (m : BanManager) (cfg : AutoBanConfig) (now : ℕ)
    → length (cleanup_inactive m cfg now).clients ≤ length m.clients
unfolding cleanup_inactive
length-cleanup_inactive-le m cfg now = ground (arith, length-cleanup-le cfg now m.clients)

abbrev evicting : BanManager → Str → BanManager × Bool
evicting m key =
    if not (is_empty key) then (record m { clients = delete key m.clients }, true) else (m, false)

-- An eviction that reports success has dropped one client.
evict-length :
    (m : BanManager) (now : ℕ)
    → IsDistinct m.clients
    → (evict_oldest_inactive m now).1 ≡ true
    → length (evict_oldest_inactive m now).0.clients + 1 ≡ length m.clients
unfolding evict_oldest_inactive
evict-length m now d h =
    go (oldest_inactive now m.clients [] 0) (oldest_inactive_lem now m.clients [] 0 d) h
  where
    found :
        (key : Str)
        → inactive now (lookup key m.clients) ≡ true
        → length (delete key m.clients) + 1 ≡ length m.clients
    found key e = elim (Option-cases (lookup key m.clients)) [
      | inl n ↦ absurd (ground (arith, n, e))
      | inr (v, s) ↦ length-delete key m.clients {v = v} d s
    ]

    go :
        (key : Str)
        → (key ≡ []) ⊎ (inactive now (lookup key m.clients) ≡ true)
        → (evicting m key).1 ≡ true
        → length (evicting m key).0.clients + 1 ≡ length m.clients
    go [] e h = cc
    go (c ∷ key) (inl e) h = cc
    go (c ∷ key) (inr e) h = found (c ∷ key) e

evict-length-le :
    (m : BanManager) (now : ℕ) → length (evict_oldest_inactive m now).0.clients ≤ length m.clients
unfolding evict_oldest_inactive
evict-length-le m now =
    ground (arith, length-delete-le (oldest_inactive now m.clients [] 0) m.clients)

evict-absent :
    (m : BanManager) (now : ℕ) (k : Str)
    → lookup k m.clients ≡ none
    → lookup k (evict_oldest_inactive m now).0.clients ≡ none
unfolding evict_oldest_inactive
evict-absent m now k h =
    ground (arith, lookup-delete (oldest_inactive now m.clients [] 0) k m.clients)

track-length :
    (m : BanManager) (k : Str) (cfg : AutoBanConfig) (now : ℕ)
    → IsDistinct m.clients
    → length (track m k cfg now).0.clients ≤ max (length m.clients) cfg.max_tracked_clients
unfolding track make_room punish
track-length m k cfg now d = elim (Option-cases (lookup k m.clients)) [
  | inr (w, e) ↦
      rw (e, track)
        (omega (arith, length-insert_present k (add_violation cfg now w).0 m.clients {w = w} e))
  | inl e ↦
      rw (e, track)
        (ground (
          arith,
          evict-length m now d,
          evict-absent m now k e,
          length-insert k (add_violation cfg now no_violation).0 m.clients e,
          length-insert k (add_violation cfg now no_violation).0
              (evict_oldest_inactive m now).0.clients,
          evict-length-le m now,
        ))
]

-- Where no client stands twice, a violation leaves no more tracked clients than there were before
-- or than the configuration allows, whichever is more.
pub record_violation-length :
    (m : BanManager) (k : Str) (cfg : AutoBanConfig) (now : ℕ)
    → IsDistinct m.clients
    → length (record_violation m k cfg now).0.clients
      ≤ max (length m.clients) cfg.max_tracked_clients
unfolding record_violation
record_violation-length m k cfg now d = elim (Bool-cases (not cfg.enabled || is_empty k)) [
  | inl e ↦ rw e (omega arith)
  | inr e ↦ rw e (
      omega (
        arith,
        track-length (cleanup_inactive m cfg now) k cfg now
            (cleanup_inactive-IsDistinct m cfg now d),
        length-cleanup_inactive-le m cfg now,
      ))
]
