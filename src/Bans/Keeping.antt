-- ===== src/Bans/Keeping.antt =====
-- Bans: an active ban outlasts whatever other clients do, capacity pressure included.
use secure_edge_platform.Prelude.{
  ℕ, ◌<◌, ◌≡◌, refl, ◌∙◌, ◌≢◌, ◌⊎◌, inl, inr, Bool, true, false, not, ◌||◌, Option, none, some, [],
  ◌∷◌, arith, leb, Bool-cases, Option-cases,
}
use mathlib.Core.Logic.{if_neg}
use secure_edge_platform.Prelude.Text.{Str, str_dec, is_empty}
use secure_edge_platform.Prelude.Maps.{
  Map, lookup, IsDistinct, lookup-insert, lookup-delete, insert-IsDistinct, delete-IsDistinct,
}
use secure_edge_platform.Bans.{
  BanManager, Violation, AutoBanConfig, cleanup_clients, cleanup_inactive, cleaned_lately,
  oldest_inactive, evict_oldest_inactive, punish, make_room, track, record_violation, no_violation,
}

-- The clients of a manager are all different, and a client is banned until a time.
abbrev HoldsBan : BanManager → Str → ℕ → Type 0
HoldsBan m k until = (v : Violation) × (lookup k m.clients ≡ some v) × (v.banned_until ≡ until)

lookup-cleanup :
    (cfg : AutoBanConfig) (now : ℕ) (j : Str) (m : Map Violation) {v : Violation}
    → lookup j m ≡ some v
    → now < v.banned_until
    → lookup j (cleanup_clients cfg now m) ≡ some v
unfolding lookup cleanup_clients
lookup-cleanup cfg now j [] h p = h
lookup-cleanup cfg now j ((k, w) ∷ m) {v} h p = ground (arith, lookup-cleanup cfg now j m {v = v})

lookup-cleanup_none :
    (cfg : AutoBanConfig) (now : ℕ) (j : Str) (m : Map Violation)
    → lookup j m ≡ none
    → lookup j (cleanup_clients cfg now m) ≡ none
unfolding lookup cleanup_clients
lookup-cleanup_none cfg now j [] h = refl
lookup-cleanup_none cfg now j ((k, w) ∷ m) h = ground (arith, lookup-cleanup_none cfg now j m)

cleanup-IsDistinct :
    (cfg : AutoBanConfig) (now : ℕ) (m : Map Violation)
    → IsDistinct m
    → IsDistinct (cleanup_clients cfg now m)
unfolding cleanup_clients
cleanup-IsDistinct cfg now [] d = tt
cleanup-IsDistinct cfg now ((k, w) ∷ m) d =
    ground (arith, lookup-cleanup_none cfg now k m, cleanup-IsDistinct cfg now m d.1)

abbrev pub inactive : ℕ → Option Violation → Bool
inactive now none = false
inactive now (some v) = leb v.banned_until now

-- The victim of an eviction, if there is one, is a client with no active ban.
pub oldest_inactive_lem :
    (now : ℕ) (m : Map Violation) (key : Str) (oldest : ℕ)
    → IsDistinct m
    → (oldest_inactive now m key oldest ≡ key)
      ⊎ (inactive now (lookup (oldest_inactive now m key oldest) m) ≡ true)
unfolding oldest_inactive lookup
oldest_inactive_lem now [] key oldest d = inl refl
oldest_inactive_lem now ((k, w) ∷ m) key oldest d =
    ground (arith, oldest_inactive_lem now m key oldest d.1, oldest_inactive_lem now m k w.seen d.1)

evict-keeps :
    (m : BanManager) (now : ℕ) (j : Str) {v : Violation}
    → IsDistinct m.clients
    → lookup j m.clients ≡ some v
    → now < v.banned_until
    → lookup j (evict_oldest_inactive m now).0.clients ≡ some v
unfolding evict_oldest_inactive
evict-keeps m now j {v} d h p = ground (
  arith,
  oldest_inactive_lem now m.clients [] 0 d,
  lookup-delete (oldest_inactive now m.clients [] 0) j m.clients,
)

evict-IsDistinct :
    (m : BanManager) (now : ℕ)
    → IsDistinct m.clients
    → IsDistinct (evict_oldest_inactive m now).0.clients
unfolding evict_oldest_inactive
evict-IsDistinct m now d =
    ground (arith, delete-IsDistinct (oldest_inactive now m.clients [] 0) m.clients d)

make_room-keeps :
    (m : BanManager) (cfg : AutoBanConfig) (now : ℕ) (j : Str) {v : Violation}
    → IsDistinct m.clients
    → lookup j m.clients ≡ some v
    → now < v.banned_until
    → lookup j (make_room m cfg now).0.clients ≡ some v
unfolding make_room
make_room-keeps m cfg now j {v} d h p = ground (arith, evict-keeps m now j {v = v} d h p)

make_room-IsDistinct :
    (m : BanManager) (cfg : AutoBanConfig) (now : ℕ)
    → IsDistinct m.clients
    → IsDistinct (make_room m cfg now).0.clients
unfolding make_room
make_room-IsDistinct m cfg now d = ground (arith, evict-IsDistinct m now d)

punish-IsDistinct :
    (m : BanManager) (k : Str) (cfg : AutoBanConfig) (now : ℕ) (v : Violation)
    → IsDistinct m.clients
    → IsDistinct (punish m k cfg now v).0.clients
unfolding punish
punish-IsDistinct m k cfg now v d = insert-IsDistinct k _ m.clients d

punish-keeps :
    (m : BanManager) (k j : Str) (cfg : AutoBanConfig) (now : ℕ) (w : Violation)
    → k ≢ j
    → lookup j (punish m k cfg now w).0.clients ≡ lookup j m.clients
unfolding punish
punish-keeps m k j cfg now w other = lookup-insert k j _ m.clients ∙ if_neg (str_dec k j) other _ _

track-keeps :
    (m : BanManager) (k j : Str) (cfg : AutoBanConfig) (now : ℕ) {v : Violation}
    → k ≢ j
    → IsDistinct m.clients
    → lookup j m.clients ≡ some v
    → now < v.banned_until
    → lookup j (track m k cfg now).0.clients ≡ some v
unfolding track
track-keeps m k j cfg now {v} other d h p = elim (Option-cases (lookup k m.clients)) [
  | inr (w, e) ↦ rw (e, track) (punish-keeps m k j cfg now w other ∙ h)
  | inl e ↦
      rw (e, track)
        (ground (
          arith,
          make_room-keeps m cfg now j {v = v} d h p,
          punish-keeps (make_room m cfg now).0 k j cfg now no_violation other,
        ))
]

track-IsDistinct :
    (m : BanManager) (k : Str) (cfg : AutoBanConfig) (now : ℕ)
    → IsDistinct m.clients
    → IsDistinct (track m k cfg now).0.clients
unfolding track
track-IsDistinct m k cfg now d = elim (Option-cases (lookup k m.clients)) [
  | inr (w, e) ↦ rw (e, track) (punish-IsDistinct m k cfg now w d)
  | inl e ↦
      rw (e, track)
        (ground (
          arith,
          make_room-IsDistinct m cfg now d,
          punish-IsDistinct (make_room m cfg now).0 k cfg now no_violation
              (make_room-IsDistinct m cfg now d),
        ))
]

pub cleanup_inactive-IsDistinct :
    (m : BanManager) (cfg : AutoBanConfig) (now : ℕ)
    → IsDistinct m.clients
    → IsDistinct (cleanup_inactive m cfg now).clients
unfolding cleanup_inactive
cleanup_inactive-IsDistinct m cfg now d = elim (Bool-cases (cleaned_lately m cfg now)) [
  | inl e ↦ rw e d
  | inr e ↦ rw e (cleanup-IsDistinct cfg now m.clients d)
]

pub cleanup_inactive-keeps :
    (m : BanManager) (cfg : AutoBanConfig) (now : ℕ) (j : Str) {v : Violation}
    → lookup j m.clients ≡ some v
    → now < v.banned_until
    → lookup j (cleanup_inactive m cfg now).clients ≡ some v
unfolding cleanup_inactive
cleanup_inactive-keeps m cfg now j {v} h p = elim (Bool-cases (cleaned_lately m cfg now)) [
  | inl e ↦ rw e h
  | inr e ↦ rw e (lookup-cleanup cfg now j m.clients {v = v} h p)
]

pub record_violation-IsDistinct :
    (m : BanManager) (k : Str) (cfg : AutoBanConfig) (now : ℕ)
    → IsDistinct m.clients
    → IsDistinct (record_violation m k cfg now).0.clients
unfolding record_violation
record_violation-IsDistinct m k cfg now d = elim (Bool-cases (not cfg.enabled || is_empty k)) [
  | inl e ↦ rw e d
  | inr e ↦ rw e (track-IsDistinct _ k cfg now (cleanup_inactive-IsDistinct m cfg now d))
]

-- A violation of one client leaves the record of every other client with an active ban as it was,
-- also where the manager is full and someone has to make room.
pub record_violation-keeps :
    (m : BanManager) (k j : Str) (cfg : AutoBanConfig) (now : ℕ) {v : Violation}
    → k ≢ j
    → IsDistinct m.clients
    → lookup j m.clients ≡ some v
    → now < v.banned_until
    → lookup j (record_violation m k cfg now).0.clients ≡ some v
unfolding record_violation
record_violation-keeps m k j cfg now {v} other d h p =
    elim (Bool-cases (not cfg.enabled || is_empty k)) [
      | inl e ↦ rw e h
      | inr e ↦ rw e (
          track-keeps _ k j cfg now {v = v} other (cleanup_inactive-IsDistinct m cfg now d)
            (cleanup_inactive-keeps m cfg now j {v = v} h p) p)
    ]
