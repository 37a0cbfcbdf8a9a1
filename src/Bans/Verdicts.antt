-- ===== src/Bans/Verdicts.antt =====
-- Bans: what IsBanned answers, and when RecordViolation bans.
use secure_edge_platform.Prelude.{
  ℕ, ◌+◌, ◌-◌, ◌≤◌, ◌≡◌, refl, ap, ◌∙◌, ◌⊎◌, inl, inr, true, false, not, ◌||◌, Option, none, some,
  List, [], ◌∷◌, ◌++◌, arith, ltb, leb, if◌then◌else◌, Bool-cases, Option-cases, length,
  length-append, All,
}
use secure_edge_platform.Prelude.Text.{Str, is_empty}
use secure_edge_platform.Prelude.Maps.{lookup, lookup-insert, lookup-delete}
use secure_edge_platform.Bans.{
  BanManager, Violation, AutoBanConfig, is_banned, add_violation, punish, make_room, track,
  cleanup_inactive, record_violation, recent, no_violation,
}

abbrev pub banned_until : Option Violation → ℕ
banned_until none = 0
banned_until (some v) = v.banned_until

-- IsBanned says yes exactly while the client's ban runs, and then tells how much of it is left.
pub is_banned_lem :
    (m : BanManager) (k : Str) (now : ℕ)
    → ((is_banned m k now).1 ≡ ltb now (banned_until (lookup k m.clients)))
      × ((is_banned m k now).2 ≡ banned_until (lookup k m.clients) - now)
unfolding is_banned
is_banned_lem m k now = elim (Option-cases (lookup k m.clients)) [
  | inl e ↦ rw (e, is_banned) (ground arith, omega arith)
  | inr (v, e) ↦ rw (e, is_banned) (ground arith, ground arith)
]

-- It ends no ban: what it forgets or updates leaves every ban with time to run in place.
is_banned-keeps :
    (m : BanManager) (k j : Str) (now later : ℕ)
    → now ≤ later
    → ltb later (banned_until (lookup j (is_banned m k now).0.clients))
      ≡ ltb later (banned_until (lookup j m.clients))
unfolding is_banned
is_banned-keeps m k j now later h = elim (Option-cases (lookup k m.clients)) [
  | inl e ↦ rw (e, is_banned) refl
  | inr (v, e) ↦
      rw (e, is_banned)
        (ground (
          arith,
          lookup-insert k j (record v { seen = now }) m.clients,
          lookup-delete k j m.clients,
        ))
]

All-recent : (cutoff : ℕ) (ts : List ℕ) → All (λ t. cutoff ≤ t) (recent cutoff ts)
All-recent cutoff [] = tt
All-recent cutoff (t ∷ ts) = ground (arith, All-recent cutoff ts)

-- One more violation bans exactly if, with those still in the window, it reaches the threshold. The
-- ban runs from now for its duration and starts a new count; otherwise the ban stays as it was, and
-- only violations in the window are kept.
add_violation_lem :
    (cfg : AutoBanConfig) (now : ℕ) (v : Violation)
    → ((add_violation cfg now v).1
        ≡ leb cfg.violation_threshold (length (recent (now - cfg.window) v.times) + 1))
      × ((add_violation cfg now v).0.banned_until
          ≡ (if (add_violation cfg now v).1 then now + cfg.ban_duration else v.banned_until))
      × All (λ t. now ≤ t + cfg.window) (add_violation cfg now v).0.times
unfolding add_violation
add_violation_lem cfg now v = ground (
  arith,
  length-append (recent (now - cfg.window) v.times) (now ∷ []),
  in_window (recent (now - cfg.window) v.times) (All-recent (now - cfg.window) v.times),
)
  where
    in_window :
        (ts : List ℕ)
        → All (λ t. now - cfg.window ≤ t) ts
        → All (λ t. now ≤ t + cfg.window) (ts ++ now ∷ [])
    in_window [] a = (omega arith, tt)
    in_window (t ∷ ts) a = (omega arith, in_window ts a.1)

punish-bans :
    (m : BanManager) (k : Str) (cfg : AutoBanConfig) (now : ℕ) (v : Violation)
    → (punish m k cfg now v).1 ≡ true
    → ((punish m k cfg now v).2 ≡ cfg.ban_duration)
      × (banned_until (lookup k (punish m k cfg now v).0.clients) ≡ now + cfg.ban_duration)
unfolding punish add_violation
punish-bans m k cfg now v h =
    ground (arith, lookup-insert k k (add_violation cfg now v).0 m.clients)

track-bans :
    (m : BanManager) (k : Str) (cfg : AutoBanConfig) (now : ℕ)
    → (track m k cfg now).1 ≡ true
    → ((track m k cfg now).2 ≡ cfg.ban_duration)
      × (banned_until (lookup k (track m k cfg now).0.clients) ≡ now + cfg.ban_duration)
unfolding track
track-bans m k cfg now = elim (Option-cases (lookup k m.clients)) [
  | inr (w, e) ↦ rw (e, track) (punish-bans m k cfg now w)
  | inl e ↦ rw (e, track) (untracked (Bool-cases (make_room m cfg now).1))
]
  where
    untracked :
        ((make_room m cfg now).1 ≡ true) ⊎ ((make_room m cfg now).1 ≡ false)
        → (if (make_room m cfg now).1
            then punish (make_room m cfg now).0 k cfg now no_violation
            else ((make_room m cfg now).0, false, 0)).1
          ≡ true
        → ((if (make_room m cfg now).1
              then punish (make_room m cfg now).0 k cfg now no_violation
              else ((make_room m cfg now).0, false, 0)).2
            ≡ cfg.ban_duration)
          × (banned_until (
                lookup k
                  (if (make_room m cfg now).1
                    then punish (make_room m cfg now).0 k cfg now no_violation
                    else ((make_room m cfg now).0, false, 0)).0.clients)
              ≡ now + cfg.ban_duration)
    untracked (inl room) = rw room (punish-bans (make_room m cfg now).0 k cfg now no_violation)
    untracked (inr full) = rw full (λ h. cc)

-- A violation that bans a client tells the ban's duration and is seen at once: IsBanned says yes
-- until that duration is over and no from then on.
pub is_banned-record_violation :
    (m : BanManager) (k : Str) (cfg : AutoBanConfig) (now later : ℕ)
    → (record_violation m k cfg now).1 ≡ true
    → ((record_violation m k cfg now).2 ≡ cfg.ban_duration)
      × ((is_banned (record_violation m k cfg now).0 k later).1
          ≡ ltb later (now + cfg.ban_duration))
unfolding record_violation
is_banned-record_violation m k cfg now later h = elim (Bool-cases (not cfg.enabled || is_empty k)) [
  | inl e ↦ absurd (ground (arith, h, e))
  | inr e ↦
      let r = track-bans (cleanup_inactive m cfg now) k cfg now (rw e at h) in
      rw e (
        r.0,
        (is_banned_lem (track (cleanup_inactive m cfg now) k cfg now).0 k later).0
            ∙ ap (ltb later) r.1,
      )
]
