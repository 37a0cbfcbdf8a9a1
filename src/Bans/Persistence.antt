-- ===== src/Bans/Persistence.antt =====
-- Bans: a ban lasts at least until its time, also where the banned client goes on to violate.
use secure_edge_platform.Prelude.{
  ℕ, ◌+◌, ◌≡◌, ◌≤◌, ◌<◌, refl, subst, sym, inl, inr, true, not, ◌||◌, Option, some, arith,
  Bool-cases, Option-cases,
}
use secure_edge_platform.Prelude.Text.{Str, str_dec, is_empty}
use secure_edge_platform.Prelude.Maps.{lookup, IsDistinct, lookup-insert}
use secure_edge_platform.Bans.{
  BanManager, Violation, AutoBanConfig, is_banned, record_violation, add_violation, punish, track,
  cleanup_inactive,
}
use secure_edge_platform.Bans.Keeping.{
  record_violation-keeps, record_violation-IsDistinct, cleanup_inactive-keeps,
}
use secure_edge_platform.Bans.Verdicts.{banned_until, is_banned_lem, is_banned-record_violation}
use secure_edge_platform.Bans.History.{is_banned-IsDistinct, is_banned-Holds}

-- No key twice, and the client banned until the time or longer.
pub record Lasts (j : Str) (until : ℕ) (m : BanManager) : Type 0 where
  pub distinct : IsDistinct m.clients
  pub ban : until ≤ banned_until (lookup j m.clients)

until_of :
    (o : Option Violation) {v : Violation} {until : ℕ}
    → o ≡ some v
    → until ≤ v.banned_until
    → until ≤ banned_until o
until_of o e p = rw e p

module _ (j : Str) (until : ℕ) where
  pub Lasts-is_banned :
      (m : BanManager) (now : ℕ) → now < until → Lasts j until m → (is_banned m j now).1 ≡ true
  Lasts-is_banned m now p h = ground (arith, p, h.ban, (is_banned_lem m j now).0)

  pub is_banned-Lasts :
      (m : BanManager) (k : Str) (now : ℕ)
      → now < until
      → Lasts j until m
      → Lasts j until (is_banned m k now).0
  is_banned-Lasts m k now p h = elim (Option-cases (lookup j m.clients)) [
    | inl e ↦ absurd (omega (arith, p, rw e at h.ban))
    | inr (v, e) ↦
        let (w, found, time) =
          is_banned-Holds m k j now v.banned_until (omega (arith, p, rw e at h.ban))
            (record { distinct = h.distinct; ban = (v, e, refl) }) in
        record {
          distinct = is_banned-IsDistinct m k now h.distinct;
          ban = until_of _ found (omega (arith, time, rw e at h.ban));
        }
  ]

  again :
      (m : BanManager) (cfg : AutoBanConfig) (now : ℕ) (v : Violation)
      → until ≤ now + cfg.ban_duration
      → until ≤ v.banned_until
      → lookup j m.clients ≡ some v
      → until ≤ banned_until (lookup j (track m j cfg now).0.clients)
  unfolding track punish add_violation
  again m cfg now v later p e =
      rw (e, track)
        (ground (arith, later, p, lookup-insert j j (add_violation cfg now v).0 m.clients))

  own :
      (m : BanManager) (cfg : AutoBanConfig) (now : ℕ) (v : Violation)
      → now < until
      → until ≤ now + cfg.ban_duration
      → until ≤ v.banned_until
      → lookup j m.clients ≡ some v
      → until ≤ banned_until (lookup j (record_violation m j cfg now).0.clients)
  unfolding record_violation
  own m cfg now v p later q e = elim (Bool-cases (not cfg.enabled || is_empty j)) [
    | inl off ↦ rw off (until_of _ e q)
    | inr on ↦ rw on (
        again (cleanup_inactive m cfg now) cfg now v later q
          (cleanup_inactive-keeps m cfg now j {v = v} e (omega (arith, p, q))))
  ]

  -- A violation of any client leaves the ban, or sets a later one.
  pub record_violation-Lasts :
      (m : BanManager) (k : Str) (cfg : AutoBanConfig) (now : ℕ)
      → now < until
      → until ≤ now + cfg.ban_duration
      → Lasts j until m
      → Lasts j until (record_violation m k cfg now).0
  record_violation-Lasts m k cfg now p later h = elim (Option-cases (lookup j m.clients)) [
    | inl e ↦ absurd (omega (arith, p, rw e at h.ban))
    | inr (v, e) ↦ record {
      distinct = record_violation-IsDistinct m k cfg now h.distinct;
      ban = elim (str_dec k j) [
        | yes same ↦
            subst (λ c. until ≤ banned_until (lookup j (record_violation m c cfg now).0.clients))
              (sym same) (own m cfg now v p later (rw e at h.ban) e)
        | no other ↦
            until_of _
              (record_violation-keeps m k j cfg now {v = v} other h.distinct e
                (omega (arith, p, rw e at h.ban)))
              (rw e at h.ban)
      ];
    }
  ]

-- A violation that bans its client sets such a ban.
pub record_violation-bans :
    (m : BanManager) (k : Str) (cfg : AutoBanConfig) (now : ℕ)
    → IsDistinct m.clients
    → (record_violation m k cfg now).1 ≡ true
    → Lasts k (now + cfg.ban_duration) (record_violation m k cfg now).0
record_violation-bans m k cfg now d h = record {
  distinct = record_violation-IsDistinct m k cfg now d;
  ban = ground (
    arith,
    (is_banned-record_violation m k cfg now until h).1,
    (is_banned_lem (record_violation m k cfg now).0 k until).0,
  );
}
  where
    until : ℕ
    until = banned_until (lookup k (record_violation m k cfg now).0.clients)
