-- ===== src/Bans/History.antt =====
-- Bans: whole histories of calls on the manager.
use secure_edge_platform.Prelude.{
  ℕ, ◌-◌, ◌<◌, ◌≡◌, refl, ap, ◌∙◌, ◌≢◌, inl, inr, true, none, some, List, [], ◌∷◌, arith,
  Option-cases, All,
}
use mathlib.Core.Logic.{if_neg}
use secure_edge_platform.Prelude.Text.{Str, str_dec}
use secure_edge_platform.Prelude.Maps.{
  Map, lookup, IsDistinct, lookup-insert, lookup-delete, insert-IsDistinct, delete-IsDistinct,
}
use secure_edge_platform.Bans.{
  BanManager, Violation, AutoBanConfig, is_banned, record_violation, list_bans, active_count,
  remove, without_spent,
}
use secure_edge_platform.Bans.Keeping.{record_violation-keeps, record_violation-IsDistinct}
use secure_edge_platform.Bans.Verdicts.{banned_until, is_banned_lem}

pub data Call : Type 0 where
  check : Str → Call
  violate : Str → AutoBanConfig → Call
  lists counts : Call
  unban : Str → Call

unfoldable pub step : BanManager → ℕ × Call → BanManager
step m (now, check k) = (is_banned m k now).0
step m (now, violate k cfg) = (record_violation m k cfg now).0
step m (now, lists) = (list_bans m now).0
step m (now, counts) = (active_count m now).0
step m (now, unban k) = (remove m k).0

unfoldable pub run : BanManager → List (ℕ × Call) → BanManager
run m [] = m
run m (c ∷ cs) = run (step m c) cs

-- A call before the end of the ban that is no violation or release of the client itself.
abbrev pub Spares : Str → ℕ → ℕ × Call → Type 0
Spares j until (now, check k) = now < until
Spares j until (now, violate k cfg) = (now < until) × (k ≢ j)
Spares j until (now, lists) = now < until
Spares j until (now, counts) = now < until
Spares j until (now, unban k) = (now < until) × (k ≢ j)

-- No key twice, and the client banned until the time.
pub record Holds (m : BanManager) (j : Str) (until : ℕ) : Type 0 where
  pub distinct : IsDistinct m.clients
  pub ban : (v : Violation) × (lookup j m.clients ≡ some v) × (v.banned_until ≡ until)

lookup-without_spent :
    (now : ℕ) (j : Str) (m : Map Violation) {v : Violation}
    → lookup j m ≡ some v
    → now < v.banned_until
    → lookup j (without_spent now m) ≡ some v
unfolding lookup without_spent
lookup-without_spent now j [] h p = h
lookup-without_spent now j ((k, w) ∷ m) {v} h p =
    ground (arith, lookup-without_spent now j m {v = v})

lookup-without_spent-none :
    (now : ℕ) (j : Str) (m : Map Violation)
    → lookup j m ≡ none
    → lookup j (without_spent now m) ≡ none
unfolding lookup without_spent
lookup-without_spent-none now j [] h = refl
lookup-without_spent-none now j ((k, w) ∷ m) h = ground (arith, lookup-without_spent-none now j m)

without_spent-IsDistinct :
    (now : ℕ) (m : Map Violation) → IsDistinct m → IsDistinct (without_spent now m)
unfolding without_spent
without_spent-IsDistinct now [] d = tt
without_spent-IsDistinct now ((k, w) ∷ m) d =
    ground (arith, lookup-without_spent-none now k m, without_spent-IsDistinct now m d.1)

pub is_banned-IsDistinct :
    (m : BanManager) (k : Str) (now : ℕ)
    → IsDistinct m.clients
    → IsDistinct (is_banned m k now).0.clients
unfolding is_banned
is_banned-IsDistinct m k now d = elim (Option-cases (lookup k m.clients)) [
  | inl e ↦ rw (e, is_banned) d
  | inr (v, e) ↦
      rw (e, is_banned)
        (ground (
          arith,
          delete-IsDistinct k m.clients d,
          insert-IsDistinct k (record v { seen = now }) m.clients d,
        ))
]

pub is_banned-Holds :
    (m : BanManager) (k j : Str) (now until : ℕ)
    → now < until
    → Holds m j until
    → (v : Violation) × (lookup j (is_banned m k now).0.clients ≡ some v) × (v.banned_until ≡ until)
unfolding is_banned
is_banned-Holds m k j now until p h = elim (Option-cases (lookup k m.clients)) [
  | inl e ↦ rw (e, is_banned) h.ban
  | inr (w, e) ↦
      let (v, found, time) = h.ban in
      rw (e, is_banned)
        (elim (str_dec k j) [
          | yes same ↦ (
            record v { seen = now },
            ground (arith, lookup-insert k j (record w { seen = now }) m.clients),
            time,
          )
          | no other ↦ (
            v,
            ground (
              arith,
              lookup-insert k j (record w { seen = now }) m.clients,
              lookup-delete k j m.clients,
            ),
            time,
          )
        ])
]

step-Holds :
    (m : BanManager) (j : Str) (until : ℕ) (c : ℕ × Call)
    → Spares j until c
    → Holds m j until
    → Holds (step m c) j until
unfolding step list_bans active_count remove
step-Holds m j until (now, check k) s h = record {
  distinct = is_banned-IsDistinct m k now h.distinct;
  ban = is_banned-Holds m k j now until s h;
}
step-Holds m j until (now, violate k cfg) s h =
    let (v, found, time) = h.ban in
    record {
      distinct = record_violation-IsDistinct m k cfg now h.distinct;
      ban = (
        v,
        record_violation-keeps m k j cfg now {v = v} s.1 h.distinct found (omega (arith, s.0)),
        time,
      );
    }
step-Holds m j until (now, lists) s h =
    let (v, found, time) = h.ban in
    record {
      distinct = without_spent-IsDistinct now m.clients h.distinct;
      ban = (v, lookup-without_spent now j m.clients {v = v} found (omega arith), time);
    }
step-Holds m j until (now, counts) s h =
    let (v, found, time) = h.ban in
    record {
      distinct = without_spent-IsDistinct now m.clients h.distinct;
      ban = (v, lookup-without_spent now j m.clients {v = v} found (omega arith), time);
    }
step-Holds m j until (now, unban k) s h =
    let (v, found, time) = h.ban in
    record {
      distinct = delete-IsDistinct k m.clients h.distinct;
      ban = (v, lookup-delete k j m.clients ∙ if_neg (str_dec k j) s.1 _ _ ∙ found, time);
    }

run-Holds :
    (m : BanManager) (j : Str) (until : ℕ) (cs : List (ℕ × Call))
    → All (Spares j until) cs
    → Holds m j until
    → Holds (run m cs) j until
unfolding run
run-Holds m j until [] s h = h
run-Holds m j until (c ∷ cs) s h =
    run-Holds (step m c) j until cs s.1 (step-Holds m j until c s.0 h)

-- A ban is served in full: where no client stands twice, a client is banned until a time, and any
-- calls follow before that time that neither release the client nor report a violation of its own,
-- IsBanned still says yes before it and tells the time that is left.
pub is_banned-run :
    (m : BanManager) (j : Str) (until now : ℕ) (cs : List (ℕ × Call))
    → Holds m j until
    → All (Spares j until) cs
    → now < until
    → ((is_banned (run m cs) j now).1 ≡ true) × ((is_banned (run m cs) j now).2 ≡ until - now)
is_banned-run m j until now cs h s p =
    let (v, found, time) = (run-Holds m j until cs s h).ban in
    let (b, r) = is_banned_lem (run m cs) j now in
    let e : banned_until (lookup j (run m cs).clients) ≡ until = ap banned_until found ∙ time in
    (b ∙ ground (arith, e), r ∙ ap (λ t. t - now) e)
