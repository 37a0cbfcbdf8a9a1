-- ===== src/Bans.antt =====
-- apps/securityedge/internal/ratelimit/limiter.go, BanManager: temporary bans of abusive clients.
-- A time is a number of nanoseconds since Go's zero time, so IsZero is `== 0`, and a cutoff
-- now - window that stops at 0 lets the same times pass. Durations are not negative, as the
-- configuration's validation ensures. A map is visited in the order of its association list.
pub mod Keeping
pub mod Capacity
pub mod Verdicts
pub mod History
pub mod Persistence
mod Examples
use secure_edge_platform.Prelude.{
  ℕ, suc, ◌+◌, ◌-◌, ◌/◌, ◌*◌, Bool, true, false, not, ◌&&◌, ◌||◌, Option, none, some, List, [], ◌∷◌,
  ◌++◌, length, keep, ltb, leb, ◌==◌, if◌then◌else◌,
}
use secure_edge_platform.Prelude.Text.{Str, is_empty, str_lt}
use secure_edge_platform.Prelude.Maps.{Map, lookup, insert, delete}

pub record Violation : Type 0 where
  pub times : List ℕ
  pub banned_until : ℕ
  pub ban_violations : ℕ
  pub seen : ℕ
  pub window : ℕ

pub record AutoBanConfig : Type 0 where
  pub enabled : Bool
  pub violation_threshold : ℕ
  pub window : ℕ
  pub ban_duration : ℕ
  pub max_tracked_clients : ℕ

pub record BanManager : Type 0 where
  pub clients : Map Violation
  pub last_cleanup : ℕ

pub record Ban : Type 0 where
  pub client : Str
  pub banned_until : ℕ
  pub violations : ℕ

abbrev pub second : ℕ
second = 1_000_000_000

abbrev minute : ℕ
minute = 60_000_000_000

unfoldable pub new : BanManager
new = record { clients = []; last_cleanup = 0 }

abbrev no_times : List ℕ → Bool
no_times [] = true
no_times (t ∷ ts) = false

-- A ban that is over and has no violations pending: len(v.times) == 0 && !v.bannedUntil.IsZero()
abbrev is_spent : Violation → Bool
is_spent v = no_times v.times && not (v.banned_until == 0)

abbrev banned_answer : BanManager → Str → ℕ → Violation → BanManager × Bool × ℕ
banned_answer m client now v =
    if not (ltb now v.banned_until)
    then (if is_spent v then record m { clients = delete client m.clients } else m, false, 0)
    else (
      record m { clients = insert client (record v { seen = now }) m.clients },
      true,
      v.banned_until - now,
    )

unfoldable pub is_banned : BanManager → Str → ℕ → BanManager × Bool × ℕ
is_banned m client now = elim (lookup client m.clients) [
  | none ↦ (m, false, 0)
  | some v ↦ banned_answer m client now v
]

-- The violations that lie in the window: !t.Before(cutoff)
abbrev pub recent : ℕ → List ℕ → List ℕ
recent cutoff = keep (λ t. leb cutoff t)

-- The window of a client, or the configured one where it has none.
abbrev window_of : AutoBanConfig → Violation → ℕ
window_of cfg v = if leb v.window 0 then cfg.window else v.window

abbrev pruned : AutoBanConfig → ℕ → Violation → Violation
pruned cfg now v = record v { times = recent (now - window_of cfg v) v.times }

-- Nothing is left of a client that is not banned: no recent violation, and not seen for a window.
abbrev is_idle : AutoBanConfig → ℕ → Violation → Bool
is_idle cfg now v = no_times (pruned cfg now v).times && ltb (window_of cfg v) (now - v.seen)

-- The loop of cleanupInactiveLocked.
unfoldable pub cleanup_clients : AutoBanConfig → ℕ → Map Violation → Map Violation
cleanup_clients cfg now [] = []
cleanup_clients cfg now ((client, v) ∷ m) =
    let rest = cleanup_clients cfg now m in
    if ltb now v.banned_until
    then (client, v) ∷ rest
    else if is_idle cfg now v
    then rest
    else (client, pruned cfg now v) ∷ rest

abbrev cleanup_interval : AutoBanConfig → ℕ
cleanup_interval cfg =
    let interval = if ltb (cfg.window / 2) second then second else cfg.window / 2 in
    if ltb minute interval then minute else interval

-- A cleanup less than an interval ago; a clock that went back does not count as one.
abbrev cleaned_lately : BanManager → AutoBanConfig → ℕ → Bool
cleaned_lately m cfg now =
    not (m.last_cleanup == 0)
    && (leb m.last_cleanup now && ltb (now - m.last_cleanup) (cleanup_interval cfg))

unfoldable pub cleanup_inactive : BanManager → AutoBanConfig → ℕ → BanManager
cleanup_inactive m cfg now =
    if cleaned_lately m cfg now
    then m
    else record { clients = cleanup_clients cfg now m.clients; last_cleanup = now }

-- The loop of evictOldestInactiveLocked; no key yet is "".
unfoldable pub oldest_inactive : ℕ → Map Violation → Str → ℕ → Str
oldest_inactive now [] oldest_key oldest = oldest_key
oldest_inactive now ((key, v) ∷ m) oldest_key oldest =
    let older = not (ltb now v.banned_until) && (is_empty oldest_key || ltb v.seen oldest) in
    oldest_inactive now m (if older then key else oldest_key) (if older then v.seen else oldest)

unfoldable pub evict_oldest_inactive : BanManager → ℕ → BanManager × Bool
evict_oldest_inactive m now =
    let key = oldest_inactive now m.clients [] 0 in
    if not (is_empty key) then (record m { clients = delete key m.clients }, true) else (m, false)

-- &violation{}
abbrev pub no_violation : Violation
no_violation = record { times = []; banned_until = 0; ban_violations = 0; seen = 0; window = 0 }

-- The client's record after one more violation, and whether it is banned by it.
unfoldable pub add_violation : AutoBanConfig → ℕ → Violation → Violation × Bool
add_violation cfg now v =
    let times = recent (now - cfg.window) v.times ++ now ∷ [] in
    if leb cfg.violation_threshold (length times)
    then (
      record {
        times = [];
        banned_until = now + cfg.ban_duration;
        ban_violations = length times;
        seen = now;
        window = cfg.window;
      },
      true,
    )
    else (record v { times = times; seen = now; window = cfg.window }, false)

unfoldable pub punish : BanManager → Str → AutoBanConfig → ℕ → Violation → BanManager × Bool × ℕ
punish m client cfg now v =
    let (v', banned) = add_violation cfg now v in
    (
      record m { clients = insert client v' m.clients },
      banned,
      if banned then cfg.ban_duration else 0,
    )

-- Room for a client that is not tracked: there is some, or an inactive client makes room.
unfoldable pub make_room : BanManager → AutoBanConfig → ℕ → BanManager × Bool
unfolding evict_oldest_inactive
make_room m cfg now =
    if leb cfg.max_tracked_clients (length m.clients)
    then evict_oldest_inactive m now
    else (m, true)

unfoldable pub track : BanManager → Str → AutoBanConfig → ℕ → BanManager × Bool × ℕ
unfolding make_room punish
track m client cfg now = elim (lookup client m.clients) [
  | some v ↦ punish m client cfg now v
  | none ↦
      let (m', room) = make_room m cfg now in
      if room then punish m' client cfg now no_violation else (m', false, 0)
]

unfoldable pub record_violation : BanManager → Str → AutoBanConfig → ℕ → BanManager × Bool × ℕ
unfolding track cleanup_inactive
record_violation m client cfg now =
    if not cfg.enabled || is_empty client
    then (m, false, 0)
    else track (cleanup_inactive m cfg now) client cfg now

-- sort.Slice by client; the clients of a map are all different.
insert_sorted : Ban → List Ban → List Ban
insert_sorted b [] = b ∷ []
insert_sorted b (c ∷ bs) = if str_lt c.client b.client then c ∷ insert_sorted b bs else b ∷ c ∷ bs

active_bans : ℕ → Map Violation → List Ban
unfolding insert_sorted
active_bans now [] = []
active_bans now ((client, v) ∷ m) =
    let rest = active_bans now m in
    if ltb now v.banned_until
    then insert_sorted
        (record { client = client; banned_until = v.banned_until; violations = v.ban_violations })
        rest
    else rest

-- What List and ActiveCount leave of the map: spent bans go.
pub without_spent : ℕ → Map Violation → Map Violation
without_spent now [] = []
without_spent now ((client, v) ∷ m) =
    let rest = without_spent now m in
    if not (ltb now v.banned_until) && is_spent v then rest else (client, v) ∷ rest

pub list_bans : BanManager → ℕ → BanManager × List Ban
unfolding active_bans without_spent
list_bans m now = (record m { clients = without_spent now m.clients }, active_bans now m.clients)

count_active : ℕ → Map Violation → ℕ
count_active now [] = 0
count_active now ((client, v) ∷ m) = (if ltb now v.banned_until then 1 else 0) + count_active now m

pub active_count : BanManager → ℕ → BanManager × ℕ
unfolding without_spent count_active
active_count m now =
    (record m { clients = without_spent now m.clients }, count_active now m.clients)

abbrev is_some : Option Violation → Bool
is_some none = false
is_some (some v) = true

pub remove : BanManager → Str → BanManager × Bool
remove m client =
    (record m { clients = delete client m.clients }, is_some (lookup client m.clients))

pub clear : BanManager → BanManager × ℕ
clear m = (record m { clients = [] }, length m.clients)
