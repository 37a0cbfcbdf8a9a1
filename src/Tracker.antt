-- ===== src/Tracker.antt =====
-- apps/securityedge/internal/traffic/tracker.go: the recent requests, oldest first, at most
-- `capacity` of them. A time is a number of nanoseconds since Go's zero time; Observe is given the
-- parsed time of its event, or none, and the clock. Of an event's texts only those that Snapshot
-- reads are fields; `details` stands for the others.
pub mod Insertion
pub mod Retention
pub mod Summaries
mod Examples
use secure_edge_platform.Prelude.{
  ℕ, zero, suc, ◌+◌, ◌-◌, ◌≡◌, Bool, true, false, not, ◌&&◌, ◌||◌, Option, none, some, List, [],
  ◌∷◌, ◌++◌, length, take, drop, get_elem?, keep, ltb, leb, ◌==◌, if◌then◌else◌,
}
use mathlib.Core.List.{reverse}
use secure_edge_platform.Prelude.Text.{Str, codes, same, is_empty}
use secure_edge_platform.Search.{search}

pub record Event : Type 0 where
  pub observed_at : ℕ
  pub client_ip : Str
  pub action : Str
  pub details : List Str

pub record Tracker : Type 0 where
  pub capacity : ℕ
  pub window : ℕ
  pub events : List Event
  pub latest_evicted_at : ℕ

abbrev default_capacity : ℕ
default_capacity = 512

abbrev default_window : ℕ
default_window = 300_000_000_000

pub new : ℕ → ℕ → Tracker
new capacity window = record {
  capacity = if leb capacity 0 then default_capacity else capacity;
  window = if leb window 0 then default_window else window;
  events = [];
  latest_evicted_at = 0;
}

-- existing.After(observed), at an index of the list
abbrev after_at : List Event → ℕ → ℕ → Bool
after_at events observed i = elim (get_elem? events i) [
  | none ↦ false
  | some e ↦ ltb observed e.observed_at
]

pub position : List Event → ℕ → ℕ
unfolding search
position events observed = search (length events) (after_at events observed) 0 (length events)

pub note_evicted : Tracker → ℕ → Tracker
note_evicted t observed = record t {
  latest_evicted_at = if ltb t.latest_evicted_at observed then observed else t.latest_evicted_at;
}

-- t.events[0].ObservedAt is noted, where there is one.
note_first : Tracker → List Event → Tracker
unfolding note_evicted
note_first t [] = t
note_first t (e ∷ es) = note_evicted t e.observed_at

-- Observe behind its parsing, for an event that carries its own time.
pub place : Tracker → Event → Tracker
unfolding position note_evicted note_first
place t event =
    let p = position t.events event.observed_at in
    if ltb (length t.events) t.capacity
    then record t { events = take p t.events ++ event ∷ drop p t.events }
    else if p == 0
    then note_evicted t event.observed_at
    else record (note_first t t.events) {
      events = drop 1 (take p t.events) ++ event ∷ drop p t.events;
    }

abbrev observed_or : Option ℕ → ℕ → ℕ
observed_or none clock = clock
observed_or (some observed) clock = observed

pub observe : Tracker → Option ℕ → Event → ℕ → Tracker
unfolding place
observe t parsed event clock = place t (record event { observed_at = observed_or parsed clock })

pub data Status : Type 0 where
  no_recent_traffic traffic_observed : Status

pub record Snapshot : Type 0 where
  pub retention_capacity : ℕ
  pub window_truncated : Bool
  pub minimum_requests_in_window : ℕ
  pub status : Status
  pub requests_in_window : ℕ
  pub unique_clients : ℕ
  pub allowed : ℕ
  pub rejected : ℕ
  pub canceled : ℕ
  pub last_request : Option Event

-- Events of the future go, and so does a marker of the future.
pub rewind : Tracker → ℕ → Tracker
rewind t now = record t {
  events = keep (λ e. leb e.observed_at now) t.events;
  latest_evicted_at = if ltb now t.latest_evicted_at then 0 else t.latest_evicted_at;
}

pub is_allowed : Event → Bool
is_allowed e = same e.action (codes "ALLOW") || same e.action (codes "LOG")

pub is_canceled : Event → Bool
unfolding is_allowed
is_canceled e = not (is_allowed e) && same e.action (codes "CANCELED")

contains : Str → List Str → Bool
contains k [] = false
contains k (x ∷ xs) = same x k || contains k xs

-- clients[ip] = struct{}{}
add_client : Str → List Str → List Str
unfolding contains
add_client k clients = if is_empty k || contains k clients then clients else k ∷ clients

-- The counters of the loop of Snapshot.
pub record Counts : Type 0 where
  pub requests : ℕ
  pub clients : List Str
  pub allowed : ℕ
  pub rejected : ℕ
  pub canceled : ℕ
  pub last : Option Event

abbrev first : Option Event → Event → Option Event
first none e = some e
first (some d) e = some d

pub count_event : Event → Counts → Counts
unfolding is_allowed is_canceled add_client
count_event e c = record {
  requests = c.requests + 1;
  clients = add_client e.client_ip c.clients;
  allowed = if is_allowed e then c.allowed + 1 else c.allowed;
  rejected = if is_allowed e || is_canceled e then c.rejected else c.rejected + 1;
  canceled = if is_canceled e then c.canceled + 1 else c.canceled;
  last = first c.last e;
}

pub no_counts : Counts
no_counts = record {
  requests = 0;
  clients = [];
  allowed = 0;
  rejected = 0;
  canceled = 0;
  last = none;
}

-- The loop, over the events from the newest.
pub count_events : ℕ → List Event → Counts → Counts
unfolding count_event
count_events cutoff [] c = c
count_events cutoff (e ∷ es) c =
    count_events cutoff es (if ltb e.observed_at cutoff then c else count_event e c)

abbrev status_of : Option Event → Status
status_of none = no_recent_traffic
status_of (some e) = traffic_observed

-- The marker is in the window: !latestEvictedAt.IsZero() && !latestEvictedAt.Before(cutoff)
pub is_truncated : Tracker → ℕ → Bool
is_truncated t now = not (t.latest_evicted_at == 0) && leb (now - t.window) t.latest_evicted_at

pub summarize : Tracker → ℕ → Counts → Snapshot
unfolding is_truncated
summarize t now c = record {
  retention_capacity = t.capacity;
  window_truncated = is_truncated t now;
  minimum_requests_in_window = if is_truncated t now then c.requests + 1 else c.requests;
  status = status_of c.last;
  requests_in_window = c.requests;
  unique_clients = length c.clients;
  allowed = c.allowed;
  rejected = c.rejected;
  canceled = c.canceled;
  last_request = c.last;
}

pub snapshot : Tracker → ℕ → Tracker × Snapshot
unfolding rewind count_events no_counts summarize
snapshot t now =
    let t' = rewind t now in
    (t', summarize t' now (count_events (now - t.window) (reverse t'.events) no_counts))

-- The newest events, at most `limit` of them unless it is 0.
pub recent : Tracker → ℕ → List Event
recent t limit =
    let n = if leb limit 0 || ltb (length t.events) limit then length t.events else limit in
    take n (reverse t.events)
