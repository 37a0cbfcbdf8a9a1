-- ===== src/Tracker/Summaries.antt =====
-- Tracker: the numbers of a Snapshot, against the whole history of observed events.
use mathlib.Core.List.{reverse, reverse-cons}
use secure_edge_platform.Prelude.{
  ℕ, zero, suc, ◌+◌, ◌-◌, ◌≤◌, ◌<◌, ◌≡◌, refl, ap, sym, subst, ◌∙◌, inl, inr, false, List, [], ◌∷◌,
  ◌++◌, arith, length, take, drop, keep, All, ltb, leb, if◌then◌else◌, Bool-cases, take-append-drop,
}
use secure_edge_platform.Tracker.{
  Event, Tracker, Counts, count_event, count_events, no_counts, rewind, snapshot, summarize,
  is_canceled, is_truncated, add_client,
}
use secure_edge_platform.Tracker.Retention.{Keeps, newest}

-- How many events are not before a time.
unfoldable pub count_since : ℕ → List Event → ℕ
count_since cutoff [] = 0
count_since cutoff (e ∷ l) = (if ltb e.observed_at cutoff then 0 else 1) + count_since cutoff l

count_since-append :
    (cutoff : ℕ) (k l : List Event)
    → count_since cutoff (k ++ l) ≡ count_since cutoff k + count_since cutoff l
unfolding count_since
count_since-append cutoff [] l = omega arith
count_since-append cutoff (e ∷ k) l = omega (arith, count_since-append cutoff k l)

count_since-reverse :
    (cutoff : ℕ) (l : List Event) → count_since cutoff (reverse l) ≡ count_since cutoff l
unfolding count_since
count_since-reverse cutoff [] = refl
count_since-reverse cutoff (e ∷ l) = omega (
  arith,
  ap (count_since cutoff) (reverse-cons e l),
  count_since-append cutoff (reverse l) (e ∷ []),
  count_since-reverse cutoff l,
)

-- The counters of a loop stay consistent with one another.
record IsBalanced (c : Counts) : Type 0 where
  split : c.allowed + c.rejected + c.canceled ≡ c.requests
  clients : length c.clients ≤ c.requests

count_event-IsBalanced : (e : Event) (c : Counts) → IsBalanced c → IsBalanced (count_event e c)
unfolding count_event is_canceled add_client
count_event-IsBalanced e c b = record { split = ground arith; clients = ground arith }

count_events-IsBalanced :
    (cutoff : ℕ) (l : List Event) (c : Counts) → IsBalanced c → IsBalanced (count_events cutoff l c)
unfolding count_events
count_events-IsBalanced cutoff [] c b = b
count_events-IsBalanced cutoff (e ∷ l) c b = elim (Bool-cases (ltb e.observed_at cutoff)) [
  | inl old ↦ rw old (count_events-IsBalanced cutoff l c b)
  | inr new ↦
      rw new (count_events-IsBalanced cutoff l (count_event e c) (count_event-IsBalanced e c b))
]

count_events-requests :
    (cutoff : ℕ) (l : List Event) (c : Counts)
    → (count_events cutoff l c).requests ≡ c.requests + count_since cutoff l
unfolding count_events count_since count_event
count_events-requests cutoff [] c = omega arith
count_events-requests cutoff (e ∷ l) c =
    ground
      (arith, count_events-requests cutoff l c, count_events-requests cutoff l (count_event e c))

-- A Snapshot counts every request in the window once: as allowed, rejected or canceled; and it
-- counts no more clients than requests.
snapshot-counts :
    (t : Tracker) (now : ℕ)
    → ((snapshot t now).1.requests_in_window ≡ count_since (now - t.window) (rewind t now).events)
      × ((snapshot t now).1.allowed + (snapshot t now).1.rejected + (snapshot t now).1.canceled
          ≡ (snapshot t now).1.requests_in_window)
      × ((snapshot t now).1.unique_clients ≤ (snapshot t now).1.requests_in_window)
unfolding snapshot summarize no_counts
snapshot-counts t now = (
  count_events-requests (now - t.window) (reverse (rewind t now).events) no_counts
      ∙ omega (arith, count_since-reverse (now - t.window) (rewind t now).events),
  balanced.split,
  balanced.clients,
)
  where
    balanced : IsBalanced (count_events (now - t.window) (reverse (rewind t now).events) no_counts)
    balanced =
        count_events-IsBalanced (now - t.window) (reverse (rewind t now).events) no_counts
          (record { split = omega arith; clients = omega arith })

count_since-old : (cutoff : ℕ) (l : List Event) → newest l < cutoff → count_since cutoff l ≡ 0
unfolding count_since newest
count_since-old cutoff [] h = refl
count_since-old cutoff (e ∷ l) h = ground (arith, count_since-old cutoff l)

count_since-new :
    (cutoff : ℕ) (l : List Event) → 0 < cutoff → cutoff ≤ newest l → 0 < count_since cutoff l
unfolding count_since newest
count_since-new cutoff [] h k = absurd (omega arith)
count_since-new cutoff (e ∷ l) h k = ground (arith, count_since-new cutoff l)

keep-All :
    (now : ℕ) (l : List Event)
    → All (λ e. e.observed_at ≤ now) l
    → keep (λ e. leb e.observed_at now) l ≡ l
keep-All now [] a = refl
keep-All now (e ∷ l) a = ground (arith, keep-All now l a.1)

newest-le : (now : ℕ) (l : List Event) → All (λ e. e.observed_at ≤ now) l → newest l ≤ now
unfolding newest
newest-le now [] a = omega arith
newest-le now (e ∷ l) a = omega (arith, newest-le now l a.1)

All-take :
    (now n : ℕ) (l : List Event)
    → All (λ e. e.observed_at ≤ now) l
    → All (λ e. e.observed_at ≤ now) (take n l)
All-take now zero l a = tt
All-take now (suc n) [] a = tt
All-take now (suc n) (e ∷ l) a = (a.0, All-take now n l a.1)

All-drop :
    (now n : ℕ) (l : List Event)
    → All (λ e. e.observed_at ≤ now) l
    → All (λ e. e.observed_at ≤ now) (drop n l)
All-drop now zero l a = a
All-drop now (suc n) [] a = tt
All-drop now (suc n) (e ∷ l) a = All-drop now n l a.1

module _ (t : Tracker) (history : List Event) (now : ℕ) (k : Keeps t history)
    (past : All (λ e. e.observed_at ≤ now) history) (long : t.window < now) where
  -- For a tracker that keeps the latest events of a history, none of it in the future, and at a
  -- time later than the length of the window: the minimum that a Snapshot states is at most the
  -- number of events of the history in the window; and where it reports no truncation, the minimum
  -- and the count are that number.
  pub snapshot-minimum :
      ((snapshot t now).1.minimum_requests_in_window ≤ count_since (now - t.window) history)
      × ((snapshot t now).1.window_truncated ≡ false
          → ((snapshot t now).1.minimum_requests_in_window ≡ count_since (now - t.window) history)
            × ((snapshot t now).1.requests_in_window ≡ count_since (now - t.window) history))
  unfolding snapshot summarize is_truncated rewind
  snapshot-minimum = ground (
    arith,
    (snapshot-counts t now).0,
    kept,
    keep-All now t.events kept_past,
    k.marker,
    newest-le now gone (All-take now n history past),
    count_since-old (now - t.window) gone,
    count_since-new (now - t.window) gone,
    split,
  )
    where
      n : ℕ
      n = length history - t.capacity

      gone : List Event
      gone = take n history

      kept_past : All (λ e. e.observed_at ≤ now) t.events
      kept_past = subst (All _) (sym k.events) (All-drop now n history past)

      kept : count_since (now - t.window) t.events ≡ count_since (now - t.window) (drop n history)
      kept = ap (count_since (now - t.window)) k.events

      split :
          count_since (now - t.window) gone + count_since (now - t.window) (drop n history)
          ≡ count_since (now - t.window) history
      split =
          sym (count_since-append (now - t.window) gone (drop n history))
          ∙ ap (count_since (now - t.window)) (take-append-drop n history)
