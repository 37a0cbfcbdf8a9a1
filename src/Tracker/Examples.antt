-- ===== src/Tracker/Examples.antt =====
-- Tracker: tests at concrete inputs.
use secure_edge_platform.Prelude.{
  ℕ, ◌≤◌, ◌<◌, ◌≡◌, refl, Option, none, some, List, [], ◌∷◌, arith, All,
}
use secure_edge_platform.Prelude.Text.{codes, str_dec}
use secure_edge_platform.Search.{search}
use secure_edge_platform.Tracker.{
  Event, new, observe, place, position, note_evicted, note_first, snapshot, rewind, summarize,
  count_events, count_event, is_truncated, is_allowed, is_canceled, add_client, contains, no_counts,
}
use secure_edge_platform.Tracker.Insertion.{insert_event}
use secure_edge_platform.Tracker.Retention.{Keeps, observe_all, in_order, observe_all-new-Keeps}
use secure_edge_platform.Tracker.Summaries.{count_since}

program : Unit {0}
unfolding new observe place position note_evicted note_first snapshot rewind summarize count_events
    count_event is_truncated is_allowed is_canceled add_client contains no_counts search observe_all
    in_order insert_event count_since str_dec
program = tt

abbrev event : Event
event = record { observed_at = 0; client_ip = codes "a"; action = codes "ALLOW"; details = [] }

-- Three events out of order, the last without a time of its own.
abbrev events : List (Option ℕ × Event × ℕ)
events = (some 30, event, 0) ∷ (some 10, event, 0) ∷ (none, event, 20) ∷ []

keeps_two : (observe_all (new 2 100) events).latest_evicted_at ≡ 10
unfolding program
keeps_two = refl

observe_all-new-Keeps_example : Keeps (observe_all (new 2 100) events) (in_order [] events)
observe_all-new-Keeps_example = observe_all-new-Keeps 2 100 events

counts_two : (snapshot (observe_all (new 2 100) events) 120).1.requests_in_window ≡ 2
unfolding program
counts_two = refl

past : All (λ e. e.observed_at ≤ 120) (in_order [] events)
unfolding program
past = (omega arith, (omega arith, (omega arith, tt)))

long : (observe_all (new 2 100) events).window < 120
unfolding program
long = omega arith
