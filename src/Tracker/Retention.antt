-- ===== src/Tracker/Retention.antt =====
-- Tracker: the events kept are the latest of all that were observed, and the marker is the latest of
-- those dropped.
use secure_edge_platform.Prelude.{
  ℕ, zero, suc, ◌-◌, ◌≤◌, ◌<◌, ◌≡◌, refl, ap, sym, subst, ◌∙◌, inl, inr, Option, none, some, List,
  [], ◌∷◌, ◌++◌, arith, length, take, drop, All, leb, ◌==◌, if◌then◌else◌, Bool-cases, length-drop,
  max, dec_lt,
}
use secure_edge_platform.Tracker.{
  Event, Tracker, position, place, observe, note_evicted, note_first, new,
}
use mathlib.Core.Path.{ap₂}
use secure_edge_platform.Tracker.Insertion.{
  IsSorted, insert_event, leading, position-leading, insert-position, insert_event-IsSorted,
  length-insert_event,
}

-- The latest time of some events, or the zero time.
unfoldable pub newest : List Event → ℕ
newest [] = 0
newest (e ∷ l) = max e.observed_at (newest l)

abbrev first_time : List Event → ℕ
first_time [] = 0
first_time (e ∷ l) = e.observed_at

-- A full list takes an event: one that is older than all is dropped, otherwise the first one is.
abbrev slide : Event → List Event → List Event
slide e l = if leading e.observed_at l == 0 then l else drop 1 (insert_event e l)

abbrev dropped : Event → List Event → ℕ
dropped e l = if leading e.observed_at l == 0 then e.observed_at else first_time l

leading-zero : (t : ℕ) (l : List Event) → All (λ d. t < d.observed_at) l → leading t l ≡ 0
unfolding leading
leading-zero t [] a = refl
leading-zero t (d ∷ l) a = ground arith

All-drop :
    (t n : ℕ) (l : List Event)
    → All (λ d. t ≤ d.observed_at) l
    → All (λ d. t ≤ d.observed_at) (drop n l)
All-drop t zero l a = a
All-drop t (suc n) [] a = tt
All-drop t (suc n) (d ∷ l) a = All-drop t n l a.1

All-later :
    (s t : ℕ) (l : List Event)
    → s ≤ t
    → All (λ d. t ≤ d.observed_at) l
    → All (λ d. s ≤ d.observed_at) l
All-later s t [] h a = tt
All-later s t (d ∷ l) h a = (omega arith, All-later s t l h a.1)

drop-insert_event :
    (n : ℕ) (e : Event) (l : List Event)
    → IsSorted l
    → drop (suc n) (insert_event e l) ≡ slide e (drop n l)
unfolding insert_event leading
drop-insert_event zero e [] s = refl
drop-insert_event zero e (d ∷ l) s = ground arith
drop-insert_event (suc n) e [] s = refl
drop-insert_event (suc n) e (d ∷ l) s = elim (Bool-cases (leb d.observed_at e.observed_at)) [
  | inl p ↦ rw p (drop-insert_event n e l s.1)
  | inr p ↦ rw p (
      ground (
        arith,
        leading-zero e.observed_at (drop n l) (
            All-drop (suc e.observed_at) n l
              (All-later (suc e.observed_at) d.observed_at l (ground arith) s.0)),
      ))
]

newest-insert_event :
    (n : ℕ) (e : Event) (l : List Event)
    → IsSorted l
    → newest (take (suc n) (insert_event e l)) ≡ max (newest (take n l)) (dropped e (drop n l))
unfolding insert_event leading newest
newest-insert_event zero e [] s = omega arith
newest-insert_event zero e (d ∷ l) s = ground arith
newest-insert_event (suc n) e [] s = omega arith
newest-insert_event (suc n) e (d ∷ l) s = elim (Bool-cases (leb d.observed_at e.observed_at)) [
  | inl p ↦ rw p (omega (arith, newest-insert_event n e l s.1))
  | inr p ↦ rw p (
      ground (
        arith,
        leading-zero e.observed_at (drop n l) (
            All-drop (suc e.observed_at) n l
              (All-later (suc e.observed_at) d.observed_at l (ground arith) s.0)),
      ))
]

-- What the tracker keeps of a history of observed events, in order of time.
pub record Keeps (t : Tracker) (history : List Event) : Type 0 where
  pub sorted : IsSorted history
  pub positive : 0 < t.capacity
  pub events : t.events ≡ drop (length history - t.capacity) history
  pub marker : t.latest_evicted_at ≡ newest (take (length history - t.capacity) history)

IsSorted-drop : (n : ℕ) (l : List Event) → IsSorted l → IsSorted (drop n l)
IsSorted-drop zero l s = s
IsSorted-drop (suc n) [] s = tt
IsSorted-drop (suc n) (d ∷ l) s = IsSorted-drop n l s.1

drop_front :
    (p : ℕ) (e : Event) (l : List Event)
    → 0 < p
    → 0 < length l
    → drop 1 (take p l) ++ e ∷ drop p l ≡ drop 1 (take p l ++ e ∷ drop p l)
drop_front zero e l h k = absurd (omega arith)
drop_front (suc p) e [] h k = absurd (omega arith)
drop_front (suc p) e (d ∷ l) h k = refl

note_first_lem :
    (t : Tracker) (l : List Event)
    → (note_first t l).latest_evicted_at ≡ max t.latest_evicted_at (first_time l)
unfolding note_first note_evicted
note_first_lem t [] = omega arith
note_first_lem t (e ∷ l) = ground arith

module _ (t : Tracker) (e : Event) (h : IsSorted t.events) where
  place_room :
      length t.events < t.capacity
      → ((place t e).events ≡ insert_event e t.events)
        × ((place t e).latest_evicted_at ≡ t.latest_evicted_at)
  unfolding place
  place_room room = ground (arith, insert-position e t.events h)

  place_full :
      t.capacity ≤ length t.events
      → 0 < t.capacity
      → ((place t e).events ≡ slide e t.events)
        × ((place t e).latest_evicted_at ≡ max t.latest_evicted_at (dropped e t.events))
  unfolding place note_evicted
  place_full full positive = ground (
    arith,
    insert-position e t.events h,
    position-leading t.events e.observed_at h,
    drop_front (position t.events e.observed_at) e t.events,
    note_first_lem t t.events,
  )

  place-capacity : (place t e).capacity ≡ t.capacity
  unfolding place note_evicted note_first
  place-capacity = ground arith

place-Keeps :
    (t : Tracker) (e : Event) (l : List Event) → Keeps t l → Keeps (place t e) (insert_event e l)
place-Keeps t e l k = elim (dec_lt (length t.events) t.capacity) [
  | yes room ↦
      let (p, q) = place_room t e s room in
      let none_gone : length l - t.capacity ≡ 0 = omega (arith, kept_length, room) in
      let whole : t.events ≡ l = k.events ∙ ap (λ n. drop n l) none_gone in
      let still : length (insert_event e l) - (place t e).capacity ≡ 0 =
        omega (arith, length-insert_event e l, place-capacity t e s, kept_length, room) in
      record {
        sorted = insert_event-IsSorted e l k.sorted;
        positive = positive;
        events = p ∙ ap (insert_event e) whole ∙ sym (ap (λ n. drop n (insert_event e l)) still);
        marker =
            q
            ∙ k.marker
            ∙ ap (λ n. newest (take n l)) none_gone
            ∙ sym (ap (λ n. newest (take n (insert_event e l))) still);
      }
  | no full ↦
      let (p, q) = place_full t e s (omega arith) k.positive in
      let one_more : length (insert_event e l) - (place t e).capacity
          ≡ suc (length l - t.capacity) =
        omega (arith, length-insert_event e l, place-capacity t e s, kept_length, k.positive) in
      record {
        sorted = insert_event-IsSorted e l k.sorted;
        positive = positive;
        events =
            p
            ∙ ap (slide e) k.events
            ∙ sym (drop-insert_event (length l - t.capacity) e l k.sorted)
            ∙ sym (ap (λ n. drop n (insert_event e l)) one_more);
        marker =
            q
            ∙ ap₂ (λ m es. max m (dropped e es)) k.marker k.events
            ∙ sym (newest-insert_event (length l - t.capacity) e l k.sorted)
            ∙ sym (ap (λ n. newest (take n (insert_event e l))) one_more);
      }
]
  where
    s : IsSorted t.events
    s = subst IsSorted (sym k.events) (IsSorted-drop (length l - t.capacity) l k.sorted)

    kept_length : length t.events ≡ length l - (length l - t.capacity)
    kept_length = ap length k.events ∙ length-drop (length l - t.capacity) l

    positive : 0 < (place t e).capacity
    positive = omega (arith, place-capacity t e s, k.positive)

-- Any number of events, each with its own time or the clock's, in the order of arrival.
unfoldable pub observe_all : Tracker → List (Option ℕ × Event × ℕ) → Tracker
observe_all t [] = t
observe_all t ((parsed, e, clock) ∷ es) = observe_all (observe t parsed e clock) es

abbrev pub observed_or : Option ℕ → ℕ → ℕ
observed_or none clock = clock
observed_or (some observed) clock = observed

-- The same events put in order of time; of two at one time the later arrival comes later.
unfoldable pub in_order : List Event → List (Option ℕ × Event × ℕ) → List Event
in_order l [] = l
in_order l ((parsed, e, clock) ∷ es) =
    in_order (insert_event (record e { observed_at = observed_or parsed clock }) l) es

observe-Keeps :
    (t : Tracker) (parsed : Option ℕ) (e : Event) (clock : ℕ) (l : List Event)
    → Keeps t l
    → Keeps
        (observe t parsed e clock)
        (insert_event (record e { observed_at = observed_or parsed clock }) l)
unfolding observe
observe-Keeps t none e clock l k = place-Keeps t (record e { observed_at = clock }) l k
observe-Keeps t (some at) e clock l k = place-Keeps t (record e { observed_at = at }) l k

observe_all-Keeps :
    (t : Tracker) (es : List (Option ℕ × Event × ℕ)) (l : List Event)
    → Keeps t l
    → Keeps (observe_all t es) (in_order l es)
unfolding observe_all in_order
observe_all-Keeps t [] l k = k
observe_all-Keeps t ((parsed, e, clock) ∷ es) l k =
    observe_all-Keeps (observe t parsed e clock) es _ (observe-Keeps t parsed e clock l k)

-- Whatever a new tracker observes, in any order of times, it keeps exactly the latest events, as many
-- as its capacity allows and in order of time, and its marker is the latest time of those it dropped.
pub observe_all-new-Keeps :
    (capacity window : ℕ) (es : List (Option ℕ × Event × ℕ))
    → Keeps (observe_all (new capacity window) es) (in_order [] es)
unfolding new
observe_all-new-Keeps capacity window es = observe_all-Keeps (new capacity window) es [] (record {
  sorted = tt;
  positive = ground arith;
  events = sym (empty _);
  marker = unfold newest in sym (ap newest (empty' _));
})
  where
    empty : (n : ℕ) → drop {A = Event} n [] ≡ []
    empty zero = refl
    empty (suc n) = refl

    empty' : (n : ℕ) → take {A = Event} n [] ≡ []
    empty' zero = refl
    empty' (suc n) = refl
