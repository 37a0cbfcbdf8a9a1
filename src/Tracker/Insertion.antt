-- ===== src/Tracker/Insertion.antt =====
-- Tracker: the binary search finds where an event belongs, and the copies put it there.
use secure_edge_platform.Prelude.{
  ℕ, zero, suc, ◌≤◌, ◌<◌, ◌≡◌, refl, ap, inl, inr, true, false, List, [], ◌∷◌, ◌++◌, arith, length,
  take, drop, All, leb, if◌then◌else◌, Bool-cases,
}
use secure_edge_platform.Search.{IsMonotone, search-IsFirst, IsFirst-unique}
use secure_edge_platform.Tracker.{Event, after_at, position}

-- In order of time, oldest first.
abbrev pub IsSorted : List Event → Type 0
IsSorted [] = Unit {0}
IsSorted (e ∷ l) = All (λ d. e.observed_at ≤ d.observed_at) l × IsSorted l

-- Put in behind the events that are not later.
unfoldable pub insert_event : Event → List Event → List Event
insert_event e [] = e ∷ []
insert_event e (d ∷ l) =
    let rest = insert_event e l in if leb d.observed_at e.observed_at then d ∷ rest else e ∷ d ∷ l

-- How many events stand before that place.
unfoldable pub leading : ℕ → List Event → ℕ
leading t [] = 0
leading t (d ∷ l) = let rest = leading t l in if leb d.observed_at t then suc rest else 0

leading-le : (t : ℕ) (l : List Event) → leading t l ≤ length l
unfolding leading
leading-le t [] = omega arith
leading-le t (d ∷ l) = ground (arith, leading-le t l)

after_at-bound :
    (t b : ℕ) (l : List Event)
    → All (λ d. t < d.observed_at) l
    → b < length l
    → after_at l t b ≡ true
after_at-bound t b [] a h = absurd (omega arith)
after_at-bound t zero (d ∷ l) a h = ground arith
after_at-bound t (suc b) (d ∷ l) a h = after_at-bound t b l a.1 (omega arith)

All-later :
    (s t : ℕ) (l : List Event)
    → s ≤ t
    → All (λ d. t ≤ d.observed_at) l
    → All (λ d. s ≤ d.observed_at) l
All-later s t [] h a = tt
All-later s t (d ∷ l) h a = (omega arith, All-later s t l h a.1)

after_at_mono : (t : ℕ) (l : List Event) → IsSorted l → IsMonotone (after_at l t) (length l)
after_at_mono t [] s a b h k e = absurd (omega arith)
after_at_mono t (d ∷ l) s zero zero h k e = e
after_at_mono t (d ∷ l) s zero (suc b) h k e =
    after_at-bound t b l (All-later (suc t) d.observed_at l (ground arith) s.0) (omega arith)
after_at_mono t (d ∷ l) s (suc a) zero h k e = absurd (omega arith)
after_at_mono t (d ∷ l) s (suc a) (suc b) h k e =
    after_at_mono t l s.1 a b (omega arith) (omega arith) e

leading-fails : (t : ℕ) (l : List Event) (x : ℕ) → x < leading t l → after_at l t x ≡ false
unfolding leading
leading-fails t [] x h = absurd (omega arith)
leading-fails t (d ∷ l) zero h = ground arith
leading-fails t (d ∷ l) (suc x) h = leading-fails t l x (ground arith)

leading-passes :
    (t : ℕ) (l : List Event) (x : ℕ)
    → IsSorted l
    → leading t l ≤ x
    → x < length l
    → after_at l t x ≡ true
unfolding leading
leading-passes t [] x s h k = absurd (omega arith)
leading-passes t (d ∷ l) zero s h k = ground arith
leading-passes t (d ∷ l) (suc x) s h k = elim (Bool-cases (leb d.observed_at t)) [
  | inl e ↦ leading-passes t l x s.1 (ground arith) (omega arith)
  | inr e ↦
      after_at-bound t x l (All-later (suc t) d.observed_at l (ground arith) s.0) (omega arith)
]

-- The search finds that place.
pub position-leading : (l : List Event) (t : ℕ) → IsSorted l → position l t ≡ leading t l
unfolding position
position-leading l t s =
    IsFirst-unique (after_at l t) (length l)
      (search-IsFirst (after_at l t) (length l) (after_at_mono t l s))
      (record {
        within = leading-le t l;
        fails = leading-fails t l;
        passes = λ x h k. leading-passes t l x s h k;
      })

insert_at :
    (e : Event) (l : List Event)
    → take (leading e.observed_at l) l ++ e ∷ drop (leading e.observed_at l) l ≡ insert_event e l
unfolding leading insert_event
insert_at e [] = refl
insert_at e (d ∷ l) = elim (Bool-cases (leb d.observed_at e.observed_at)) [
  | inl p ↦ rw p (ap (◌∷◌ d) (insert_at e l))
  | inr p ↦ rw p refl
]

pub insert-position :
    (e : Event) (l : List Event)
    → IsSorted l
    → take (position l e.observed_at) l ++ e ∷ drop (position l e.observed_at) l ≡ insert_event e l
insert-position e l s = rw (position-leading l e.observed_at s) (insert_at e l)

All-insert_event :
    (t : ℕ) (e : Event) (l : List Event)
    → t ≤ e.observed_at
    → All (λ d. t ≤ d.observed_at) l
    → All (λ d. t ≤ d.observed_at) (insert_event e l)
unfolding insert_event
All-insert_event t e [] h a = (h, tt)
All-insert_event t e (d ∷ l) h a = ground (arith, All-insert_event t e l h a.1)

pub insert_event-IsSorted : (e : Event) (l : List Event) → IsSorted l → IsSorted (insert_event e l)
unfolding insert_event
insert_event-IsSorted e [] s = (tt, tt)
insert_event-IsSorted e (d ∷ l) s = elim (Bool-cases (leb d.observed_at e.observed_at)) [
  | inl p ↦
      rw p (All-insert_event d.observed_at e l (ground arith) s.0, insert_event-IsSorted e l s.1)
  | inr p ↦ rw p ((ground arith, All-later e.observed_at d.observed_at l (ground arith) s.0), s)
]

pub length-insert_event : (e : Event) (l : List Event) → length (insert_event e l) ≡ suc (length l)
unfolding insert_event
length-insert_event e [] = refl
length-insert_event e (d ∷ l) = ground (arith, length-insert_event e l)
