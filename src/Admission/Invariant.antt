-- ===== src/Admission/Invariant.antt =====
-- Admission: the counters are the numbers of requests under way, within their limits, and a release
-- that runs twice counts once.
use secure_edge_platform.Prelude.{
  ℕ, zero, suc, ◌+◌, ◌-◌, ◌≤◌, ◌<◌, ◌≡◌, refl, ap, sym, subst, ◌∙◌, ◌⊎◌, inl, inr, true, false,
  Option, none, some, List, [], ◌∷◌, arith, leb, if◌then◌else◌, Bool-cases, All,
}
use mathlib.Core.Logic.{ite}
use mathlib.Core.Path.{ap₂, subst₂}
use secure_edge_platform.Prelude.Text.{Str, str_dec}
use secure_edge_platform.Prelude.Maps.{Map, lookup, insert, lookup-insert, lookup-delete}
use secure_edge_platform.Admission.{
  Limiter, Handle, System, Event, arrive, finish, admitted, rejected, active, admit, acquire,
  release, arrival, fire, step, run, initial, new, or_zero, global_concurrency, client_concurrency,
}

-- The requests under way: of every client, and of one.
unfoldable pub under_way : List Handle → ℕ
under_way [] = 0
under_way (h ∷ hs) = (if h.fired then 0 else 1) + under_way hs

unfoldable pub under_way_of : Str → List Handle → ℕ
under_way_of k [] = 0
under_way_of k (h ∷ hs) = (if h.fired then 0 else ite (str_dec h.client k) 1 0) + under_way_of k hs

abbrev pub entry : ℕ → Option ℕ
entry zero = none
entry (suc n) = some (suc n)

-- The limiter counts exactly the requests under way, with no entry for a client that has none.
pub record Counts (l : Limiter) (hs : List Handle) : Type 0 where
  pub global : l.global ≡ under_way hs
  pub clients : (k : Str) → lookup k l.per_client ≡ entry (under_way_of k hs)

pub record IsBounded (global_limit client_limit : ℕ) (hs : List Handle) : Type 0 where
  pub global : under_way hs ≤ global_limit
  pub clients : (k : Str) → under_way_of k hs ≤ client_limit

initial-Counts : Counts initial.limiter initial.handles
unfolding initial new under_way under_way_of lookup
initial-Counts = record { global = refl; clients = λ k. refl }

active-under_way_of :
    (l : Limiter) (hs : List Handle) (k : Str) → Counts l hs → active l k ≡ under_way_of k hs
unfolding active
active-under_way_of l hs k c = rw (c.clients k) (or_zero-entry (under_way_of k hs))
  where
    or_zero-entry : (n : ℕ) → or_zero (entry n) ≡ n
    or_zero-entry zero = refl
    or_zero-entry (suc n) = refl

entry-add-one : (n : ℕ) → entry (n + 1) ≡ some (n + 1)
entry-add-one n = ground arith

abbrev started : Str → Handle
started k = record { client = k; fired = false }

admit-Counts :
    (l : Limiter) (hs : List Handle) (k : Str) → Counts l hs → Counts (admit l k) (started k ∷ hs)
unfolding admit under_way under_way_of
admit-Counts l hs k c = record {
  global = omega (arith, c.global);
  clients = λ j. ground (
    arith,
    lookup-insert k j (active l k + 1) l.per_client,
    active-under_way_of l hs k c,
    c.clients j,
    entry-add-one (under_way_of k hs),
  );
}

-- What a call of a release function does: nothing, or one request of one client ends.
data Fired (l : Limiter) (hs : List Handle) (s : System) : Type 0 where
  again : s.limiter ≡ l → s.handles ≡ hs → Fired l hs s
  ended :
      (k : Str)
      → s.limiter ≡ release l k
      → under_way hs ≡ under_way s.handles + 1
      → ((j : Str) → under_way_of j hs ≡ under_way_of j s.handles + ite (str_dec k j) 1 0)
      → Fired l hs s

fire-Fired : (l : Limiter) (hs : List Handle) (n : ℕ) → Fired l hs (fire l hs n)
unfolding fire
fire-Fired l [] n = again refl refl
fire-Fired l (h ∷ hs) zero = elim (Bool-cases h.fired) [
  | inl e ↦ rw e (again refl refl)
  | inr e ↦ rw e (
      unfold under_way under_way_of in
      ended h.client refl (ground (arith, e)) (λ j. ground (arith, e)))
]
fire-Fired l (h ∷ hs) (suc n) = elim (fire-Fired l hs n) [
  | again e f ↦ again e (ap (◌∷◌ h) f)
  | ended k e f g ↦
      ended k e (unfold under_way in omega (arith, f))
        (λ j. unfold under_way_of in omega (arith, g j))
]

-- The counters after a release, given what remains.
release-Counts :
    (l : Limiter) (hs hs' : List Handle) (k : Str)
    → Counts l hs
    → under_way hs ≡ under_way hs' + 1
    → ((j : Str) → under_way_of j hs ≡ under_way_of j hs' + ite (str_dec k j) 1 0)
    → Counts (release l k) hs'
unfolding release
release-Counts l hs hs' k c e f = record {
  global = omega (arith, c.global, e);
  clients = λ j. client j (under_way_of k hs') refl (under_way_of j hs') refl;
}
  where
    now_active : active l k ≡ under_way_of k hs' + 1
    now_active = active-under_way_of l hs k c ∙ f k ∙ ground arith

    client :
        (j : Str) (n : ℕ)
        → under_way_of k hs' ≡ n
        → (m : ℕ) → under_way_of j hs' ≡ m
        → lookup j (release l k).per_client ≡ entry (under_way_of j hs')
    client j n p m q = ground (
      arith,
      now_active,
      p,
      q,
      c.clients j,
      f j,
      lookup-delete k j (insert k (active l k - 1) l.per_client),
      lookup-insert k j (active l k - 1) l.per_client,
    )

-- The limiter and the handles of a system that runs under two fixed limits.
pub record IsValid (global_limit client_limit : ℕ) (s : System) : Type 0 where
  pub counts : Counts s.limiter s.handles
  pub bounded : IsBounded global_limit client_limit s.handles

arrive-IsValid :
    (g n : ℕ) (s : System) (k : Str)
    → IsValid g n s
    → IsValid g n (arrival s k (acquire s.limiter k g n))
unfolding arrival acquire
arrive-IsValid g n s k v = elim (Bool-cases (leb g s.limiter.global)) [
  | inl full ↦ rw full v
  | inr free ↦ rw free (within free (Bool-cases (leb n (active s.limiter k))))
]
  where
    within :
        leb g s.limiter.global ≡ false
        → (leb n (active s.limiter k) ≡ true) ⊎ (leb n (active s.limiter k) ≡ false)
        → IsValid g n (
            arrival s k (
              if leb n (active s.limiter k)
              then rejected client_concurrency
              else admitted (admit s.limiter k)))
    within free (inl busy) = rw busy v
    within free (inr idle) = rw idle (record {
      counts = admit-Counts s.limiter s.handles k v.counts;
      bounded = record {
        global = unfold under_way in ground (arith, v.counts.global);
        clients = λ j.
            unfold under_way_of in
            ground (arith, active-under_way_of s.limiter s.handles k v.counts, v.bounded.clients j);
      };
    })

finish-IsValid :
    (g n : ℕ) (s : System) (i : ℕ) → IsValid g n s → IsValid g n (fire s.limiter s.handles i)
finish-IsValid g n s i v = go (fire s.limiter s.handles i) (fire-Fired s.limiter s.handles i)
  where
    go : (t : System) → Fired s.limiter s.handles t → IsValid g n t
    go t (again e f) =
        subst₂ (λ l hs. IsValid g n (record { limiter = l; handles = hs })) (sym e) (sym f) v
    go t (ended k e f h) =
        subst (λ l. IsValid g n (record { limiter = l; handles = t.handles })) (sym e)
          (record {
            counts = release-Counts s.limiter s.handles t.handles k v.counts f h;
            bounded = record {
              global = omega (arith, f, v.bounded.global);
              clients = λ j. omega (arith, h j, v.bounded.clients j);
            };
          })

step-IsValid : (g n : ℕ) (s : System) (e : Event) → IsValid g n s → IsValid g n (step g n s e)
unfolding step
step-IsValid g n s (arrive k) v = arrive-IsValid g n s k v
step-IsValid g n s (finish i) v = finish-IsValid g n s i v

run-IsValid : (g n : ℕ) (s : System) (es : List Event) → IsValid g n s → IsValid g n (run g n s es)
unfolding run
run-IsValid g n s [] v = v
run-IsValid g n s (e ∷ es) v = run-IsValid g n (step g n s e) es (step-IsValid g n s e v)

-- However requests arrive and end, in any order and with releases called twice, the counters are
-- those of the requests under way, never more than `g` in all and `n` for a client.
pub run-initial-IsValid : (g n : ℕ) (es : List Event) → IsValid g n (run g n initial es)
run-initial-IsValid g n es = run-IsValid g n initial es (record {
  counts = initial-Counts;
  bounded =
      unfold initial under_way under_way_of in
      record { global = omega arith; clients = λ k. omega arith };
})

All-fired-zero :
    (hs : List Handle)
    → All (λ h. h.fired ≡ true) hs
    → (under_way hs ≡ 0) × ((k : Str) → under_way_of k hs ≡ 0)
unfolding under_way under_way_of
All-fired-zero [] a = (refl, λ k. refl)
All-fired-zero (h ∷ hs) a =
    let (p, q) = All-fired-zero hs a.1 in (ground (arith, a.0), λ k. ground (arith, a.0, q k))

empty_of_lookup : (m : Map ℕ) → ((k : Str) → lookup k m ≡ none) → m ≡ []
unfolding lookup
empty_of_lookup [] h = refl
empty_of_lookup ((k, v) ∷ m) h = absurd (ground (arith, h k))

-- When every admitted request has ended, the limiter is as it was at first.
pub run-initial-no_leak :
    (g n : ℕ) (es : List Event)
    → All (λ h. h.fired ≡ true) (run g n initial es).handles
    → (run g n initial es).limiter ≡ new
unfolding new
run-initial-no_leak g n es a =
    let v = run-initial-IsValid g n es in
    let (p, q) = All-fired-zero (run g n initial es).handles a in
    ap₂ (λ x y. record { global = x; per_client = y }) (v.counts.global ∙ p)
      (empty_of_lookup _ (λ k. v.counts.clients k ∙ ap entry (q k)))

-- Acquire refuses a request exactly when a limit is reached, and then leaves every counter alone: it
-- tests the limit on all clients first.
acquire_lem :
    (l : Limiter) (k : Str) (g n : ℕ)
    → (acquire l k g n ≡ rejected global_concurrency) × (g ≤ l.global)
      ⊎ (acquire l k g n ≡ rejected client_concurrency) × (l.global < g) × (n ≤ active l k)
      ⊎ (acquire l k g n ≡ admitted (admit l k)) × (l.global < g) × (active l k < n)
unfolding acquire
acquire_lem l k g n = ground arith
