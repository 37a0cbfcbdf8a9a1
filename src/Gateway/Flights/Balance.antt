-- ===== src/Gateway/Flights/Balance.antt =====
-- Gateway.Flights: the admission limiter counts the requests that are being served.
use secure_edge_platform.Prelude.{
  ℕ, zero, suc, ◌≡◌, ◌⊎◌, inl, inr, refl, sym, ap, subst, ◌∙◌, Bool, true, false, Option, List, [],
  ◌∷◌, map, All, if_elim,
}
use mathlib.Core.Path.{ap₂}
use secure_edge_platform.Prelude.Text.{Str}
use secure_edge_platform.Admission
use secure_edge_platform.Admission.Invariant.{IsValid, run-initial-IsValid, run-initial-no_leak}
use secure_edge_platform.RateLimit
use secure_edge_platform.Gateway.Shape.{Request}
use secure_edge_platform.Gateway.Types.{
  Addresses, Policy, Arrival, Gateway, Verdict, Reply, ServerConfig, Checked,
}
use secure_edge_platform.Gateway.{pass_on, overloaded, deny_violation}
use secure_edge_platform.Gateway.Exits.{Exit, offends, refuses, passes}
use secure_edge_platform.Gateway.Checks.{check-Exit}
use secure_edge_platform.Gateway.Flights.{
  Stage, admitted, over, cleared, Flight, System, Event, arrive, decide, conclude, flight,
  at_flight, arrived, checked, decided, concluded, step, run,
}

unfoldable pub is_over : Stage → Bool
is_over over = true
is_over _ = false

-- A request as the admission limiter sees it, and so the whole.
unfoldable pub handle_of : Flight → Admission.Handle
handle_of x = record { client = x.arrival.client; fired = is_over x.stage }

abbrev pub admissions : {F : Type 0} → System F → Admission.System
admissions s = record { limiter = s.gateway.admission; handles = map handle_of s.flights }

-- What a step of one request does for the limiter: nothing, or its one release.
data Advance {F : Type 0} (g : Gateway F) (x : Flight) (r : Gateway F × Flight) : Type 0 where
  keeps : r.0.admission ≡ g.admission → handle_of r.1 ≡ handle_of x → Advance g x r
  ends :
      is_over x.stage ≡ false
      → r.0.admission ≡ Admission.release g.admission x.arrival.client
      → handle_of r.1 ≡ record (handle_of x) { fired = true }
      → Advance g x r

fire_first :
    (l : Admission.Limiter) (h : Admission.Handle) (hs : List Admission.Handle)
    → h.fired ≡ false
    → Admission.fire l (h ∷ hs) zero
      ≡ record { limiter = Admission.release l h.client; handles = record h { fired = true } ∷ hs }
unfolding Admission.fire
fire_first l h hs e = rw e refl

at_flight-admissions :
    {F : Type 0} (go : Gateway F → Flight → Gateway F × Flight)
    → ((g : Gateway F) (x : Flight) → Advance g x (go g x))
    → (g : Gateway F) (xs : List Flight) (n : ℕ)
    → (admissions (at_flight go g xs n)
        ≡ record { limiter = g.admission; handles = map handle_of xs })
      ⊎ (admissions (at_flight go g xs n) ≡ Admission.fire g.admission (map handle_of xs) n)
unfolding at_flight Admission.fire handle_of
at_flight-admissions go adv g [] n = inl refl
at_flight-admissions go adv g (x ∷ xs) zero = elim (adv g x) [
  | keeps a h ↦ inl (ap₂ (λ l y. record { limiter = l; handles = y ∷ map handle_of xs }) a h)
  | ends o a h ↦ inr (
      ap₂ (λ l y. record { limiter = l; handles = y ∷ map handle_of xs }) a h
      ∙ sym (fire_first g.admission (handle_of x) (map handle_of xs) (unfold handle_of in o)))
]
at_flight-admissions go adv g (x ∷ xs) (suc n) = elim (at_flight-admissions go adv g xs n) [
  | inl e ↦ inl (ap (λ s. record { limiter = s.limiter; handles = handle_of x ∷ s.handles }) e)
  | inr e ↦ inr (ap (λ s. record { limiter = s.limiter; handles = handle_of x ∷ s.handles }) e)
]

module _ (f : RateLimit.Float64) (net : Addresses) (parse : Str → Option Str) (itoa : ℕ → Str)
    (server : ServerConfig) (policy : Policy f.F) where
  open f use {F}

  -- No part of a request but its admission and its release touches the limiter.
  overloaded-admission :
      (g : Gateway F) (a : Arrival) (why : Admission.Reason)
      → (overloaded f net parse g policy a why).0.admission ≡ g.admission
  unfolding overloaded
  overloaded-admission g a Admission.global_concurrency = refl
  overloaded-admission g a Admission.client_concurrency = refl

  pass_on-admission :
      (g : Gateway F) (a : Arrival) (v : Verdict) (req : Request) (limited : Bool)
      → (pass_on f net parse itoa server g policy a v req limited).0.admission ≡ g.admission
  unfolding pass_on
  pass_on-admission g a v req limited =
      if_elim (λ (r : Gateway F × Verdict × Reply). r.0.admission ≡ g.admission) _ _ _ (λ e. refl)
        (λ e. refl)

  checked-Advance :
      (g : Gateway F) (a : Arrival) (s : Stage) (c : Checked F)
      → is_over s ≡ false
      → Exit f net parse policy a g c
      → Advance g (flight a s) (checked f net parse itoa server policy a c)
  unfolding checked deny_violation handle_of is_over
  checked-Advance g a s _ o (offends g' v reply r w i) =
      ends o (ap (λ l. Admission.release l a.client) r.admission) refl
  checked-Advance g a s _ o (refuses g' v reply r w i) =
      ends o (ap (λ l. Admission.release l a.client) r.admission) refl
  checked-Advance g a s _ o (passes g' v req limited r p b) =
      keeps r.admission (ap (λ x. record { client = a.client; fired = x }) (sym o))

  decided-Advance :
      (g : Gateway F) (x : Flight) → Advance g x (decided f net parse itoa server policy g x)
  unfolding decided is_over
  decided-Advance g x = go x.stage
    where
      go :
          (s : Stage)
          → Advance g
              (flight x.arrival s)
              (decided f net parse itoa server policy g (flight x.arrival s))
      go admitted =
          checked-Advance g x.arrival admitted _ refl (check-Exit f net parse policy x.arrival g)
      go over = keeps refl refl
      go (cleared v req limited) = keeps refl refl

  concluded-Advance :
      (g : Gateway F) (x : Flight) → Advance g x (concluded f net parse itoa server policy g x)
  unfolding concluded is_over handle_of
  concluded-Advance g x = go x.stage
    where
      go :
          (s : Stage)
          → Advance g
              (flight x.arrival s)
              (concluded f net parse itoa server policy g (flight x.arrival s))
      go admitted = keeps refl refl
      go over = keeps refl refl
      go (cleared v req limited) =
          ends refl
            (ap (λ l. Admission.release l x.arrival.client)
              (pass_on-admission g x.arrival v req limited))
            refl

  abbrev G : ℕ
  G = server.max_concurrent_requests

  abbrev N : ℕ
  N = server.max_concurrent_per_client

  -- Every step of the gateway is a step of the limiter, or none.
  step-admissions :
      (s : System F) (e : Event)
      → (admissions (step f net parse itoa server policy s e) ≡ admissions s)
        ⊎ ((d : Admission.Event) × (admissions (step f net parse itoa server policy s e)
              ≡ Admission.step G N (admissions s) d))
  unfolding step arrived Admission.step Admission.arrival handle_of is_over
  step-admissions s (arrive a) = inr (Admission.arrive a.client, go _)
    where
      go :
          (o : Admission.Outcome)
          → admissions (arrived f net parse itoa server policy s a o)
            ≡ Admission.arrival (admissions s) a.client o
      go (Admission.rejected why) =
          ap (λ l. record { limiter = l; handles = map handle_of s.flights })
            (overloaded-admission s.gateway a why)
      go (Admission.admitted l) = refl
  step-admissions s (decide n) =
      elim (at_flight-admissions _ decided-Advance s.gateway s.flights n) [
        | inl e ↦ inl e
        | inr e ↦ inr (Admission.finish n, e)
      ]
  step-admissions s (conclude n) =
      elim (at_flight-admissions _ concluded-Advance s.gateway s.flights n) [
        | inl e ↦ inl e
        | inr e ↦ inr (Admission.finish n, e)
      ]

  run-admissions :
      (s : System F) (es : List Event)
      → (ds : List Admission.Event) × (admissions (run f net parse itoa server policy s es)
          ≡ Admission.run G N (admissions s) ds)
  unfolding run Admission.run
  run-admissions s [] = ([], refl)
  run-admissions s (e ∷ es) =
      let (ds, r) = run-admissions (step f net parse itoa server policy s e) es in
      elim (step-admissions s e) [
        | inl q ↦ (ds, r ∙ ap (λ t. Admission.run G N t ds) q)
        | inr (d, q) ↦ (d ∷ ds, r ∙ ap (λ t. Admission.run G N t ds) q)
      ]

  module _ (g : Gateway F) (es : List Event) (fresh : g.admission ≡ Admission.new) where
    abbrev pub after : System F
    after = run f net parse itoa server policy (record { gateway = g; flights = [] }) es

    from_initial :
        (ds : List Admission.Event) × (admissions after ≡ Admission.run G N Admission.initial ds)
    unfolding Admission.initial
    from_initial =
        let (ds, e) = run-admissions (record { gateway = g; flights = [] }) es in
        (ds, e ∙ ap (λ l. Admission.run G N (record { limiter = l; handles = [] }) ds) fresh)

    -- A gateway that starts with a new limiter and serves requests in any interleaving of their
    -- arrivals, checks and ends, whatever becomes of each: the limiter counts exactly the requests
    -- that are not over, of all clients and of each, within both limits.
    pub run_balanced : IsValid G N (admissions after)
    run_balanced =
        let (ds, e) = from_initial in subst (IsValid G N) (sym e) (run-initial-IsValid G N ds)

    -- When all requests are over, the limiter is as new.
    pub run_no_leak :
        All (λ x. is_over x.stage ≡ true) after.flights → after.gateway.admission ≡ Admission.new
    unfolding handle_of
    run_no_leak o =
        let (ds, e) = from_initial in
        ap (λ (s : Admission.System). s.limiter) e
        ∙ run-initial-no_leak G N ds (
            subst
              (λ (s : Admission.System). All (λ (h : Admission.Handle). h.fired ≡ true) s.handles) e
              (handles_over after.flights o))
      where
        handles_over :
            (xs : List Flight)
            → All (λ x. is_over x.stage ≡ true) xs
            → All (λ (h : Admission.Handle). h.fired ≡ true) (map handle_of xs)
        handles_over [] o = tt
        handles_over (x ∷ xs) o = (o.0, handles_over xs o.1)
