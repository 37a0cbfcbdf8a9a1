-- ===== src/Gateway/Flights.antt =====
-- Gateway: requests that are served at the same time. Between admission, the checks and the downstream
-- handler of one request, others run; a request that is over has called the release function.
pub mod Balance
use secure_edge_platform.Prelude.{
  ℕ, zero, suc, Bool, true, false, Option, List, [], ◌∷◌, map, if◌then◌else◌,
}
use secure_edge_platform.Prelude.Text.{Str}
use secure_edge_platform.Admission
use secure_edge_platform.RateLimit
use secure_edge_platform.Gateway.Shape.{Request}
use secure_edge_platform.Gateway.Types.{
  Addresses, Policy, Arrival, Gateway, Verdict, Reply, ServerConfig, Checked, answered, forwarded,
}
use secure_edge_platform.Gateway.{check, pass_on, overloaded}

pub data Stage : Type 0 where
  admitted over : Stage
  cleared : Verdict → Request → Bool → Stage

pub record Flight : Type 0 where
  pub arrival : Arrival
  pub stage : Stage

pub record System (F : Type 0) : Type 0 where
  pub gateway : Gateway F
  pub flights : List Flight

-- A request arrives; the n-th one is checked; the downstream handler of the n-th one returns.
pub data Event : Type 0 where
  arrive : Arrival → Event
  decide conclude : ℕ → Event

abbrev pub flight : Arrival → Stage → Flight
flight a s = record { arrival = a; stage = s }

abbrev pub release_of : {F : Type 0} → Gateway F → Str → Gateway F
release_of g client = record g { admission = Admission.release g.admission client }

-- A change of the gateway and of the n-th request.
unfoldable pub at_flight :
    {F : Type 0}
    → (Gateway F → Flight → Gateway F × Flight)
    → Gateway F
    → List Flight
    → ℕ
    → System F
at_flight go g [] n = record { gateway = g; flights = [] }
at_flight go g (x ∷ xs) zero = let (g', x') = go g x in record { gateway = g'; flights = x' ∷ xs }
at_flight go g (x ∷ xs) (suc n) =
    let rest = at_flight go g xs n in record { gateway = rest.gateway; flights = x ∷ rest.flights }

module _ (f : RateLimit.Float64) (net : Addresses) (parse : Str → Option Str) (itoa : ℕ → Str)
    (server : ServerConfig) (policy : Policy f.F) where
  open f use {F}

  unfoldable pub arrived : System F → Arrival → Admission.Outcome → System F
  arrived s a (Admission.rejected why) = record s {
    gateway = (overloaded f net parse s.gateway policy a why).0;
  }
  arrived s a (Admission.admitted l) = record {
    gateway = record s.gateway { admission = l };
    flights = flight a admitted ∷ s.flights;
  }

  unfoldable pub checked : Arrival → Checked F → Gateway F × Flight
  checked a (answered g v reply) = (release_of g a.client, flight a over)
  checked a (forwarded g v req limited) = (g, flight a (cleared v req limited))

  unfoldable pub decided : Gateway F → Flight → Gateway F × Flight
  unfolding checked
  decided g x = elim x.stage [
    | admitted ↦ checked x.arrival (check f net parse g policy x.arrival)
    | _ ↦ (g, x)
  ]

  unfoldable pub concluded : Gateway F → Flight → Gateway F × Flight
  concluded g x = elim x.stage [
    | cleared v req limited ↦ (
      release_of (pass_on f net parse itoa server g policy x.arrival v req limited).0
          x.arrival.client,
      flight x.arrival over,
    )
    | _ ↦ (g, x)
  ]

  unfoldable pub step : System F → Event → System F
  unfolding arrived at_flight decided concluded
  step s (arrive a) = arrived s a (
      Admission.acquire s.gateway.admission a.client server.max_concurrent_requests
        server.max_concurrent_per_client)
  step s (decide n) = at_flight decided s.gateway s.flights n
  step s (conclude n) = at_flight concluded s.gateway s.flights n

  unfoldable pub run : System F → List Event → System F
  unfolding step
  run s [] = s
  run s (e ∷ es) = run (step s e) es
