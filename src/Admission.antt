-- ===== src/Admission.antt =====
-- apps/securityedge/internal/admission/limiter.go: the limits on concurrent requests, over all
-- clients and for each. The mutex makes each call one step. A counter is an int that never falls
-- below zero, as Admission.Invariant shows.
pub mod Invariant
mod Examples
use secure_edge_platform.Prelude.{
  ℕ, ◌+◌, ◌-◌, Bool, true, false, Option, none, some, List, [], ◌∷◌, leb, if◌then◌else◌, length,
  zero, suc,
}
use secure_edge_platform.Prelude.Text.{Str}
use secure_edge_platform.Prelude.Maps.{Map, lookup, insert, delete}

pub record Limiter : Type 0 where
  pub global : ℕ
  pub per_client : Map ℕ

pub record Snapshot : Type 0 where
  pub global_active : ℕ
  pub client_active : Map ℕ
  pub tracked_clients : ℕ

unfoldable pub new : Limiter
new = record { global = 0; per_client = [] }

-- l.perClient[client], zero where the key is missing
abbrev pub or_zero : Option ℕ → ℕ
or_zero none = 0
or_zero (some n) = n

unfoldable pub active : Limiter → Str → ℕ
active l client = or_zero (lookup client l.per_client)

-- Why Acquire refuses: "global_concurrency" or "client_concurrency".
pub data Reason : Type 0 where
  global_concurrency client_concurrency : Reason

pub data Outcome : Type 0 where
  admitted : Limiter → Outcome
  rejected : Reason → Outcome

-- The counters after a request of the client is let in.
unfoldable pub admit : Limiter → Str → Limiter
unfolding active
admit l client = record l {
  global = l.global + 1;
  per_client = insert client (active l client + 1) l.per_client;
}

unfoldable pub acquire : Limiter → Str → ℕ → ℕ → Outcome
unfolding active admit
acquire l client global_limit client_limit =
    if leb global_limit l.global
    then rejected global_concurrency
    else if leb client_limit (active l client)
    then rejected client_concurrency
    else admitted (admit l client)

-- The body of the function that Acquire returns, which sync.Once runs once.
unfoldable pub release : Limiter → Str → Limiter
unfolding active
release l client = record l {
  global = l.global - 1;
  per_client =
      if leb (active l client - 1) 0
      then delete client (insert client (active l client - 1) l.per_client)
      else insert client (active l client - 1) l.per_client;
}

pub snapshot : Limiter → Bool → Snapshot
snapshot l include_clients = record {
  global_active = l.global;
  client_active = if include_clients then l.per_client else [];
  tracked_clients = length l.per_client;
}

-- A call of Acquire that succeeded: its client, and whether its release has run.
pub record Handle : Type 0 where
  pub client : Str
  pub fired : Bool

pub record System : Type 0 where
  pub limiter : Limiter
  pub handles : List Handle

-- A request arrives, or the release function of the n-th admitted request is called, perhaps again.
pub data Event : Type 0 where
  arrive : Str → Event
  finish : ℕ → Event

unfoldable pub arrival : System → Str → Outcome → System
arrival s client (rejected r) = s
arrival s client (admitted l) = record {
  limiter = l;
  handles = record { client = client; fired = false } ∷ s.handles;
}

-- once.Do: the first call alone runs the body.
unfoldable pub fire : Limiter → List Handle → ℕ → System
fire l [] n = record { limiter = l; handles = [] }
fire l (h ∷ hs) zero =
    if h.fired
    then record { limiter = l; handles = h ∷ hs }
    else record { limiter = release l h.client; handles = record h { fired = true } ∷ hs }
fire l (h ∷ hs) (suc n) =
    let rest = fire l hs n in record { limiter = rest.limiter; handles = h ∷ rest.handles }

unfoldable pub step : ℕ → ℕ → System → Event → System
unfolding arrival fire
step global_limit client_limit s (arrive client) =
    arrival s client (acquire s.limiter client global_limit client_limit)
step global_limit client_limit s (finish n) = fire s.limiter s.handles n

unfoldable pub run : ℕ → ℕ → System → List Event → System
run global_limit client_limit s [] = s
run global_limit client_limit s (e ∷ es) =
    run global_limit client_limit (step global_limit client_limit s e) es

unfoldable pub initial : System
unfolding new
initial = record { limiter = new; handles = [] }
