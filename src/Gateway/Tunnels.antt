-- ===== src/Gateway/Tunnels.antt =====
-- apps/securityedge/internal/gateway/handler.go: the connections that were taken over, which Close ends.
-- A connection is named by a number of its own; `fired` are those whose sync.Once has run.
pub mod Closing
use secure_edge_platform.Prelude.{
  ℕ, zero, suc, ◌+◌, ◌-◌, ◌≡◌, ◌<◌, ◌≤◌, ◌⊎◌, inl, inr, refl, ap, ◌∙◌, Bool, true, false, not, ◌&&◌,
  ◌||◌, Option, none, some, List, [], ◌∷◌, any, length, ◌==◌, if◌then◌else◌, arith, if_elim,
  Bool-cases,
}

pub record Tunnels : Type 0 where
  pub tunnels : List ℕ
  pub tunnels_closed : Bool
  pub wait_group : ℕ
  pub fired : List ℕ
  pub next : ℕ

abbrev pub has : ℕ → List ℕ → Bool
has c = any (λ d. d == c)

abbrev pub without : ℕ → List ℕ → List ℕ
without c [] = []
without c (d ∷ ds) = if d == c then without c ds else d ∷ without c ds

unfoldable pub track_hijacked_conn : Tunnels → Tunnels × Option ℕ
track_hijacked_conn t = if t.tunnels_closed then (t, none) else (
  record t { tunnels = t.next ∷ t.tunnels; wait_group = t.wait_group + 1; next = t.next + 1 },
  some t.next,
)

unfoldable pub unregister_hijacked_conn : Tunnels → ℕ → Tunnels
unregister_hijacked_conn t c =
    if has c t.tunnels
    then record t { tunnels = without c t.tunnels; wait_group = t.wait_group - 1 }
    else t

-- trackedHijackedConn.Close
unfoldable pub close_conn : Tunnels → ℕ → Tunnels
unfolding unregister_hijacked_conn
close_conn t c =
    if has c t.fired then t else unregister_hijacked_conn (record t { fired = c ∷ t.fired }) c

unfoldable pub close_each : Tunnels → List ℕ → Tunnels
unfolding close_conn
close_each t [] = t
close_each t (c ∷ cs) = close_each (close_conn t c) cs

-- Close up to its wait for the group, which returns when the group is at zero. It unlocks before it
-- closes the connections; what else may run there closes one of them, or is refused.
unfoldable pub close_all : Tunnels → Tunnels
unfolding close_each
close_all t =
    if t.tunnels_closed then t else close_each (record t { tunnels_closed = true }) t.tunnels

pub data Call : Type 0 where
  hijack close : Call
  close_tunnel : ℕ → Call

unfoldable pub step : Tunnels → Call → Tunnels
unfolding track_hijacked_conn close_conn close_all
step t hijack = let (t', conn) = track_hijacked_conn t in t'
step t (close_tunnel c) = if has c t.tunnels || has c t.fired then close_conn t c else t
step t close = close_all t

unfoldable pub run : Tunnels → List Call → Tunnels
unfolding step
run t [] = t
run t (c ∷ cs) = run (step t c) cs

unfoldable pub new_tunnels : Tunnels
new_tunnels = record { tunnels = []; tunnels_closed = false; wait_group = 0; fired = []; next = 0 }
