-- ===== src/Admission/Examples.antt =====
-- Admission: tests at concrete inputs.
use secure_edge_platform.Prelude.{◌≡◌, refl, true, List, [], ◌∷◌, All}
use secure_edge_platform.Prelude.Text.{codes, str_dec}
use secure_edge_platform.Prelude.Maps.{lookup, insert, delete}
use secure_edge_platform.Admission.{
  Event, arrive, finish, Handle, run, step, initial, new, acquire, active, admit, release, arrival,
  fire,
}
use secure_edge_platform.Admission.Invariant.{IsValid, run-initial-IsValid}

program : Unit {0}
unfolding run step initial new acquire active admit release arrival fire lookup insert delete
    str_dec
program = tt

-- The second request of "a" is refused, and the release of the first is called twice.
abbrev events : List Event
events =
    arrive (codes "a")
    ∷ arrive (codes "a")
    ∷ arrive (codes "b")
    ∷ finish 0
    ∷ finish 0
    ∷ finish 1
    ∷ []

two_admitted :
    (run 2 1 initial
      (arrive (codes "a") ∷ arrive (codes "a") ∷ arrive (codes "b") ∷ [])).limiter.global
    ≡ 2
unfolding program
two_admitted = refl

All-fired : All (λ (h : Handle). h.fired ≡ true) (run 2 1 initial events).handles
unfolding program
All-fired = (refl, (refl, tt))

run-initial-IsValid_example : IsValid 2 1 (run 2 1 initial events)
run-initial-IsValid_example = run-initial-IsValid 2 1 events
