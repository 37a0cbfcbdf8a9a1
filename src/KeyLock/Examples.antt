-- ===== src/KeyLock/Examples.antt =====
-- KeyLock: tests at concrete inputs.
use secure_edge_platform.Prelude.{ℕ, ◌≡◌, ◌⊎◌, refl, true, false, none, some, [], get_elem?}
use secure_edge_platform.Prelude.Text.{Str, codes, str_dec}
use secure_edge_platform.Prelude.Maps.{lookup, insert, delete}
use secure_edge_platform.KeyLock.{
  System, Reach, start, arrive, move, Move, acquire, unlock, depart, initial, new_key_locker,
  entered, moved, left, enter, find_or_create, add_ref, set_held, leave, caller, holding, unlocked,
}
use secure_edge_platform.KeyLock.Invariant.{IsConsistent, Reach-IsConsistent, mutual_exclusion}
use secure_edge_platform.KeyLock.Progress.{
  steps_left, no_deadlock, Moves, done, then_move, all_leave,
}

program : Unit {0}
unfolding new_key_locker initial moved left enter find_or_create add_ref set_held leave lookup
    insert delete str_dec
program = tt

-- Two callers with the key "a", the first of them with the lock.
abbrev one_waits : System
unfolding enter initial
one_waits = moved (entered (entered initial (codes "a")) (codes "a")) 1 (codes "a") 0 true holding

Reach-one_waits : Reach one_waits
unfolding program
Reach-one_waits =
    move (arrive (arrive start (codes "a")) (codes "a")) (acquire 1 (codes "a") 0 refl refl)

-- Then the first unlocks, the second gets the lock, and both leave.
abbrev one_unlocked : System
one_unlocked = moved one_waits 1 (codes "a") 0 false unlocked

abbrev second_holds : System
second_holds = moved one_unlocked 0 (codes "a") 0 true holding

abbrev none_left : System
none_left =
    left (left (moved second_holds 0 (codes "a") 0 false unlocked) 1 (codes "a") 0) 0 (codes "a") 0

gets_lock : Move one_unlocked second_holds
unfolding program
gets_lock = acquire 0 (codes "a") 0 refl refl

Moves-none_left : Moves one_waits none_left 5
unfolding program
Moves-none_left =
    then_move
      (then_move
        (then_move (then_move (then_move done (unlock 1 (codes "a") 0 refl)) gets_lock)
          (unlock 0 (codes "a") 0 refl))
        (depart 1 (codes "a") 0 refl))
      (depart 0 (codes "a") 0 refl)

Reach-none_left : Reach none_left
unfolding program
Reach-none_left =
    move
      (move
        (move (move (move Reach-one_waits (unlock 1 (codes "a") 0 refl)) gets_lock)
          (unlock 0 (codes "a") 0 refl))
        (depart 1 (codes "a") 0 refl))
      (depart 0 (codes "a") 0 refl)

shared_lock : lookup (codes "a") one_waits.locker.locks ≡ some 0
unfolding program
shared_lock = refl

Reach-IsConsistent_example : IsConsistent one_waits.locker one_waits.callers
Reach-IsConsistent_example = Reach-IsConsistent Reach-one_waits

mutual_exclusion_example : ◌≡◌ {A = ℕ} 1 1
unfolding program
mutual_exclusion_example = mutual_exclusion Reach-one_waits 1 1 (codes "a") 0 0 refl refl

no_deadlock_example :
    Move one_waits (moved one_waits 0 (codes "a") 0 true holding)
    ⊎ ((m : ℕ) × (get_elem? one_waits.callers m ≡ some (caller (codes "a") 0 holding))
        × Move one_waits (moved one_waits m (codes "a") 0 false unlocked))
unfolding program
no_deadlock_example = no_deadlock Reach-one_waits 0 (codes "a") 0 refl

all_leave_example :
    (t : System) × Moves one_waits t (steps_left one_waits.callers)
    × (t.callers ≡ [])
    × ((key : Str) → lookup key t.locker.locks ≡ none)
all_leave_example = all_leave Reach-one_waits
