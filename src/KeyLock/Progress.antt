-- ===== src/KeyLock/Progress.antt =====
-- KeyLock: no caller waits for ever while the others keep moving.
use secure_edge_platform.Prelude.{
  ℕ, zero, suc, ◌+◌, ◌≡◌, ◌⊎◌, refl, ap, sym, subst, ◌∙◌, true, false, none, some, List, [], ◌∷◌,
  arith, get_elem?, Bool-cases, inl, inr, ◌≢◌,
}
use secure_edge_platform.Prelude.Text.{Str}
use secure_edge_platform.Prelude.Maps.{lookup}
use secure_edge_platform.KeyLock.{
  Phase, waiting, holding, unlocked, Caller, System, set_at, remove_at, caller, moved, left, Move,
  acquire, unlock, depart, Reach, move,
}
use secure_edge_platform.KeyLock.Counting.{holds, is_holding, count-find, All-get_elem}
use secure_edge_platform.KeyLock.Invariant.{
  Knows, IsConsistent, Reach-IsConsistent, known_at, no_locks_left,
}

-- The steps that a caller has left, and all of them.
abbrev pub steps_of : Phase → ℕ
steps_of waiting = 3
steps_of holding = 2
steps_of unlocked = 1

abbrev pub steps_left : List Caller → ℕ
steps_left [] = 0
steps_left (c ∷ cs) = steps_of c.phase + steps_left cs

steps_left-set_at :
    (n : ℕ) (c d : Caller) (cs : List Caller)
    → get_elem? cs n ≡ some c
    → steps_left (set_at n d cs) + steps_of c.phase ≡ steps_left cs + steps_of d.phase
steps_left-set_at n c d [] h = absurd (ground (arith, h))
steps_left-set_at zero c d (e ∷ cs) h = ground (arith, h)
steps_left-set_at (suc n) c d (e ∷ cs) h = omega (arith, steps_left-set_at n c d cs h)

steps_left-remove_at :
    (n : ℕ) (c : Caller) (cs : List Caller)
    → get_elem? cs n ≡ some c
    → steps_left (remove_at n cs) + steps_of c.phase ≡ steps_left cs
steps_left-remove_at n c [] h = absurd (ground (arith, h))
steps_left-remove_at zero c (e ∷ cs) h = ground (arith, h)
steps_left-remove_at (suc n) c (e ∷ cs) h = omega (arith, steps_left-remove_at n c cs h)

-- Each step brings the callers one nearer to the end, so that the callers of a state make exactly
-- `steps_left` steps, in whatever order, before all have left.
pub Move-steps_left : {s t : System} → Move s t → steps_left s.callers ≡ steps_left t.callers + 1
unfolding moved left
Move-steps_left {s} (acquire n key a at_n free) =
    omega (arith, steps_left-set_at n (caller key a waiting) (caller key a holding) s.callers at_n)
Move-steps_left {s} (unlock n key a at_n) =
    omega (arith, steps_left-set_at n (caller key a holding) (caller key a unlocked) s.callers at_n)
Move-steps_left {s} (depart n key a at_n) =
    omega (arith, steps_left-remove_at n (caller key a unlocked) s.callers at_n)

caller_eq :
    (c : Caller) (key : Str) (a : ℕ)
    → c.key ≡ key
    → c.lock ≡ a
    → is_holding c.phase ≡ true
    → c ≡ caller key a holding
caller_eq c key a k l h = go c.phase refl h
  where
    go : (p : Phase) → c.phase ≡ p → is_holding p ≡ true → c ≡ caller key a holding
    go holding e h = rw (sym k, sym l, sym e) refl
    go waiting e h = absurd (ground (arith, h))
    go unlocked e h = absurd (ground (arith, h))

-- No deadlock for a key: while a caller waits for the key's lock, it can get it at once, or a caller
-- with the same key holds it, which can unlock. Callers with other keys are not in the way.
pub no_deadlock :
    {s : System}
    → Reach s
    → (n : ℕ) (key : Str) (a : ℕ) → get_elem? s.callers n ≡ some (caller key a waiting)
    → Move s (moved s n key a true holding)
      ⊎ ((m : ℕ) × (get_elem? s.callers m ≡ some (caller key a holding))
          × Move s (moved s m key a false unlocked))
no_deadlock {s} r n key a at_n = elim (Bool-cases (s.locker.store a).held) [
  | inr free ↦ inl (acquire n key a at_n free)
  | inl busy ↦
      let (m, c, at_m, h) = count-find (holds a) s.callers (ground (arith, busy, v.held a)) in
      inr (m, at c m at_m h, unlock m key a (at c m at_m h))
]
  where
    v : IsConsistent s.locker s.callers
    v = Reach-IsConsistent r

    at :
        (c : Caller) (m : ℕ)
        → get_elem? s.callers m ≡ some c
        → holds a c ≡ true
        → get_elem? s.callers m ≡ some (caller key a holding)
    at c m at_m h =
        let l : c.lock ≡ a = ground (arith, h) in
        let k =
          v.unshared c.key key a
            (All-get_elem (Knows s.locker.locks) m c s.callers v.known at_m ∙ ap some l)
            (known_at v n key a at_n) in
        at_m ∙ ap some (caller_eq c key a k l (ground (arith, h)))

-- While calls are under way, one of them can move.
can_move : {s : System} → Reach s → s.callers ≢ [] → (t : System) × Move s t
can_move {s} r some_left = go s.callers refl
  where
    from :
        (c : Caller)
        → get_elem? s.callers 0 ≡ some c
        → (p : Phase) → c.phase ≡ p
        → (t : System) × Move s t
    from c h waiting e = elim (no_deadlock r 0 c.key c.lock (rw (sym e) h)) [
      | inl m ↦ (_, m)
      | inr (i, at_i, m) ↦ (_, m)
    ]
    from c h holding e = (_, unlock 0 c.key c.lock (rw (sym e) h))
    from c h unlocked e = (_, depart 0 c.key c.lock (rw (sym e) h))

    go : (cs : List Caller) → s.callers ≡ cs → (t : System) × Move s t
    go [] e = absurd (some_left e)
    go (c ∷ cs) e = from c (ap (λ l. get_elem? l 0) e) c.phase refl

-- Moves of the callers one after the other, with no new call.
pub data Moves (s : System) : System → ℕ → Type 0 where
  done : Moves s s 0
  then_move : {t u : System} {n : ℕ} → Moves s t n → Move t u → Moves s u (suc n)

-- Without new calls the callers stop: each sequence of moves uses up as many of the steps that were
-- left as it is long, so none is longer.
pub Moves-steps_left :
    {s t : System} {n : ℕ} → Moves s t n → steps_left t.callers + n ≡ steps_left s.callers
Moves-steps_left done = omega arith
Moves-steps_left (then_move ms m) = omega (arith, Moves-steps_left ms, Move-steps_left m)

none_left : (cs : List Caller) → steps_left cs ≡ 0 → cs ≡ []
none_left [] h = refl
none_left (c ∷ cs) h = absurd (go c.phase (omega (arith, h)))
  where
    go : (p : Phase) → steps_of p ≡ 0 → ⊥
    go waiting e = omega (arith, e)
    go holding e = omega (arith, e)
    go unlocked e = omega (arith, e)

drained :
    (fuel : ℕ) {s t : System} {n : ℕ}
    → Reach t
    → Moves s t n
    → steps_left t.callers ≡ fuel
    → (u : System) × Reach u × Moves s u (fuel + n) × (u.callers ≡ [])
drained zero {s} {t} r ms e = (t, r, subst (Moves s t) (omega arith) ms, none_left t.callers e)
drained (suc f) {s} {t} {n} r ms e =
    let (u, m) = can_move r (λ nil. absurd (omega (arith, e, ap steps_left nil))) in
    let (w, r', ms', end) =
      drained f (move r m) (then_move ms m) (omega (arith, e, Move-steps_left m)) in
    (w, r', subst (Moves s w) (omega arith) ms', end)

-- From every state that can be reached, the calls under way can all come to their end: there is a
-- sequence of moves, as long as the steps that were left, after which no call is left and the table
-- of locks is empty.
pub all_leave :
    {s : System}
    → Reach s
    → (t : System) × Moves s t (steps_left s.callers)
      × (t.callers ≡ [])
      × ((key : Str) → lookup key t.locker.locks ≡ none)
all_leave {s} r =
    let (t, r', ms, end) = drained (steps_left s.callers) r done refl in
    (t, subst (Moves s t) (omega arith) ms, end, no_locks_left r' end)
