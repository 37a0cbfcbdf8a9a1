-- ===== src/KeyLock/Invariant.antt =====
-- KeyLock: what holds whenever callers have arrived and moved in any order.
use secure_edge_platform.Prelude.{
  ℕ, ◌+◌, ◌-◌, ◌≡◌, ◌<◌, ◌≤◌, refl, ap, Bool, true, false, none, some, List, [], ◌∷◌, ◌==◌, arith,
  if◌then◌else◌, get_elem?, All, Bool-cases, Option-cases, inl, inr,
}
use secure_edge_platform.Prelude.Text.{Str}
use secure_edge_platform.Prelude.Maps.{Map, lookup, insert, delete, lookup-insert, lookup-delete}
use secure_edge_platform.KeyLock.{
  KeyLocker, new_key_locker, with_refs, find_or_create, add_ref, enter, set_held, leave, Phase,
  waiting, holding, unlocked, Caller, System, initial, set_at, remove_at, caller, entered, moved,
  left, Move, acquire, unlock, depart, Reach, start, arrive, move,
}
use secure_edge_platform.KeyLock.Counting.{
  bit, count, is_holding, uses, holds, count-set_at, count-remove_at, count-pos, count-one,
  count-zero-All, All-count-zero, All-get_elem, All-set_at, All-remove_at, All-map₂,
}

abbrev pub Knows : Map ℕ → Caller → Type 0
Knows locks c = lookup c.key locks ≡ some c.lock

-- The references of a lock are its callers, it is held if one of them has it, and the table has an
-- entry exactly for each key in use, with a lock of its own.
pub record IsConsistent (k : KeyLocker) (cs : List Caller) : Type 0 where
  pub refs : (a : ℕ) → (k.store a).refs ≡ count (uses a) cs
  pub held : (a : ℕ) → bit (k.store a).held ≡ count (holds a) cs
  pub known : All (Knows k.locks) cs
  pub used : (key : Str) (a : ℕ) → lookup key k.locks ≡ some a → 0 < count (uses a) cs
  pub allocated : (key : Str) (a : ℕ) → lookup key k.locks ≡ some a → a < k.next
  pub unshared :
      (key key' : Str) (a : ℕ)
      → lookup key k.locks ≡ some a
      → lookup key' k.locks ≡ some a
      → key ≡ key'

initial-IsConsistent : IsConsistent initial.locker initial.callers
unfolding initial new_key_locker lookup
initial-IsConsistent = record {
  refs = λ a. refl;
  held = λ a. refl;
  known = tt;
  used = λ key a h. absurd (ground (arith, h));
  allocated = λ key a h. absurd (ground (arith, h));
  unshared = λ key key' a h. absurd (ground (arith, h));
}

module _ {k : KeyLocker} {cs : List Caller} (v : IsConsistent k cs) where
  -- No caller uses an address that has not been allocated.
  unallocated : (a : ℕ) → k.next ≤ a → count (uses a) cs ≡ 0
  unallocated a h = All-count-zero (uses a) cs (go cs v.known)
    where
      go : (l : List Caller) → All (Knows k.locks) l → All (λ c. uses a c ≡ false) l
      go [] w = tt
      go (c ∷ l) w = (ground (arith, v.allocated c.key c.lock w.0, h), go l w.1)

  add_ref-IsConsistent :
      (key : Str) (a : ℕ)
      → lookup key k.locks ≡ some a
      → IsConsistent (add_ref k a) (caller key a waiting ∷ cs)
  unfolding add_ref
  add_ref-IsConsistent key a h = record {
    refs = λ b. ground (arith, v.refs a, v.refs b);
    held = λ b. ground (arith, v.held a, v.held b);
    known = (h, v.known);
    used = λ j b g. omega (arith, v.used j b g);
    allocated = v.allocated;
    unshared = v.unshared;
  }

  holds-le-uses : (a : ℕ) (l : List Caller) → count (holds a) l ≤ count (uses a) l
  holds-le-uses a [] = omega arith
  holds-le-uses a (c ∷ l) = ground (arith, holds-le-uses a l)

  create-IsConsistent :
      (key : Str)
      → lookup key k.locks ≡ none
      → IsConsistent (add_ref (find_or_create k key none).0 k.next) (caller key k.next waiting ∷ cs)
  unfolding add_ref find_or_create
  create-IsConsistent key h = record {
    refs = λ b. ground (arith, v.refs b, unallocated k.next (omega arith));
    held = λ b. ground (arith, v.held b, unallocated k.next (omega arith), holds-le-uses k.next cs);
    known = (
      ground (arith, lookup-insert key key k.next k.locks),
      All-map₂ (Knows k.locks) (Knows k.locks) (Knows (insert key k.next k.locks)) cs
          (λ c p q. ground (arith, p, h, lookup-insert key c.key k.next k.locks)) v.known v.known,
    );
    used = λ j b g. ground (arith, g, lookup-insert key j k.next k.locks, v.used j b);
    allocated = λ j b g. ground (arith, g, lookup-insert key j k.next k.locks, v.allocated j b);
    unshared = λ i j b f g. ground (
      arith,
      f,
      g,
      lookup-insert key i k.next k.locks,
      lookup-insert key j k.next k.locks,
      v.allocated i b,
      v.allocated j b,
      v.unshared i j b,
    );
  }

  module _ (n : ℕ) (key : Str) (a : ℕ) where
    -- To get the lock, or to give it back: a step between two phases that agree with the mutex.
    moved-IsConsistent :
        (p q : Phase) (b : Bool)
        → get_elem? cs n ≡ some (caller key a p)
        → (k.store a).held ≡ is_holding p
        → b ≡ is_holding q
        → IsConsistent (set_held b k a) (set_at n (caller key a q) cs)
    unfolding set_held
    moved-IsConsistent p q b at_n was now = record {
      refs = λ c. ground (
        arith,
        v.refs c,
        v.refs a,
        count-set_at (uses c) n (caller key a p) (caller key a q) cs at_n,
      );
      held = λ c. ground (
        arith,
        v.held c,
        v.held a,
        was,
        now,
        count-set_at (holds c) n (caller key a p) (caller key a q) cs at_n,
      );
      known =
          All-set_at (Knows k.locks) n (caller key a q) cs v.known
            (All-get_elem (Knows k.locks) n (caller key a p) cs v.known at_n);
      used = λ j c g.
          ground (
            arith,
            v.used j c g,
            count-set_at (uses c) n (caller key a p) (caller key a q) cs at_n,
          );
      allocated = v.allocated;
      unshared = v.unshared;
    }

    -- Of a caller that holds a lock, the mutex is locked.
    holding-held : get_elem? cs n ≡ some (caller key a holding) → (k.store a).held ≡ true
    holding-held at_n =
        ground
          (arith, v.held a, count-pos (holds a) n (caller key a holding) cs at_n (ground arith))

    pub known_at :
        {p : Phase} → get_elem? cs n ≡ some (caller key a p) → lookup key k.locks ≡ some a
    known_at {p} at_n = All-get_elem (Knows k.locks) n (caller key a p) cs v.known at_n

    leave-IsConsistent :
        get_elem? cs n ≡ some (caller key a unlocked)
        → IsConsistent (leave k key a) (remove_at n cs)
    unfolding leave
    leave-IsConsistent at_n = elim (Bool-cases ((k.store a).refs - 1 == 0)) [
      | inl e ↦ rw e (record {
        refs = counted;
        held = locked;
        known =
            All-map₂ (Knows k.locks) (λ c. uses a c ≡ false) (Knows (delete key k.locks))
              (remove_at n cs)
              (λ c p q. ground (arith, p, q, known_at at_n, lookup-delete key c.key k.locks))
              (All-remove_at (Knows k.locks) n cs v.known)
              (count-zero-All (uses a) (remove_at n cs) (ground (arith, e, v.refs a, fewer a)));
        used = λ j b g. ground (
          arith,
          g,
          lookup-delete key j k.locks,
          v.used j b,
          fewer b,
          v.unshared key j b,
          known_at at_n,
        );
        allocated = λ j b g. ground (arith, g, lookup-delete key j k.locks, v.allocated j b);
        unshared = λ i j b f g. ground (
          arith,
          f,
          g,
          lookup-delete key i k.locks,
          lookup-delete key j k.locks,
          v.unshared i j b,
        );
      })
      | inr e ↦ rw e (record {
        refs = counted;
        held = locked;
        known = All-remove_at (Knows k.locks) n cs v.known;
        used = λ j b g. ground (arith, v.used j b g, fewer b, e, v.refs a);
        allocated = v.allocated;
        unshared = v.unshared;
      })
    ]
      where
        fewer : (b : ℕ) → count (uses b) (remove_at n cs) + bit (a == b) ≡ count (uses b) cs
        fewer b = count-remove_at (uses b) n (caller key a unlocked) cs at_n

        counted :
            (b : ℕ)
            → (if b == a then with_refs ((k.store a).refs - 1) (k.store a) else k.store b).refs
              ≡ count (uses b) (remove_at n cs)
        counted b = ground (arith, v.refs a, v.refs b, fewer b)

        locked :
            (b : ℕ)
            → bit (if b == a then with_refs ((k.store a).refs - 1) (k.store a) else k.store b).held
              ≡ count (holds b) (remove_at n cs)
        locked b =
            ground (
              arith,
              v.held a,
              v.held b,
              count-remove_at (holds b) n (caller key a unlocked) cs at_n,
            )

entered-IsConsistent :
    (s : System) (key : Str)
    → IsConsistent s.locker s.callers
    → IsConsistent (entered s key).locker (entered s key).callers
unfolding enter
entered-IsConsistent s key v = elim (Option-cases (lookup key s.locker.locks)) [
  | inl e ↦ rw e (create-IsConsistent v key e)
  | inr (a, e) ↦ rw e (unfold find_or_create in add_ref-IsConsistent v key a e)
]

Move-IsConsistent :
    (s t : System) → Move s t → IsConsistent s.locker s.callers → IsConsistent t.locker t.callers
unfolding moved left set_held leave
Move-IsConsistent s t (acquire n key a at_n free) v =
    moved-IsConsistent v n key a waiting holding true at_n free refl
Move-IsConsistent s t (unlock n key a at_n) v =
    moved-IsConsistent v n key a holding unlocked false at_n (holding-held v n key a at_n) refl
Move-IsConsistent s t (depart n key a at_n) v = leave-IsConsistent v n key a at_n

-- Whenever callers have arrived and moved, in any order: the references of each lock are the callers
-- that use it, a mutex is locked exactly while one caller holds it, each caller's key leads to its
-- lock, and the table has entries for keys in use alone, with no lock shared by two keys.
pub Reach-IsConsistent : {s : System} → Reach s → IsConsistent s.locker s.callers
Reach-IsConsistent start = initial-IsConsistent
Reach-IsConsistent (arrive {s} r key) = entered-IsConsistent s key (Reach-IsConsistent r)
Reach-IsConsistent (move {s} {t} r m) = Move-IsConsistent s t m (Reach-IsConsistent r)

-- Two callers never hold the lock of one key at once: callers that hold with the same key are the
-- same caller, although the table may have dropped and created the key's lock in between.
pub mutual_exclusion :
    {s : System}
    → Reach s
    → (n m : ℕ) (key : Str) (a b : ℕ) → get_elem? s.callers n ≡ some (caller key a holding)
    → get_elem? s.callers m ≡ some (caller key b holding)
    → n ≡ m
mutual_exclusion {s} r n m key a b at_n at_m =
    let v = Reach-IsConsistent r in
    count-one (holds a) n m (caller key a holding) (caller key b holding) s.callers at_n at_m
      (ground arith) (ground (arith, known_at v n key a at_n, known_at v m key b at_m))
      (ground (arith, v.held a))

-- When no call is left, the table of locks is empty.
pub no_locks_left :
    {s : System} → Reach s → s.callers ≡ [] → (key : Str) → lookup key s.locker.locks ≡ none
no_locks_left {s} r e key = elim (Option-cases (lookup key s.locker.locks)) [
  | inl h ↦ h
  | inr (a, h) ↦ absurd (ground (arith, (Reach-IsConsistent r).used key a h, ap (count (uses a)) e))
]
