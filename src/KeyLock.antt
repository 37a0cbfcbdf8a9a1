-- ===== src/KeyLock.antt =====
-- apps/edgeproxy/internal/cache/keylock.go: one lock for each cache key that is in use. Between the
-- operations on a mutex a call runs alone, so a call of Lock is two steps (to enter the table, to get
-- the lock) and a call of the function that it returns is two (to unlock, to leave the table). The
-- locks stand in a store, since callers keep the pointer that they found.
pub mod Counting
pub mod Invariant
pub mod Progress
mod Examples
use secure_edge_platform.Prelude.{
  ℕ, zero, suc, ◌+◌, ◌-◌, ◌≡◌, Bool, true, false, Option, none, some, List, [], ◌∷◌, ◌==◌,
  if◌then◌else◌, get_elem?,
}
use secure_edge_platform.Prelude.Text.{Str}
use secure_edge_platform.Prelude.Maps.{Map, lookup, insert, delete}

-- keyLock; held says whether its mutex is locked.
pub record Lock : Type 0 where
  pub held : Bool
  pub refs : ℕ

-- KeyLocker, with the locks that have been allocated at the addresses below next
pub record KeyLocker : Type 0 where
  pub locks : Map ℕ
  pub store : ℕ → Lock
  pub next : ℕ

pub new_key_locker : KeyLocker
new_key_locker = record { locks = []; store = λ _. record { held = false; refs = 0 }; next = 0 }

abbrev pub update : ℕ → Lock → (ℕ → Lock) → ℕ → Lock
update a l store b = if b == a then l else store b

abbrev pub with_refs : ℕ → Lock → Lock
with_refs n l = record { held = l.held; refs = n }

abbrev pub with_held : Bool → Lock → Lock
with_held b l = record { held = b; refs = l.refs }

-- The lock that Lock goes on with: the one of the key, or a new one, and the table that has it.
pub find_or_create : KeyLocker → Str → Option ℕ → KeyLocker × ℕ
find_or_create k key (some a) = (k, a)
find_or_create k key none = (
  record {
    locks = insert key k.next k.locks;
    store = update k.next (record { held = false; refs = 0 }) k.store;
    next = suc k.next;
  },
  k.next,
)

pub add_ref : KeyLocker → ℕ → KeyLocker
add_ref k a = record {
  locks = k.locks;
  store = update a (with_refs ((k.store a).refs + 1) (k.store a)) k.store;
  next = k.next;
}

-- Lock until k.mu.Unlock(): what is left to do is lk.mu.Lock().
pub enter : KeyLocker → Str → KeyLocker × ℕ
unfolding find_or_create add_ref
enter k key = let (found, a) = find_or_create k key (lookup key k.locks) in (add_ref found a, a)

-- lk.mu.Lock() when it returns, and lk.mu.Unlock()
pub set_held : Bool → KeyLocker → ℕ → KeyLocker
set_held b k a = record {
  locks = k.locks;
  store = update a (with_held b (k.store a)) k.store;
  next = k.next;
}

-- The returned function from k.mu.Lock() on.
pub leave : KeyLocker → Str → ℕ → KeyLocker
leave k key a = record {
  locks = if (k.store a).refs - 1 == 0 then delete key k.locks else k.locks;
  store = update a (with_refs ((k.store a).refs - 1) (k.store a)) k.store;
  next = k.next;
}

-- Where a caller of Lock stands: before the lock, between Lock and unlock, after lk.mu.Unlock().
pub data Phase : Type 0 where
  waiting holding unlocked : Phase

pub record Caller : Type 0 where
  pub key : Str
  pub lock : ℕ
  pub phase : Phase

-- The locker and the calls that have begun and not left.
pub record System : Type 0 where
  pub locker : KeyLocker
  pub callers : List Caller

pub initial : System
unfolding new_key_locker
initial = record { locker = new_key_locker; callers = [] }

abbrev pub set_at : ℕ → Caller → List Caller → List Caller
set_at n c [] = []
set_at zero c (d ∷ cs) = c ∷ cs
set_at (suc n) c (d ∷ cs) = d ∷ set_at n c cs

abbrev pub remove_at : ℕ → List Caller → List Caller
remove_at n [] = []
remove_at zero (d ∷ cs) = cs
remove_at (suc n) (d ∷ cs) = d ∷ remove_at n cs

abbrev pub caller : Str → ℕ → Phase → Caller
caller key a p = record { key = key; lock = a; phase = p }

abbrev pub entered : System → Str → System
unfolding enter
entered s key =
    let (k, a) = enter s.locker key in
    record { locker = k; callers = caller key a waiting ∷ s.callers }

-- The n-th caller goes on to a phase, with its lock held or not.
abbrev pub moved : System → ℕ → Str → ℕ → Bool → Phase → System
unfolding set_held
moved s n key a b p = record {
  locker = set_held b s.locker a;
  callers = set_at n (caller key a p) s.callers;
}

abbrev pub left : System → ℕ → Str → ℕ → System
unfolding leave
left s n key a = record { locker = leave s.locker key a; callers = remove_at n s.callers }

-- A step of a caller that has begun. Its mutex may let any one that waits go on.
pub data Move (s : System) : System → Type 0 where
  acquire :
      (n : ℕ) (key : Str) (a : ℕ)
      → get_elem? s.callers n ≡ some (caller key a waiting)
      → (s.locker.store a).held ≡ false
      → Move s (moved s n key a true holding)
  unlock :
      (n : ℕ) (key : Str) (a : ℕ)
      → get_elem? s.callers n ≡ some (caller key a holding)
      → Move s (moved s n key a false unlocked)
  depart :
      (n : ℕ) (key : Str) (a : ℕ)
      → get_elem? s.callers n ≡ some (caller key a unlocked)
      → Move s (left s n key a)

-- Callers arrive at any time and move in any order.
pub data Reach : System → Type 0 where
  start : Reach initial
  arrive : {s : System} → Reach s → (key : Str) → Reach (entered s key)
  move : {s t : System} → Reach s → Move s t → Reach t
