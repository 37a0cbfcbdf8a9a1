-- ===== src/Cache/Operations.antt =====
-- Cache: every operation but Set's eviction loop keeps the invariant.
use secure_edge_platform.Prelude.{
  ℕ, suc, ◌+◌, ◌≤◌, ◌<◌, ◌≡◌, refl, ap, sym, subst, ◌∙◌, ◌⊎◌, inl, inr, Bool, true, false, none,
  some, List, [], ◌∷◌, arith, length, All, Option-cases, Bool-cases, ltb,
}
use secure_edge_platform.Prelude.Text.{Str, str_dec}
use secure_edge_platform.Prelude.Maps.{
  lookup, lookup-insert, lookup-delete, insert-IsDistinct, length-insert,
}
use secure_edge_platform.Cache.Elements.{
  Entry, entry_size, Element, find, find_id, remove_id, remove_key, total, IsNodup, find-key,
  find-find_id, find-remove_key, remove_key-IsNodup, find_id_fresh, IsNodup-suc, total-remove_key,
  length-remove_key,
}
use secure_edge_platform.Cache.{
  Cache, remove_element, move_to_front, get, hit, push_front, remove_present, pushed, delete_key,
  clear,
}
use secure_edge_platform.Cache.Invariant.{
  IsConsistent, IsValid, IsWeighed, remove_element-IsConsistent, remove_element-ll,
}
use mathlib.Core.Logic.{ite}

pub remove_element-IsValid :
    (c : Cache) (k : Str) {e : Element} (eviction : Bool)
    → IsValid c
    → lookup k c.items ≡ some e
    → IsValid (remove_element c e eviction)
unfolding remove_element
remove_element-IsValid c k {e} eviction v h = record {
  consistent = remove_element-IsConsistent c k eviction v.consistent found;
  within_entries =
      omega (arith, ap length ll, length-remove_key k c.ll {e = e} found, v.within_entries);
  within_bytes = omega (arith, v.within_bytes);
}
  where
    found : find k c.ll ≡ some e
    found = sym (v.consistent.indexed k) ∙ h

    ll : remove_id e.id c.ll ≡ remove_key k c.ll
    ll = remove_element-ll c k eviction v.consistent found

All-find :
    (P : Element → Type 0) (k : Str) (l : List Element) {e : Element}
    → All P l
    → find k l ≡ some e
    → P e
unfolding find
All-find P k [] a h = cc
All-find P k (x ∷ l) {e} a h = elim (str_dec x.key k) [
  | yes p ↦ subst P (ground arith) a.0
  | no p ↦ All-find P k l {e = e} a.1 (ground arith)
]

All-remove_key :
    (P : Element → Type 0) (k : Str) (l : List Element) → All P l → All P (remove_key k l)
unfolding remove_key
All-remove_key P k [] a = tt
All-remove_key P k (x ∷ l) a = ground (arith, All-remove_key P k l a.1)

find_id-find-ne :
    (n : ℕ) (k : Str) (l : List Element) {e : Element}
    → IsNodup n l
    → find k l ≡ some e
    → (find_id e.id (remove_key k l) ≡ none) × (e.id < n)
unfolding find find_id remove_key
find_id-find-ne n k [] d h = cc
find_id-find-ne n k (x ∷ l) {e} d h =
    ground (arith, find_id-find-ne n k l {e = e}, find-find_id k l {e = e})

-- A moved element is found as before.
find-move :
    (n : ℕ) (k j : Str) (l : List Element) {e : Element}
    → IsNodup n l
    → find k l ≡ some e
    → find j (e ∷ remove_key k l) ≡ find j l
unfolding find
find-move n k j l {e} d h = ground (arith, find-key k l {e = e} h, find-remove_key n k j l d)

move_to_front-IsValid :
    (c : Cache) (k : Str) {e : Element}
    → IsValid c
    → find k c.ll ≡ some e
    → IsValid (move_to_front c e)
unfolding move_to_front remove_element
move_to_front-IsValid c k {e} v h =
    subst (λ l. IsValid (record c { ll = e ∷ l })) (sym ll)
      (record { consistent = kept; within_entries = entries; within_bytes = v.within_bytes })
  where
    ll : remove_id e.id c.ll ≡ remove_key k c.ll
    ll = remove_element-ll c k false v.consistent h

    entries : suc (length (remove_key k c.ll)) ≤ c.max_entries
    entries = omega (arith, length-remove_key k c.ll {e = e} h, v.within_entries)

    nodup : IsNodup c.next_id (e ∷ remove_key k c.ll)
    nodup = ground (
      arith,
      find_id-find-ne c.next_id k c.ll {e = e} v.consistent.nodup h,
      find-key k c.ll {e = e} h,
      find-remove_key c.next_id k e.key c.ll v.consistent.nodup,
      remove_key-IsNodup c.next_id k c.ll v.consistent.nodup,
    )

    kept : IsConsistent (record c { ll = e ∷ remove_key k c.ll })
    kept = record {
      nodup = nodup;
      distinct = v.consistent.distinct;
      indexed =
          λ j. v.consistent.indexed j ∙ sym (find-move c.next_id k j c.ll v.consistent.nodup h);
      counted = omega (arith, length-remove_key k c.ll {e = e} h, v.consistent.counted);
      sized = omega (arith, total-remove_key k c.ll {e = e} h, v.consistent.sized, total_cons);
      weighed = (
        All-find IsWeighed k c.ll v.consistent.weighed h,
        All-remove_key IsWeighed k c.ll v.consistent.weighed,
      );
    }
      where
        total_cons : total (e ∷ remove_key k c.ll) ≡ e.size + total (remove_key k c.ll)
        total_cons = unfold total in refl

-- Get keeps the invariant: an expired entry leaves both the list and the index.
pub get-IsValid : (c : Cache) (key : Str) (now : ℕ) → IsValid c → IsValid (get c key now).0
unfolding get
get-IsValid c key now v = elim (Option-cases (lookup key c.items)) [
  | inl miss ↦ rw (miss, get) v
  | inr (e, found) ↦ rw (found, get) (kept e found (Bool-cases (ltb e.entry.stale_until now)))
]
  where
    kept :
        (e : Element)
        → lookup key c.items ≡ some e
        → (ltb e.entry.stale_until now ≡ true) ⊎ (ltb e.entry.stale_until now ≡ false)
        → IsValid (hit c e now).0
    kept e found (inl dead) = rw dead (remove_element-IsValid c key false v found)
    kept e found (inr live) =
        rw live (move_to_front-IsValid c key v (sym (v.consistent.indexed key) ∙ found))

pub delete_key-IsValid : (c : Cache) (key : Str) → IsValid c → IsValid (delete_key c key).0
unfolding delete_key
delete_key-IsValid c key v = elim (Option-cases (lookup key c.items)) [
  | inl miss ↦ rw (miss, delete_key) v
  | inr (e, found) ↦ rw (found, delete_key) (remove_element-IsValid c key false v found)
]

remove_present-IsValid : (c : Cache) (key : Str) → IsValid c → IsValid (remove_present c key)
unfolding remove_present
remove_present-IsValid c key v = elim (Option-cases (lookup key c.items)) [
  | inl miss ↦ rw (miss, remove_present) v
  | inr (e, found) ↦ rw (found, remove_present) (remove_element-IsValid c key false v found)
]

lookup-remove_present :
    (c : Cache) (key : Str) → IsValid c → lookup key (remove_present c key).items ≡ none
unfolding remove_present remove_element
lookup-remove_present c key v = elim (Option-cases (lookup key c.items)) [
  | inl miss ↦ rw (miss, remove_present) miss
  | inr (e, found) ↦
      rw (found, remove_present)
        (ground (
          arith,
          lookup-delete e.key key c.items,
          find-key key c.ll {e = e} (sym (v.consistent.indexed key) ∙ found),
        ))
]

push_front-IsConsistent :
    (c : Cache) (key : Str) (entry : Entry)
    → IsConsistent c
    → lookup key c.items ≡ none
    → IsConsistent (push_front c key entry (entry_size entry + length key))
unfolding push_front find
push_front-IsConsistent c key entry v h = record {
  nodup = (
    omega arith,
    find_id_fresh c.next_id c.ll v.nodup,
    sym (v.indexed key) ∙ h,
    IsNodup-suc c.next_id c.ll v.nodup,
  );
  distinct = insert-IsDistinct key _ c.items v.distinct;
  indexed = λ k. lookup-insert key k _ c.items ∙ ap (ite (str_dec key k) _) (v.indexed k);
  counted = omega (arith, length-insert key _ c.items h, v.counted);
  sized = unfold total in omega (arith, v.sized);
  weighed = (refl, v.weighed);
}

pub pushed-IsConsistent :
    (c : Cache) (key : Str) (entry : Entry) → IsValid c → IsConsistent (pushed c key entry)
unfolding pushed
pushed-IsConsistent c key entry v =
    push_front-IsConsistent _ key entry (remove_present-IsValid c key v).consistent
      (lookup-remove_present c key v)

pub clear-IsValid : (c : Cache) → IsValid (clear c).0
unfolding clear find lookup total
clear-IsValid c = record {
  consistent = record {
    nodup = tt;
    distinct = tt;
    indexed = λ k. refl;
    counted = refl;
    sized = refl;
    weighed = tt;
  };
  within_entries = omega arith;
  within_bytes = omega arith;
}
