-- ===== src/Cache/Reads.antt =====
-- Cache: what a Get returns after each operation, and what a purge removes.
use secure_edge_platform.Prelude.{
  ℕ, zero, suc, ◌+◌, ◌≤◌, ◌<◌, ◌≡◌, refl, ap, sym, subst, ◌∙◌, ◌⊎◌, inl, inr, ◌≢◌, Bool, true,
  false, not, none, some, List, [], ◌∷◌, arith, length, take, Option-cases, Bool-cases, leb, ltb,
}
use mathlib.Core.Logic.{ite, if_pos}
use secure_edge_platform.Prelude.Text.{Str, str_dec}
use secure_edge_platform.Prelude.Maps.{lookup, lookup-delete}
use secure_edge_platform.Cache.Elements.{
  Entry, entry_size, Element, find, total, find-key, remove_key, remove_id, remove_id-remove_key,
}
use secure_edge_platform.Cache.{
  Cache, no_entry, remove_element, push_front, remove_present, pushed, get, hit, set, move_to_front,
}
use secure_edge_platform.Cache.Invariant.{IsValid}
use secure_edge_platform.Cache.Operations.{remove_element-IsValid}
use secure_edge_platform.Cache.Eviction.{Evicted, set-Evicted}

find-take :
    (k : Str) (n : ℕ) (l : List Element)
    → (find k (take n l) ≡ find k l) ⊎ (find k (take n l) ≡ none)
unfolding find
find-take k zero l = inr refl
find-take k (suc n) [] = inl refl
find-take k (suc n) (x ∷ l) = ground (arith, find-take k n l)

module _ (c : Cache) (k : Str) (e : Element) (v : IsValid c) (h : lookup k c.items ≡ some e) where
  pub lookup-remove_element :
      (j : Str) (b : Bool)
      → lookup j (remove_element c e b).items ≡ ite (str_dec k j) none (lookup j c.items)
  unfolding remove_element
  lookup-remove_element j b = ground (
    arith,
    lookup-delete e.key j c.items,
    find-key k c.ll {e = e} (sym (v.consistent.indexed k) ∙ h),
  )

-- The entry that a Set stores, unless the cache keeps no entries, is what the index then holds, and
-- every other key has its old entry or has been evicted.
module _ (c : Cache) (key : Str) (entry : Entry) (v : IsValid c) where
  lookup-pushed :
      (j : Str)
      → find j (pushed c key entry).ll
        ≡ ite
            (str_dec key j)
            (some (record {
              id = c.next_id;
              value = record { key = key; entry = entry; size = entry_size entry + length key };
            }))
            (lookup j c.items)
  unfolding pushed push_front remove_present remove_element find
  lookup-pushed j = elim (Option-cases (lookup key c.items)) [
    | inl miss ↦ rw (miss, remove_present) (ground (arith, v.consistent.indexed j))
    | inr (e, found) ↦
        rw (found, remove_present)
          (ground (
            arith,
            (remove_element-IsValid c key false v found).consistent.indexed j,
            lookup-remove_element c key e v found j false,
          ))
  ]

  pushed-limits :
      ((pushed c key entry).max_entries ≡ c.max_entries)
      × ((pushed c key entry).max_bytes ≡ c.max_bytes)
  unfolding pushed push_front remove_present remove_element
  pushed-limits = elim (Option-cases (lookup key c.items)) [
    | inl miss ↦ rw (miss, remove_present) (refl, refl)
    | inr (e, found) ↦ rw (found, remove_present) (refl, refl)
  ]

  abbrev stored : Element
  stored = record {
    id = c.next_id;
    value = record { key = key; entry = entry; size = entry_size entry + length key };
  }

  -- The new element stands first; the old ones, less the key's own, follow.
  pushed-ll : (l : List Element) × ((pushed c key entry).ll ≡ record stored { id = c.next_id } ∷ l)
  unfolding pushed push_front remove_present remove_element
  pushed-ll = elim (Option-cases (lookup key c.items)) [
    | inl miss ↦ rw (miss, remove_present) (c.ll, refl)
    | inr (e, found) ↦ rw (found, remove_present) ((remove_element c e false).ll, refl)
  ]

  first_kept :
      {d : Cache}
      → 0 < c.max_entries
      → entry_size entry + length key ≤ c.max_bytes
      → Evicted (pushed c key entry) d
      → lookup key d.items ≡ some stored
  unfolding find total
  first_kept {d} room small r = go r.kept refl
    where
      go : (n : ℕ) → r.kept ≡ n → lookup key d.items ≡ some stored
      go zero e = absurd (
          omega (
            arith,
            r.maximal 1 (omega arith) (omega (arith, ap length pushed-ll.1)),
            ap (λ l. length (take 1 l)) pushed-ll.1,
            ap (λ l. total (take 1 l)) pushed-ll.1,
            pushed-limits.0,
            pushed-limits.1,
          ))
      go (suc n) e =
          r.valid.consistent.indexed key
          ∙ ap (find key) (
              r.prefix ∙ ap (λ m. take m (pushed c key entry).ll) e ∙ ap (take (suc n)) pushed-ll.1)
          ∙ if_pos (str_dec key key) refl _ _

  -- On a valid cache that may hold entries, a Set that reports success has stored its entry: the
  -- index holds it, and every other key has the entry that it had, or none.
  pub lookup-set :
      0 < c.max_entries
      → (set c key entry).1 ≡ true
      → (lookup key (set c key entry).0.items ≡ some stored)
        × ((j : Str)
            → j ≢ key
            → (lookup j (set c key entry).0.items ≡ lookup j c.items)
              ⊎ (lookup j (set c key entry).0.items ≡ none))
  lookup-set room success = elim (set-Evicted c key entry v) [
    | inl (refused, _) ↦ cc (ap (λ p. p.1) refused)
    | inr (_, small, r) ↦ (first_kept room small r, others r)
  ]
    where
      others :
          Evicted (pushed c key entry) (set c key entry).0
          → (j : Str) → j ≢ key
          → (lookup j (set c key entry).0.items ≡ lookup j c.items)
            ⊎ (lookup j (set c key entry).0.items ≡ none)
      others r j other = ground (
        arith,
        r.valid.consistent.indexed j,
        ap (find j) r.prefix,
        find-take j r.kept (pushed c key entry).ll,
        lookup-pushed j,
      )

-- What a Get may answer, and the cache that it leaves.
abbrev pub Answer : Cache → Str → ℕ → Cache × Entry × Bool × Bool → Type 0
Answer c key now (d, entry, fresh, stale) =
    (entry ≡ no_entry) × (fresh ≡ false) × (stale ≡ false) × (lookup key d.items ≡ none)
    ⊎ ((e : Element) × (lookup key c.items ≡ some e)
        × (entry ≡ e.entry)
        × (now ≤ e.entry.stale_until)
        × (fresh ≡ leb now e.entry.expires_at)
        × (stale ≡ not fresh)
        × (lookup key d.items ≡ some e)
        × (d.ll ≡ e ∷ remove_key key c.ll))

hit-Answer :
    (c : Cache) (key : Str) (now : ℕ) (e : Element)
    → IsValid c
    → lookup key c.items ≡ some e
    → Answer c key now (hit c e now)
unfolding move_to_front
hit-Answer c key now e v found = elim (Bool-cases (ltb e.entry.stale_until now)) [
  | inl dead ↦ rw dead (
      inl (
        refl,
        refl,
        refl,
        lookup-remove_element c key e v found key false ∙ if_pos (str_dec key key) refl _ _,
      ))
  | inr live ↦
      rw live (inr (e, found, refl, ground arith, ground arith, refl, found, ap (◌∷◌ e) moved))
]
  where
    moved : remove_id e.id c.ll ≡ remove_key key c.ll
    moved =
        remove_id-remove_key c.next_id key c.ll {e = e} v.consistent.nodup
          (sym (v.consistent.indexed key) ∙ found)

get-hit :
    (c : Cache) (key : Str) (now : ℕ) (e : Element)
    → lookup key c.items ≡ some e
    → get c key now ≡ hit c e now
unfolding get
get-hit c key now e found = rw (found, get) refl

-- On a valid cache, a Get returns an entry only if the index holds it and its stale period has not
-- ended. The entry is fresh until it expires and stale from then on, and it becomes the newest of
-- the list. After a Get without an entry the index does not hold the key.
pub get-Answer : (c : Cache) (key : Str) (now : ℕ) → IsValid c → Answer c key now (get c key now)
unfolding get
get-Answer c key now v = elim (Option-cases (lookup key c.items)) [
  | inl miss ↦ rw (miss, get) (inl (refl, refl, refl, miss))
  | inr (e, found) ↦
      subst (Answer c key now) (sym (get-hit c key now e found)) (hit-Answer c key now e v found)
]

-- A Get changes what the index holds for no other key.
lookup-get_ne :
    (c : Cache) (key j : Str) (now : ℕ)
    → IsValid c
    → j ≢ key
    → lookup j (get c key now).0.items ≡ lookup j c.items
unfolding get move_to_front
lookup-get_ne c key j now v other = elim (Option-cases (lookup key c.items)) [
  | inl miss ↦ rw (miss, get) refl
  | inr (e, found) ↦ rw (found, get) (ground (arith, lookup-remove_element c key e v found j false))
]
