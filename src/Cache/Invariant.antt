-- ===== src/Cache/Invariant.antt =====
-- Cache: the list and the index agree, the byte count is exact, and the limits hold.
use secure_edge_platform.Prelude.{
  ℕ, ◌+◌, ◌≤◌, ◌≡◌, refl, ap, sym, subst, ◌∙◌, Bool, some, List, [], ◌∷◌, arith, length, All,
}
use secure_edge_platform.Prelude.Text.{Str}
use secure_edge_platform.Prelude.Maps.{
  lookup, IsDistinct, lookup-delete, delete-IsDistinct, length-delete,
}
use secure_edge_platform.Cache.Elements.{
  entry_size, Element, find, remove_id, remove_key, total, IsNodup, find-key, remove_id-remove_key,
  find-remove_key, remove_key-IsNodup, total-remove_key, length-remove_key,
}
use secure_edge_platform.Cache.{Cache, new, remove_element}

abbrev pub IsWeighed : Element → Type 0
IsWeighed e = e.size ≡ entry_size e.entry + length e.key

pub record IsConsistent (c : Cache) : Type 0 where
  pub nodup : IsNodup c.next_id c.ll
  pub distinct : IsDistinct c.items
  pub indexed : (k : Str) → lookup k c.items ≡ find k c.ll
  pub counted : length c.items ≡ length c.ll
  pub sized : c.bytes ≡ total c.ll
  pub weighed : All IsWeighed c.ll

pub record IsValid (c : Cache) : Type 0 where
  pub consistent : IsConsistent c
  pub within_entries : length c.ll ≤ c.max_entries
  pub within_bytes : c.bytes ≤ c.max_bytes

pub new-IsValid : (max_entries max_bytes : ℕ) → IsValid (new max_entries max_bytes)
unfolding new total lookup find
new-IsValid max_entries max_bytes = record {
  consistent = record {
    nodup = tt;
    distinct = tt;
    indexed = λ k. refl;
    counted = refl;
    sized = refl;
    weighed = tt;
  };
  within_entries = omega arith;
  within_bytes = omega arith;
}

All-remove_key :
    (P : Element → Type 0) (k : Str) (l : List Element) → All P l → All P (remove_key k l)
unfolding remove_key
All-remove_key P k [] a = tt
All-remove_key P k (x ∷ l) a = ground (arith, All-remove_key P k l a.1)

module _ (c : Cache) (k : Str) {e : Element} (eviction : Bool) (v : IsConsistent c) where
  -- Removing an indexed element removes its key from the list.
  pub remove_element-ll :
      find k c.ll ≡ some e → (remove_element c e eviction).ll ≡ remove_key k c.ll
  unfolding remove_element
  remove_element-ll h = remove_id-remove_key c.next_id k c.ll v.nodup h

  indexed-remove_element :
      find k c.ll ≡ some e
      → (j : Str) → lookup j (remove_element c e eviction).items ≡ find j (remove_key k c.ll)
  unfolding remove_element
  indexed-remove_element h j = ground (
    arith,
    find-key k c.ll {e = e},
    lookup-delete e.key j c.items,
    find-remove_key c.next_id k j c.ll v.nodup,
    v.indexed j,
  )

  counted-remove_element :
      find k c.ll ≡ some e → length (remove_element c e eviction).items ≡ length (remove_key k c.ll)
  unfolding remove_element
  counted-remove_element h = ground (
    arith,
    find-key k c.ll {e = e},
    length-delete e.key c.items {v = e} v.distinct,
    length-remove_key k c.ll {e = e},
    v.indexed e.key,
  )

  sized-remove_element :
      find k c.ll ≡ some e → (remove_element c e eviction).bytes ≡ total (remove_key k c.ll)
  unfolding remove_element
  sized-remove_element h = omega (arith, total-remove_key k c.ll {e = e} h, v.sized)

  pub remove_element-IsConsistent :
      find k c.ll ≡ some e → IsConsistent (remove_element c e eviction)
  unfolding remove_element
  remove_element-IsConsistent h = record {
    nodup = subst (IsNodup c.next_id) (sym ll) (remove_key-IsNodup c.next_id k c.ll v.nodup);
    distinct = delete-IsDistinct e.key c.items v.distinct;
    indexed = λ j. indexed-remove_element h j ∙ ap (find j) (sym ll);
    counted = counted-remove_element h ∙ ap length (sym ll);
    sized = sized-remove_element h ∙ ap total (sym ll);
    weighed = subst (All IsWeighed) (sym ll) (All-remove_key IsWeighed k c.ll v.weighed);
  }
    where
      ll : remove_id e.id c.ll ≡ remove_key k c.ll
      ll = remove_element-ll h
