-- ===== src/Cache/Purging.antt =====
-- Cache: what Purge and PurgeRequest remove. Go visits the entries of a map in no fixed order; the
-- theorems hold for every order of the association list.
use secure_edge_platform.Prelude.{
  ℕ, ◌+◌, ◌≡◌, ◌↔◌, ◌⊎◌, Option-cases, refl, sym, subst, inl, inr, Bool, true, false, Option, none,
  some, List, [], ◌∷◌, arith, length, All, Bool-cases, if◌then◌else◌, keep,
}
use secure_edge_platform.Prelude.Text.{Str, to_lower, trim_space}
use secure_edge_platform.Prelude.Maps.{lookup, IsDistinct}
use secure_edge_platform.Cache.Elements.{Element}
use secure_edge_platform.Cache.{
  Cache, remove_element, purge_loop, purge_test, purge, purge_request, purge_request_test,
}
use secure_edge_platform.Cache.Invariant.{IsValid}
use secure_edge_platform.Cache.Operations.{remove_element-IsValid}
use secure_edge_platform.Cache.Reads.{lookup-remove_element}

-- The pairs of the map that a purge has still to visit are in the index.
abbrev Present : List (Str × Element) → Cache → Type 0
Present l c = All (λ p. lookup p.0 c.items ≡ some p.1) l

abbrev matching : (Str → Bool) → List (Str × Element) → List (Str × Element)
matching test = keep (λ p. test p.0)

Present-remove :
    (c : Cache) (k : Str) (e : Element) (l : List (Str × Element))
    → IsValid c
    → lookup k c.items ≡ some e
    → lookup k l ≡ none
    → Present l c
    → Present l (remove_element c e false)
unfolding lookup
Present-remove c k e [] v h fresh p = tt
Present-remove c k e ((j, f) ∷ l) v h fresh p = (
  ground (arith, lookup-remove_element c k e v h j false),
  Present-remove c k e l v h (ground arith) p.1,
)

-- The loop of a purge removes the keys of the snapshot on which the test holds, and counts them.
record Purged (test : Str → Bool) (l : List (Str × Element)) (c d : Cache) (count n : ℕ)
    : Type 0 where
  valid : IsValid d
  counted : n ≡ count + length (matching test l)
  remaining :
      (j : Str)
      → lookup j d.items ≡ elim (lookup j l) [
        | none ↦ lookup j c.items
        | some _ ↦ if test j then none else lookup j c.items
      ]

purge_loop-hit :
    (test : Str → Bool) (k : Str) (e : Element) (l : List (Str × Element)) (c : Cache) (count : ℕ)
    → test k ≡ true
    → purge_loop test ((k, e) ∷ l) c count
      ≡ purge_loop test l (remove_element c e false) (count + 1)
unfolding purge_loop
purge_loop-hit test k e l c count h = rw (h, purge_loop) refl

purge_loop-miss :
    (test : Str → Bool) (k : Str) (e : Element) (l : List (Str × Element)) (c : Cache) (count : ℕ)
    → test k ≡ false
    → purge_loop test ((k, e) ∷ l) c count ≡ purge_loop test l c count
unfolding purge_loop
purge_loop-miss test k e l c count h = rw (h, purge_loop) refl

purge_loop-Purged :
    (test : Str → Bool) (l : List (Str × Element)) (c : Cache) (count : ℕ)
    → IsValid c
    → IsDistinct l
    → Present l c
    → Purged test l c (purge_loop test l c count).0 count (purge_loop test l c count).1
unfolding lookup
purge_loop-Purged test [] c count v d p =
    unfold purge_loop in record { valid = v; counted = omega arith; remaining = λ j. refl }
purge_loop-Purged test ((k, e) ∷ l) c count v d p = elim (Bool-cases (test k)) [
  | inl hit ↦
      let r =
        purge_loop-Purged test l (remove_element c e false) (count + 1)
          (remove_element-IsValid c k false v p.0) d.1 (Present-remove c k e l v p.0 d.0 p.1) in
      subst (λ r. Purged test ((k, e) ∷ l) c r.0 count r.1)
        (sym (purge_loop-hit test k e l c count hit))
        (record {
          valid = r.valid;
          counted = ground (arith, r.counted, hit);
          remaining =
              λ j. ground (arith, r.remaining j, hit, lookup-remove_element c k e v p.0 j false);
        })
  | inr miss ↦
      let r = purge_loop-Purged test l c count v d.1 p.1 in
      subst (λ r. Purged test ((k, e) ∷ l) c r.0 count r.1)
        (sym (purge_loop-miss test k e l c count miss))
        (record {
          valid = r.valid;
          counted = ground (arith, r.counted, miss);
          remaining = λ j. ground (arith, r.remaining j, miss);
        })
]

Present-suffix :
    (m l : List (Str × Element))
    → IsDistinct l
    → ((k : Str) (e : Element) → lookup k l ≡ some e → lookup k m ≡ some e)
    → All (λ p. lookup p.0 m ≡ some p.1) l
unfolding lookup
Present-suffix m [] d h = tt
Present-suffix m ((j, e) ∷ l) d h =
    (h j e (ground arith), Present-suffix m l d.1 (λ k f g. h k f (ground arith)))

-- A whole purge by a test.
pub record PurgedBy (test : Str → Bool) (c d : Cache) (n : ℕ) : Type 0 where
  pub valid : IsValid d
  pub counted : n ≡ length (matching test c.items)
  pub remaining : (j : Str) → lookup j d.items ≡ (if test j then none else lookup j c.items)

whole :
    (test : Str → Bool) (c : Cache)
    → IsValid c
    → PurgedBy test c (purge_loop test c.items c 0).0 (purge_loop test c.items c 0).1
whole test c v = record {
  valid = r.valid;
  counted = omega (arith, r.counted);
  remaining = λ j. ground (arith, r.remaining j);
}
  where
    r : Purged test c.items c (purge_loop test c.items c 0).0 0 (purge_loop test c.items c 0).1
    r =
        purge_loop-Purged test c.items c 0 v v.consistent.distinct
          (Present-suffix c.items c.items v.consistent.distinct (λ k e h. h))

-- A key that names the host, where one is given, and a URI that matches the prefix, where one is given.
pub record IsNamed (host prefix : Str) (request : Str → Option (Str × Str))
    (matches : Str → Str → Bool) (key : Str) : Type 0 where
  pub key_host : Str
  pub uri : Str
  pub named : request key ≡ some (key_host, uri)
  pub host_named : (host ≡ []) ⊎ (key_host ≡ host)
  pub path_matches : (prefix ≡ []) ⊎ (matches uri prefix ≡ true)

purge_test_iff :
    (host prefix : Str) (request : Str → Option (Str × Str)) (matches : Str → Str → Bool)
    (key : Str)
    → (purge_test host prefix request matches key ≡ true) ↔ IsNamed host prefix request matches key
unfolding purge_test
purge_test_iff host prefix request matches key = elim (Option-cases (request key)) [
  | inl e ↦ (λ h. absurd (ground (arith, h, e)), λ n. absurd (ground (arith, n.named, e)))
  | inr ((key_host, uri), e) ↦ (
    λ h. record {
      key_host = key_host;
      uri = uri;
      named = e;
      host_named = ground (arith, h, e);
      path_matches = ground (arith, h, e);
    },
    λ n. rw (n.named, purge_test) (ground (arith, n.host_named, n.path_matches)),
  )
]

-- On a valid cache, Purge removes exactly the entries whose key names the host, in small letters and
-- without blanks around it, and a URI that the path test accepts for the prefix, keeps all others,
-- counts what it removed, and leaves a valid cache; with no host or no prefix that filter is off.
pub purge-PurgedBy :
    (c : Cache) (host prefix : Str) (request : Str → Option (Str × Str))
    (matches : Str → Str → Bool)
    → IsValid c
    → PurgedBy
        (purge_test (to_lower (trim_space host)) prefix request matches)
        c
        (purge c host prefix request matches).0
        (purge c host prefix request matches).1
      × ((key : Str)
          → (purge_test (to_lower (trim_space host)) prefix request matches key ≡ true)
            ↔ IsNamed (to_lower (trim_space host)) prefix request matches key)
unfolding purge
purge-PurgedBy c host prefix request matches v = (
  whole (purge_test (to_lower (trim_space host)) prefix request matches) c v,
  purge_test_iff (to_lower (trim_space host)) prefix request matches,
)

-- PurgeRequest removes every variant of one request, whatever headers the key adds.
pub purge_request-PurgedBy :
    (c : Cache) (host uri : Str) (request : Str → Option (Str × Str))
    → IsValid c
    → PurgedBy
        (purge_request_test (to_lower (trim_space host)) uri request)
        c
        (purge_request c host uri request).0
        (purge_request c host uri request).1
unfolding purge_request
purge_request-PurgedBy c host uri request v =
    whole (purge_request_test (to_lower (trim_space host)) uri request) c v
