-- ===== src/CachePolicy/Directives.antt =====
-- CachePolicy: no directive of a Cache-Control header escapes its parsing.
use secure_edge_platform.Prelude.{
  ℕ, ◌≡◌, refl, ap, sym, ◌∙◌, inl, inr, Bool, true, false, ◌||◌, none, some, List, ◌+◌, [], ◌∷◌,
  ◌++◌, arith, any, ltb, if◌then◌else◌, Bool-cases, Option-cases,
}
use secure_edge_platform.Prelude.Text.{Str, same, is_empty, trim_space}
use secure_edge_platform.Prelude.Maps.{lookup, insert, lookup-insert}
use secure_edge_platform.CachePolicy.Lists.{
  ParsedCacheControl, split_header_list, directive_key, add_directive, add_directives, add_values,
  nothing_parsed, parse_cache_control_detailed, present, is_duplicate, value_or_one, split_equals,
}

-- The names of the directives of valid field lines, in order; an empty name is none.
pub names : List Str → List Str
names [] = []
names (d ∷ ds) =
    let rest = names ds in if is_empty (directive_key d) then rest else directive_key d ∷ rest

pub all_names : List Str → List Str
unfolding names
all_names [] = []
all_names (value ∷ values) = elim (split_header_list value) [
  | none ↦ all_names values
  | some directives ↦ names directives ++ all_names values
]

-- How often a name is in a list.
pub occurrences : Str → List Str → ℕ
occurrences k [] = 0
occurrences k (n ∷ ns) = (if same n k then 1 else 0) + occurrences k ns

-- A field line that is not valid, or a directive without a name.
malformed : List Str → Bool
malformed [] = false
malformed (value ∷ values) = elim (split_header_list value) [
  | none ↦ true
  | some directives ↦ any (λ d. is_empty (directive_key d)) directives || malformed values
]

-- What the parser knows of a name that it met some number of times.
abbrev Knows : Str → ℕ → ParsedCacheControl → Type 0
Knows k n p = (present (lookup k p.directives) ≡ ltb 0 n) × (is_duplicate p k ≡ ltb 1 n)

-- How often a directive has a name.
abbrev names_it : Str → Str → ℕ
names_it k d = if is_empty (directive_key d) then 0 else if same (directive_key d) k then 1 else 0

insert-Knows :
    (k key v : Str) (n : ℕ) (p : ParsedCacheControl)
    → Knows k n p
    → lookup key p.directives ≡ none
    → Knows k
        (n + (if same key k then 1 else 0))
        (record p { directives = insert key v p.directives })
insert-Knows k key v n p (a, b) f = ground (arith, a, b, f, lookup-insert key k v p.directives)

repeat-Knows :
    (k key v : Str) (n : ℕ) (p : ParsedCacheControl)
    → Knows k n p
    → lookup key p.directives ≡ some v
    → Knows k
        (n + (if same key k then 1 else 0))
        (record p { duplicates = insert key true p.duplicates })
repeat-Knows k key v n p (a, b) f = ground (arith, a, b, f, lookup-insert key k true p.duplicates)

-- The three cases of a directive.
add_nameless :
    (p : ParsedCacheControl) (d : Str)
    → is_empty (directive_key d) ≡ true
    → add_directive p d ≡ record p { invalid = true }
unfolding add_directive
add_nameless p d e = rw e refl

add_first :
    (p : ParsedCacheControl) (d : Str)
    → is_empty (directive_key d) ≡ false
    → lookup (directive_key d) p.directives ≡ none
    → add_directive p d ≡ record p {
      directives =
          insert (directive_key d) (value_or_one (split_equals (trim_space d)).1) p.directives;
    }
unfolding add_directive
add_first p d e f = rw (e, f) refl

add_again :
    (p : ParsedCacheControl) (d v : Str)
    → is_empty (directive_key d) ≡ false
    → lookup (directive_key d) p.directives ≡ some v
    → add_directive p d ≡ record p { duplicates = insert (directive_key d) true p.duplicates }
unfolding add_directive
add_again p d v e f = rw (e, f) refl

names_it_none : (k d : Str) (n : ℕ) → is_empty (directive_key d) ≡ true → n + names_it k d ≡ n
names_it_none k d n e = rw e (omega arith)

names_it_some :
    (k d : Str) (n : ℕ)
    → is_empty (directive_key d) ≡ false
    → n + names_it k d ≡ n + (if same (directive_key d) k then 1 else 0)
names_it_some k d n e = rw e refl

knows : (k : Str) {m n : ℕ} {p q : ParsedCacheControl} → m ≡ n → p ≡ q → Knows k n q → Knows k m p
knows k {m} {n} {p} {q} e f h = (
  ap (λ p. present (lookup k p.directives)) f ∙ h.0 ∙ ap (ltb 0) (sym e),
  ap (λ p. is_duplicate p k) f ∙ h.1 ∙ ap (ltb 1) (sym e),
)

add_directive-Knows :
    (k d : Str) (n : ℕ) (p : ParsedCacheControl)
    → Knows k n p
    → Knows k (n + names_it k d) (add_directive p d)
add_directive-Knows k d n p h = elim (Bool-cases (is_empty (directive_key d))) [
  | inl e ↦ knows k (names_it_none k d n e) (add_nameless p d e) h
  | inr e ↦ elim (Option-cases (lookup (directive_key d) p.directives)) [
    | inl f ↦
        knows k (names_it_some k d n e) (add_first p d e f)
          (insert-Knows k (directive_key d) _ n p h f)
    | inr (v, f) ↦
        knows k (names_it_some k d n e) (add_again p d v e f)
          (repeat-Knows k (directive_key d) v n p h f)
  ]
]

occurrences-names :
    (k d : Str) (ds : List Str)
    → occurrences k (names (d ∷ ds)) ≡ names_it k d + occurrences k (names ds)
unfolding occurrences names
occurrences-names k d ds = ground arith

occurrences_none : (k : Str) (n : ℕ) → n + occurrences k (names []) ≡ n
unfolding names occurrences
occurrences_none k n = omega arith

add_directives-Knows :
    (k : Str) (ds : List Str) (n : ℕ) (p : ParsedCacheControl)
    → Knows k n p
    → Knows k (n + occurrences k (names ds)) (add_directives p ds)
unfolding add_directives
add_directives-Knows k [] n p h = knows k {n = n} {p = p} {q = p} (occurrences_none k n) refl h
add_directives-Knows k (d ∷ ds) n p h =
    knows k {n = (n + names_it k d) + occurrences k (names ds)} {p = add_directives p (d ∷ ds)}
      {q = add_directives p (d ∷ ds)} (omega (arith, occurrences-names k d ds)) refl
      (add_directives-Knows k ds (n + names_it k d) (add_directive p d)
        (add_directive-Knows k d n p h))

occurrences-append :
    (k : Str) (a b : List Str) → occurrences k (a ++ b) ≡ occurrences k a + occurrences k b
unfolding occurrences
occurrences-append k [] b = omega arith
occurrences-append k (n ∷ a) b = omega (arith, occurrences-append k a b)

add_values_bad :
    (p : ParsedCacheControl) (v : Str) (vs : List Str)
    → split_header_list v ≡ none
    → add_values p (v ∷ vs) ≡ add_values (record p { invalid = true }) vs
unfolding add_values
add_values_bad p v vs e = rw (e, add_values) refl

add_values_good :
    (p : ParsedCacheControl) (v : Str) (vs ds : List Str)
    → split_header_list v ≡ some ds
    → add_values p (v ∷ vs) ≡ add_values (add_directives p ds) vs
unfolding add_values
add_values_good p v vs ds e = rw (e, add_values) refl

all_names_bad :
    (v : Str) (vs : List Str) → split_header_list v ≡ none → all_names (v ∷ vs) ≡ all_names vs
unfolding all_names
all_names_bad v vs e = rw (e, all_names) refl

all_names_good :
    (v : Str) (vs ds : List Str)
    → split_header_list v ≡ some ds
    → all_names (v ∷ vs) ≡ names ds ++ all_names vs
unfolding all_names
all_names_good v vs ds e = rw (e, all_names) refl

malformed_bad : (v : Str) (vs : List Str) → split_header_list v ≡ none → malformed (v ∷ vs) ≡ true
unfolding malformed
malformed_bad v vs e = rw (e, malformed) refl

malformed_good :
    (v : Str) (vs ds : List Str)
    → split_header_list v ≡ some ds
    → malformed (v ∷ vs) ≡ (any (λ d. is_empty (directive_key d)) ds || malformed vs)
unfolding malformed
malformed_good v vs ds e = rw (e, malformed) refl

add_values-Knows :
    (k : Str) (vs : List Str) (n : ℕ) (p : ParsedCacheControl)
    → Knows k n p
    → Knows k (n + occurrences k (all_names vs)) (add_values p vs)
unfolding add_values all_names occurrences
add_values-Knows k [] n p h = knows k {n = n} {p = p} {q = p} (omega arith) refl h
add_values-Knows k (v ∷ vs) n p h = elim (Option-cases (split_header_list v)) [
  | inl e ↦
      knows k (ap (λ l. n + occurrences k l) (all_names_bad v vs e)) (add_values_bad p v vs e)
        (add_values-Knows k vs n (record p { invalid = true }) h)
  | inr (ds, e) ↦
      knows k
        (ap (λ l. n + occurrences k l) (all_names_good v vs ds e)
          ∙ omega (arith, occurrences-append k (names ds) (all_names vs)))
        (add_values_good p v vs ds e)
        (add_values-Knows k vs (n + occurrences k (names ds)) (add_directives p ds)
          (add_directives-Knows k ds n p h))
]

nothing_known : (k : Str) → Knows k 0 nothing_parsed
unfolding lookup
nothing_known k = (refl, refl)

-- The parser has a directive exactly if a valid field line names it, and marks it as a duplicate
-- exactly if it is named twice or more, in one line or in several.
pub parse_cache_control_detailed_lem :
    (name : Str) (values : List Str)
    → (present (lookup name (parse_cache_control_detailed values).directives)
        ≡ ltb 0 (occurrences name (all_names values)))
      × (is_duplicate (parse_cache_control_detailed values) name
          ≡ ltb 1 (occurrences name (all_names values)))
unfolding parse_cache_control_detailed
parse_cache_control_detailed_lem name values =
    knows name {n = 0 + occurrences name (all_names values)} {p = add_values nothing_parsed values}
      {q = add_values nothing_parsed values} (omega arith) refl
      (add_values-Knows name values 0 nothing_parsed (nothing_known name))

add_directives-invalid :
    (ds : List Str) (p : ParsedCacheControl)
    → (add_directives p ds).invalid ≡ (p.invalid || any (λ d. is_empty (directive_key d)) ds)
unfolding add_directives add_directive
add_directives-invalid [] p = ground arith
add_directives-invalid (d ∷ ds) p = ground (arith, add_directives-invalid ds (add_directive p d))

add_values-invalid :
    (vs : List Str) (p : ParsedCacheControl)
    → (add_values p vs).invalid ≡ (p.invalid || malformed vs)
unfolding add_values malformed
add_values-invalid [] p = ground arith
add_values-invalid (v ∷ vs) p = elim (Option-cases (split_header_list v)) [
  | inl e ↦ ground (
    arith,
    add_values_bad p v vs e,
    malformed_bad v vs e,
    add_values-invalid vs (record p { invalid = true }),
  )
  | inr (ds, e) ↦ ground (
    arith,
    add_values_good p v vs ds e,
    malformed_good v vs ds e,
    add_values-invalid vs (add_directives p ds),
    add_directives-invalid ds p,
  )
]

-- It reports a header as invalid exactly if a field line is not a valid list or a directive has no
-- name.
parse_cache_control_detailed-invalid :
    (values : List Str) → (parse_cache_control_detailed values).invalid ≡ malformed values
unfolding parse_cache_control_detailed
parse_cache_control_detailed-invalid values = add_values-invalid values nothing_parsed
