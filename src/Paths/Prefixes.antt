-- ===== src/Paths/Prefixes.antt =====
-- Paths: a prefix matches whole parts of a path only.
use secure_edge_platform.Prelude.{
  ◌<◌, ◌≡◌, refl, ap, ◌↔◌, ◌⊎◌, inl, inr, true, [], ◌∷◌, ◌++◌, arith, length, get_elem?,
}
use secure_edge_platform.Prelude.Text.{Str, str_dec, has_prefix, has_prefix-append}
use secure_edge_platform.Paths.{slash, root, at_slash, path_prefix_matches}

-- The path is the prefix, or goes on behind it with a slash.
abbrev pub Extends : Str → Str → Type 0
Extends path prefix = (rest : Str) × ((path ≡ prefix) ⊎ (path ≡ prefix ++ slash ∷ rest))

prefix_rest :
    (s p : Str)
    → has_prefix s p ≡ true
    → at_slash (get_elem? s (length p)) ≡ true
    → (rest : Str) × (s ≡ p ++ slash ∷ rest)
unfolding has_prefix
prefix_rest [] [] h k = absurd (cc k)
prefix_rest (c ∷ s) [] h k = (s, ap (λ d. d ∷ s) (ground (arith, k)))
prefix_rest [] (c ∷ p) h k = absurd (cc h)
prefix_rest (d ∷ s) (c ∷ p) h k =
    let (rest, e) = prefix_rest s p (ground (arith, h)) k in (rest, ground (arith, h, e))

at_slash-append : (p rest : Str) → at_slash (get_elem? (p ++ slash ∷ rest) (length p)) ≡ true
at_slash-append [] rest = refl
at_slash-append (c ∷ p) rest = at_slash-append p rest

length-lt-append : (p rest : Str) → length p < length (p ++ slash ∷ rest)
length-lt-append [] rest = omega arith
length-lt-append (c ∷ p) rest = omega (arith, length-lt-append p rest)

-- A prefix other than the root matches exactly the path that it is and those that go on behind it
-- with a slash, so "/api" does not match "/apiary"; the root matches every path.
pub path_prefix_matches_iff :
    (path prefix : Str)
    → (path_prefix_matches path prefix ≡ true) ↔ ((prefix ≡ root) ⊎ Extends path prefix)
unfolding path_prefix_matches
path_prefix_matches_iff path prefix = (to, from)
  where
    to : path_prefix_matches path prefix ≡ true → (prefix ≡ root) ⊎ Extends path prefix
    to h = elim (str_dec prefix root) [
      | yes e ↦ inl e
      | no n ↦ elim (str_dec path prefix) [
        | yes e ↦ inr ([], inl e)
        | no m ↦
            let (rest, e) = prefix_rest path prefix (ground (arith, h)) (ground (arith, h)) in
            inr (rest, inr e)
      ]
    ]

    from : (prefix ≡ root) ⊎ Extends path prefix → path_prefix_matches path prefix ≡ true
    from (inl e) = ground arith
    from (inr (rest, inl e)) = ground arith
    from (inr (rest, inr e)) = ground (
      arith,
      e,
      has_prefix-append prefix (slash ∷ rest),
      at_slash-append prefix rest,
      length-lt-append prefix rest,
    )
