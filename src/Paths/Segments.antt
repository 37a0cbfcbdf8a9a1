-- ===== src/Paths/Segments.antt =====
-- Paths: a canonical path is its parts, none of them empty, "." or "..", and is canonical again.
use mathlib.Core.List.{reverse, reverse-cons, reverse-reverse}
use secure_edge_platform.Prelude.{
  ℕ, ◌≡◌, refl, ap, sym, subst, ◌∙◌, ◌≢◌, inl, inr, false, ◌||◌, List, [], ◌∷◌, ◌++◌, arith, All,
  All-append, ◌==◌, Bool-cases, append-nil, append_assoc,
}
use secure_edge_platform.Prelude.Text.{Str, same, same-false, is_empty, split}
use secure_edge_platform.Paths.{
  slash, root, dot, dot_dot, pop, clean_part, clean_parts, join, or_root, clean_rooted,
}

-- No slash in it.
abbrev pub IsPlain : Str → Type 0
IsPlain = All (λ c. c ≢ slash)

-- A part of a path that names something.
pub record IsProper (p : Str) : Type 0 where
  pub plain : IsPlain p
  pub not_empty : p ≢ []
  pub not_dot : p ≢ dot
  pub not_dot_dot : p ≢ dot_dot

split-IsPlain : (s : Str) → All IsPlain (split slash s)
unfolding split
split-IsPlain [] = (tt, tt)
split-IsPlain (c ∷ s) = elim (Bool-cases (c == slash)) [
  | inl e ↦ rw e (tt, split-IsPlain s)
  | inr e ↦ rw e (first c (ground arith) (split slash s) (split-IsPlain s))
]
  where
    first :
        (c : ℕ)
        → c ≢ slash
        → (ps : List Str) → All IsPlain ps
        → All IsPlain (elim ps [ [] ↦ (c ∷ []) ∷ [] | p ∷ qs ↦ (c ∷ p) ∷ qs ])
    first c h [] a = ((h, tt), tt)
    first c h (p ∷ ps) a = ((h, a.0), a.1)

split-append : (p s : Str) → IsPlain p → split slash (p ++ slash ∷ s) ≡ p ∷ split slash s
unfolding split
split-append [] s h = refl
split-append (c ∷ p) s h = ground (arith, h.0, split-append p s h.1)

split-plain : (p : Str) → IsPlain p → split slash p ≡ p ∷ []
unfolding split
split-plain [] h = refl
split-plain (c ∷ p) h = ground (arith, h.0, split-plain p h.1)

split-join :
    (p : Str) (ps : List Str) → IsPlain p → All IsProper ps → split slash (p ++ join ps) ≡ p ∷ ps
unfolding join
split-join p [] h a = ap (split slash) (append-nil p) ∙ split-plain p h
split-join p (q ∷ ps) h a =
    split-append p (q ++ join ps) h ∙ ap (◌∷◌ p) (split-join q ps a.0.plain a.1)

split-join-slash :
    (p : Str) (ps : List Str)
    → IsPlain p
    → All IsProper ps
    → split slash (p ++ (join ps ++ root)) ≡ p ∷ (ps ++ [] ∷ [])
unfolding join
split-join-slash p [] h a = split-append p [] h ∙ (unfold split in refl)
split-join-slash p (q ∷ ps) h a =
    split-append p ((q ++ join ps) ++ root) h
    ∙ ap (λ s. p ∷ split slash s) (append_assoc q (join ps) root)
    ∙ ap (◌∷◌ p) (split-join-slash q ps a.0.plain a.1)

not_empty_of : (p : Str) → is_empty p ≡ false → p ≢ []
not_empty_of [] h e = cc h
not_empty_of (c ∷ p) h e = cc e

clean_part-IsProper :
    (p : Str) (stack : List Str)
    → IsPlain p
    → All IsProper stack
    → All IsProper (clean_part p stack)
unfolding clean_part
clean_part-IsProper p stack h a = elim (Bool-cases (is_empty p || same p dot)) [
  | inl e ↦ rw e a
  | inr e ↦ rw e (elim (Bool-cases (same p dot_dot)) [
    | inl f ↦ rw f (All-pop stack a)
    | inr f ↦ rw f (
      record {
        plain = h;
        not_empty = not_empty_of p (ground (arith, e));
        not_dot = same-false p dot (ground (arith, e));
        not_dot_dot = same-false p dot_dot f;
      },
      a,
    )
  ])
]
  where
    All-pop : (stack : List Str) → All IsProper stack → All IsProper (pop stack)
    All-pop [] b = tt
    All-pop (q ∷ stack) b = b.1

clean_parts-IsProper :
    (ps stack : List Str)
    → All IsPlain ps
    → All IsProper stack
    → All IsProper (clean_parts ps stack)
unfolding clean_parts
clean_parts-IsProper [] stack h a = a
clean_parts-IsProper (p ∷ ps) stack h a =
    clean_parts-IsProper ps (clean_part p stack) h.1 (clean_part-IsProper p stack h.0 a)

clean_part-proper : (p : Str) (stack : List Str) → IsProper p → clean_part p stack ≡ p ∷ stack
unfolding clean_part
clean_part-proper [] stack h = absurd (h.not_empty refl)
clean_part-proper (c ∷ p) stack h = ground (arith, h.not_dot, h.not_dot_dot)

-- Proper parts are all kept, also where the path ends in a slash.
clean_parts-proper :
    (ps stack : List Str) → All IsProper ps → clean_parts ps stack ≡ reverse ps ++ stack
unfolding clean_parts
clean_parts-proper [] stack a = refl
clean_parts-proper (p ∷ ps) stack a =
    ap (clean_parts ps) (clean_part-proper p stack a.0)
    ∙ clean_parts-proper ps (p ∷ stack) a.1
    ∙ sym (append_assoc (reverse ps) (p ∷ []) stack)
    ∙ ap (λ l. l ++ stack) (sym (reverse-cons p ps))

clean_parts-append :
    (ps qs stack : List Str) → clean_parts (ps ++ qs) stack ≡ clean_parts qs (clean_parts ps stack)
unfolding clean_parts
clean_parts-append [] qs stack = refl
clean_parts-append (p ∷ ps) qs stack = clean_parts-append ps qs (clean_part p stack)

All-reverse : (P : Str → Type 0) (ps : List Str) → All P ps → All P (reverse ps)
All-reverse P [] a = tt
All-reverse P (p ∷ ps) a =
    subst (All P) (sym (reverse-cons p ps))
      (All-append P (reverse ps) (p ∷ []) (All-reverse P ps a.1, (a.0, tt)))

-- A cleaned path is its proper parts, each behind a slash, or the root.
pub clean_rooted-parts :
    (s : Str) → (ps : List Str) × All IsProper ps × (clean_rooted s ≡ or_root (join ps))
unfolding clean_rooted
clean_rooted-parts s = (
  reverse (clean_parts (split slash s) []),
  All-reverse IsProper _ (clean_parts-IsProper (split slash s) [] (split-IsPlain s) tt),
  refl,
)

pub clean_rooted-join :
    (p : Str) (ps : List Str) → All IsProper (p ∷ ps) → clean_rooted (p ++ join ps) ≡ join (p ∷ ps)
unfolding clean_rooted
clean_rooted-join p ps a =
    ap (λ l. or_root (join (reverse (clean_parts l [])))) (split-join p ps a.0.plain a.1)
    ∙ ap (λ l. or_root (join (reverse l)))
        (clean_parts-proper (p ∷ ps) [] a ∙ append-nil (reverse (p ∷ ps)))
    ∙ ap (λ l. or_root (join l)) (reverse-reverse (p ∷ ps))
    ∙ (unfold join in refl)

pub clean_rooted-join_slash :
    (p : Str) (ps : List Str)
    → All IsProper (p ∷ ps)
    → clean_rooted (p ++ (join ps ++ root)) ≡ join (p ∷ ps)
unfolding clean_rooted
clean_rooted-join_slash p ps a =
    ap (λ l. or_root (join (reverse (clean_parts l [])))) (split-join-slash p ps a.0.plain a.1)
    ∙ ap (λ l. or_root (join (reverse l))) blank
    ∙ ap (λ l. or_root (join (reverse l)))
        (clean_parts-proper (p ∷ ps) [] a ∙ append-nil (reverse (p ∷ ps)))
    ∙ ap (λ l. or_root (join l)) (reverse-reverse (p ∷ ps))
    ∙ (unfold join in refl)
  where
    blank : clean_parts ((p ∷ ps) ++ [] ∷ []) [] ≡ clean_parts (p ∷ ps) []
    blank = clean_parts-append (p ∷ ps) ([] ∷ []) [] ∙ (unfold clean_parts clean_part in refl)
