-- ===== src/Paths/Canonical.antt =====
-- Paths: what a canonical path is, and that it is canonical already.
use mathlib.Core.List.{reverse-append}
use secure_edge_platform.Prelude.{
  ℕ, ◌≡◌, refl, ap, sym, ◌∙◌, ◌⊎◌, ◌≢◌, inl, inr, Bool, true, false, not, ◌&&◌, List, [], ◌∷◌, ◌++◌,
  arith, All, ◌==◌, if◌then◌else◌, append_assoc,
}
use secure_edge_platform.Prelude.Text.{
  Str, same, has_prefix, has_suffix, trim_prefix, strip_prefix, str_dec, split,
}
use mathlib.Core.Path.{ap₂}
use secure_edge_platform.Paths.{
  slash, root, join, or_root, clean_rooted, clean_parts, clean_part, canonical_request_path,
}
use secure_edge_platform.Paths.Segments.{
  IsPlain, IsProper, clean_rooted-parts, clean_rooted-join, clean_rooted-join_slash,
}

-- The root, or proper parts each behind a slash, with or without a slash at the end.
abbrev pub IsCanonical : Str → Type 0
IsCanonical s =
    (s ≡ root)
    ⊎ ((p : Str) × (ps : List Str) × All IsProper (p ∷ ps)
        × ((s ≡ join (p ∷ ps)) ⊎ (s ≡ join (p ∷ ps) ++ root)))

has_suffix-last : (t : Str) (c : ℕ) → has_suffix (t ++ c ∷ []) root ≡ (c == slash)
unfolding has_suffix has_prefix
has_suffix-last t c =
    ap (λ s. has_prefix s (slash ∷ [])) (reverse-append t (c ∷ [])) ∙ and_true (c == slash)
  where
    and_true : (b : Bool) → (b && true) ≡ b
    and_true true = refl
    and_true false = refl

-- The last byte of proper parts is no slash.
plain_last : (s : Str) → IsPlain s → s ≢ [] → (t : Str) × (c : ℕ) × (s ≡ t ++ c ∷ []) × (c ≢ slash)
plain_last [] h e = absurd (e refl)
plain_last (c ∷ []) h e = ([], c, refl, h.0)
plain_last (c ∷ d ∷ s) h e =
    let (t, b, f, n) = plain_last (d ∷ s) h.1 (λ g. cc g) in (c ∷ t, b, ap (◌∷◌ c) f, n)

join_last :
    (p : Str) (ps : List Str)
    → All IsProper (p ∷ ps)
    → (t : Str) × (c : ℕ) × (join (p ∷ ps) ≡ t ++ c ∷ []) × (c ≢ slash)
unfolding join
join_last p [] a =
    let (t, c, e, n) = plain_last p a.0.plain a.0.not_empty in
    (slash ∷ t, c, ap (λ s. slash ∷ (s ++ [])) e ∙ ap (◌∷◌ slash) (append_assoc t (c ∷ []) []), n)
join_last p (q ∷ ps) a =
    let (t, c, e, n) = join_last q ps a.1 in
    (
      slash ∷ (p ++ t),
      c,
      ap (λ s. slash ∷ (p ++ s)) e ∙ ap (◌∷◌ slash) (sym (append_assoc p t (c ∷ []))),
      n,
    )

has_suffix-join :
    (p : Str) (ps : List Str) → All IsProper (p ∷ ps) → has_suffix (join (p ∷ ps)) root ≡ false
has_suffix-join p ps a =
    let (t, c, e, n) = join_last p ps a in
    ap (λ s. has_suffix s root) e ∙ has_suffix-last t c ∙ ground (arith, n)

join-ne-root : (p : Str) (ps : List Str) → IsProper p → same (join (p ∷ ps)) root ≡ false
unfolding join
join-ne-root [] ps h = absurd (h.not_empty refl)
join-ne-root (c ∷ p) ps h = ground arith

-- What canonicalRequestPath makes of any text is canonical: its parts are none of them empty, "." or
-- "..", and no part holds a slash.
pub canonical_request_path-IsCanonical : (value : Str) → IsCanonical (canonical_request_path value)
unfolding canonical_request_path
canonical_request_path-IsCanonical [] = inl refl
canonical_request_path-IsCanonical (c ∷ value) =
    let (ps, a, e) = clean_rooted-parts (trim_prefix (c ∷ value) root) in
    shape ps a (clean_rooted (trim_prefix (c ∷ value) root)) e (has_suffix (c ∷ value) root)
  where
    shape :
        (ps : List Str)
        → All IsProper ps
        → (s : Str) → s ≡ or_root (join ps)
        → (b : Bool) → IsCanonical (if b && not (same s root) then s ++ root else s)
    shape [] a s e true = inl (unfold join in ground (arith, e))
    shape [] a s e false = inl (unfold join in ground (arith, e))
    shape (p ∷ ps) a s e false = inr (p, ps, a, inl (unfold join in e))
    shape (p ∷ ps) a s e true =
        let e' : s ≡ join (p ∷ ps) = unfold join in e in
        let n : same s root ≡ false = ap (λ t. same t root) e' ∙ join-ne-root p ps a.0 in
        rw n (inr (p, ps, a, inr (ap (λ t. t ++ root) e')))

abbrev finished : Bool → Str → Str
finished trailing cleaned = if trailing && not (same cleaned root) then cleaned ++ root else cleaned

canonical_slash :
    (rest : Str)
    → canonical_request_path (slash ∷ rest)
      ≡ finished (has_suffix (slash ∷ rest) root) (clean_rooted rest)
unfolding canonical_request_path trim_prefix strip_prefix
canonical_slash rest = refl

canonical_join :
    (p : Str) (ps : List Str)
    → All IsProper (p ∷ ps)
    → canonical_request_path (join (p ∷ ps)) ≡ join (p ∷ ps)
unfolding join
canonical_join p ps a =
    canonical_slash (p ++ join ps)
    ∙ ap₂ finished (has_suffix-join p ps a) (clean_rooted-join p ps a)

canonical_join_slash :
    (p : Str) (ps : List Str)
    → All IsProper (p ∷ ps)
    → canonical_request_path (join (p ∷ ps) ++ root) ≡ join (p ∷ ps) ++ root
unfolding join
canonical_join_slash p ps a =
    canonical_slash ((p ++ join ps) ++ root)
    ∙ ap₂ finished trailing cleaned
    ∙ ap (λ b. if not b then join (p ∷ ps) ++ root else join (p ∷ ps)) (join-ne-root p ps a.0)
  where
    trailing : has_suffix (slash ∷ ((p ++ join ps) ++ root)) root ≡ true
    trailing = ap (λ s. has_suffix s root) refl ∙ has_suffix-last (slash ∷ (p ++ join ps)) slash

    cleaned : clean_rooted ((p ++ join ps) ++ root) ≡ join (p ∷ ps)
    cleaned = ap clean_rooted (append_assoc p (join ps) root) ∙ clean_rooted-join_slash p ps a

canonical_root : canonical_request_path root ≡ root
unfolding canonical_request_path trim_prefix strip_prefix clean_rooted clean_parts clean_part join
    str_dec has_suffix split
canonical_root = refl

canonical_fixed : (s : Str) → IsCanonical s → canonical_request_path s ≡ s
canonical_fixed s (inl e) = ap canonical_request_path e ∙ canonical_root ∙ sym e
canonical_fixed s (inr (p, ps, a, inl e)) =
    ap canonical_request_path e ∙ canonical_join p ps a ∙ sym e
canonical_fixed s (inr (p, ps, a, inr e)) =
    ap canonical_request_path e ∙ canonical_join_slash p ps a ∙ sym e

-- To canonicalise a path twice changes nothing.
pub canonical_request_path_idem :
    (value : Str)
    → canonical_request_path (canonical_request_path value) ≡ canonical_request_path value
canonical_request_path_idem value =
    canonical_fixed (canonical_request_path value) (canonical_request_path-IsCanonical value)
