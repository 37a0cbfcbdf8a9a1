-- ===== src/CachePolicy/Conditions.antt =====
-- CachePolicy: when a conditional request is answered with 304.
use secure_edge_platform.Prelude.{
  ℕ, ◌≡◌, ◌≤◌, ◌<◌, refl, ◌⊎◌, inl, inr, Bool, true, false, Option, none, some, List, [], ◌∷◌,
  arith, any, Bool-cases,
}
use secure_edge_platform.Prelude.Text.{Str, codes, same, is_empty, trim_space}
use secure_edge_platform.CachePolicy.Lists.{parse_header_list_values}
use secure_edge_platform.CachePolicy.{
  Request, Header, values, get, if_none_match_wildcard, weak_etag_match, normalize_etag,
  conditional_not_modified, none_match, not_after, no_values,
}

-- Some item of a list passes a test.
abbrev Some : (Str → Type 0) → List Str → Type 0
Some P [] = ⊥
Some P (x ∷ xs) = P x ⊎ Some P xs

-- A tag of If-None-Match stands for the current one.
abbrev Matches : Str → Str → Type 0
Matches etag raw =
    (same (trim_space raw) (codes "*") ≡ true)
    ⊎ (is_empty (normalize_etag etag) ≡ false)
      × (same (normalize_etag (trim_space raw)) (normalize_etag etag) ≡ true)

-- The two preconditions; the second counts only without the first.
abbrev pub NoneMatch : Request → Header → Type 0
NoneMatch req header =
    (items : List Str) × (parse_header_list_values (values req.header (codes "If-None-Match"))
      ≡ some items)
    × Some (Matches (get header (codes "Etag"))) items

abbrev pub NotSince : (Str → Option ℕ) → Request → Header → Type 0
NotSince parse_time req header =
    (modified : ℕ) × (since : ℕ) × (parse_time (get header (codes "Last-Modified")) ≡ some modified)
    × (parse_time (get req.header (codes "If-Modified-Since")) ≡ some since)
    × (modified ≤ since)

any-Some : (f : Str → Bool) (xs : List Str) → any f xs ≡ true → Some (λ x. f x ≡ true) xs
any-Some f [] h = absurd (ground (arith, h))
any-Some f (x ∷ xs) h = elim (Bool-cases (f x)) [
  | inl e ↦ inl e
  | inr e ↦ inr (any-Some f xs (ground (arith, h, e)))
]

Some-map : (P Q : Str → Type 0) (xs : List Str) → ((x : Str) → P x → Q x) → Some P xs → Some Q xs
Some-map P Q [] f p = absurd p
Some-map P Q (x ∷ xs) f (inl p) = inl (f x p)
Some-map P Q (x ∷ xs) f (inr p) = inr (Some-map P Q xs f p)

none_match_sound :
    (items : List Str) (etag : Str)
    → none_match (some items) etag ≡ true
    → Some (Matches etag) items
unfolding if_none_match_wildcard weak_etag_match
none_match_sound items etag h = elim (Bool-cases (if_none_match_wildcard items)) [
  | inl e ↦
      Some-map _ (Matches etag) items (λ x p. inl p)
        (any-Some (λ raw. same (trim_space raw) (codes "*")) items e)
  | inr e ↦
      Some-map _ (Matches etag) items (λ x p. inr (ground (arith, h, e), p))
        (any-Some (λ raw. same (normalize_etag (trim_space raw)) (normalize_etag etag)) items
          (ground (arith, h, e)))
]

not_after_sound :
    (a b : Option ℕ)
    → not_after a b ≡ true
    → (m : ℕ) × (s : ℕ) × (a ≡ some m) × (b ≡ some s) × (m ≤ s)
not_after_sound none b h = absurd (ground (arith, h))
not_after_sound (some m) none h = absurd (ground (arith, h))
not_after_sound (some m) (some s) h = (m, s, refl, refl, ground (arith, h))

listed :
    (req : Request) (header : Header) (o : Option (List Str))
    → parse_header_list_values (values req.header (codes "If-None-Match")) ≡ o
    → none_match o (get header (codes "Etag")) ≡ true
    → NoneMatch req header
listed req header none e h = absurd (ground (arith, h))
listed req header (some items) e h =
    (items, e, none_match_sound items (get header (codes "Etag")) h)

-- A response is turned into 304 only if it is successful, and either the request has If-None-Match, in
-- well-formed lists of which one item is "*" or a tag equal to the current one under weak comparison;
-- or it has no If-None-Match, and the response was not modified after If-Modified-Since.
pub conditional_not_modified_sound :
    (parse_time : Str → Option ℕ) (req : Request) (header : Header) (status_code : ℕ)
    → conditional_not_modified parse_time req header status_code ≡ true
    → (200 ≤ status_code)
      × (status_code < 300)
      × (NoneMatch req header
          ⊎ (values req.header (codes "If-None-Match") ≡ []) × NotSince parse_time req header)
unfolding conditional_not_modified
conditional_not_modified_sound parse_time req header status_code h = (
  ground (arith, h),
  ground (arith, h),
  which (Bool-cases (no_values (values req.header (codes "If-None-Match")))),
)
  where
    which :
        (no_values (values req.header (codes "If-None-Match")) ≡ true)
          ⊎ (no_values (values req.header (codes "If-None-Match")) ≡ false)
        → NoneMatch req header
          ⊎ (values req.header (codes "If-None-Match") ≡ []) × NotSince parse_time req header
    which (inl e) = inr (ground (arith, e), not_after_sound _ _ (ground (arith, h, e)))
    which (inr e) = inl (
        listed req header (parse_header_list_values (values req.header (codes "If-None-Match")))
          refl (ground (arith, h, e)))
