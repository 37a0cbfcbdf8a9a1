-- ===== src/Waf/Growth.antt =====
-- Waf.Json: the samples of a body grow by append_structured_sample alone, so what each such step keeps
-- the whole keeps.
use secure_edge_platform.Prelude.{
  ℕ, ◌+◌, inl, inr, Bool, false, not, ◌||◌, Option, none, some, List, [], ◌∷◌, ◌++◌, any, true, ◌≡◌,
  ltb, leb, arith, if_elim, Bool-cases,
}
use secure_edge_platform.Prelude.Text.{Str, same, codes}
use secure_edge_platform.CachePolicy.{Header}
use secure_edge_platform.Waf.Samples.{
  Codec, Sample, Json, scalar, text, array, object, Items, no_items, element, Fields, no_fields,
  field, append_structured_sample, sort_fields, sample, normalize, bounded_match_location,
}
use secure_edge_platform.Waf.Json.{
  flatten_json, flatten_items, flatten_fields, form_values, form_fields, json_samples, form_samples,
  structured, body_samples, is_full,
}

module _ (codec : Codec) (P : List Sample → Type 0)
    (append-keeps : (out : List Sample) (s : Sample)
      → P out
      → P (append_structured_sample out s).0) where
  mutual
    unfolding flatten_json

    flatten_json-keeps :
        (out : List Sample) (path : Str) (v : Json) (depth : ℕ)
        → P out
        → P (flatten_json codec out path v depth)
    flatten_json-keeps out path scalar depth h = h
    flatten_json-keeps out path (text v) depth h =
        if_elim P (ltb 12 depth || is_full out) _ _ (λ e. h) (λ e. append-keeps out _ h)
    flatten_json-keeps out path (array vs) depth h =
        if_elim P (ltb 12 depth || is_full out) _ _ (λ e. h)
          (λ e. flatten_items-keeps out path vs depth 0 h)
    flatten_json-keeps out path (object fs) depth h =
        if_elim P (ltb 12 depth || is_full out) _ _ (λ e. h)
          (λ e. flatten_fields-keeps out path fs depth h)

    flatten_items-keeps :
        (out : List Sample) (path : Str) (vs : Items) (depth idx : ℕ)
        → P out
        → P (flatten_items codec out path vs depth idx)
    flatten_items-keeps out path no_items depth idx h = h
    flatten_items-keeps out path (element v vs) depth idx h =
        if_elim P (is_full (flatten_json codec out path v (depth + 1)) || leb 127 idx) _ _
          (λ e. flatten_json-keeps out path v (depth + 1) h)
          (λ e.
            flatten_items-keeps _ path vs depth (idx + 1)
              (flatten_json-keeps out path v (depth + 1) h))

    flatten_fields-keeps :
        (out : List Sample) (path : Str) (fs : Fields) (depth : ℕ)
        → P out
        → P (flatten_fields codec out path fs depth)
    flatten_fields-keeps out path no_fields depth h = h
    flatten_fields-keeps out path (field key v fs) depth h =
        let n = append-keeps out (sample (path ++ codes ".key") (normalize codec key)) h in
        let flat =
          flatten_json-keeps _ (bounded_match_location codec (path ++ codes "." ++ key)) v
            (depth + 1) n in
        if_elim P
          (not
            (append_structured_sample out (sample (path ++ codes ".key") (normalize codec key))).1)
          _ _ (λ e. n)
          (λ e.
            if_elim P
              (is_full (
                flatten_json codec
                  (append_structured_sample out
                    (sample (path ++ codes ".key") (normalize codec key))).0
                  (bounded_match_location codec (path ++ codes "." ++ key)) v (depth + 1)))
              _ _ (λ e. flat) (λ e. flatten_fields-keeps _ path fs depth flat))

  form_values-keeps :
      (key : Str) (vs : List Str) (out : List Sample) → P out → P (form_values codec key vs out).0
  unfolding form_values
  form_values-keeps key [] out h = h
  form_values-keeps key (v ∷ vs) out h =
      if_elim (λ (r : List Sample × Bool). P r.0) more.1 _ (more.0, false)
        (λ e. form_values-keeps key vs more.0 (append-keeps out _ h)) (λ e. append-keeps out _ h)
    where
      more : List Sample × Bool
      more =
          append_structured_sample out
            (sample (bounded_match_location codec (codes "form.value:" ++ key)) (normalize codec v))

  form_fields-keeps : (fs : Header) (out : List Sample) → P out → P (form_fields codec fs out)
  unfolding form_fields
  form_fields-keeps [] out h = h
  form_fields-keeps ((key, vs) ∷ fs) out h =
      if_elim P (not named.1) _ _ (λ e. n)
        (λ e.
          if_elim P (form_values codec key vs named.0).1 _ _
            (λ e. form_fields-keeps fs _ (form_values-keeps key vs named.0 n))
            (λ e. form_values-keeps key vs named.0 n))
    where
      named : List Sample × Bool
      named = append_structured_sample out (sample (codes "form.name") (normalize codec key))

      n : P named.0
      n = append-keeps out _ h

  json_samples-keeps : (raw : List Sample) (o : Option Json) → P raw → P (json_samples codec raw o)
  unfolding json_samples
  json_samples-keeps raw none h = h
  json_samples-keeps raw (some v) h = flatten_json-keeps raw _ v 0 h

  form_samples-keeps :
      (raw : List Sample) (o : Option Header) → P raw → P (form_samples codec raw o)
  unfolding form_samples
  form_samples-keeps raw none h = h
  form_samples-keeps raw (some fields) h = form_fields-keeps (sort_fields fields) raw h

  pub structured-keeps :
      (media body valid : Str) (raw : List Sample)
      → P raw
      → P (structured codec media body valid raw)
  unfolding structured
  structured-keeps media body valid raw h =
      if_elim P (same media (codes "application/json")) _ _
        (λ e. json_samples-keeps raw (codec.parse_json body) h)
        (λ e.
          if_elim P (same media (codes "application/x-www-form-urlencoded")) _ _
            (λ e. form_samples-keeps raw (codec.parse_query valid) h) (λ e. h))

any-append : (f : Sample → Bool) (xs ys : List Sample) → any f xs ≡ true → any f (xs ++ ys) ≡ true
any-append f [] ys h = absurd (ground (arith, h))
any-append f (x ∷ xs) ys h = elim (Bool-cases (f x)) [
  | inl e ↦ ground (arith, e)
  | inr e ↦ ground (arith, e, any-append f xs ys (ground (arith, e, h)))
]

-- A sample with the text is among them.
abbrev pub Has : Str → List Sample → Type 0
Has value items = any (λ item. same item.value value) items ≡ true

pub append-Has :
    (value : Str) (out : List Sample) (s : Sample)
    → Has value out
    → Has value (append_structured_sample out s).0
unfolding append_structured_sample
append-Has value out s h =
    ground (arith, h, any-append (λ item. same item.value value) out (s ∷ []) h)

-- The text of a body is among its samples, and so is its normal form.
pub body_samples-Has :
    (codec : Codec) (body content_type : Str)
    → Has (codec.to_valid_utf8 body) (body_samples codec body content_type)
      × Has (normalize codec (codec.to_valid_utf8 body)) (body_samples codec body content_type)
unfolding body_samples
body_samples-Has codec body content_type = (
  structured-keeps codec (Has (codec.to_valid_utf8 body)) (append-Has (codec.to_valid_utf8 body)) _
      body _ _ (ground arith),
  structured-keeps codec (Has (normalize codec (codec.to_valid_utf8 body)))
      (append-Has (normalize codec (codec.to_valid_utf8 body))) _ body _ _ (ground arith),
)
