-- ===== src/Waf/Coverage.antt =====
-- Waf.Samples: the path and the query of a request are among its samples, whatever else is.
use secure_edge_platform.Prelude.{
  ℕ, suc, inl, inr, Bool, not, List, [], ◌∷◌, ◌++◌, leb, arith, if_elim, Option-cases,
}
use secure_edge_platform.Prelude.Text.{Str, codes}
use secure_edge_platform.CachePolicy.{Header}
use secure_edge_platform.Waf.Samples.{
  Codec, Sample, Url, sample, append_structured_sample, multi_decode, normalize,
  bounded_match_location, path_samples, query_values, query_fields, query_samples, sort_fields,
}
use secure_edge_platform.Waf.Growth.{Has, append-Has}

module _ (codec : Codec) where
  -- The text itself, and what it is decoded and normalized to.
  pub record HasForms (value : Str) (items : List Sample) : Type 0 where
    pub raw : Has value items
    pub decoded : Has (multi_decode codec.query_unescape value) items
    pub normal : Has (normalize codec (multi_decode codec.query_unescape value)) items

  module _ (value : Str) where
    query_values-Has :
        (key : Str) (idx : ℕ) (vs : List Str) (out : List Sample)
        → Has value out
        → Has value (query_values codec key idx vs out).0
    unfolding query_values
    query_values-Has key idx [] out h = h
    query_values-Has key idx (v ∷ vs) out h =
        if_elim (λ (r : List Sample × Bool). Has value r.0) (not more.1) _ _ (λ e. m)
          (λ e.
            if_elim (λ (r : List Sample × Bool). Has value r.0) (leb 31 idx) _ _ (λ e. m)
              (λ e. query_values-Has key (suc idx) vs more.0 m))
      where
        more : List Sample × Bool
        more = append_structured_sample out (
            sample (bounded_match_location codec (codes "query.value:" ++ key)) (normalize codec v))

        m : Has value more.0
        m = append-Has value out _ h

    query_fields-Has :
        (fs : Header) (out : List Sample) → Has value out → Has value (query_fields codec fs out)
    unfolding query_fields
    query_fields-Has [] out h = h
    query_fields-Has ((key, vs) ∷ fs) out h =
        if_elim (Has value) (not named.1) _ _ (λ e. n)
          (λ e.
            if_elim (Has value) (query_values codec key 0 vs named.0).1 _ _
              (λ e. query_fields-Has fs _ (query_values-Has key 0 vs named.0 n))
              (λ e. query_values-Has key 0 vs named.0 n))
      where
        named : List Sample × Bool
        named = append_structured_sample out (sample (codes "query.name") (normalize codec key))

        n : Has value named.0
        n = append-Has value out _ h

  pub query_samples-HasForms : (u : Url) → HasForms u.raw_query (query_samples codec u)
  unfolding query_samples
  query_samples-HasForms u = elim (Option-cases (codec.parse_query u.raw_query)) [
    | inl e ↦
        rw (e, query_samples)
          (record { raw = ground arith; decoded = ground arith; normal = ground arith })
    | inr (fields, e) ↦
        rw (e, query_samples)
          (record {
            raw = query_fields-Has _ (sort_fields fields) _ (ground arith);
            decoded = query_fields-Has _ (sort_fields fields) _ (ground arith);
            normal = query_fields-Has _ (sort_fields fields) _ (ground arith);
          })
  ]

  pub path_samples-HasForms : (u : Url) → HasForms u.escaped_path (path_samples codec u)
  unfolding path_samples
  path_samples-HasForms u = record {
    raw = ground arith;
    decoded = ground arith;
    normal = ground arith;
  }
