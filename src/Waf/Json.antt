-- ===== src/Waf/Json.antt =====
-- apps/securityedge/internal/waf/inspect.go: the samples of a body, with those of its JSON or its form.
use secure_edge_platform.Prelude.{
  ℕ, ◌+◌, Bool, true, false, not, ◌||◌, Option, none, some, List, [], ◌∷◌, ◌++◌, length, ltb, leb,
  if◌then◌else◌,
}
use secure_edge_platform.Prelude.Text.{Str, codes, same, to_lower}
use secure_edge_platform.CachePolicy.{Header}
use secure_edge_platform.Waf.Samples.{
  Json, scalar, text, array, object, Items, no_items, element, Fields, no_fields, field, Codec,
  Sample, sample, max_structured_samples, append_structured_sample, normalize,
  bounded_match_location, sort_fields,
}

abbrev pub is_full : List Sample → Bool
is_full out = leb max_structured_samples (length out)

module _ (codec : Codec) where
  unfoldable mutual
    pub flatten_json : List Sample → Str → Json → ℕ → List Sample
    flatten_json out path scalar depth = out
    flatten_json out path (text v) depth =
        if ltb 12 depth || is_full out
        then out
        else (append_structured_sample out (sample path (normalize codec v))).0
    flatten_json out path (array vs) depth =
        let flat = flatten_items out path vs depth 0 in
        if ltb 12 depth || is_full out then out else flat
    flatten_json out path (object fs) depth =
        let flat = flatten_fields out path fs depth in
        if ltb 12 depth || is_full out then out else flat

    -- The elements of an array, 128 at most.
    pub flatten_items : List Sample → Str → Items → ℕ → ℕ → List Sample
    flatten_items out path no_items depth idx = out
    flatten_items out path (element v vs) depth idx =
        let flat = flatten_json out path v (depth + 1) in
        let rest = flatten_items flat path vs depth (idx + 1) in
        if is_full flat || leb 127 idx then flat else rest

    pub flatten_fields : List Sample → Str → Fields → ℕ → List Sample
    flatten_fields out path no_fields depth = out
    flatten_fields out path (field key v fs) depth =
        let (named, room) =
          append_structured_sample out (sample (path ++ codes ".key") (normalize codec key)) in
        let flat =
          flatten_json named (bounded_match_location codec (path ++ codes "." ++ key)) v
            (depth + 1) in
        let rest = flatten_fields flat path fs depth in
        if not room then named else if is_full flat then flat else rest

  -- The values of a form field, and whether there is room for more.
  unfoldable pub form_values : Str → List Str → List Sample → List Sample × Bool
  form_values key [] out = (out, true)
  form_values key (v ∷ vs) out =
      let (more, room) =
        append_structured_sample out (
          sample (bounded_match_location codec (codes "form.value:" ++ key)) (normalize codec v)) in
      let rest = form_values key vs more in if room then rest else (more, false)

  unfoldable pub form_fields : Header → List Sample → List Sample
  unfolding form_values
  form_fields [] out = out
  form_fields ((key, vs) ∷ fs) out =
      let (named, room) =
        append_structured_sample out (sample (codes "form.name") (normalize codec key)) in
      let (valued, goes_on) = form_values key vs named in
      let rest = form_fields fs valued in
      if not room then named else if goes_on then rest else valued

  abbrev media_type : Option Str → Str
  media_type none = []
  media_type (some m) = to_lower m

  -- The raw samples alone where the body does not parse.
  unfoldable pub json_samples : List Sample → Option Json → List Sample
  unfolding flatten_json
  json_samples raw none = raw
  json_samples raw (some v) = flatten_json raw (codes "json") v 0

  unfoldable pub form_samples : List Sample → Option Header → List Sample
  unfolding form_fields
  form_samples raw none = raw
  form_samples raw (some fields) = form_fields (sort_fields fields) raw

  unfoldable pub structured : Str → Str → Str → List Sample → List Sample
  unfolding json_samples form_samples
  structured media body valid raw =
      if same media (codes "application/json")
      then json_samples raw (codec.parse_json body)
      else if same media (codes "application/x-www-form-urlencoded")
      then form_samples raw (codec.parse_query valid)
      else raw

  unfoldable pub body_samples : Str → Str → List Sample
  unfolding structured
  body_samples body content_type =
      let valid = codec.to_valid_utf8 body in
      structured (media_type (codec.parse_media_type content_type)) body valid (
        sample (codes "request.body.raw") valid
        ∷ sample (codes "request.body.normalized") (normalize codec valid)
        ∷ [])
