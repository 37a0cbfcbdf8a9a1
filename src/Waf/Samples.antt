-- ===== src/Waf/Samples.antt =====
-- apps/securityedge/internal/waf/inspect.go: the texts of a request that the rules are tried on. What
-- other packages make of a text is the parameter Codec. Header fields are by canonical name.
use secure_edge_platform.Prelude.{
  ℕ, zero, suc, ◌+◌, Bool, true, false, not, ◌||◌, Option, none, some, List, [], ◌∷◌, ◌++◌, length,
  take, keep, ltb, leb, ◌==◌, if◌then◌else◌, drop,
}
use secure_edge_platform.Prelude.Text.{Str, codes, same, is_empty, trim_space, to_lower, str_lt}
use secure_edge_platform.CachePolicy.{Header, values}

-- A JSON value as json.Unmarshal gives it; the fields of an object stand in the order of their keys.
mutual
  pub data Json : Type 0 where
    scalar : Json
    text : Str → Json
    array : Items → Json
    object : Fields → Json

  pub data Items : Type 0 where
    no_items : Items
    element : Json → Items → Items

  pub data Fields : Type 0 where
    no_fields : Fields
    field : Str → Json → Fields → Fields

-- url.PathUnescape, url.QueryUnescape and url.ParseQuery, none an error; strings.ToValidUTF8 with "?",
-- html.UnescapeString, the conversion to valid UTF-8 at the end of normalize; mime.ParseMediaType,
-- json.Unmarshal; and the first bytes of a SHA-256 in hexadecimal.
pub record Codec : Type 0 where
  pub path_unescape : Str → Option Str
  pub query_unescape : Str → Option Str
  pub parse_query : Str → Option Header
  pub to_valid_utf8 : Str → Str
  pub unescape_html : Str → Str
  pub runes : Str → Str
  pub parse_media_type : Str → Option Str
  pub parse_json : Str → Option Json
  pub fingerprint : Str → Str

pub record Sample : Type 0 where
  pub location : Str
  pub value : Str

pub record Url : Type 0 where
  pub path : Str
  pub escaped_path : Str
  pub raw_query : Str

-- `cookies` are those of req.Cookies(); a request without a body has none; `read_fails` says that its
-- body fails within the bytes that are read.
pub record HttpRequest : Type 0 where
  pub url : Url
  pub host : Str
  pub header : Header
  pub trailer : Header
  pub cookies : List (Str × Str)
  pub body : Option Str
  pub read_fails : Bool

abbrev pub max_structured_samples : ℕ
max_structured_samples = 512

abbrev pub sample : Str → Str → Sample
sample l v = record { location = l; value = v }

-- The loops of multiDecode and multiPathDecode, with the rounds that are left.
unfoldable pub decode_rounds : ℕ → (Str → Option Str) → Str → Str
decode_rounds zero decode out = out
decode_rounds (suc n) decode out = elim (decode out) [
  | none ↦ out
  | some decoded ↦
      let rest = decode_rounds n decode decoded in if same decoded out then out else rest
]

unfoldable pub multi_decode : (Str → Option Str) → Str → Str
unfolding decode_rounds
multi_decode decode value = decode_rounds 3 decode value

unfoldable pub append_structured_sample : List Sample → Sample → List Sample × Bool
append_structured_sample out item =
    if leb max_structured_samples (length out) then (out, false) else (out ++ item ∷ [], true)

-- sort.Strings over the names of a header or of a parsed query.
unfoldable pub insert_field : Str × List Str → Header → Header
insert_field f [] = f ∷ []
insert_field f (g ∷ h) =
    let rest = insert_field f h in if str_lt g.0 f.0 then g ∷ rest else f ∷ g ∷ h

unfoldable pub sort_fields : Header → Header
unfolding insert_field
sort_fields [] = []
sort_fields (f ∷ h) = insert_field f (sort_fields h)

abbrev default_fields : ℕ → ℕ
default_fields n = if n == 0 then 100 else n

module _ (codec : Codec) where
  open codec use {query_unescape, parse_query, to_valid_utf8, unescape_html, runes, fingerprint}

  unfoldable pub normalize : Str → Str
  unfolding multi_decode
  normalize value =
      runes (
        keep (λ c. not (c == 0))
          (multi_decode query_unescape (unescape_html (to_valid_utf8 value))))

  unfoldable pub bounded_match_location : Str → Str
  bounded_match_location value =
      if leb (length value) 256 then value else codes "oversized-field:" ++ fingerprint value

  unfoldable pub path_samples : Url → List Sample
  unfolding normalize
  path_samples u =
      let decoded = multi_decode query_unescape u.escaped_path in
      sample (codes "url.path.raw") u.escaped_path
      ∷ sample (codes "url.path.decoded") decoded
      ∷ sample (codes "url.path.normalized") (normalize decoded)
      ∷ []

  -- The values of one key, 32 at most; whether the loop over the keys goes on.
  unfoldable pub query_values : Str → ℕ → List Str → List Sample → List Sample × Bool
  unfolding append_structured_sample bounded_match_location normalize
  query_values key idx [] out = (out, true)
  query_values key idx (v ∷ vs) out =
      let (more, room) =
        append_structured_sample out
          (sample (bounded_match_location (codes "query.value:" ++ key)) (normalize v)) in
      let rest = query_values key (suc idx) vs more in
      if not room then (more, false) else if leb 31 idx then (more, true) else rest

  unfoldable pub query_fields : Header → List Sample → List Sample
  unfolding query_values
  query_fields [] out = out
  query_fields ((key, vs) ∷ fs) out =
      let (named, room) =
        append_structured_sample out (sample (codes "query.name") (normalize key)) in
      let (valued, goes_on) = query_values key 0 vs named in
      let rest = query_fields fs valued in
      if not room then named else if goes_on then rest else valued

  unfoldable pub query_samples : Url → List Sample
  unfolding query_fields sort_fields
  query_samples u =
      let decoded = multi_decode query_unescape u.raw_query in
      let raw =
        sample (codes "url.query.raw") u.raw_query
        ∷ sample (codes "url.query.decoded") decoded
        ∷ sample (codes "url.query.normalized") (normalize decoded)
        ∷ [] in
      elim (parse_query u.raw_query) [
        | none ↦ raw
        | some fields ↦ query_fields (sort_fields fields) raw
      ]

  -- The values of a field, while the count of fields is below its limit.
  unfoldable pub value_samples : ℕ → Str → List Str → List Sample → ℕ → List Sample × ℕ × Bool
  value_samples max_fields location [] out fields = (out, fields, true)
  value_samples max_fields location (v ∷ vs) out fields =
      let more = out ++ sample (bounded_match_location location) (normalize v) ∷ [] in
      let rest = value_samples max_fields location vs more (fields + 1) in
      if leb max_fields (fields + 1) then (more, fields + 1, false) else rest

  abbrev is_credential : Str → Bool
  is_credential name =
      same (to_lower name) (codes "authorization")
      || (same (to_lower name) (codes "proxy-authorization")
          || same (to_lower name) (codes "cookie"))

  abbrev no_values : List Str → Bool
  no_values [] = true
  no_values (v ∷ vs) = false

  -- appendFields: the names and values of a header's fields, and whether the limit leaves room.
  unfoldable pub append_fields : ℕ → Str → Str → Header → List Sample → ℕ → List Sample × ℕ × Bool
  unfolding value_samples
  append_fields max_fields name_location prefix [] out fields = (out, fields, true)
  append_fields max_fields name_location prefix ((name, vs) ∷ h) out fields =
      let skipped = append_fields max_fields name_location prefix h out fields in
      let named = out ++ sample name_location name ∷ [] in
      let counted = append_fields max_fields name_location prefix h named (fields + 1) in
      let (valued, count, room) =
        value_samples max_fields (prefix ++ to_lower name) vs named fields in
      let rest = append_fields max_fields name_location prefix h valued count in
      if is_credential name
      then skipped
      else if no_values vs
      then (if leb max_fields (fields + 1) then (named, fields + 1, false) else counted)
      else if room
      then rest
      else (valued, count, false)

  abbrev header_and_trailer : ℕ → HttpRequest → List Sample → ℕ → List Sample
  header_and_trailer max_fields req out fields =
      let (headed, count, room) =
        append_fields max_fields (codes "header.name") (codes "header:") (sort_fields req.header)
          out fields in
      if not room
      then headed
      else (append_fields max_fields (codes "trailer.name") (codes "trailer:")
          (sort_fields req.trailer) headed count).0

  unfoldable pub header_samples : HttpRequest → ℕ → List Sample
  unfolding append_fields
  header_samples req max_header_count =
      let max_fields = default_fields max_header_count in
      if is_empty (trim_space req.host)
      then header_and_trailer max_fields req [] 0
      else (let hosted =
            sample (codes "header.name") (codes "Host")
            ∷ sample (codes "header:host") (normalize req.host)
            ∷ [] in
          if leb max_fields 1 then hosted else header_and_trailer max_fields req hosted 1)

  unfoldable pub cookie_raw : List Str → List Sample
  cookie_raw [] = []
  cookie_raw (raw ∷ rest) = sample (codes "cookie.raw") (normalize raw) ∷ cookie_raw rest

  unfoldable pub cookie_pairs : List (Str × Str) → List Sample
  cookie_pairs [] = []
  cookie_pairs ((name, value) ∷ rest) =
      sample (codes "cookie.name") (normalize name)
      ∷ sample (bounded_match_location (codes "cookie:" ++ name)) (normalize value)
      ∷ cookie_pairs rest

  -- As many raw fields as the limit allows, one at least, and 64 cookies.
  unfoldable pub cookie_samples : HttpRequest → ℕ → List Sample
  unfolding cookie_raw cookie_pairs
  cookie_samples req max_header_fields =
      cookie_raw (take (default_fields max_header_fields) (values req.header (codes "Cookie")))
      ++ cookie_pairs (take 64 req.cookies)

-- The bytes of the body that are inspected, whether there are more, and the body that the next reader
-- gets; none where reading fails.
unfoldable pub read_and_restore : HttpRequest → Str → ℕ → Option (Str × Bool × Str)
read_and_restore req body limit =
    let buf = take (limit + 1) body in
    if req.read_fails
    then none
    else if ltb limit (length buf)
    then some (take limit buf, true, buf ++ drop (limit + 1) body)
    else some (buf, false, buf)
