-- ===== src/CachePolicy/Examples.antt =====
-- CachePolicy: tests at concrete inputs.
use mathlib.Core.Logic.{◌↔◌}
use secure_edge_platform.Prelude.{
  ℕ, suc, ◌+◌, ◌-◌, ◌^◌, ◌≡◌, refl, Bool, true, false, not, ◌&&◌, Option, none, some, List, [], ◌∷◌,
  if◌then◌else◌, All, leb,
}
use secure_edge_platform.Prelude.Text.{
  Str, codes, is_empty, trim_space, trim_left, is_space, to_lower, lower, split, str_dec,
  has_prefix,
}
use secure_edge_platform.Prelude.Maps.{lookup, insert}
use secure_edge_platform.Prelude.Int.{pos, negsuc, ◌-ℤ◌}
use secure_edge_platform.Cache.Elements.{Entry}
use secure_edge_platform.CachePolicy.Lists.{
  split_header_list, split_from, scan_byte, parse_cache_control_detailed, add_values,
  add_directives, add_directive, directive_key, split_equals, unquote_header_value, unescape,
  is_duplicate, has_cache_directive, parse_header_list_values,
}
use secure_edge_platform.CachePolicy.{
  CacheConfig, Header, Request, Response, Policy, values, get, request_cache_mode,
  response_cache_policy, conditional_not_modified, request_allows_cached_entry, vary_is_supported,
  vary_item, vary_allows, header_has_non_empty_value, header_has_token, has_protocol_upgrade,
  parse_int, digits, some_digits, cache_delta_seconds, forces_revalidation, response_initial_age,
  sub_time, sub_duration, origin_ttl, expires_ttl, origin_forbids, must_revalidate,
  if_none_match_wildcard, normalize_etag, weak_etag_match, aged, cached_for, max_duration,
}
use secure_edge_platform.CachePolicy.Splitting.{joined}
use secure_edge_platform.CachePolicy.Splitting.Grammar.{IsItem, split_header_list_iff}
use secure_edge_platform.CachePolicy.Requests.{IsCacheableRequest, request_cache_mode_iff}
use secure_edge_platform.CachePolicy.Lifetimes.{
  IsCacheableResponse, IsTimed, response_cache_policy_sound, response_cache_policy-time, aged-wraps,
}

program : Unit {0}
unfolding split_header_list split_from scan_byte parse_cache_control_detailed add_values
    add_directives add_directive directive_key split_equals unquote_header_value unescape
    has_cache_directive parse_header_list_values values get request_cache_mode response_cache_policy
    conditional_not_modified request_allows_cached_entry vary_is_supported vary_item vary_allows
    header_has_non_empty_value header_has_token has_protocol_upgrade parse_int digits some_digits
    cache_delta_seconds forces_revalidation response_initial_age sub_time sub_duration ◌-ℤ◌
    origin_ttl expires_ttl origin_forbids must_revalidate if_none_match_wildcard normalize_etag
    weak_etag_match aged lookup insert trim_space trim_left is_space to_lower lower split str_dec
    has_prefix
program = tt

abbrev config : CacheConfig
config = record {
  enabled = true;
  default_ttl = 60_000_000_000;
  stale_if_error = 30_000_000_000;
  cacheable_status_codes = 200 ∷ [];
  vary_request_headers = codes "Accept-Encoding" ∷ [];
  respect_origin_headers = true;
  cache_authorized_requests = false;
  cache_cookie_requests = false;
  cache_set_cookie_responses = false;
}

-- "never" is the zero time of Go; any other date is that of the year 2000.
abbrev parse_time : Str → Option ℕ
parse_time s =
    if is_empty s then none else if s_is_never s then some 0 else some 63_082_281_600_000_000_000
  where
    s_is_never : Str → Bool
    s_is_never s = has_prefix s (codes "never")

abbrev quoted : Str
quoted = codes "private=\"a,b\", no-store"

splits : split_header_list quoted ≡ some (codes "private=\"a,b\"" ∷ codes " no-store" ∷ [])
unfolding program
splits = refl

split_header_list_iff_example :
    (split_header_list quoted ≡ some (codes "private=\"a,b\"" ∷ codes " no-store" ∷ []))
    ↔ (joined (codes "private=\"a,b\"" ∷ codes " no-store" ∷ []) ≡ quoted)
      × All IsItem (codes "private=\"a,b\"" ∷ codes " no-store" ∷ [])
split_header_list_iff_example =
    split_header_list_iff quoted (codes "private=\"a,b\"") (codes " no-store" ∷ [])

are_items : All IsItem (codes "private=\"a,b\"" ∷ codes " no-store" ∷ [])
are_items = (split_header_list_iff_example.0 splits).1

abbrev cache_control_lines : List Str
cache_control_lines = codes "max-age=5, No-Store" ∷ codes "max-age=6" ∷ []

duplicate : is_duplicate (parse_cache_control_detailed cache_control_lines) (codes "max-age") ≡ true
unfolding program
duplicate = refl

abbrev request : Request
request = record {
  method = codes "GET";
  header =
      (codes "Cache-Control", codes "max-age=5" ∷ [])
      ∷ (codes "If-None-Match", codes "\"x\", W/\"tag\"" ∷ [])
      ∷ [];
}

request_cache_mode_iff_example :
    ((request_cache_mode request config).stores ≡ true ↔ IsCacheableRequest request config)
    × ((request_cache_mode request config).lookups
        ≡ ((request_cache_mode request config).stores && not (forces_revalidation request.header)))
    × (is_empty (request_cache_mode request config).reason
        ≡ (request_cache_mode request config).stores)
request_cache_mode_iff_example = request_cache_mode_iff request config

may_fill : (request_cache_mode request config).stores ≡ true
unfolding program
may_fill = refl

abbrev entry : Entry
entry = record {
  status_code = 200;
  header = [];
  body = [];
  stored_at = 0;
  expires_at = 10_000_000_000;
  stale_until = 20_000_000_000;
}

allows : request_allows_cached_entry (some request) entry 4_000_000_000 ≡ true
unfolding program
allows = refl

abbrev now : ℕ
now = 63_082_281_600_000_000_000

abbrev response : Response
response = record {
  status_code = 200;
  header =
      (codes "Cache-Control", codes "s-maxage=10, max-age=99" ∷ [])
      ∷ (codes "Age", codes "4" ∷ [])
      ∷ [];
}

abbrev six_seconds : Policy
six_seconds = record {
  expires_at = 63_082_281_606_000_000_000;
  stale_until = 63_082_281_636_000_000_000;
  initial_age = 4_000_000_000;
}

stored : response_cache_policy parse_time response config now ≡ some six_seconds
unfolding program
stored = refl

response_cache_policy_sound_example :
    IsCacheableResponse response config × IsTimed response config now six_seconds
response_cache_policy_sound_example =
    response_cache_policy_sound parse_time response config now six_seconds stored

ten_seconds :
    origin_ttl parse_time response.header config.default_ttl now ≡ some (pos 10_000_000_000)
unfolding program
ten_seconds = refl

response_cache_policy-time_example :
    (six_seconds.initial_age ≡ response_initial_age parse_time response.header now)
    × (six_seconds.expires_at + six_seconds.initial_age ≡ now + 10_000_000_000)
response_cache_policy-time_example =
    response_cache_policy-time parse_time response config now 10_000_000_000 six_seconds refl
      ten_seconds stored

aged-wraps_example : aged (some (negsuc max_duration)) 1_000_000_000 true 0 now ≡ (
    if leb (max_duration + 1_000_000_000) max_duration
    then none
    else cached_for (pos (2 ^ 64 - suc (max_duration + 1_000_000_000))) 1_000_000_000 true 0 now)
aged-wraps_example = aged-wraps max_duration 1_000_000_000 true 0 now

-- A response that expired at Go's zero time and carries an Age is stored for 292 years.
abbrev expired : Response
expired = record {
  status_code = 200;
  header = (codes "Expires", codes "never" ∷ []) ∷ (codes "Age", codes "1" ∷ []) ∷ [];
}

expired_stored :
    response_cache_policy parse_time expired config now
    ≡ some (record {
      expires_at = 63_082_281_600_000_000_000 + 9_223_372_035_854_775_808;
      stale_until = 63_082_281_600_000_000_000 + 9_223_372_035_854_775_808 + 30_000_000_000;
      initial_age = 1_000_000_000;
    })
unfolding program
expired_stored = refl

abbrev tagged : Header
tagged = (codes "Etag", codes "\"tag\"" ∷ []) ∷ []

not_modified : conditional_not_modified parse_time request tagged 200 ≡ true
unfolding program
not_modified = refl
