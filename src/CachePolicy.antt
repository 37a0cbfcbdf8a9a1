-- ===== src/CachePolicy.antt =====
-- apps/edgeproxy/internal/proxy/cache_policy.go: what may be cached, and for how long. A time is a
-- number of nanoseconds since Go's zero time and a Duration an int64 number of nanoseconds;
-- `parse_time` is http.ParseTime, none an error. A header has canonical names only. The durations of
-- the configuration are not negative, as its validation ensures.
pub mod Lists
pub mod Splitting
pub mod Directives
pub mod Requests
pub mod Lifetimes
pub mod Conditions
mod Examples
use secure_edge_platform.Prelude.{
  ℕ, zero, suc, ◌+◌, ◌-◌, ◌*◌, ◌/◌, ◌^◌, Bool, true, false, not, ◌&&◌, ◌||◌, Option, none, some,
  List, [], ◌∷◌, ◌++◌, any, length, ltb, leb, ◌==◌, if◌then◌else◌,
}
use mathlib.Core.List.{reverse}
use secure_edge_platform.Prelude.Text.{
  Str, codes, same, is_empty, has_prefix, trim_space, to_lower, split,
}
use secure_edge_platform.Prelude.Maps.{Map, lookup}
use secure_edge_platform.Prelude.Int.{ℤ, pos, negsuc, pos_part, neg_part, ◌-ℤ◌}
use secure_edge_platform.Cache.Elements.{Entry}
use Lists.{
  comma, quote, parse_header_list_values, ParsedCacheControl, parse_cache_control_detailed,
  has_cache_directive, is_duplicate,
}

pub record CacheConfig : Type 0 where
  pub enabled : Bool
  pub default_ttl : ℕ
  pub stale_if_error : ℕ
  pub cacheable_status_codes : List ℕ
  pub vary_request_headers : List Str
  pub respect_origin_headers : Bool
  pub cache_authorized_requests : Bool
  pub cache_cookie_requests : Bool
  pub cache_set_cookie_responses : Bool

abbrev pub Header : Type 0
Header = Map (List Str)

pub record Request : Type 0 where
  pub method : Str
  pub header : Header

pub record Response : Type 0 where
  pub status_code : ℕ
  pub header : Header

abbrev values_or_none : Option (List Str) → List Str
values_or_none none = []
values_or_none (some vs) = vs

-- header.Values(name)
unfoldable pub values : Header → Str → List Str
values h name = values_or_none (lookup name h)

abbrev first_or_empty : List Str → Str
first_or_empty [] = []
first_or_empty (v ∷ vs) = v

-- header.Get(name)
unfoldable pub get : Header → Str → Str
unfolding values
get h name = first_or_empty (values h name)

pub header_has_non_empty_value : Header → Str → Bool
unfolding values
header_has_non_empty_value h name = any (λ value. not (is_empty (trim_space value))) (values h name)

pub header_has_token : List Str → Str → Bool
header_has_token vs token =
    any
      (λ value. any (λ raw. same (to_lower (trim_space raw)) (to_lower token)) (split comma value))
      vs

-- proxy/helpers.go
pub has_protocol_upgrade : Header → Bool
unfolding header_has_token values get
has_protocol_upgrade h =
    header_has_token (values h (codes "Connection")) (codes "upgrade")
    || not (is_empty (trim_space (get h (codes "Upgrade"))))

abbrev digit : ℕ → Option ℕ
digit c = if leb 48 c && leb c 57 then some (c - 48) else none

pub digits : ℕ → Str → Option ℕ
digits n [] = some n
digits n (c ∷ s) = elim (digit c) [ none ↦ none | some d ↦ digits (n * 10 + d) s ]

abbrev pub positive : Option ℕ → Option ℤ
positive none = none
positive (some n) = if ltb n (2 ^ 63) then some (pos n) else none

abbrev negative : Option ℕ → Option ℤ
negative none = none
negative (some zero) = some (pos 0)
negative (some (suc n)) = if ltb n (2 ^ 63) then some (negsuc n) else none

abbrev pub some_digits : Str → Option ℕ
unfolding digits
some_digits [] = none
some_digits (c ∷ s) = digits 0 (c ∷ s)

-- strconv.ParseInt(s, 10, 64)
pub parse_int : Str → Option ℤ
parse_int [] = none
parse_int (c ∷ s) =
    if c == 43
    then positive (some_digits s)
    else if c == 45
    then negative (some_digits s)
    else positive (some_digits (c ∷ s))

abbrev pub second : ℕ
second = 1_000_000_000

abbrev pub max_duration : ℕ
max_duration = 9_223_372_036_854_775_807

abbrev delta : Option ℤ → Option ℕ
delta none = none
delta (some (negsuc n)) = none
delta (some (pos n)) = if ltb (max_duration / second) n then none else some n

pub cache_delta_seconds : Str → Option ℕ
unfolding parse_int
cache_delta_seconds value = delta (parse_int (trim_space value))

abbrev pub cache_control : Header → ParsedCacheControl
cache_control h = parse_cache_control_detailed (values h (codes "Cache-Control"))

abbrev pub within : Option ℕ → ℕ → Bool
within none age = true
within (some seconds) age = leb age (seconds * second)

-- now.Sub(t), with the result of a time in the future taken as 0
abbrev pub elapsed : ℕ → ℕ → ℕ
elapsed now t = if ltb max_duration (now - t) then max_duration else now - t

abbrev within_limit : Option Str → ℕ → Bool
within_limit none age = true
within_limit (some raw) age = within (cache_delta_seconds raw) age

pub request_allows_cached_entry : Option Request → Entry → ℕ → Bool
unfolding values
request_allows_cached_entry none entry now = true
request_allows_cached_entry (some req) entry now =
    let parsed = cache_control req.header in
    if parsed.invalid || is_duplicate parsed (codes "max-age")
    then false
    else within_limit (lookup (codes "max-age") parsed.directives) (elapsed now entry.stored_at)

pub record Mode : Type 0 where
  pub lookups : Bool
  pub stores : Bool
  pub reason : Str

abbrev pub refused : Str → Mode
refused reason = record { lookups = false; stores = false; reason = reason }

abbrev is_zero : Option ℕ → Bool
is_zero none = false
is_zero (some n) = n == 0

abbrev zero_age : Option Str → Bool
zero_age none = false
zero_age (some raw) = is_zero (cache_delta_seconds raw)

pub forces_revalidation : Header → Bool
unfolding values header_has_token
forces_revalidation h =
    let cc = (cache_control h).directives in
    (has_cache_directive cc (codes "no-cache")
      || header_has_token (values h (codes "Pragma")) (codes "no-cache"))
    || zero_age (lookup (codes "max-age") cc)

pub request_cache_mode : Request → CacheConfig → Mode
unfolding has_protocol_upgrade header_has_non_empty_value values forces_revalidation
request_cache_mode req cfg =
    let parsed = cache_control req.header in
    if not cfg.enabled
    then refused (codes "disabled")
    else if has_protocol_upgrade req.header
    then refused (codes "protocol-upgrade")
    else if not (same req.method (codes "GET")) && not (same req.method (codes "HEAD"))
    then refused (codes "method")
    else if header_has_non_empty_value req.header (codes "Range")
    then refused (codes "range")
    else if parsed.invalid || is_duplicate parsed (codes "max-age")
    then refused (codes "invalid-cache-control")
    else if has_cache_directive parsed.directives (codes "no-store")
    then refused (codes "request-no-store")
    else if header_has_non_empty_value req.header (codes "Authorization")
        && not cfg.cache_authorized_requests
    then refused (codes "authorization")
    else if header_has_non_empty_value req.header (codes "Cookie") && not cfg.cache_cookie_requests
    then refused (codes "cookie")
    else record { lookups = not (forces_revalidation req.header); stores = true; reason = [] }

-- allowed of varyIsSupported
pub vary_allows : CacheConfig → Str → Bool
vary_allows cfg name =
    any (λ raw. same (to_lower (trim_space raw)) name) cfg.vary_request_headers
    || (cfg.cache_authorized_requests && same name (codes "authorization")
        || cfg.cache_cookie_requests && same name (codes "cookie"))

pub vary_item : CacheConfig → Str → Bool
unfolding vary_allows
vary_item cfg raw =
    let name = to_lower (trim_space raw) in
    if is_empty name then true else if same name (codes "*") then false else vary_allows cfg name

abbrev pub all_items : (Str → Bool) → List Str → Bool
all_items f [] = true
all_items f (x ∷ xs) = f x && all_items f xs

pub vary_is_supported : List Str → CacheConfig → Bool
unfolding vary_item
vary_is_supported vs cfg = all_items (λ value. all_items (vary_item cfg) (split comma value)) vs

abbrev max_age_seconds : ℕ
max_age_seconds = 3_153_600_000

abbrev capped_age : Option ℤ → ℕ
capped_age none = 0
capped_age (some (negsuc n)) = 0
capped_age (some (pos n)) = (if ltb max_age_seconds n then max_age_seconds else n) * second

abbrev apparent_age : Option ℕ → ℕ → ℕ → ℕ
apparent_age none now age = age
apparent_age (some date) now age = if ltb age (elapsed now date) then elapsed now date else age

pub response_initial_age : (Str → Option ℕ) → Header → ℕ → ℕ
unfolding get parse_int
response_initial_age parse_time h now =
    let raw = trim_space (get h (codes "Age")) in
    apparent_age (parse_time (get h (codes "Date"))) now
      (if is_empty raw then 0 else capped_age (parse_int raw))

-- a.Sub(b), which saturates
pub sub_time : ℕ → ℕ → ℤ
sub_time a b =
    if leb b a
    then pos (elapsed a b)
    else if ltb max_duration (b - a - 1)
    then negsuc max_duration
    else negsuc (b - a - 1)

-- ttl -= age, which wraps
pub sub_duration : ℤ → ℕ → ℤ
sub_duration ttl age =
    let d = ttl -ℤ pos age in if ltb (2 ^ 63) (neg_part d) then pos (2 ^ 64 - neg_part d) else d

abbrev or_now : Option ℕ → ℕ → ℕ
or_now none now = now
or_now (some date) now = date

abbrev seconds_ttl : Option ℕ → Option ℤ
seconds_ttl none = none
seconds_ttl (some n) = some (pos (n * second))

abbrev pub expires_ttl : Option ℕ → Option ℕ → ℕ → Option ℤ
unfolding sub_time
expires_ttl none date now = none
expires_ttl (some expires) date now = some (sub_time expires (or_now date now))

abbrev value_of : Option Str → Str
value_of none = []
value_of (some v) = v

-- The lifetime that the origin gives, none where it is not valid.
pub origin_ttl : (Str → Option ℕ) → Header → ℕ → ℕ → Option ℤ
unfolding get values cache_delta_seconds
origin_ttl parse_time h default_ttl now =
    let cc = (cache_control h).directives in
    if has_cache_directive cc (codes "s-maxage")
    then seconds_ttl (cache_delta_seconds (value_of (lookup (codes "s-maxage") cc)))
    else if has_cache_directive cc (codes "max-age")
    then seconds_ttl (cache_delta_seconds (value_of (lookup (codes "max-age") cc)))
    else if not (is_empty (trim_space (get h (codes "Expires"))))
    then expires_ttl (parse_time (get h (codes "Expires"))) (parse_time (get h (codes "Date"))) now
    else some (pos default_ttl)

-- The origin forbids the response to be stored.
pub origin_forbids : Header → Bool
unfolding values header_has_token
origin_forbids h =
    let parsed = cache_control h in
    (parsed.invalid
      || (is_duplicate parsed (codes "max-age") || is_duplicate parsed (codes "s-maxage")))
    || (has_cache_directive parsed.directives (codes "no-store")
        || (has_cache_directive parsed.directives (codes "private")
            || (has_cache_directive parsed.directives (codes "no-cache")
                || header_has_token (values h (codes "Pragma")) (codes "no-cache"))))

-- The origin forbids a stale response to be used.
pub must_revalidate : Header → Bool
unfolding values
must_revalidate h =
    has_cache_directive (cache_control h).directives (codes "must-revalidate")
    || has_cache_directive (cache_control h).directives (codes "proxy-revalidate")

pub record Policy : Type 0 where
  pub expires_at : ℕ
  pub stale_until : ℕ
  pub initial_age : ℕ

abbrev pub cached_for : ℤ → ℕ → Bool → ℕ → ℕ → Option Policy
cached_for (negsuc n) age allow_stale stale now = none
cached_for (pos n) age allow_stale stale now =
    if leb n 0
    then none
    else some (record {
      expires_at = now + n;
      stale_until = if allow_stale then now + n + stale else now + n;
      initial_age = age;
    })

abbrev pub aged : Option ℤ → ℕ → Bool → ℕ → ℕ → Option Policy
unfolding sub_duration
aged none age allow_stale stale now = none
aged (some ttl) age allow_stale stale now =
    cached_for (sub_duration ttl age) age allow_stale stale now

-- None where the response is not cacheable.
pub response_cache_policy : (Str → Option ℕ) → Response → CacheConfig → ℕ → Option Policy
unfolding header_has_non_empty_value vary_is_supported values origin_forbids origin_ttl
    response_initial_age must_revalidate
response_cache_policy parse_time resp cfg now =
    if not (any (λ status. resp.status_code == status) cfg.cacheable_status_codes)
    then none
    else if header_has_non_empty_value resp.header (codes "Set-Cookie")
        && not cfg.cache_set_cookie_responses
    then none
    else if not (vary_is_supported (values resp.header (codes "Vary")) cfg)
    then none
    else if not cfg.respect_origin_headers
    then cached_for (pos cfg.default_ttl) 0 true cfg.stale_if_error now
    else if origin_forbids resp.header
    then none
    else aged (origin_ttl parse_time resp.header cfg.default_ttl now)
        (response_initial_age parse_time resp.header now) (not (must_revalidate resp.header))
        cfg.stale_if_error now

pub if_none_match_wildcard : List Str → Bool
if_none_match_wildcard items = any (λ raw. same (trim_space raw) (codes "*")) items

abbrev quoted_or_empty : Str → Str → Str
quoted_or_empty value [] = []
quoted_or_empty value (c ∷ []) = []
quoted_or_empty value (c ∷ d ∷ s) = if c == quote then value else []

abbrev ends_quoted : Str → Bool
ends_quoted [] = false
ends_quoted (c ∷ s) = c == quote

abbrev without_weak : Str → Str
without_weak (c ∷ d ∷ s) = if (c == 87 || c == 119) && d == 47 then trim_space s else c ∷ d ∷ s
without_weak (c ∷ []) = c ∷ []
without_weak [] = []

-- A tag without the mark of a weak one; "" where it is no quoted string.
pub normalize_etag : Str → Str
normalize_etag raw =
    let value = without_weak (trim_space raw) in
    if ends_quoted (reverse value) then quoted_or_empty value value else []

pub weak_etag_match : List Str → Str → Bool
unfolding normalize_etag
weak_etag_match items current =
    not (is_empty (normalize_etag current))
    && any (λ raw. same (normalize_etag (trim_space raw)) (normalize_etag current)) items

abbrev pub none_match : Option (List Str) → Str → Bool
none_match none etag = false
none_match (some items) etag = if_none_match_wildcard items || weak_etag_match items etag

abbrev pub not_after : Option ℕ → Option ℕ → Bool
not_after none since = false
not_after (some modified) none = false
not_after (some modified) (some since) = not (ltb since modified)

abbrev pub no_values : List Str → Bool
no_values [] = true
no_values (v ∷ vs) = false

pub conditional_not_modified : (Str → Option ℕ) → Request → Header → ℕ → Bool
unfolding values get if_none_match_wildcard weak_etag_match
conditional_not_modified parse_time req header status_code =
    if ltb status_code 200 || leb 300 status_code
    then false
    else if not (no_values (values req.header (codes "If-None-Match")))
    then none_match (parse_header_list_values (values req.header (codes "If-None-Match")))
        (get header (codes "Etag"))
    else if not (is_empty (get req.header (codes "If-Modified-Since")))
    then not_after (parse_time (get header (codes "Last-Modified")))
        (parse_time (get req.header (codes "If-Modified-Since")))
    else false
