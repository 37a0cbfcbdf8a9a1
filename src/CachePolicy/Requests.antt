-- ===== src/CachePolicy/Requests.antt =====
-- CachePolicy: which requests may read and fill the cache.
use secure_edge_platform.Prelude.{
  ℕ, ◌↔◌, ◌≡◌, ◌≤◌, refl, ◌⊎◌, ◌*◌, Bool, true, false, not, ◌&&◌, ◌||◌, some, List, [], ◌∷◌, arith,
  All, any,
}
use secure_edge_platform.Prelude.Text.{Str, codes, same, trim_space, to_lower, split, is_empty}
use secure_edge_platform.Prelude.Maps.{lookup}
use secure_edge_platform.Cache.Elements.{Entry}
use secure_edge_platform.CachePolicy.Lists.{comma, has_cache_directive, is_duplicate}
use secure_edge_platform.CachePolicy.{
  CacheConfig, Request, has_protocol_upgrade, header_has_token, values, get,
  header_has_non_empty_value, cache_control, forces_revalidation, request_cache_mode,
  request_allows_cached_entry, elapsed, cache_delta_seconds, second, vary_item, vary_is_supported,
  vary_allows, all_items,
}

-- What a request needs to take part in caching.
pub record IsCacheableRequest (req : Request) (cfg : CacheConfig) : Type 0 where
  pub enabled : cfg.enabled ≡ true
  pub no_upgrade_token :
      any
        (λ value.
          any (λ raw. same (to_lower (trim_space raw)) (codes "upgrade")) (split comma value))
        (values req.header (codes "Connection"))
      ≡ false
  pub no_upgrade_field : trim_space (get req.header (codes "Upgrade")) ≡ []
  pub reads : (same req.method (codes "GET") || same req.method (codes "HEAD")) ≡ true
  pub whole :
      any (λ value. not (is_empty (trim_space value))) (values req.header (codes "Range")) ≡ false
  pub well_formed : (cache_control req.header).invalid ≡ false
  pub unambiguous : is_duplicate (cache_control req.header) (codes "max-age") ≡ false
  pub storable :
      has_cache_directive (cache_control req.header).directives (codes "no-store") ≡ false
  pub anonymous :
      (header_has_non_empty_value req.header (codes "Authorization")
        && not cfg.cache_authorized_requests)
      ≡ false
  pub cookieless :
      (header_has_non_empty_value req.header (codes "Cookie") && not cfg.cache_cookie_requests)
      ≡ false

-- A request may fill the cache exactly if caching is on for the route, it asks for no other protocol,
-- neither by a token of Connection nor by an Upgrade field, it is a GET or HEAD of the whole resource
-- with an unambiguous Cache-Control that does not say no-store, and its credentials and cookies, if
-- any, are such as the configuration allows. It may then read the cache too unless it forces
-- revalidation; otherwise it may not, and a reason is given exactly then.
pub request_cache_mode_iff :
    (req : Request) (cfg : CacheConfig)
    → ((request_cache_mode req cfg).stores ≡ true ↔ IsCacheableRequest req cfg)
      × ((request_cache_mode req cfg).lookups
          ≡ ((request_cache_mode req cfg).stores && not (forces_revalidation req.header)))
      × (is_empty (request_cache_mode req cfg).reason ≡ (request_cache_mode req cfg).stores)
unfolding request_cache_mode has_protocol_upgrade header_has_token header_has_non_empty_value
    to_lower
request_cache_mode_iff req cfg = (
  (
    λ h. record {
      enabled = ground (arith, h);
      no_upgrade_token = ground (arith, h);
      no_upgrade_field = ground (arith, h);
      reads = ground (arith, h);
      whole = ground (arith, h);
      well_formed = ground (arith, h);
      unambiguous = ground (arith, h);
      storable = ground (arith, h);
      anonymous = ground (arith, h);
      cookieless = ground (arith, h);
    },
    λ s. ground (
      arith, s.enabled, s.no_upgrade_token, s.no_upgrade_field, s.reads, s.whole, s.well_formed,
      s.unambiguous, s.storable, s.anonymous, s.cookieless,
    ),
  ),
  ground arith,
  ground arith,
)

within_limit_sound :
    (req : Request) (entry : Entry) (now : ℕ) (raw : Str) (n : ℕ)
    → lookup (codes "max-age") (cache_control req.header).directives ≡ some raw
    → cache_delta_seconds raw ≡ some n
    → request_allows_cached_entry (some req) entry now ≡ true
    → elapsed now entry.stored_at ≤ n * second
unfolding request_allows_cached_entry
within_limit_sound req entry now raw n e f h = ground (arith, e, f, h)

-- A cached entry serves a request only if the request's Cache-Control is well-formed and has no
-- second max-age, and the entry is no older than that max-age, where it is valid.
pub request_allows_cached_entry_sound :
    (req : Request) (entry : Entry) (now : ℕ)
    → request_allows_cached_entry (some req) entry now ≡ true
    → ((cache_control req.header).invalid ≡ false)
      × (is_duplicate (cache_control req.header) (codes "max-age") ≡ false)
      × ((raw : Str) (n : ℕ)
          → lookup (codes "max-age") (cache_control req.header).directives ≡ some raw
          → cache_delta_seconds raw ≡ some n
          → elapsed now entry.stored_at ≤ n * second)
unfolding request_allows_cached_entry
request_allows_cached_entry_sound req entry now h = (
  ground (arith, h),
  ground (arith, h),
  λ raw n e f. within_limit_sound req entry now raw n e f h,
)

-- A name in the list of a Vary header that the cache key can tell apart.
abbrev pub IsKeyed : CacheConfig → Str → Type 0
IsKeyed cfg raw =
    (to_lower (trim_space raw) ≡ [])
    ⊎ (same (to_lower (trim_space raw)) (codes "*") ≡ false)
      × (vary_allows cfg (to_lower (trim_space raw)) ≡ true)

vary_item_iff : (cfg : CacheConfig) (raw : Str) → (vary_item cfg raw ≡ true) ↔ IsKeyed cfg raw
unfolding vary_item
vary_item_iff cfg raw = ((λ h. ground (arith, h)), λ k. ground (arith, k))

all_items_iff :
    (f : Str → Bool) (P : Str → Type 0)
    → ((x : Str) → (f x ≡ true) ↔ P x)
    → (xs : List Str) → (all_items f xs ≡ true) ↔ All P xs
all_items_iff f P e [] = ((λ h. tt), (λ h. refl))
all_items_iff f P e (x ∷ xs) =
    let (to, from) = all_items_iff f P e xs in
    (
      (λ h. ((e x).0 (ground (arith, h)), to (ground (arith, h)))),
      λ (p, ps). ground (arith, (e x).1 p, from ps),
    )

-- The Vary header of a response is supported exactly if each name in each of its fields is one that
-- the cache key can tell apart: none is "*", and each is configured or a credential that is keyed.
pub vary_is_supported_iff :
    (vs : List Str) (cfg : CacheConfig)
    → (vary_is_supported vs cfg ≡ true) ↔ All (λ value. All (IsKeyed cfg) (split comma value)) vs
unfolding vary_is_supported
vary_is_supported_iff vs cfg =
    all_items_iff (λ value. all_items (vary_item cfg) (split comma value))
      (λ value. All (IsKeyed cfg) (split comma value))
      (λ value. all_items_iff (vary_item cfg) (IsKeyed cfg) (vary_item_iff cfg) (split comma value))
      vs
