-- ===== src/CacheKey.antt =====
-- apps/edgeproxy/internal/proxy/cache_policy.go, lines 17-92 and 477-498: the key of a response in the
-- cache, and what the administration reads back from it. `ip` is net.ParseIP followed by String; the
-- request's URI is what canonicalRequestURI makes of it.
pub mod Reading
mod Examples
use secure_edge_platform.Prelude.{
  ℕ, Bool, true, false, not, ◌&&◌, ◌||◌, Option, none, some, List, [], ◌∷◌, ◌++◌, any,
  if◌then◌else◌,
}
use secure_edge_platform.Prelude.Text.{
  Str, codes, same, is_empty, has_prefix, has_suffix, trim_prefix, trim_suffix, trim_space,
  to_lower, split,
}
use secure_edge_platform.Router.Hosts.{split_host_port, contains, colon}
use secure_edge_platform.CachePolicy.{CacheConfig, Header, Request, values}

-- base64.RawURLEncoding, the hexadecimal SHA-256 of values with a zero byte behind each, and
-- http.CanonicalHeaderKey.
pub record Codec : Type 0 where
  pub encode : Str → Str
  pub decode : Str → Option Str
  pub digest : List Str → Str
  pub canonical_header_key : Str → Str

-- net.JoinHostPort
abbrev join_host_port : Str → Str → Str
unfolding contains
join_host_port host port =
    if contains colon host
    then codes "[" ++ (host ++ (codes "]:" ++ port))
    else host ++ (codes ":" ++ port)

abbrev or_text : Option Str → Str → Str
or_text none s = s
or_text (some t) s = t

pub cache_host : (Str → Option Str) → Str → Str
unfolding split_host_port join_host_port
cache_host ip raw =
    let hostport = to_lower (trim_space raw) in
    elim (split_host_port hostport) [
      | some (host, port) ↦
          join_host_port
            (or_text (ip (trim_suffix host (codes "."))) (trim_suffix host (codes "."))) port
      | none ↦
          or_text
            (if has_prefix hostport (codes "[") && has_suffix hostport (codes "]")
              then ip (trim_suffix (trim_prefix hostport (codes "[")) (codes "]"))
              else none)
            (or_text (ip hostport) (trim_suffix hostport (codes ".")))
    ]

abbrev pub bar : ℕ
bar = 124

abbrev pub key_method : Str → Str
key_method method = if same method (codes "HEAD") then codes "GET" else method

abbrev pub header_field : Codec → Header → Str → Str
unfolding values
header_field c h canonical =
    codes "|h:" ++ (to_lower canonical ++ (codes "=" ++ c.digest (values h canonical)))

-- The calls of appendHeader, with the names seen so far.
pub append_headers : Codec → Header → List Str → List Str → Str
unfolding header_field
append_headers c h seen [] = []
append_headers c h seen (name ∷ names) =
    let canonical = c.canonical_header_key (trim_space name) in
    let skipped = append_headers c h seen names in
    let added = append_headers c h (to_lower canonical ∷ seen) names in
    if is_empty canonical || any (λ s. same s (to_lower canonical)) seen
    then skipped
    else header_field c h canonical ++ added

abbrev pub keyed_headers : CacheConfig → List Str
keyed_headers cfg =
    cfg.vary_request_headers
    ++ ((if cfg.cache_authorized_requests then codes "Authorization" ∷ [] else [])
        ++ (if cfg.cache_cookie_requests then codes "Cookie" ∷ [] else []))

pub header_part : Codec → Request → CacheConfig → Str
unfolding append_headers
header_part c req cfg = append_headers c req.header [] (keyed_headers cfg)

-- For the Host header of a request and its canonical URI.
pub cache_key : Codec → (Str → Option Str) → Request → Str → Str → CacheConfig → Str
unfolding cache_host header_part
cache_key c ip req host uri cfg =
    (codes "method=" ++ key_method req.method)
    ++ bar
      ∷ ((codes "host64=" ++ c.encode (cache_host ip host))
          ++ bar ∷ ((codes "uri64=" ++ c.encode uri) ++ header_part c req cfg))

-- The loop over the fields of a key: the encoded host and URI found last.
pub collect : List Str → Str → Str → Str × Str
collect [] host uri = (host, uri)
collect (field ∷ fields) host uri =
    collect fields
      (if has_prefix field (codes "host64=") then trim_prefix field (codes "host64=") else host)
      (if has_prefix field (codes "host64=")
        then uri
        else if has_prefix field (codes "uri64=")
        then trim_prefix field (codes "uri64=")
        else uri)

abbrev pub decode_both : Codec → Str × Str → Option (Str × Str)
decode_both c (host, uri) = if is_empty host || is_empty uri then none else elim (c.decode host) [
  | none ↦ none
  | some h ↦ elim (c.decode uri) [ none ↦ none | some u ↦ some (h, u) ]
]

pub cache_key_request : Codec → Str → Option (Str × Str)
unfolding collect
cache_key_request c key = decode_both c (collect (split bar key) [] [])
