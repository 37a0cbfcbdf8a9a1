-- ===== src/Gateway/Shape.antt =====
-- apps/securityedge/internal/gateway/handler.go: the form of a request, before any component is asked.
-- A content length is none where net/http has -1, the length being unknown. Sizes in the
-- configuration are not negative, as its validation ensures. `parse_media_type` is the media type that
-- mime.ParseMediaType finds, none an error; EqualFold compares letters of ASCII.
pub mod Faults
use secure_edge_platform.Prelude.{
  ℕ, ◌+◌, Bool, true, false, not, ◌&&◌, ◌||◌, Option, none, some, List, [], ◌∷◌, any, length, ltb,
  ◌==◌, if◌then◌else◌,
}
use secure_edge_platform.Prelude.Text.{Str, codes, same, is_empty, trim_space, to_lower, split}
use secure_edge_platform.CachePolicy.{Header, values, get}

pub record Request : Type 0 where
  pub method : Str
  pub host : Str
  pub escaped_path : Str
  pub raw_query : Str
  pub header : Header
  pub trailer : Header
  pub content_length : Option ℕ
  -- req.Body != nil && req.Body != http.NoBody
  pub body : Bool

pub data Mode : Type 0 where
  off monitor block_mode : Mode

pub data Reason : Type 0 where
  no_reason path_too_large query_too_large too_many_headers header_value_too_large : Reason
  body_too_large encoded_body_rejected unsupported_body_type invalid_host : Reason
  body_read_failed client_canceled global_concurrency client_concurrency temporary_auto_ban : Reason
  ip_denied method_not_allowed global_rate_limit client_rate_limit rate_limit_capacity : Reason
  inspection_failed inspection_limit_exceeded waf_threshold waf_detection : Reason

-- The reasons as the code writes them.
unfoldable pub reason_text : Reason → Str
reason_text no_reason = []
reason_text path_too_large = codes "path_too_large"
reason_text query_too_large = codes "query_too_large"
reason_text too_many_headers = codes "too_many_headers"
reason_text header_value_too_large = codes "header_value_too_large"
reason_text body_too_large = codes "body_too_large"
reason_text encoded_body_rejected = codes "encoded_body_rejected"
reason_text unsupported_body_type = codes "unsupported_body_type"
reason_text invalid_host = codes "invalid_host"
reason_text body_read_failed = codes "body_read_failed"
reason_text client_canceled = codes "client_canceled"
reason_text global_concurrency = codes "global_concurrency"
reason_text client_concurrency = codes "client_concurrency"
reason_text temporary_auto_ban = codes "temporary_auto_ban"
reason_text ip_denied = codes "ip_denied"
reason_text method_not_allowed = codes "method_not_allowed"
reason_text global_rate_limit = codes "global_rate_limit"
reason_text client_rate_limit = codes "client_rate_limit"
reason_text rate_limit_capacity = codes "rate_limit_capacity"
reason_text inspection_failed = codes "inspection_failed"
reason_text inspection_limit_exceeded = codes "inspection_limit_exceeded"
reason_text waf_threshold = codes "waf_threshold"
reason_text waf_detection = codes "waf_detection"

-- What validateRequestShape reads of config.Policy and of config.ServerConfig.
pub record Limits : Type 0 where
  pub max_path_bytes : ℕ
  pub max_query_bytes : ℕ
  pub max_header_count : ℕ
  pub max_header_value_bytes : ℕ
  pub max_request_body_bytes : ℕ
  pub reject_encoded_request_bodies : Bool
  pub inspect_request_body : Bool
  pub reject_unsupported_body_types : Bool
  pub body_content_types : List Str

abbrev field_lines : List Str → ℕ
field_lines [] = 1
field_lines (v ∷ vs) = length (v ∷ vs)

unfoldable pub header_field_count : Header → ℕ
header_field_count [] = 0
header_field_count ((name, vs) ∷ h) = field_lines vs + header_field_count h

unfoldable pub request_header_field_count : Request → ℕ
unfolding header_field_count
request_header_field_count req =
    header_field_count req.header
    + header_field_count req.trailer
    + (if is_empty (trim_space req.host) then 0 else 1)

unfoldable pub request_has_body : Request → Bool
request_has_body req = req.body && elim req.content_length [ none ↦ true | some n ↦ not (n == 0) ]

unfoldable pub request_needs_body_staging : Request → Bool
request_needs_body_staging req =
    req.body && elim req.content_length [ none ↦ true | some n ↦ not (length req.trailer == 0) ]

abbrev equal_fold : Str → Str → Bool
equal_fold a b = same (to_lower a) (to_lower b)

unfoldable pub request_has_non_identity_content_encoding : List Str → Bool
request_has_non_identity_content_encoding = any (λ value.
    any
      (λ raw.
        not (is_empty (trim_space raw)) && not (equal_fold (trim_space raw) (codes "identity")))
      (split 44 value))

abbrev first_part : List Str → Str
first_part [] = []
first_part (p ∷ ps) = p

abbrev media_type_of : (Str → Option Str) → Str → Str
media_type_of parse_media_type raw = elim (parse_media_type raw) [
  | some media_type ↦ media_type
  | none ↦ trim_space (first_part (split 59 raw))
]

unfoldable pub content_type_allowed : (Str → Option Str) → Str → List Str → Bool
content_type_allowed parse_media_type raw =
    any (λ item. equal_fold (trim_space item) (media_type_of parse_media_type raw))

unfoldable pub method_allowed : Str → List Str → Bool
method_allowed method [] = true
method_allowed method (m ∷ allowed) = any (equal_fold method) (m ∷ allowed)

-- A value of some field is longer than the limit.
unfoldable pub oversized_value : ℕ → Header → Bool
oversized_value limit = any (λ field. any (λ value. ltb limit (length value)) field.1)

abbrev pub has_forbidden : Str → Bool
has_forbidden = any (λ c. c == 13 || (c == 10 || c == 0))

abbrev pub body_type_refused : (Str → Option Str) → Request → Limits → Bool
body_type_refused parse_media_type req limits =
    request_has_body req
    && (ltb 1 (length (values req.header (codes "Content-Type")))
        || (limits.inspect_request_body
            && (limits.reject_unsupported_body_types
                && not (
                    content_type_allowed parse_media_type (get req.header (codes "Content-Type"))
                      limits.body_content_types))))

abbrev pub longer_body : Option ℕ → ℕ → Bool
longer_body none limit = false
longer_body (some n) limit = ltb limit n

-- The status and the reason of a refusal, none where the code answers 0.
unfoldable pub validate_request_shape : (Str → Option Str) → Request → Limits → Option (ℕ × Reason)
unfolding request_header_field_count oversized_value request_has_non_identity_content_encoding
    request_has_body content_type_allowed
validate_request_shape parse_media_type req limits =
    if ltb limits.max_path_bytes (length req.escaped_path)
    then some (414, path_too_large)
    else if ltb limits.max_query_bytes (length req.raw_query)
    then some (414, query_too_large)
    else if ltb limits.max_header_count (request_header_field_count req)
    then some (431, too_many_headers)
    else if ltb limits.max_header_value_bytes (length req.host)
    then some (431, header_value_too_large)
    else if oversized_value limits.max_header_value_bytes req.header
        || oversized_value limits.max_header_value_bytes req.trailer
    then some (431, header_value_too_large)
    else if longer_body req.content_length limits.max_request_body_bytes
    then some (413, body_too_large)
    else if limits.reject_encoded_request_bodies
        && request_has_non_identity_content_encoding (values req.header (codes "Content-Encoding"))
    then some (415, encoded_body_rejected)
    else if body_type_refused parse_media_type req limits
    then some (415, unsupported_body_type)
    else if is_empty req.host || has_forbidden req.host
    then some (400, invalid_host)
    else none
