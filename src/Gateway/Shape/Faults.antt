-- ===== src/Gateway/Shape/Faults.antt =====
-- Gateway.Shape: which requests are well formed, and what the others are refused with.
use secure_edge_platform.Prelude.{
  ℕ, ◌≡◌, ◌≤◌, ◌<◌, ◌↔◌, refl, Bool, true, false, ◌&&◌, ◌||◌, Option, none, some, ltb, length,
  if◌then◌else◌, arith,
}
use secure_edge_platform.Prelude.Text.{Str, codes, is_empty}
use secure_edge_platform.CachePolicy.{values}
use secure_edge_platform.Gateway.Shape.{
  Request, Limits, Reason, validate_request_shape, request_header_field_count, oversized_value,
  longer_body, request_has_non_identity_content_encoding, body_type_refused, has_forbidden,
  path_too_large, query_too_large, too_many_headers, header_value_too_large, body_too_large,
  encoded_body_rejected, unsupported_body_type, invalid_host, client_concurrency, ip_denied,
  client_rate_limit, inspection_limit_exceeded, waf_threshold,
}

-- The reasons that count as a violation of the client.
unfoldable pub is_offence : Reason → Bool
is_offence path_too_large = true
is_offence query_too_large = true
is_offence too_many_headers = true
is_offence header_value_too_large = true
is_offence body_too_large = true
is_offence encoded_body_rejected = true
is_offence unsupported_body_type = true
is_offence invalid_host = true
is_offence client_concurrency = true
is_offence ip_denied = true
is_offence client_rate_limit = true
is_offence inspection_limit_exceeded = true
is_offence waf_threshold = true
is_offence _ = false

-- A refusal has an error status and is an offence of the client.
pub data IsFault : Option (ℕ × Reason) → Type 0 where
  accepted : IsFault none
  fault :
      (code : ℕ) (why : Reason)
      → 400 ≤ code
      → code < 600
      → is_offence why ≡ true
      → IsFault (some (code, why))

or_else :
    (b : Bool) {x y : Option (ℕ × Reason)} → IsFault x → IsFault y → IsFault (if b then x else y)
or_else true p q = p
or_else false p q = q

pub shape-IsFault :
    (parse : Str → Option Str) (req : Request) (limits : Limits)
    → IsFault (validate_request_shape parse req limits)
unfolding validate_request_shape is_offence
shape-IsFault parse req limits =
    or_else (ltb limits.max_path_bytes (length req.escaped_path))
      (fault 414 path_too_large (omega arith) (omega arith) refl)
      (or_else (ltb limits.max_query_bytes (length req.raw_query))
        (fault 414 query_too_large (omega arith) (omega arith) refl)
        (or_else (ltb limits.max_header_count (request_header_field_count req))
          (fault 431 too_many_headers (omega arith) (omega arith) refl)
          (or_else (ltb limits.max_header_value_bytes (length req.host))
            (fault 431 header_value_too_large (omega arith) (omega arith) refl)
            (or_else
              (oversized_value limits.max_header_value_bytes req.header
                || oversized_value limits.max_header_value_bytes req.trailer)
              (fault 431 header_value_too_large (omega arith) (omega arith) refl)
              (or_else (longer_body req.content_length limits.max_request_body_bytes)
                (fault 413 body_too_large (omega arith) (omega arith) refl)
                (or_else
                  (limits.reject_encoded_request_bodies
                    && request_has_non_identity_content_encoding
                        (values req.header (codes "Content-Encoding")))
                  (fault 415 encoded_body_rejected (omega arith) (omega arith) refl)
                  (or_else (body_type_refused parse req limits)
                    (fault 415 unsupported_body_type (omega arith) (omega arith) refl)
                    (or_else (is_empty req.host || has_forbidden req.host)
                      (fault 400 invalid_host (omega arith) (omega arith) refl) (accepted)))))))))

-- The form that a request must have: every part within its limit, no encoded body where those are
-- refused, one content type at most and an allowed one, and a host without control characters.
pub record IsWellFormed (parse : Str → Option Str) (req : Request) (limits : Limits) : Type 0 where
  pub path : length req.escaped_path ≤ limits.max_path_bytes
  pub query : length req.raw_query ≤ limits.max_query_bytes
  pub fields : request_header_field_count req ≤ limits.max_header_count
  pub host_size : length req.host ≤ limits.max_header_value_bytes
  pub header_values : oversized_value limits.max_header_value_bytes req.header ≡ false
  pub trailer_values : oversized_value limits.max_header_value_bytes req.trailer ≡ false
  pub body : longer_body req.content_length limits.max_request_body_bytes ≡ false
  pub encoding :
      limits.reject_encoded_request_bodies ≡ true
      → request_has_non_identity_content_encoding (values req.header (codes "Content-Encoding"))
        ≡ false
  pub content_type : body_type_refused parse req limits ≡ false
  pub host : (is_empty req.host ≡ false) × (has_forbidden req.host ≡ false)

-- validateRequestShape accepts exactly the well-formed requests; each other one is refused with a
-- status between 400 and 599 for a reason that counts as a violation of the client.
pub validate_request_shape_iff :
    (parse : Str → Option Str) (req : Request) (limits : Limits)
    → ((validate_request_shape parse req limits ≡ none) ↔ IsWellFormed parse req limits)
      × IsFault (validate_request_shape parse req limits)
unfolding validate_request_shape
validate_request_shape_iff parse req limits = (
  (
    λ h. ground (arith, h),
    λ w. ground (
      arith, w.path, w.query, w.fields, w.host_size, w.header_values, w.trailer_values, w.body,
      w.encoding, w.content_type, w.host,
    ),
  ),
  shape-IsFault parse req limits,
)
