-- ===== src/Gateway/Staging.antt =====
-- apps/securityedge/internal/gateway/handler.go, stageRequestBody: a body of unknown length, or with
-- trailers, is copied to a file before anything reads it. What the body and the file do is an
-- argument: how many bytes the body delivers, how it then ends, and which file operations fail.
use secure_edge_platform.Prelude.{
  ℕ, ◌+◌, ◌≡◌, ◌≤◌, ◌<◌, ◌↔◌, Bool, true, false, not, ◌||◌, min, ltb, leb, ◌==◌, if◌then◌else◌,
  arith,
}
use secure_edge_platform.CachePolicy.{Header}
use secure_edge_platform.Gateway.Shape.{Request}

pub data End : Type 0 where
  at_eof long_trailer max_bytes_error read_error : End

pub record Body : Type 0 where
  pub size : ℕ
  pub ends : End
  pub trailer : Header
  pub create_fails : Bool
  pub write_fails : Bool
  pub close_fails : Bool
  pub seek_fails : Bool

pub data Staged : Type 0 where
  not_staged trailer_too_large too_large failed : Staged
  staged : Request → ℕ → Staged

-- io.Copy from a reader limited to maxBytes + 1 bytes: the bytes written and how it ended. A body that
-- is longer is cut off before its own end shows.
abbrev copied : Body → ℕ → ℕ
copied b max_bytes = min b.size (max_bytes + 1)

abbrev copy_end : Body → ℕ → End
copy_end b max_bytes =
    if b.write_fails then read_error else if leb (max_bytes + 1) b.size then at_eof else b.ends

-- Once the copy has ended without an error: the file is rewound, and trailers have their values.
unfoldable pub staged_body : Request → Body → ℕ → Staged
staged_body req b max_bytes =
    if b.close_fails
    then failed
    else if ltb max_bytes (copied b max_bytes)
    then too_large
    else if b.seek_fails
    then failed
    else staged (record req { trailer = b.trailer }) (copied b max_bytes)

unfoldable pub stage_request_body : Request → Body → ℕ → Staged
unfolding staged_body
stage_request_body req b max_bytes =
    if not req.body || max_bytes == 0
    then not_staged
    else if b.create_fails
    then failed
    else elim (copy_end b max_bytes) [
      | long_trailer ↦ trailer_too_large
      | max_bytes_error ↦ too_large
      | read_error ↦ failed
      | at_eof ↦ staged_body req b max_bytes
    ]

-- A body of the request that arrives within the limit, with nothing failing.
pub record IsWhole (b : Body) (max_bytes : ℕ) : Type 0 where
  pub fits : b.size ≤ max_bytes
  pub end : b.ends ≡ at_eof
  pub created : b.create_fails ≡ false
  pub written : b.write_fails ≡ false
  pub closed : b.close_fails ≡ false
  pub sought : b.seek_fails ≡ false

-- Where there is a limit, a body is passed on, whole and with its trailers, exactly if it ends in order
-- within the limit and no file operation fails.
pub stage_request_body_iff :
    (req : Request) (b : Body) (max_bytes : ℕ)
    → req.body ≡ true
    → 0 < max_bytes
    → (stage_request_body req b max_bytes ≡ staged (record req { trailer = b.trailer }) b.size)
      ↔ IsWhole b max_bytes
unfolding stage_request_body staged_body
stage_request_body_iff req b max_bytes has limit = (
  λ h. ground (arith, h),
  λ w. ground (arith, w.fits, w.end, w.created, w.written, w.closed, w.sought),
)

-- One byte more than the limit refuses a body, however it goes on.
pub stage_request_body-too_large :
    (req : Request) (b : Body) (max_bytes : ℕ)
    → req.body ≡ true
    → 0 < max_bytes
    → max_bytes < b.size
    → b.create_fails ≡ false
    → b.write_fails ≡ false
    → b.close_fails ≡ false
    → stage_request_body req b max_bytes ≡ too_large
unfolding stage_request_body staged_body
stage_request_body-too_large req b max_bytes has limit longer c w o = ground arith
