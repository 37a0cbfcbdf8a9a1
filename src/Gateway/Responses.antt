-- ===== src/Gateway/Responses.antt =====
-- apps/securityedge/internal/gateway/handler.go, decisionWriter: between the downstream handler and
-- the client. What the downstream handler does is a list of calls; the score is its decimal text.
-- `sent` has what WriteHeader of the writer below was given, with the header fields of that moment.
pub mod Statuses
pub mod Decisions
mod Examples
use secure_edge_platform.Prelude.{
  ℕ, Bool, true, false, not, ◌&&◌, ◌||◌, List, [], ◌∷◌, ◌++◌, ltb, leb, ◌==◌, if◌then◌else◌,
}
use secure_edge_platform.Prelude.Text.{Str, codes}
use secure_edge_platform.Prelude.Maps.{insert}
use secure_edge_platform.CachePolicy.{Header}

pub data Action : Type 0 where
  allow block log rate_limit overload banned canceled : Action

unfoldable pub action_text : Action → Str
action_text allow = codes "ALLOW"
action_text block = codes "BLOCK"
action_text log = codes "LOG"
action_text rate_limit = codes "RATE_LIMIT"
action_text overload = codes "OVERLOAD"
action_text banned = codes "BANNED"
action_text canceled = codes "CANCELED"

pub record Writer : Type 0 where
  pub request_id : Str
  pub action : Action
  pub score : Str
  pub add_security_headers : Bool
  -- bodyLimit != nil, and what its exceeded says
  pub body_limit : Bool
  pub exceeded : Bool
  pub status : ℕ
  pub header : Header
  pub sent : List (ℕ × Header)
  pub body : List Str

abbrev pub set_field : Str → Str → Header → Header
set_field name value h = insert name (value ∷ []) h

unfoldable pub set_base_headers : Header → Str → Str → Str → Bool → Header
set_base_headers h id action score security =
    let decided =
      set_field (codes "X-Security-Score") score
        (set_field (codes "X-Security-Action") action (set_field (codes "X-Request-Id") id h)) in
    if security
    then set_field (codes "Permissions-Policy") (codes "camera=(), microphone=(), geolocation=()") (
        set_field (codes "X-Frame-Options") (codes "DENY") (
          set_field (codes "Referrer-Policy") (codes "strict-origin-when-cross-origin")
            (set_field (codes "X-Content-Type-Options") (codes "nosniff") decided)))
    else decided

unfoldable pub set_decision_headers : Header → Str → Str → Bool → Header
set_decision_headers h action score security =
    let hardened =
      if security
      then set_field (codes "Permissions-Policy") (codes "camera=(), microphone=(), geolocation=()")
          (set_field (codes "X-Frame-Options") (codes "DENY") (
            set_field (codes "Referrer-Policy") (codes "strict-origin-when-cross-origin")
              (set_field (codes "X-Content-Type-Options") (codes "nosniff") h)))
      else h in
    set_field (codes "X-Security-Score") score
      (set_field (codes "X-Security-Action") action hardened)

-- setBaseHeaders(w.Header(), …), then the status goes to the writer below.
unfoldable pub send : Writer → ℕ → Writer
unfolding set_base_headers
send w status =
    let h =
      set_base_headers w.header w.request_id (action_text w.action) w.score
        w.add_security_headers in
    record w { header = h; sent = w.sent ++ (status, h) ∷ [] }

abbrev pub is_informational : ℕ → Bool
is_informational status = leb 100 status && (ltb status 200 && not (status == 101))

unfoldable pub request_body_limit_exceeded : Writer → Bool
request_body_limit_exceeded w = w.body_limit && w.exceeded

abbrev final_status : Writer → ℕ → ℕ
final_status w status = if request_body_limit_exceeded w then 413 else status

abbrev final_action : Writer → Action
final_action w = if request_body_limit_exceeded w then block else w.action

unfoldable pub write_header : Writer → ℕ → Writer
unfolding send request_body_limit_exceeded
write_header w status =
    if is_informational status
    then send w status
    else if not (w.status == 0)
    then w
    else send (record w { status = final_status w status; action = final_action w })
        (final_status w status)

-- What Write, ReadFrom, Flush and Finalize begin with.
unfoldable pub finalize : Writer → Writer
unfolding write_header
finalize w = if w.status == 0 then write_header w 200 else w

unfoldable pub write : Writer → Str → Writer
unfolding finalize
write w data' = let after = finalize w in record after { body = after.body ++ data' ∷ [] }

unfoldable pub flush : Writer → Bool → Writer
unfolding finalize
flush w flusher = if flusher then finalize w else w

-- Hijack: whether the writer below, the deadline and the tracking of tunnels let it.
unfoldable pub hijack : Writer → Bool → Writer × Bool
unfolding set_base_headers
hijack w succeeds =
    let h =
      set_base_headers w.header w.request_id (action_text w.action) w.score
        w.add_security_headers in
    (
      record w { header = h; status = if succeeds && w.status == 0 then 101 else w.status },
      succeeds,
    )

unfoldable pub enforce_body_limit : Writer → Writer × Bool
unfolding write_header
enforce_body_limit w = if not (request_body_limit_exceeded w) then (w, false) else (
  if w.status == 0
      then write_header (record w { action = block }) 413
      else record w { action = block },
  true,
)

unfoldable pub final_status_of : Writer → ℕ
final_status_of w = if w.status == 0 then 200 else w.status

-- What the downstream handler does with the writer, its header fields and the body of the request.
pub data Call : Type 0 where
  set_header : Str → List Str → Call
  writes_header : ℕ → Call
  writes : Str → Call
  flushes : Bool → Call
  hijacks : Bool → Call
  reads_past_limit : Call

unfoldable pub step : Writer → Call → Writer
unfolding write_header write flush hijack
step w (set_header name vs) = record w { header = insert name vs w.header }
step w (writes_header status) = write_header w status
step w (writes data') = write w data'
step w (flushes flusher) = flush w flusher
step w (hijacks succeeds) = let (w', ok) = hijack w succeeds in w'
step w reads_past_limit = record w { exceeded = w.body_limit }

unfoldable pub run : Writer → List Call → Writer
unfolding step
run w [] = w
run w (c ∷ cs) = run (step w c) cs

-- After the downstream handler has returned.
unfoldable pub close_writer : Writer → Writer × Bool
unfolding enforce_body_limit finalize
close_writer w = let (w', exceeded) = enforce_body_limit w in (finalize w', exceeded)
