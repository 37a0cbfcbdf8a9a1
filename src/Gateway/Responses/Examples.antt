-- ===== src/Gateway/Responses/Examples.antt =====
-- Gateway.Responses: tests at concrete inputs.
use secure_edge_platform.Prelude.{ℕ, ◌≡◌, refl, Bool, true, false, List, [], ◌∷◌, All, arith}
use secure_edge_platform.Prelude.Text.{codes}
use secure_edge_platform.CachePolicy
use secure_edge_platform.Gateway.Responses
use secure_edge_platform.Gateway.Responses.{
  Writer, Call, set_header, writes_header, writes, reads_past_limit, close_writer, hijack,
  final_status_of, allow, block,
}
use secure_edge_platform.Gateway.Responses.Statuses.{finals, close_writer_one_final}
use secure_edge_platform.Gateway.Responses.Decisions.{IsDecision, close_writer-IsDecision}

abbrev writer : Bool → Writer
writer past = record {
  request_id = codes "1";
  action = allow;
  score = codes "0";
  add_security_headers = true;
  body_limit = true;
  exceeded = past;
  status = 0;
  header = [];
  sent = [];
  body = [];
}

-- The handler sets the gateway's own field, sends two statuses, and reads too much.
abbrev calls : List Call
calls =
    set_header (codes "X-Security-Action") (codes "NONE" ∷ [])
    ∷ writes_header 103
    ∷ writes (codes "x")
    ∷ reads_past_limit
    ∷ writes_header 500
    ∷ []

abbrev IsDecided : ℕ × CachePolicy.Header → Type 0
IsDecided = IsDecision (codes "1") (codes "0") allow

close_writer_one_final_example :
    finals (close_writer (Responses.run (writer false) calls)).0.sent
    ≡ final_status_of (close_writer (Responses.run (writer false) calls)).0 ∷ []
close_writer_one_final_example =
    close_writer_one_final (writer false) calls refl refl
      (tt, (omega arith, (tt, (tt, (omega arith, tt)))))

close_writer-IsDecision_example :
    All IsDecided (close_writer (Responses.run (writer false) calls)).0.sent
    × ((succeeds : Bool)
        → IsDecided (
          (hijack (Responses.run (writer false) calls) succeeds).0.status,
          (hijack (Responses.run (writer false) calls) succeeds).0.header,
        ))
close_writer-IsDecision_example = close_writer-IsDecision (writer false) calls refl
