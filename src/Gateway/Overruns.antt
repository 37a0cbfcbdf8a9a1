-- ===== src/Gateway/Overruns.antt =====
-- apps/securityedge/internal/gateway/handler.go, the end of ServeHTTP: a request whose body turns out too
-- long while the downstream handler reads it.
use secure_edge_platform.Prelude.{
  ℕ, ◌≡◌, refl, sym, subst, ◌∙◌, true, Option, List, [], ◌∷◌, ◌++◌, arith, All, if_elim,
}
use secure_edge_platform.Prelude.Text.{Str}
use secure_edge_platform.Bans
use secure_edge_platform.RateLimit
use secure_edge_platform.Gateway.Shape.{Request, body_too_large}
use secure_edge_platform.Gateway.Responses.{
  Writer, block, Call, set_header, writes_header, writes, flushes, hijacks, reads_past_limit, send,
  write_header, finalize, write, flush, hijack, step, run, close_writer, final_status_of,
}
use secure_edge_platform.Gateway.Responses.Statuses.{IsPlain}
use secure_edge_platform.Gateway.Responses.Decisions.{close_writer_past_limit}
use secure_edge_platform.Gateway.Types.{
  Addresses, Policy, Arrival, Gateway, Verdict, Reply, ServerConfig,
}
use secure_edge_platform.Gateway.{pass_on, opened}

run-append : (w : Writer) (xs ys : List Call) → run w (xs ++ ys) ≡ run (run w xs) ys
unfolding run
run-append w [] ys = refl
run-append w (c ∷ xs) ys = run-append (step w c) xs ys

step-body_limit : (w : Writer) (c : Call) → (step w c).body_limit ≡ w.body_limit
unfolding step write_header write flush hijack finalize send
step-body_limit w (set_header name vs) = refl
step-body_limit w (writes_header status) = ground arith
step-body_limit w (writes d) = ground arith
step-body_limit w (flushes flusher) = ground arith
step-body_limit w (hijacks succeeds) = refl
step-body_limit w reads_past_limit = refl

run-body_limit : (w : Writer) (cs : List Call) → (run w cs).body_limit ≡ w.body_limit
unfolding run
run-body_limit w [] = refl
run-body_limit w (c ∷ cs) = run-body_limit (step w c) cs ∙ step-body_limit w c

-- A handler that reads past the limit before it has given a final status.
past_limit :
    (w : Writer) (before after : List Call)
    → w.body_limit ≡ true
    → (run w before).status ≡ 0
    → All IsPlain after
    → (final_status_of (close_writer (run w (before ++ reads_past_limit ∷ after))).0 ≡ 413)
      × ((close_writer (run w (before ++ reads_past_limit ∷ after))).1 ≡ true)
unfolding run step
past_limit w before after limited open_still plain =
    subst (λ x. (final_status_of (close_writer x).0 ≡ 413) × ((close_writer x).1 ≡ true))
      (sym (run-append w before (reads_past_limit ∷ after)))
      (close_writer_past_limit (step (run w before) reads_past_limit) after open_still
        (run-body_limit w before ∙ limited) (run-body_limit w before ∙ limited) plain)

module _ (f : RateLimit.Float64) (net : Addresses) (parse : Str → Option Str) (itoa : ℕ → Str)
    (server : ServerConfig) (policy : Policy f.F) (g : Gateway f.F) (a : Arrival) where
  open f use {F}

  -- A request that was refused for its body after it had been passed on: its violation is recorded,
  -- and the verdict says so.
  pub record IsCutOff (answer : Gateway F × Verdict × Reply) : Type 0 where
    pub gateway : answer.0 ≡ record g {
      bans = (Bans.record_violation g.bans a.client policy.auto_ban a.violation_at).0;
    }
    pub status : answer.1.status ≡ 413
    pub action : answer.1.action ≡ block
    pub reason : answer.1.reason ≡ body_too_large
    pub reported :
        answer.1.auto_banned
        ≡ (Bans.record_violation g.bans a.client policy.auto_ban a.violation_at).1

  -- When the downstream handler reads past the limit of the body before it has given a final status,
  -- the request ends as a 413 for its body, whatever the handler does next short of taking the
  -- connection over: the client's violation is recorded, the gateway is otherwise as it was, and the
  -- verdict tells whether the client has been banned by it.
  pub pass_on-IsCutOff :
      (v : Verdict) (req : Request) (before after : List Call)
      → a.downstream req ≡ before ++ reads_past_limit ∷ after
      → (run (opened f net parse itoa server a v true) before).status ≡ 0
      → All IsPlain after
      → IsCutOff (pass_on f net parse itoa server g policy a v req true)
  unfolding pass_on
  pass_on-IsCutOff v req before after e open_still plain =
      let (status, flag) =
        past_limit (opened f net parse itoa server a v true) before after refl open_still plain in
      if_elim IsCutOff
        (close_writer (run (opened f net parse itoa server a v true) (a.downstream req))).1 _ _
        (λ t. record {
          gateway = refl;
          status = rw e status;
          action = refl;
          reason = refl;
          reported = refl;
        })
        (λ n. absurd (ground (arith, n, flag, e)))
