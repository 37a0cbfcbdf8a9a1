-- ===== src/Gateway/Responses/Decisions.antt =====
-- Gateway.Responses: no response reaches the client without the decision of the gateway in its headers,
-- and a body past the limit turns the response into a refusal.
use secure_edge_platform.Prelude.{
  ℕ, ◌≡◌, ◌⊎◌, inl, inr, refl, sym, ap, ◌∙◌, subst, Bool, true, false, not, Option, some, List, [],
  ◌∷◌, ◌==◌, if◌then◌else◌, arith, All, All-append,
}
use mathlib.Core.Logic.{ite}
use secure_edge_platform.Prelude.Text.{Str, codes, str_dec}
use secure_edge_platform.Prelude.Maps.{lookup, lookup-insert}
use secure_edge_platform.CachePolicy.{Header}
use secure_edge_platform.Gateway.Responses.{
  Action, block, action_text, Writer, set_field, set_base_headers, send, is_informational,
  request_body_limit_exceeded, write_header, finalize, write, flush, hijack, enforce_body_limit,
  final_status_of, Call, set_header, writes_header, writes, flushes, hijacks, reads_past_limit,
  step, run, close_writer,
}
use secure_edge_platform.Gateway.Responses.Statuses.{IsPlain}

-- Header fields that say the decision: the request's id, the score, and the action, or BLOCK.
abbrev pub IsDecision : Str → Str → Action → ℕ × Header → Type 0
IsDecision id score action (status, h) =
    (lookup (codes "X-Request-Id") h ≡ some (id ∷ []))
    × (lookup (codes "X-Security-Score") h ≡ some (score ∷ []))
    × ((lookup (codes "X-Security-Action") h ≡ some (action_text action ∷ []))
        ⊎ (lookup (codes "X-Security-Action") h ≡ some (action_text block ∷ [])))

abbrev base_fields : List Str
base_fields = codes "X-Request-Id" ∷ codes "X-Security-Action" ∷ codes "X-Security-Score" ∷ []

abbrev hardening_fields : List Str
hardening_fields =
    codes "X-Content-Type-Options"
    ∷ codes "Referrer-Policy"
    ∷ codes "X-Frame-Options"
    ∷ codes "Permissions-Policy"
    ∷ []

-- The four fields of the security headers leave any other field alone.
hardened :
    (j : Str) (h : Header)
    → All (λ k. ite (str_dec k j) ⊥ Unit) hardening_fields
    → lookup j (
        set_field (codes "Permissions-Policy") (codes "camera=(), microphone=(), geolocation=()") (
          set_field (codes "X-Frame-Options") (codes "DENY") (
            set_field
              (codes "Referrer-Policy")
              (codes "strict-origin-when-cross-origin")
              (set_field (codes "X-Content-Type-Options") (codes "nosniff") h))))
      ≡ lookup j h
hardened j h other =
    past _ _ _ other.1.1.1.0 ∙ past _ _ _ other.1.1.0 ∙ past _ _ _ other.1.0 ∙ past _ _ h other.0
  where
    past :
        (k v : Str) (m : Header)
        → ite (str_dec k j) ⊥ Unit
        → lookup j (set_field k v m) ≡ lookup j m
    past k v m o = ground (arith, o, lookup-insert k j (v ∷ []) m)

decided :
    (j : Str) (h : Header) (id action score : Str) (security : Bool) (r : Option (List Str))
    → All (λ k. ite (str_dec k j) ⊥ Unit) hardening_fields
    → lookup j (
        set_field
          (codes "X-Security-Score")
          score
          (set_field (codes "X-Security-Action") action (set_field (codes "X-Request-Id") id h)))
      ≡ r
    → lookup j (set_base_headers h id action score security) ≡ r
unfolding set_base_headers
decided j h id action score true r other e = hardened j _ other ∙ e
decided j h id action score false r other e = e

abbrev Said : Header → Str → Action → Type 0
Said h name a = lookup name h ≡ some (action_text a ∷ [])

module _ (id score : Str) (a : Action) where
  -- A writer whose fields are those of the decision, as are those of the responses that it has sent.
  record Keeps (w : Writer) : Type 0 where
    request_id : w.request_id ≡ id
    score_text : w.score ≡ score
    action : (w.action ≡ a) ⊎ (w.action ≡ block)
    sent : All (IsDecision id score a) w.sent

  -- The fields that setBaseHeaders leaves.
  base-IsDecision :
      (w : Writer) (status : ℕ)
      → Keeps w
      → IsDecision id score a (
        status,
        set_base_headers w.header w.request_id
            (action_text w.action)
            w.score
            w.add_security_headers,
      )
  unfolding str_dec
  base-IsDecision w status v = (
    decided (codes "X-Request-Id") w.header _ _ _ _ _ (tt, (tt, (tt, (tt, tt))))
        (lookup-insert _ _ _ _
          ∙ lookup-insert _ _ _ _
          ∙ lookup-insert _ _ _ _
          ∙ ap (λ x. some (x ∷ [])) v.request_id),
    decided (codes "X-Security-Score") w.header _ _ _ _ _ (tt, (tt, (tt, (tt, tt))))
        (lookup-insert _ _ _ _ ∙ ap (λ x. some (x ∷ [])) v.score_text),
    said v.action,
  )
    where
      h : Header
      h =
          set_base_headers w.header w.request_id (action_text w.action) w.score
            w.add_security_headers

      action_is : Said h (codes "X-Security-Action") w.action
      action_is =
          decided (codes "X-Security-Action") w.header _ _ _ _ _ (tt, (tt, (tt, (tt, tt))))
            (lookup-insert _ _ _ _ ∙ lookup-insert _ _ _ _)

      said :
          (w.action ≡ a) ⊎ (w.action ≡ block)
          → Said h (codes "X-Security-Action") a ⊎ Said h (codes "X-Security-Action") block
      said (inl e) = inl (action_is ∙ ap (λ x. some (action_text x ∷ [])) e)
      said (inr e) = inr (action_is ∙ ap (λ x. some (action_text x ∷ [])) e)

  send-Keeps : (w : Writer) (status : ℕ) → Keeps w → Keeps (send w status)
  unfolding send
  send-Keeps w status v = record {
    request_id = v.request_id;
    score_text = v.score_text;
    action = v.action;
    sent = All-append (IsDecision id score a) w.sent _ (v.sent, (base-IsDecision w status v, tt));
  }

  if-Keeps : (b : Bool) (x y : Writer) → Keeps x → Keeps y → Keeps (if b then x else y)
  if-Keeps true x y v v' = v
  if-Keeps false x y v v' = v'

  -- A change of what Keeps does not read but for the action, which may turn into BLOCK.
  changed :
      (w : Writer) (status : ℕ) (h : Header) (past : Bool) (body : List Str) (blocked : Bool)
      → Keeps w
      → Keeps (record w {
        status = status;
        header = h;
        exceeded = past;
        body = body;
        action = if blocked then block else w.action;
      })
  changed w status h past body blocked v = record {
    request_id = v.request_id;
    score_text = v.score_text;
    action = go blocked;
    sent = v.sent;
  }
    where
      go :
          (b : Bool)
          → ((if b then block else w.action) ≡ a) ⊎ ((if b then block else w.action) ≡ block)
      go true = inr refl
      go false = v.action

  write_header-Keeps : (w : Writer) (status : ℕ) → Keeps w → Keeps (write_header w status)
  unfolding write_header
  write_header-Keeps w status v = if-Keeps (is_informational status) _ _ (send-Keeps w status v) (
      if-Keeps (not (w.status == 0)) _ _ v
        (send-Keeps _ _ (changed w _ w.header w.exceeded w.body (request_body_limit_exceeded w) v)))

  finalize-Keeps : (w : Writer) → Keeps w → Keeps (finalize w)
  unfolding finalize
  finalize-Keeps w v = if-Keeps (w.status == 0) _ _ (write_header-Keeps w 200 v) v

  step-Keeps : (w : Writer) (c : Call) → Keeps w → Keeps (step w c)
  unfolding step write hijack flush
  step-Keeps w (set_header name vs) v = changed w _ _ _ _ false v
  step-Keeps w (writes_header status) v = write_header-Keeps w status v
  step-Keeps w (writes d) v = changed (finalize w) _ _ _ _ false (finalize-Keeps w v)
  step-Keeps w (flushes flusher) v = if-Keeps flusher _ _ (finalize-Keeps w v) v
  step-Keeps w (hijacks succeeds) v = changed w _ _ _ _ false v
  step-Keeps w reads_past_limit v = changed w _ _ _ _ false v

  run-Keeps : (w : Writer) (cs : List Call) → Keeps w → Keeps (run w cs)
  unfolding run
  run-Keeps w [] v = v
  run-Keeps w (c ∷ cs) v = run-Keeps (step w c) cs (step-Keeps w c v)

  enforce-Keeps : (w : Writer) → Keeps w → Keeps (enforce_body_limit w).0
  unfolding enforce_body_limit
  enforce-Keeps w v = go (request_body_limit_exceeded w)
    where
      blocked : Writer
      blocked = record w { action = block }

      go :
          (b : Bool)
          → Keeps
              (if◌then◌else◌ {A = Writer × Bool}
                (not b)
                (w, false)
                (if w.status == 0 then write_header blocked 413 else blocked, true)).0
      go true =
          if-Keeps (w.status == 0) _ _ (write_header-Keeps blocked 413 (changed w _ _ _ _ true v))
            (changed w _ _ _ _ true v)
      go false = v

-- Whatever the downstream handler does, even where it sets the same fields itself, each response that
-- the writer below is given, informational ones among them, names the request's id, the gateway's score,
-- and the gateway's action or BLOCK; and so do the header fields that a call of Hijack leaves, for
-- the handler to send over the connection.
pub close_writer-IsDecision :
    (w : Writer) (cs : List Call)
    → w.sent ≡ []
    → All (IsDecision w.request_id w.score w.action) (close_writer (run w cs)).0.sent
      × ((succeeds : Bool)
          → IsDecision w.request_id w.score w.action
              ((hijack (run w cs) succeeds).0.status, (hijack (run w cs) succeeds).0.header))
unfolding close_writer hijack
close_writer-IsDecision w cs none_sent =
    let keeps = run-Keeps w.request_id w.score w.action w cs (record {
      request_id = refl;
      score_text = refl;
      action = inl refl;
      sent = subst (All _) (sym none_sent) tt;
    }) in
    (
      (finalize-Keeps w.request_id w.score w.action _
          (enforce-Keeps w.request_id w.score w.action _ keeps)).sent,
      λ succeeds. base-IsDecision w.request_id w.score w.action (run w cs) 0 keeps,
    )

-- The body has gone past the limit, and no final status but 413 was given.
record IsPastLimit (w : Writer) : Type 0 where
  limited : w.body_limit ≡ true
  past : w.exceeded ≡ true
  status : (w.status ≡ 0) ⊎ (w.status ≡ 413)

write_header-IsPastLimit :
    (w : Writer) (status : ℕ) → IsPastLimit w → IsPastLimit (write_header w status)
unfolding write_header send request_body_limit_exceeded
write_header-IsPastLimit w status v = ground (arith, v.limited, v.past, v.status)

finalize-IsPastLimit : (w : Writer) → IsPastLimit w → IsPastLimit (finalize w)
unfolding finalize
finalize-IsPastLimit w v = ground (arith, v, write_header-IsPastLimit w 200 v)

step-IsPastLimit : (w : Writer) (c : Call) → IsPlain c → IsPastLimit w → IsPastLimit (step w c)
unfolding step write flush
step-IsPastLimit w (set_header name vs) p v = record {
  limited = v.limited;
  past = v.past;
  status = v.status;
}
step-IsPastLimit w (writes_header status) p v = write_header-IsPastLimit w status v
step-IsPastLimit w (writes d) p v =
    let x = finalize-IsPastLimit w v in
    record { limited = x.limited; past = x.past; status = x.status }
step-IsPastLimit w (flushes true) p v = finalize-IsPastLimit w v
step-IsPastLimit w (flushes false) p v = v
step-IsPastLimit w (hijacks succeeds) p v = absurd p
step-IsPastLimit w reads_past_limit p v = record {
  limited = v.limited;
  past = v.limited;
  status = v.status;
}

run-IsPastLimit :
    (w : Writer) (cs : List Call) → All IsPlain cs → IsPastLimit w → IsPastLimit (run w cs)
unfolding run
run-IsPastLimit w [] p v = v
run-IsPastLimit w (c ∷ cs) p v = run-IsPastLimit (step w c) cs p.1 (step-IsPastLimit w c p.0 v)

enforce-IsPastLimit :
    (w : Writer)
    → IsPastLimit w
    → ((enforce_body_limit w).0.status ≡ 413) × ((enforce_body_limit w).1 ≡ true)
unfolding enforce_body_limit write_header send request_body_limit_exceeded
enforce-IsPastLimit w v = ground (arith, v.limited, v.past, v.status)

finalize-latched : (w : Writer) → w.status ≡ 413 → final_status_of (finalize w) ≡ 413
unfolding finalize final_status_of
finalize-latched w h = rw h refl

-- Once a downstream handler has read past the limit of the body before it gave a final status, the
-- response is a 413, whatever it does next short of taking the connection over, and close_writer says
-- that the limit was passed.
pub close_writer_past_limit :
    (w : Writer) (cs : List Call)
    → w.status ≡ 0
    → w.body_limit ≡ true
    → w.exceeded ≡ true
    → All IsPlain cs
    → (final_status_of (close_writer (run w cs)).0 ≡ 413) × ((close_writer (run w cs)).1 ≡ true)
unfolding close_writer
close_writer_past_limit w cs z limited past plain =
    let v =
      run-IsPastLimit w cs plain (record { limited = limited; past = past; status = inl z }) in
    let (e, flag) = enforce-IsPastLimit (run w cs) v in (finalize-latched _ e, flag)
