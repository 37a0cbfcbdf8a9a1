-- ===== src/Gateway/Responses/Statuses.antt =====
-- Gateway.Responses: one final status for a request, the headers of the decision, and the body limit.
use secure_edge_platform.Prelude.{
  ℕ, ◌≡◌, ◌≤◌, ◌≢◌, inl, inr, refl, sym, ap, ◌∙◌, Bool, true, false, not, List, [], ◌∷◌, ◌++◌, ◌==◌,
  if◌then◌else◌, arith, Bool-cases, All, append-nil,
}
use secure_edge_platform.Prelude.Maps.{insert}
use secure_edge_platform.CachePolicy.{Header}
use secure_edge_platform.Gateway.Responses.{
  block, Writer, send, is_informational, request_body_limit_exceeded, write_header, finalize,
  enforce_body_limit, final_status_of, Call, set_header, writes_header, writes, flushes, hijacks,
  reads_past_limit, step, run, close_writer,
}

-- The statuses of the final responses among those sent.
unfoldable pub finals : List (ℕ × Header) → List ℕ
finals [] = []
finals ((status, h) ∷ sent) = if is_informational status then finals sent else status ∷ finals sent

finals-append : (a b : List (ℕ × Header)) → finals (a ++ b) ≡ finals a ++ finals b
unfolding finals
finals-append [] b = refl
finals-append ((status, h) ∷ a) b = elim (Bool-cases (is_informational status)) [
  | inl e ↦ rw e (finals-append a b)
  | inr e ↦ rw e (ap (◌∷◌ status) (finals-append a b))
]

-- A call that http.ResponseWriter allows, and that does not take the connection over.
abbrev pub IsPlain : Call → Type 0
IsPlain (writes_header status) = 100 ≤ status
IsPlain (hijacks succeeds) = ⊥
IsPlain _ = Unit

pub not_zero : (n : ℕ) → n ≢ 0 → (n == 0) ≡ false
not_zero n h = ground arith

-- Either no final status was sent, or one was and it is the writer's.
pub data IsLatched (w : Writer) : Type 0 where
  open_writer : w.status ≡ 0 → finals w.sent ≡ [] → IsLatched w
  latched : w.status ≢ 0 → finals w.sent ≡ w.status ∷ [] → IsLatched w

send-finals :
    (w : Writer) (status : ℕ)
    → is_informational status ≡ false
    → finals w.sent ≡ []
    → finals (send w status).sent ≡ status ∷ []
unfolding send finals
send-finals w status e none_sent = finals-append w.sent _ ∙ rw (none_sent, e) refl

send-finals_informational :
    (w : Writer) (status : ℕ)
    → is_informational status ≡ true
    → finals (send w status).sent ≡ finals w.sent
unfolding send finals
send-finals_informational w status e = finals-append w.sent _ ∙ rw e (append-nil (finals w.sent))

send-IsLatched :
    (w : Writer) (status : ℕ)
    → is_informational status ≡ false
    → 100 ≤ status
    → w.status ≡ status
    → finals w.sent ≡ []
    → IsLatched (send w status)
send-IsLatched w status e ok now none_sent =
    latched (unfold send in λ z. absurd (omega (arith, z, ok, now)))
      (send-finals w status e none_sent ∙ unfold send in ap (λ n. n ∷ []) (sym now))

pub if-IsLatched :
    (b : Bool) (x y : Writer) → IsLatched x → IsLatched y → IsLatched (if b then x else y)
if-IsLatched true x y v v' = v
if-IsLatched false x y v v' = v'

write_header-IsLatched :
    (w : Writer) (status : ℕ) → 100 ≤ status → IsLatched w → IsLatched (write_header w status)
unfolding write_header
write_header-IsLatched w status ok v = elim (Bool-cases (is_informational status)) [
  | inl e ↦ rw e (informational e v)
  | inr e ↦ rw e (final e v)
]
  where
    informational : is_informational status ≡ true → IsLatched w → IsLatched (send w status)
    informational e (open_writer z f) =
        open_writer (unfold send in z) (send-finals_informational w status e ∙ f)
    informational e (latched z f) =
        latched (unfold send in z) (send-finals_informational w status e ∙ f)

    chosen :
        (b : Bool)
        → request_body_limit_exceeded w ≡ b
        → is_informational status ≡ false
        → finals w.sent ≡ []
        → IsLatched (
            send
              (record w {
                status = if b then 413 else status;
                action = if b then block else w.action;
              })
              (if b then 413 else status))
    chosen true l e f = send-IsLatched _ 413 refl (omega arith) refl f
    chosen false l e f = send-IsLatched _ status e ok refl f

    final :
        is_informational status ≡ false
        → IsLatched w
        → IsLatched (
            if not (w.status == 0)
            then w
            else send
                (record w {
                  status = if request_body_limit_exceeded w then 413 else status;
                  action = if request_body_limit_exceeded w then block else w.action;
                })
                (if request_body_limit_exceeded w then 413 else status))
    final e (latched z f) = rw (not_zero w.status z) (latched z f)
    final e (open_writer z f) = rw z (chosen (request_body_limit_exceeded w) refl e f)

finalize-IsLatched : (w : Writer) → IsLatched w → IsLatched (finalize w)
unfolding finalize
finalize-IsLatched w v =
    if-IsLatched (w.status == 0) (write_header w 200) w
      (write_header-IsLatched w 200 (omega arith) v) v

step-IsLatched : (w : Writer) (c : Call) → IsPlain c → IsLatched w → IsLatched (step w c)
unfolding step
step-IsLatched w (set_header name vs) p v = unlatch v
  where
    unlatch : IsLatched w → IsLatched (record w { header = insert name vs w.header })
    unlatch (open_writer z f) = open_writer z f
    unlatch (latched z f) = latched z f
step-IsLatched w (writes_header status) p v = write_header-IsLatched w status p v
step-IsLatched w (writes d) p v = unlatch (finalize w) (finalize-IsLatched w v)
  where
    unlatch : (x : Writer) → IsLatched x → IsLatched (record x { body = x.body ++ d ∷ [] })
    unlatch x (open_writer z f) = open_writer z f
    unlatch x (latched z f) = latched z f
step-IsLatched w (flushes flusher) p v =
    if-IsLatched flusher (finalize w) w (finalize-IsLatched w v) v
step-IsLatched w (hijacks succeeds) p v = absurd p
step-IsLatched w reads_past_limit p v = unlatch v
  where
    unlatch : IsLatched w → IsLatched (record w { exceeded = w.body_limit })
    unlatch (open_writer z f) = open_writer z f
    unlatch (latched z f) = latched z f

run-IsLatched : (w : Writer) (cs : List Call) → All IsPlain cs → IsLatched w → IsLatched (run w cs)
unfolding run
run-IsLatched w [] p v = v
run-IsLatched w (c ∷ cs) p v = run-IsLatched (step w c) cs p.1 (step-IsLatched w c p.0 v)

blocked-IsLatched : (w : Writer) → IsLatched w → IsLatched (record w { action = block })
blocked-IsLatched w (open_writer z f) = open_writer z f
blocked-IsLatched w (latched z f) = latched z f

enforced-IsLatched : (w : Writer) → IsLatched w → IsLatched (enforce_body_limit w).0
unfolding enforce_body_limit
enforced-IsLatched w v = go (request_body_limit_exceeded w)
  where
    blocked : Writer
    blocked = record w { action = block }

    go :
        (b : Bool)
        → IsLatched
            (if◌then◌else◌ {A = Writer × Bool}
              (not b)
              (w, false)
              (if w.status == 0 then write_header blocked 413 else blocked, true)).0
    go true =
        if-IsLatched (w.status == 0) (write_header blocked 413) blocked
          (write_header-IsLatched blocked 413 (omega arith) (blocked-IsLatched w v))
          (blocked-IsLatched w v)
    go false = v

-- What write_header leaves of the status, where it is given a final one.
pub write_header-status :
    (w : Writer) (status : ℕ)
    → is_informational status ≡ false
    → w.status ≡ 0
    → (write_header w status).status ≡ (if request_body_limit_exceeded w then 413 else status)
unfolding write_header send
write_header-status w status e z = rw (e, z) refl

finalize-status : (w : Writer) → (finalize w).status ≡ 0 → ⊥
unfolding finalize
finalize-status w h = go (w.status == 0) refl h
  where
    go : (b : Bool) → (w.status == 0) ≡ b → (if b then write_header w 200 else w).status ≡ 0 → ⊥
    go false e h = ground (arith, e, h)
    go true e h = absurd (ground (arith, write_header-status w 200 refl (ground (arith, e)), h))

-- A downstream handler that calls the writer in any way, short of taking the connection over, makes
-- one final response of a request: exactly one final status is sent, and it is the status that the
-- gateway then records. All informational ones aside.
pub close_writer_one_final :
    (w : Writer) (cs : List Call)
    → w.status ≡ 0
    → w.sent ≡ []
    → All IsPlain cs
    → finals (close_writer (run w cs)).0.sent ≡ final_status_of (close_writer (run w cs)).0 ∷ []
unfolding close_writer final_status_of
close_writer_one_final w cs z none_sent plain = go (enforce_body_limit (run w cs)).0 (
    enforced-IsLatched (run w cs)
      (run-IsLatched w cs plain (open_writer z (unfold finals in ap finals none_sent))))
  where
    go :
        (x : Writer)
        → IsLatched x
        → finals (finalize x).sent
          ≡ (if (finalize x).status == 0 then 200 else (finalize x).status) ∷ []
    go x v = from (finalize x) (finalize-IsLatched x v) (finalize-status x)
      where
        from :
            (y : Writer)
            → IsLatched y
            → (y.status ≡ 0 → ⊥)
            → finals y.sent ≡ (if y.status == 0 then 200 else y.status) ∷ []
        from y (open_writer z f) h = absurd (h z)
        from y (latched z f) h = rw (not_zero y.status z) f
