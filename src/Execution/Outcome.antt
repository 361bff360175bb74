-- ===== src/Execution/Outcome.antt =====
-- operation.go: what a failed submission says of the statement.
use flink_sql_go.Prelude.{
  ℕ, ◌≡◌, refl, sym, ap, subst, ◌∙◌, Bool, true, false, not, ◌&&◌, ◌||◌, List, [], ◌∷◌, Option,
  none, some, Bytes, leb, length, if◌then◌else◌, if_both, Bool-cases, Option-cases, codes,
  Result-cases, inl, inr, Result, ok, err, arith,
}
use flink_sql_go.Go.Space.{is_empty, trim_space}
use flink_sql_go.Session.Handle.{validate_opaque_handle}
use flink_sql_go.Transport.Response.{
  TraceEvent, wrote_headers, got_first_byte, wrote_request, Progress, at_headers, at_request,
  at_response, progress_after, request_phase, phase_of, advance, reached_by, rank, ApiError, Cause,
  decode_api_error, body_incomplete, bad_json, read_limited,
}
use flink_sql_go.Transport.Request.{
  Client, Call, Exchange, Reply, no_reply, replied, RequestError, api_error, Outcome, settle,
  check_body, on_reply, on_body, do_json_once, send_from, do_json, is_success, decode_body, failure,
  refusal, gives_up, Sent, after_exchange,
}
use flink_sql_go.Execution.Statement.{
  Statement, Submission, StatementError, failed, outcome_unknown, was_not_sent, outcome_is_unknown,
  submit, read_handle,
}

abbrev pub is_plain_failure : Result StatementError Bytes → Bool
is_plain_failure (err (failed e)) = true
is_plain_failure _ = false

-- What is reported of a submission that passed its checks: the handle, a plain failure, or an unknown outcome.
abbrev pub is_reported : Result StatementError Bytes → Bool
is_reported (ok handle) = true
is_reported (err (failed e)) = true
is_reported (err (outcome_unknown phase)) = true
is_reported _ = false

-- The statuses with which a server refuses a request: those of 1xx, 3xx and 4xx but 408 and 429.
abbrev pub is_refusal : ℕ → Bool
is_refusal status =
    leb 1 status && leb status 199
    || leb 300 status && leb status 407
    || leb 409 status && leb status 428
    || leb 430 status && leb status 499

abbrev pub is_unsent : List TraceEvent → Bool
is_unsent [] = true
is_unsent (e ∷ es) = false

-- The server cannot act on a request of which nothing was sent, or that it refuses.
abbrev pub cannot_have_run : List TraceEvent → Reply → Bool
cannot_have_run trace (no_reply thrown) = is_unsent trace
cannot_have_run trace (replied status body broken) = is_refusal status

reached_by-sent : (e : TraceEvent) → was_not_sent (phase_of (reached_by e)) ≡ false
reached_by-sent wrote_headers = refl
reached_by-sent (wrote_request true) = refl
reached_by-sent (wrote_request false) = refl
reached_by-sent got_first_byte = refl

progress-keeps :
    (p : Progress) (es : List TraceEvent)
    → was_not_sent (phase_of p) ≡ false
    → was_not_sent (phase_of (progress_after p es)) ≡ false
unfolding progress_after
progress-keeps p [] h = h
progress-keeps p (e ∷ es) h = progress-keeps (advance p (reached_by e)) es (
    if_both (λ q. was_not_sent (phase_of q) ≡ false) (leb (rank (reached_by e)) (rank p))
      (λ high. h) (λ low. reached_by-sent e))

was_not_sent-request_phase :
    (trace : List TraceEvent) → was_not_sent (request_phase trace) ≡ is_unsent trace
unfolding request_phase progress_after
was_not_sent-request_phase [] = refl
was_not_sent-request_phase (wrote_headers ∷ es) = progress-keeps at_headers es refl
was_not_sent-request_phase (wrote_request true ∷ es) = progress-keeps at_request es refl
was_not_sent-request_phase (wrote_request false ∷ es) = progress-keeps at_headers es refl
was_not_sent-request_phase (got_first_byte ∷ es) = progress-keeps at_response es refl

pub read_handle-answers :
    (sub : Submission) (response : Bytes) → is_plain_failure (read_handle sub response) ≡ false
unfolding read_handle
read_handle-answers sub response =
    elim (Result-cases (validate_opaque_handle (sub.operation_handle response))) [
      | inl (e, bad) ↦ rw (bad, read_handle) refl
      | inr (u, good) ↦ rw (good, read_handle) refl
    ]

-- Whether what came of an exchange is reported as a plain failure.
abbrev fails : Submission → Outcome → Bool
fails sub (bytes, retry, ok response) = is_plain_failure (submit sub (ok response))
fails sub (bytes, retry, err e) = is_plain_failure (submit sub (err (settle false e)))

fails-ok :
    (sub : Submission) (status : ℕ) (n : ℕ) (response : Bytes)
    → is_success status ≡ true
    → fails sub (n, false, ok response) ≡ is_refusal status
unfolding submit
fails-ok sub status n response h = read_handle-answers sub response ∙ ground (arith, h)

-- An error of the exchange whose phase says that the server has answered.
fails-error :
    (sub : Submission) (n : ℕ) (retry : Bool) (e : ApiError)
    → was_not_sent e.phase ≡ false
    → fails sub (n, retry, err (api_error e)) ≡ is_refusal e.status
unfolding submit outcome_is_unknown
fails-error sub n retry e h = elim (Bool-cases (outcome_is_unknown e)) [
  | inl unknown ↦ rw unknown (ground (arith, h, unknown))
  | inr settled ↦ rw settled (ground (arith, h, settled))
]

fails-decode_body :
    (sub : Submission) (call : Call) (status : ℕ) (body : Bytes)
    → is_success status ≡ true
    → fails sub (decode_body call status body) ≡ is_refusal status
fails-decode_body sub call status body h = elim (Option-cases call.decodes) [
  | inl none_ ↦ rw (none_, decode_body) (fails-ok sub status (length body) body h)
  | inr (decodes, some_) ↦
      rw (some_, decode_body)
        (if_both (λ o. fails sub o ≡ is_refusal status) (is_empty (trim_space body) || decodes body)
          (λ good. fails-ok sub status (length body) body h)
          (λ bad.
            fails-error sub (length body) false
              (record (failure call status false body_incomplete bad_json) {
                message = codes "invalid JSON response";
              })
              refl))
]

fails-on_body :
    (sub : Submission) (client : Client) (call : Call) (status : ℕ) (body : Bytes)
    → fails sub (on_body client call status body) ≡ is_refusal status
unfolding on_body decode_api_error
fails-on_body sub client call status body =
    if_both (λ o. fails sub o ≡ is_refusal status) (is_success status)
      (λ good. fails-decode_body sub call status body good)
      (λ bad.
        fails-error sub (length body) (refusal client call status body).retryable
          (refusal client call status body) refl)

fails-unanswered :
    (sub : Submission) (retry : Bool) (e : ApiError)
    → e.status ≡ 0
    → fails sub (0, retry, err (api_error e)) ≡ was_not_sent e.phase
unfolding submit outcome_is_unknown
fails-unanswered sub retry e h = elim (Bool-cases (outcome_is_unknown e)) [
  | inl unknown ↦ rw unknown (ground (arith, h, unknown))
  | inr settled ↦ rw settled (ground (arith, h, settled))
]

fails-read :
    (sub : Submission) (client : Client) (call : Call) (status : ℕ) (data_ : Bytes)
    (problem : Option Cause)
    → fails sub (elim problem [
      | some cause ↦
          (length data_, false, err (api_error (failure call status false body_incomplete cause)))
      | none ↦ on_body client call status data_
    ])
      ≡ is_refusal status
fails-read sub client call status data_ none = fails-on_body sub client call status data_
fails-read sub client call status data_ (some cause) =
    fails-error sub (length data_) false (failure call status false body_incomplete cause) refl

fails-on_reply :
    (sub : Submission) (client : Client) (call : Call) (x : Exchange) (reply : Reply)
    → fails sub (on_reply client call x reply) ≡ cannot_have_run x.trace reply
unfolding on_reply
fails-on_reply sub client call x (no_reply thrown) =
    fails-unanswered sub (not x.call_over)
      (failure call 0 (not x.call_over) (request_phase x.trace) _) refl
    ∙ was_not_sent-request_phase x.trace
fails-on_reply sub client call x (replied status body broken) =
    fails-read sub client call status (read_limited client.max_response_bytes body broken).0
      (read_limited client.max_response_bytes body broken).1

fails-after :
    (sub : Submission) (o : Outcome) (n : ℕ) (again : RequestError → Sent)
    → is_plain_failure (submit sub (after_exchange false n o again).result) ≡ fails sub o
fails-after sub (bytes, retry, ok response) n again = refl
fails-after sub (bytes, true, err e) n again = refl
fails-after sub (bytes, false, err e) n again = refl

pub do_json-open :
    (client : Client) (call : Call) (exchanges : ℕ → Exchange) (wait_over : ℕ → Bool)
    → client.closed ≡ false
    → check_body client.max_response_bytes call.body ≡ ok tt
    → do_json client call exchanges wait_over
      ≡ send_from (if call.is_safe then 1 else 0) 0 client call exchanges wait_over
unfolding do_json
do_json-open client call exchanges wait_over o body =
    if_both (λ t. t ≡ send_from (if call.is_safe then 1 else 0) 0 client call exchanges wait_over)
      (client.closed && not call.is_cleanup) (λ closed. ground (arith, closed, o))
      (λ open_. rw body refl)

once-valid :
    (client : Client) (call : Call) (x : Exchange)
    → call.is_valid ≡ true
    → do_json_once client call x ≡ on_reply client call x x.reply
unfolding do_json_once
once-valid client call x valid =
    if_both (λ o. o ≡ on_reply client call x x.reply) call.is_valid (λ good. refl)
      (λ bad. ground (arith, valid, bad))

-- A request that may not be repeated.
pub fails-call :
    (client : Client) (sub : Submission) (call : Call) (exchanges : ℕ → Exchange)
    (wait_over : ℕ → Bool)
    → call.is_safe ≡ false
    → call.is_valid ≡ true
    → is_plain_failure (submit sub (send_from 0 0 client call exchanges wait_over).result)
      ≡ cannot_have_run (exchanges 0).trace (exchanges 0).reply
unfolding send_from
fails-call client sub call exchanges wait_over unsafe valid =
    subst
      (λ safe.
        is_plain_failure (
          submit sub
            (after_exchange safe 1 (do_json_once client call (exchanges 0))
              (λ e. gives_up 1 e)).result)
        ≡ cannot_have_run (exchanges 0).trace (exchanges 0).reply)
      (sym unsafe)
      (fails-after sub (do_json_once client call (exchanges 0)) 1 (λ e. gives_up 1 e)
        ∙ ap (λ o. fails sub o) (once-valid client call (exchanges 0) valid)
        ∙ fails-on_reply sub client call (exchanges 0) (exchanges 0).reply)
