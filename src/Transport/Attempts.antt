-- ===== src/Transport/Attempts.antt =====
-- transport.go: how often a request is sent.
use flink_sql_go.Prelude.{
  ℕ, zero, suc, ◌+◌, ◌≤◌, ◌≡◌, refl, Bool, true, false, not, ◌&&◌, ok, err, if◌then◌else◌, if_both,
  Bool-cases, inl, inr, ltb, length, arith, Result, Bytes,
}
use flink_sql_go.Transport.Request.{
  Body, no_body, not_encodable, encoded, Client, Call, Exchange, RequestError, client_closed,
  encode_failed, body_too_large, create_failed, wait_cancelled, api_error, Outcome, do_json_once,
  Sent, settle, after_exchange, gives_up, check_body, send_from, do_json,
}

-- Whether an error says that its request may be sent again.
abbrev pub is_retryable_error : RequestError → Bool
is_retryable_error (api_error e) = e.retryable
is_retryable_error _ = false

abbrev pub asks_for_retry : Result RequestError Bytes → Bool
asks_for_retry (ok data_) = false
asks_for_retry (err e) = is_retryable_error e

-- At most so many exchanges, and no error to be tried again unless the request is safe.
pub record IsSent (most : ℕ) (safe : Bool) (s : Sent) : Type 0 where
  pub attempts : s.attempts ≤ most
  pub retryable : safe ≡ false → asks_for_retry s.result ≡ false

settle-retryable :
    (safe : Bool) (f : RequestError) → safe ≡ false → is_retryable_error (settle safe f) ≡ false
settle-retryable safe (api_error g) h = ground (arith, h)
settle-retryable safe client_closed h = refl
settle-retryable safe encode_failed h = refl
settle-retryable safe body_too_large h = refl
settle-retryable safe create_failed h = refl
settle-retryable safe wait_cancelled h = refl

after-IsSent :
    (most : ℕ) (safe : Bool) (n : ℕ) (o : Outcome) (again : RequestError → Sent)
    → n ≤ most
    → ((e : RequestError) → safe ≡ true → IsSent most safe (again e))
    → IsSent most safe (after_exchange safe n o again)
after-IsSent most safe n (bytes, retry, ok data_) again m h = record {
  attempts = m;
  retryable = λ s. refl;
}
after-IsSent most safe n (bytes, retry, err e) again m h =
    if_both (IsSent most safe) (retry && safe) (λ r. h (settle safe e) (ground (arith, r)))
      (λ r. record { attempts = m; retryable = λ s. settle-retryable safe e s })

gives_up-IsSent :
    (most n : ℕ) (safe : Bool) (e : RequestError)
    → n ≤ most
    → safe ≡ true
    → IsSent most safe (gives_up n e)
gives_up-IsSent most n safe e m h = record { attempts = m; retryable = λ s. ground (arith, h, s) }

send_from-IsSent :
    (left n : ℕ) (client : Client) (call : Call) (exchanges : ℕ → Exchange) (wait_over : ℕ → Bool)
    → IsSent (n + 1 + left) call.is_safe (send_from left n client call exchanges wait_over)
unfolding send_from
send_from-IsSent zero n client call exchanges wait_over =
    after-IsSent (n + 1 + zero) call.is_safe (n + 1) (do_json_once client call (exchanges n))
      (λ e. gives_up (n + 1) e) (omega arith)
      (λ e safe. gives_up-IsSent (n + 1 + zero) (n + 1) call.is_safe e (omega arith) safe)
send_from-IsSent (suc left) n client call exchanges wait_over =
    after-IsSent (n + 1 + suc left) call.is_safe (n + 1) (do_json_once client call (exchanges n)) _
      (omega arith)
      (λ e safe.
        if_both (IsSent (n + 1 + suc left) call.is_safe) (wait_over n)
          (λ over.
            gives_up-IsSent (n + 1 + suc left) (n + 1) call.is_safe wait_cancelled (omega arith)
              safe)
          (λ free.
            let later = send_from-IsSent left (n + 1) client call exchanges wait_over in
            record { attempts = omega (arith, later.attempts); retryable = later.retryable }))

refused-IsSent :
    (most : ℕ) (safe : Bool) (e : RequestError)
    → is_retryable_error e ≡ false
    → IsSent most safe (gives_up 0 e)
refused-IsSent most safe e h = record { attempts = omega arith; retryable = λ s. h }

first-IsSent :
    (client : Client) (call : Call) (exchanges : ℕ → Exchange) (wait_over : ℕ → Bool) (safe : Bool)
    → call.is_safe ≡ safe
    → IsSent
        (if safe then 2 else 1)
        call.is_safe
        (send_from (if safe then 1 else 0) 0 client call exchanges wait_over)
first-IsSent client call exchanges wait_over true h =
    send_from-IsSent 1 0 client call exchanges wait_over
first-IsSent client call exchanges wait_over false h =
    send_from-IsSent 0 0 client call exchanges wait_over

checked-IsSent :
    (most limit : ℕ) (safe : Bool) (body : Body) (s : Sent)
    → IsSent most safe s
    → IsSent most safe (elim (check_body limit body) [ err e ↦ gives_up 0 e | ok u ↦ s ])
checked-IsSent most limit safe no_body s i = i
checked-IsSent most limit safe not_encodable s i = refused-IsSent most safe encode_failed refl
checked-IsSent most limit safe (encoded text) s i = elim (Bool-cases (ltb limit (length text))) [
  | inl long ↦ rw long (refused-IsSent most safe body_too_large refl)
  | inr short ↦ rw short i
]

-- Whatever the exchanges come to, a request is sent at most twice if it is safe, and otherwise at most once
-- with an error that never says that it may be sent again.
pub do_json-IsSent :
    (client : Client) (call : Call) (exchanges : ℕ → Exchange) (wait_over : ℕ → Bool)
    → IsSent (if call.is_safe then 2 else 1) call.is_safe (do_json client call exchanges wait_over)
unfolding do_json
do_json-IsSent client call exchanges wait_over =
    if_both (IsSent (if call.is_safe then 2 else 1) call.is_safe)
      (client.closed && not call.is_cleanup)
      (λ closed. refused-IsSent (if call.is_safe then 2 else 1) call.is_safe client_closed refl)
      (λ o.
        checked-IsSent (if call.is_safe then 2 else 1) client.max_response_bytes call.is_safe
          call.body _ (first-IsSent client call exchanges wait_over call.is_safe refl))
