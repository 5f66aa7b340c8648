-- ===== src/Retry.antt =====
-- internal/syncer/retry.go: reads that are retried and mutations that are not. The HTTP client, the
-- context and the timer are the parameter `Client`, over a state `W` of the world of which nothing
-- is known; a status is a number, and closing a body is left out.
pub mod Attempts
mod Tests
use skret.Base.{
  ℕ, zero, suc, ◌+◌, ◌*◌, ◌^◌, Bool, true, false, not, ◌||◌, List, [], ◌∷◌, Option, none, some, Str,
  ◌==◌, if◌then◌else◌,
}

-- What `client.Do` returns: an error or a response by its status.
pub data Reply : Type 0 where
  transport_error : Str → Reply
  response : ℕ → Reply

-- What `newRequest` returns: an error or a request by its method.
pub data Prepared : Type 0 where
  request_error : Str → Prepared
  request : Str → Prepared

pub record Client (W : Type 0) : Type 0 where
  -- `ctx.Err()`
  pub context_error : W → W × Option Str
  -- `newRequest()`
  pub new_request : W → W × Prepared
  -- `client.Do(req)`, by the method of the request
  pub send : Str → W → W × Reply
  -- `waitForRetry`, for so many milliseconds
  pub wait : ℕ → W → W × Option Str

-- The errors; `needs_reconciliation` is `MutationNeedsReconciliationError` with its method, its
-- status (0 where there is none) and its cause.
pub data Failure : Type 0 where
  context prepare transport : Str → Failure
  http_status : ℕ → Failure
  needs_reconciliation : Str → ℕ → Failure → Failure

-- A response by its status, an error, or neither.
pub data Outcome : Type 0 where
  answered : ℕ → Outcome
  failed : Failure → Outcome
  nothing : Outcome

-- `maxHTTPAttempts`
abbrev pub max_attempts : ℕ
max_attempts = 3

-- `isTransientHTTPStatus`
unfoldable pub is_transient : ℕ → Bool
is_transient s = s == 408 || s == 425 || s == 429 || s == 500 || s == 502 || s == 503 || s == 504

-- `statusAllowed`
unfoldable pub status_allowed : ℕ → List ℕ → Bool
status_allowed s [] = false
status_allowed s (ok ∷ oks) = if s == ok then true else status_allowed s oks

module _ {W : Type 0} where
  -- `if err := ...; err != nil { return nil, err }` for an error of the context.
  unfoldable pub or_cancelled : W × Option Str → (W → W × Outcome) → W × Outcome
  or_cancelled (w, some c) next = (w, failed (context c))
  or_cancelled (w, none) next = next w

  -- The same for `newRequest`.
  unfoldable pub with_request : W × Prepared → (Str → W → W × Outcome) → W × Outcome
  with_request (w, request_error e) next = (w, failed (prepare e))
  with_request (w, request method) next = next method w

  -- The two ways on from `client.Do`.
  unfoldable pub with_reply :
      W × Reply → (Str → W → W × Outcome) → (ℕ → W → W × Outcome) → W × Outcome
  with_reply (w, transport_error e) on_error on_response = on_error e w
  with_reply (w, response s) on_error on_response = on_response s w

  -- The failure after `client.Do` has failed: the context's error before the client's.
  unfoldable pub sent_failure : W × Option Str → Str → (Failure → Failure) → W × Outcome
  sent_failure (w, some c) e wrap = (w, failed (wrap (context c)))
  sent_failure (w, none) e wrap = (w, failed (wrap (transport e)))

  -- `return nil, ctx.Err()`
  unfoldable pub last_error : W × Option Str → W × Outcome
  last_error (w, some c) = (w, failed (context c))
  last_error (w, none) = (w, nothing)

module _ {W : Type 0} (client : Client W) (oks : List ℕ) where
  -- The rounds of `doWithRetry` that are left, and the number of the next.
  unfoldable pub retry_loop : ℕ → ℕ → W → W × Outcome
  unfolding is_transient status_allowed or_cancelled with_request with_reply sent_failure last_error
  retry_loop zero attempt w = last_error (client.context_error w)
  retry_loop (suc left) attempt w = or_cancelled (client.context_error w) (λ w1.
      with_request (client.new_request w1) (λ method w2.
        with_reply (client.send method w2)
          (λ e w3. sent_failure (client.context_error w3) e (λ f. f))
          (λ s w3.
            if status_allowed s oks
            then (w3, answered s)
            else if not (is_transient s) || (suc attempt == max_attempts)
            then (w3, failed (http_status s))
            else or_cancelled (client.wait (10 * 2 ^ attempt) w3)
                (λ w4. retry_loop left (suc attempt) w4))))

  -- `doWithRetry`
  unfoldable pub do_with_retry : W → W × Outcome
  unfolding retry_loop
  do_with_retry w = retry_loop max_attempts 0 w

  -- `doMutation`
  unfoldable pub do_mutation : W → W × Outcome
  unfolding status_allowed or_cancelled with_request with_reply sent_failure
  do_mutation w = or_cancelled (client.context_error w) (λ w1.
      with_request (client.new_request w1) (λ method w2.
        with_reply (client.send method w2)
          (λ e w3. sent_failure (client.context_error w3) e (needs_reconciliation method 0))
          (λ s w3.
            if status_allowed s oks
            then (w3, answered s)
            else (w3, failed (needs_reconciliation method s (http_status s))))))
