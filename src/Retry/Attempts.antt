-- ===== src/Retry/Attempts.antt =====
-- How often the functions of internal/syncer/retry.go send a request, and what they return then.
use skret.Base.{
  ℕ, zero, suc, ◌+◌, ◌*◌, ◌^◌, ◌≤◌, ◌≡◌, refl, arith, Bool, true, false, not, ◌||◌, ◌&&◌, List,
  Option, none, some, Str, ◌==◌, ◌⊎◌, inl, inr, Bool-cases,
}
use skret.Retry.{
  Reply, transport_error, response, Prepared, request_error, request, Client, context, prepare,
  http_status, needs_reconciliation, Outcome, answered, failed, nothing, max_attempts, is_transient,
  status_allowed, or_cancelled, with_request, with_reply, sent_failure, retry_loop, do_with_retry,
  do_mutation,
}

-- The client, with a count of the requests that it has sent.
abbrev pub counted : {W : Type 0} → Client W → Client (W × ℕ)
counted client = record {
  context_error = λ w. let r = client.context_error w.0 in ((r.0, w.1), r.1);
  new_request = λ w. let r = client.new_request w.0 in ((r.0, w.1), r.1);
  send = λ method w. let r = client.send method w.0 in ((r.0, suc w.1), r.1);
  wait = λ ms w. let r = client.wait ms w.0 in ((r.0, w.1), r.1);
}

-- Did the mutation end before a request was sent?
abbrev pub is_unsent : Outcome → Bool
is_unsent (failed (context c)) = true
is_unsent (failed (prepare e)) = true
is_unsent _ = false

-- Does the outcome own up to a request that was sent: a success, or a need for reconciliation?
abbrev pub is_accounted : List ℕ → Outcome → Bool
is_accounted oks (answered s) = status_allowed s oks
is_accounted oks (failed (needs_reconciliation method s cause)) = true
is_accounted oks _ = false

-- The ways in which the calls that a round makes come out.
context-cases :
    {W : Type 0} (r : W × Option Str)
    → ((w : W) × (c : Str) × (r ≡ (w, some c))) ⊎ ((w : W) × (r ≡ (w, none)))
context-cases (w, some c) = inl (w, c, refl)
context-cases (w, none) = inr (w, refl)

request-cases :
    {W : Type 0} (r : W × Prepared)
    → ((w : W) × (e : Str) × (r ≡ (w, request_error e)))
      ⊎ ((w : W) × (m : Str) × (r ≡ (w, request m)))
request-cases (w, request_error e) = inl (w, e, refl)
request-cases (w, request m) = inr (w, m, refl)

reply-cases :
    {W : Type 0} (r : W × Reply)
    → ((w : W) × (e : Str) × (r ≡ (w, transport_error e)))
      ⊎ ((w : W) × (s : ℕ) × (r ≡ (w, response s)))
reply-cases (w, transport_error e) = inl (w, e, refl)
reply-cases (w, response s) = inr (w, s, refl)

-- The count and the outcome agree: nothing was sent, or one request that the outcome owns up to.
abbrev pub IsOnce : {W : Type 0} → List ℕ → ℕ → (W × ℕ) × Outcome → Type 0
IsOnce oks n r =
    ((r.0.1 ≡ n) × (is_unsent r.1 ≡ true)) ⊎ ((r.0.1 ≡ suc n) × (is_accounted oks r.1 ≡ true))

-- `doMutation` sends its request once at most. If it sent it, it returns a response of an allowed
-- status or an error that asks for reconciliation; if not, the error of the context or of the
-- request.
pub do_mutation-IsOnce :
    {W : Type 0} (client : Client W) (oks : List ℕ) (w : W) (n : ℕ)
    → IsOnce oks n (do_mutation (counted client) oks (w, n))
unfolding do_mutation or_cancelled with_request with_reply sent_failure
do_mutation-IsOnce client oks w n = elim (context-cases (client.context_error w)) [
  | inl (w1, c, q) ↦ rw (q, or_cancelled) (inl (refl, refl))
  | inr (w1, q) ↦ elim (request-cases (client.new_request w1)) [
    | inl (w2, e, p) ↦ rw (q, p) (inl (refl, refl))
    | inr (w2, m, p) ↦ elim (reply-cases (client.send m w2)) [
      | inl (w3, e, x) ↦ elim (context-cases (client.context_error w3)) [
        | inl (w4, c, y) ↦ rw (q, p, x, y) (inr (refl, refl))
        | inr (w4, y) ↦ rw (q, p, x, y) (inr (refl, refl))
      ]
      | inr (w3, s, x) ↦ elim (Bool-cases (status_allowed s oks)) [
        | inl y ↦ rw (q, p, x, y) (inr (refl, y))
        | inr y ↦ rw (q, p, x, y) (inr (refl, refl))
      ]
    ]
  ]
]

-- What a read may return after `sent` requests: never nothing, a response only of an allowed status,
-- and an error for a transient status only after the last attempt.
abbrev pub is_settled : List ℕ → ℕ → Outcome → Bool
is_settled oks sent nothing = false
is_settled oks sent (answered s) = status_allowed s oks
is_settled oks sent (failed (http_status s)) =
    not (status_allowed s oks) && (not (is_transient s) || (sent == max_attempts))
is_settled oks sent (failed (needs_reconciliation method s cause)) = false
is_settled oks sent (failed _) = true

abbrev pub IsSettled : {W : Type 0} → List ℕ → (W × ℕ) × Outcome → Type 0
IsSettled oks r = (r.0.1 ≤ max_attempts) × (is_settled oks r.0.1 r.1 ≡ true)

-- One round, given what the rounds behind it come to.
round-IsSettled :
    {W : Type 0} (client : Client W) (oks : List ℕ) (left attempt : ℕ) (w : W)
    → suc left + attempt ≡ max_attempts
    → ((w' : W)
        → (suc attempt == max_attempts) ≡ false
        → IsSettled oks (retry_loop (counted client) oks left (suc attempt) (w', suc attempt)))
    → IsSettled oks (retry_loop (counted client) oks (suc left) attempt (w, attempt))
unfolding retry_loop or_cancelled with_request with_reply sent_failure
round-IsSettled client oks left attempt w e next = elim (context-cases (client.context_error w)) [
  | inl (w1, c, q) ↦ rw q (omega (arith, e), refl)
  | inr (w1, q) ↦ elim (request-cases (client.new_request w1)) [
    | inl (w2, c, p) ↦ rw (q, p) (omega (arith, e), refl)
    | inr (w2, m, p) ↦ elim (reply-cases (client.send m w2)) [
      | inl (w3, c, x) ↦ elim (context-cases (client.context_error w3)) [
        | inl (w4, d, y) ↦ rw (q, p, x, y) (omega (arith, e), refl)
        | inr (w4, y) ↦ rw (q, p, x, y) (omega (arith, e), refl)
      ]
      | inr (w3, s, x) ↦ elim (Bool-cases (status_allowed s oks)) [
        | inl y ↦ rw (q, p, x, y) (omega (arith, e), y)
        | inr y ↦ elim (Bool-cases (not (is_transient s) || (suc attempt == max_attempts))) [
          | inl z ↦ rw (q, p, x, y, z) (omega (arith, e), ground (arith, y, z))
          | inr z ↦ elim (context-cases (client.wait (10 * 2 ^ attempt) w3)) [
            | inl (w4, d, u) ↦ rw (q, p, x, y, z, u) (omega (arith, e), refl)
            | inr (w4, u) ↦ rw (q, p, x, y, z, u) (next w4 (ground (arith, z)))
          ]
        ]
      ]
    ]
  ]
]

retry_loop-IsSettled :
    {W : Type 0} (client : Client W) (oks : List ℕ) (left attempt : ℕ) (w : W)
    → suc left + attempt ≡ max_attempts
    → IsSettled oks (retry_loop (counted client) oks (suc left) attempt (w, attempt))
retry_loop-IsSettled client oks zero attempt w e =
    round-IsSettled client oks zero attempt w e (λ w' h. absurd (ground (arith, e, h)))
retry_loop-IsSettled client oks (suc left) attempt w e =
    round-IsSettled client oks (suc left) attempt w e
      (λ w' h. retry_loop-IsSettled client oks left (suc attempt) w' (omega (arith, e)))

-- `doWithRetry` sends three requests at most and always returns a response or an error: a response
-- only of an allowed status, and the error of a transient status only after the third request.
pub do_with_retry-IsSettled :
    {W : Type 0} (client : Client W) (oks : List ℕ) (w : W)
    → IsSettled oks (do_with_retry (counted client) oks (w, 0))
unfolding do_with_retry
do_with_retry-IsSettled client oks w = retry_loop-IsSettled client oks 2 0 w refl
