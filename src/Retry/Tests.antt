-- ===== src/Retry/Tests.antt =====
-- Requests of internal/syncer/retry.go against scripts of statuses.
use skret.Base.{ℕ, ◌≡◌, refl, List, [], ◌∷◌, Option, none, codes}
use skret.Retry.{
  Reply, transport_error, response, request, Client, needs_reconciliation, http_status, answered,
  failed, is_transient, status_allowed, or_cancelled, with_request, with_reply, sent_failure,
  last_error, retry_loop, do_with_retry, do_mutation,
}
use skret.Retry.Attempts.{counted, IsOnce, IsSettled, do_mutation-IsOnce, do_with_retry-IsSettled}

-- The next reply of a script; an empty one is a broken line.
abbrev next_reply : List ℕ → List ℕ × Reply
next_reply [] = ([], transport_error (codes "EOF"))
next_reply (s ∷ script) = (script, response s)

-- A context that is never cancelled, and a script of statuses.
abbrev scripted : Client (List ℕ)
scripted = record {
  context_error = λ w. (w, none);
  new_request = λ w. (w, request (codes "PUT"));
  send = λ method w. next_reply w;
  wait = λ ms w. (w, none);
}

-- All that these runs call.
executes : Option ℕ
unfolding is_transient status_allowed or_cancelled with_request with_reply sent_failure last_error
    retry_loop do_with_retry do_mutation
executes = none

retry-recovers :
    do_with_retry (counted scripted) (200 ∷ []) (503 ∷ 200 ∷ [], 0) ≡ (([], 2), answered 200)
unfolding executes
retry-recovers = refl

retry-exhausted :
    do_with_retry (counted scripted) (200 ∷ []) (503 ∷ 502 ∷ 500 ∷ 200 ∷ [], 0)
    ≡ ((200 ∷ [], 3), failed (http_status 500))
unfolding executes
retry-exhausted = refl

mutation-ambiguous :
    do_mutation (counted scripted) (200 ∷ []) (503 ∷ 200 ∷ [], 0)
    ≡ ((200 ∷ [], 1), failed (needs_reconciliation (codes "PUT") 503 (http_status 503)))
unfolding executes
mutation-ambiguous = refl

do_mutation-IsOnce_example :
    IsOnce (200 ∷ []) 0 (do_mutation (counted scripted) (200 ∷ []) (503 ∷ 200 ∷ [], 0))
do_mutation-IsOnce_example = do_mutation-IsOnce scripted (200 ∷ []) (503 ∷ 200 ∷ []) 0

do_with_retry-IsSettled_example :
    IsSettled (200 ∷ []) (do_with_retry (counted scripted) (200 ∷ []) (503 ∷ 502 ∷ 500 ∷ [], 0))
do_with_retry-IsSettled_example = do_with_retry-IsSettled scripted (200 ∷ []) (503 ∷ 502 ∷ 500 ∷ [])
