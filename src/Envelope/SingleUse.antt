-- ===== src/Envelope/SingleUse.antt =====
-- A nonce is consumed once (internal/syncer/envelope_replay.go).
use skret.Base.{
  ℕ, ◌≤◌, ◌<◌, ◌≡◌, ◌≢◌, arith, true, false, List, [], ◌∷◌, none, some, Str, ℤ, pos, length,
  str_eq_iff, str_eq_refl, leb, ◌==◌, ◌⊎◌, inl, inr, Option-cases, Bool-cases, All,
}
use skret.Envelope.{
  Envelope, Crypto, canonical, validate_fields, verify_signed_envelope, valid_digest,
}
use skret.Envelope.Replay.{
  Scope, Entry, Store, Consumed, accepted, replayed, full, invalid_request, expired_request,
  scope_eq, capacity_of, cleanup, find, valid_scope, admit, consume, refusal, scope_of,
  consume_verified, verify_and_consume,
}

scope_eq_refl : (s : Scope) → scope_eq s s ≡ true
scope_eq_refl s = ground (arith, str_eq_refl s.audience, str_eq_refl s.role, str_eq_refl s.nonce)

scope_eq_sound : (a b : Scope) → scope_eq a b ≡ true → a ≡ b
scope_eq_sound a b h = ground (
  arith,
  h,
  str_eq_iff a.audience b.audience,
  str_eq_iff a.role b.role,
  str_eq_iff a.nonce b.nonce,
)

-- The store holds the scope until the time `until` at least.
abbrev pub Remembers : Scope → ℕ → List (Scope × Entry) → Type 0
Remembers scope until [] = true ≡ false
Remembers scope until ((s, e) ∷ entries) =
    ((scope_eq s scope ≡ true) × (until ≤ e.expires_at)) ⊎ Remembers scope until entries

cleanup-Remembers :
    (scope : Scope) (until now : ℕ) (entries : List (Scope × Entry))
    → now < until
    → Remembers scope until entries
    → Remembers scope until (cleanup now entries)
unfolding cleanup
cleanup-Remembers scope until now [] h r = r
cleanup-Remembers scope until now ((s, e) ∷ entries) h (inl (q, l)) =
    let keep : leb e.expires_at now ≡ false = ground (arith, h, l) in rw keep (inl (q, l))
cleanup-Remembers scope until now ((s, e) ∷ entries) h (inr r) =
    elim (Bool-cases (leb e.expires_at now)) [
      | inl q ↦ rw q (cleanup-Remembers scope until now entries h r)
      | inr q ↦ rw q (inr (cleanup-Remembers scope until now entries h r))
    ]

Remembers-find :
    (scope : Scope) (until : ℕ) (entries : List (Scope × Entry))
    → Remembers scope until entries
    → find scope entries ≢ none
unfolding find
Remembers-find scope until [] r h = absurd (ground (arith, r))
Remembers-find scope until ((s, e) ∷ entries) (inl (q, l)) h = ground (arith, h, q)
Remembers-find scope until ((s, e) ∷ entries) (inr r) h = elim (Bool-cases (scope_eq s scope)) [
  | inl q ↦ ground (arith, h, q)
  | inr q ↦ Remembers-find scope until entries r (ground (arith, h, q))
]

-- One call of `Consume`, with its arguments and its clock.
pub record Request : Type 0 where
  pub scope : Scope
  pub digest : Str
  pub expires_at : ℕ
  pub now : ℕ

abbrev pub step : Store → Request → Store × Consumed
step s r = consume s r.scope r.digest r.expires_at r.now

abbrev pub run : Store → List Request → Store
run s [] = s
run s (r ∷ requests) = run (step s r).0 requests

admit-cases :
    (capacity : ℕ) (scope : Scope) (entry : Entry) (entries : List (Scope × Entry))
    → ((admit capacity scope entry entries
          ≡ (record { entries = entries; capacity = pos capacity }, replayed))
        × (find scope entries ≢ none))
      ⊎ (((admit capacity scope entry entries
              ≡ (record { entries = entries; capacity = pos capacity }, full))
            × (capacity ≤ length entries))
          ⊎ ((admit capacity scope entry entries ≡ (
            record { entries = (scope, entry) ∷ entries; capacity = pos capacity },
            accepted,
          ))
              × (find scope entries ≡ none)
              × (length entries < capacity)))
unfolding admit
admit-cases capacity scope entry entries = elim (Option-cases (find scope entries)) [
  | inr (e, q) ↦ inl (ground (arith, q), λ n. ground (arith, n, q))
  | inl q ↦ elim (Bool-cases (leb capacity (length entries))) [
    | inl l ↦ inr (inl (ground (arith, q, l), ground (arith, l)))
    | inr l ↦ inr (inr (ground (arith, q, l), q, ground (arith, l)))
  ]
]

-- What a call comes to: nothing is changed by a refusal of the arguments.
consume-cases :
    (s : Store) (r : Request)
    → (((step s r).0 ≡ s) × (((step s r).1 ≡ invalid_request) ⊎ ((step s r).1 ≡ expired_request)))
      ⊎ ((step s r
            ≡ admit
                (capacity_of s.capacity)
                r.scope
                (record { digest = r.digest; expires_at = r.expires_at })
                (cleanup r.now s.entries))
          × (r.now < r.expires_at))
unfolding consume
consume-cases s r = elim (Bool-cases (valid_scope r.scope)) [
  | inr a ↦ inl (ground (arith, a), inl (ground (arith, a)))
  | inl a ↦ elim (Bool-cases (valid_digest r.digest)) [
    | inr b ↦ inl (ground (arith, a, b), inl (ground (arith, a, b)))
    | inl b ↦ elim (Bool-cases (r.expires_at == 0)) [
      | inl c ↦ inl (ground (arith, a, b, c), inr (ground (arith, a, b, c)))
      | inr c ↦ elim (Bool-cases (leb r.expires_at r.now)) [
        | inl d ↦ inl (ground (arith, a, b, c, d), inr (ground (arith, a, b, c, d)))
        | inr d ↦ inr (ground (arith, a, b, c, d), ground (arith, d))
      ]
    ]
  ]
]

step-Remembers :
    (scope : Scope) (until : ℕ) (s : Store) (r : Request)
    → r.now < until
    → Remembers scope until s.entries
    → Remembers scope until (step s r).0.entries
step-Remembers scope until s r early m = elim (consume-cases s r) [
  | inl (e, f) ↦ rw e m
  | inr (e, l) ↦
      let kept = cleanup-Remembers scope until r.now s.entries early m in
      elim (admit-cases (capacity_of s.capacity) r.scope
        (record { digest = r.digest; expires_at = r.expires_at }) (cleanup r.now s.entries)) [
          | inl (a, f) ↦ rw (e, a) kept
          | inr (inl (a, f)) ↦ rw (e, a) kept
          | inr (inr (a, f, g)) ↦ rw (e, a) (inr kept)
        ]
]

run-Remembers :
    (scope : Scope) (until : ℕ) (requests : List Request) (s : Store)
    → All (λ r. r.now < until) requests
    → Remembers scope until s.entries
    → Remembers scope until (run s requests).entries
run-Remembers scope until [] s early m = m
run-Remembers scope until (r ∷ requests) s early m =
    run-Remembers scope until requests (step s r).0 early.1
      (step-Remembers scope until s r early.0 m)

accepted-Remembers :
    (s : Store) (r : Request)
    → (step s r).1 ≡ accepted
    → Remembers r.scope r.expires_at (step s r).0.entries
accepted-Remembers s r h = elim (consume-cases s r) [
  | inl (e, inl f) ↦ absurd (ground (arith, h, f))
  | inl (e, inr f) ↦ absurd (ground (arith, h, f))
  | inr (e, l) ↦
      elim (admit-cases (capacity_of s.capacity) r.scope
        (record { digest = r.digest; expires_at = r.expires_at }) (cleanup r.now s.entries)) [
          | inl (a, f) ↦ absurd (ground (arith, h, e, a))
          | inr (inl (a, f)) ↦ absurd (ground (arith, h, e, a))
          | inr (inr (a, f, g)) ↦ rw (e, a) (inl (scope_eq_refl r.scope, omega arith))
        ]
]

remembered-refused :
    (s : Store) (r : Request) (until : ℕ)
    → r.now < until
    → Remembers r.scope until s.entries
    → (step s r).1 ≢ accepted
remembered-refused s r until early m h = elim (consume-cases s r) [
  | inl (e, inl f) ↦ ground (arith, h, f)
  | inl (e, inr f) ↦ ground (arith, h, f)
  | inr (e, l) ↦
      elim (admit-cases (capacity_of s.capacity) r.scope
        (record { digest = r.digest; expires_at = r.expires_at }) (cleanup r.now s.entries)) [
          | inl (a, f) ↦ ground (arith, h, e, a)
          | inr (inl (a, f)) ↦ ground (arith, h, e, a)
          | inr (inr (a, f, g)) ↦
              Remembers-find r.scope until (cleanup r.now s.entries)
                (cleanup-Remembers r.scope until r.now s.entries early m) f
        ]
]

-- Once `Consume` has accepted a scope, it accepts the scope at no time before that expiry again,
-- whatever calls come in between, as long as their clocks are before that expiry.
pub consume-once :
    (s : Store) (r : Request) (requests : List Request) (again : Request)
    → (step s r).1 ≡ accepted
    → All (λ q. q.now < r.expires_at) requests
    → again.scope ≡ r.scope
    → again.now < r.expires_at
    → (step (run (step s r).0 requests) again).1 ≢ accepted
consume-once s r requests again h early same before =
    remembered-refused (run (step s r).0 requests) again r.expires_at before (
      rw same
        (run-Remembers r.scope r.expires_at requests (step s r).0 early (accepted-Remembers s r h)))

length-cleanup :
    (now : ℕ) (entries : List (Scope × Entry)) → length (cleanup now entries) ≤ length entries
unfolding cleanup
length-cleanup now [] = omega arith
length-cleanup now ((s, e) ∷ entries) = ground (arith, length-cleanup now entries)

-- A store holds no more scopes than its capacity.
abbrev pub IsBounded : Store → Type 0
IsBounded s = length s.entries ≤ capacity_of s.capacity

capacity_of-again : (c : ℤ) → capacity_of (pos (capacity_of c)) ≡ capacity_of c
unfolding capacity_of
capacity_of-again c = ground arith

step-IsBounded : (s : Store) (r : Request) → IsBounded s → IsBounded (step s r).0
step-IsBounded s r b = elim (consume-cases s r) [
  | inl (e, f) ↦ rw e b
  | inr (e, l) ↦
      let shorter = length-cleanup r.now s.entries in
      elim (admit-cases (capacity_of s.capacity) r.scope
        (record { digest = r.digest; expires_at = r.expires_at }) (cleanup r.now s.entries)) [
          | inl (a, f) ↦ rw (e, a, capacity_of-again s.capacity) (omega (arith, shorter, b))
          | inr (inl (a, f)) ↦ rw (e, a, capacity_of-again s.capacity) (omega (arith, shorter, b))
          | inr (inr (a, f, g)) ↦ rw (e, a, capacity_of-again s.capacity) (omega (arith, g))
        ]
]

-- Whatever calls of `Consume` a store that is within its capacity answers, it stays within it.
pub run-IsBounded : (requests : List Request) (s : Store) → IsBounded s → IsBounded (run s requests)
run-IsBounded [] s b = b
run-IsBounded (r ∷ requests) s b = run-IsBounded requests (step s r).0 (step-IsBounded s r b)

cleanup-All :
    (now : ℕ) (entries : List (Scope × Entry))
    → All (λ e. now < e.1.expires_at) (cleanup now entries)
unfolding cleanup
cleanup-All now [] = tt
cleanup-All now ((s, e) ∷ entries) = elim (Bool-cases (leb e.expires_at now)) [
  | inl q ↦ rw q (cleanup-All now entries)
  | inr q ↦ rw q (ground (arith, q), cleanup-All now entries)
]

-- `Consume` reports a full store only over as many scopes as its capacity, every one of which is
-- still valid: expired ones never keep a fresh one out.
pub consume-full :
    (s : Store) (r : Request)
    → (step s r).1 ≡ full
    → (capacity_of s.capacity ≤ length (step s r).0.entries)
      × All (λ e. r.now < e.1.expires_at) (step s r).0.entries
consume-full s r h = elim (consume-cases s r) [
  | inl (e, inl f) ↦ absurd (ground (arith, h, f))
  | inl (e, inr f) ↦ absurd (ground (arith, h, f))
  | inr (e, l) ↦
      elim (admit-cases (capacity_of s.capacity) r.scope
        (record { digest = r.digest; expires_at = r.expires_at }) (cleanup r.now s.entries)) [
          | inl (a, f) ↦ absurd (ground (arith, h, e, a))
          | inr (inl (a, f)) ↦ rw (e, a) (f, cleanup-All r.now s.entries)
          | inr (inr (a, f, g)) ↦ absurd (ground (arith, h, e, a))
        ]
]

-- The call of `Consume` that an accepted envelope comes to.
abbrev pub request_of : Crypto → Envelope → ℕ → Request
request_of crypto e now = record {
  scope = scope_of e;
  digest = crypto.digest_bytes (canonical crypto e);
  expires_at = e.expires_at;
  now = now;
}

verified-accepted :
    (crypto : Crypto) (s : Store) (e : Envelope) (public_key : Str) (now : ℕ)
    → (verify_and_consume crypto consume (some s) (some e) public_key now).1 ≡ none
    → ((step s (request_of crypto e now)).1 ≡ accepted)
      × ((verify_and_consume crypto consume (some s) (some e) public_key now).0
          ≡ some (step s (request_of crypto e now)).0)
unfolding verify_and_consume consume_verified
verified-accepted crypto s e public_key now h =
    elim (Option-cases (verify_signed_envelope crypto (some e) public_key now)) [
      | inr (f, q) ↦ absurd (ground (arith, h, q))
      | inl q ↦ elim (Option-cases (validate_fields crypto e)) [
        | inr (f, p) ↦ absurd (ground (arith, h, q, p))
        | inl p ↦
            let r : refusal (step s (request_of crypto e now)).1 ≡ none = ground (arith, h, q, p) in
            (accepted-refusal (step s (request_of crypto e now)).1 r, ground (arith, q, p))
      ]
    ]
  where
    accepted-refusal : (c : Consumed) → refusal c ≡ none → c ≡ accepted
    accepted-refusal c r = ground (arith, r)

-- An envelope that `VerifyAndConsumeSignedEnvelope` has accepted is refused before its expiry
-- afterwards, and with it every envelope of its audience, role and nonce, whatever the store is
-- asked in between at clocks before that expiry.
pub verify_and_consume-once :
    (crypto : Crypto) (s : Store) (e again : Envelope) (public_key : Str) (now later : ℕ)
    (requests : List Request)
    → (verify_and_consume crypto consume (some s) (some e) public_key now).1 ≡ none
    → All (λ q. q.now < e.expires_at) requests
    → scope_of again ≡ scope_of e
    → later < e.expires_at
    → (verify_and_consume crypto consume
        (some (run (step s (request_of crypto e now)).0 requests))
        (some again)
        public_key
        later).1
      ≢ none
verify_and_consume-once crypto s e again public_key now later requests h early same before twice =
    consume-once s (request_of crypto e now) requests (request_of crypto again later)
      (verified-accepted crypto s e public_key now h).0 early same before
      (verified-accepted crypto (run (step s (request_of crypto e now)).0 requests) again public_key
        later twice).0
