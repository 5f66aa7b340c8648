-- ===== src/Envelope/Replay.antt =====
-- internal/syncer/envelope_replay.go: the store in which a nonce is consumed once.
use skret.Base.{
  ℕ, suc, Bool, true, false, not, ◌&&◌, List, [], ◌∷◌, Option, none, some, Str, ℤ, pos, codes, leb,
  ◌==◌, if◌then◌else◌, str_eq, length,
}
use skret.Envelope.{
  Envelope, EnvelopeError, Crypto, validate_required, valid_digest, verify_signed_envelope,
  validate_fields, canonical,
}

-- `EnvelopeReplayScope`
pub record Scope : Type 0 where
  pub audience : Str
  pub role : Str
  pub nonce : Str

-- `envelopeReplayEntry`
pub record Entry : Type 0 where
  pub digest : Str
  pub expires_at : ℕ

-- `InMemoryEnvelopeReplayStore`
pub record Store : Type 0 where
  pub entries : List (Scope × Entry)
  pub capacity : ℤ

-- What `Consume` returns: `true`, `false`, or an error.
pub data Consumed : Type 0 where
  accepted replayed full unavailable invalid_request expired_request : Consumed

-- `defaultEnvelopeReplayStoreCapacity`
abbrev pub default_capacity : ℕ
default_capacity = 1024

abbrev pub scope_eq : Scope → Scope → Bool
scope_eq a b = str_eq a.audience b.audience && str_eq a.role b.role && str_eq a.nonce b.nonce

abbrev pub is_none : Option EnvelopeError → Bool
is_none none = true
is_none (some e) = false

-- `NewInMemoryEnvelopeReplayStore`
unfoldable pub new_store : List ℤ → Store
new_store [] = record { entries = []; capacity = pos default_capacity }
new_store (pos (suc n) ∷ _) = record { entries = []; capacity = pos (suc n) }
new_store (_ ∷ _) = record { entries = []; capacity = pos default_capacity }

-- The capacity after `ensureInitializedLocked`.
unfoldable pub capacity_of : ℤ → ℕ
capacity_of (pos (suc n)) = suc n
capacity_of _ = default_capacity

-- `cleanupExpiredLocked`
unfoldable pub cleanup : ℕ → List (Scope × Entry) → List (Scope × Entry)
cleanup now [] = []
cleanup now ((s, e) ∷ entries) =
    let rest = cleanup now entries in if leb e.expires_at now then rest else (s, e) ∷ rest

unfoldable pub find : Scope → List (Scope × Entry) → Option Entry
find scope [] = none
find scope ((s, e) ∷ entries) = if scope_eq s scope then some e else find scope entries

-- `validateEnvelopeReplayScope`
unfoldable pub valid_scope : Scope → Bool
unfolding validate_required
valid_scope s =
    is_none (validate_required s.audience (codes "audience"))
    && is_none (validate_required s.role (codes "role"))
    && is_none (validate_required s.nonce (codes "nonce"))

-- `Consume` behind its checks, on the entries that are left after the clean-up.
unfoldable pub admit : ℕ → Scope → Entry → List (Scope × Entry) → Store × Consumed
unfolding find
admit capacity scope entry entries = elim (find scope entries) [
  | some e ↦ (record { entries = entries; capacity = pos capacity }, replayed)
  | none ↦
      if leb capacity (length entries)
      then (record { entries = entries; capacity = pos capacity }, full)
      else (record { entries = (scope, entry) ∷ entries; capacity = pos capacity }, accepted)
]

-- `Consume` on a store that is not nil.
unfoldable pub consume : Store → Scope → Str → ℕ → ℕ → Store × Consumed
unfolding valid_scope valid_digest admit cleanup capacity_of
consume s scope digest expires_at now =
    if not (valid_scope scope)
    then (s, invalid_request)
    else if not (valid_digest digest)
    then (s, invalid_request)
    else if expires_at == 0
    then (s, expired_request)
    else if leb expires_at now
    then (s, expired_request)
    else admit (capacity_of s.capacity) scope (record { digest = digest; expires_at = expires_at })
        (cleanup now s.entries)

-- The errors of `VerifyAndConsumeSignedEnvelope`.
pub data Refusal : Type 0 where
  unverified : EnvelopeError → Refusal
  store_unavailable canonical_failed store_full replay_detected : Refusal

abbrev pub scope_of : Envelope → Scope
scope_of e = record { audience = e.audience; role = e.role; nonce = e.nonce }

abbrev pub refusal : Consumed → Option Refusal
refusal accepted = none
refusal replayed = some replay_detected
refusal full = some store_full
refusal _ = some store_unavailable

-- `VerifyAndConsumeSignedEnvelope`, with any store by its `Consume` and with `none` for a nil one.
module _ {S : Type 0} (crypto : Crypto)
    (store_consume : S → Scope → Str → ℕ → ℕ → S × Consumed) where
  unfoldable pub consume_verified : S → Envelope → ℕ → S × Option Refusal
  unfolding validate_fields
  consume_verified store e now = elim (validate_fields crypto e) [
    | some failure ↦ (store, some canonical_failed)
    | none ↦
        let r =
          store_consume store (scope_of e) (crypto.digest_bytes (canonical crypto e)) e.expires_at
            now in
        (r.0, refusal r.1)
  ]

  unfoldable pub verify_and_consume :
      Option S → Option Envelope → Str → ℕ → Option S × Option Refusal
  unfolding consume_verified verify_signed_envelope
  verify_and_consume store none public_key now =
      (store, some (unverified EnvelopeError.missing_envelope))
  verify_and_consume store (some e) public_key now =
      elim (verify_signed_envelope crypto (some e) public_key now) [
        | some failure ↦ (store, some (unverified failure))
        | none ↦ elim store [
          | none ↦ (none, some store_unavailable)
          | some s ↦ let r = consume_verified s e now in (some r.0, r.1)
        ]
      ]
