-- ===== src/Envelope/RoundTrip.antt =====
-- What `BuildSignedEnvelope` makes and what `VerifySignedEnvelope` takes
-- (internal/syncer/envelope_client.go).
use skret.Base.{
  ℕ, ◌+◌, ◌≤◌, ◌<◌, ◌≡◌, refl, arith, Bool, true, false, List, [], ◌∷◌, Option, none, some, Str,
  length, str_eq_iff, inl, inr, Option-cases, All,
}
use skret.Envelope.{
  field_checks, envelope_checks, signature_checks, request_checks, Envelope, EnvelopeError, Crypto,
  max_envelope_ttl, validate_fields, validate_expiry, validate_envelope, verify_signature,
  verify_signed_envelope, built, check_request, unsigned, sign_envelope, build_signed_envelope,
  canonical, first_failure, refuse_if,
}

first_failure-All :
    (checks : List (Option EnvelopeError))
    → first_failure checks ≡ none
    → All (λ o. o ≡ none) checks
unfolding first_failure
first_failure-All [] h = tt
first_failure-All (none ∷ checks) h = (refl, first_failure-All checks h)
first_failure-All (some e ∷ checks) h = cc

refuse_if-none : (b : Bool) (e : EnvelopeError) → refuse_if b e ≡ none → b ≡ false
refuse_if-none true e h = cc
refuse_if-none false e h = refl

validate_fields-unsigned :
    (crypto : Crypto) (e : Envelope) (s : Str)
    → validate_fields crypto (record e { signature = s }) ≡ validate_fields crypto e
unfolding validate_fields
validate_fields-unsigned crypto e s = refl

validate_expiry-later :
    (expires_at now later : ℕ)
    → validate_expiry expires_at now ≡ none
    → later < expires_at
    → expires_at ≤ later + max_envelope_ttl
    → validate_expiry expires_at later ≡ none
unfolding validate_expiry
validate_expiry-later expires_at now later h a b = ground (arith, h, a, b)

check_request-expiry :
    (crypto : Crypto) (manifest_digest role audience nonce : Str) (expires_at : ℕ)
    (body signer : Str) (now : ℕ)
    → check_request crypto manifest_digest role audience nonce expires_at body signer now ≡ none
    → (length signer ≡ 64) × (validate_expiry expires_at now ≡ none)
unfolding check_request
check_request-expiry crypto manifest_digest role audience nonce expires_at body signer now h =
    let (_, (_, (_, (_, (_, (_, (signed, (expiry, _)))))))) =
      first_failure-All
        (request_checks crypto manifest_digest role audience nonce expires_at body signer now) h in
    (ground (arith, refuse_if-none _ _ signed), expiry)

-- Let Ed25519 signatures have 64 bytes and verify under the public key of their signer. What
-- `BuildSignedEnvelope` returns is accepted by `VerifySignedEnvelope` at every time before the
-- expiry from which the expiry is no further than the longest lifetime.
pub verify-build :
    (crypto : Crypto) (manifest_digest role audience nonce : Str) (expires_at : ℕ)
    (body signer : Str) (now : ℕ) (e : Envelope) (public_key : Str) (later : ℕ)
    → ((m : Str) → length (crypto.sign signer m) ≡ 64)
    → ((m : Str) → crypto.verify public_key m (crypto.sign signer m) ≡ true)
    → length public_key ≡ 32
    → build_signed_envelope crypto manifest_digest role audience nonce expires_at body signer now
      ≡ built e
    → later < expires_at
    → expires_at ≤ later + max_envelope_ttl
    → verify_signed_envelope crypto (some e) public_key later ≡ none
unfolding build_signed_envelope sign_envelope verify_signed_envelope validate_envelope
    verify_signature first_failure
verify-build crypto manifest_digest role audience nonce expires_at body signer now e public_key
      later size valid key h a b =
    let u = unsigned crypto manifest_digest role audience nonce expires_at body in
    elim (Option-cases
      (check_request crypto manifest_digest role audience nonce expires_at body signer now)) [
        | inr (f, q) ↦ absurd (ground (arith, h, q))
        | inl q ↦ elim (Option-cases (validate_fields crypto u)) [
          | inr (f, p) ↦ absurd (ground (arith, h, q, p))
          | inl p ↦
              let r : record u { signature = crypto.sign signer (canonical crypto u) } ≡ e =
                ground (arith, h, q, p) in
              rw (← r) (
                rw
                  (
                    validate_fields-unsigned crypto u (crypto.sign signer (canonical crypto u)),
                    p,
                    validate_expiry-later expires_at now later
                        (check_request-expiry crypto manifest_digest role audience nonce expires_at
                          body signer now q).1
                        a b,
                    size (canonical crypto u),
                    key,
                    valid (canonical crypto u),
                  )
                  refl)
        ]
      ]

-- An envelope that `VerifySignedEnvelope` accepts has a signature of its canonical text under the
-- key, a body that its digest fits, and an expiry after `now` and within the longest lifetime.
pub verify-binds :
    (crypto : Crypto) (e : Envelope) (public_key : Str) (now : ℕ)
    → verify_signed_envelope crypto (some e) public_key now ≡ none
    → (crypto.verify public_key (canonical crypto e) e.signature ≡ true)
      × (crypto.digest_bytes e.body ≡ e.body_digest)
      × (now < e.expires_at)
      × (e.expires_at ≤ now + max_envelope_ttl)
unfolding verify_signed_envelope validate_envelope verify_signature validate_fields validate_expiry
verify-binds crypto e public_key now h =
    let (accepted, (signed, _)) =
      first_failure-All (validate_envelope crypto e now ∷ verify_signature crypto e public_key ∷ [])
        h in
    let (fields, (expiry, _)) = first_failure-All (envelope_checks crypto e now) accepted in
    let (_, (_, (_, (_, (_, (_, (_, (_, (_, (digest, _)))))))))) =
      first_failure-All (field_checks crypto e) fields in
    let (_, (_, (signature, _))) =
      first_failure-All (signature_checks crypto e public_key) signed in
    (
      ground (arith, refuse_if-none _ _ signature),
      (str_eq_iff (crypto.digest_bytes e.body) e.body_digest).0
          (ground (arith, refuse_if-none _ _ digest)),
      ground (arith, expiry),
      ground (arith, expiry),
    )
