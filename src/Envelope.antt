-- ===== src/Envelope.antt =====
-- internal/syncer/envelope_client.go: the signed request to an executor. Times are nanoseconds from
-- Go's zero time; a Go byte slice is a list of bytes. SHA-256, Ed25519 and the JSON text of the
-- signed fields are parameters, of which `Crypto` says what is relied on.
pub mod Replay
pub mod RoundTrip
pub mod SingleUse
mod Tests
use skret.Base.{
  ℕ, ◌*◌, ◌+◌, ◌-◌, ◌≡◌, Bool, true, false, not, ◌&&◌, ◌||◌, List, [], ◌∷◌, Option, none, some, Str,
  codes, ℤ, pos, ◌==◌, ltb, leb, within, is_digit, if◌then◌else◌, is_empty, all_bytes, has_prefix,
  trim_prefix, str_eq, length, trim_space,
}

-- `ExecutorEnvelope`
pub record Envelope : Type 0 where
  pub version : ℤ
  pub audience : Str
  pub role : Str
  pub manifest_digest : Str
  pub body_digest : Str
  pub nonce : Str
  pub expires_at : ℕ
  pub body : Str
  pub signature : Str

-- One constructor for each text of an error; `field_required` has the name of the field.
pub data EnvelopeError : Type 0 where
  missing_envelope unsupported_version invalid_manifest_digest invalid_body_digest : EnvelopeError
  body_required body_mismatch invalid_expiry expiry_required expired expiry_too_far : EnvelopeError
  invalid_signature invalid_verifier_key invalid_signer : EnvelopeError
  field_required : Str → EnvelopeError

-- The functions of Go's crypto and encoding packages that the source calls.
pub record Crypto : Type 0 where
  -- "sha256:" and the hexadecimal SHA-256 (`digestBytes`)
  pub digest_bytes : Str → Str
  -- the JSON text of an `envelopeSigningDocument`
  pub encode : Envelope → Str
  -- `ed25519.Sign` and `ed25519.Verify`
  pub sign : Str → Str → Str
  pub verify : Str → Str → Str → Bool

-- `MaxEnvelopeTTL`, 15 minutes
abbrev pub max_envelope_ttl : ℕ
max_envelope_ttl = 900000000000

-- `MarshalJSON` of a time refuses years beyond 9999.
abbrev pub time_marshals : ℕ → Bool
time_marshals t = ltb t 315537897600000000000

-- The first check of a sequence that fails.
unfoldable pub first_failure : List (Option EnvelopeError) → Option EnvelopeError
first_failure [] = none
first_failure (some e ∷ checks) = some e
first_failure (none ∷ checks) = first_failure checks

abbrev pub refuse_if : Bool → EnvelopeError → Option EnvelopeError
refuse_if true e = some e
refuse_if false e = none

-- `validateRequiredField`
unfoldable pub validate_required : Str → Str → Option EnvelopeError
unfolding trim_space
validate_required value name = refuse_if (is_empty (trim_space value)) (field_required name)

abbrev pub is_hex : ℕ → Bool
is_hex c = is_digit c || within b'a' b'f' c

-- `validDigest`
unfoldable pub valid_digest : Str → Bool
unfolding has_prefix trim_prefix all_bytes
valid_digest value =
    has_prefix value (codes "sha256:")
    && (length (trim_prefix value (codes "sha256:")) == 64)
    && all_bytes is_hex (trim_prefix value (codes "sha256:"))

-- `validateExpiry`
unfoldable pub validate_expiry : ℕ → ℕ → Option EnvelopeError
validate_expiry expires_at now =
    if expires_at == 0
    then some expiry_required
    else if not (time_marshals expires_at)
    then some invalid_expiry
    else if leb expires_at now
    then some expired
    else if ltb max_envelope_ttl (expires_at - now)
    then some expiry_too_far
    else none

abbrev pub is_version : ℤ → Bool
is_version (pos n) = n == 1
is_version _ = false

module _ (crypto : Crypto) where
  -- The text that is signed: `envelopeSigningDocument` has every field but the signature.
  abbrev pub canonical : Envelope → Str
  canonical e = crypto.encode (record e { signature = [] })

  -- The checks of `validateEnvelopeFields`, in their order.
  abbrev pub field_checks : Envelope → List (Option EnvelopeError)
  field_checks e =
      refuse_if (not (is_version e.version)) unsupported_version
      ∷ validate_required e.audience (codes "audience")
      ∷ validate_required e.role (codes "role")
      ∷ validate_required e.manifest_digest (codes "manifest digest")
      ∷ refuse_if (not (valid_digest e.manifest_digest)) invalid_manifest_digest
      ∷ validate_required e.body_digest (codes "body digest")
      ∷ refuse_if (not (valid_digest e.body_digest)) invalid_body_digest
      ∷ validate_required e.nonce (codes "nonce")
      ∷ refuse_if (is_empty e.body) body_required
      ∷ refuse_if (not (str_eq (crypto.digest_bytes e.body) e.body_digest)) body_mismatch
      ∷ refuse_if (not (time_marshals e.expires_at)) invalid_expiry
      ∷ []

  -- `validateEnvelopeFields`
  unfoldable pub validate_fields : Envelope → Option EnvelopeError
  unfolding first_failure
  validate_fields e = first_failure (field_checks e)

  -- The checks of `validateEnvelope`.
  abbrev pub envelope_checks : Envelope → ℕ → List (Option EnvelopeError)
  envelope_checks e now =
      validate_fields e
      ∷ validate_expiry e.expires_at now
      ∷ refuse_if (not (length e.signature == 64)) invalid_signature
      ∷ []

  -- `validateEnvelope`
  unfoldable pub validate_envelope : Envelope → ℕ → Option EnvelopeError
  unfolding first_failure
  validate_envelope e now = first_failure (envelope_checks e now)

  -- The checks of `VerifySignedEnvelope` behind `validateEnvelope`, the fields a second time in
  -- `CanonicalSigningBytes` among them.
  abbrev pub signature_checks : Envelope → Str → List (Option EnvelopeError)
  signature_checks e public_key =
      refuse_if (not (length public_key == 32)) invalid_verifier_key
      ∷ validate_fields e
      ∷ refuse_if (not (crypto.verify public_key (canonical e) e.signature)) invalid_signature
      ∷ []

  -- What `VerifySignedEnvelope` checks behind `validateEnvelope`, the fields a second time in
  -- `CanonicalSigningBytes` among it.
  unfoldable pub verify_signature : Envelope → Str → Option EnvelopeError
  unfolding first_failure
  verify_signature e public_key = first_failure (signature_checks e public_key)

  -- `VerifySignedEnvelope`; `none` is a nil envelope.
  unfoldable pub verify_signed_envelope : Option Envelope → Str → ℕ → Option EnvelopeError
  unfolding first_failure validate_envelope verify_signature
  verify_signed_envelope none public_key now = some missing_envelope
  verify_signed_envelope (some e) public_key now =
      first_failure (validate_envelope e now ∷ verify_signature e public_key ∷ [])

  pub data Built : Type 0 where
    built : Envelope → Built
    unbuilt : EnvelopeError → Built

  -- What `BuildSignedEnvelope` checks before it makes an envelope, in its order.
  abbrev pub request_checks :
      Str → Str → Str → Str → ℕ → Str → Str → ℕ → List (Option EnvelopeError)
  request_checks manifest_digest role audience nonce expires_at body signer now =
      validate_required manifest_digest (codes "manifest digest")
      ∷ refuse_if (not (valid_digest manifest_digest)) invalid_manifest_digest
      ∷ validate_required role (codes "role")
      ∷ validate_required audience (codes "audience")
      ∷ validate_required nonce (codes "nonce")
      ∷ refuse_if (is_empty body) body_required
      ∷ refuse_if (not (length signer == 64)) invalid_signer
      ∷ validate_expiry expires_at now
      ∷ []

  -- What `BuildSignedEnvelope` refuses before it makes an envelope.
  unfoldable pub check_request : Str → Str → Str → Str → ℕ → Str → Str → ℕ → Option EnvelopeError
  unfolding first_failure
  check_request manifest_digest role audience nonce expires_at body signer now =
      first_failure (request_checks manifest_digest role audience nonce expires_at body signer now)

  abbrev pub unsigned : Str → Str → Str → Str → ℕ → Str → Envelope
  unsigned manifest_digest role audience nonce expires_at body = record {
    version = pos 1;
    audience = audience;
    role = role;
    manifest_digest = manifest_digest;
    body_digest = crypto.digest_bytes body;
    nonce = nonce;
    expires_at = expires_at;
    body = body;
    signature = [];
  }

  -- The signature of an envelope whose fields pass.
  unfoldable pub sign_envelope : Envelope → Str → Built
  unfolding validate_fields
  sign_envelope e signer = elim (validate_fields e) [
    | some failure ↦ unbuilt failure
    | none ↦ built (record e { signature = crypto.sign signer (canonical e) })
  ]

  -- `BuildSignedEnvelope`
  unfoldable pub build_signed_envelope : Str → Str → Str → Str → ℕ → Str → Str → ℕ → Built
  unfolding check_request sign_envelope
  build_signed_envelope manifest_digest role audience nonce expires_at body signer now =
      elim (check_request manifest_digest role audience nonce expires_at body signer now) [
        | some failure ↦ unbuilt failure
        | none ↦ sign_envelope (unsigned manifest_digest role audience nonce expires_at body) signer
      ]
