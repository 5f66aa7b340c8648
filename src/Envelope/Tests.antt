-- ===== src/Envelope/Tests.antt =====
-- Envelopes and the replay store at concrete values, under a toy signature.
use skret.Base.{
  ◌+◌, ◌≤◌, ◌<◌, ◌≡◌, ◌≢◌, refl, arith, Bool, true, ◌++◌, [], ◌∷◌, none, some, Str, codes, pos,
  length, str_eq, all_bytes, has_prefix, trim_prefix, trim_space, All,
}
use skret.Envelope.{
  Envelope, expired, Crypto, max_envelope_ttl, canonical, build_signed_envelope, sign_envelope,
  check_request, first_failure, validate_fields, validate_expiry, validate_envelope,
  verify_signature, verify_signed_envelope, validate_required, valid_digest, built, unsigned,
}
use skret.Envelope.Replay.{
  Store, accepted, replayed, full, new_store, capacity_of, cleanup, find, valid_scope, admit,
  consume, scope_of, consume_verified, verify_and_consume,
}
use skret.Envelope.RoundTrip.{verify-build, verify-binds}
use skret.Envelope.SingleUse.{
  Request, step, run, IsBounded, request_of, consume-once, run-IsBounded, consume-full,
  verify_and_consume-once,
}

abbrev digits : Str
digits = codes "aaaaaaaaaaaaaaaaaaaaaaaaaaaaaaaaaaaaaaaaaaaaaaaaaaaaaaaaaaaaaaaa"

abbrev digest : Str
digest = codes "sha256:" ++ digits

-- The text shows its fields, and the signature is the key itself.
abbrev toy : Crypto
toy = record {
  digest_bytes = λ b. digest;
  encode = λ e. e.audience ++ e.role ++ e.nonce ++ e.body;
  sign = λ signer m. digits;
  verify = λ public_key m s. str_eq s digits;
}

abbrev public_key : Str
public_key = codes "bbbbbbbbbbbbbbbbbbbbbbbbbbbbbbbb"

-- All that these runs call.
executes : Bool
unfolding build_signed_envelope sign_envelope check_request first_failure validate_fields
    validate_expiry validate_envelope verify_signature verify_signed_envelope validate_required
    valid_digest all_bytes has_prefix trim_prefix trim_space str_eq new_store capacity_of cleanup
    find valid_scope admit consume consume_verified verify_and_consume
executes = true

abbrev sealed : Envelope
sealed =
    record (unsigned toy digest (codes "deploy") (codes "hub") (codes "n-1") 2000 (codes "{}")) {
      signature = digits;
    }

build-sealed :
    build_signed_envelope toy digest
      (codes "deploy")
      (codes "hub")
      (codes "n-1")
      2000
      (codes "{}")
      digits
      1000
    ≡ built sealed
unfolding executes
build-sealed = refl

toy-size : (m : Str) → length (toy.sign digits m) ≡ 64
toy-size m = refl

toy-valid : (m : Str) → toy.verify public_key m (toy.sign digits m) ≡ true
unfolding executes
toy-valid m = refl

verify-build_example : verify_signed_envelope toy (some sealed) public_key 1500 ≡ none
verify-build_example =
    verify-build toy digest (codes "deploy") (codes "hub") (codes "n-1") 2000 (codes "{}") digits
      1000 sealed public_key 1500 toy-size toy-valid refl build-sealed (omega arith) (omega arith)

verify-expired : verify_signed_envelope toy (some sealed) public_key 2000 ≡ some expired
unfolding executes
verify-expired = refl

verify-binds_example :
    (toy.verify public_key (canonical toy sealed) sealed.signature ≡ true)
    × (toy.digest_bytes sealed.body ≡ sealed.body_digest)
    × (1500 < sealed.expires_at)
    × (sealed.expires_at ≤ 1500 + max_envelope_ttl)
verify-binds_example = verify-binds toy sealed public_key 1500 verify-build_example

abbrev small_store : Store
small_store = new_store (pos 1 ∷ [])

abbrev first_request : Request
first_request = record { scope = scope_of sealed; digest = digest; expires_at = 2000; now = 1000 }

abbrev other_request : Request
other_request = record {
  scope = record { audience = codes "hub"; role = codes "deploy"; nonce = codes "n-2" };
  digest = digest;
  expires_at = 3000;
  now = 1800;
}

abbrev again_request : Request
again_request = record first_request { now = 1900 }

step-accepted : (step small_store first_request).1 ≡ accepted
unfolding executes
step-accepted = refl

step-replayed : (step (run small_store (first_request ∷ [])) again_request).1 ≡ replayed
unfolding executes
step-replayed = refl

consume-once_example :
    (step (run (step small_store first_request).0 (other_request ∷ [])) again_request).1 ≢ accepted
consume-once_example =
    consume-once small_store first_request (other_request ∷ []) again_request step-accepted
      (omega arith, tt) refl (omega arith)

small_store-IsBounded : IsBounded small_store
unfolding executes
small_store-IsBounded = omega arith

run-IsBounded_example : IsBounded (run small_store (first_request ∷ other_request ∷ []))
run-IsBounded_example =
    run-IsBounded (first_request ∷ other_request ∷ []) small_store small_store-IsBounded

abbrev filled_store : Store
filled_store = run small_store (first_request ∷ [])

step-full : (step filled_store other_request).1 ≡ full
unfolding executes
step-full = refl

consume-full_example :
    (capacity_of filled_store.capacity ≤ length (step filled_store other_request).0.entries)
    × All (λ e. 1800 < e.1.expires_at) (step filled_store other_request).0.entries
consume-full_example = consume-full filled_store other_request step-full

sealed-consumed :
    (verify_and_consume toy consume (some small_store) (some sealed) public_key 1000).1 ≡ none
unfolding executes
sealed-consumed = refl

verify_and_consume-once_example :
    (verify_and_consume toy consume
      (some (run (step small_store (request_of toy sealed 1000)).0 (other_request ∷ [])))
      (some sealed)
      public_key
      1900).1
    ≢ none
verify_and_consume-once_example =
    verify_and_consume-once toy small_store sealed sealed public_key 1000 1900 (other_request ∷ [])
      sealed-consumed (omega arith, tt) refl (omega arith)
