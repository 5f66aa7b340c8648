-- ===== src/Launch/Trust.antt =====
-- The trust policy and the signature of a launch manifest, internal/secretlaunch/manifest.go.
use skret.Base.{
  Bool, true, false, not, ◌&&◌, ◌||◌, List, [], ◌∷◌, Option, none, some, Str, Map, ◌==◌,
  if◌then◌else◌, is_empty, length, lookup, ℤ,
}
use skret.Launch.Data.{ManifestKey, ServiceAuthority, Manifest}
use skret.Launch.Fields.{
  LaunchError, fail, fail_key, err_trust, err_signature, err_key, error_if, first_error,
}
use skret.Launch.Authority.{validate_at}

-- The functions of Go's crypto and encoding packages that the source calls.
pub record Crypto : Type 0 where
  -- `json.Marshal` of a manifest, which has no value that it refuses (`canonicalBytesUnchecked`)
  pub canonical : Manifest → Str
  -- `sha256.Sum256`
  pub sha256 : Str → Str
  -- `ed25519.Sign`, `ed25519.Verify` and the public key of a private one
  pub sign : Str → Str → Str
  pub verify : Str → Str → Str → Bool
  pub public_of : Str → Str

-- `TrustPolicy`
pub record TrustPolicy : Type 0 where
  pub signing_keys : Map Str
  pub versions : Map Bool
  pub runtime_ids : Map Bool
  pub roles : Map Bool
  pub key_versions : Map (Map Bool)

abbrev true_or_missing : Option Bool → Bool
true_or_missing none = false
true_or_missing (some b) = b

-- `m[k]` of a map of Booleans
unfoldable pub allows : Map Bool → Str → Bool
unfolding lookup
allows m k = true_or_missing (lookup k m)

unfoldable pub keys_valid : Map Str → Bool
keys_valid [] = true
keys_valid ((id, key) ∷ m) = not (is_empty id || not (length key == 32)) && keys_valid m

-- `ValidateTrustPolicy`
unfoldable pub validate_trust_policy : TrustPolicy → Option LaunchError
unfolding keys_valid first_error
validate_trust_policy p = first_error (
    error_if
      ((length p.signing_keys == 0)
        || (length p.versions == 0)
        || (length p.runtime_ids == 0)
        || (length p.roles == 0)
        || (length p.key_versions == 0))
      (fail err_trust)
    ∷ error_if (not (keys_valid p.signing_keys)) (fail err_trust)
    ∷ [])

abbrev pub pinned : Option (Map Bool) → Str → Bool
pinned none version = false
pinned (some versions) version = allows versions version

-- The inner loop over `service.Keys`
unfoldable pub check_versions : TrustPolicy → List ManifestKey → Option LaunchError
unfolding lookup
check_versions p [] = none
check_versions p (k ∷ ks) =
    if not (pinned (lookup k.name p.key_versions) k.version)
    then some (fail_key err_key k.name)
    else check_versions p ks

-- The loop over `manifest.Services`
unfoldable pub check_services : TrustPolicy → List ServiceAuthority → Option LaunchError
unfolding first_error
check_services p [] = none
check_services p (s ∷ ss) = first_error (check_versions p s.keys ∷ check_services p ss ∷ [])

module _ (crypto : Crypto) where
  abbrev pub signature_valid : Option Str → Manifest → Str → Bool
  signature_valid none m signature = false
  signature_valid (some key) m signature =
      (length key == 32) && crypto.verify key (crypto.canonical m) signature

  abbrev pub trust_checks : Manifest → Str → Str → TrustPolicy → List (Option LaunchError)
  trust_checks m signature key_id p =
      validate_trust_policy p
      ∷ error_if (not (signature_valid (lookup key_id p.signing_keys) m signature))
          (fail err_signature)
      ∷ error_if
          (not (allows p.versions m.version)
            || not (allows p.runtime_ids m.runtime_id)
            || not (allows p.roles m.role))
          (fail err_trust)
      ∷ check_services p m.services
      ∷ []

  -- `verifyManifestTrust`
  unfoldable pub verify_manifest_trust : Manifest → Str → Str → TrustPolicy → Option LaunchError
  unfolding first_error
  verify_manifest_trust m signature key_id p = first_error (trust_checks m signature key_id p)

  -- `VerifyManifest` at a Unix time
  unfoldable pub verify_manifest : Manifest → Str → Str → TrustPolicy → ℤ → Option LaunchError
  unfolding verify_manifest_trust first_error
  verify_manifest m signature key_id p now =
      first_error (validate_at m now ∷ verify_manifest_trust m signature key_id p ∷ [])
