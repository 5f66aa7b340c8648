-- ===== src/Launch/Verified.antt =====
-- What a manifest that `VerifySignedManifest` returns has passed, and that a signed one passes.
use skret.Base.{
  ◌≡◌, refl, arith, Bool, true, false, not, ◌||◌, List, [], ◌∷◌, Option, none, some, Str,
  if◌then◌else◌, length, ℤ, All, ◌↔◌, lookup,
}
use skret.Launch.Data.{ManifestKey, ServiceAuthority, Manifest}
use skret.Launch.Fields.{LaunchError, fail, err_signature, error_if, err_not_yet_valid, err_expired}
use skret.Launch.Authority.{validate, validate_at, ltz}
use skret.Launch.Ascending.{first_error-All, error_if-none}
use skret.Launch.Trust.{
  Crypto, TrustPolicy, allows, pinned, check_versions, check_services, validate_trust_policy,
  signature_valid, trust_checks, verify_manifest_trust, verify_manifest,
}
use skret.Launch.Signed.{Reply, returned, failed, unless, or_fail, and_then}

module _ {A : Type 0} where
  pub unless-returned :
      (o : Option LaunchError) (r : Reply A) (a : A)
      → unless o r ≡ returned a
      → (o ≡ none) × (r ≡ returned a)
  unless-returned none r a h = (refl, h)
  unless-returned (some e) r a h = cc

  pub or_fail-returned :
      {B : Type 0} (o : Option A) (e : LaunchError) (f : A → Reply B) (b : B)
      → or_fail o e f ≡ returned b
      → (a : A) × (o ≡ some a) × (f a ≡ returned b)
  or_fail-returned none e f b h = cc
  or_fail-returned (some a) e f b h = (a, refl, h)

  pub and_then-returned :
      {B : Type 0} (r : Reply A) (f : A → Reply B) (b : B)
      → and_then r f ≡ returned b
      → (a : A) × (r ≡ returned a) × (f a ≡ returned b)
  and_then-returned (returned a) f b h = (a, refl, h)
  and_then-returned (failed e) f b h = cc

  pub if_failed-returned :
      (t : Bool) (e : LaunchError) (r : Reply A) (a : A)
      → (if t then failed e else r) ≡ returned a
      → (t ≡ false) × (r ≡ returned a)
  if_failed-returned true e r a h = cc
  if_failed-returned false e r a h = (refl, h)

-- Every key of the service is pinned to a version that the policy allows.
abbrev pub IsPinned : TrustPolicy → ServiceAuthority → Type 0
IsPinned p s = All (λ k. pinned (lookup k.name p.key_versions) k.version ≡ true) s.keys

check_versions-All :
    (p : TrustPolicy) (ks : List ManifestKey)
    → (check_versions p ks ≡ none)
      ↔ All (λ k. pinned (lookup k.name p.key_versions) k.version ≡ true) ks
unfolding check_versions
check_versions-All p [] = (λ _. tt, λ _. refl)
check_versions-All p (k ∷ ks) = ground (arith, check_versions-All p ks)

check_services-All :
    (p : TrustPolicy) (ss : List ServiceAuthority)
    → (check_services p ss ≡ none) ↔ All (IsPinned p) ss
unfolding check_services
check_services-All p [] = (λ _. tt, λ _. refl)
check_services-All p (s ∷ ss) = ground (
  arith,
  first_error-All (check_versions p s.keys ∷ check_services p ss ∷ []),
  check_versions-All p s.keys,
  check_services-All p ss,
)

-- A time within the window of the manifest.
abbrev pub IsLive : Manifest → ℤ → Type 0
IsLive m now = (ltz now m.issued_at ≡ false) × (ltz now m.expires_at ≡ true)

pub validate_at-IsLive :
    (m : Manifest) (now : ℤ) → (validate_at m now ≡ none) ↔ ((validate m ≡ none) × IsLive m now)
unfolding validate_at
validate_at-IsLive m now = ground (
  arith,
  first_error-All (
      validate m
      ∷ error_if (ltz now m.issued_at) (fail err_not_yet_valid)
      ∷ error_if (not (ltz now m.expires_at)) (fail err_expired)
      ∷ []),
)

-- A policy trusts the manifest and the signature of the key.
pub record IsTrusted (c : Crypto) (m : Manifest) (raw id : Str) (p : TrustPolicy) : Type 0 where
  pub policy : validate_trust_policy p ≡ none
  pub key : Str
  pub listed : lookup id p.signing_keys ≡ some key
  pub key_size : length key ≡ 32
  pub signed : c.verify key (c.canonical m) raw ≡ true
  pub version : allows p.versions m.version ≡ true
  pub runtime : allows p.runtime_ids m.runtime_id ≡ true
  pub role : allows p.roles m.role ≡ true
  pub pinned : All (IsPinned p) m.services

allowed_iff :
    (p : TrustPolicy) (m : Manifest)
    → ((not (allows p.versions m.version)
          || not (allows p.runtime_ids m.runtime_id)
          || not (allows p.roles m.role))
        ≡ false)
      ↔ ((allows p.versions m.version ≡ true)
          × ((allows p.runtime_ids m.runtime_id ≡ true) × (allows p.roles m.role ≡ true)))
allowed_iff p m = ground arith

module _ (c : Crypto) (m : Manifest) (raw id : Str) (p : TrustPolicy) where
  signature_valid-key :
      (o : Option Str)
      → (error_if (not (signature_valid c o m raw)) (fail err_signature) ≡ none) ↔ (
          (key : Str) × (o ≡ some key)
          × (length key ≡ 32)
          × (c.verify key (c.canonical m) raw ≡ true))
  signature_valid-key none = (λ e. cc, λ (key, e, _, _). cc)
  signature_valid-key (some key) = (
    λ e. (key, refl, ground (arith, e), ground (arith, e)),
    λ (k, e, size, ok). ground (arith, e, size, ok),
  )

  pub verify_manifest_trust-IsTrusted :
      (verify_manifest_trust c m raw id p ≡ none) ↔ IsTrusted c m raw id p
  unfolding verify_manifest_trust
  verify_manifest_trust-IsTrusted = (
    λ e.
        let (policy, (sig, (allowed, (services, _)))) =
          (first_error-All (trust_checks c m raw id p)).0 e in
        let (key, listed, size, ok) = (signature_valid-key (lookup id p.signing_keys)).0 sig in
        let (version, (runtime, role)) = (allowed_iff p m).0 ((error_if-none _ _).0 allowed) in
        record {
          policy = policy;
          key = key;
          listed = listed;
          key_size = size;
          signed = ok;
          version = version;
          runtime = runtime;
          role = role;
          pinned = (check_services-All p m.services).0 services;
        },
    λ t. (first_error-All (trust_checks c m raw id p)).1 (
      t.policy,
      (
        (signature_valid-key (lookup id p.signing_keys)).1 (t.key, t.listed, t.key_size, t.signed),
        (
          (error_if-none _ _).1 ((allowed_iff p m).1 (t.version, (t.runtime, t.role))),
          ((check_services-All p m.services).1 t.pinned, tt),
        ),
      ),
    ),
  )

-- VerifyManifest accepts exactly the valid manifests within their window that come with a
-- well-formed trust policy and a signature of their canonical text by a key of 32 bytes that the
-- policy lists, whose version, runtime and role the policy allows, and of which every key of every
-- service is pinned to an allowed version.
pub verify_manifest-IsTrusted :
    (c : Crypto) (m : Manifest) (raw id : Str) (p : TrustPolicy) (now : ℤ)
    → (verify_manifest c m raw id p now ≡ none)
      ↔ (((validate m ≡ none) × IsLive m now) × IsTrusted c m raw id p)
unfolding verify_manifest
verify_manifest-IsTrusted c m raw id p now = ground (
  arith,
  first_error-All (validate_at m now ∷ verify_manifest_trust c m raw id p ∷ []),
  validate_at-IsLive m now,
  verify_manifest_trust-IsTrusted c m raw id p,
)
