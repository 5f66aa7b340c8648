-- ===== src/Launch/Renewal.antt =====
-- internal/secretlaunch/renew.go, and the reload of the manifest in supervisor.go. A time is its
-- Unix seconds and the nanoseconds within the second; a duration is nanoseconds.
pub mod Keeps
pub mod Extends
use skret.Base.{
  ℕ, ◌+◌, ◌-◌, ◌*◌, ◌/◌, ◌≡◌, Bool, true, false, not, ◌&&◌, ◌||◌, List, [], ◌∷◌, Option, none, some,
  Str, ◌==◌, ltb, if◌then◌else◌, is_empty, str_eq, length, lookup, ℤ, pos, negsuc,
}
use skret.Launch.Data.{Manifest}
use skret.Launch.Fields.{
  LaunchError, fail, err_ttl, err_binding, err_replay, err_invalid_input, err_signature,
  err_not_yet_valid, err_expired, error_if, first_error,
}
use skret.Launch.Authority.{validate, validate_at, ltz}
use skret.Launch.Json.{Json}
use skret.Launch.Trust.{Crypto, TrustPolicy, verify_manifest_trust}
use skret.Launch.Signed.{
  SignedManifest, Codec, Reply, returned, failed, unless, and_then, parse_signed_manifest,
  with_signature, sign_manifest,
}

-- A `time.Time`.
pub record Time : Type 0 where
  pub seconds : ℤ
  pub nanos : ℕ

-- The manifest without its window, of which `AuthorityBytes` is the text.
abbrev pub windowless : Manifest → Manifest
windowless m = record m { issued_at = pos 0; expires_at = pos 0 }

-- `AuthorityBytes`
abbrev pub authority_bytes : Crypto → Manifest → Str
authority_bytes crypto m = crypto.canonical (windowless m)

-- `AuthorityDigest`
unfoldable pub authority_digest : Crypto → Manifest → Reply Str
authority_digest crypto m =
    unless (validate m) (returned (crypto.sha256 (authority_bytes crypto m)))

-- `i + n` on `int64`
abbrev pub addz : ℤ → ℕ → ℤ
addz (pos i) n = pos (i + n)
addz (negsuc i) n = if ltb i n then pos (n - (i + 1)) else negsuc (i - n)

-- `ttl < time.Second || ttl > MaxManifestTTL`
abbrev pub ttl_refused : ℤ → Bool
ttl_refused (pos ttl) = ltb ttl 1000000000 || ltb 900000000000 ttl
ttl_refused (negsuc _) = true

-- The whole seconds of `now.Add(ttl)` for a ttl that is not negative.
abbrev pub unix_after : Time → ℤ → ℤ
unix_after now (pos ttl) = addz now.seconds ((now.nanos + ttl) / 1000000000)
unix_after now (negsuc _) = now.seconds

abbrev pub with_window : Manifest → Time → ℤ → Manifest
with_window m now ttl = record m { issued_at = now.seconds; expires_at = unix_after now ttl }

-- `RenewManifest`
unfoldable pub renew_manifest : Manifest → Time → ℤ → Reply Manifest
renew_manifest base now ttl = unless (validate base) (
    if ttl_refused ttl
    then failed (fail err_ttl)
    else unless (validate (with_window base now ttl)) (returned (with_window base now ttl)))

abbrev error_of {ℓ} : {A : Type ℓ} → Reply A → Option LaunchError
error_of (returned _) = none
error_of (failed e) = some e

-- `got != want`, of digests that were both computed
abbrev differ : Reply Str → Reply Str → Bool
differ (returned a) (returned b) = not (str_eq a b)
differ _ _ = false

module _ (crypto : Crypto) where
  abbrev pub renewal_checks : Manifest → Manifest → ℤ → List (Option LaunchError)
  renewal_checks current candidate now =
      validate_at candidate now
      ∷ error_of (authority_digest crypto current)
      ∷ error_of (authority_digest crypto candidate)
      ∷ error_if (differ (authority_digest crypto candidate) (authority_digest crypto current))
          (fail err_binding)
      ∷ error_if (ltz candidate.expires_at current.expires_at) (fail err_replay)
      ∷ []

  -- `AcceptRenewal` at a Unix time
  unfoldable pub accept_renewal : Manifest → Manifest → ℤ → Option LaunchError
  unfolding first_error authority_digest
  accept_renewal current candidate now = first_error (renewal_checks current candidate now)

  abbrev pub adopt : Option LaunchError → Manifest → Manifest → Manifest
  adopt none current candidate = candidate
  adopt (some e) current candidate = current

  -- `refreshManifest`, given what `Reload` returns; `OnReloadError` only reports.
  unfoldable pub refresh_manifest : Manifest → Reply Manifest → ℤ → Manifest
  unfolding accept_renewal
  refresh_manifest current (returned candidate) now =
      adopt (accept_renewal current candidate now) current candidate
  refresh_manifest current (failed e) now = current

  -- The reloads of `Run`, each with its time.
  unfoldable pub refresh_all : Manifest → List (Reply Manifest × ℤ) → Manifest
  unfolding refresh_manifest
  refresh_all current [] = current
  refresh_all current ((reply, now) ∷ later) =
      refresh_all (refresh_manifest current reply now) later

-- `now.Sub(issued) > maxAge` for an issue after the epoch and not after now. Beyond 292 years the
-- source's difference stays at its largest value, which is above every allowed age too.
abbrev pub too_old : Time → ℤ → ℤ → Bool
too_old now (pos issued) (pos max_age) = elim now.seconds [
  | pos s ↦ ltb max_age ((s - issued) * 1000000000 + now.nanos)
  | negsuc _ ↦ false
]
too_old now _ _ = false

-- `maxAge <= 0 || maxAge > MaxRenewalAge`
abbrev pub age_refused : ℤ → Bool
age_refused (pos age) = (age == 0) || ltb 604800000000000 age
age_refused (negsuc _) = true

abbrev same_key : Option Str → Str → Bool
same_key none public = is_empty public
same_key (some key) public = str_eq public key

module _ (crypto : Crypto) (codec : Codec) (json : Json) where
  abbrev pub template_checks :
      SignedManifest → Str → Str → TrustPolicy → Time → ℤ → List (Option LaunchError)
  template_checks s raw private p now max_age =
      verify_manifest_trust crypto s.manifest raw s.key_id p
      ∷ error_if (not (same_key (lookup s.key_id p.signing_keys) (crypto.public_of private)))
          (fail err_signature)
      ∷ error_if (ltz now.seconds s.manifest.issued_at) (fail err_not_yet_valid)
      ∷ error_if (too_old now s.manifest.issued_at max_age) (fail err_expired)
      ∷ []

  -- `RenewSignedManifest`
  unfoldable pub renew_signed_manifest : Str → TrustPolicy → Str → Time → ℤ → ℤ → Reply Str
  unfolding parse_signed_manifest first_error renew_manifest sign_manifest
  renew_signed_manifest template p private now ttl max_age =
      if age_refused max_age || not (length private == 64)
      then failed (fail err_invalid_input)
      else and_then (parse_signed_manifest crypto codec json template) λ s.
        with_signature crypto codec json s λ raw.
          unless (first_error (template_checks s raw private p now max_age)) (
            and_then (renew_manifest s.manifest now ttl)
              λ m. sign_manifest crypto codec json m s.key_id private now.seconds)
