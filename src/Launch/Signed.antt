-- ===== src/Launch/Signed.antt =====
-- The texts of manifests, signing and verification, internal/secretlaunch/manifest.go. The JSON
-- text of the data and base64 are parameters; the scanner that looks for repeated fields is the
-- model's own.
use skret.Base.{
  not, ◌||◌, Option, none, some, Str, ◌==◌, if◌then◌else◌, is_empty, str_eq, length, ℤ,
}
use skret.Launch.Data.{Manifest}
use skret.Launch.Fields.{
  LaunchError, fail, err_signature, err_canonical, err_unknown_field, err_invalid_input,
}
use skret.Launch.Authority.{validate, validate_at}
use skret.Launch.Json.{Json, Scan, scanned, refused, out_of_fuel, validate_json_object}
use skret.Launch.Trust.{Crypto, TrustPolicy, verify_manifest}

-- `SignedManifest`
pub record SignedManifest : Type 0 where
  pub manifest : Manifest
  pub key_id : Str
  pub signature : Str

-- The functions of Go's json and base64 packages that the source calls. The decoders refuse unknown
-- fields.
pub record Codec : Type 0 where
  pub decode_manifest : Str → Option Manifest
  pub encode_signed : SignedManifest → Str
  pub decode_signed : Str → Option SignedManifest
  pub to_base64 : Str → Str
  pub from_base64 : Str → Option Str

-- What a routine of the package returns: a value, or an error.
pub data Reply {ℓ} (A : Type ℓ) : Type ℓ where
  returned : A → Reply A
  failed : LaunchError → Reply A

-- `if err != nil { return err }`
abbrev pub unless {ℓ} : {A : Type ℓ} → Option LaunchError → Reply A → Reply A
unless none r = r
unless (some e) r = failed e

abbrev pub or_fail {ℓ κ} :
    {A : Type ℓ} {B : Type κ} → Option A → LaunchError → (A → Reply B) → Reply B
or_fail none e f = failed e
or_fail (some a) e f = f a

abbrev pub and_then {ℓ κ} : {A : Type ℓ} {B : Type κ} → Reply A → (A → Reply B) → Reply B
and_then (returned a) f = f a
and_then (failed e) f = failed e

-- The error of the scanner, which never runs out of fuel (`Json.Ends`).
abbrev pub scan_error : Scan → Option LaunchError
scan_error (scanned _) = none
scan_error (refused e) = some e
scan_error out_of_fuel = some (fail err_canonical)

module _ (crypto : Crypto) (codec : Codec) (json : Json) where
  abbrev accept_manifest : Str → Manifest → Reply Manifest
  accept_manifest text m =
      if not (str_eq (crypto.canonical m) text)
      then failed (fail err_canonical)
      else unless (validate m) (returned m)

  -- `ParseManifest`
  unfoldable pub parse_manifest : Str → Reply Manifest
  parse_manifest text =
      unless (scan_error (validate_json_object json text))
        (or_fail (codec.decode_manifest text) (fail err_unknown_field) (accept_manifest text))

  abbrev accept_signed : Str → SignedManifest → Reply SignedManifest
  accept_signed text s =
      if not (str_eq (codec.encode_signed s) text)
      then failed (fail err_canonical)
      else and_then (parse_manifest (crypto.canonical s.manifest)) λ _.
        if is_empty s.key_id || is_empty s.signature
        then failed (fail err_signature)
        else returned s

  -- `ParseSignedManifest`
  unfoldable pub parse_signed_manifest : Str → Reply SignedManifest
  unfolding parse_manifest
  parse_signed_manifest text =
      unless (scan_error (validate_json_object json text))
        (or_fail (codec.decode_signed text) (fail err_unknown_field) (accept_signed text))

  -- The signature of a parsed manifest: 64 bytes in base64.
  abbrev pub with_signature {ℓ} : {A : Type ℓ} → SignedManifest → (Str → Reply A) → Reply A
  with_signature s f =
      or_fail (codec.from_base64 s.signature) (fail err_signature)
        λ raw. if not (length raw == 64) then failed (fail err_signature) else f raw

  -- `VerifySignedManifest`
  unfoldable pub verify_signed_manifest : Str → TrustPolicy → ℤ → Reply Manifest
  unfolding parse_signed_manifest verify_manifest
  verify_signed_manifest text p now = and_then (parse_signed_manifest text) λ s.
      with_signature s
        λ raw. unless (verify_manifest crypto s.manifest raw s.key_id p now) (returned s.manifest)

  abbrev pub signed : Manifest → Str → Str → SignedManifest
  signed m key_id private = record {
    manifest = m;
    key_id = key_id;
    signature = codec.to_base64 (crypto.sign private (crypto.canonical m));
  }

  -- `SignManifest`
  unfoldable pub sign_manifest : Manifest → Str → Str → ℤ → Reply Str
  sign_manifest m key_id private now =
      if not (length private == 64) || is_empty key_id
      then failed (fail err_invalid_input)
      else unless (validate_at m now) (returned (codec.encode_signed (signed m key_id private)))
