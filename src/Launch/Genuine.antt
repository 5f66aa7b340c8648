-- ===== src/Launch/Genuine.antt =====
-- Signed manifests: what a verified text is, and that a signed manifest verifies.
use skret.Base.{
  ◌≡◌, refl, subst, arith, true, false, not, ◌||◌, none, some, Str, ◌==◌, is_empty, str_eq,
  str_eq_iff, str_eq_refl, length, lookup, ℤ, All,
}
use skret.Launch.Data.{Manifest}
use skret.Launch.Authority.{validate, validate_at}
use skret.Launch.Json.{Json, validate_json_object}
use skret.Launch.Json.Texts.{IsObject}
use skret.Launch.Json.Accepts.{validate_json_object-IsObject}
use skret.Launch.Trust.{Crypto, TrustPolicy, allows, validate_trust_policy, verify_manifest}
use skret.Launch.Signed.{
  SignedManifest, Codec, Reply, returned, scan_error, parse_manifest, parse_signed_manifest,
  with_signature, verify_signed_manifest, signed, sign_manifest,
}
use skret.Launch.Verified.{
  IsPinned, IsLive, IsTrusted, validate_at-IsLive, verify_manifest-IsTrusted, unless-returned,
  or_fail-returned, and_then-returned, if_failed-returned,
}

module _ (c : Crypto) (codec : Codec) (json : Json) where
  -- The text of a signed manifest that the policy trusts and that is live.
  pub record IsGenuine (text : Str) (p : TrustPolicy) (now : ℤ) (m : Manifest) : Type 0 where
    pub key_id : Str
    pub signature : Str
    pub raw : Str
    pub text_eq :
        codec.encode_signed (record { manifest = m; key_id = key_id; signature = signature }) ≡ text
    pub raw_eq : codec.from_base64 signature ≡ some raw
    pub raw_size : length raw ≡ 64
    pub valid : validate m ≡ none
    pub live : IsLive m now
    pub trusted : IsTrusted c m raw key_id p

  pub parse_signed-text :
      (text : Str) (s : SignedManifest)
      → parse_signed_manifest c codec json text ≡ returned s
      → codec.encode_signed s ≡ text
  unfolding parse_signed_manifest
  parse_signed-text text s h =
      let (_, h1) = unless-returned (scan_error (validate_json_object json text)) _ s h in
      let (t, _, h2) = or_fail-returned (codec.decode_signed text) _ _ s h1 in
      let (same, h3) = if_failed-returned (not (str_eq (codec.encode_signed t) text)) _ _ s h2 in
      let (_, _, h4) =
        and_then-returned (parse_manifest c codec json (c.canonical t.manifest)) _ s h3 in
      let (_, h5) = if_failed-returned (is_empty t.key_id || is_empty t.signature) _ _ s h4 in
      let e : t ≡ s = ground (arith, h5) in
      subst (λ u. codec.encode_signed u ≡ text) e
        ((str_eq_iff (codec.encode_signed t) text).0 (ground (arith, same)))

  pub with_signature-returned :
      {A : Type 0} (s : SignedManifest) (f : Str → Reply A) (a : A)
      → with_signature c codec json s f ≡ returned a
      → (raw : Str) × (codec.from_base64 s.signature ≡ some raw)
        × (length raw ≡ 64)
        × (f raw ≡ returned a)
  with_signature-returned s f a h =
      let (raw, e, h1) = or_fail-returned (codec.from_base64 s.signature) _ _ a h in
      let (size, h2) = if_failed-returned (not (length raw == 64)) _ _ a h1 in
      (raw, e, ground (arith, size), h2)

-- What VerifySignedManifest returns is the manifest of which the data is the signed text; it is
-- valid, within its window, and trusted by the policy.
pub verify-IsGenuine :
    (c : Crypto) (codec : Codec) (json : Json) (text : Str) (p : TrustPolicy) (now : ℤ)
    (m : Manifest)
    → verify_signed_manifest c codec json text p now ≡ returned m
    → IsGenuine c codec json text p now m
unfolding verify_signed_manifest
verify-IsGenuine c codec json text p now m h =
    let (s, parsed, h1) = and_then-returned (parse_signed_manifest c codec json text) _ m h in
    let (raw, decoded, size, h2) = with_signature-returned c codec json s _ m h1 in
    let (ok, h3) = unless-returned (verify_manifest c s.manifest raw s.key_id p now) _ m h2 in
    let e : s.manifest ≡ m = ground (arith, h3) in
    let ((valid, live), trusted) =
      (verify_manifest-IsTrusted c s.manifest raw s.key_id p now).0 ok in
    subst (IsGenuine c codec json text p now) e (record {
      key_id = s.key_id;
      signature = s.signature;
      raw = raw;
      text_eq = parse_signed-text c codec json text s parsed;
      raw_eq = decoded;
      raw_size = size;
      valid = valid;
      live = live;
      trusted = trusted;
    })

-- Go's packages on one manifest and key: the texts that are written are compact JSON objects
-- without a repeated field, the decoders read back what the encoders write, and a signature by the
-- private key is verified by its public one.
pub record IsCoded (c : Crypto) (codec : Codec) (json : Json) (m : Manifest) (id private : Str)
    : Type 0 where
  pub decoded : codec.decode_manifest (c.canonical m) ≡ some m
  pub compact : IsObject json (c.canonical m)
  pub decoded_signed :
      codec.decode_signed (codec.encode_signed (signed c codec json m id private))
      ≡ some (signed c codec json m id private)
  pub compact_signed : IsObject json (codec.encode_signed (signed c codec json m id private))
  pub base64 : (raw : Str) → codec.from_base64 (codec.to_base64 raw) ≡ some raw
  pub base64_filled : is_empty (codec.to_base64 (c.sign private (c.canonical m))) ≡ false
  pub signature_size : length (c.sign private (c.canonical m)) ≡ 64
  pub verifies : (text : Str) → c.verify (c.public_of private) text (c.sign private text) ≡ true

-- The policy lists the key and allows what the manifest names.
pub record IsAllowed (p : TrustPolicy) (m : Manifest) (id public : Str) : Type 0 where
  pub policy : validate_trust_policy p ≡ none
  pub listed : lookup id p.signing_keys ≡ some public
  pub key_size : length public ≡ 32
  pub version : allows p.versions m.version ≡ true
  pub runtime : allows p.runtime_ids m.runtime_id ≡ true
  pub role : allows p.roles m.role ≡ true
  pub pinned : All (IsPinned p) m.services

-- Where the texts that json.Marshal writes are compact JSON objects without a repeated field, the
-- decoders read back what the encoders write, base64 is not empty, and the public key verifies the
-- signatures of 64 bytes that its private key makes: what SignManifest returns is verified as its
-- manifest at every time within the window, under a well-formed policy that lists the public key of
-- 32 bytes, allows the version, runtime and role that the manifest names, and pins the keys of its
-- services to allowed versions.
pub verify-sign :
    (c : Crypto) (codec : Codec) (json : Json) (m : Manifest) (id private text : Str)
    (p : TrustPolicy) (now later : ℤ)
    → IsCoded c codec json m id private
    → IsAllowed p m id (c.public_of private)
    → sign_manifest c codec json m id private now ≡ returned text
    → IsLive m later
    → verify_signed_manifest c codec json text p later ≡ returned m
unfolding verify_signed_manifest parse_signed_manifest parse_manifest sign_manifest
verify-sign c codec json m id private text p now later laws allowed h live =
    let s = signed c codec json m id private in
    let raw = c.sign private (c.canonical m) in
    let (sizes, h1) = if_failed-returned (not (length private == 64) || is_empty id) _ _ text h in
    let (valid_now, h2) = unless-returned (validate_at m now) _ text h1 in
    let valid = ((validate_at-IsLive m now).0 valid_now).0 in
    let id_filled : is_empty id ≡ false = ground (arith, sizes) in
    let e : codec.encode_signed s ≡ text = ground (arith, h2) in
    let trusted : verify_manifest c m raw id p later ≡ none =
      (verify_manifest-IsTrusted c m raw id p later).1 (
        (valid, live),
        record {
          policy = allowed.policy;
          key = c.public_of private;
          listed = allowed.listed;
          key_size = allowed.key_size;
          signed = laws.verifies (c.canonical m);
          version = allowed.version;
          runtime = allowed.runtime;
          role = allowed.role;
          pinned = allowed.pinned;
        },
      ) in
    subst (λ t. verify_signed_manifest c codec json t p later ≡ returned m) e
      (rw
        (
          validate_json_object-IsObject json (codec.encode_signed s) laws.compact_signed,
          laws.decoded_signed,
          str_eq_refl (codec.encode_signed s),
          validate_json_object-IsObject json (c.canonical m) laws.compact,
          laws.decoded,
          str_eq_refl (c.canonical m),
          valid,
          id_filled,
          laws.base64_filled,
          laws.base64 raw,
          laws.signature_size,
          trusted,
        )
        refl)
