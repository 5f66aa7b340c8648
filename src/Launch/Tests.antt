-- ===== src/Launch/Tests.antt =====
-- Tests and witnesses for the launch manifests.
use skret.Base.{
  ◌++◌, ℕ, ◌≡◌, refl, ◌↔◌, ◌≢◌, ◌⊎◌, true, false, List, [], ◌∷◌, some, none, Str, codes, ℤ, pos,
  has_prefix, any_byte, all_bytes, str_eq, str_lt, lookup, trim_left,
}
use skret.Launch.Data.{Manifest}
use skret.Launch.Fields.{
  valid_key_name, fail_key, evidence_key, first_error, valid_nonce, valid_service_name,
  valid_env_name, valid_digest_text, cut_byte, pinned_image, valid_arguments, contains,
  secret_like_name, read, contains_labels, equal_string_map, fail, err_invalid_input,
  err_duplicate_field,
}
use skret.Launch.Decimal.{parse_int, format_nat, format_int, valid_provider_version}
use skret.Launch.Authority.{
  valid_health, is_among, check_keys, names_rise, check_environment, check_labels,
  validate_service_authority, services_rise, validate, validate_at,
}
use skret.Launch.Json.{
  scanned, refused, out_of_fuel, skip_space, expect, string_end, split_number, literal, read_string,
  number, word, open_list, next, value_step, field, member_step, step, scan, validate_json_object,
}
use skret.Launch.Json.Ends.{validate_json_object-ends}
use skret.Launch.Trust.{
  allows, keys_valid, validate_trust_policy, check_versions, check_services, verify_manifest_trust,
  verify_manifest,
}
use skret.Launch.Signed.{
  Reply, returned, parse_manifest, parse_signed_manifest, verify_signed_manifest, sign_manifest,
}
use skret.Launch.Verified.{IsLive, IsTrusted, verify_manifest-IsTrusted}
use skret.Launch.Genuine.{IsGenuine, verify-IsGenuine, IsCoded, IsAllowed, verify-sign}
use skret.Launch.Renewal.{
  Time, authority_digest, renew_manifest, accept_renewal, refresh_manifest, refresh_all,
  renew_signed_manifest, with_window,
}
use skret.Launch.Renewal.Keeps.{IsRenewal, WasLive, refresh_all-IsRenewal, accept-renew}
use skret.Launch.Accepted.{IsManifest, validate-IsManifest}
use skret.Launch.SampleTexts.{nonce-IsObject, signed-IsObject}
use skret.Launch.Samples.{health, sample, bytes, crypto, signed_sample, codec, json, policy}

executes : ℕ
unfolding valid_key_name fail_key evidence_key first_error valid_nonce valid_service_name
    valid_env_name valid_digest_text cut_byte pinned_image valid_arguments contains secret_like_name
    read contains_labels equal_string_map parse_int format_nat format_int valid_provider_version
    valid_health is_among check_keys names_rise check_environment check_labels
    validate_service_authority services_rise validate validate_at has_prefix any_byte all_bytes
    str_eq str_lt lookup trim_left skip_space expect string_end split_number literal read_string
    number word open_list next value_step field member_step step scan validate_json_object allows
    keys_valid validate_trust_policy check_versions check_services verify_manifest_trust
    verify_manifest parse_manifest parse_signed_manifest verify_signed_manifest sign_manifest
    authority_digest renew_manifest accept_renewal refresh_manifest refresh_all
    renew_signed_manifest
executes = 0

sample-valid : validate sample ≡ none
unfolding executes
sample-valid = refl

-- A repeated field, also inside an array, and the same field of two objects.
repeated-field :
    (validate_json_object json (codes "{\"a\":[{\"b\":true,\"b\":null}]}")
      ≡ refused (fail_key err_duplicate_field (codes "\"b\"")))
    × (validate_json_object json (codes " {\"a\":{\"b\":[]},\"b\":\"\\\"\"} ") ≡ scanned [])
unfolding executes
repeated-field = (refl, refl)

-- A map with an empty value passes for one with another key.
empty-value : equal_string_map ((codes "A", []) ∷ []) ((codes "B", codes "x") ∷ []) ≡ true
unfolding executes
empty-value = refl

-- U+0131 and U+017F have ASCII letters as their upper case.
upper-inner : secret_like_name (codes "credent" ++ 0xC4 ∷ 0xB1 ∷ codes "al") ≡ true
unfolding secret_like_name
upper-inner = refl

upper-ascii : secret_like_name (0xC5 ∷ 0xBF ∷ codes "ecret") ≡ true
unfolding executes
upper-ascii = refl

versions-canonical :
    (valid_provider_version (codes "9223372036854775807") ≡ true)
    × (valid_provider_version (codes "9223372036854775808") ≡ false)
    × (valid_provider_version (codes "+7") ≡ false)
    × (valid_provider_version (codes "07") ≡ false)
unfolding executes
versions-canonical = (refl, refl, refl, refl)

-- Three intervals between heartbeats do not fit the deadline.
late-heartbeat :
    valid_health (record health { heartbeat_interval_ms = 1001 }) ≡ some (fail err_invalid_input)
unfolding executes
late-heartbeat = refl

validate-IsManifest_example : (validate sample ≡ none) ↔ IsManifest sample
validate-IsManifest_example = validate-IsManifest sample

verify_manifest-IsTrusted_example :
    (verify_manifest crypto sample (bytes 64) (codes "k1") policy (pos 1200) ≡ none) ↔ (
      ((validate sample ≡ none) × IsLive sample (pos 1200))
      × IsTrusted crypto sample (bytes 64) (codes "k1") policy)
verify_manifest-IsTrusted_example =
    verify_manifest-IsTrusted crypto sample (bytes 64) (codes "k1") policy (pos 1200)

sample-verified : verify_manifest crypto sample (bytes 64) (codes "k1") policy (pos 1200) ≡ none
unfolding executes
sample-verified = refl

abbrev text : Str
text = codec.encode_signed signed_sample

text-verified : verify_signed_manifest crypto codec json text policy (pos 1200) ≡ returned sample
unfolding executes
text-verified = refl

verify-IsGenuine_example : IsGenuine crypto codec json text policy (pos 1200) sample
verify-IsGenuine_example =
    verify-IsGenuine crypto codec json text policy (pos 1200) sample text-verified

sample-IsCoded : IsCoded crypto codec json sample (codes "k1") (bytes 64)
unfolding executes
sample-IsCoded = record {
  decoded = refl;
  compact = nonce-IsObject;
  decoded_signed = refl;
  compact_signed = signed-IsObject;
  base64 = λ raw. refl;
  base64_filled = refl;
  signature_size = refl;
  verifies = λ t. refl;
}

sample-IsAllowed : IsAllowed policy sample (codes "k1") (bytes 32)
unfolding executes
sample-IsAllowed = record {
  policy = refl;
  listed = refl;
  key_size = refl;
  version = refl;
  runtime = refl;
  role = refl;
  pinned = ((refl, (refl, tt)), ((refl, (refl, tt)), tt));
}

sample-signed :
    sign_manifest crypto codec json sample (codes "k1") (bytes 64) (pos 1000) ≡ returned text
unfolding executes
sample-signed = refl

verify-sign_example :
    verify_signed_manifest crypto codec json text policy (pos 1899) ≡ returned sample
verify-sign_example =
    verify-sign crypto codec json sample (codes "k1") (bytes 64) text policy (pos 1000) (pos 1899)
      sample-IsCoded sample-IsAllowed sample-signed (refl, refl)

abbrev noon : Time
noon = record { seconds = pos 1500; nanos = 250000000 }

abbrev renewed : Manifest
renewed = with_window sample noon (pos 600000000000)

abbrev reloads : List (Reply Manifest × ℤ)
reloads =
    (returned (record sample { generation = 5 }), pos 1400)
    ∷ (returned renewed, pos 1500)
    ∷ (returned sample, pos 1600)
    ∷ []

-- The other generation and the earlier end are refused, the renewal is adopted.
reloads-adopt : refresh_all crypto sample reloads ≡ renewed
unfolding executes
reloads-adopt = refl

refresh_all-IsRenewal_example :
    IsRenewal crypto sample (refresh_all crypto sample reloads)
    × ((refresh_all crypto sample reloads ≡ sample)
        ⊎ WasLive crypto (refresh_all crypto sample reloads) reloads)
refresh_all-IsRenewal_example = refresh_all-IsRenewal crypto sample reloads

sample-renewed : renew_manifest sample noon (pos 600000000000) ≡ returned renewed
unfolding executes
sample-renewed = refl

accept-renew_example :
    (accept_renewal crypto sample renewed (pos 1500) ≡ none) × (renewed ≡ renewed)
accept-renew_example =
    accept-renew crypto sample renewed noon (pos 600000000000) sample-renewed refl

validate_json_object-ends_example : validate_json_object json text ≢ out_of_fuel
validate_json_object-ends_example = validate_json_object-ends json text
