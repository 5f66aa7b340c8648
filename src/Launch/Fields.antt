-- ===== src/Launch/Fields.antt =====
-- The tests of single fields in internal/secretlaunch/manifest.go and runtime.go, and the errors of
-- errors.go.
use skret.Base.{
  ℕ, Bool, true, false, not, ◌&&◌, ◌||◌, List, [], ◌∷◌, Option, none, some, Str, Map, codes, ◌==◌,
  ltb, is_digit, is_lower, is_upper, within, if◌then◌else◌, is_empty, all_bytes, any_byte,
  has_prefix, str_eq, length, drop, lookup, upper_byte,
}

-- `ErrorCode`
pub data ErrorCode : Type 0 where
  err_invalid_input err_canonical err_unknown_field err_duplicate_field : ErrorCode
  err_signature err_trust err_expired err_not_yet_valid err_ttl err_binding err_key : ErrorCode
  err_fetch err_crypto err_replay err_frame err_lifecycle err_daemon err_runtime : ErrorCode
  err_not_invoked err_child err_no_provider : ErrorCode

-- `LaunchError`
pub record LaunchError : Type 0 where
  pub code : ErrorCode
  pub key : Str

-- `fail`
abbrev pub fail : ErrorCode → LaunchError
fail c = record { code = c; key = [] }

abbrev is_key_space : ℕ → Bool
is_key_space r = r == 0 || r == b'\r' || r == b'\n' || r == b'\t' || r == 32

abbrev pub max_key_length : ℕ
max_key_length = 256

-- `validKeyName`
unfoldable pub valid_key_name : Str → Bool
unfolding any_byte
valid_key_name value =
    not (is_empty value || ltb max_key_length (length value)) && not (any_byte is_key_space value)

-- `evidenceKey`
unfoldable pub evidence_key : Str → Str
unfolding any_byte
evidence_key key =
    if is_empty key || ltb max_key_length (length key) || any_byte is_key_space key
    then codes "invalid"
    else key

-- `failKey`
unfoldable pub fail_key : ErrorCode → Str → LaunchError
unfolding evidence_key
fail_key c key = record { code = c; key = evidence_key key }

-- The first check of a sequence that fails.
unfoldable pub first_error : List (Option LaunchError) → Option LaunchError
first_error [] = none
first_error (some e ∷ checks) = some e
first_error (none ∷ checks) = first_error checks

-- `if b { return e }`
abbrev pub error_if : Bool → LaunchError → Option LaunchError
error_if true e = some e
error_if false e = none

abbrev is_letter : ℕ → Bool
is_letter r = is_upper r || is_lower r

abbrev is_nonce_byte : ℕ → Bool
is_nonce_byte r = is_letter r || is_digit r || r == b'.' || r == b'_' || r == b'~' || r == b'-'

-- `validNonce`
unfoldable pub valid_nonce : Str → Bool
unfolding all_bytes
valid_nonce value =
    not (ltb (length value) 16 || ltb 128 (length value)) && all_bytes is_nonce_byte value

abbrev is_service_byte : ℕ → Bool
is_service_byte r = is_letter r || is_digit r || r == b'-' || r == b'_' || r == b'.'

-- `validServiceName`
unfoldable pub valid_service_name : Str → Bool
unfolding all_bytes
valid_service_name value =
    not (is_empty value || ltb max_key_length (length value)) && all_bytes is_service_byte value

abbrev is_env_start : ℕ → Bool
is_env_start r = is_letter r || r == b'_'

abbrev env_bytes : Str → Bool
env_bytes [] = true
env_bytes (r ∷ rs) = is_env_start r && all_bytes (λ b. is_env_start b || is_digit b) rs

-- `validEnvName`
unfoldable pub valid_env_name : Str → Bool
unfolding all_bytes
valid_env_name value = not (is_empty value || ltb max_key_length (length value)) && env_bytes value

abbrev is_hex_digit : ℕ → Bool
is_hex_digit r = is_digit r || within b'a' b'f' r

-- `validDigest`
unfoldable pub valid_digest_text : Str → Bool
unfolding has_prefix all_bytes
valid_digest_text value =
    (length value == 71)
    && has_prefix value (codes "sha256:")
    && all_bytes is_hex_digit (drop 7 value)

-- `strings.Cut(value, sep)` for one byte
unfoldable pub cut_byte : ℕ → Str → Option (Str × Str)
cut_byte sep [] = none
cut_byte sep (c ∷ s) =
    let rest = cut_byte sep s in
    if c == sep then some ([], s) else elim rest [ none ↦ none | some p ↦ some (c ∷ p.0, p.1) ]

abbrev pinned_parts : Option (Str × Str) → Bool
pinned_parts none = false
pinned_parts (some p) = not (is_empty p.0) && valid_digest_text p.1

-- `pinnedImage`
unfoldable pub pinned_image : Str → Bool
unfolding cut_byte valid_digest_text
pinned_image value = pinned_parts (cut_byte b'@' value)

-- `strings.IndexByte(s, 0) >= 0`
abbrev pub has_nul : Str → Bool
has_nul s = any_byte (λ r. r == 0) s

-- `validArguments`
unfoldable pub valid_arguments : List Str → Option LaunchError
unfolding any_byte
valid_arguments values =
    if (length values == 0)
      || ltb 1024 (length values)
      || not (all_of (λ v. not (is_empty v || has_nul v)) values)
    then some (fail err_invalid_input)
    else none
  where
    all_of : (Str → Bool) → List Str → Bool
    all_of test [] = true
    all_of test (v ∷ vs) = test v && all_of test vs

-- `strings.Contains(s, part)`
unfoldable pub contains : Str → Str → Bool
unfolding has_prefix
contains [] part = has_prefix [] part
contains (c ∷ s) part = has_prefix (c ∷ s) part || contains s part

-- The two letters beyond ASCII whose upper case is ASCII: U+0131 and U+017F, of two bytes each.
ascii_upper : ℕ → ℕ → Option ℕ
ascii_upper lead b =
    if lead == 0xC4 && b == 0xB1
    then some b'I'
    else if lead == 0xC5 && b == 0xBF
    then some b'S'
    else none

-- `strings.ToUpper(s)`, as far as ASCII letters come out of it; the bytes of other letters stay,
-- since no marker has any. A lead byte begins a letter wherever it stands.
upper_case : Str → Str
unfolding ascii_upper
upper_case [] = []
upper_case (a ∷ []) = upper_byte a ∷ []
upper_case (a ∷ b ∷ s) = elim (ascii_upper a b) [
  | none ↦ upper_byte a ∷ upper_case (b ∷ s)
  | some c ↦ c ∷ upper_case s
]

-- `secretLikeName`
unfoldable pub secret_like_name : Str → Bool
unfolding contains upper_case
secret_like_name value =
    let upper = upper_case value in
    contains upper (codes "SECRET")
    || contains upper (codes "PASSWORD")
    || contains upper (codes "TOKEN")
    || contains upper (codes "CREDENTIAL")
    || contains upper (codes "PRIVATE_KEY")
    || contains upper (codes "API_KEY")

abbrev value_or_empty : Option Str → Str
value_or_empty none = []
value_or_empty (some v) = v

-- `m[k]` of a map of strings: a missing key reads as the empty string.
unfoldable pub read : Map Str → Str → Str
unfolding lookup
read m k = value_or_empty (lookup k m)

-- `ContainsLabels(actual, required)`
unfoldable pub contains_labels : Map Str → Map Str → Bool
unfolding read
contains_labels actual [] = true
contains_labels actual ((k, v) ∷ required) =
    str_eq (read actual k) v && contains_labels actual required

-- `equalStringMap`
unfoldable pub equal_string_map : Map Str → Map Str → Bool
unfolding contains_labels
equal_string_map first second = (length first == length second) && contains_labels second first
