-- ===== src/Launch/Authority.antt =====
-- What `Validate` of internal/secretlaunch/manifest.go asks of a launch manifest.
use skret.Base.{
  ℕ, ◌-◌, ◌*◌, ◌%◌, ◌^◌, Bool, true, false, not, ◌&&◌, ◌||◌, List, [], ◌∷◌, Option, none, some, Str,
  Map, codes, ◌==◌, ltb, leb, if◌then◌else◌, is_empty, has_prefix, str_eq, str_lt, length, lookup,
  ℤ, pos, negsuc,
}
use skret.Launch.Data.{ManifestKey, ChildSpec, HealthSpec, ServiceAuthority, Manifest}
use skret.Launch.Decimal.{valid_provider_version}
use skret.Launch.Fields.{
  LaunchError, fail, fail_key, err_invalid_input, err_ttl, err_key, err_not_yet_valid, err_expired,
  error_if, first_error, valid_key_name, valid_nonce, valid_service_name, valid_env_name,
  valid_digest_text, pinned_image, has_nul, valid_arguments, secret_like_name, equal_string_map,
}

-- `ManifestVersion`
abbrev pub manifest_version : Str
manifest_version = codes "v2"

-- `HeartbeatSafetyFactor`
abbrev pub safety_factor : ℕ
safety_factor = 3

-- The product is taken in `uint32`.
abbrev pub heartbeat_refused : HealthSpec → Bool
heartbeat_refused h =
    (h.heartbeat_interval_ms == 0)
    || (h.heartbeat_timeout_ms == 0)
    || ltb 300000 h.heartbeat_interval_ms
    || ltb 900000 h.heartbeat_timeout_ms
    || ltb 1431655765 h.heartbeat_interval_ms
    || ltb h.heartbeat_timeout_ms (h.heartbeat_interval_ms * safety_factor % 2 ^ 32)

abbrev pub times_refused : HealthSpec → Bool
times_refused h = (h.interval_ms == 0) || (h.timeout_ms == 0) || (h.retries == 0)

abbrev pub health_checks : HealthSpec → List (Option LaunchError)
health_checks h =
    error_if (times_refused h) (fail err_invalid_input)
    ∷ error_if (heartbeat_refused h) (fail err_invalid_input)
    ∷ valid_arguments h.command
    ∷ []

-- `validHealth`
unfoldable pub valid_health : HealthSpec → Option LaunchError
unfolding first_error
valid_health h = first_error (health_checks h)

abbrev pub is_some {ℓ} : {A : Type ℓ} → Option A → Bool
is_some none = false
is_some (some _) = true

-- Is the string among the keys of a map of type `map[string]struct{}`?
unfoldable pub is_among : Str → List Str → Bool
is_among x [] = false
is_among x (y ∷ ys) = str_eq y x || is_among x ys

-- The tests of one key, with the name before it and the variables of the keys before it.
abbrev pub key_refused : Map Str → Str → List Str → ManifestKey → Bool
key_refused environment last env_names k =
    not (valid_key_name k.name)
    || not (valid_provider_version k.version)
    || not (valid_env_name k.env)
    || not (str_lt last k.name)
    || is_some (lookup k.env environment)
    || is_among k.env env_names

-- The loop over `service.Keys`.
unfoldable pub check_keys : Map Str → Str → List Str → List ManifestKey → Option LaunchError
unfolding is_among
check_keys environment last env_names [] = none
check_keys environment last env_names (k ∷ ks) =
    if key_refused environment last env_names k
    then some (fail_key err_key k.name)
    else check_keys environment k.name (k.env ∷ env_names) ks

-- The loops over `service.Dependencies` and `service.Networks`: names that rise strictly and of
-- which none is refused.
unfoldable pub names_rise : (Str → Bool) → Str → List Str → Bool
names_rise refused last [] = true
names_rise refused last (name ∷ names) =
    not (not (valid_service_name name) || refused name || not (str_lt last name))
    && names_rise refused name names

abbrev pub variable_refused : Str → Str → Bool
variable_refused k v = not (valid_env_name k) || secret_like_name k || has_nul v

-- The loop over `service.Environment`
unfoldable pub check_environment : Map Str → Option LaunchError
check_environment [] = none
check_environment ((k, v) ∷ m) =
    if variable_refused k v then some (fail_key err_invalid_input k) else check_environment m

abbrev pub label_refused : Str → Str → Bool
label_refused k v =
    is_empty k
    || has_prefix k (codes "com.skret.secret-launch")
    || secret_like_name k
    || secret_like_name v
    || has_nul k
    || has_nul v

-- The loop over `service.Labels`
unfoldable pub check_labels : Map Str → Option LaunchError
check_labels [] = none
check_labels ((k, v) ∷ m) =
    if label_refused k v then some (fail_key err_invalid_input k) else check_labels m

abbrev pub identity_refused : ServiceAuthority → Bool
identity_refused s =
    not (valid_service_name s.name)
    || not (pinned_image s.image)
    || is_empty s.user
    || has_nul s.user
    || not (str_eq s.restart (codes "no"))
    || not s.open_stdin
    || not (valid_digest_text s.wrapper_digest)

abbrev pub child_refused : ChildSpec → Bool
child_refused c =
    (length c.argv == 0) || is_empty c.user || has_nul c.user || is_some (valid_arguments c.argv)

abbrev pub service_checks : ServiceAuthority → List (Option LaunchError)
service_checks s =
    error_if (identity_refused s) (fail err_invalid_input)
    ∷ valid_arguments s.argv
    ∷ error_if (child_refused s.child) (fail err_invalid_input)
    ∷ error_if (not (equal_string_map s.child.environment s.environment)) (fail err_invalid_input)
    ∷ valid_health s.health
    ∷ error_if ((length s.keys == 0) || ltb 1024 (length s.keys)) (fail err_invalid_input)
    ∷ check_keys s.environment [] [] s.keys
    ∷ error_if (not (names_rise (λ d. str_eq d s.name) [] s.dependencies)) (fail err_invalid_input)
    ∷ error_if (not (names_rise (λ _. false) [] s.networks)) (fail err_invalid_input)
    ∷ check_environment s.environment
    ∷ check_labels s.labels
    ∷ []

-- `validateServiceAuthority`
unfoldable pub validate_service_authority : ServiceAuthority → Option LaunchError
unfolding first_error
validate_service_authority s = first_error (service_checks s)

-- The loop over `m.Services` in `Validate`
unfoldable pub services_rise : Str → List ServiceAuthority → Bool
services_rise last [] = true
services_rise last (s ∷ ss) =
    not (not (str_lt last s.name) || is_some (validate_service_authority s))
    && services_rise s.name ss

-- `m.IssuedAt > 0 && m.ExpiresAt > m.IssuedAt`, and a difference of `MaxManifestTTL` at most. The
-- difference is taken of positive times only, so it does not overflow.
abbrev pub valid_window : ℤ → ℤ → Bool
valid_window (pos issued) (pos expires) =
    ltb 0 issued && ltb issued expires && leb (expires - issued) 900
valid_window _ _ = false

abbrev pub manifest_checks : Manifest → List (Option LaunchError)
manifest_checks m =
    error_if
      (not (str_eq m.version manifest_version)
        || not (valid_service_name m.runtime_id)
        || not (valid_service_name m.role)
        || (m.generation == 0))
      (fail err_invalid_input)
    ∷ error_if (not (valid_window m.issued_at m.expires_at)) (fail err_ttl)
    ∷ error_if
        (not (valid_nonce m.nonce) || (length m.services == 0) || ltb 256 (length m.services))
        (fail err_invalid_input)
    ∷ error_if (not (services_rise [] m.services)) (fail err_invalid_input)
    ∷ error_if
        (not (valid_digest_text m.digests.helper)
          || not (valid_digest_text m.digests.supervisor)
          || not (valid_digest_text m.digests.compose))
        (fail err_invalid_input)
    ∷ []

-- `Validate`
unfoldable pub validate : Manifest → Option LaunchError
unfolding first_error
validate m = first_error (manifest_checks m)

-- `a < b` on `int64`
abbrev pub ltz : ℤ → ℤ → Bool
ltz (pos a) (pos b) = ltb a b
ltz (pos a) (negsuc b) = false
ltz (negsuc a) (pos b) = true
ltz (negsuc a) (negsuc b) = ltb b a

-- `ValidateAt` at a Unix time
unfoldable pub validate_at : Manifest → ℤ → Option LaunchError
unfolding first_error
validate_at m now = first_error (
    validate m
    ∷ error_if (ltz now m.issued_at) (fail err_not_yet_valid)
    ∷ error_if (not (ltz now m.expires_at)) (fail err_expired)
    ∷ [])
