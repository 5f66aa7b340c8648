-- ===== src/Launch/Model.antt =====
-- The rendered model of internal/secretlaunch/runtime.go: its data, its checks, and its agreement
-- with a manifest. Slices and maps are never nil here.
use skret.Base.{
  Bool, true, false, not, ◌&&◌, ◌||◌, List, [], ◌∷◌, Option, none, some, Str, Map, codes, ◌==◌, ltb,
  if◌then◌else◌, is_empty, str_eq, str_lt, length, lookup, map,
}
use skret.Launch.Data.{ChildSpec, HealthSpec, ServiceAuthority, Manifest, key_name}
use skret.Launch.Fields.{
  LaunchError, fail, fail_key, err_runtime, err_binding, error_if, first_error, valid_key_name,
  valid_service_name, valid_digest_text, pinned_image, has_nul, valid_arguments, equal_string_map,
}
use skret.Launch.Authority.{
  is_some, names_rise, valid_health, variable_refused, label_refused, validate,
}

-- `ServiceSpec`
pub record ServiceSpec : Type 0 where
  pub name : Str
  pub image : Str
  pub user : Str
  pub argv : List Str
  pub environment : Map Str
  pub labels : Map Str
  pub networks : List Str
  pub restart : Str
  pub open_stdin : Bool
  pub health : HealthSpec
  pub dependencies : List Str
  pub secret_keys : List Str
  pub wrapper_digest : Str
  pub child : ChildSpec

-- `RenderedModel`
pub record RenderedModel : Type 0 where
  pub runtime_id : Str
  pub compose_digest : Str
  pub services : List ServiceSpec

abbrev pub spec_refused : ServiceSpec → Bool
spec_refused s =
    not (valid_service_name s.name)
    || not (pinned_image s.image)
    || is_empty s.user
    || has_nul s.user
    || not (str_eq s.restart (codes "no"))
    || not s.open_stdin
    || not (valid_digest_text s.wrapper_digest)
    || is_some (valid_arguments s.argv)
    || is_empty s.child.user
    || has_nul s.child.user
    || is_some (valid_arguments s.child.argv)
    || is_some (valid_health s.health)
    || not (equal_string_map s.child.environment s.environment)

-- The loop over `service.SecretKeys`
unfoldable pub check_secret_keys : Str → List Str → Option LaunchError
check_secret_keys last [] = none
check_secret_keys last (k ∷ ks) =
    if not (valid_key_name k) || not (str_lt last k)
    then some (fail_key err_runtime k)
    else check_secret_keys k ks

-- The loops over `service.Environment` and `service.Labels`
unfoldable pub check_map : (Str → Str → Bool) → Map Str → Option LaunchError
check_map refused [] = none
check_map refused ((k, v) ∷ m) =
    if refused k v then some (fail_key err_runtime k) else check_map refused m

abbrev pub spec_checks : ServiceSpec → List (Option LaunchError)
spec_checks s =
    error_if (spec_refused s) (fail err_runtime)
    ∷ error_if (not (names_rise (λ d. str_eq d s.name) [] s.dependencies)) (fail err_runtime)
    ∷ error_if (not (names_rise (λ _. false) [] s.networks)) (fail err_runtime)
    ∷ check_secret_keys [] s.secret_keys
    ∷ check_map variable_refused s.environment
    ∷ check_map label_refused s.labels
    ∷ []

-- `validateServiceSpec`
unfoldable pub validate_service_spec : ServiceSpec → Option LaunchError
unfolding first_error check_secret_keys check_map
validate_service_spec s = first_error (spec_checks s)

-- The loop of `validateModelStructure`
unfoldable pub check_specs : Str → List ServiceSpec → Option LaunchError
unfolding first_error validate_service_spec
check_specs last [] = none
check_specs last (s ∷ ss) = first_error (
    error_if (not (str_lt last s.name)) (fail err_runtime)
    ∷ validate_service_spec s
    ∷ check_specs s.name ss
    ∷ [])

-- `validateModelStructure`
unfoldable pub validate_model_structure : RenderedModel → Option LaunchError
unfolding first_error check_specs
validate_model_structure m = first_error (
    error_if
      (not (valid_service_name m.runtime_id)
        || (length m.services == 0)
        || ltb 256 (length m.services))
      (fail err_runtime)
    ∷ check_specs [] m.services
    ∷ [])

-- `serviceSpecFromAuthority`
abbrev pub spec_of : ServiceAuthority → ServiceSpec
spec_of a = record {
  name = a.name;
  image = a.image;
  user = a.user;
  argv = a.argv;
  environment = a.environment;
  labels = a.labels;
  networks = a.networks;
  restart = a.restart;
  open_stdin = a.open_stdin;
  health = a.health;
  dependencies = a.dependencies;
  secret_keys = map key_name a.keys;
  wrapper_digest = a.wrapper_digest;
  child = a.child;
}

unfoldable pub strs_eq : List Str → List Str → Bool
strs_eq [] [] = true
strs_eq (x ∷ xs) (y ∷ ys) = str_eq x y && strs_eq xs ys
strs_eq _ _ = false

abbrev has_value : Option Str → Str → Bool
has_value none v = false
has_value (some w) v = str_eq v w

unfoldable pub within_map : Map Str → Map Str → Bool
unfolding lookup
within_map [] n = true
within_map ((k, v) ∷ m) n = has_value (lookup k n) v && within_map m n

abbrev pub maps_eq : Map Str → Map Str → Bool
maps_eq m n = (length m == length n) && within_map m n

abbrev bools_eq : Bool → Bool → Bool
bools_eq true b = b
bools_eq false b = not b

abbrev pub health_eq : HealthSpec → HealthSpec → Bool
health_eq a b =
    strs_eq a.command b.command
    && a.interval_ms == b.interval_ms
    && a.timeout_ms == b.timeout_ms
    && a.retries == b.retries
    && a.heartbeat_interval_ms == b.heartbeat_interval_ms
    && a.heartbeat_timeout_ms == b.heartbeat_timeout_ms

-- `reflect.DeepEqual` of two specs
unfoldable pub specs_eq : ServiceSpec → ServiceSpec → Bool
unfolding strs_eq within_map
specs_eq a b =
    str_eq a.name b.name
    && str_eq a.image b.image
    && str_eq a.user b.user
    && strs_eq a.argv b.argv
    && maps_eq a.environment b.environment
    && maps_eq a.labels b.labels
    && strs_eq a.networks b.networks
    && str_eq a.restart b.restart
    && bools_eq a.open_stdin b.open_stdin
    && health_eq a.health b.health
    && strs_eq a.dependencies b.dependencies
    && strs_eq a.secret_keys b.secret_keys
    && str_eq a.wrapper_digest b.wrapper_digest
    && strs_eq a.child.argv b.child.argv
    && str_eq a.child.user b.child.user
    && maps_eq a.child.environment b.child.environment

-- The loop of `ValidateManifestModel`
unfoldable pub all_specs_eq : List ServiceAuthority → List ServiceSpec → Bool
unfolding specs_eq
all_specs_eq (x ∷ xs) (s ∷ ss) = specs_eq (spec_of x) s && all_specs_eq xs ss
all_specs_eq _ _ = true

-- The digest of a runtime's name and services is `digest`: "sha256:", and the SHA-256 of the JSON
-- text of both.
module _ (digest : Str → List ServiceSpec → Str) where
  -- `ValidateRenderedModel`, with `ModelDigest`
  unfoldable pub validate_rendered_model : RenderedModel → Option LaunchError
  unfolding first_error validate_model_structure
  validate_rendered_model m = first_error (
      validate_model_structure m
      ∷ error_if (not (str_eq m.compose_digest (digest m.runtime_id m.services))) (fail err_binding)
      ∷ [])

  abbrev pub model_checks : Manifest → RenderedModel → List (Option LaunchError)
  model_checks m r =
      validate m
      ∷ validate_rendered_model r
      ∷ error_if
          (not (str_eq m.runtime_id r.runtime_id)
            || not (str_eq m.digests.compose r.compose_digest)
            || not (length m.services == length r.services))
          (fail err_binding)
      ∷ error_if (not (all_specs_eq m.services r.services)) (fail err_binding)
      ∷ []

  -- `ValidateManifestModel`
  unfoldable pub validate_manifest_model : Manifest → RenderedModel → Option LaunchError
  unfolding first_error validate_rendered_model all_specs_eq
  validate_manifest_model m r = first_error (model_checks m r)
