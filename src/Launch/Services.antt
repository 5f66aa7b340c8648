-- ===== src/Launch/Services.antt =====
-- What `validateServiceAuthority` of internal/secretlaunch/manifest.go lets through.
use skret.Base.{
  ◌≡◌, refl, arith, Bool, true, false, not, List, [], ◌∷◌, none, Str, map, All, ◌↔◌, str_eq,
}
use skret.Launch.Fields.{LaunchError, error_if}
use skret.Launch.Data.{ServiceAuthority}
use skret.Launch.Authority.{service_checks, validate_service_authority, services_rise}
use skret.Launch.Ascending.{first_error-All, error_if-none, IsBelow, IsAscending, IsBelow-cons}
use skret.Launch.Valid.{
  IsService, check_environment-All, check_labels-All, names_rise-IsNames, no_self_iff,
  child_refused_iff, keys_iff, identity_refused_iff, key_count_iff,
}
use skret.Launch.Rules.{valid_health-IsHealthy, is_some_iff}

pub error_if-not : (b : Bool) (c : LaunchError) → (error_if (not b) c ≡ none) ↔ (b ≡ true)
error_if-not true c = ground arith
error_if-not false c = ground arith

all_false : (names : List Str) → All (λ (_ : Str). false ≡ false) names
all_false [] = tt
all_false (n ∷ names) = (refl, all_false names)

service_valid : (s : ServiceAuthority) → validate_service_authority s ≡ none → IsService s
unfolding validate_service_authority
service_valid s e =
    let (id, (argv, (child, (same, (health, (count, (keys, (ds, (ns, (env, (labels, _))))))))))) =
      (first_error-All (service_checks s)).0 e in
    let (named, (image, (user, (restart, (stdin, wrapper))))) =
      (identity_refused_iff s).0 ((error_if-none _ _).0 id) in
    let (each, (up, distinct)) = (keys_iff s.environment s.keys).0 keys in
    let (dependencies, others) =
      (names_rise-IsNames (λ d. str_eq d s.name) s.dependencies).0 ((error_if-not _ _).0 ds) in
    record {
      name = named;
      image = image;
      user = user;
      restart = restart;
      open_stdin = stdin;
      wrapper = wrapper;
      argv = argv;
      child = (child_refused_iff s.child).0 ((error_if-none _ _).0 child);
      same_environment = (error_if-not _ _).0 same;
      health = (valid_health-IsHealthy s.health).0 health;
      key_count = (key_count_iff s.keys).0 ((error_if-none _ _).0 count);
      keys = each;
      key_names = up;
      key_variables = distinct;
      dependencies = dependencies;
      no_self = (no_self_iff s.name s.dependencies).0 others;
      networks = ((names_rise-IsNames (λ _. false) s.networks).0 ((error_if-not _ _).0 ns)).0;
      environment = (check_environment-All s.environment).0 env;
      labels = (check_labels-All s.labels).0 labels;
    }

service_accepted : (s : ServiceAuthority) → IsService s → validate_service_authority s ≡ none
unfolding validate_service_authority
service_accepted s w = (first_error-All (service_checks s)).1 (
  (error_if-none _ _).1 (
      (identity_refused_iff s).1
        (w.name, (w.image, (w.user, (w.restart, (w.open_stdin, w.wrapper)))))),
  (
    w.argv,
    (
      (error_if-none _ _).1 ((child_refused_iff s.child).1 w.child),
      (
        (error_if-not _ _).1 w.same_environment,
        (
          (valid_health-IsHealthy s.health).1 w.health,
          (
            (error_if-none _ _).1 ((key_count_iff s.keys).1 w.key_count),
            (
              (keys_iff s.environment s.keys).1 (w.keys, (w.key_names, w.key_variables)),
              (
                (error_if-not _ _).1 (
                    (names_rise-IsNames (λ d. str_eq d s.name) s.dependencies).1
                      (w.dependencies, (no_self_iff s.name s.dependencies).1 w.no_self)),
                (
                  (error_if-not _ _).1 (
                      (names_rise-IsNames (λ _. false) s.networks).1
                        (w.networks, all_false s.networks)),
                  (
                    (check_environment-All s.environment).1 w.environment,
                    ((check_labels-All s.labels).1 w.labels, tt),
                  ),
                ),
              ),
            ),
          ),
        ),
      ),
    ),
  ),
)

pub validate_service-IsService :
    (s : ServiceAuthority) → (validate_service_authority s ≡ none) ↔ IsService s
validate_service-IsService s = (service_valid s, service_accepted s)

abbrev pub service_name : ServiceAuthority → Str
service_name s = s.name

pub services_rise_iff :
    (last : Str) (ss : List ServiceAuthority)
    → (services_rise last ss ≡ true) ↔ (
        All IsService ss × (IsBelow last (map service_name ss) × IsAscending (map service_name ss)))
unfolding services_rise
services_rise_iff last [] = (λ _. (tt, (tt, tt)), λ _. refl)
services_rise_iff last (s ∷ ss) = ground (
  arith,
  validate_service-IsService s,
  is_some_iff (validate_service_authority s),
  services_rise_iff s.name ss,
  IsBelow-cons last s.name (map service_name ss),
)
