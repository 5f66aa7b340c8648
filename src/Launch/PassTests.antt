-- ===== src/Launch/PassTests.antt =====
-- A pass of the supervisor over a runtime that keeps what it creates.
use skret.Base.{
  ℕ, ◌≡◌, refl, true, false, List, [], ◌∷◌, some, none, Str, codes, pos, str_eq, str_lt, lookup,
  insert, sort_strings, has_prefix, any_byte, all_bytes, if◌then◌else◌,
}
use skret.Launch.Fields.{
  valid_key_name, fail_key, evidence_key, first_error, valid_nonce, valid_service_name,
  valid_env_name, valid_digest_text, cut_byte, pinned_image, valid_arguments, contains,
  secret_like_name, read, contains_labels, equal_string_map, fail, err_lifecycle,
}
use skret.Launch.Decimal.{parse_int, format_nat, format_int, valid_provider_version, parse_uint}
use skret.Launch.Authority.{
  valid_health, is_among, check_keys, names_rise, check_environment, check_labels,
  validate_service_authority, services_rise, validate, validate_at,
}
use skret.Launch.Samples.{digest, db, api, sample, crypto}
use skret.Launch.Signed.{Reply, returned, failed}
use skret.Launch.Renewal.{authority_digest}
use skret.Launch.Model.{
  ServiceSpec, RenderedModel, check_secret_keys, check_map, validate_service_spec, check_specs,
  validate_model_structure, spec_of, strs_eq, within_map, specs_eq, all_specs_eq,
  validate_rendered_model, validate_manifest_model,
}
use skret.Launch.Labels.{
  hex, exact_labels, owned_in_scope, older_owned, ownership_labels, launch_labels, current_owned,
}
use skret.Launch.Order.{visit_all, visit, index_from, order_services}
use skret.Launch.Supervisor.{
  Container, Event, created, Runtime, without, close_session, track_session, remove_all,
  check_containers, check_dependencies, launch, launch_all,
}
use skret.Launch.Reconcile.{
  by_name_from, authorities_from, all_known, validate_dependencies, unique_strings, keep, sort_out,
  fetch_all, reconcile_services, reconcile,
}
use skret.Launch.Passes.{unsettled, IsGuarded}
use skret.Launch.Reached.{fresh, calls, rendered_services, reconcile-IsGuarded, reconcile-settled}

executes : ℕ
unfolding valid_key_name fail_key evidence_key first_error valid_nonce valid_service_name
    valid_env_name valid_digest_text cut_byte pinned_image valid_arguments contains secret_like_name
    read contains_labels equal_string_map parse_int format_nat format_int valid_provider_version
    parse_uint valid_health is_among check_keys names_rise check_environment check_labels
    validate_service_authority services_rise validate validate_at authority_digest check_secret_keys
    check_map validate_service_spec check_specs validate_model_structure strs_eq within_map specs_eq
    all_specs_eq validate_rendered_model validate_manifest_model hex exact_labels owned_in_scope
    older_owned ownership_labels launch_labels current_owned visit_all visit index_from
    order_services without close_session track_session remove_all check_containers
    check_dependencies launch launch_all by_name_from authorities_from all_known
    validate_dependencies unique_strings keep sort_out fetch_all reconcile_services reconcile str_eq
    str_lt lookup insert sort_strings has_prefix any_byte all_bytes
executes = 0

abbrev containers : List Event → List Container
containers [] = []
containers (created name labels (returned c) ∷ log) = c ∷ containers log
containers (_ ∷ log) = containers log

abbrev find : Str → List Container → Reply Container
find id [] = failed (fail err_lifecycle)
find id (c ∷ cs) = if str_eq c.id id then returned c else find id cs

-- Send fails for the service that is named.
abbrev runtime : Str → Runtime
runtime broken = record {
  render = λ log model. returned model;
  list = λ log labels. returned (containers log);
  inspect = λ log id. find id (containers log);
  create = λ log spec labels. returned (record {
    id = spec.name;
    name = spec.name;
    labels = labels;
    running = true;
    healthy = true;
  });
  attach = λ log id. none;
  start = λ log id. none;
  remove = λ log id. none;
  fetch = λ log keys. none;
  send = λ log id a. if str_eq id broken then some (fail err_lifecycle) else none;
  lost = λ log id. false;
}

abbrev digest_of : Str → List ServiceSpec → Str
digest_of id services = digest

abbrev model : RenderedModel
model = record {
  runtime_id = sample.runtime_id;
  compose_digest = digest;
  services = spec_of api ∷ spec_of db ∷ [];
}

-- The database starts first, and then the service that depends on it.
pass-creates :
    (reconcile crypto digest_of (runtime []) (pos 1200) model sample (fresh [])).0
    ≡ returned (record {
      created_names = codes "db" ∷ codes "api" ∷ [];
      removed_count = 0;
      reused_names = [];
      fetched_keys = codes "/app/PW" ∷ codes "/app/USER" ∷ [];
    })
unfolding executes
pass-creates = refl

-- A service whose secrets cannot be sent is removed, and the pass fails.
pass-removes :
    (reconcile crypto digest_of
      (runtime (codes "api"))
      (pos 1200)
      model
      sample
      (fresh [])).1.sessions
    ≡ codes "db" ∷ []
unfolding executes
pass-removes = refl

-- A container whose start fails gets no secrets.
pass-unstarted :
    let failing = record (runtime []) { start = λ log id. some (fail err_lifecycle) } in
    (reconcile crypto digest_of failing (pos 1200) model sample (fresh [])).1.sessions ≡ []
unfolding executes
pass-unstarted = refl

reconcile-IsGuarded_example :
    IsGuarded crypto sample
      (rendered_services crypto digest_of (runtime []) sample (pos 1200) model [])
      (calls crypto digest_of (runtime []) sample (pos 1200) model [])
reconcile-IsGuarded_example =
    reconcile-IsGuarded crypto digest_of (runtime []) sample (pos 1200) model []

reconcile-settled_example :
    unsettled (calls crypto digest_of (runtime (codes "api")) sample (pos 1200) model []) ≡ []
reconcile-settled_example =
    reconcile-settled crypto digest_of (runtime (codes "api")) sample (pos 1200) model []
