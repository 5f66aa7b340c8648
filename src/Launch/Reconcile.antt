-- ===== src/Launch/Reconcile.antt =====
-- `Reconcile` of internal/secretlaunch/supervisor.go as a whole, and `ScavengeOrphans`.
use skret.Base.{
  ℕ, Bool, true, false, not, ◌&&◌, ◌||◌, List, [], ◌∷◌, ◌++◌, Option, none, some, Str, Map, map,
  ◌==◌, if◌then◌else◌, is_empty, str_eq, length, lookup, insert, sort_strings, ℤ,
}
use skret.Launch.Data.{ServiceAuthority, Manifest, key_name}
use skret.Launch.Fields.{LaunchError, fail, err_runtime, err_binding, read}
use skret.Launch.Signed.{Reply, returned, failed}
use skret.Launch.Trust.{Crypto}
use skret.Launch.Model.{ServiceSpec, RenderedModel, validate_manifest_model}
use skret.Launch.Authority.{validate_at, is_some, is_among}
use skret.Launch.Labels.{
  service_label, scope_labels, exact_labels, owned_in_scope, older_owned, current_owned,
}
use skret.Launch.Order.{Visit, done, runtime_error, out_of_fuel, order_services}
use skret.Launch.Supervisor.{
  Container, rendered, fetched, Runtime, State, Action, ◌>>=◌, pure, throw, note, error_as,
  Reconciled, Pending, list_containers, inspect, remove_all, launch_all,
}

abbrev pub require : Option LaunchError → Action (Unit {0})
require o s = (error_as o, s)

abbrev pub require_order : Visit → Action (List ServiceSpec)
require_order (done t) s = (returned t.ordered, s)
require_order runtime_error s = (failed (fail err_runtime), s)
require_order out_of_fuel s = (failed (fail err_runtime), s)

unfoldable pub by_name_from : Map ServiceSpec → List ServiceSpec → Map ServiceSpec
unfolding insert
by_name_from m [] = m
by_name_from m (x ∷ xs) = by_name_from (insert x.name x m) xs

unfoldable pub authorities_from :
    Map ServiceAuthority → List ServiceAuthority → Map ServiceAuthority
unfolding insert
authorities_from m [] = m
authorities_from m (x ∷ xs) = authorities_from (insert x.name x m) xs

unfoldable pub all_known : Map ServiceSpec → List Str → Bool
unfolding lookup
all_known all [] = true
all_known all (d ∷ ds) = is_some (lookup d all) && all_known all ds

-- `validateDependencies`
unfoldable pub validate_dependencies : List ServiceSpec → Map ServiceSpec → Option LaunchError
unfolding all_known
validate_dependencies [] all = none
validate_dependencies (x ∷ xs) all =
    let rest = validate_dependencies xs all in
    if all_known all x.dependencies then rest else some (fail err_runtime)

-- `uniqueStrings`, behind `last`
unfoldable pub unique_strings : Str → List Str → List Str
unique_strings last [] = []
unique_strings last (x ∷ xs) =
    let rest = unique_strings x xs in
    elim (str_eq x last) [ true ↦ unique_strings last xs | false ↦ x ∷ rest ]

module _ {A : Type 0} where
  unfoldable pub keep : (A → Bool) → List A → List A
  keep test [] = []
  keep test (x ∷ xs) = let rest = keep test xs in if test x then x ∷ rest else rest

abbrev is_other : Option ServiceSpec → Str → Bool
is_other none name = true
is_other (some wanted) name = not (str_eq name wanted.name)

module _ (crypto : Crypto) (m : Manifest) where
  -- Belongs the container to the service, of this generation or an older one?
  abbrev pub is_match : ServiceSpec → Container → Bool
  is_match x c =
      str_eq c.name x.name
      && (str_eq (read c.labels service_label) x.name || is_empty (read c.labels service_label))
      && (current_owned crypto c.labels m x.name
          || older_owned c.labels (scope_labels m) x m.generation)

  -- Is the container owned, but of no service of the model?
  abbrev pub is_stale : Map ServiceSpec → Container → Bool
  is_stale all c =
      owned_in_scope c.labels (scope_labels m) m.generation
      && not (is_empty (read c.labels service_label))
      && is_other (lookup (read c.labels service_label) all) c.name

  abbrev pub is_current : Str → Reply Container → Bool
  is_current name (failed e) = false
  is_current name (returned c) = c.running && c.healthy && current_owned crypto c.labels m name

module _ (crypto : Crypto) (digest : Str → List ServiceSpec → Str) (runtime : Runtime) where
  -- `hasSession`
  abbrev pub has_session : Str → State → Bool
  has_session id s = is_among id s.sessions && not (runtime.lost s.log id)

  -- The one container of the service, running and with a session, is asked about its health.
  abbrev pub reusable : Manifest → ServiceSpec → List Container → Action Bool
  reusable m x (c ∷ []) s = elim (c.running && has_session c.id s) [
    | false ↦ (returned false, s)
    | true ↦
        let r = inspect crypto runtime c.id s in
        (returned (is_current crypto m x.name (runtime.inspect s.log c.id)), r.1)
  ]
  reusable m x _ s = (returned false, s)

  abbrev pub sort_one :
      Option ServiceAuthority
      → ServiceSpec
      → List Container
      → List Str × List Pending
      → Bool
      → Action (List Str × List Pending)
  sort_one a x existing before true = pure (before.0 ++ x.name ∷ [], before.1)
  sort_one none x existing before false = throw (fail err_binding)
  sort_one (some a) x existing before false =
      pure (before.0, before.1 ++ (record { service = x; authority = a; old = existing }) ∷ [])

  -- The loop over `ordered`: the names that are reused, and what is pending.
  unfoldable pub sort_out :
      Manifest
      → Map ServiceAuthority
      → List Container
      → List ServiceSpec
      → List Str × List Pending
      → Action (List Str × List Pending)
  unfolding keep lookup
  sort_out m authorities containers [] before = pure before
  sort_out m authorities containers (x ∷ xs) before = do
    reuse ← reusable m x (keep (is_match crypto m x) containers)
    next ←
        sort_one (lookup x.name authorities) x (keep (is_match crypto m x) containers) before reuse
    sort_out m authorities containers xs next

  -- The loop of `FetchSecrets` calls: the names of all keys.
  unfoldable pub fetch_all : List Pending → Action (List Str)
  fetch_all [] = pure []
  fetch_all (p ∷ ps) = do
    _ ← λ s. (error_as (runtime.fetch s.log p.authority.keys), note (fetched p.authority.keys) s)
    rest ← fetch_all ps
    pure (map key_name p.authority.keys ++ rest)

  abbrev pub render : RenderedModel → Action RenderedModel
  render model s = (runtime.render s.log model, note rendered s)

  -- Behind the checks of the rendered model.
  unfoldable pub reconcile_services : Manifest → RenderedModel → List Container → Action Reconciled
  unfolding order_services validate_dependencies by_name_from authorities_from sort_out fetch_all
      unique_strings sort_strings keep remove_all launch_all
  reconcile_services m model containers = do
    ordered ← require_order (order_services model.services)
    _ ← require (validate_dependencies ordered (by_name_from [] model.services))
    sorted ← sort_out m (authorities_from [] m.services) containers ordered ([], [])
    keys ← fetch_all sorted.1
    stale ←
        remove_all crypto runtime
          (keep (is_stale crypto m (by_name_from [] model.services)) containers) 0
    launched ← launch_all crypto runtime m (by_name_from [] model.services) sorted.1 stale
    pure (record {
      created_names = launched.1;
      removed_count = launched.0;
      reused_names = sorted.0;
      fetched_keys = unique_strings [] (sort_strings keys);
    })

  -- `Reconcile` at a Unix time, of a supervisor with a runtime and a provider
  unfoldable pub reconcile : ℤ → RenderedModel → Manifest → Action Reconciled
  unfolding validate_at validate_manifest_model reconcile_services
  reconcile now model m = do
    _ ← require (validate_at m now)
    _ ← require (validate_manifest_model digest m model)
    r ← render model
    _ ← require (validate_manifest_model digest m r)
    containers ← list_containers crypto runtime (scope_labels m)
    reconcile_services m r containers

  -- The loop of `ScavengeOrphans`
  abbrev pub orphans : Map Str → List Container → List Container
  orphans labels = keep (λ c. exact_labels c.labels labels)

  -- `ScavengeOrphans`
  unfoldable pub scavenge_orphans : Map Str → Action ℕ
  unfolding exact_labels keep remove_all
  scavenge_orphans labels = do
    _ ← require (if length labels == 0 then some (fail err_runtime) else none)
    containers ← list_containers crypto runtime labels
    remove_all crypto runtime (orphans labels containers) 0
