-- ===== src/Launch/Rules.antt =====
-- What `validate` of a manifest means, without its loops.
use skret.Base.{
  ◌≤◌, ◌<◌, ◌*◌, ◌≡◌, refl, arith, Bool, true, false, List, [], ◌∷◌, Option, none, some, Str, Map,
  map, All, ◌↔◌, str_lt, str_eq_iff, lookup,
}
use skret.Launch.Decimal.{valid_provider_version}
use skret.Launch.Fields.{valid_key_name, valid_service_name, valid_env_name, valid_arguments}
use skret.Launch.Data.{key_name, key_env, ManifestKey, HealthSpec}
use skret.Launch.Authority.{
  times_refused, health_checks, valid_health, heartbeat_refused, is_some, is_among, key_refused,
  check_keys, names_rise,
}
use skret.Launch.Ascending.{
  first_error-All, error_if-none, IsBelow, IsAscending, IsDistinct, IsBelow-cons, IsFresh,
  IsFresh-cons,
}

-- The intervals are not zero, and the deadline of a heartbeat is three of its intervals at least,
-- as numbers: the product does not wrap around.
pub record IsHealthy (h : HealthSpec) : Type 0 where
  pub interval : 0 < h.interval_ms
  pub timeout : 0 < h.timeout_ms
  pub retries : 0 < h.retries
  pub heartbeat : (0 < h.heartbeat_interval_ms) × (h.heartbeat_interval_ms ≤ 300000)
  pub deadline :
      (h.heartbeat_interval_ms * 3 ≤ h.heartbeat_timeout_ms) × (h.heartbeat_timeout_ms ≤ 900000)
  pub command : valid_arguments h.command ≡ none

heartbeat_refused_iff :
    (h : HealthSpec)
    → (heartbeat_refused h ≡ false) ↔ (
        ((0 < h.heartbeat_interval_ms) × (h.heartbeat_interval_ms ≤ 300000))
        × ((h.heartbeat_interval_ms * 3 ≤ h.heartbeat_timeout_ms)
            × (h.heartbeat_timeout_ms ≤ 900000)))
heartbeat_refused_iff h = ground arith

zero_times_iff :
    (h : HealthSpec)
    → (times_refused h ≡ false) ↔ ((0 < h.interval_ms) × ((0 < h.timeout_ms) × (0 < h.retries)))
zero_times_iff h = ground arith

pub valid_health-IsHealthy : (h : HealthSpec) → (valid_health h ≡ none) ↔ IsHealthy h
unfolding valid_health
valid_health-IsHealthy h = (
  λ e.
      let (times, (beats, (command, _))) = (first_error-All (health_checks h)).0 e in
      let (i, (t, r)) = (zero_times_iff h).0 ((error_if-none _ _).0 times) in
      let (hb, d) = (heartbeat_refused_iff h).0 ((error_if-none _ _).0 beats) in
      record {
        interval = i;
        timeout = t;
        retries = r;
        heartbeat = hb;
        deadline = d;
        command = command;
      },
  λ w. (first_error-All (health_checks h)).1 (
    (error_if-none _ _).1 ((zero_times_iff h).1 (w.interval, (w.timeout, w.retries))),
    (
      (error_if-none _ _).1 ((heartbeat_refused_iff h).1 (w.heartbeat, w.deadline)),
      (w.command, tt),
    ),
  ),
)

pub names_rise-IsAscending :
    (refused : Str → Bool) (last : Str) (names : List Str)
    → (names_rise refused last names ≡ true) ↔ (
        All (λ n. (valid_service_name n ≡ true) × (refused n ≡ false)) names
        × (IsBelow last names × IsAscending names))
unfolding names_rise
names_rise-IsAscending refused last [] = (λ _. (tt, (tt, tt)), λ _. refl)
names_rise-IsAscending refused last (n ∷ names) =
    ground (arith, names_rise-IsAscending refused n names, IsBelow-cons last n names)

is_among-All : (x : Str) (ys : List Str) → (is_among x ys ≡ false) ↔ All (λ y. ¬ (y ≡ x)) ys
unfolding is_among
is_among-All x [] = (λ _. tt, λ _. refl)
is_among-All x (y ∷ ys) = ground (arith, str_eq_iff y x, is_among-All x ys)

-- What each key of a service has, whose variables are those of the map.
pub record IsKey (environment : Map Str) (k : ManifestKey) : Type 0 where
  pub name : valid_key_name k.name ≡ true
  pub version : valid_provider_version k.version ≡ true
  pub env : valid_env_name k.env ≡ true
  pub is_new : lookup k.env environment ≡ none

pub is_some_iff : {A : Type 0} (o : Option A) → (is_some o ≡ false) ↔ (o ≡ none)
is_some_iff none = ground arith
is_some_iff (some a) = ground arith

key_refused_iff :
    (m : Map Str) (last : Str) (names : List Str) (k : ManifestKey)
    → (key_refused m last names k ≡ false)
      ↔ (IsKey m k × ((str_lt last k.name ≡ true) × All (λ y. ¬ (y ≡ k.env)) names))
key_refused_iff m last names k =
    ground (arith, is_some_iff (lookup k.env m), is_among-All k.env names)

-- The loop over the keys lets through keys that are valid each, whose names rise from `last` and
-- whose variables are distinct, also from `names`.
pub check_keys_iff :
    (m : Map Str) (last : Str) (names : List Str) (ks : List ManifestKey)
    → (check_keys m last names ks ≡ none) ↔ (
        All (IsKey m) ks
        × ((IsBelow last (map key_name ks) × IsAscending (map key_name ks))
            × (IsFresh names (map key_env ks) × IsDistinct (map key_env ks))))
unfolding check_keys
check_keys_iff m last names [] = (λ _. (tt, ((tt, tt), (tt, tt))), λ _. refl)
check_keys_iff m last names (k ∷ ks) = ground (
  arith,
  key_refused_iff m last names k,
  check_keys_iff m k.name (k.env ∷ names) ks,
  IsBelow-cons last k.name (map key_name ks),
  IsFresh-cons k.env names (map key_env ks),
)
