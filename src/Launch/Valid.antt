-- ===== src/Launch/Valid.antt =====
-- What the loops and the groups of tests in `validateServiceAuthority` of
-- internal/secretlaunch/manifest.go let through.
use skret.Base.{
  ◌≤◌, ◌<◌, ◌≡◌, refl, arith, Bool, true, false, ◌||◌, List, [], ◌∷◌, none, Str, Map, codes, map,
  All, All-map, All-both, ◌↔◌, str_lt, str_eq, str_eq_iff, length, is_empty, has_prefix, ◌==◌, ltb,
}
use skret.Launch.Fields.{
  valid_key_name, valid_service_name, valid_env_name, valid_digest_text, pinned_image, has_nul,
  valid_arguments, secret_like_name, equal_string_map,
}
use skret.Launch.Data.{key_name, key_env, ManifestKey, ChildSpec, ServiceAuthority}
use skret.Launch.Authority.{
  check_keys, names_rise, check_environment, check_labels, identity_refused, child_refused,
}
use skret.Launch.Ascending.{str_lt-empty, IsBelow, IsAscending, IsDistinct, IsFresh-nil}
use skret.Launch.Rules.{IsHealthy, names_rise-IsAscending, IsKey, check_keys_iff, is_some_iff}

-- A variable of the environment that shows no secret.
pub record IsPlainVariable (e : Str × Str) : Type 0 where
  pub name : valid_env_name e.0 ≡ true
  pub plain : secret_like_name e.0 ≡ false
  pub text : has_nul e.1 ≡ false

pub check_environment-All : (m : Map Str) → (check_environment m ≡ none) ↔ All IsPlainVariable m
unfolding check_environment
check_environment-All [] = (λ _. tt, λ _. refl)
check_environment-All ((k, v) ∷ m) = ground (arith, check_environment-All m)

-- A label that shows no secret and is not in the name space of the ownership labels.
pub record IsPlainLabel (e : Str × Str) : Type 0 where
  pub filled : is_empty e.0 ≡ false
  pub foreign : has_prefix e.0 (codes "com.skret.secret-launch") ≡ false
  pub plain : (secret_like_name e.0 ≡ false) × (secret_like_name e.1 ≡ false)
  pub text : (has_nul e.0 ≡ false) × (has_nul e.1 ≡ false)

pub check_labels-All : (m : Map Str) → (check_labels m ≡ none) ↔ All IsPlainLabel m
unfolding check_labels
check_labels-All [] = (λ _. tt, λ _. refl)
check_labels-All ((k, v) ∷ m) = ground (arith, check_labels-All m)

-- Names of services, each above the one before it.
pub record IsNames (names : List Str) : Type 0 where
  pub named : All (λ n. valid_service_name n ≡ true) names
  pub ascending : IsAscending names

pub record IsRunnable (c : ChildSpec) : Type 0 where
  pub argv : valid_arguments c.argv ≡ none
  pub user : (is_empty c.user ≡ false) × (has_nul c.user ≡ false)

pub record IsService (s : ServiceAuthority) : Type 0 where
  pub name : valid_service_name s.name ≡ true
  pub image : pinned_image s.image ≡ true
  pub user : (is_empty s.user ≡ false) × (has_nul s.user ≡ false)
  pub restart : s.restart ≡ codes "no"
  pub open_stdin : s.open_stdin ≡ true
  pub wrapper : valid_digest_text s.wrapper_digest ≡ true
  pub argv : valid_arguments s.argv ≡ none
  pub child : IsRunnable s.child
  pub same_environment : equal_string_map s.child.environment s.environment ≡ true
  pub health : IsHealthy s.health
  pub key_count : (0 < length s.keys) × (length s.keys ≤ 1024)
  pub keys : All (IsKey s.environment) s.keys
  pub key_names : IsAscending (map key_name s.keys)
  pub key_variables : IsDistinct (map key_env s.keys)
  pub dependencies : IsNames s.dependencies
  pub no_self : All (λ d. ¬ (d ≡ s.name)) s.dependencies
  pub networks : IsNames s.networks
  pub environment : All IsPlainVariable s.environment
  pub labels : All IsPlainLabel s.labels

pub valid_service_name-filled : (n : Str) → valid_service_name n ≡ true → str_lt [] n ≡ true
unfolding valid_service_name
valid_service_name-filled n h = (str_lt-empty n).1 (ground (arith, h))

valid_key_name-filled : (n : Str) → valid_key_name n ≡ true → str_lt [] n ≡ true
unfolding valid_key_name
valid_key_name-filled n h = (str_lt-empty n).1 (ground (arith, h))

pub names_rise-IsNames :
    (refused : Str → Bool) (names : List Str)
    → (names_rise refused [] names ≡ true) ↔ (IsNames names × All (λ n. refused n ≡ false) names)
names_rise-IsNames refused names =
    let rise = names_rise-IsAscending refused [] names in
    (
      λ e.
          let (each, (_, up)) = rise.0 e in
          (
            record { named = All-map names (λ n p. p.0) each; ascending = up },
            All-map names (λ n p. p.1) each,
          ),
      λ (ns, kept). rise.1 (
        All-both (λ n. valid_service_name n ≡ true) (λ n. refused n ≡ false) names ns.named kept,
        (All-map names valid_service_name-filled ns.named, ns.ascending),
      ),
    )

pub no_self_iff :
    (x : Str) (names : List Str) → All (λ n. str_eq n x ≡ false) names ↔ All (λ n. ¬ (n ≡ x)) names
no_self_iff x [] = (λ _. tt, λ _. tt)
no_self_iff x (n ∷ names) = ground (arith, str_eq_iff n x, no_self_iff x names)

valid_arguments-filled : (vs : List Str) → valid_arguments vs ≡ none → 0 < length vs
unfolding valid_arguments
valid_arguments-filled [] h = absurd (ground (arith, h))
valid_arguments-filled (v ∷ vs) h = omega arith

pub child_refused_iff : (c : ChildSpec) → (child_refused c ≡ false) ↔ IsRunnable c
child_refused_iff c =
    ground (arith, valid_arguments-filled c.argv, is_some_iff (valid_arguments c.argv))

pub keys_iff :
    (m : Map Str) (ks : List ManifestKey)
    → (check_keys m [] [] ks ≡ none)
      ↔ (All (IsKey m) ks × (IsAscending (map key_name ks) × IsDistinct (map key_env ks)))
keys_iff m ks =
    let each = check_keys_iff m [] [] ks in
    (
      λ e. let (valid, (up, fresh)) = each.0 e in (valid, (up.1, fresh.1)),
      λ (valid, (up, distinct)).
          each.1 (valid, ((filled ks valid, up), (IsFresh-nil (map key_env ks), distinct))),
    )
  where
    filled : (ks : List ManifestKey) → All (IsKey m) ks → IsBelow [] (map key_name ks)
    filled [] _ = tt
    filled (k ∷ ks) (h, hs) = (valid_key_name-filled k.name h.name, filled ks hs)

pub identity_refused_iff :
    (s : ServiceAuthority)
    → (identity_refused s ≡ false) ↔ (
        (valid_service_name s.name ≡ true)
        × ((pinned_image s.image ≡ true)
            × (((is_empty s.user ≡ false) × (has_nul s.user ≡ false))
                × ((s.restart ≡ codes "no")
                    × ((s.open_stdin ≡ true) × (valid_digest_text s.wrapper_digest ≡ true))))))
identity_refused_iff s = ground (arith, str_eq_iff s.restart (codes "no"))

pub key_count_iff :
    (ks : List ManifestKey)
    → (((length ks == 0) || ltb 1024 (length ks)) ≡ false) ↔ ((0 < length ks) × (length ks ≤ 1024))
key_count_iff ks = ground arith
