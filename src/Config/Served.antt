-- ===== src/Config/Served.antt =====
-- What flags can serve, of internal/config/ephemeral.go, and the first of several texts that is given.
use skret.Base.{
  true, Option, sym, subst, Option-cases, inl, inr, Bool-cases, ◌⊎◌, List, ◌++◌, str_eq_iff, ◌≡◌,
  refl, false, ◌∷◌, [], none, some, Str, codes, is_empty, str_eq, arith,
}
use skret.Config.{
  ConfigError, path_required, file_required, Environment, validate_environment, first_non_empty,
}
use skret.Config.Resolve.{ResolveOpts}

-- The first text of the list that is not empty, or the empty text where there is none
pub data Preferred : List Str → Str → Type 0 where
  none_given : Preferred [] []
  here : (v : Str) {vs : List Str} → is_empty v ≡ false → Preferred (v ∷ vs) v
  later : {vs : List Str} {w : Str} → Preferred vs w → Preferred ([] ∷ vs) w

pub first_non_empty-Preferred : (vs : List Str) → Preferred vs (first_non_empty vs)
unfolding first_non_empty
first_non_empty-Preferred [] = none_given
first_non_empty-Preferred ([] ∷ vs) = later (first_non_empty-Preferred vs)
first_non_empty-Preferred ((c ∷ v) ∷ vs) = here (c ∷ v) refl

pub Preferred-first_non_empty : {vs : List Str} {w : Str} → Preferred vs w → w ≡ first_non_empty vs
unfolding first_non_empty
Preferred-first_non_empty none_given = refl
Preferred-first_non_empty (here v q) = rw q refl
Preferred-first_non_empty (later p) = Preferred-first_non_empty p

pub single_given : (v : Str) → first_non_empty (v ∷ []) ≡ v
unfolding first_non_empty
single_given [] = refl
single_given (c ∷ v) = refl

pub twice_given : (v : Str) → first_non_empty (v ∷ v ∷ []) ≡ v
unfolding first_non_empty
twice_given [] = refl
twice_given (c ∷ v) = refl

-- The choice from the list is the same where it stands for what is behind some of it.
pub first_again :
    (vs us : List Str)
    → first_non_empty (vs ++ first_non_empty (vs ++ us) ∷ []) ≡ first_non_empty (vs ++ us)
unfolding first_non_empty
first_again [] us = single_given (first_non_empty us)
first_again ([] ∷ vs) us = first_again vs us
first_again ((c ∷ v) ∷ vs) us = refl

pub last_given :
    (a b c : Str) → is_empty c ≡ false → is_empty (first_non_empty (a ∷ b ∷ c ∷ [])) ≡ false
unfolding first_non_empty
last_given [] [] c h = ground (arith, h)
last_given [] (x ∷ b) c h = refl
last_given (x ∷ a) b c h = refl

-- What the flags must name: a path for aws, a file for local, which are the only providers that
-- flags can serve.
abbrev pub IsServed : Str → ResolveOpts → Type 0
IsServed provider opts =
    ((provider ≡ codes "aws") × (is_empty opts.path ≡ false))
    ⊎ ((provider ≡ codes "local") × (is_empty opts.file ≡ false))

-- The environment of the flags, by its provider
abbrev flag_env : ResolveOpts → Str → Str → Str → Environment
flag_env opts region profile provider = record {
  provider = provider;
  path = opts.path;
  region = region;
  profile = profile;
  kms_key_id = [];
  file = opts.file;
  project = [];
  encrypted = false;
  audit_log = [];
  compartment_id = [];
  vault_id = [];
  key_id = [];
  vault_url = [];
  vault_name = [];
}

-- The check of the environment accepts it exactly where the flags can serve the provider.
abbrev pub IsDecided : ResolveOpts → Str → Str → Option ConfigError → Type 0
IsDecided opts name provider verdict =
    ((verdict ≡ none) × IsServed provider opts)
    ⊎ ((x : ConfigError) × (verdict ≡ some x) × (IsServed provider opts → true ≡ false))

module _ (opts : ResolveOpts) (name region profile : Str) where
  abbrev pub verdict : Str → Option ConfigError
  verdict provider = validate_environment (flag_env opts region profile provider) name

  aws-IsDecided : IsDecided opts name (codes "aws") (verdict (codes "aws"))
  unfolding validate_environment str_eq
  aws-IsDecided = elim (Bool-cases (is_empty opts.path)) [
    | inl q ↦ rw q (inr (path_required name, refl, λ s. ground (arith, q, s)))
    | inr q ↦ rw q (inl (refl, inl (refl, refl)))
  ]

  local-IsDecided : IsDecided opts name (codes "local") (verdict (codes "local"))
  unfolding validate_environment str_eq
  local-IsDecided = elim (Bool-cases (is_empty opts.file)) [
    | inl q ↦ rw q (inr (file_required name, refl, λ s. ground (arith, q, s)))
    | inr q ↦ rw q (inl (refl, inr (refl, refl)))
  ]

  other-IsDecided :
      (provider : Str)
      → str_eq provider (codes "aws") ≡ false
      → str_eq provider (codes "local") ≡ false
      → IsDecided opts name provider (verdict provider)
  unfolding validate_environment
  other-IsDecided provider q r = elim (Option-cases (verdict provider)) [
    | inl n ↦ absurd (ground (arith, n, q, r))
    | inr (x, e) ↦ inr (
      x,
      e,
      λ s.
          ground (
            arith,
            s,
            q,
            r,
            str_eq_iff provider (codes "aws"),
            str_eq_iff provider (codes "local"),
          ),
    )
  ]

  pub decided : (provider : Str) → IsDecided opts name provider (verdict provider)
  decided provider = elim (Bool-cases (str_eq provider (codes "aws"))) [
    | inl q ↦
        subst (λ p. IsDecided opts name p (verdict p))
          (sym ((str_eq_iff provider (codes "aws")).0 q)) aws-IsDecided
    | inr q ↦ elim (Bool-cases (str_eq provider (codes "local"))) [
      | inl r ↦
          subst (λ p. IsDecided opts name p (verdict p))
            (sym ((str_eq_iff provider (codes "local")).0 r)) local-IsDecided
      | inr r ↦ other-IsDecided provider q r
    ]
  ]
