-- ===== src/Config/Ephemeral.antt =====
-- Commands without a file: `EphemeralConfig` of internal/config/ephemeral.go and `Resolve`.
use skret.Config.Served.{
  Preferred, first_non_empty-Preferred, Preferred-first_non_empty, twice_given, first_again,
  last_given, IsServed, decided,
}
use skret.Base.{
  ap, true, sym, subst, ◌∙◌, inl, inr, ◌⊎◌, ◌≡◌, refl, ℕ, Bool, ◌&&◌, ◌==◌, false, ◌∷◌, [], none,
  some, Str, codes, is_empty, lookup, str_eq, str_eq_refl, if◌then◌else◌,
}
use skret.Config.Paths.{resolve_path}
use skret.Config.{
  ConfigError, normalize_path, Config, Environment, validate_environment, validate_config,
  first_non_empty,
}
use skret.Config.Resolve.{
  ResolvedConfig, combine, ResolveOpts, chosen_env, resolve, checked, ephemeral_env, ephemeral_name,
  ephemeral_config,
}

lookup_single : (name : Str) (e : Environment) → lookup name ((name, e) ∷ []) ≡ some e
unfolding lookup
lookup_single name e = rw (str_eq_refl name) refl

name_kept :
    (n : ℕ) (only a b : Str)
    → a ≡ b
    → is_empty b ≡ false
    → (if is_empty a && n == 1 then only else a) ≡ b
name_kept n only a b q h = rw (q, h) refl

validate_single :
    (is_http_url : Str → Bool) (name : Str) (e : Environment)
    → is_empty name ≡ false
    → validate_config is_http_url (record {
      version = codes "1";
      default_env = name;
      project = [];
      environments = (name, e) ∷ [];
      required = [];
      exclude = [];
      sync = none;
      notify = none;
      mcp = none;
    })
      ≡ none
unfolding validate_config str_eq
validate_single is_http_url name e h = rw (lookup_single name e, h) refl

module _ (getenv : Str → Str) where
  name_given : (opts : ResolveOpts) → is_empty (ephemeral_name getenv opts) ≡ false
  unfolding ephemeral_name
  name_given opts = last_given opts.env (getenv (codes "SKRET_ENV")) (codes "prod") refl

  chosen_lem :
      (opts : ResolveOpts)
      → chosen_env getenv (ephemeral_config getenv opts) opts ≡ ephemeral_name getenv opts
  unfolding chosen_env ephemeral_config ephemeral_name
  chosen_lem opts =
      name_kept 1 (ephemeral_name getenv opts)
        (first_non_empty (opts.env ∷ getenv (codes "SKRET_ENV") ∷ ephemeral_name getenv opts ∷ []))
        (ephemeral_name getenv opts)
        (first_again (opts.env ∷ getenv (codes "SKRET_ENV") ∷ []) (codes "prod" ∷ []))
        (name_given opts)

  resolve_found :
      (c : Config) (opts : ResolveOpts) (name : Str) (e : Environment)
      → chosen_env getenv c opts ≡ name
      → is_empty name ≡ false
      → lookup name c.environments ≡ some e
      → resolve getenv c opts ≡ checked getenv c opts name e (validate_environment e name)
  unfolding resolve
  resolve_found c opts name e q h l = rw (q, h, l) refl

-- What the flags and the variables make of the configuration
pub record IsCombined (getenv : Str → Str) (opts : ResolveOpts) (r : ResolvedConfig) : Type 0 where
  pub named : Preferred (opts.env ∷ getenv (codes "SKRET_ENV") ∷ codes "prod" ∷ []) r.env_name
  pub provided :
      Preferred (opts.provider ∷ getenv (codes "SKRET_PROVIDER") ∷ codes "aws" ∷ []) r.provider
  pub flag_path : Str
  pub found_path :
      Preferred
        ((resolve_path opts.path).0 ∷ getenv (codes "SKRET_PATH") ∷ opts.path ∷ [])
        flag_path
  pub normalized : r.path ≡ normalize_path flag_path
  pub mangled : r.path_mangled ≡ (resolve_path opts.path).1
  pub regional :
      Preferred
        (opts.region ∷ getenv (codes "SKRET_REGION") ∷ getenv (codes "AWS_REGION") ∷ [])
        r.region
  pub profiled :
      Preferred
        (opts.profile ∷ getenv (codes "SKRET_PROFILE") ∷ getenv (codes "AWS_PROFILE") ∷ [])
        r.profile
  pub filed : r.file ≡ opts.file

module _ (getenv : Str → Str) where
  combine-IsCombined :
      (opts : ResolveOpts)
      → IsCombined getenv opts (
          combine getenv
            (ephemeral_config getenv opts)
            opts
            (ephemeral_name getenv opts)
            (ephemeral_env getenv opts))
  unfolding combine ephemeral_name ephemeral_env
  combine-IsCombined opts = record {
    named = first_non_empty-Preferred (opts.env ∷ getenv (codes "SKRET_ENV") ∷ codes "prod" ∷ []);
    provided =
        subst (Preferred (opts.provider ∷ getenv (codes "SKRET_PROVIDER") ∷ codes "aws" ∷ []))
          (sym
            (first_again (opts.provider ∷ getenv (codes "SKRET_PROVIDER") ∷ []) (codes "aws" ∷ [])))
          (first_non_empty-Preferred
            (opts.provider ∷ getenv (codes "SKRET_PROVIDER") ∷ codes "aws" ∷ []));
    flag_path =
        first_non_empty ((resolve_path opts.path).0 ∷ getenv (codes "SKRET_PATH") ∷ opts.path ∷ []);
    found_path =
        first_non_empty-Preferred
          ((resolve_path opts.path).0 ∷ getenv (codes "SKRET_PATH") ∷ opts.path ∷ []);
    normalized = refl;
    mangled = refl;
    regional =
        subst
          (Preferred
            (opts.region ∷ getenv (codes "SKRET_REGION") ∷ getenv (codes "AWS_REGION") ∷ []))
          (sym (
            first_again
              (opts.region ∷ getenv (codes "SKRET_REGION") ∷ getenv (codes "AWS_REGION") ∷ []) []))
          (first_non_empty-Preferred
            (opts.region ∷ getenv (codes "SKRET_REGION") ∷ getenv (codes "AWS_REGION") ∷ []));
    profiled =
        subst
          (Preferred
            (opts.profile ∷ getenv (codes "SKRET_PROFILE") ∷ getenv (codes "AWS_PROFILE") ∷ []))
          (sym (
            first_again
              (opts.profile ∷ getenv (codes "SKRET_PROFILE") ∷ getenv (codes "AWS_PROFILE") ∷ [])
              []))
          (first_non_empty-Preferred
            (opts.profile ∷ getenv (codes "SKRET_PROFILE") ∷ getenv (codes "AWS_PROFILE") ∷ []));
    filed = twice_given opts.file;
  }

  combined_provider :
      (opts : ResolveOpts)
      → (combine getenv
          (ephemeral_config getenv opts)
          opts
          (ephemeral_name getenv opts)
          (ephemeral_env getenv opts)).provider
        ≡ (ephemeral_env getenv opts).provider
  unfolding combine ephemeral_env
  combined_provider opts =
      first_again (opts.provider ∷ getenv (codes "SKRET_PROVIDER") ∷ []) (codes "aws" ∷ [])

  -- The configuration that commands make of their flags passes Validate. Under the same flags,
  -- Resolve returns a configuration where the provider is aws and the flags give a path, or local
  -- and the flags give a file, and an error everywhere else. What it returns takes the name of the
  -- environment, the provider, the path, the region and the profile from the first place that gives
  -- one: the flag, the variables, the default; the path is the flag as ResolvePath reads it, and is
  -- normalized.
  pub ephemeral_resolves :
      (is_http_url : Str → Bool) (opts : ResolveOpts)
      → let c = ephemeral_config getenv opts in
        let provider = (ephemeral_env getenv opts).provider in
        (validate_config is_http_url c ≡ none)
        × (((r : ResolvedConfig) × (resolve getenv c opts ≡ inr r)
              × IsCombined getenv opts r
              × IsServed r.provider opts)
            ⊎ ((x : ConfigError) × (resolve getenv c opts ≡ inl x)
                × ((p : Str)
                    → Preferred
                        (opts.provider ∷ getenv (codes "SKRET_PROVIDER") ∷ codes "aws" ∷ [])
                        p
                    → IsServed p opts
                    → true ≡ false)))
  unfolding checked ephemeral_config ephemeral_env
  ephemeral_resolves is_http_url opts =
      let c = ephemeral_config getenv opts in
      let name = ephemeral_name getenv opts in
      let e = ephemeral_env getenv opts in
      let found =
        resolve_found getenv c opts name e (chosen_lem getenv opts) (name_given getenv opts)
          (lookup_single name e) in
      let given = opts.provider ∷ getenv (codes "SKRET_PROVIDER") ∷ codes "aws" ∷ [] in
      (
        validate_single is_http_url name e (name_given getenv opts),
        elim (decided opts name e.region e.profile e.provider) [
          | inl (accepted, served) ↦ inl (
            combine getenv c opts name e,
            found ∙ ap (checked getenv c opts name e) accepted,
            combine-IsCombined opts,
            subst (λ p. IsServed p opts) (sym (combined_provider opts)) served,
          )
          | inr (x, refused, unserved) ↦ inr (
            x,
            found ∙ ap (checked getenv c opts name e) refused,
            λ p preferred served.
                unserved
                  (subst (λ z. IsServed z opts) (Preferred-first_non_empty preferred) served),
          )
        ],
      )
