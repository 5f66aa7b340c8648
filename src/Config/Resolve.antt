-- ===== src/Config/Resolve.antt =====
-- `Resolve` of internal/config/resolver.go and `EphemeralConfig` of internal/config/ephemeral.go;
-- `os.Getenv` is a parameter.
use skret.Base.{
  Bool, false, ◌&&◌, List, [], ◌∷◌, Option, none, some, Str, Map, codes, ◌==◌, if◌then◌else◌,
  is_empty, length, lookup, sort_strings, map, ◌⊎◌, inl, inr,
}
use skret.Config.{
  Environment, Config, NotifyConfig, ConfigError, no_environment, environment_missing,
  validate_environment, first_non_empty, normalize_path,
}
use skret.Config.Paths.{resolve_path}

-- `ResolveOpts`
pub record ResolveOpts : Type 0 where
  pub env : Str
  pub provider : Str
  pub path : Str
  pub region : Str
  pub profile : Str
  pub file : Str

-- `ResolvedConfig`
pub record ResolvedConfig : Type 0 where
  pub env_name : Str
  pub provider : Str
  pub path : Str
  pub path_mangled : Bool
  pub region : Str
  pub profile : Str
  pub kms_key_id : Str
  pub file : Str
  pub project : Str
  pub encrypted : Bool
  pub audit_log : Str
  pub compartment_id : Str
  pub vault_id : Str
  pub key_id : Str
  pub vault_url : Str
  pub vault_name : Str
  pub required : List Str
  pub exclude : List Str
  pub notify : Option NotifyConfig

-- The name of the environment, where there is one only.
abbrev pub only_name : Map Environment → Str
only_name ((name, _) ∷ []) = name
only_name _ = []

-- `envNames`
abbrev pub env_names : Map Environment → List Str
unfolding sort_strings
env_names environments = sort_strings (map (λ (e : Str × Environment). e.0) environments)

module _ (getenv : Str → Str) where
  -- The choice of the environment in `Resolve`
  unfoldable pub chosen_env : Config → ResolveOpts → Str
  unfolding first_non_empty
  chosen_env c opts =
      let name = first_non_empty (opts.env ∷ getenv (codes "SKRET_ENV") ∷ c.default_env ∷ []) in
      if is_empty name && length c.environments == 1 then only_name c.environments else name

  -- The configuration that `Resolve` returns for an environment
  unfoldable pub combine : Config → ResolveOpts → Str → Environment → ResolvedConfig
  unfolding first_non_empty normalize_path resolve_path
  combine c opts name e =
      let flag = resolve_path opts.path in
      record {
        env_name = name;
        provider =
            first_non_empty (opts.provider ∷ getenv (codes "SKRET_PROVIDER") ∷ e.provider ∷ []);
        path =
            normalize_path (first_non_empty (flag.0 ∷ getenv (codes "SKRET_PATH") ∷ e.path ∷ []));
        path_mangled = flag.1;
        region = first_non_empty (
            opts.region
            ∷ getenv (codes "SKRET_REGION")
            ∷ getenv (codes "AWS_REGION")
            ∷ e.region
            ∷ []);
        profile = first_non_empty (
            opts.profile
            ∷ getenv (codes "SKRET_PROFILE")
            ∷ getenv (codes "AWS_PROFILE")
            ∷ e.profile
            ∷ []);
        kms_key_id = e.kms_key_id;
        file = first_non_empty (opts.file ∷ e.file ∷ []);
        project = first_non_empty (getenv (codes "GOOGLE_CLOUD_PROJECT") ∷ e.project ∷ []);
        encrypted = e.encrypted;
        audit_log = e.audit_log;
        compartment_id = e.compartment_id;
        vault_id = e.vault_id;
        key_id = e.key_id;
        vault_url = e.vault_url;
        vault_name = e.vault_name;
        required = c.required;
        exclude = c.exclude;
        notify = c.notify;
      }

  unfoldable pub checked :
      Config → ResolveOpts → Str → Environment → Option ConfigError → ConfigError ⊎ ResolvedConfig
  unfolding combine
  checked c opts name e (some refused) = inl refused
  checked c opts name e none = inr (combine c opts name e)

  abbrev pub found : Config → ResolveOpts → Str → Option Environment → ConfigError ⊎ ResolvedConfig
  unfolding checked validate_environment
  found c opts name none = inl (environment_missing name (env_names c.environments))
  found c opts name (some e) = checked c opts name e (validate_environment e name)

  -- `Resolve`
  unfoldable pub resolve : Config → ResolveOpts → ConfigError ⊎ ResolvedConfig
  unfolding chosen_env lookup found
  resolve c opts =
      let name = chosen_env c opts in
      if is_empty name then inl no_environment else found c opts name (lookup name c.environments)

  -- The environment of `EphemeralConfig`
  unfoldable pub ephemeral_env : ResolveOpts → Environment
  unfolding first_non_empty
  ephemeral_env opts = record {
    provider = first_non_empty (opts.provider ∷ getenv (codes "SKRET_PROVIDER") ∷ codes "aws" ∷ []);
    path = opts.path;
    region =
        first_non_empty
          (opts.region ∷ getenv (codes "SKRET_REGION") ∷ getenv (codes "AWS_REGION") ∷ []);
    profile =
        first_non_empty
          (opts.profile ∷ getenv (codes "SKRET_PROFILE") ∷ getenv (codes "AWS_PROFILE") ∷ []);
    kms_key_id = [];
    file = opts.file;
    project = [];
    encrypted = false;
    audit_log = [];
    compartment_id = [];
    vault_id = [];
    key_id = [];
    vault_url = [];
    vault_name = [];
  }

  unfoldable pub ephemeral_name : ResolveOpts → Str
  unfolding first_non_empty
  ephemeral_name opts = first_non_empty (opts.env ∷ getenv (codes "SKRET_ENV") ∷ codes "prod" ∷ [])

  -- `EphemeralConfig`
  unfoldable pub ephemeral_config : ResolveOpts → Config
  unfolding ephemeral_env ephemeral_name
  ephemeral_config opts =
      let name = ephemeral_name opts in
      record {
        version = codes "1";
        default_env = name;
        project = [];
        environments = (name, ephemeral_env opts) ∷ [];
        required = [];
        exclude = [];
        sync = none;
        notify = none;
        mcp = none;
      }
