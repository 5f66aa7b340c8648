-- ===== src/Config.antt =====
-- internal/config: the schema of .skret.yaml and its checks, and how flags, variables and the file
-- become one configuration. Nil slices are empty ones. `os.Getenv` and the acceptance of a webhook
-- by `url.Parse` are parameters; loading the YAML text is left out.
pub mod Keys
pub mod Paths
pub mod Recovered
pub mod Resolve
pub mod Served
pub mod Ephemeral
mod Tests
use skret.Base.{
  ℕ, zero, suc, Bool, true, false, not, ◌&&◌, ◌||◌, List, [], ◌∷◌, ◌++◌, Option, none, some, Str,
  Map, codes, ◌==◌, ltb, if◌then◌else◌, is_empty, has_prefix, str_eq, length, lookup, drop,
  trim_right, sort_strings, map,
}

-- `Environment`
pub record Environment : Type 0 where
  pub provider : Str
  pub path : Str
  pub region : Str
  pub profile : Str
  pub kms_key_id : Str
  pub file : Str
  pub project : Str
  pub encrypted : Bool
  pub audit_log : Str
  pub compartment_id : Str
  pub vault_id : Str
  pub key_id : Str
  pub vault_url : Str
  pub vault_name : Str

-- The fields of `SyncTarget` that its check reads
pub record SyncTarget : Type 0 where
  pub type : Str
  pub repo : Str
  pub worker : Str
  pub pages : Str
  pub project : Str

-- `NotifyConfig`
pub record NotifyConfig : Type 0 where
  pub webhook_urls : List Str
  pub events : List Str
  pub secret : Str

-- `Config`, with the targets of its sync block and the allowed environments of its mcp block
pub record Config : Type 0 where
  pub version : Str
  pub default_env : Str
  pub project : Str
  pub environments : Map Environment
  pub required : List Str
  pub exclude : List Str
  pub sync : Option (List SyncTarget)
  pub notify : Option NotifyConfig
  pub mcp : Option (List Str)

-- One constructor for each text of an error, with the names that it shows.
pub data ConfigError : Type 0 where
  version_required no_environments : ConfigError
  unsupported_version default_env_missing : Str → ConfigError
  provider_required path_required project_required path_not_empty file_required : Str → ConfigError
  vault_required compartment_required vault_id_required : Str → ConfigError
  unknown_provider : Str → Str → ConfigError
  github_repo cloudflare_place cloudflare_both gitlab_project : ConfigError
  unknown_target webhook_invalid unknown_event env_not_allowed : Str → ConfigError
  webhook_required no_environment : ConfigError
  environment_missing : Str → List Str → ConfigError

-- `if b { return e }` before other checks
abbrev pub or_else {ℓ} : {A : Type ℓ} → Bool → A → Option A → Option A
or_else true e rest = some e
or_else false e rest = rest

abbrev pub first {ℓ} : {A : Type ℓ} → Option A → Option A → Option A
first none rest = rest
first (some e) rest = some e

-- `(*Environment).validate`
unfoldable pub validate_environment : Environment → Str → Option ConfigError
validate_environment e name = or_else (is_empty e.provider) (provider_required name) (
    if str_eq e.provider (codes "aws")
    then or_else (is_empty e.path) (path_required name) none
    else if str_eq e.provider (codes "gcp")
    then or_else (is_empty e.project) (project_required name)
        (or_else (not (is_empty e.path)) (path_not_empty name) none)
    else if str_eq e.provider (codes "local")
    then or_else (is_empty e.file) (file_required name) none
    else if str_eq e.provider (codes "azure")
    then or_else (is_empty e.vault_url && is_empty e.vault_name) (vault_required name) none
    else if str_eq e.provider (codes "oci")
    then or_else (is_empty e.compartment_id) (compartment_required name)
        (or_else (is_empty e.vault_id) (vault_id_required name) none)
    else some (unknown_provider name e.provider))

-- `(*SyncTarget).validate`
unfoldable pub validate_target : SyncTarget → Option ConfigError
validate_target t =
    if str_eq t.type (codes "github")
    then or_else (is_empty t.repo) github_repo none
    else if str_eq t.type (codes "cloudflare")
    then or_else (is_empty t.worker && is_empty t.pages) cloudflare_place
        (or_else (not (is_empty t.worker) && not (is_empty t.pages)) cloudflare_both none)
    else if str_eq t.type (codes "gitlab")
    then or_else (is_empty t.project) gitlab_project none
    else if str_eq t.type (codes "terraform")
        || str_eq t.type (codes "k8s")
        || str_eq t.type (codes "k8s-manifest")
        || str_eq t.type (codes "dotenv")
    then none
    else some (unknown_target t.type)

-- The first error of a loop of checks
unfoldable pub first_of {ℓ} : {A : Type ℓ} → (A → Option ConfigError) → List A → Option ConfigError
first_of check [] = none
first_of check (x ∷ xs) = first (check x) (first_of check xs)

-- `ValidNotifyEvent`
abbrev pub valid_event : Str → Bool
valid_event e =
    str_eq e (codes "set")
    || str_eq e (codes "delete")
    || str_eq e (codes "rotate")
    || str_eq e (codes "sync")

abbrev pub is_declared : Option Environment → Bool
is_declared none = false
is_declared (some _) = true

-- `(*MCPConfig).validate`
unfoldable pub validate_mcp : List Str → Map Environment → Option ConfigError
unfolding first_of lookup
validate_mcp names envs =
    first_of (λ name. or_else (not (is_declared (lookup name envs))) (env_not_allowed name) none)
      names

abbrev pub if_present {ℓ} : {A : Type ℓ} → Option A → (A → Option ConfigError) → Option ConfigError
if_present none check = none
if_present (some a) check = check a

module _ (is_http_url : Str → Bool) where
  -- `(*NotifyConfig).validate`
  unfoldable pub validate_notify : NotifyConfig → Option ConfigError
  unfolding first_of
  validate_notify n = or_else (length n.webhook_urls == 0) webhook_required (
      first (first_of (λ u. or_else (not (is_http_url u)) (webhook_invalid u) none) n.webhook_urls)
        (first_of (λ e. or_else (not (valid_event e)) (unknown_event e) none) n.events))

  -- `(*Config).Validate`
  unfoldable pub validate_config : Config → Option ConfigError
  unfolding validate_target first_of validate_notify validate_mcp lookup
  validate_config c = or_else (is_empty c.version) version_required (
      or_else (not (str_eq c.version (codes "1"))) (unsupported_version c.version) (
        or_else (length c.environments == 0) no_environments (
          or_else
            (not (is_empty c.default_env)
              && not (is_declared (lookup c.default_env c.environments)))
            (default_env_missing c.default_env)
            (first (if_present c.sync (first_of validate_target)) (
              first (if_present c.notify validate_notify)
                (if_present c.mcp (λ names. validate_mcp names c.environments)))))))

-- `firstNonEmpty`
unfoldable pub first_non_empty : List Str → Str
first_non_empty [] = []
first_non_empty (v ∷ vs) = let rest = first_non_empty vs in if is_empty v then rest else v

-- `len(p) >= 2 && p[1] == ':'`
abbrev pub drive_letter : Str → Bool
drive_letter (_ ∷ c ∷ _) = c == b':'
drive_letter _ = false

-- `NormalizeSSMPath`
unfoldable pub normalize_path : Str → Str
unfolding has_prefix
normalize_path p =
    if is_empty p || has_prefix p (codes "/") then p else if drive_letter p then p else b'/' ∷ p
