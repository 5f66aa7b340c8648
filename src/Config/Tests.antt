-- ===== src/Config/Tests.antt =====
-- Runs of the configuration's functions, and the theorems at concrete inputs.
use skret.Base.{
  false, inl, inr, ◌⊎◌, ◌≡◌, refl, true, false, none, some, [], ◌∷◌, ◌++◌, Str, codes,
  if◌then◌else◌, str_eq, Bool, has_prefix, all_bytes, arith,
}
use skret.Config.{validate_target, cloudflare_both, validate_config, normalize_path}
use skret.Config.Keys.{resolve_key, resolve_key_idempotent}
use skret.Config.Paths.{is_segment, resolve_path}
use skret.Config.Recovered.{path_of, resolve_path-path_of}
use skret.Config.Resolve.{ResolveOpts, resolve, ephemeral_config}
use skret.Config.{ConfigError}
use skret.Config.Resolve.{ResolvedConfig}
use skret.Config.Served.{IsServed, Preferred}
use skret.Config.Ephemeral.{IsCombined, ephemeral_resolves}

qualified : resolve_key (codes "/app/prod/") (codes "DB") ≡ (codes "/app/prod/DB", false)
unfolding resolve_key str_eq
qualified = refl

mangled :
    resolve_key (codes "/app/prod") (codes "C:/Git/app/prod/DB") ≡ (codes "/app/prod/DB", true)
unfolding resolve_key str_eq
mangled = refl

windows_path : resolve_path (codes "C:/Program Files/Git/app/prod") ≡ (codes "/app/prod", true)
unfolding resolve_path
windows_path = refl

too_short :
    resolve_path (codes "C:/Program Files/Git/app") ≡ (codes "C:/Program Files/Git/app", true)
unfolding resolve_path
too_short = refl

two_places :
    validate_target (record {
      type = codes "cloudflare";
      repo = [];
      worker = codes "w";
      pages = codes "p";
      project = [];
    })
    ≡ some cloudflare_both
unfolding validate_target str_eq
two_places = refl

restored : normalize_path (codes "app/prod") ≡ codes "/app/prod"
unfolding normalize_path
restored = refl

-- Flags that leave the environment open
abbrev flags : ResolveOpts
flags = record {
  env = [];
  provider = codes "aws";
  path = codes "app/prod";
  region = [];
  profile = [];
  file = [];
}

-- Only SKRET_ENV is set.
abbrev variables : Str → Str
variables name = if str_eq name (codes "SKRET_ENV") then codes "staging" else []

abbrev any_url : Str → Bool
any_url _ = true

resolve_key_idempotent_example :
    let r = resolve_key (codes "/app/prod") (codes "C:/Git/app/prod/DB") in
    resolve_key (codes "/app/prod") r.0 ≡ (r.0, false)
resolve_key_idempotent_example =
    resolve_key_idempotent (codes "/app/prod") (codes "C:/Git/app/prod/DB")

resolve_path-path_of_example :
    resolve_path (
      (codes "C:/Program Files" ++ b'/' ∷ codes "Git") ++ path_of (codes "prod" ∷ codes "app" ∷ []))
    ≡ (path_of (codes "prod" ∷ codes "app" ∷ []), true)
unfolding has_prefix is_segment all_bytes
resolve_path-path_of_example =
    resolve_path-path_of (codes "C:/Program Files") (codes "Git") (codes "prod" ∷ codes "app" ∷ [])
      refl refl (refl, refl) (refl, (refl, tt)) (omega arith)

ephemeral_resolves_example :
    let c = ephemeral_config variables flags in
    (validate_config any_url c ≡ none)
    × (((r : ResolvedConfig) × (resolve variables c flags ≡ inr r)
          × IsCombined variables flags r
          × IsServed r.provider flags)
        ⊎ ((x : ConfigError) × (resolve variables c flags ≡ inl x)
            × ((p : Str)
                → Preferred
                    (flags.provider ∷ variables (codes "SKRET_PROVIDER") ∷ codes "aws" ∷ [])
                    p
                → IsServed p flags
                → true ≡ false)))
ephemeral_resolves_example = ephemeral_resolves variables any_url flags
