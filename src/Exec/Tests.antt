-- ===== src/Exec/Tests.antt =====
-- The environment of internal/exec/exec.go at concrete secrets.
use skret.Base.{
  ◌++◌, ◌≡◌, refl, Bool, true, false, Str, some, codes, List, [], ◌∷◌, ◌++◌, map, ◌⊎◌, inl, inr,
  str_eq, lookup, insert, any_byte, has_prefix, upper_byte, Among,
}
use skret.Provider.{Secret}
use skret.Collision.{first_clash}
use skret.Exec.{
  is_separator, needs_change, env_byte, strip_slash, strip_path, key_to_env_name, sanitize_byte,
  sanitize_all, is_control, sanitize, variable_name, has_name, secret_vars, entry, build_env,
  detect_collisions,
}
use skret.Exec.Environment.{build_env-IsInjected, IsInjected, is_blocked}

abbrev upper : Str → Str
upper = map upper_byte

abbrev api_key : Secret
api_key = record { key = codes "/app/prod/api-key"; value = codes "a" ++ 10 ∷ codes "b$c" }

abbrev path_secret : Secret
path_secret = record { key = codes "/app/prod/path"; value = codes "evil" }

abbrev secrets : List Secret
secrets = api_key ∷ path_secret ∷ []

abbrev caller : List Str
caller = codes "PATH=/bin" ∷ codes "HOME" ∷ []

-- All that the construction of an environment calls.
executes : Bool
unfolding build_env secret_vars has_name key_to_env_name strip_path strip_slash needs_change
    env_byte is_separator any_byte has_prefix sanitize sanitize_all sanitize_byte is_control
    variable_name insert lookup str_eq detect_collisions first_clash
executes = true

abbrev prefix : Str
prefix = codes "/app/prod"

build_env-caller_wins :
    build_env upper prefix [] secrets caller
    ≡ codes "PATH=/bin" ∷ codes "HOME" ∷ codes "API_KEY=a b$c" ∷ []
unfolding executes
build_env-caller_wins = refl

detect-clash :
    detect_collisions upper prefix []
      (api_key ∷ record { key = codes "/app/prod/api/key"; value = [] } ∷ [])
    ≡ some (record {
      name = codes "API_KEY";
      previous = codes "/app/prod/api-key";
      key = codes "/app/prod/api/key";
    })
unfolding executes
detect-clash = refl

api_key-free : is_blocked upper prefix [] caller (codes "API_KEY") ≡ false
unfolding executes
api_key-free = refl

api_key-name : key_to_env_name api_key.key prefix ≡ codes "API_KEY"
unfolding executes
api_key-name = refl

api_key-Among : Among (codes "API_KEY=a b$c") (build_env upper prefix [] secrets caller)
unfolding executes
api_key-Among = inr (inr (inl refl))

build_env-IsInjected_example :
    Among (codes "API_KEY=a b$c") caller
    ⊎ ((e : Str × Str) × IsInjected upper prefix [] secrets caller e
        × (entry upper prefix [] e ≡ codes "API_KEY=a b$c"))
build_env-IsInjected_example =
    build_env-IsInjected upper prefix [] secrets caller (codes "API_KEY=a b$c") api_key-Among
