-- ===== src/Exec.antt =====
-- internal/exec/exec.go: the environment of a process that is run with secrets.
-- `strings.ToUpper` is the parameter `to_upper`, since the upper case of a name beyond ASCII is in
-- Unicode's tables. The variables that come from secrets stand in the order of the list, where Go
-- takes the order of a map.
pub mod Environment
pub mod Names
mod Tests
use skret.Base.{
  ℕ, Bool, true, false, not, ◌&&◌, ◌||◌, List, [], ◌∷◌, ◌++◌, map, Option, none, some, Str, Map,
  codes, ◌==◌, if◌then◌else◌, is_empty, is_lower, upper_byte, any_byte, has_prefix, str_eq, length,
  drop, lookup, insert,
}
use skret.Provider.{Secret}
use skret.Collision.{Clash, first_clash}

-- The bytes that a variable name may not keep: `/`, `-`, `=`, space, newline and carriage return.
unfoldable pub is_separator : ℕ → Bool
is_separator c = c == 47 || c == 45 || c == 61 || c == 32 || c == 10 || c == 13

-- The bytes that the first loop of `KeyToEnvName` looks for.
unfoldable pub needs_change : ℕ → Bool
unfolding is_separator
needs_change c = is_separator c || is_lower c

-- The body of the second loop of `KeyToEnvName`.
unfoldable pub env_byte : ℕ → ℕ
unfolding is_separator
env_byte c = if is_separator c then 95 else upper_byte c

-- `name != "" && name[0] == '/'`, and the name without that byte.
unfoldable pub strip_slash : Str → Str
strip_slash [] = []
strip_slash (c ∷ s) = if c == 47 then s else c ∷ s

unfoldable pub strip_path : Str → Str → Str
unfolding strip_slash has_prefix
strip_path key path_prefix =
    if not (is_empty path_prefix) && has_prefix key path_prefix
    then strip_slash (drop (length path_prefix) key)
    else key

-- `KeyToEnvName`
unfoldable pub key_to_env_name : Str → Str → Str
unfolding strip_path needs_change env_byte any_byte
key_to_env_name key path_prefix =
    let name = strip_path key path_prefix in
    if not (any_byte needs_change name) then name else map env_byte name

-- What `BuildEnv` writes for one byte of a value.
unfoldable pub sanitize_byte : ℕ → Str
sanitize_byte c = if c == 0 || c == 13 then [] else if c == 10 then 32 ∷ [] else c ∷ []

unfoldable pub sanitize_all : Str → Str
unfolding sanitize_byte
sanitize_all [] = []
sanitize_all (c ∷ v) = sanitize_byte c ++ sanitize_all v

-- `strings.ContainsAny(val, "\x00\n\r")`
unfoldable pub is_control : ℕ → Bool
is_control c = c == 0 || c == 10 || c == 13

-- The value that `BuildEnv` writes.
unfoldable pub sanitize : Str → Str
unfolding sanitize_all any_byte is_control
sanitize v = if any_byte is_control v then sanitize_all v else v

-- `e[:idx]` before the first `=`, or the whole of an entry that has none.
unfoldable pub variable_name : Str → Str
variable_name [] = []
variable_name (c ∷ s) = let rest = c ∷ variable_name s in if c == 61 then [] else rest

-- Is the name one of the list (`excludeSet[name]`, `existingMap[name]`)?
unfoldable pub has_name : Str → List Str → Bool
has_name name [] = false
has_name name (n ∷ ns) = str_eq n name || has_name name ns

module _ (to_upper : Str → Str) (path_prefix : Str) (exclude : List Str) where
  abbrev pub is_excluded : Secret → Bool
  is_excluded s = has_name (key_to_env_name s.key path_prefix) (map to_upper exclude)

  abbrev pub env_name : Secret → Str
  env_name s = key_to_env_name s.key path_prefix

  -- The loop of `BuildEnv` over the secrets.
  unfoldable pub secret_vars : List Str → List Secret → Map Str → Map Str
  unfolding has_name insert key_to_env_name sanitize
  secret_vars existing [] vars = vars
  secret_vars existing (s ∷ secrets) vars = secret_vars existing secrets (
      if is_excluded s
      then vars
      else if has_name (env_name s) (map variable_name existing)
      then vars
      else insert (env_name s) (sanitize s.value) vars)

  abbrev pub entry : Str × Str → Str
  entry v = v.0 ++ 61 ∷ v.1

  -- `BuildEnv`
  unfoldable pub build_env : List Secret → List Str → List Str
  unfolding secret_vars
  build_env [] existing = existing
  build_env (s ∷ secrets) existing = existing ++ map entry (secret_vars existing (s ∷ secrets) [])

  -- `DetectEnvNameCollisions`
  unfoldable pub detect_collisions : List Secret → Option Clash
  unfolding first_clash
  detect_collisions secrets = first_clash is_excluded env_name (λ s. s.key) [] secrets
