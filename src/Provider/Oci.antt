-- ===== src/Provider/Oci.antt =====
-- internal/provider/oci/names.go: the names under which a vault of OCI keeps the keys.
pub mod Names
mod Tests
use skret.Base.{
  ℕ, suc, ◌+◌, ◌≡◌, refl, sym, ap, ◌∙◌, arith, Bool, true, false, not, ◌&&◌, ◌||◌, List, [], ◌∷◌,
  ◌++◌, Option, none, some, Str, codes, ◌==◌, ltb, if◌then◌else◌, is_empty, has_prefix,
  has_prefix-append, str_eq, drop, length, trim_left, trim_right, trim_prefix, is_lower, is_upper,
  is_digit, all_bytes, map, append_assoc, Bool-cases, inl, inr,
}

abbrev pub slash : ℕ → Bool
slash c = c == b'/'

-- `strings.ReplaceAll(s, "/", "-")`
abbrev pub dashed : Str → Str
dashed s = map (λ c. if c == b'/' then b'-' else c) s

-- `pathToken`, where `strings.Trim` takes the last slashes first
unfoldable pub path_token : Str → Str
unfolding trim_left trim_right
path_token path = dashed (trim_left slash (trim_right slash path))

-- The errors of `secretNameFor`
pub data NameError : Type 0 where
  key_empty path_itself outside invalid_name : NameError

pub data NameResult : Type 0 where
  refused : NameError → NameResult
  named : Str → NameResult

-- `validSecretName`
unfoldable pub valid_secret_name : Str → Bool
unfolding all_bytes
valid_secret_name name =
    not (is_empty name || ltb 255 (length name))
    && all_bytes
        (λ c. is_lower c || is_upper c || is_digit c || c == b'-' || c == b'_' || c == b'.') name

-- The end of `secretNameFor`, once the leaf is known
unfoldable pub name_of : Str → Str → NameResult
unfolding valid_secret_name
name_of token leaf =
    let name = if is_empty token then dashed leaf else token ++ b'_' ∷ dashed leaf in
    if valid_secret_name name then named name else refused invalid_name

-- `secretNameFor`
unfoldable pub secret_name_for : Str → Str → NameResult
unfolding path_token trim_right trim_prefix has_prefix name_of
secret_name_for path key =
    let token = path_token path in
    let rp = trim_right slash path in
    if is_empty key
    then refused key_empty
    else if is_empty token
    then name_of token (trim_prefix key (codes "/"))
    else if has_prefix key (rp ++ b'/' ∷ [])
    then name_of token (drop (length rp + 1) key)
    else if str_eq key rp
    then refused path_itself
    else if not (has_prefix key (codes "/"))
    then name_of token key
    else refused outside

-- The leaf that `secretKeyFor` finds behind the prefix
abbrev pub key_below : Str → Str → Option Str
key_below rp [] = none
key_below rp (c ∷ leaf) = some (rp ++ b'/' ∷ c ∷ leaf)

-- `secretKeyFor`
unfoldable pub secret_key_for : Str → Str → Option Str
unfolding path_token trim_right has_prefix
secret_key_for path name =
    let rp = trim_right slash path in
    let prefix = path_token path ++ b'_' ∷ [] in
    if is_empty rp
    then some name
    else if not (has_prefix name prefix)
    then none
    else key_below rp (drop (length prefix) name)
