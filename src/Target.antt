-- ===== src/Target.antt =====
-- internal/syncer/syncer.go, and `SecretName` of internal/syncer/github.go: the names under which a
-- target stores secrets. `strings.ToUpper` is the parameter `to_upper`, since the upper case of a
-- name beyond ASCII is in Unicode's tables.
pub mod Dotenv
pub mod Absent
pub mod Mapping
pub mod DotenvFile
mod Tests
use skret.Base.{
  ℕ, ◌-◌, Bool, true, false, not, ◌&&◌, List, [], ◌∷◌, map, Option, none, some, Str, Map, codes,
  ◌==◌, if◌then◌else◌, str_eq, length, lookup, insert,
}
use skret.Provider.{Secret}
use skret.Collision.{Clash}

-- The text behind the last `/`, if there is one (`strings.LastIndex`).
unfoldable pub after_slash : Str → Option Str
after_slash [] = none
after_slash (c ∷ s) = elim (after_slash s) [
  | some r ↦ some r
  | none ↦ if c == 47 then some s else none
]

-- `SecretName`
unfoldable pub secret_name : Str → Str
unfolding after_slash
secret_name key = elim (after_slash key) [ some r ↦ r | none ↦ key ]

-- What a target answers to `ExistingKeys`, if it is an `ExistingLister` at all.
pub data Listing : Type 0 where
  no_lister list_failed : Listing
  existing : List Str → Listing

pub data Filtered : Type 0 where
  cannot_list list_error : Filtered
  -- what is left, and how many were skipped
  filtered : List Secret → ℕ → Filtered

unfoldable pub is_listed : Str → List Str → Bool
is_listed name [] = false
is_listed name (n ∷ names) = if str_eq n name then true else is_listed name names

module _ (to_upper : Str → Str) where
  -- `existing[strings.ToUpper(SecretName(sec.Key))]`
  unfoldable pub is_present : List Str → Secret → Bool
  unfolding is_listed secret_name
  is_present names s = is_listed (to_upper (secret_name s.key)) (map to_upper names)

  unfoldable pub keep_absent : List Str → List Secret → List Secret
  unfolding is_present
  keep_absent names [] = []
  keep_absent names (s ∷ secrets) =
      let rest = keep_absent names secrets in if is_present names s then rest else s ∷ rest

  -- `FilterAbsent`
  unfoldable pub filter_absent : Listing → List Secret → Filtered
  unfolding keep_absent
  filter_absent no_lister secrets = cannot_list
  filter_absent list_failed secrets = list_error
  filter_absent (existing names) secrets =
      let kept = keep_absent names secrets in filtered kept (length secrets - length kept)

pub data MappingError : Type 0 where
  nil_secret : MappingError
  ambiguous : Clash → MappingError

-- Is the target keyed by the last segment of a key?
unfoldable pub is_keyed : Str → Bool
unfolding is_listed
is_keyed target = is_listed target (
    codes "github"
    ∷ codes "cloudflare"
    ∷ codes "gitlab"
    ∷ codes "terraform"
    ∷ codes "k8s"
    ∷ codes "k8s-manifest"
    ∷ [])

-- The loop of `ValidateDestinationMapping`; `none` is a nil secret.
unfoldable pub check_mapping : Map Str → List (Option Secret) → Option MappingError
unfolding lookup insert secret_name
check_mapping seen [] = none
check_mapping seen (none ∷ secrets) = some nil_secret
check_mapping seen (some s ∷ secrets) =
    let name = secret_name s.key in
    let next = check_mapping (insert name s.key seen) secrets in
    elim (lookup name seen) [
      | none ↦ next
      | some previous ↦
          if not (str_eq previous s.key)
          then some (ambiguous (record { name = name; previous = previous; key = s.key }))
          else next
    ]

-- `ValidateDestinationMapping`
unfoldable pub validate_mapping : Str → List (Option Secret) → Option MappingError
unfolding is_keyed check_mapping
validate_mapping target secrets = if not (is_keyed target) then none else check_mapping [] secrets
