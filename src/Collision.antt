-- ===== src/Collision.antt =====
-- The loop by which internal/exec/exec.go, internal/syncer/syncer.go and internal/syncer/dotenv.go
-- look for two distinct keys that produce one name.
pub mod Agree
use skret.Base.{
  ℕ, Bool, true, false, not, List, [], ◌∷◌, Option, none, some, Str, Map, str_eq, lookup, insert,
  if◌then◌else◌,
}

-- The name, the earlier key and the later key of the error.
pub record Clash : Type 0 where
  pub name : Str
  pub previous : Str
  pub key : Str

module _ {A : Type 0} (skip : A → Bool) (name key : A → Str) where
  -- The loop, over what is left of the list; `seen` is `nameToKey`.
  unfoldable pub first_clash : Map Str → List A → Option Clash
  unfolding lookup
  first_clash seen [] = none
  first_clash seen (s ∷ ss) =
      let skipped = first_clash seen ss in
      let next = first_clash (insert (name s) (key s) seen) ss in
      let checked : Option Clash = elim (lookup (name s) seen) [
        | none ↦ next
        | some previous ↦
            if not (str_eq previous (key s))
            then some (record { name = name s; previous = previous; key = key s })
            else next
      ] in
      if skip s then skipped else checked
