-- ===== src/Exec/Environment.antt =====
-- What the environment of `BuildEnv` (internal/exec/exec.go) holds.
use skret.Base.{
  ◌≡◌, refl, arith, Bool, false, ◌||◌, List, [], ◌∷◌, map, Option, none, some, Str, Map, str_eq,
  insert, if◌then◌else◌, ◌⊎◌, inl, inr, Bool-cases, Among, Among-append, Among-insert, subst,
  map-Among,
}
use skret.Provider.{Secret}
use skret.Exec.{sanitize, variable_name, has_name, env_name, secret_vars, entry, build_env}

module _ (to_upper : Str → Str) (path_prefix : Str) (exclude : List Str) where
  abbrev name_of : Secret → Str
  name_of = env_name to_upper path_prefix exclude

  -- A variable that the caller's environment has, or that is excluded.
  abbrev pub is_blocked : List Str → Str → Bool
  is_blocked existing n =
      has_name n (map to_upper exclude) || has_name n (map variable_name existing)

  -- The value of the last secret whose key produces the name.
  abbrev pub last_value : Str → List Secret → Option Str
  last_value n [] = none
  last_value n (s ∷ secrets) = elim (last_value n secrets) [
    | some v ↦ some v
    | none ↦ if str_eq (name_of s) n then some s.value else none
  ]

  -- What the loop over the secrets leaves under a name.
  abbrev settled : List Str → Str → Option Str → Option Str → Option Str
  settled existing n before none = before
  settled existing n before (some v) = if is_blocked existing n then before else some (sanitize v)

  -- The entry is that of a secret whose variable is neither excluded nor set by the caller.
  abbrev pub IsInjected : List Secret → List Str → Str × Str → Type 0
  IsInjected secrets existing e =
      (s : Secret) × Among s secrets
      × ((name_of s, sanitize s.value) ≡ e)
      × (is_blocked existing (name_of s) ≡ false)

  secret_vars-IsInjected :
      (existing : List Str) (secrets : List Secret) (vars : Map Str) (e : Str × Str)
      → Among e (secret_vars to_upper path_prefix exclude existing secrets vars)
      → Among e vars ⊎ IsInjected secrets existing e
  unfolding secret_vars
  secret_vars-IsInjected existing [] vars e a = inl a
  secret_vars-IsInjected existing (s ∷ secrets) vars e a =
      elim (Bool-cases (is_blocked existing (name_of s))) [
        | inl q ↦ later s secrets (
            secret_vars-IsInjected existing secrets vars e (
              subst (λ m. Among e (secret_vars to_upper path_prefix exclude existing secrets m))
                (ground (arith, q)) a))
        | inr q ↦
            let b =
              subst (λ m. Among e (secret_vars to_upper path_prefix exclude existing secrets m))
                (ground (arith, q)) a in
            elim (secret_vars-IsInjected existing secrets
              (insert (name_of s) (sanitize s.value) vars) e b) [
                | inl c ↦ elim (Among-insert (name_of s) (sanitize s.value) e vars c) [
                  | inl d ↦ inr (s, inl refl, d, q)
                  | inr d ↦ inl d
                ]
                | inr i ↦ later s secrets (inr i)
              ]
      ]
    where
      later :
          {X : Type 0} (s : Secret) (secrets : List Secret)
          → X ⊎ IsInjected secrets existing e
          → X ⊎ IsInjected (s ∷ secrets) existing e
      later s secrets (inl x) = inl x
      later s secrets (inr (t, c, f, g)) = inr (t, inr c, f, g)

  -- Every entry of the environment that `BuildEnv` makes is an entry of the caller's, or that of a
  -- secret whose variable is neither excluded nor set by the caller.
  pub build_env-IsInjected :
      (secrets : List Secret) (existing : List Str) (x : Str)
      → Among x (build_env to_upper path_prefix exclude secrets existing)
      → Among x existing
        ⊎ ((e : Str × Str) × IsInjected secrets existing e
            × (entry to_upper path_prefix exclude e ≡ x))
  unfolding build_env
  build_env-IsInjected [] existing x a = inl a
  build_env-IsInjected (s ∷ secrets) existing x a =
      elim (Among-append x existing
        (map (entry to_upper path_prefix exclude)
          (secret_vars to_upper path_prefix exclude existing (s ∷ secrets) []))
        a) [
          | inl b ↦ inl b
          | inr b ↦
              let (e, c, f) = map-Among (entry to_upper path_prefix exclude) x _ b in
              elim (secret_vars-IsInjected existing (s ∷ secrets) [] e c) [
                | inl d ↦ absurd (ground (arith, d))
                | inr i ↦ inr (e, i, f)
              ]
        ]
