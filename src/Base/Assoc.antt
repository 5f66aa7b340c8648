-- ===== src/Base/Assoc.antt =====
-- Go maps with string keys as association lists. Go leaves the order of iteration open; a loop
-- over a map runs over the list here, in whatever order it stands.
use mathlib.Core.Path.{◌≡◌, refl}
use mathlib.Core.List.{List, [], ◌∷◌}
use mathlib.Core.Option.{Option, none, some}
use native.Mathlib.Omega.{arith}
use mathlib.Core.Logic.{◌⊎◌, inl, inr}
use skret.Base.Tests.{if◌then◌else◌, Bool-cases}
use skret.Base.Lists.{All, Among}
use skret.Base.Text.{Str, str_eq, str_eq_iff}

abbrev pub Map {ℓ} : Type ℓ → Type ℓ
Map V = List (Str × V)

module _ {ℓ} {V : Type ℓ} where
  -- `v, ok := m[k]`
  unfoldable pub lookup : Str → Map V → Option V
  lookup k [] = none
  lookup k ((j, v) ∷ m) = if str_eq j k then some v else lookup k m

  -- `m[k] = v`
  unfoldable pub insert : Str → V → Map V → Map V
  insert k v [] = (k, v) ∷ []
  insert k v ((j, w) ∷ m) = if str_eq j k then (k, v) ∷ m else (j, w) ∷ insert k v m

  -- `delete(m, k)`
  unfoldable pub remove : Str → Map V → Map V
  remove k [] = []
  remove k ((j, w) ∷ m) = let rest = remove k m in if str_eq j k then rest else (j, w) ∷ rest

  pub lookup-insert :
      (k j : Str) (v : V) (m : Map V)
      → lookup j (insert k v m) ≡ (if str_eq k j then some v else lookup j m)
  unfolding lookup insert
  lookup-insert k j v [] = refl
  lookup-insert k j v ((i, w) ∷ m) =
      ground (arith, str_eq_iff k j, str_eq_iff i k, str_eq_iff i j, lookup-insert k j v m)

  pub lookup-remove :
      (k j : Str) (m : Map V) → lookup j (remove k m) ≡ (if str_eq k j then none else lookup j m)
  unfolding lookup remove
  lookup-remove k j [] = ground arith
  lookup-remove k j ((i, w) ∷ m) =
      ground (arith, str_eq_iff k j, str_eq_iff i k, str_eq_iff i j, lookup-remove k j m)

module _ {ℓ κ} {V : Type ℓ} (P : V → Type κ) where
  pub All-insert :
      (k : Str) (v : V) (m : Map V) → P v → All (λ e. P e.1) m → All (λ e. P e.1) (insert k v m)
  unfolding insert
  All-insert k v [] h hs = (h, tt)
  All-insert k v ((j, w) ∷ m) h hs = elim (Bool-cases (str_eq j k)) [
    | inl e ↦ rw e (h, hs.1)
    | inr e ↦ rw e (hs.0, All-insert k v m h hs.1)
  ]

  pub All-lookup : (k : Str) (v : V) (m : Map V) → lookup k m ≡ some v → All (λ e. P e.1) m → P v
  unfolding lookup
  All-lookup k v [] e hs = cc
  All-lookup k v ((j, w) ∷ m) e hs = elim (Bool-cases (str_eq j k)) [
    | inl q ↦ let found : w ≡ v = ground (arith, q) in rw found at hs.0
    | inr q ↦ All-lookup k v m (ground (arith, q)) hs.1
  ]

pub lookup-Among : {V : Type 0} (k : Str) (v : V) (m : Map V) → lookup k m ≡ some v → Among (k, v) m
unfolding lookup
lookup-Among k v [] h = cc
lookup-Among k v ((j, w) ∷ m) h = elim (Bool-cases (str_eq j k)) [
  | inl e ↦ inl (ground (arith, e, h, str_eq_iff j k))
  | inr e ↦ inr (lookup-Among k v m (ground (arith, e, h)))
]

pub Among-insert :
    {V : Type 0} (k : Str) (v : V) (e : Str × V) (m : Map V)
    → Among e (insert k v m)
    → ((k, v) ≡ e) ⊎ Among e m
unfolding insert
Among-insert k v e [] (inl h) = inl h
Among-insert k v e [] (inr h) = absurd (ground (arith, h))
Among-insert k v e ((j, w) ∷ m) h = elim (Bool-cases (str_eq j k)) [
  | inl q ↦
      let h' : Among e ((k, v) ∷ m) = rw q at h in elim h' [ inl x ↦ inl x | inr x ↦ inr (inr x) ]
  | inr q ↦
      let h' : Among e ((j, w) ∷ insert k v m) = rw q at h in
      elim h' [
        | inl x ↦ inr (inl x)
        | inr x ↦ elim (Among-insert k v e m x) [ inl y ↦ inl y | inr y ↦ inr (inr y) ]
      ]
]
