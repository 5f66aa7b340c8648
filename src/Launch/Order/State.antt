-- ===== src/Launch/Order/State.antt =====
-- Marks: what `mark` and `place` change, and the services that are not marked yet.
use skret.Base.{
  ℕ, ◌+◌, ◌≤◌, ◌<◌, ◌≡◌, refl, arith, [], ◌∷◌, Option, none, some, Str, Map, ◌⊎◌, inl, inr, length,
  lookup, lookup-insert, str_eq, str_eq_iff, Bool-cases, if◌then◌else◌,
}
use skret.Launch.Model.{ServiceSpec}
use skret.Launch.Order.{Mark, visiting, visited, Search, mark, place}

abbrev pub mark_of : Search → Str → Option Mark
mark_of s k = lookup k s.marks

pub mark_of-mark :
    (name : Str) (m : Mark) (s : Search) (k : Str)
    → mark_of (mark name m s) k ≡ (if str_eq name k then some m else mark_of s k)
mark_of-mark name m s k = lookup-insert name k m s.marks

pub mark_of-place :
    (service : ServiceSpec) (name : Str) (s : Search) (k : Str)
    → mark_of (place service name s) k ≡ (if str_eq name k then some visited else mark_of s k)
mark_of-place service name s k = lookup-insert name k visited s.marks

-- From `s` to `t` some names that had no mark were visited, and the other marks stayed.
abbrev pub Grows : Search → Search → Type 0
Grows s t =
    (k : Str) → (mark_of t k ≡ mark_of s k) ⊎ ((mark_of s k ≡ none) × (mark_of t k ≡ some visited))

pub Grows-refl : (s : Search) → Grows s s
Grows-refl s k = inl refl

pub Grows-trans : (s t u : Search) → Grows s t → Grows t u → Grows s u
Grows-trans s t u g h k = ground (arith, g k, h k)

-- The whole visit of one name that had no mark.
pub Grows-visit :
    (s t : Search) (service : ServiceSpec) (name : Str)
    → mark_of s name ≡ none
    → Grows (mark name visiting s) t
    → Grows s (place service name t)
Grows-visit s t service name new g k = ground (
  arith,
  g k,
  mark_of-mark name visiting s k,
  mark_of-place service name t k,
  str_eq_iff name k,
  new,
)

abbrev unmarked_entry : Option Mark → ℕ
unmarked_entry none = 1
unmarked_entry (some m) = 0

-- The number of services without a mark.
abbrev pub unmarked : Map ServiceSpec → Search → ℕ
unmarked [] s = 0
unmarked ((k, v) ∷ m) s = unmarked_entry (mark_of s k) + unmarked m s

pub unmarked-Grows : (m : Map ServiceSpec) (s t : Search) → Grows s t → unmarked m t ≤ unmarked m s
unmarked-Grows [] s t g = omega arith
unmarked-Grows ((k, v) ∷ m) s t g = ground (arith, g k, unmarked-Grows m s t g)

unmarked-mark_le :
    (m : Map ServiceSpec) (name : Str) (x : Mark) (s : Search)
    → unmarked m (mark name x s) ≤ unmarked m s
unmarked-mark_le [] name x s = omega arith
unmarked-mark_le ((k, v) ∷ m) name x s =
    ground (arith, mark_of-mark name x s k, unmarked-mark_le m name x s)

pub unmarked-mark :
    (m : Map ServiceSpec) (name : Str) (service : ServiceSpec) (x : Mark) (s : Search)
    → mark_of s name ≡ none
    → lookup name m ≡ some service
    → unmarked m (mark name x s) < unmarked m s
unfolding lookup
unmarked-mark [] name service x s new e = cc
unmarked-mark ((k, v) ∷ m) name service x s new e = elim (Bool-cases (str_eq k name)) [
  | inl q ↦
      let same : k ≡ name = (str_eq_iff k name).0 q in
      let new_k : mark_of s k ≡ none = rw same new in
      let marked : mark_of (mark name x s) k ≡ some x =
        ground (arith, mark_of-mark name x s k, str_eq_iff name k, same) in
      ground (arith, new_k, marked, unmarked-mark_le m name x s)
  | inr q ↦
      let rest = unmarked-mark m name service x s new (ground (arith, q, e)) in
      ground (arith, mark_of-mark name x s k, rest)
]

pub unmarked-length : (m : Map ServiceSpec) (s : Search) → unmarked m s ≤ length m
unmarked-length [] s = omega arith
unmarked-length ((k, v) ∷ m) s = ground (arith, unmarked-length m s)
