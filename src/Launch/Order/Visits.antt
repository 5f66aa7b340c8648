-- ===== src/Launch/Order/Visits.antt =====
-- What `visit` keeps: the services that are placed are the visited ones, each behind its
-- dependencies; and that it always has fuel enough.
use skret.Base.{
  ◌≡◌, sym, ◌∙◌, arith, List, [], ◌∷◌, ◌++◌, map, none, some, Str, Map, ◌⊎◌, inl, inr, ◌↔◌, lookup,
  str_eq_iff, All, All-map, All-Among, Among-All, Among, sort_strings, Among-sort_strings,
}
use skret.Launch.Ascending.{IsDistinct}
use skret.Launch.Model.{ServiceSpec}
use skret.Launch.Order.{visiting, visited, Search, mark, place}
use skret.Launch.Order.State.{mark_of, mark_of-mark, mark_of-place}

abbrev pub spec_name : ServiceSpec → Str
spec_name s = s.name

-- Every service stands behind its dependencies, or these are among the names `before`.
abbrev pub IsBehind : List Str → List ServiceSpec → Type 0
IsBehind before [] = Unit
IsBehind before (s ∷ ss) = All (λ d. Among d before) s.dependencies × IsBehind (s.name ∷ before) ss

IsBehind-concat :
    (before : List Str) (xs : List ServiceSpec) (x : ServiceSpec)
    → IsBehind before xs
    → All (λ d. Among d before ⊎ Among d (map spec_name xs)) x.dependencies
    → IsBehind before (xs ++ x ∷ [])
IsBehind-concat before [] x h deps = (
  All-map x.dependencies (λ d a. elim a [ inl b ↦ b | inr b ↦ absurd (ground (arith, b)) ]) deps,
  tt,
)
IsBehind-concat before (y ∷ xs) x h deps = (
  h.0,
  IsBehind-concat (y.name ∷ before) xs x h.1 (
      All-map x.dependencies
        (λ d a. elim a [ inl b ↦ inl (inr b) | inr (inl b) ↦ inl (inl b) | inr (inr b) ↦ inr b ])
        deps),
)

Among-concat :
    (k : Str) (xs : List ServiceSpec) (x : ServiceSpec)
    → Among k (map spec_name (xs ++ x ∷ [])) ↔ (Among k (map spec_name xs) ⊎ (x.name ≡ k))
Among-concat k [] x = ground arith
Among-concat k (y ∷ xs) x = ground (arith, Among-concat k xs x)

IsDistinct-concat :
    (xs : List ServiceSpec) (x : ServiceSpec)
    → IsDistinct (map spec_name xs)
    → ¬ Among x.name (map spec_name xs)
    → IsDistinct (map spec_name (xs ++ x ∷ []))
IsDistinct-concat [] x h new = (tt, tt)
IsDistinct-concat (y ∷ xs) x h new = (
  Among-All (λ k. ¬ (y.name ≡ k)) (map spec_name (xs ++ x ∷ []))
      λ k a e. elim ((Among-concat k xs x).0 a) [
        | inl b ↦ All-Among (λ k. ¬ (y.name ≡ k)) k (map spec_name xs) h.0 b e
        | inr b ↦ new (inl (e ∙ sym b))
      ],
  IsDistinct-concat xs x h.1 (λ a. new (inr a)),
)

All-concat :
    (P : ServiceSpec → Type 0) (xs : List ServiceSpec) (x : ServiceSpec)
    → All P xs
    → P x
    → All P (xs ++ x ∷ [])
All-concat P [] x h p = (p, tt)
All-concat P (y ∷ xs) x h p = (h.0, All-concat P xs x h.1 p)

module _ (m : Map ServiceSpec) where
  pub record Inv (s : Search) : Type 0 where
    pub placed : (k : Str) → (mark_of s k ≡ some visited) ↔ Among k (map spec_name s.ordered)
    pub behind : IsBehind [] s.ordered
    pub distinct : IsDistinct (map spec_name s.ordered)
    pub given : All (λ x. lookup x.name m ≡ some x) s.ordered

  pub Inv-mark :
      (s : Search) (name : Str) → mark_of s name ≡ none → Inv s → Inv (mark name visiting s)
  Inv-mark s name new inv = record {
    placed =
        λ k. ground (arith, mark_of-mark name visiting s k, str_eq_iff name k, inv.placed k, new);
    behind = inv.behind;
    distinct = inv.distinct;
    given = inv.given;
  }

  pub Inv-place :
      (s : Search) (x : ServiceSpec)
      → mark_of s x.name ≡ some visiting
      → lookup x.name m ≡ some x
      → All (λ d. mark_of s d ≡ some visited) (sort_strings x.dependencies)
      → Inv s
      → Inv (place x x.name s)
  Inv-place s x open_mark found deps inv = record {
    placed = λ k. ground (
      arith,
      mark_of-place x x.name s k,
      str_eq_iff x.name k,
      inv.placed k,
      Among-concat k s.ordered x,
    );
    behind = IsBehind-concat [] s.ordered x inv.behind (
        Among-All (λ d. Among d [] ⊎ Among d (map spec_name s.ordered)) x.dependencies
          λ d a. inr (
            (inv.placed d).0 (
              All-Among (λ k. mark_of s k ≡ some visited) d (sort_strings x.dependencies) deps
                ((Among-sort_strings d x.dependencies).1 a))));
    distinct =
        IsDistinct-concat s.ordered x inv.distinct
          (λ a. absurd (ground (arith, (inv.placed x.name).1 a, open_mark)));
    given = All-concat (λ y. lookup y.name m ≡ some y) s.ordered x inv.given found;
  }
