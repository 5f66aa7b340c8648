-- ===== src/Launch/Order/Ranked.antt =====
-- `OrderServices` refuses no model whose dependencies are known and have no cycle.
use skret.Base.{
  ℕ, zero, suc, ◌<◌, ◌≡◌, ◌≢◌, refl, sym, ap, subst, arith, List, [], ◌∷◌, none, some, Str, Map,
  inl, inr, lookup, str_eq_iff, All, All-map, All-Among, Among-All, sort_strings,
  Among-sort_strings,
}
use skret.Launch.Model.{ServiceSpec}
use skret.Launch.Order.{
  visiting, Search, Visit, done, runtime_error, out_of_fuel, and_then, visit_all, mark, place,
  enter, visit,
}
use skret.Launch.Order.State.{mark_of, mark_of-mark, Grows, unmarked, unmarked-Grows, unmarked-mark}
use skret.Launch.Order.Visits.{Inv, Inv-mark}
use skret.Launch.Order.Plan.{Mark-cases, IsVisited, visit-IsVisited}

module _ (m : Map ServiceSpec) (rank : Str → ℕ) where
  -- The names whose visit is not over rank above the name, and the name has a service.
  pub record IsNext (s : Search) (name : Str) : Type 0 where
    pub above : (k : Str) → mark_of s k ≡ some visiting → rank name < rank k
    pub service : ServiceSpec
    pub found : lookup name m ≡ some service

  IsNext-Grows : (s t : Search) (name : Str) → Grows s t → IsNext s name → IsNext t name
  IsNext-Grows s t name g h = record {
    above = λ k v. h.above k (ground (arith, g k, v));
    service = h.service;
    found = h.found;
  }

  and_then-ranked :
      (s : Search) (name : Str) (f : Search → Visit) (r : Visit)
      → IsVisited m s (name ∷ []) r
      → r ≢ runtime_error
      → ((t : Search) → Inv m t → Grows s t → f t ≢ runtime_error)
      → and_then r f ≢ runtime_error
  and_then-ranked s name f (done t) (inv', g, _) sound next = next t inv' g
  and_then-ranked s name f runtime_error v sound next = λ e. sound refl
  and_then-ranked s name f out_of_fuel v sound next = λ e. cc

  module _ (again : Str → Search → Visit) (n : ℕ)
      (known : (name : Str) (s : Search)
        → Inv m s
        → unmarked m s < n
        → IsVisited m s (name ∷ []) (again name s))
      (returns : (name : Str) (s : Search)
        → Inv m s
        → unmarked m s < n
        → IsNext s name
        → again name s ≢ runtime_error) where
    pub visit_all-ranked :
        (names : List Str) (s : Search)
        → Inv m s
        → unmarked m s < n
        → All (IsNext s) names
        → visit_all again names s ≢ runtime_error
    unfolding visit_all
    visit_all-ranked [] s inv h next = λ e. cc
    visit_all-ranked (name ∷ names) s inv h next =
        and_then-ranked s name (visit_all again names) (again name s) (known name s inv h)
          (returns name s inv h next.0)
          λ t inv' g.
            visit_all-ranked names t inv' (omega (arith, h, unmarked-Grows m s t g))
              (All-map names (λ k. IsNext-Grows s t k g) next.1)

    enter-ranked :
        (name : Str) (s : Search)
        → ((x : ServiceSpec)
            → lookup name m ≡ some x
            → All (λ d. IsNext (mark name visiting s) d) x.dependencies)
        → mark_of s name ≡ none
        → Inv m s
        → unmarked m s < suc n
        → IsNext s name
        → enter again name (lookup name m) s ≢ runtime_error
    enter-ranked name s deps new inv h next =
        let x = next.service in
        let marked = mark name visiting s in
        let fewer = unmarked-mark m name x visiting s new next.found in
        let all_next = Among-All (IsNext marked) (sort_strings x.dependencies) λ d a.
          All-Among (IsNext marked) d x.dependencies (deps x next.found)
            ((Among-sort_strings d x.dependencies).0 a) in
        subst (λ o. enter again name o s ≢ runtime_error) (sym next.found)
          (placed x (visit_all again (sort_strings x.dependencies) marked) (
            visit_all-ranked (sort_strings x.dependencies) marked (Inv-mark m s name new inv)
              (omega (arith, h, fewer)) all_next))
      where
        placed :
            (x : ServiceSpec) (r : Visit)
            → r ≢ runtime_error
            → and_then r (λ t. done (place x name t)) ≢ runtime_error
        placed x (done t) sound = λ e. cc
        placed x runtime_error sound = λ e. sound refl
        placed x out_of_fuel sound = λ e. cc

  -- Every service of the map has services for its dependencies, which rank below it.
  abbrev pub IsRanked : Type 0
  IsRanked =
      (k : Str) (x : ServiceSpec)
      → lookup k m ≡ some x
      → (x.name ≡ k)
        × All (λ d. ((y : ServiceSpec) × (lookup d m ≡ some y)) × (rank d < rank k)) x.dependencies

  deps-IsNext :
      IsRanked
      → (name : Str) (s : Search) (x : ServiceSpec) → lookup name m ≡ some x
      → IsNext s name
      → All (IsNext (mark name visiting s)) x.dependencies
  deps-IsNext ranked name s x found next =
      All-map x.dependencies
        (λ d ((y, e), below). record {
          above = λ k v. ground (
            arith,
            mark_of-mark name visiting s k,
            str_eq_iff name k,
            next.above k,
            v,
            below,
            ap rank,
          );
          service = y;
          found = e;
        })
        (ranked name x found).1

  pub visit-ranked :
      IsRanked
      → (fuel : ℕ) (name : Str) (s : Search) → Inv m s
      → unmarked m s < fuel
      → IsNext s name
      → visit m fuel name s ≢ runtime_error
  unfolding visit
  visit-ranked ranked zero name s inv h next = absurd (omega (arith, h))
  visit-ranked ranked (suc fuel) name s inv h next = elim (Mark-cases (mark_of s name)) [
    | inl q ↦
        rw (q, visit)
          (enter-ranked (visit m fuel) fuel (visit-IsVisited m (λ k x f. (ranked k x f).0) fuel)
            (visit-ranked ranked fuel) name s (λ x f. deps-IsNext ranked name s x f next) q inv
            (omega (arith, h)) next)
    | inr (inl q) ↦ absurd (omega (arith, next.above name q))
    | inr (inr q) ↦ rw (q, visit) (λ e. cc)
  ]
