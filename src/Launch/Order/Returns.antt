-- ===== src/Launch/Order/Returns.antt =====
-- `OrderServices` orders every list of services that can be ordered.
use skret.Base.{
  ℕ, suc, ◌<◌, ◌≡◌, ◌≢◌, refl, arith, List, [], ◌∷◌, map, none, some, Str, Map, inl, inr, length,
  lookup, insert, lookup-insert, str_eq, str_eq_iff, All, All-map, All-Among, Among-All, Among,
  Among-map, map-Among, sort_strings, Among-sort_strings, Bool-cases,
}
use skret.Launch.Ascending.{IsDistinct}
use skret.Launch.Model.{ServiceSpec}
use skret.Launch.Order.{
  Search, Visit, done, runtime_error, out_of_fuel, visit_all, visit, index_from, start, name_in,
  order_services,
}
use skret.Launch.Order.State.{unmarked-length}
use skret.Launch.Order.Visits.{spec_name}
use skret.Launch.Order.Plan.{visit-IsVisited, Inv-start, found_iff, order_services-ends}
use skret.Launch.Order.Ranked.{IsNext, IsRanked, visit-ranked, visit_all-ranked}

index_from-some :
    (m : Map ServiceSpec) (ss : List ServiceSpec)
    → IsDistinct (map spec_name ss)
    → All (λ s. lookup s.name m ≡ none) ss
    → (r : Map ServiceSpec) × (index_from m ss ≡ some r)
unfolding index_from
index_from-some m [] d fresh = (m, refl)
index_from-some m (s ∷ ss) d fresh =
    let still =
      Among-All (λ x. lookup x.name (insert s.name s m) ≡ none) ss
        λ x a.
          let apart =
            All-Among (λ k. ¬ (s.name ≡ k)) x.name (map spec_name ss) d.0
              (Among-map spec_name x ss a) in
          let old = All-Among (λ y. lookup y.name m ≡ none) x ss fresh.1 a in
          ground (arith, lookup-insert s.name x.name s m, str_eq_iff s.name x.name, apart, old) in
    let (r, e) = index_from-some (insert s.name s m) ss d.1 still in (r, rw (fresh.0, index_from) e)

lookup-name_in :
    (k : Str) (m : Map ServiceSpec)
    → Among k (map name_in m)
    → (x : ServiceSpec) × (lookup k m ≡ some x)
unfolding lookup
lookup-name_in k [] h = absurd (ground (arith, h))
lookup-name_in k ((j, v) ∷ m) h = elim (Bool-cases (str_eq j k)) [
  | inl q ↦ (v, rw (q, lookup) refl)
  | inr q ↦ elim h [
    | inl e ↦ absurd (ground (arith, q, str_eq_iff j k, e))
    | inr a ↦ let (x, e) = lookup-name_in k m a in (x, rw (q, lookup) e)
  ]
]

-- The dependencies of the services are services, and a rank puts each below the service that needs
-- it: there is no cycle.
abbrev pub IsAcyclic : (Str → ℕ) → List ServiceSpec → Type 0
IsAcyclic rank services =
    All (λ s. All (λ d. Among d (map spec_name services) × (rank d < rank s.name)) s.dependencies)
      services

module _ (services : List ServiceSpec) (m : Map ServiceSpec)
    (index : index_from [] services ≡ some m) (rank : Str → ℕ)
    (acyclic : IsAcyclic rank services) where
  services-IsRanked : IsRanked m rank
  services-IsRanked k x found =
      let (a, e) = (found_iff services m index k x).0 found in
      let deps =
        All-Among
          (λ s. All (λ d. Among d (map spec_name services) × (rank d < rank s.name)) s.dependencies)
          x services acyclic a in
      (
        e,
        All-map x.dependencies
            (λ d (among, below).
              let (y, y_in, named) = map-Among spec_name d services among in
              ((y, (found_iff services m index d y).1 (y_in, named)), rw⁻¹ e below))
            deps,
      )

  names-IsNext : All (IsNext m rank start) (sort_strings (map name_in m))
  unfolding lookup
  names-IsNext = Among-All (IsNext m rank start) (sort_strings (map name_in m)) λ k a.
      let (x, found) = lookup-name_in k m ((Among-sort_strings k (map name_in m)).0 a) in
      record { above = λ j v. absurd (ground (arith, v)); service = x; found = found }

  search-returns :
      visit_all (visit m (suc (length m))) (sort_strings (map name_in m)) start ≢ runtime_error
  search-returns =
      visit_all-ranked m rank (visit m (suc (length m))) (suc (length m))
        (visit-IsVisited m (λ k x f. (services-IsRanked k x f).0) (suc (length m)))
        (visit-ranked m rank services-IsRanked (suc (length m))) (sort_strings (map name_in m))
        start (Inv-start m) (omega (arith, unmarked-length m start)) names-IsNext

Visit-cases : (r : Visit) → r ≢ runtime_error → r ≢ out_of_fuel → (t : Search) × (r ≡ done t)
Visit-cases (done t) a b = (t, refl)
Visit-cases runtime_error a b = absurd (a refl)
Visit-cases out_of_fuel a b = absurd (b refl)

-- OrderServices orders every list of services with distinct names whose dependencies are among them
-- and have no cycle.
pub order_services-returns :
    (services : List ServiceSpec) (rank : Str → ℕ)
    → IsDistinct (map spec_name services)
    → IsAcyclic rank services
    → (t : Search) × (order_services services ≡ done t)
unfolding order_services lookup
order_services-returns services rank distinct acyclic =
    let (m, index) =
      index_from-some [] services distinct
        (Among-All (λ s. lookup s.name [] ≡ none) services (λ x a. refl)) in
    let sound : order_services services ≢ runtime_error =
      λ e. search-returns services m index rank acyclic (rw index at e) in
    Visit-cases (order_services services) sound (order_services-ends services)
