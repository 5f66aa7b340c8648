-- ===== src/Launch/Order/Plan.antt =====
-- The plan that `OrderServices` returns.
use skret.Base.{
  Bool-cases, lookup-Among, map-Among, ℕ, zero, suc, ◌<◌, ◌≡◌, ◌≢◌, refl, sym, ◌∙◌, ap, subst,
  arith, true, false, List, [], ◌∷◌, map, Option, none, some, Str, Map, ◌⊎◌, inl, inr, ◌↔◌, length,
  lookup, insert, lookup-insert, str_eq, str_eq_iff, Option-cases, All, All-map, All-Among,
  Among-All, Among, Among-map, sort_strings, Among-sort_strings,
}
use skret.Launch.Ascending.{IsDistinct}
use skret.Launch.Model.{ServiceSpec}
use skret.Launch.Order.{
  Mark, visiting, visited, Search, Visit, done, runtime_error, out_of_fuel, and_then, visit_all,
  mark, place, enter, visit, index_from, start, name_in, order_services,
}
use skret.Launch.Order.State.{
  mark_of, mark_of-mark, mark_of-place, Grows, Grows-refl, Grows-trans, Grows-visit, unmarked,
  unmarked-Grows, unmarked-mark, unmarked-length,
}
use skret.Launch.Order.Visits.{spec_name, IsBehind, Inv, Inv-mark, Inv-place}

pub Mark-cases : (o : Option Mark) → (o ≡ none) ⊎ ((o ≡ some visiting) ⊎ (o ≡ some visited))
Mark-cases none = inl refl
Mark-cases (some visiting) = inr (inl refl)
Mark-cases (some visited) = inr (inr refl)

module _ (m : Map ServiceSpec) where
  -- The visit of the names from `s` ended, without fuel running out.
  abbrev pub IsVisited : Search → List Str → Visit → Type 0
  IsVisited s names (done t) = Inv m t × Grows s t × All (λ k. mark_of t k ≡ some visited) names
  IsVisited s names runtime_error = Unit
  IsVisited s names out_of_fuel = true ≡ false

  Grows-visited :
      (s t : Search) (k : Str) → Grows s t → mark_of s k ≡ some visited → mark_of t k ≡ some visited
  Grows-visited s t k g h = ground (arith, g k, h)

  IsVisited-then :
      (s t : Search) (name : Str) (names : List Str) (r : Visit)
      → Grows s t
      → mark_of t name ≡ some visited
      → IsVisited t names r
      → IsVisited s (name ∷ names) r
  IsVisited-then s t name names (done u) g h (inv, g', all) =
      (inv, Grows-trans s t u g g', (Grows-visited t u name g' h, all))
  IsVisited-then s t name names runtime_error g h v = tt
  IsVisited-then s t name names out_of_fuel g h v = v

  and_then-IsVisited :
      (s : Search) (name : Str) (names : List Str) (r : Visit) (f : Search → Visit)
      → IsVisited s (name ∷ []) r
      → ((t : Search) → Inv m t → Grows s t → IsVisited t names (f t))
      → IsVisited s (name ∷ names) (and_then r f)
  and_then-IsVisited s name names (done t) f (inv, g, seen) next =
      IsVisited-then s t name names (f t) g seen.0 (next t inv g)
  and_then-IsVisited s name names runtime_error f v next = tt
  and_then-IsVisited s name names out_of_fuel f v next = v

  module _ (again : Str → Search → Visit) (n : ℕ)
      (known : (name : Str) (s : Search)
        → Inv m s
        → unmarked m s < n
        → IsVisited s (name ∷ []) (again name s)) where
    pub visit_all-IsVisited :
        (names : List Str) (s : Search)
        → Inv m s
        → unmarked m s < n
        → IsVisited s names (visit_all again names s)
    unfolding visit_all
    visit_all-IsVisited [] s inv h = (inv, Grows-refl s, tt)
    visit_all-IsVisited (name ∷ names) s inv h =
        and_then-IsVisited s name names (again name s) (visit_all again names) (known name s inv h)
          λ t inv' g. visit_all-IsVisited names t inv' (omega (arith, h, unmarked-Grows m s t g))

    enter-IsVisited :
        (name : Str) (s : Search)
        → ((x : ServiceSpec) → lookup name m ≡ some x → x.name ≡ name)
        → mark_of s name ≡ none
        → Inv m s
        → unmarked m s < suc n
        → IsVisited s (name ∷ []) (enter again name (lookup name m) s)
    enter-IsVisited name s named new inv h = elim (Option-cases (lookup name m)) [
      | inl q ↦ rw q tt
      | inr (x, q) ↦
          let e = named x q in
          let fewer = unmarked-mark m name x visiting s new q in
          rw q (
            after x q e (visit_all again (sort_strings x.dependencies) (mark name visiting s)) (
              visit_all-IsVisited (sort_strings x.dependencies) (mark name visiting s)
                (Inv-mark m s name new inv) (omega (arith, h, fewer))))
    ]
      where
        after :
            (x : ServiceSpec)
            → lookup name m ≡ some x
            → x.name ≡ name
            → (r : Visit) → IsVisited (mark name visiting s) (sort_strings x.dependencies) r
            → IsVisited s (name ∷ []) (and_then r (λ t. done (place x name t)))
        after x q e (done t) (inv', g, seen) =
            let open_mark : mark_of t name ≡ some visiting =
              ground (arith, g name, mark_of-mark name visiting s name, str_eq_iff name name) in
            let placed =
              subst (λ k. mark_of t k ≡ some visiting → lookup k m ≡ some x → Inv m (place x k t)) e
                (λ o f. Inv-place m t x o f seen inv') in
            (
              placed open_mark q,
              Grows-visit s t x name new g,
              (ground (arith, mark_of-place x name t name, str_eq_iff name name), tt),
            )
        after x q e runtime_error v = tt
        after x q e out_of_fuel v = v

  pub visit-IsVisited :
      ((k : Str) (x : ServiceSpec) → lookup k m ≡ some x → x.name ≡ k)
      → (fuel : ℕ) (name : Str) (s : Search) → Inv m s
      → unmarked m s < fuel
      → IsVisited s (name ∷ []) (visit m fuel name s)
  unfolding visit
  visit-IsVisited named zero name s inv h = absurd (omega (arith, h))
  visit-IsVisited named (suc fuel) name s inv h = elim (Mark-cases (mark_of s name)) [
    | inl q ↦
        rw (q, visit)
          (enter-IsVisited (visit m fuel) fuel (visit-IsVisited named fuel) name s (named name) q
            inv (omega (arith, h)))
    | inr (inl q) ↦ rw (q, visit) tt
    | inr (inr q) ↦ rw (q, visit) (inv, Grows-refl s, (q, tt))
  ]

pub lookup-index :
    (m r : Map ServiceSpec) (ss : List ServiceSpec) (k : Str) (x : ServiceSpec)
    → index_from m ss ≡ some r
    → (lookup k r ≡ some x) ↔ ((lookup k m ≡ some x) ⊎ (Among x ss × (x.name ≡ k)))
unfolding index_from
lookup-index m r [] k x h = ground (arith, h)
lookup-index m r (s ∷ ss) k x h = elim (Option-cases (lookup s.name m)) [
  | inr (y, q) ↦ absurd (ground (arith, h, q))
  | inl q ↦
      let rest : index_from (insert s.name s m) ss ≡ some r = ground (arith, h, q) in
      let (fwd, bwd) = lookup-index (insert s.name s m) r ss k x rest in
      elim (Bool-cases (str_eq s.name k)) [
        | inl e ↦
            let same : s.name ≡ k = (str_eq_iff s.name k).0 e in
            let stored : lookup k (insert s.name s m) ≡ some s =
              lookup-insert s.name k s m ∙ rw e refl in
            let old : lookup k m ≡ none = subst (λ j. lookup j m ≡ none) same q in
            (
              λ found. elim (fwd found) [
                | inl a ↦
                    let s_is : s ≡ x = ground (arith, a, stored) in
                    inr (inl s_is, subst (λ y. y.name ≡ k) s_is same)
                | inr (a, n) ↦ inr (inr a, n)
              ],
              λ where_to. elim where_to [
                | inl a ↦ absurd (ground (arith, a, old))
                | inr (inl s_is, n) ↦ bwd (inl (stored ∙ ap some s_is))
                | inr (inr a, n) ↦ bwd (inr (a, n))
              ],
            )
        | inr e ↦
            let kept : lookup k (insert s.name s m) ≡ lookup k m =
              lookup-insert s.name k s m ∙ rw e refl in
            (
              λ found. elim (fwd found) [
                | inl a ↦ inl (sym kept ∙ a)
                | inr (a, n) ↦ inr (inr a, n)
              ],
              λ where_to. elim where_to [
                | inl a ↦ bwd (inl (kept ∙ a))
                | inr (inl s_is, n) ↦
                    absurd (ground (arith, e, str_eq_iff s.name k, ap spec_name s_is ∙ n))
                | inr (inr a, n) ↦ bwd (inr (a, n))
              ],
            )
      ]
]

-- The services in an order in which each stands behind its dependencies, each exactly once.
pub record IsPlan (services plan : List ServiceSpec) : Type 0 where
  pub behind : IsBehind [] plan
  pub distinct : IsDistinct (map spec_name plan)
  pub given : All (λ x. Among x services) plan
  pub complete : All (λ x. Among x plan) services

index-names :
    (m : Map ServiceSpec) (k : Str) (x : ServiceSpec)
    → lookup k m ≡ some x
    → Among k (map name_in m)
index-names m k x h = Among-map name_in (k, x) m (lookup-Among k x m h)

pub Inv-start : (m : Map ServiceSpec) → Inv m start
unfolding lookup
Inv-start m = record {
  placed = λ k. (λ e. cc, λ a. absurd (ground (arith, a)));
  behind = tt;
  distinct = tt;
  given = tt;
}

module _ (services : List ServiceSpec) (m : Map ServiceSpec)
    (index : index_from [] services ≡ some m) where
  pub found_iff :
      (k : Str) (x : ServiceSpec) → (lookup k m ≡ some x) ↔ (Among x services × (x.name ≡ k))
  unfolding lookup
  found_iff k x = ground (arith, lookup-index [] m services k x index)

  search-IsVisited :
      IsVisited m start
        (sort_strings (map name_in m))
        (visit_all (visit m (suc (length m))) (sort_strings (map name_in m)) start)
  search-IsVisited =
      visit_all-IsVisited m (visit m (suc (length m))) (suc (length m))
        (visit-IsVisited m (λ k x h. ((found_iff k x).0 h).1) (suc (length m)))
        (sort_strings (map name_in m)) start (Inv-start m) (omega (arith, unmarked-length m start))

  IsVisited-IsPlan :
      (t : Search)
      → IsVisited m start (sort_strings (map name_in m)) (done t)
      → IsPlan services t.ordered
  IsVisited-IsPlan t (inv, _, seen) = record {
    behind = inv.behind;
    distinct = inv.distinct;
    given = All-map t.ordered (λ x h. ((found_iff x.name x).0 h).0) inv.given;
    complete =
        Among-All (λ x. Among x t.ordered) services
          λ x a.
            let listed = (found_iff x.name x).1 (a, refl) in
            let marked =
              All-Among (λ k. mark_of t k ≡ some visited) x.name (sort_strings (map name_in m)) seen
                ((Among-sort_strings x.name (map name_in m)).1 (index-names m x.name x listed)) in
            let (y, placed, named) =
              map-Among spec_name x.name t.ordered ((inv.placed x.name).0 marked) in
            let y_found : lookup y.name m ≡ some y =
              All-Among (λ z. lookup z.name m ≡ some z) y t.ordered inv.given placed in
            let at_name : lookup y.name m ≡ some x = rw named listed in
            let same : y ≡ x = ground (arith, y_found, at_name) in
            subst (λ z. Among z t.ordered) same placed;
  }

-- What OrderServices returns are the given services, each exactly once, and each behind all of its
-- dependencies.
pub order_services-IsPlan :
    (services : List ServiceSpec) (t : Search)
    → order_services services ≡ done t
    → IsPlan services t.ordered
unfolding order_services
order_services-IsPlan services t h = elim (Option-cases (index_from [] services)) [
  | inl q ↦ absurd (ground (arith, h, q))
  | inr (m, q) ↦
      let e : visit_all (visit m (suc (length m))) (sort_strings (map name_in m)) start ≡ done t =
        rw q at h in
      IsVisited-IsPlan services m q t
        (subst (IsVisited m start (sort_strings (map name_in m))) e (search-IsVisited services m q))
]

-- OrderServices returns for every list of services, cyclic ones and repeated names included.
pub order_services-ends : (services : List ServiceSpec) → order_services services ≢ out_of_fuel
unfolding order_services
order_services-ends services h = elim (Option-cases (index_from [] services)) [
  | inl q ↦ absurd (ground (arith, h, q))
  | inr (m, q) ↦
      let e : visit_all (visit m (suc (length m))) (sort_strings (map name_in m)) start
          ≡ out_of_fuel =
        rw q at h in
      let no =
        subst (IsVisited m start (sort_strings (map name_in m))) e
          (search-IsVisited services m q) in
      absurd (ground (arith, no))
]
