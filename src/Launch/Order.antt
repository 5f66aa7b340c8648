-- ===== src/Launch/Order.antt =====
-- `OrderServices` of internal/secretlaunch/supervisor.go: a depth-first search that puts every
-- service behind its dependencies. The recursion runs on fuel; one more than the number of services
-- is enough (`Order.Plan`). The names of a map are sorted, so its order does not matter.
pub mod State
pub mod Visits
pub mod Plan
pub mod Ranked
pub mod Returns
mod Tests
use skret.Base.{
  ℕ, zero, suc, Bool, true, false, List, [], ◌∷◌, ◌++◌, Option, none, some, Str, Map, length,
  lookup, insert, map, sort_strings,
}
use skret.Launch.Model.{ServiceSpec}

-- The values 1 and 2 of `state`
pub data Mark : Type 0 where
  visiting visited : Mark

-- The variables that `visit` shares: `state` and `ordered`.
pub record Search : Type 0 where
  pub marks : Map Mark
  pub ordered : List ServiceSpec

pub data Visit : Type 0 where
  done : Search → Visit
  runtime_error : Visit
  out_of_fuel : Visit

abbrev pub and_then : Visit → (Search → Visit) → Visit
and_then (done s) f = f s
and_then runtime_error f = runtime_error
and_then out_of_fuel f = out_of_fuel

-- The loop over names, with the visit of each as a parameter
unfoldable pub visit_all : (Str → Search → Visit) → List Str → Search → Visit
visit_all again [] s = done s
visit_all again (name ∷ names) s = and_then (again name s) (visit_all again names)

-- `state[name] = m`
abbrev pub mark : Str → Mark → Search → Search
mark name m s = record s { marks = insert name m s.marks }

-- `state[name] = 2`, and the service joins `ordered`
abbrev pub place : ServiceSpec → Str → Search → Search
place service name s = record {
  marks = insert name visited s.marks;
  ordered = s.ordered ++ service ∷ [];
}

-- Behind the look-up of the service: its dependencies, sorted, and then itself.
abbrev pub enter : (Str → Search → Visit) → Str → Option ServiceSpec → Search → Visit
enter again name none s = runtime_error
enter again name (some service) s =
    and_then (visit_all again (sort_strings service.dependencies) (mark name visiting s))
      (λ t. done (place service name t))

-- The switch over `state[name]`
abbrev pub by_mark : Option Mark → Search → Visit → Visit
by_mark (some visiting) s r = runtime_error
by_mark (some visited) s r = done s
by_mark none s r = r

-- `visit`
unfoldable pub visit : Map ServiceSpec → ℕ → Str → Search → Visit
unfolding visit_all
visit by_name zero name s = out_of_fuel
visit by_name (suc fuel) name s =
    by_mark (lookup name s.marks) s (enter (visit by_name fuel) name (lookup name by_name) s)

-- The first loop: the services by their names, or `none` where a name comes twice.
unfoldable pub index_from : Map ServiceSpec → List ServiceSpec → Option (Map ServiceSpec)
unfolding lookup insert
index_from m [] = some m
index_from m (s ∷ ss) =
    let rest = index_from (insert s.name s m) ss in
    elim (lookup s.name m) [ some _ ↦ none | none ↦ rest ]

abbrev pub start : Search
start = record { marks = []; ordered = [] }

abbrev pub name_in : Str × ServiceSpec → Str
name_in e = e.0

abbrev search_from : Option (Map ServiceSpec) → Visit
search_from none = runtime_error
search_from (some m) = visit_all (visit m (suc (length m))) (sort_strings (map name_in m)) start

-- `OrderServices`
unfoldable pub order_services : List ServiceSpec → Visit
unfolding index_from visit visit_all sort_strings
order_services services = search_from (index_from [] services)
