-- ===== src/Launch/Order/Tests.antt =====
-- The order of services at concrete models.
use skret.Base.{
  ℕ, ◌≡◌, ◌≢◌, refl, arith, List, [], ◌∷◌, map, Str, codes, inl, inr, lookup, insert, str_eq,
  str_lt, sort_strings, length,
}
use skret.Launch.Ascending.{IsDistinct}
use skret.Launch.Samples.{db, api}
use skret.Launch.Model.{ServiceSpec, spec_of}
use skret.Launch.Order.{
  Search, visited, done, runtime_error, out_of_fuel, visit_all, visit, index_from, order_services,
}
use skret.Launch.Order.Visits.{spec_name}
use skret.Launch.Order.Plan.{IsPlan, order_services-IsPlan, order_services-ends}
use skret.Launch.Order.Returns.{IsAcyclic, order_services-returns}

executes : ℕ
unfolding visit_all visit index_from order_services lookup insert str_eq str_lt sort_strings
executes = 0

abbrev services : List ServiceSpec
services = spec_of api ∷ spec_of db ∷ []

abbrev found : Search
found = record {
  marks = (codes "api", visited) ∷ (codes "db", visited) ∷ [];
  ordered = spec_of db ∷ spec_of api ∷ [];
}

services-ordered : order_services services ≡ done found
unfolding executes
services-ordered = refl

-- A cycle, a dependency that is no service, and a name that comes twice.
refused-models :
    (order_services (record (spec_of db) { dependencies = codes "api" ∷ [] } ∷ spec_of api ∷ [])
      ≡ runtime_error)
    × (order_services (spec_of api ∷ []) ≡ runtime_error)
    × (order_services (spec_of db ∷ spec_of db ∷ []) ≡ runtime_error)
unfolding executes
refused-models = (refl, refl, refl)

order_services-IsPlan_example : IsPlan services (spec_of db ∷ spec_of api ∷ [])
order_services-IsPlan_example = order_services-IsPlan services found services-ordered

order_services-ends_example :
    order_services (record (spec_of db) { dependencies = codes "db" ∷ [] } ∷ []) ≢ out_of_fuel
order_services-ends_example =
    order_services-ends (record (spec_of db) { dependencies = codes "db" ∷ [] } ∷ [])

abbrev by_length : Str → ℕ
by_length name = length name

services-IsDistinct : IsDistinct (map spec_name services)
services-IsDistinct = (((λ e. absurd (ground (arith, e))), tt), (tt, tt))

services-IsAcyclic : IsAcyclic by_length services
services-IsAcyclic = (((inr (inl refl), omega arith), tt), (tt, tt))

order_services-returns_example : (t : Search) × (order_services services ≡ done t)
order_services-returns_example =
    order_services-returns services by_length services-IsDistinct services-IsAcyclic
