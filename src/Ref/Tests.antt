-- ===== src/Ref/Tests.antt =====
-- The expansion of internal/ref/ref.go at concrete values.
use skret.Base.{
  ◌≡◌, ◌≢◌, refl, Bool, true, Str, Option, none, some, codes, [], ◌∷◌, str_eq, if◌then◌else◌,
  all_bytes, has_prefix,
}
use skret.Ref.{
  out_of_fuel, missing, cycle, resolved, failed, resolve, expand, splice, follow, pieces, scan,
  span, cut_brace, is_ref_name, is_escaped, in_chain,
}
use skret.Ref.Tokens.{Becomes}
use skret.Ref.Spec.{resolve-Becomes}
use skret.Ref.Errors.{resolve-returns, resolve-IsJustified, IsJustified}

-- `URL` is made of `HOST`, and `LOOP` of itself.
abbrev scope : Str → Option Str
scope name =
    if str_eq name (codes "URL")
    then some (codes "http://${HOST}/")
    else if str_eq name (codes "HOST")
    then some (codes "db")
    else if str_eq name (codes "LOOP")
    then some (codes "${LOOP}")
    else none

-- All that a resolution calls.
executes : Bool
unfolding resolve expand splice follow pieces scan span cut_brace is_ref_name is_escaped in_chain
    all_bytes has_prefix str_eq
executes = true

abbrev nested : Str
nested = codes "u=${URL} $${URL} ${a.b} ${"

resolve-nested : resolve scope nested ≡ resolved (codes "u=http://db/ $${URL} ${a.b} ${")
unfolding executes
resolve-nested = refl

resolve-loop : resolve scope (codes "${LOOP}") ≡ failed (cycle (codes "LOOP" ∷ codes "LOOP" ∷ []))
unfolding executes
resolve-loop = refl

resolve-missing :
    resolve scope (codes "${NONE}") ≡ failed (missing (codes "NONE") (codes "NONE" ∷ []))
unfolding executes
resolve-missing = refl

resolve-Becomes_example : Becomes scope none nested (codes "u=http://db/ $${URL} ${a.b} ${")
resolve-Becomes_example =
    resolve-Becomes scope nested (codes "u=http://db/ $${URL} ${a.b} ${") resolve-nested

resolve-returns_example : resolve scope (codes "${LOOP}") ≢ failed out_of_fuel
resolve-returns_example = resolve-returns scope (codes "${LOOP}")

resolve-IsJustified_example :
    IsJustified scope (codes "${LOOP}") (cycle (codes "LOOP" ∷ codes "LOOP" ∷ []))
resolve-IsJustified_example =
    resolve-IsJustified scope (codes "${LOOP}") (cycle (codes "LOOP" ∷ codes "LOOP" ∷ []))
      resolve-loop
