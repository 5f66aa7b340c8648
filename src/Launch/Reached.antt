-- ===== src/Launch/Reached.antt =====
-- `Reconcile` as a whole: whom the secrets reach, and which containers a pass leaves.
use skret.Base.{
  ◌≡◌, refl, arith, true, false, inl, List, [], ◌∷◌, Option, none, some, Str, lookup, ℤ, All, Among,
}
use skret.Launch.Data.{Manifest}
use skret.Launch.Fields.{LaunchError}
use skret.Launch.Signed.{Reply, returned, failed}
use skret.Launch.Trust.{Crypto}
use skret.Launch.Model.{ServiceSpec, RenderedModel, validate_manifest_model}
use skret.Launch.Authority.{validate_at}
use skret.Launch.Labels.{scope_labels}
use skret.Launch.Order.{Visit, done, runtime_error, out_of_fuel, order_services}
use skret.Launch.Supervisor.{
  Container, Event, listed, rendered, Runtime, State, Action, ◌>>=◌, bind, note, list_containers,
  remove_all, launch_all, Reconciled,
}
use skret.Launch.Reconcile.{
  require, require_order, by_name_from, authorities_from, validate_dependencies, keep, is_stale,
  sort_out, fetch_all, render, reconcile_services, reconcile,
}
use skret.Launch.Passes.{
  unsettled, IsGuarded, IsSound, IsSound-trans, Quiet, here, more, Quiet-IsSound,
}
use skret.Launch.Steps.{IsQuiet, remove_all-Quiet}
use skret.Launch.Guarded.{IsSoundAction, bind-Sound, Quiet-Sound, launch_all-IsSound}
use skret.Launch.Pass.{
  by_name_from-named, Returns, AreOf, require_order-Returns, sort_out-AreOf, sort_out-Quiet,
  fetch_all-Quiet,
}

require-Quiet : (o : Option LaunchError) → IsQuiet (require o)
require-Quiet o s = here

require_order-Quiet : (v : Visit) → IsQuiet (require_order v)
require_order-Quiet (done t) s = here
require_order-Quiet runtime_error s = here
require_order-Quiet out_of_fuel s = here

no_name : (d : Str) (x : ServiceSpec) → lookup d [] ≡ some x → x.name ≡ d
unfolding lookup
no_name d x h = absurd (ground (arith, h))

none_among : (xs : List Str) → ((x : Str) → Among x xs → true ≡ false) → xs ≡ []
none_among [] f = refl
none_among (x ∷ xs) f = absurd (ground (arith, f x (inl refl)))

module _ (crypto : Crypto) (digest : Str → List ServiceSpec → Str) (runtime : Runtime)
    (m : Manifest) where
  bind-Sound_value :
      {A B : Type 0} (specs : List ServiceSpec) (P : A → Type 0) (act : Action A) (f : A → Action B)
      → IsQuiet act
      → Returns P act
      → ((a : A) → P a → IsSoundAction crypto runtime m specs (f a))
      → IsSoundAction crypto runtime m specs (act >>= f)
  bind-Sound_value {A} {B} specs P act f q returns next s =
      after (act s).0 (act s).1 (q s) (returns s)
    where
      after :
          (r : Reply A) (t : State)
          → Quiet s.log t.log
          → ((a : A) → r ≡ returned a → P a)
          → IsSound crypto m specs s.log (bind r f t).1.log
      after (returned a) t h g =
          IsSound-trans crypto m specs s.log t.log (f a t).1.log
            (Quiet-IsSound crypto m specs s.log t.log h) (next a (g a refl) t)
      after (failed e) t h g = Quiet-IsSound crypto m specs s.log t.log h

  bind-Sound_quiet :
      {A B : Type 0} (specs : List ServiceSpec) (act : Action A) (f : A → Action B)
      → IsQuiet act
      → ((a : A) → IsSoundAction crypto runtime m specs (f a))
      → IsSoundAction crypto runtime m specs (act >>= f)
  bind-Sound_quiet specs act f q next =
      bind-Sound crypto runtime m specs act f (Quiet-Sound crypto runtime m specs act q) next

  pub reconcile_services-IsSound :
      (r : RenderedModel) (containers : List Container)
      → IsSoundAction crypto runtime m r.services
          (reconcile_services crypto digest runtime m r containers)
  unfolding reconcile_services
  reconcile_services-IsSound r containers =
      let specs = r.services in
      let all = by_name_from [] r.services in
      let authorities = authorities_from [] m.services in
      bind-Sound_value specs (All (λ x. Among x specs)) (require_order (order_services specs)) _
        (λ s. require_order-Quiet (order_services specs) s) (require_order-Returns specs)
        λ ordered known.
          bind-Sound_quiet specs (require (validate_dependencies ordered all)) _ (λ s. here)
            λ _.
              bind-Sound_value specs (AreOf specs)
                (sort_out crypto digest runtime m authorities containers ordered ([], [])) _
                (sort_out-Quiet crypto digest runtime m authorities containers ordered ([], []))
                (sort_out-AreOf crypto digest runtime m specs authorities containers ordered
                  ([], []) known tt)
                λ sorted of_specs.
                  bind-Sound_quiet specs (fetch_all crypto digest runtime sorted.1) _
                    (fetch_all-Quiet crypto digest runtime m sorted.1)
                    λ keys.
                      bind-Sound_quiet specs
                        (remove_all crypto runtime (keep (is_stale crypto m all) containers) 0) _
                        (remove_all-Quiet crypto runtime (keep (is_stale crypto m all) containers)
                          0)
                        λ stale.
                          bind-Sound crypto runtime m specs
                            (launch_all crypto runtime m all sorted.1 stale) _
                            (launch_all-IsSound crypto runtime m specs all
                              (by_name_from-named [] specs no_name) sorted.1 stale of_specs)
                            (λ launched s. Quiet-IsSound crypto m specs s.log s.log here)

  require-IsSound :
      (specs : List ServiceSpec) (o : Option LaunchError) (act : Action Reconciled) (s : State)
      → IsSound crypto m specs s.log (act s).1.log
      → IsSound crypto m specs s.log ((require o >>= λ _. act) s).1.log
  require-IsSound specs none act s h = h
  require-IsSound specs (some e) act s h = Quiet-IsSound crypto m specs s.log s.log here

  abbrev chosen : RenderedModel → Reply RenderedModel → RenderedModel
  chosen model (returned r) = r
  chosen model (failed e) = model

  -- The rendered model, of which a pass starts the services.
  abbrev pub rendered_model : RenderedModel → State → RenderedModel
  rendered_model model s = chosen model (runtime.render s.log model)

  -- What follows the rendering of the model.
  abbrev behind_render : RenderedModel → Action Reconciled
  behind_render r = do
    _ ← require (validate_manifest_model digest m r)
    containers ← list_containers crypto runtime (scope_labels m)
    reconcile_services crypto digest runtime m r containers

  behind_render-IsSound :
      (r : RenderedModel) → IsSoundAction crypto runtime m r.services (behind_render r)
  behind_render-IsSound r =
      bind-Sound_quiet r.services (require (validate_manifest_model digest m r))
        (λ _. list_containers crypto runtime (scope_labels m) >>= λ containers.
          reconcile_services crypto digest runtime m r containers)
        (λ s. here)
        λ _.
          bind-Sound_quiet r.services (list_containers crypto runtime (scope_labels m))
            (reconcile_services crypto digest runtime m r)
            (λ s. more (listed (scope_labels m)) refl here) (reconcile_services-IsSound r)

  render-IsSound :
      (model : RenderedModel) (s : State) (reply : Reply RenderedModel)
      → IsSound crypto m
          (chosen model reply).services
          s.log
          (bind reply behind_render (note rendered s)).1.log
  render-IsSound model s (returned r) =
      let t = note rendered s in
      IsSound-trans crypto m r.services s.log t.log (behind_render r t).1.log
        (Quiet-IsSound crypto m r.services s.log t.log (more rendered refl here))
        (behind_render-IsSound r t)
  render-IsSound model s (failed e) =
      Quiet-IsSound crypto m model.services s.log (rendered ∷ s.log) (more rendered refl here)

  pub reconcile-IsSound :
      (now : ℤ) (model : RenderedModel) (s : State)
      → IsSound crypto m
          (rendered_model model s).services
          s.log
          (reconcile crypto digest runtime now model m s).1.log
  unfolding reconcile
  reconcile-IsSound now model s =
      let specs = (rendered_model model s).services in
      let behind = render crypto digest runtime model >>= behind_render in
      require-IsSound specs (validate_at m now)
        (require (validate_manifest_model digest m model) >>= λ _. behind) s
        (require-IsSound specs (validate_manifest_model digest m model) behind s
          (render-IsSound model s (runtime.render s.log model)))

-- The state of a pass at its start
abbrev pub fresh : List Str → State
fresh sessions = record { log = []; sessions = sessions }

module _ (crypto : Crypto) (digest : Str → List ServiceSpec → Str) (runtime : Runtime)
    (m : Manifest) (now : ℤ) (model : RenderedModel) (sessions : List Str) where
  -- The calls of a pass, the newest first.
  abbrev pub calls : List Event
  calls = (reconcile crypto digest runtime now model m (fresh sessions)).1.log

  -- The services of the model that the pass renders.
  abbrev pub rendered_services : List ServiceSpec
  rendered_services = (rendered_model crypto digest runtime m model (fresh sessions)).services

-- In a pass of Reconcile, whatever the runtime answers, secrets are sent only to a container that
-- the pass created for a service of the rendered model, to which it was attached and which it then
-- started, both without an error, after it had seen every dependency of the service running and
-- healthy under the labels of the manifest.
pub reconcile-IsGuarded :
    (crypto : Crypto) (digest : Str → List ServiceSpec → Str) (runtime : Runtime) (m : Manifest)
    (now : ℤ) (model : RenderedModel) (sessions : List Str)
    → IsGuarded crypto m
        (rendered_services crypto digest runtime m now model sessions)
        (calls crypto digest runtime m now model sessions)
reconcile-IsGuarded crypto digest runtime m now model sessions =
    (reconcile-IsSound crypto digest runtime m now model (fresh sessions)).guarded tt

-- For every container that a pass of Reconcile creates, the same pass keeps a session or calls
-- Remove, of which the answer is dropped, whatever the runtime answers and wherever the pass fails.
pub reconcile-settled :
    (crypto : Crypto) (digest : Str → List ServiceSpec → Str) (runtime : Runtime) (m : Manifest)
    (now : ℤ) (model : RenderedModel) (sessions : List Str)
    → unsettled (calls crypto digest runtime m now model sessions) ≡ []
reconcile-settled crypto digest runtime m now model sessions =
    let sound = reconcile-IsSound crypto digest runtime m now model (fresh sessions) in
    none_among (unsettled (calls crypto digest runtime m now model sessions))
      (λ id h. absurd (ground (arith, sound.settled id h)))
