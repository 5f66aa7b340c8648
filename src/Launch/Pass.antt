-- ===== src/Launch/Pass.antt =====
-- What the parts of `Reconcile` return and add to the log.
use skret.Base.{
  ◌≡◌, refl, sym, ◌∙◌, subst, arith, Bool, true, false, ◌&&◌, List, [], ◌∷◌, ◌++◌, Option, none,
  some, Str, Map, map, str_eq, str_eq_iff, lookup, insert, lookup-insert, Bool-cases, inl, inr, All,
  All-append, Among,
}
use skret.Launch.Data.{Manifest, ServiceAuthority, key_name}
use skret.Launch.Signed.{Reply, returned, failed}
use skret.Launch.Trust.{Crypto}
use skret.Launch.Model.{ServiceSpec}
use skret.Launch.Order.{Search, Visit, done, runtime_error, out_of_fuel, order_services}
use skret.Launch.Order.Plan.{order_services-IsPlan}
use skret.Launch.Supervisor.{
  Container, inspected, fetched, Runtime, State, Action, ◌>>=◌, bind, pure, note, error_as, Pending,
}
use skret.Launch.Reconcile.{
  require_order, by_name_from, keep, is_match, has_session, reusable, sort_one, sort_out, fetch_all,
}
use skret.Launch.Passes.{here, more}
use skret.Launch.Steps.{IsQuiet, bind-Quiet}

pub by_name_from-named :
    (m : Map ServiceSpec) (xs : List ServiceSpec)
    → ((d : Str) (x : ServiceSpec) → lookup d m ≡ some x → x.name ≡ d)
    → (d : Str) (x : ServiceSpec) → lookup d (by_name_from m xs) ≡ some x
    → x.name ≡ d
unfolding by_name_from
by_name_from-named m [] named d x = named d x
by_name_from-named m (y ∷ xs) named d' x' =
    by_name_from-named (insert y.name y m) xs
      (λ d x h. elim (Bool-cases (str_eq y.name d)) [
        | inl q ↦
            let e : some y ≡ some x = sym (lookup-insert y.name d y m ∙ rw q refl) ∙ h in
            let same : y ≡ x = ground (arith, e) in
            subst (λ z. z.name ≡ d) same ((str_eq_iff y.name d).0 q)
        | inr q ↦ named d x (sym (lookup-insert y.name d y m ∙ rw q refl) ∙ h)
      ])
      d' x'

-- A value that the routine returns has the property.
abbrev pub Returns : {A : Type 0} → (A → Type 0) → Action A → Type 0
Returns {A} P act = (s : State) (a : A) → (act s).0 ≡ returned a → P a

bind-Returns :
    {A B : Type 0} (P : B → Type 0) (act : Action A) (f : A → Action B)
    → ((s : State) (a : A) → (act s).0 ≡ returned a → Returns P (f a))
    → Returns P (act >>= f)
bind-Returns {A} {B} P act f next s b h = after (act s).0 (act s).1 (next s) h
  where
    after :
        (r : Reply A) (t : State)
        → ((a : A) → r ≡ returned a → Returns P (f a))
        → (bind r f t).0 ≡ returned b
        → P b
    after (returned a) t g e = g a refl t b e
    after (failed x) t g e = absurd (ground (arith, e))

abbrev pub AreOf : List ServiceSpec → List Str × List Pending → Type 0
AreOf specs found = All (λ p. Among p.service specs) found.1

pub require_order-Returns :
    (services : List ServiceSpec)
    → Returns (λ xs. All (λ x. Among x services) xs) (require_order (order_services services))
require_order-Returns services =
    from (order_services services) (λ t e. (order_services-IsPlan services t e).given)
  where
    from :
        (v : Visit)
        → ((t : Search) → v ≡ done t → All (λ x. Among x services) t.ordered)
        → Returns (λ xs. All (λ x. Among x services) xs) (require_order v)
    from (done t) g s xs h =
        let e : t.ordered ≡ xs = ground (arith, h) in
        subst (All (λ x. Among x services)) e (g t refl)
    from runtime_error g s xs h = absurd (ground (arith, h))
    from out_of_fuel g s xs h = absurd (ground (arith, h))

module _ (crypto : Crypto) (digest : Str → List ServiceSpec → Str) (runtime : Runtime)
    (m : Manifest) where
  sort_one-AreOf :
      (specs : List ServiceSpec) (a : Option ServiceAuthority) (x : ServiceSpec)
      (existing : List Container) (before : List Str × List Pending) (reuse : Bool)
      → Among x specs
      → AreOf specs before
      → Returns (AreOf specs) (sort_one crypto digest runtime a x existing before reuse)
  sort_one-AreOf specs a x existing before true h hs s r e =
      let same : (before.0 ++ x.name ∷ [], before.1) ≡ r = ground (arith, e) in
      subst (AreOf specs) same hs
  sort_one-AreOf specs none x existing before false h hs s r e = absurd (ground (arith, e))
  sort_one-AreOf specs (some a) x existing before false h hs s r e =
      let p : Pending = record { service = x; authority = a; old = existing } in
      let same : (before.0, before.1 ++ p ∷ []) ≡ r = ground (arith, e) in
      subst (AreOf specs) same
        (All-append (λ q. Among q.service specs) before.1 (p ∷ []) hs (h, tt))

  pub sort_out-AreOf :
      (specs : List ServiceSpec) (authorities : Map ServiceAuthority) (containers : List Container)
      (xs : List ServiceSpec) (before : List Str × List Pending)
      → All (λ x. Among x specs) xs
      → AreOf specs before
      → Returns (AreOf specs) (sort_out crypto digest runtime m authorities containers xs before)
  unfolding sort_out
  sort_out-AreOf specs authorities containers [] before hx hb =
      λ s r e. let same : before ≡ r = ground (arith, e) in subst (AreOf specs) same hb
  sort_out-AreOf specs authorities containers (x ∷ xs) before hx hb =
      let existing = keep (is_match crypto m x) containers in
      let a = lookup x.name authorities in
      bind-Returns (AreOf specs) (reusable crypto digest runtime m x existing)
        (λ reuse. sort_one crypto digest runtime a x existing before reuse >>= λ next.
          sort_out crypto digest runtime m authorities containers xs next)
        λ _ reuse _.
          bind-Returns (AreOf specs) (sort_one crypto digest runtime a x existing before reuse)
            (λ next. sort_out crypto digest runtime m authorities containers xs next)
            λ s next e.
              sort_out-AreOf specs authorities containers xs next hx.1
                (sort_one-AreOf specs a x existing before reuse hx.0 hb s next e)

  reusable-Quiet :
      (x : ServiceSpec) (cs : List Container) → IsQuiet (reusable crypto digest runtime m x cs)
  reusable-Quiet x [] s = here
  reusable-Quiet x (c ∷ d ∷ cs) s = here
  reusable-Quiet x (c ∷ []) s =
      elim (Bool-cases (c.running && has_session crypto digest runtime c.id s)) [
        | inl q ↦ rw (q, reusable) (more (inspected c.id (runtime.inspect s.log c.id)) refl here)
        | inr q ↦ rw (q, reusable) here
      ]

  sort_one-Quiet :
      (a : Option ServiceAuthority) (x : ServiceSpec) (existing : List Container)
      (before : List Str × List Pending) (reuse : Bool)
      → IsQuiet (sort_one crypto digest runtime a x existing before reuse)
  sort_one-Quiet a x existing before true s = here
  sort_one-Quiet none x existing before false s = here
  sort_one-Quiet (some a) x existing before false s = here

  pub sort_out-Quiet :
      (authorities : Map ServiceAuthority) (containers : List Container) (xs : List ServiceSpec)
      (before : List Str × List Pending)
      → IsQuiet (sort_out crypto digest runtime m authorities containers xs before)
  unfolding sort_out
  sort_out-Quiet authorities containers [] before = λ s. here
  sort_out-Quiet authorities containers (x ∷ xs) before =
      let existing = keep (is_match crypto m x) containers in
      let a = lookup x.name authorities in
      bind-Quiet (reusable crypto digest runtime m x existing)
        (λ reuse. sort_one crypto digest runtime a x existing before reuse >>= λ next.
          sort_out crypto digest runtime m authorities containers xs next)
        (reusable-Quiet x existing)
        λ reuse.
          bind-Quiet (sort_one crypto digest runtime a x existing before reuse)
            (λ next. sort_out crypto digest runtime m authorities containers xs next)
            (sort_one-Quiet a x existing before reuse)
            λ next. sort_out-Quiet authorities containers xs next

  pub fetch_all-Quiet : (ps : List Pending) → IsQuiet (fetch_all crypto digest runtime ps)
  unfolding fetch_all
  fetch_all-Quiet [] = λ s. here
  fetch_all-Quiet (p ∷ ps) =
      let rest = fetch_all crypto digest runtime ps in
      bind-Quiet {A = Unit {0}} {B = List Str}
        (λ s. (error_as (runtime.fetch s.log p.authority.keys), note (fetched p.authority.keys) s))
        (λ _. rest >>= λ names. pure (map key_name p.authority.keys ++ names))
        (λ s. more (fetched p.authority.keys) refl here)
        λ _.
          bind-Quiet {B = List Str} rest (λ names. pure (map key_name p.authority.keys ++ names))
            (fetch_all-Quiet ps) (λ _ s. here)
