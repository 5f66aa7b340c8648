-- ===== src/Launch/Steps.antt =====
-- What the routines of the supervisor add to the log of a pass.
use skret.Base.{
  ℕ, suc, ◌≡◌, refl, sym, subst, arith, Bool, true, false, List, [], ◌∷◌, some, Str, Map,
  if◌then◌else◌, lookup, Option-cases, Bool-cases, ◌⊎◌, inl, inr, All,
}
use skret.Launch.Data.{Manifest}
use skret.Launch.Fields.{fail, err_runtime}
use skret.Launch.Authority.{is_among}
use skret.Launch.Signed.{Reply, returned, failed}
use skret.Launch.Trust.{Crypto}
use skret.Launch.Model.{ServiceSpec}
use skret.Launch.Labels.{ownership_labels}
use skret.Launch.Supervisor.{
  Container, Event, listed, inspected, removed, closed, Runtime, State, Action, ◌>>=◌, bind, pure,
  throw, note, close_session, remove, remove_all, is_dependency, is_ready, check_containers,
  check_dependencies,
}
use skret.Launch.Passes.{IsUp, Quiet, here, more, Quiet-trans, IsUp-Quiet}

-- The routine adds quiet events only.
abbrev pub IsQuiet : {A : Type 0} → Action A → Type 0
IsQuiet act = (s : State) → Quiet s.log (act s).1.log

bind-Quiet_reply :
    {A B : Type 0} (log : List Event) (r : Reply A) (t : State) (f : A → Action B)
    → Quiet log t.log
    → ((a : A) → IsQuiet (f a))
    → Quiet log (bind r f t).1.log
bind-Quiet_reply log (returned a) t f h q = Quiet-trans h (q a t)
bind-Quiet_reply log (failed e) t f h q = h

pub bind-Quiet :
    {A B : Type 0} (act : Action A) (f : A → Action B)
    → IsQuiet act
    → ((a : A) → IsQuiet (f a))
    → IsQuiet (act >>= f)
bind-Quiet act f p q s = bind-Quiet_reply s.log (act s).0 (act s).1 f (p s) q

module _ (crypto : Crypto) (runtime : Runtime) where
  close_session-Quiet : (id : Str) (s : State) → Quiet s.log (close_session id s).log
  unfolding close_session
  close_session-Quiet id s = elim (Bool-cases (is_among id s.sessions)) [
    | inl q ↦ rw (q, close_session) (more (closed id) refl here)
    | inr q ↦ rw (q, close_session) here
  ]

  pub remove_all-Quiet : (cs : List Container) (n : ℕ) → IsQuiet (remove_all crypto runtime cs n)
  unfolding remove_all
  remove_all-Quiet [] n = λ s. here
  remove_all-Quiet (c ∷ cs) n =
      let rest = remove_all crypto runtime cs (suc n) in
      bind-Quiet {B = ℕ} (λ s. pure tt (close_session c.id s))
        (λ _. remove crypto runtime c.id >>= λ _. rest) (close_session-Quiet c.id)
        λ _.
          bind-Quiet {B = ℕ} (remove crypto runtime c.id) (λ _. rest)
            (λ s. more (removed c.id (runtime.remove s.log c.id)) refl here)
            λ _. remove_all-Quiet cs (suc n)

  module _ (m : Manifest) where
    -- The check added quiet events, and where it found a container this was up.
    abbrev IsChecked : Str → Bool → Reply Bool → List Event → List Event → Type 0
    IsChecked d found (returned true) a b = Quiet a b × ((found ≡ true) ⊎ IsUp crypto m b d)
    IsChecked d found _ a b = Quiet a b

    IsChecked-later :
        (d : Str) (found : Bool) (r : Reply Bool) (a b c : List Event)
        → Quiet a b
        → IsUp crypto m b d
        → IsChecked d true r b c
        → IsChecked d found r a c
    IsChecked-later d found (returned true) a b c q up (q', _) =
        (Quiet-trans q q', inr (IsUp-Quiet crypto m b c d q' up))
    IsChecked-later d found (returned false) a b c q up q' = Quiet-trans q q'
    IsChecked-later d found (failed e) a b c q up q' = Quiet-trans q q'

    ready-IsUp :
        (d id : Str) (r : Reply Container) (log : List Event)
        → is_ready crypto runtime m d r ≡ true
        → IsUp crypto m (inspected id r ∷ log) d
    ready-IsUp d id (failed e) log h = cc
    ready-IsUp d id (returned c) log h = record {
      id = id;
      container = c;
      seen = inl refl;
      running = ground (arith, h);
      healthy = ground (arith, h);
      owned = ground (arith, h);
    }

    check_containers-IsChecked :
        (dependency d : Str) (found : Bool) (cs : List Container) (s : State)
        → IsChecked d found
            (check_containers crypto runtime m dependency d found cs s).0
            s.log
            (check_containers crypto runtime m dependency d found cs s).1.log
    unfolding check_containers
    check_containers-IsChecked dependency d true [] s = (here, inl refl)
    check_containers-IsChecked dependency d false [] s = here
    check_containers-IsChecked dependency d found (c ∷ cs) s =
        elim (Bool-cases (is_dependency crypto runtime m dependency d c)) [
          | inr q ↦ rw (q, check_containers) (check_containers-IsChecked dependency d found cs s)
          | inl q ↦
              let state = runtime.inspect s.log c.id in
              elim (Bool-cases (is_ready crypto runtime m d state)) [
                | inr r ↦ rw (q, r, check_containers) (more (inspected c.id state) refl here)
                | inl r ↦
                    let t = note (inspected c.id state) s in
                    let rest = check_containers crypto runtime m dependency d true cs t in
                    rw (q, r, check_containers)
                      (IsChecked-later d found rest.0 s.log t.log rest.1.log
                        (more (inspected c.id state) refl here) (ready-IsUp d c.id state s.log r)
                        (check_containers-IsChecked dependency d true cs t))
              ]
        ]

    -- The checks added quiet events, and where they passed every dependency was up.
    abbrev pub IsCheckedAll : List Str → Reply (Unit {0}) → List Event → List Event → Type 0
    IsCheckedAll ds (returned _) a b = Quiet a b × All (IsUp crypto m b) ds
    IsCheckedAll ds (failed e) a b = Quiet a b

    IsCheckedAll-later :
        (d : Str) (ds : List Str) (r : Reply (Unit {0})) (a b c : List Event)
        → Quiet a b
        → IsUp crypto m b d
        → IsCheckedAll ds r b c
        → IsCheckedAll (d ∷ ds) r a c
    IsCheckedAll-later d ds (returned _) a b c q up (q', all) =
        (Quiet-trans q q', (IsUp-Quiet crypto m b c d q' up, all))
    IsCheckedAll-later d ds (failed e) a b c q up q' = Quiet-trans q q'

    -- Behind the look at the containers of one dependency.
    IsCheckedAll-found :
        (d : Str) (ds : List Str) (r : Reply Bool) (a : List Event) (b t : State)
        (f : Action (Unit {0}))
        → Quiet a b.log
        → IsChecked d false r b.log t.log
        → ((u : State) → IsCheckedAll ds (f u).0 u.log (f u).1.log)
        → IsCheckedAll
            (d ∷ ds)
            (bind r (λ found. if found then f else throw (fail err_runtime)) t).0
            a
            (bind r (λ found. if found then f else throw (fail err_runtime)) t).1.log
    IsCheckedAll-found d ds (failed e) a b t f q h next = Quiet-trans q h
    IsCheckedAll-found d ds (returned false) a b t f q h next = Quiet-trans q h
    IsCheckedAll-found d ds (returned true) a b t f q (h, inl e) next = absurd (ground (arith, e))
    IsCheckedAll-found d ds (returned true) a b t f q (h, inr up) next =
        IsCheckedAll-later d ds (f t).0 a t.log (f t).1.log (Quiet-trans q h) up (next t)

    pub check_dependencies-IsCheckedAll :
        (all : Map ServiceSpec)
        → ((d : Str) (x : ServiceSpec) → lookup d all ≡ some x → x.name ≡ d)
        → (ds : List Str) (s : State)
        → IsCheckedAll ds
            (check_dependencies crypto runtime m all ds s).0
            s.log
            (check_dependencies crypto runtime m all ds s).1.log
    unfolding check_dependencies
    check_dependencies-IsCheckedAll all named [] s = (here, tt)
    check_dependencies-IsCheckedAll all named (d ∷ ds) s = elim (Option-cases (lookup d all)) [
      | inl q ↦ rw (q, check_dependencies) here
      | inr (x, q) ↦
          let labels = ownership_labels crypto m in
          rw (q, check_dependencies)
            (with_list d ds x.name (named d x q) s (note (listed labels) s)
              (check_dependencies crypto runtime m all ds) (more (listed labels) refl here)
              (runtime.list s.log labels) (check_dependencies-IsCheckedAll all named ds))
    ]
      where
        with_list :
            (d : Str) (ds : List Str) (name : Str)
            → name ≡ d
            → (s t : State) (f : Action (Unit {0})) → Quiet s.log t.log
            → (r : Reply (List Container))
            → ((u : State) → IsCheckedAll ds (f u).0 u.log (f u).1.log)
            → IsCheckedAll
                (d ∷ ds)
                (bind r
                  (λ cs. check_containers crypto runtime m d name false cs >>= λ found.
                    if found then f else throw (fail err_runtime))
                  t).0
                s.log
                (bind r
                  (λ cs. check_containers crypto runtime m d name false cs >>= λ found.
                    if found then f else throw (fail err_runtime))
                  t).1.log
        with_list d ds name e s t f q (failed x) next = q
        with_list d ds name e s t f q (returned cs) next =
            let goal = λ (n : Str).
              let r =
                (check_containers crypto runtime m d n false cs >>= λ found.
                if found then f else throw (fail err_runtime))
                  t in
              IsCheckedAll (d ∷ ds) r.0 s.log r.1.log in
            subst goal (sym e) (
              IsCheckedAll-found d ds (check_containers crypto runtime m d d false cs t).0 s.log t
                (check_containers crypto runtime m d d false cs t).1 f q
                (check_containers-IsChecked d d false cs t) next)
