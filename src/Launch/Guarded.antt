-- ===== src/Launch/Guarded.antt =====
-- A launch of the supervisor: whom secrets reach, and that each container gets a session or a Remove.
use skret.Base.{
  none, some, Option, arith, ℕ, ◌≡◌, refl, sym, subst, List, [], ◌∷◌, Str, Map, str_eq_refl, lookup,
  Bool-cases, inl, inr, All, Among,
}
use skret.Launch.Data.{Manifest}
use skret.Launch.Fields.{LaunchError}
use skret.Launch.Authority.{is_among}
use skret.Launch.Signed.{Reply, returned, failed}
use skret.Launch.Trust.{Crypto}
use skret.Launch.Model.{ServiceSpec}
use skret.Launch.Labels.{launch_labels}
use skret.Launch.Supervisor.{
  Container, Event, created, attached, started, sent, Runtime, State, Action, ◌>>=◌, bind, pure,
  note, without, track_session, send_answered, start_answered, attach_answered, Pending, remove_all,
  check_dependencies, create, launch_container, launch, launch_all,
}
use skret.Launch.Passes.{
  unsettled, IsUp, IsReady, IsGuarded, here, IsSound, IsSound-trans, Quiet-IsSound, Among-without,
}
use skret.Launch.Steps.{IsQuiet, remove_all-Quiet, IsCheckedAll, check_dependencies-IsCheckedAll}

-- The container that was just created and is then settled leaves no other behind.
without-self : (x id : Str) (ys : List Str) → Among x (without id (id ∷ ys)) → Among x ys
unfolding without
without-self x id ys h = Among-without x id ys (rw (str_eq_refl id, without) at h)

module _ (crypto : Crypto) (runtime : Runtime) (m : Manifest) (specs : List ServiceSpec) where
  abbrev pub IsSoundAction : {A : Type 0} → Action A → Type 0
  IsSoundAction act = (s : State) → IsSound crypto m specs s.log (act s).1.log

  bind-Sound_reply :
      {A B : Type 0} (log : List Event) (r : Reply A) (t : State) (f : A → Action B)
      → IsSound crypto m specs log t.log
      → ((a : A) → IsSoundAction (f a))
      → IsSound crypto m specs log (bind r f t).1.log
  bind-Sound_reply log (returned a) t f h q =
      IsSound-trans crypto m specs log t.log (f a t).1.log h (q a t)
  bind-Sound_reply log (failed e) t f h q = h

  pub bind-Sound :
      {A B : Type 0} (act : Action A) (f : A → Action B)
      → IsSoundAction act
      → ((a : A) → IsSoundAction (f a))
      → IsSoundAction (act >>= f)
  bind-Sound act f p q s = bind-Sound_reply s.log (act s).0 (act s).1 f (p s) q

  pub Quiet-Sound : {A : Type 0} (act : Action A) → IsQuiet act → IsSoundAction act
  Quiet-Sound act q s = Quiet-IsSound crypto m specs s.log (act s).1.log (q s)

  track_session-settled :
      (id x : Str) (s : State)
      → Among x (unsettled (track_session id s).log)
      → Among x (without id (unsettled s.log))
  unfolding track_session
  track_session-settled id x s h = elim (Bool-cases (is_among id s.sessions)) [
    | inl q ↦ rw (q, track_session) at h
    | inr q ↦ rw (q, track_session) at h
  ]

  track_session-guarded :
      (id : Str) (s : State)
      → IsGuarded crypto m specs s.log
      → IsGuarded crypto m specs (track_session id s).log
  unfolding track_session
  track_session-guarded id s g = elim (Bool-cases (is_among id s.sessions)) [
    | inl q ↦ rw (q, track_session) g
    | inr q ↦ rw (q, track_session) g
  ]

  -- The container is settled, and what the secrets reach stays guarded.
  abbrev Ends : Str → State → State → Type 0
  Ends id s t =
      (IsGuarded crypto m specs s.log → IsGuarded crypto m specs t.log)
      × ((x : Str) → Among x (unsettled t.log) → Among x (without id (unsettled s.log)))

  send_answered-Ends :
      (id : Str) (r : Option LaunchError) (s : State)
      → Ends id s (send_answered crypto runtime id r s).1
  send_answered-Ends id (some e) s = (λ g. g, λ x h. h)
  send_answered-Ends id none s = (track_session-guarded id s, λ x h. track_session-settled id x s h)

  start_answered-Ends :
      (p : Pending) (id : Str) (r : Option LaunchError) (s : State)
      → (r ≡ none → IsReady crypto m specs id p.service.name s.log)
      → Ends id s (start_answered crypto runtime p id r s).1
  start_answered-Ends p id (some e) s ready = (λ g. g, λ x h. h)
  start_answered-Ends p id none s ready =
      let t = note (sent id p.service.name) s in
      let (kept, settled) = send_answered-Ends id (runtime.send s.log id p.authority) t in
      (λ g. kept (ready refl, g), settled)

  -- The log behind Create, Attach and Start, where the last two returned no error
  ready_lem :
      (p : Pending) (labels : Map Str) (c : Container) (r : Option LaunchError)
      (before : List Event)
      → Among p.service specs
      → All (IsUp crypto m before) p.service.dependencies
      → r ≡ none
      → IsReady crypto m specs c.id p.service.name (
          started c.id r ∷ attached c.id none ∷ created p.service.name labels (returned c) ∷ before)
  ready_lem p labels c (some e) before of_model up h = absurd (ground (arith, h))
  ready_lem p labels c none before of_model up h = record {
    service = p.service;
    labels = labels;
    container = c;
    before = before;
    of_model = of_model;
    named = refl;
    same = refl;
    order = refl;
    dependencies = up;
  }

  attach_answered-Ends :
      (p : Pending) (labels : Map Str) (c : Container) (r : Option LaunchError) (s : State)
      → Among p.service specs
      → All (IsUp crypto m s.log) p.service.dependencies
      → let t = note (attached c.id r) (note (created p.service.name labels (returned c)) s) in
        Ends c.id t (attach_answered crypto runtime p c.id r t).1
  attach_answered-Ends p labels c (some e) s of_model up = (λ g. g, λ x h. h)
  attach_answered-Ends p labels c none s of_model up =
      let t = note (attached c.id none) (note (created p.service.name labels (returned c)) s) in
      let r = runtime.start t.log c.id in
      start_answered-Ends p c.id r (note (started c.id r) t)
        (ready_lem p labels c r s.log of_model up)

  -- From Create on, where the dependencies are up: the container gets a session or a call of Remove,
  -- and the secrets only once Attach and Start returned no error.
  launch_container-IsSound :
      (p : Pending) (labels : Map Str) (c : Container) (s : State)
      → Among p.service specs
      → All (IsUp crypto m s.log) p.service.dependencies
      → IsSound crypto m specs s.log
          (launch_container crypto runtime p c.id
            (note (created p.service.name labels (returned c)) s)).1.log
  launch_container-IsSound p labels c s of_model up =
      let l = created p.service.name labels (returned c) ∷ s.log in
      let (kept, settled) = attach_answered-Ends p labels c (runtime.attach l c.id) s of_model up in
      record {
        guarded = kept;
        settled = λ x h. without-self x c.id (unsettled s.log) (settled x h);
      }

  -- The rest of `launch` behind the check of the dependencies.
  abbrev launch_checked : Pending → Map Str → ℕ → Action ℕ
  launch_checked p labels n = do
    container ← create crypto runtime p.service labels
    _ ← launch_container crypto runtime p container.id
    pure n

  bind-pure_log :
      (r : Reply (Unit {0})) (t : State) (n : ℕ) → (bind r (λ _. pure n) t).1.log ≡ t.log
  bind-pure_log (returned _) t n = refl
  bind-pure_log (failed e) t n = refl

  launch_checked-IsSound :
      (p : Pending) (labels : Map Str) (n : ℕ) (s : State)
      → Among p.service specs
      → All (IsUp crypto m s.log) p.service.dependencies
      → IsSound crypto m specs s.log (launch_checked p labels n s).1.log
  launch_checked-IsSound p labels n s of_model up =
      with_reply (runtime.create s.log p.service labels)
    where
      with_reply :
          (r : Reply Container)
          → IsSound crypto m specs s.log
              (bind r
                (λ c. launch_container crypto runtime p c.id >>= λ _. pure n)
                (note (created p.service.name labels r) s)).1.log
      with_reply (failed e) = record { guarded = λ g. g; settled = λ x h. h }
      with_reply (returned c) =
          let t = note (created p.service.name labels (returned c)) s in
          let r = launch_container crypto runtime p c.id t in
          subst (IsSound crypto m specs s.log) (sym (bind-pure_log r.0 r.1 n))
            (launch_container-IsSound p labels c s of_model up)

  launch-IsSound :
      (all : Map ServiceSpec)
      → ((d : Str) (x : ServiceSpec) → lookup d all ≡ some x → x.name ≡ d)
      → (p : Pending) (n : ℕ) → Among p.service specs
      → IsSoundAction (launch crypto runtime m all p n)
  unfolding launch
  launch-IsSound all names p n of_model =
      bind-Sound (remove_all crypto runtime p.old n)
        (λ count. check >>= λ _. launch_checked p (launch_labels crypto m p.service.name) count)
        (Quiet-Sound (remove_all crypto runtime p.old n) (remove_all-Quiet crypto runtime p.old n))
        λ count s.
          with_reply count s (check s).0 (check s).1
            (check_dependencies-IsCheckedAll crypto runtime m all names p.service.dependencies s)
    where
      check : Action (Unit {0})
      check = check_dependencies crypto runtime m all p.service.dependencies

      with_reply :
          (count : ℕ) (s : State) (r : Reply (Unit {0})) (t : State)
          → IsCheckedAll crypto runtime m p.service.dependencies r s.log t.log
          → IsSound crypto m specs s.log
              (bind r (λ _. launch_checked p (launch_labels crypto m p.service.name) count) t).1.log
      with_reply count s (failed e) t q = Quiet-IsSound crypto m specs s.log t.log q
      with_reply count s (returned _) t (q, up) =
          let labels = launch_labels crypto m p.service.name in
          IsSound-trans crypto m specs s.log t.log (launch_checked p labels count t).1.log
            (Quiet-IsSound crypto m specs s.log t.log q)
            (launch_checked-IsSound p labels count t of_model up)

  pub launch_all-IsSound :
      (all : Map ServiceSpec)
      → ((d : Str) (x : ServiceSpec) → lookup d all ≡ some x → x.name ≡ d)
      → (ps : List Pending) (n : ℕ) → All (λ p. Among p.service specs) ps
      → IsSoundAction (launch_all crypto runtime m all ps n)
  unfolding launch_all
  launch_all-IsSound all names [] n of_model = λ s. Quiet-IsSound crypto m specs s.log s.log here
  launch_all-IsSound all names (p ∷ ps) n of_model =
      bind-Sound (launch crypto runtime m all p n) _ (launch-IsSound all names p n of_model.0)
        λ count.
          bind-Sound (launch_all crypto runtime m all ps count) _
            (launch_all-IsSound all names ps count of_model.1)
            (λ rest s. Quiet-IsSound crypto m specs s.log s.log here)
