-- ===== src/Launch/Supervisor.antt =====
-- `Reconcile` and `ScavengeOrphans` of internal/secretlaunch/supervisor.go. The runtime, the
-- provider and the sender are parameters that may answer each call by all that was called before;
-- the state is this log, the newest call first, and the containers that have a session. An error of
-- another package has the code `err_lifecycle`. The values of secrets are not part of the log.
use skret.Base.{
  ℕ, suc, Bool, true, false, ◌&&◌, List, [], ◌∷◌, Option, none, some, Str, Map, if◌then◌else◌,
  str_eq, lookup,
}
use skret.Launch.Data.{ManifestKey, ServiceAuthority, Manifest}
use skret.Launch.Fields.{LaunchError, fail, err_runtime}
use skret.Launch.Signed.{Reply, returned, failed}
use skret.Launch.Trust.{Crypto}
use skret.Launch.Model.{ServiceSpec, RenderedModel}
use skret.Launch.Authority.{is_among}
use skret.Launch.Labels.{ownership_labels, launch_labels, current_owned}

-- `Container`
pub record Container : Type 0 where
  pub id : Str
  pub name : Str
  pub labels : Map Str
  pub running : Bool
  pub healthy : Bool

-- A call of the runtime, the provider or the sender, and of a session's methods; of those on which
-- a launch rests, with the answer.
pub data Event : Type 0 where
  rendered : Event
  listed : Map Str → Event
  inspected : Str → Reply Container → Event
  created : Str → Map Str → Reply Container → Event
  attached started removed : Str → Option LaunchError → Event
  killed closed tracked : Str → Event
  fetched : List ManifestKey → Event
  sent : Str → Str → Event

-- `Runtime`, the provider behind `FetchSecrets`, and `Send`. `lost` says whether the stream of a
-- session was closed by its heartbeats.
pub record Runtime : Type 0 where
  pub render : List Event → RenderedModel → Reply RenderedModel
  pub list : List Event → Map Str → Reply (List Container)
  pub inspect : List Event → Str → Reply Container
  pub create : List Event → ServiceSpec → Map Str → Reply Container
  pub attach : List Event → Str → Option LaunchError
  pub start : List Event → Str → Option LaunchError
  pub remove : List Event → Str → Option LaunchError
  pub fetch : List Event → List ManifestKey → Option LaunchError
  pub send : List Event → Str → ServiceAuthority → Option LaunchError
  pub lost : List Event → Str → Bool

pub record State : Type 0 where
  pub log : List Event
  pub sessions : List Str

-- A routine of the supervisor.
abbrev pub Action : Type 0 → Type 0
Action A = State → Reply A × State

module _ {A B : Type 0} where
  infixl 5 ◌>>=◌ ◌>>◌
  abbrev pub bind : Reply A → (A → Action B) → Action B
  bind (returned a) f = f a
  bind (failed e) f = λ s. (failed e, s)

  abbrev pub ◌>>=◌ : Action A → (A → Action B) → Action B
  m >>= f = λ s. let r = m s in bind r.0 f r.1

  abbrev pub ◌>>◌ : Action A → Action B → Action B
  m >> n = m >>= λ _. n

abbrev pub pure {ℓ} : {A : Type ℓ} → A → State → Reply A × State
pure a s = (returned a, s)

abbrev pub throw : {A : Type 0} → LaunchError → Action A
throw e s = (failed e, s)

abbrev pub note : Event → State → State
note e s = record s { log = e ∷ s.log }

abbrev pub error_as : Option LaunchError → Reply (Unit {0})
error_as none = returned tt
error_as (some e) = failed e

unfoldable pub without : Str → List Str → List Str
without x [] = []
without x (y ∷ ys) = let rest = without x ys in if str_eq y x then rest else y ∷ rest

-- `closeSession`
unfoldable pub close_session : Str → State → State
unfolding without is_among
close_session id s =
    if is_among id s.sessions
    then record { log = closed id ∷ s.log; sessions = without id s.sessions }
    else s

-- `trackSession`
unfoldable pub track_session : Str → State → State
unfolding is_among
track_session id s =
    if is_among id s.sessions
    then record s { log = closed id ∷ tracked id ∷ s.log }
    else record { log = tracked id ∷ s.log; sessions = id ∷ s.sessions }

-- `ReconcileResult`; `Removed` counts.
pub record Reconciled : Type 0 where
  pub created_names : List Str
  pub removed_count : ℕ
  pub reused_names : List Str
  pub fetched_keys : List Str

-- The local type `pending` of `Reconcile`
pub record Pending : Type 0 where
  pub service : ServiceSpec
  pub authority : ServiceAuthority
  pub old : List Container

module _ (crypto : Crypto) (runtime : Runtime) where
  abbrev pub list_containers : Map Str → Action (List Container)
  list_containers labels s = (runtime.list s.log labels, note (listed labels) s)

  abbrev pub inspect : Str → Action (Reply Container)
  inspect id s = let r = runtime.inspect s.log id in (returned r, note (inspected id r) s)

  abbrev pub remove : Str → Action (Unit {0})
  remove id s = let r = runtime.remove s.log id in (error_as r, note (removed id r) s)

  -- A call of Remove of which the error is dropped
  abbrev pub discard : Str → State → State
  discard id s = note (removed id (runtime.remove s.log id)) s

  -- `s.closeSession(id)`, `Remove`, and the count
  unfoldable pub remove_all : List Container → ℕ → Action ℕ
  unfolding close_session
  remove_all [] n = pure n
  remove_all (c ∷ cs) n = do
    _ ← λ s. pure tt (close_session c.id s)
    _ ← remove c.id
    remove_all cs (suc n)

  -- Is the container the dependency of the current generation?
  abbrev pub is_dependency : Manifest → Str → Str → Container → Bool
  is_dependency m dependency expected c =
      str_eq c.name dependency && current_owned crypto c.labels m expected

  abbrev pub is_ready : Manifest → Str → Reply Container → Bool
  is_ready m expected (failed e) = false
  is_ready m expected (returned c) =
      c.running && c.healthy && current_owned crypto c.labels m expected

  -- The inner loop of `checkDependencies`; the flag is `found`.
  unfoldable pub check_containers : Manifest → Str → Str → Bool → List Container → Action Bool
  unfolding current_owned
  check_containers m dependency expected found [] = pure found
  check_containers m dependency expected found (c ∷ cs) =
      elim (is_dependency m dependency expected c) [
        | false ↦ check_containers m dependency expected found cs
        | true ↦ do
          state ← inspect c.id
          if is_ready m expected state
              then check_containers m dependency expected true cs
              else throw (fail err_runtime)
      ]

  -- `checkDependencies` on the dependencies
  unfoldable pub check_dependencies : Manifest → Map ServiceSpec → List Str → Action (Unit {0})
  unfolding lookup ownership_labels check_containers
  check_dependencies m all [] = pure tt
  check_dependencies m all (d ∷ ds) = elim (lookup d all) [
    | none ↦ throw (fail err_runtime)
    | some expected ↦ do
      containers ← list_containers (ownership_labels crypto m)
      found ← check_containers m d expected.name false containers
      if found then check_dependencies m all ds else throw (fail err_runtime)
  ]

  abbrev pub create : ServiceSpec → Map Str → Action Container
  create spec labels s =
      let r = runtime.create s.log spec labels in (r, note (created spec.name labels r) s)

  -- Behind Send: a failure removes the container that was created.
  abbrev pub send_answered : Str → Option LaunchError → Action (Unit {0})
  send_answered id (some e) s = (failed e, discard id (note (closed id) (note (killed id) s)))
  send_answered id none s = (returned tt, track_session id s)

  -- Behind Start
  abbrev pub start_answered : Pending → Str → Option LaunchError → Action (Unit {0})
  start_answered p id (some e) s = (failed e, discard id (note (closed id) s))
  start_answered p id none s =
      send_answered id (runtime.send s.log id p.authority) (note (sent id p.service.name) s)

  -- Behind Attach
  abbrev pub attach_answered : Pending → Str → Option LaunchError → Action (Unit {0})
  attach_answered p id (some e) s = (failed e, discard id s)
  attach_answered p id none s =
      let r = runtime.start s.log id in start_answered p id r (note (started id r) s)

  -- From Attach to `trackSession`
  abbrev pub launch_container : Pending → Str → Action (Unit {0})
  launch_container p id s =
      let r = runtime.attach s.log id in attach_answered p id r (note (attached id r) s)

  -- The body of the last loop of `Reconcile`; the count goes on.
  unfoldable pub launch : Manifest → Map ServiceSpec → Pending → ℕ → Action ℕ
  unfolding remove_all check_dependencies launch_labels track_session
  launch m all p n = do
    count ← remove_all p.old n
    _ ← check_dependencies m all p.service.dependencies
    container ← create p.service (launch_labels crypto m p.service.name)
    _ ← launch_container p container.id
    pure count

  -- The last loop of `Reconcile`: the count of removed containers, and the names of the created.
  unfoldable pub launch_all : Manifest → Map ServiceSpec → List Pending → ℕ → Action (ℕ × List Str)
  unfolding launch
  launch_all m all [] n = pure (n, [])
  launch_all m all (p ∷ ps) n = do
    count ← launch m all p n
    rest ← launch_all m all ps count
    pure (rest.0, p.service.name ∷ rest.1)
