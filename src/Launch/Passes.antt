-- ===== src/Launch/Passes.antt =====
-- The log of a pass of the supervisor: to whom secrets are sent, and which containers it leaves.
use skret.Base.{
  none, ◌≡◌, Bool, true, false, List, [], ◌∷◌, Str, Map, str_eq, Bool-cases, inl, inr, All, Among,
}
use skret.Launch.Data.{Manifest}
use skret.Launch.Signed.{returned}
use skret.Launch.Trust.{Crypto}
use skret.Launch.Model.{ServiceSpec}
use skret.Launch.Labels.{current_owned}
use skret.Launch.Supervisor.{
  Container, Event, inspected, created, attached, started, removed, tracked, sent, without,
}

-- The containers that a pass created and has neither given a session nor asked to remove since.
abbrev pub unsettled : List Event → List Str
unsettled [] = []
unsettled (created name labels (returned c) ∷ log) = c.id ∷ unsettled log
unsettled (removed id e ∷ log) = without id (unsettled log)
unsettled (tracked id ∷ log) = without id (unsettled log)
unsettled (_ ∷ log) = unsettled log

-- The dependency was seen running and healthy, as a container of the current generation.
pub record IsUp (crypto : Crypto) (m : Manifest) (log : List Event) (d : Str) : Type 0 where
  pub id : Str
  pub container : Container
  pub seen : Among (inspected id (returned container)) log
  pub running : container.running ≡ true
  pub healthy : container.healthy ≡ true
  pub owned : current_owned crypto container.labels m d ≡ true

-- The container was created for a service of the model, then Attach and then Start returned without
-- an error, and before that every dependency of the service was up.
pub record IsReady (crypto : Crypto) (m : Manifest) (specs : List ServiceSpec) (id name : Str)
    (log : List Event) : Type 0 where
  pub service : ServiceSpec
  pub labels : Map Str
  pub container : Container
  pub before : List Event
  pub of_model : Among service specs
  pub named : service.name ≡ name
  pub same : container.id ≡ id
  pub order :
      log ≡ started id none ∷ attached id none ∷ created name labels (returned container) ∷ before
  pub dependencies : All (IsUp crypto m before) service.dependencies

-- Secrets were sent to such containers only.
abbrev pub IsGuarded : Crypto → Manifest → List ServiceSpec → List Event → Type 0
IsGuarded crypto m specs [] = Unit
IsGuarded crypto m specs (sent id name ∷ log) =
    IsReady crypto m specs id name log × IsGuarded crypto m specs log
IsGuarded crypto m specs (_ ∷ log) = IsGuarded crypto m specs log

-- An event that neither sends nor creates.
abbrev pub is_quiet : Event → Bool
is_quiet (sent _ _) = false
is_quiet (created _ _ _) = false
is_quiet _ = true

-- Only quiet events were added.
pub data Quiet (log : List Event) : List Event → Type 0 where
  here : Quiet log log
  more :
      {later : List Event} (e : Event) → is_quiet e ≡ true → Quiet log later → Quiet log (e ∷ later)

pub Quiet-trans : {a b c : List Event} → Quiet a b → Quiet b c → Quiet a c
Quiet-trans p here = p
Quiet-trans p (more e q r) = more e q (Quiet-trans p r)

pub Among-Quiet : {a b : List Event} (e : Event) → Quiet a b → Among e a → Among e b
Among-Quiet e here h = h
Among-Quiet e (more x q r) h = inr (Among-Quiet e r h)

pub IsUp-Quiet :
    (crypto : Crypto) (m : Manifest) (a b : List Event) (d : Str)
    → Quiet a b
    → IsUp crypto m a d
    → IsUp crypto m b d
IsUp-Quiet crypto m a b d q h = record {
  id = h.id;
  container = h.container;
  seen = Among-Quiet (inspected h.id (returned h.container)) q h.seen;
  running = h.running;
  healthy = h.healthy;
  owned = h.owned;
}

pub Among-without : (x id : Str) (ys : List Str) → Among x (without id ys) → Among x ys
unfolding without
Among-without x id [] h = h
Among-without x id (y ∷ ys) h = elim (Bool-cases (str_eq y id)) [
  | inl q ↦ inr (Among-without x id ys (rw (q, without) at h))
  | inr q ↦
      let h' : Among x (y ∷ without id ys) = rw (q, without) at h in
      elim h' [ inl e ↦ inl e | inr a ↦ inr (Among-without x id ys a) ]
]

-- What a part of a pass may add to the log.
pub record IsSound (crypto : Crypto) (m : Manifest) (specs : List ServiceSpec) (a b : List Event)
    : Type 0 where
  pub guarded : IsGuarded crypto m specs a → IsGuarded crypto m specs b
  pub settled : (id : Str) → Among id (unsettled b) → Among id (unsettled a)

module _ (crypto : Crypto) (m : Manifest) (specs : List ServiceSpec) where
  pub IsSound-trans :
      (a b c : List Event)
      → IsSound crypto m specs a b
      → IsSound crypto m specs b c
      → IsSound crypto m specs a c
  IsSound-trans a b c p q = record {
    guarded = λ g. q.guarded (p.guarded g);
    settled = λ id h. p.settled id (q.settled id h);
  }

  quiet-guarded :
      (e : Event) (log : List Event)
      → is_quiet e ≡ true
      → IsGuarded crypto m specs log
      → IsGuarded crypto m specs (e ∷ log)
  quiet-guarded (sent x n) log q g = cc
  quiet-guarded e log q g = g

  quiet-settled :
      (e : Event) (log : List Event) (id : Str)
      → is_quiet e ≡ true
      → Among id (unsettled (e ∷ log))
      → Among id (unsettled log)
  quiet-settled (removed x e) log id q h = Among-without id x (unsettled log) h
  quiet-settled (tracked x) log id q h = Among-without id x (unsettled log) h
  quiet-settled (sent x n) log id q h = h
  quiet-settled (created n l r) log id q h = cc
  quiet-settled e log id q h = h

  pub Quiet-IsSound : (a b : List Event) → Quiet a b → IsSound crypto m specs a b
  Quiet-IsSound a b here = record { guarded = λ g. g; settled = λ id h. h }
  Quiet-IsSound a b (more {later} e q r) =
      let rest = Quiet-IsSound a later r in
      record {
        guarded = λ g. quiet-guarded e later q (rest.guarded g);
        settled = λ id h. rest.settled id (quiet-settled e later id q h);
      }
