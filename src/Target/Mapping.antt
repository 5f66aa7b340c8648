-- ===== src/Target/Mapping.antt =====
-- What `ValidateDestinationMapping` (internal/syncer/syncer.go) lets through, and what a name is.
use skret.Base.{
  ◌≡◌, refl, sym, ap, ◌∙◌, append_assoc, arith, Bool, true, false, List, [], ◌∷◌, ◌++◌, map, Option,
  none, some, Str, Map, str_eq, lookup, insert, any_byte, ◌==◌, inl, inr, Option-cases, Bool-cases,
}
use skret.Provider.{Secret}
use skret.Collision.{first_clash}
use skret.Collision.Agree.{IsUnambiguous, first_clash-IsUnambiguous}
use skret.Target.{after_slash, secret_name, is_keyed, check_mapping, validate_mapping}

abbrev pub never : Secret → Bool
never s = false

abbrev pub mapped_name : Secret → Str
mapped_name s = secret_name s.key

abbrev pub key_of : Secret → Str
key_of s = s.key

check_mapping-some :
    (secrets : List (Option Secret)) (seen : Map Str)
    → check_mapping seen secrets ≡ none
    → (ss : List Secret) × (secrets ≡ map some ss)
      × (first_clash never mapped_name key_of seen ss ≡ none)
unfolding check_mapping first_clash
check_mapping-some [] seen h = ([], refl, refl)
check_mapping-some (none ∷ secrets) seen h = absurd (ground (arith, h))
check_mapping-some (some s ∷ secrets) seen h =
    elim (Option-cases (lookup (secret_name s.key) seen)) [
      | inl q ↦
          let (ss, e, f) =
            check_mapping-some secrets (insert (secret_name s.key) s.key seen)
              (ground (arith, h, q)) in
          (s ∷ ss, ap (λ r. some s ∷ r) e, ground (arith, q, f))
      | inr (p, q) ↦ elim (Bool-cases (str_eq p s.key)) [
        | inl d ↦
            let (ss, e, f) =
              check_mapping-some secrets (insert (secret_name s.key) s.key seen)
                (ground (arith, h, q, d)) in
            (s ∷ ss, ap (λ r. some s ∷ r) e, ground (arith, q, d, f))
        | inr d ↦ absurd (ground (arith, h, q, d))
      ]
    ]

-- For a target that is keyed by the last segment of a path (github, cloudflare, gitlab, terraform,
-- k8s, k8s-manifest), `ValidateDestinationMapping` lets through only lists without a nil secret in
-- which secrets under one name have one key.
pub validate_mapping-IsUnambiguous :
    (target : Str) (secrets : List (Option Secret))
    → is_keyed target ≡ true
    → validate_mapping target secrets ≡ none
    → (ss : List Secret) × (secrets ≡ map some ss) × IsUnambiguous never mapped_name key_of ss
unfolding validate_mapping
validate_mapping-IsUnambiguous target secrets k h =
    let (ss, e, f) = check_mapping-some secrets [] (ground (arith, h, k)) in
    (ss, e, first_clash-IsUnambiguous never mapped_name key_of ss f)

after_slash-none : (s : Str) → after_slash s ≡ none → any_byte (λ c. c == 47) s ≡ false
unfolding after_slash any_byte
after_slash-none [] h = refl
after_slash-none (c ∷ s) h = elim (Option-cases (after_slash s)) [
  | inr (t, q) ↦ absurd (ground (arith, h, q))
  | inl q ↦ ground (arith, h, q, after_slash-none s q)
]

after_slash-last :
    (s r : Str)
    → after_slash s ≡ some r
    → (p : Str) × (s ≡ p ++ 47 ∷ r) × (any_byte (λ c. c == 47) r ≡ false)
unfolding after_slash any_byte
after_slash-last [] r h = cc
after_slash-last (c ∷ s) r h = elim (Option-cases (after_slash s)) [
  | inr (t, q) ↦
      let t' : t ≡ r = ground (arith, h, q) in
      let (p, e, f) = after_slash-last s r (rw (← t') q) in (c ∷ p, ap (λ x. c ∷ x) e, f)
  | inl q ↦
      let c' : c ≡ 47 = ground (arith, h, q) in
      let r' : s ≡ r = ground (arith, h, q) in
      ([], rw (c', r') refl, rw (← r') (after_slash-none s q))
]

-- The name under which a target stores a secret ends the key and holds no `/`.
pub secret_name-last :
    (key : Str)
    → ((p : Str) × (key ≡ p ++ secret_name key))
      × (any_byte (λ c. c == 47) (secret_name key) ≡ false)
secret_name-last key = elim (Option-cases (after_slash key)) [
  | inl q ↦
      let whole : secret_name key ≡ key = unfold secret_name in ground (arith, q) in
      rw whole (([], refl), after_slash-none key q)
  | inr (r, q) ↦
      let (p, e, f) = after_slash-last key r q in
      let last : secret_name key ≡ r = unfold secret_name in ground (arith, q) in
      rw last ((p ++ 47 ∷ [], e ∙ sym (append_assoc p (47 ∷ []) r)), f)
]
