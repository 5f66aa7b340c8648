-- ===== src/Exec/Names.antt =====
-- What is left in the variable names and the values of internal/exec/exec.go.
use skret.Base.{
  ◌≢◌, ◌⊎◌, subst, ◌==◌, ◌||◌, ℕ, ◌≡◌, refl, arith, false, [], ◌∷◌, map, Str, inl, inr, Bool-cases,
  any_byte,
}
use skret.Exec.{
  is_separator, needs_change, env_byte, strip_path, key_to_env_name, sanitize_byte, sanitize_all,
  is_control, sanitize,
}

env_byte-clean : (c : ℕ) → needs_change (env_byte c) ≡ false
unfolding needs_change env_byte is_separator
env_byte-clean c = ground arith

map-clean : (s : Str) → any_byte needs_change (map env_byte s) ≡ false
unfolding any_byte
map-clean [] = refl
map-clean (c ∷ s) = ground (arith, env_byte-clean c, map-clean s)

-- A variable name that `KeyToEnvName` makes, whatever the key and the prefix, holds no lower-case
-- letter and none of `/`, `-`, `=`, space, newline and carriage return.
pub key_to_env_name-clean :
    (key path_prefix : Str) → any_byte needs_change (key_to_env_name key path_prefix) ≡ false
unfolding key_to_env_name
key_to_env_name-clean key path_prefix =
    elim (Bool-cases (any_byte needs_change (strip_path key path_prefix))) [
      | inl q ↦ rw q (map-clean (strip_path key path_prefix))
      | inr q ↦ rw q q
    ]

sanitize_all-clean : (v : Str) → any_byte is_control (sanitize_all v) ≡ false
unfolding any_byte sanitize_all sanitize_byte is_control
sanitize_all-clean [] = refl
sanitize_all-clean (c ∷ v) = ground (arith, sanitize_all-clean v)

-- No value that `BuildEnv` writes holds a NUL byte, a newline or a carriage return.
pub sanitize-clean : (v : Str) → any_byte is_control (sanitize v) ≡ false
unfolding sanitize
sanitize-clean v = elim (Bool-cases (any_byte is_control v)) [
  | inl q ↦ rw q (sanitize_all-clean v)
  | inr q ↦ rw q q
]

-- A value and what a variable may hold of it: NUL bytes and carriage returns are left out, a newline
-- is a space, and every other byte stays.
pub data Cleaned : Str → Str → Type 0 where
  done : Cleaned [] []
  left_out : (c : ℕ) {v w : Str} → (c ≡ 0) ⊎ (c ≡ 13) → Cleaned v w → Cleaned (c ∷ v) w
  spaced : {v w : Str} → Cleaned v w → Cleaned (10 ∷ v) (32 ∷ w)
  kept : (c : ℕ) {v w : Str} → c ≢ 0 → c ≢ 13 → c ≢ 10 → Cleaned v w → Cleaned (c ∷ v) (c ∷ w)

sanitize_all-Cleaned : (v : Str) → Cleaned v (sanitize_all v)
unfolding sanitize_all sanitize_byte
sanitize_all-Cleaned [] = done
sanitize_all-Cleaned (c ∷ v) = elim (Bool-cases (c == 0 || c == 13)) [
  | inl q ↦ rw q (left_out c (ground (arith, q)) (sanitize_all-Cleaned v))
  | inr q ↦ elim (Bool-cases (c == 10)) [
    | inl r ↦
        let e : 10 ≡ c = ground (arith, r) in
        rw (q, r)
          (subst (λ d. Cleaned (d ∷ v) (32 ∷ sanitize_all v)) e (spaced (sanitize_all-Cleaned v)))
    | inr r ↦
        rw (q, r)
          (kept c (λ x. ground (arith, q, x)) (λ x. ground (arith, q, x))
            (λ x. ground (arith, r, x)) (sanitize_all-Cleaned v))
  ]
]

untouched-Cleaned : (v : Str) → any_byte is_control v ≡ false → Cleaned v v
unfolding any_byte is_control
untouched-Cleaned [] h = done
untouched-Cleaned (c ∷ v) h =
    kept c (λ x. ground (arith, h, x)) (λ x. ground (arith, h, x)) (λ x. ground (arith, h, x))
      (untouched-Cleaned v (ground (arith, h)))

pub sanitize-Cleaned : (v : Str) → Cleaned v (sanitize v)
unfolding sanitize
sanitize-Cleaned v = elim (Bool-cases (any_byte is_control v)) [
  | inl q ↦ rw q (sanitize_all-Cleaned v)
  | inr q ↦ rw q (untouched-Cleaned v q)
]
