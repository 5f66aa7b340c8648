-- ===== src/Config/Keys.antt =====
-- `ResolveKey` of internal/config/keyresolve.go.
use skret.Base.{
  ℕ, zero, suc, ◌≡◌, refl, sym, ◌∙◌, arith, Bool, true, false, ◌||◌, [], ◌∷◌, ◌++◌, Option, none,
  some, Str, codes, ◌==◌, if◌then◌else◌, is_empty, has_prefix, has_prefix-append, str_eq, drop,
  trim_right, Bool-cases, Option-cases, inl, inr, ◌⊎◌, ap, append_assoc,
}

abbrev after : Option ℕ → Option ℕ
after none = none
after (some i) = some (suc i)

-- `strings.Index(s, part)`, `none` for -1
unfoldable pub index_of : Str → Str → Option ℕ
unfolding has_prefix
index_of [] part = if has_prefix [] part then some 0 else none
index_of (c ∷ s) part =
    let rest = index_of s part in if has_prefix (c ∷ s) part then some 0 else after rest

-- The end of `ResolveKey`, for a key that is not mangled.
abbrev unmangled : Str → Str → Str × Bool
unmangled rp key = if has_prefix key (codes "/") then (key, false) else (rp ++ b'/' ∷ key, false)

-- What `ResolveKey` does with a key that is not below the path.
abbrev recover : Str → Str → Option ℕ → Str × Bool
recover rp key (some (suc i)) = (drop (suc i) key, true)
recover rp key (some zero) = unmangled rp key
recover rp key none = unmangled rp key

-- The body of `ResolveKey`, below the path without its last slashes.
unfoldable resolve_below : Str → Str → Str × Bool
unfolding index_of
resolve_below rp key =
    if is_empty rp || is_empty key
    then (key, false)
    else if str_eq key rp || has_prefix key (rp ++ b'/' ∷ [])
    then (key, false)
    else recover rp key (index_of key (rp ++ b'/' ∷ []))

-- `ResolveKey`
unfoldable pub resolve_key : Str → Str → Str × Bool
unfolding trim_right resolve_below
resolve_key path key = resolve_below (trim_right (λ c. c == b'/') path) key

index_of-has_prefix :
    (s part : Str) (i : ℕ) → index_of s part ≡ some i → has_prefix (drop i s) part ≡ true
unfolding index_of
index_of-has_prefix [] part zero h = ground (arith, h)
index_of-has_prefix [] part (suc i) h = ground (arith, h)
index_of-has_prefix (c ∷ s) part zero h = elim (Option-cases (index_of s part)) [
  | inl q ↦ ground (arith, h, q)
  | inr (j, q) ↦ ground (arith, h, q)
]
index_of-has_prefix (c ∷ s) part (suc i) h = elim (Option-cases (index_of s part)) [
  | inl q ↦ ground (arith, h, q)
  | inr (j, q) ↦ ground (arith, h, q, index_of-has_prefix s part i)
]

below_lem :
    (rp key : Str) → has_prefix key (rp ++ b'/' ∷ []) ≡ true → resolve_below rp key ≡ (key, false)
unfolding resolve_below
below_lem rp key h = ground (arith, h)

under : (rp key : Str) → has_prefix (rp ++ b'/' ∷ key) (rp ++ b'/' ∷ []) ≡ true
under rp key =
    ap (λ z. has_prefix z (rp ++ b'/' ∷ [])) (sym (append_assoc rp (b'/' ∷ []) key))
    ∙ has_prefix-append (rp ++ b'/' ∷ []) key

unmangled_lem :
    (rp key : Str)
    → resolve_below rp key ≡ unmangled rp key
    → let r = unmangled rp key in resolve_below rp r.0 ≡ (r.0, false)
unmangled_lem rp key h = elim (Bool-cases (has_prefix key (codes "/"))) [
  | inl e ↦ rw e (h ∙ rw e refl)
  | inr e ↦ rw e (below_lem rp (rp ++ b'/' ∷ key) (under rp key))
]

recovered_lem :
    (rp key : Str) (o : Option ℕ)
    → index_of key (rp ++ b'/' ∷ []) ≡ o
    → resolve_below rp key ≡ recover rp key o
    → let r = recover rp key o in resolve_below rp r.0 ≡ (r.0, false)
recovered_lem rp key (some (suc i)) q h =
    below_lem rp (drop (suc i) key) (index_of-has_prefix key (rp ++ b'/' ∷ []) (suc i) q)
recovered_lem rp key (some zero) q h = unmangled_lem rp key h
recovered_lem rp key none q h = unmangled_lem rp key h

below_cases :
    (rp key : Str)
    → (resolve_below rp key ≡ (key, false))
      ⊎ (resolve_below rp key ≡ recover rp key (index_of key (rp ++ b'/' ∷ [])))
unfolding resolve_below
below_cases rp key = elim (Bool-cases (is_empty rp || is_empty key)) [
  | inl e ↦ inl (rw e refl)
  | inr e ↦ elim (Bool-cases (str_eq key rp || has_prefix key (rp ++ b'/' ∷ []))) [
    | inl f ↦ inl (rw (e, f) refl)
    | inr f ↦ inr (rw (e, f) refl)
  ]
]

below_idempotent :
    (rp key : Str) → let r = resolve_below rp key in resolve_below rp r.0 ≡ (r.0, false)
below_idempotent rp key = elim (below_cases rp key) [
  | inl e ↦ rw e e
  | inr e ↦ rw e (recovered_lem rp key (index_of key (rp ++ b'/' ∷ [])) refl e)
]

-- What ResolveKey returns is taken as it is when it is resolved again.
pub resolve_key_idempotent :
    (path key : Str) → let r = resolve_key path key in resolve_key path r.0 ≡ (r.0, false)
unfolding resolve_key
resolve_key_idempotent path key = below_idempotent (trim_right (λ c. c == b'/') path) key
