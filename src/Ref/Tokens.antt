-- ===== src/Ref/Tokens.antt =====
-- The tokens of a text in internal/ref/ref.go, and what a text becomes, apart from how it is scanned.
use skret.Base.{
  ℕ, suc, ◌≡◌, ◌≢◌, refl, sym, subst, arith, Bool, true, false, not, ◌||◌, ◌==◌, [], ◌∷◌, ◌++◌,
  Option, none, some, Str, ◌⊎◌, inl, inr, ◌↔◌, Option-cases, Bool-cases, length, ◌≤◌, ◌<◌,
  has_prefix, codes, All, all_bytes,
}
use skret.Ref.{cut_brace, is_name_byte, is_ref_name, is_escaped}

-- A letter, a digit or an underscore
abbrev pub IsNameByte : ℕ → Type 0
IsNameByte c =
    (c ≡ b'_') ⊎ ((b'a' ≤ c) × (c ≤ b'z')) ⊎ ((b'A' ≤ c) × (c ≤ b'Z')) ⊎ ((b'0' ≤ c) × (c ≤ b'9'))

-- A name of such bytes that does not begin with a digit
abbrev pub IsName : Str → Type 0
IsName [] = true ≡ false
IsName (c ∷ s) = ((c < b'0') ⊎ (b'9' < c)) × All IsNameByte (c ∷ s)

-- The byte before is a backslash or a dollar sign.
abbrev pub IsEscaped : Option ℕ → Type 0
IsEscaped none = true ≡ false
IsEscaped (some c) = (c ≡ b'\\') ⊎ (c ≡ b'$')

abbrev pub HasNoBrace : Str → Type 0
HasNoBrace s = All (λ c. c ≢ b'}') s

module _ (lookup : Str → Option Str) where
  -- Behind a byte, a text becomes another. Its tokens are `${`, a payload up to the first `}`, and
  -- this. One that is escaped or whose payload is no name stays, another gives way to what the
  -- value of its name becomes, and a byte at which no token begins stays.
  pub data Becomes : Option ℕ → Str → Str → Type 0 where
    done : {p : Option ℕ} → Becomes p [] []
    keep :
        {p : Option ℕ} (c : ℕ) {s v : Str}
        → ((name rest : Str) → c ∷ s ≢ b'$' ∷ b'{' ∷ (name ++ b'}' ∷ rest))
        → Becomes (some c) s v
        → Becomes p (c ∷ s) (c ∷ v)
    keep_token :
        {p : Option ℕ} (name : Str) {rest v : Str}
        → HasNoBrace name
        → IsEscaped p ⊎ (IsName name → true ≡ false)
        → Becomes (some b'}') rest v
        → Becomes p (b'$' ∷ b'{' ∷ (name ++ b'}' ∷ rest)) (b'$' ∷ b'{' ∷ (name ++ b'}' ∷ v))
    replace :
        {p : Option ℕ} (name raw : Str) {rest r v : Str}
        → HasNoBrace name
        → (IsEscaped p → true ≡ false)
        → IsName name
        → lookup name ≡ some raw
        → Becomes none raw r
        → Becomes (some b'}') rest v
        → Becomes p (b'$' ∷ b'{' ∷ (name ++ b'}' ∷ rest)) (r ++ v)

is_name_byte-IsNameByte : (c : ℕ) → (is_name_byte c ≡ true) ↔ IsNameByte c
is_name_byte-IsNameByte c = ground arith

name_bytes-All : (s : Str) → (all_bytes is_name_byte s ≡ true) ↔ All IsNameByte s
unfolding all_bytes
name_bytes-All [] = ground arith
name_bytes-All (c ∷ s) = ground (arith, is_name_byte-IsNameByte c, name_bytes-All s)

pub is_ref_name-IsName : (s : Str) → (is_ref_name s ≡ true) ↔ IsName s
unfolding is_ref_name
is_ref_name-IsName [] = ground arith
is_ref_name-IsName (c ∷ s) = ground (arith, name_bytes-All (c ∷ s))

pub is_escaped-IsEscaped : (p : Option ℕ) → (is_escaped p ≡ true) ↔ IsEscaped p
unfolding is_escaped
is_escaped-IsEscaped none = ground arith
is_escaped-IsEscaped (some c) = ground arith

pub cut_brace-append :
    (s : Str) (p : Str × Str)
    → cut_brace s ≡ some p
    → (s ≡ p.0 ++ 125 ∷ p.1) × (suc (length p.1) ≤ length s)
unfolding cut_brace
cut_brace-append [] p h = cc
cut_brace-append (c ∷ s) p h = elim (Option-cases (cut_brace s)) [
  | inl q ↦ ground (arith, h, q)
  | inr (r, q) ↦ ground (arith, h, q, cut_brace-append s r q)
]

pub cut_brace-HasNoBrace : (s : Str) (p : Str × Str) → cut_brace s ≡ some p → HasNoBrace p.0
unfolding cut_brace
cut_brace-HasNoBrace [] p h = cc
cut_brace-HasNoBrace (c ∷ s) p h = elim (Bool-cases (c == b'}')) [
  | inl q ↦
      let e : ([], s) ≡ p = ground (arith, h, q) in subst (λ (z : Str × Str). HasNoBrace z.0) e tt
  | inr q ↦ elim (Option-cases (cut_brace s)) [
    | inl n ↦ absurd (ground (arith, h, q, n))
    | inr (r, n) ↦
        let e : (c ∷ r.0, r.1) ≡ p = ground (arith, h, q, n) in
        subst (λ (z : Str × Str). HasNoBrace z.0) e
          (λ x. ground (arith, q, x), cut_brace-HasNoBrace s r n)
  ]
]

pub no_brace : (s : Str) → cut_brace s ≡ none → HasNoBrace s
unfolding cut_brace
no_brace [] h = tt
no_brace (c ∷ s) h = elim (Bool-cases (c == b'}')) [
  | inl q ↦ absurd (ground (arith, h, q))
  | inr q ↦ elim (Option-cases (cut_brace s)) [
    | inl n ↦ (λ x. ground (arith, q, x), no_brace s n)
    | inr (r, n) ↦ absurd (ground (arith, h, q, n))
  ]
]

brace_found : (name rest : Str) → HasNoBrace (name ++ b'}' ∷ rest) → true ≡ false
brace_found [] rest h = absurd (h.0 refl)
brace_found (c ∷ name) rest h = brace_found name rest h.1

-- A text without a closing brace stays.
pub unclosed-Becomes :
    (lookup : Str → Option Str) (p : Option ℕ) (s : Str) → HasNoBrace s → Becomes lookup p s s
unclosed-Becomes lookup p [] h = done
unclosed-Becomes lookup p (c ∷ s) h =
    keep c
      (λ name rest e. absurd (ground (arith, brace_found name rest (subst HasNoBrace e h).1.1)))
      (unclosed-Becomes lookup (some c) s h.1)

-- No token begins with the text, by the test of the scan.
unfoldable pub no_token : Str → Bool
unfolding has_prefix
no_token [] = true
no_token (c ∷ s) = not (c == b'$') || not (has_prefix s (codes "{"))

pub no_token_lem : (s name rest : Str) → no_token s ≡ true → s ≢ b'$' ∷ b'{' ∷ (name ++ b'}' ∷ rest)
unfolding no_token has_prefix
no_token_lem s name rest h e =
    let q : no_token s ≡ false = subst (λ z. no_token z ≡ false) (sym e) refl in
    ground (arith, h, q)
