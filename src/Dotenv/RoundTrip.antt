-- ===== src/Dotenv/RoundTrip.antt =====
-- `Decode` reverses `Encode`, for every value.
use skret.Base.{
  ℕ, ◌≡◌, refl, ap, ◌∙◌, arith, Bool, false, ◌||◌, [], ◌∷◌, ◌++◌, some, inl, inr, Str, codes, ◌==◌,
  Bool-cases, is_empty, any_byte, has_prefix, trim_prefix, trim_left, trim_space, length, ◌≤◌,
}
use skret.Dotenv.{
  is_special, needs_quoting, escape, encode, unescape_loop, unescape, strip_last, unquoted,
  decode_value, cut, decode_pair, decode,
}

unescape_loop-escape : (v : Str) → unescape_loop (escape v) ≡ v
unfolding escape unescape_loop
unescape_loop-escape [] = refl
unescape_loop-escape (c ∷ []) = ground arith
unescape_loop-escape (c ∷ d ∷ v) = ground (arith, unescape_loop-escape (d ∷ v))

unescape_loop_plain : (s : Str) → any_byte (λ c. c == 92) s ≡ false → unescape_loop s ≡ s
unfolding any_byte unescape_loop
unescape_loop_plain [] h = refl
unescape_loop_plain (c ∷ []) h = refl
unescape_loop_plain (c ∷ d ∷ s) h = ground (arith, unescape_loop_plain (d ∷ s))

unescape-escape : (v : Str) → unescape (escape v) ≡ v
unfolding unescape
unescape-escape v = elim (Bool-cases (any_byte (λ c. c == 92) (escape v))) [
  | inl e ↦ rw e (unescape_loop-escape v)
  | inr e ↦ rw e (rw (← unescape_loop_plain (escape v) e) (unescape_loop-escape v))
]

strip_last-append : (q : ℕ) (s : Str) → strip_last q (s ++ q ∷ []) ≡ some s
unfolding strip_last
strip_last-append q [] = ground arith
strip_last-append q (c ∷ []) = ground arith
strip_last-append q (c ∷ d ∷ s) = ground (arith, strip_last-append q (d ∷ s))

decode_value-quoted : (v : Str) → decode_value (34 ∷ (escape v ++ 34 ∷ [])) ≡ v
unfolding decode_value unquoted
decode_value-quoted v = ground (arith, strip_last-append 34 (escape v), unescape-escape v)

decode_value-bare : (v : Str) → needs_quoting v ≡ false → decode_value v ≡ v
unfolding decode_value unquoted needs_quoting is_special any_byte
decode_value-bare [] h = refl
decode_value-bare (c ∷ v) h = ground arith

-- A name that a line can carry: `Decode` trims names, cuts at the first `=`, takes a leading `#`
-- for a comment and drops a leading `export `.
pub record IsName (k : Str) : Type 0 where
  pub trimmed : trim_space k ≡ k
  pub ne_nil : is_empty k ≡ false
  pub indent : trim_left (λ c. c == 32 || c == 9) k ≡ k
  pub no_comment : has_prefix k (codes "#") ≡ false
  pub no_export : has_prefix k (codes "export ") ≡ false
  pub no_equals : any_byte (λ c. c == 61) k ≡ false

cut-append : (k v : Str) → any_byte (λ c. c == 61) k ≡ false → cut (k ++ 61 ∷ v) ≡ some (k, v)
unfolding cut any_byte
cut-append [] v h = refl
cut-append (c ∷ k) v h = ground (arith, cut-append k v)

-- A prefix that holds no `=` is a prefix of the name already.
has_prefix-cut :
    (p k v : Str) → any_byte (λ c. c == 61) p ≡ false → has_prefix (k ++ 61 ∷ v) p ≡ has_prefix k p
unfolding has_prefix any_byte
has_prefix-cut [] k v h = ground arith
has_prefix-cut (p ∷ ps) [] v h = ground arith
has_prefix-cut (p ∷ ps) (c ∷ k) v h = ground (arith, has_prefix-cut ps k v)

is_empty-cut : (k v : Str) → is_empty (k ++ 61 ∷ v) ≡ false
is_empty-cut [] v = refl
is_empty-cut (c ∷ k) v = refl

trim_left-length : (test : ℕ → Bool) (s : Str) → length (trim_left test s) ≤ length s
unfolding trim_left
trim_left-length test [] = omega arith
trim_left-length test (c ∷ s) = ground (arith, trim_left-length test s)

trim_left-append :
    (test : ℕ → Bool) (k w : Str)
    → is_empty k ≡ false
    → trim_left test k ≡ k
    → trim_left test (k ++ w) ≡ k ++ w
unfolding trim_left
trim_left-append test [] w e h = cc
trim_left-append test (c ∷ k) w e h = ground (arith, trim_left-length test k, ap length h)

module _ (k : Str) (name : IsName k) where
  decode-name : (v : Str) → decode (k ++ 61 ∷ v) ≡ some (k, decode_value v)
  unfolding decode trim_prefix decode_pair
  decode-name v =
      rw (trim_left-append (λ c. c == 32 || c == 9) k (61 ∷ v) name.ne_nil name.indent) (
        rw (has_prefix-cut (codes "#") k v (unfold any_byte in refl)) (
          rw (has_prefix-cut (codes "export ") k v (unfold any_byte in refl)) (
            rw (
              name.no_comment,
              name.no_export,
              cut-append k v name.no_equals,
              name.trimmed,
              is_empty-cut k v,
              name.ne_nil,
            ))))

  -- Whatever bytes the value holds, the line that `Encode` writes under a well-formed name decodes
  -- to that name and that value.
  pub decode-encode : (v : Str) → decode (encode k v) ≡ some (k, v)
  unfolding encode
  decode-encode v = elim (Bool-cases (needs_quoting v)) [
    | inl e ↦ rw e (decode-name _ ∙ ap (λ w. some (k, w)) (decode_value-quoted v))
    | inr e ↦ rw e (decode-name _ ∙ ap (λ w. some (k, w)) (decode_value-bare v e))
  ]
