-- ===== src/Ref/Spec.antt =====
-- What `Resolve` of internal/ref/ref.go returns: the value with every reference replaced.
use skret.Ref.Tokens.{
  IsName, IsEscaped, HasNoBrace, Becomes, done, keep, keep_token, replace, is_ref_name-IsName,
  is_escaped-IsEscaped, cut_brace-append, cut_brace-HasNoBrace, no_brace, unclosed-Becomes,
  no_token, no_token_lem,
}
use skret.Base.{
  ℕ, zero, suc, ◌≡◌, refl, sym, subst, ap, ◌∙◌, arith, true, false, not, ◌||◌, List, [], ◌∷◌, ◌++◌,
  append-nil, append_assoc, Option, none, some, Str, ◌⊎◌, inl, inr, Option-cases, Bool-cases,
  length, ◌≤◌, has_prefix,
}
use skret.Ref.{
  Piece, Failure, Resolution, resolved, failed, cut_brace, token, span, scan, pieces, splice,
  follow, expand, resolve, prepend, max_depth, is_ref_name, is_escaped,
}

prepend-cases :
    (t : Str) (r : Resolution) (v : Str)
    → prepend t r ≡ resolved v
    → (w : Str) × (r ≡ resolved w) × (v ≡ t ++ w)
prepend-cases t (resolved w) v h = (w, refl, ground (arith, h))
prepend-cases t (failed e) v h = cc

pub resolution-cases :
    (r : Resolution) → ((e : Failure) × (r ≡ failed e)) ⊎ ((v : Str) × (r ≡ resolved v))
resolution-cases (resolved v) = inr (v, refl)
resolution-cases (failed e) = inl (e, refl)

follow-resolved :
    (lookup : Str → Option Str) (chain : List Str) (inner : Str → Resolution) (name v : Str)
    → follow lookup chain inner name ≡ resolved v
    → (raw : Str) × (lookup name ≡ some raw) × (inner raw ≡ resolved v)
unfolding follow
follow-resolved lookup chain inner name v h = elim (Option-cases (lookup name)) [
  | inl q ↦ absurd (ground (arith, h, q))
  | inr (raw, q) ↦ (raw, q, ground (arith, h, q))
]

module _ (lookup : Str → Option Str) (f : Str → Resolution)
    (each : (name r : Str)
      → f name ≡ resolved r
      → (raw : Str) × (lookup name ≡ some raw) × Becomes lookup none raw r) where
  -- The step of the loop over a token, before the rest of the text.
  token-Becomes :
      (p : Option ℕ) (name rest v : Str) (ps : List Piece)
      → HasNoBrace name
      → splice f (span p name ∷ ps) ≡ resolved v
      → ((w : Str) → splice f ps ≡ resolved w → Becomes lookup (some b'}') rest w)
      → Becomes lookup p (b'$' ∷ b'{' ∷ (name ++ b'}' ∷ rest)) v
  unfolding splice span
  token-Becomes p name rest v ps plain h next =
      elim (Bool-cases (is_escaped p || not (is_ref_name name))) [
        | inl q ↦
            let t : prepend (token name) (splice f ps) ≡ resolved v = ground (arith, h, q) in
            let (w, e, same) = prepend-cases (token name) (splice f ps) v t in
            let stays : IsEscaped p ⊎ (IsName name → true ≡ false) =
              elim (Bool-cases (is_escaped p)) [
                | inl x ↦ inl ((is_escaped-IsEscaped p).0 x)
                | inr x ↦ inr (λ n. ground (arith, q, x, (is_ref_name-IsName name).1 n))
              ] in
            subst (Becomes lookup p (b'$' ∷ b'{' ∷ (name ++ b'}' ∷ rest)))
              (sym (same ∙ ap (λ z. b'$' ∷ b'{' ∷ z) (append_assoc name (b'}' ∷ []) w)))
              (keep_token name plain stays (next w e))
        | inr q ↦ elim (resolution-cases (f name)) [
          | inl (e, n) ↦ absurd (ground (arith, h, q, n))
          | inr (r, n) ↦
              let t : prepend r (splice f ps) ≡ resolved v = ground (arith, h, q, n) in
              let (w, e, same) = prepend-cases r (splice f ps) v t in
              let (raw, found, b) = each name r n in
              subst (Becomes lookup p (b'$' ∷ b'{' ∷ (name ++ b'}' ∷ rest))) (sym same) (
                replace name raw plain (λ x. ground (arith, q, (is_escaped-IsEscaped p).1 x))
                  ((is_ref_name-IsName name).0 (ground (arith, q))) found b (next w e))
        ]
      ]

  -- A round of the scan at a token, by the rounds behind it
  scan_token :
      (fuel : ℕ) (p : Option ℕ) (c : ℕ) (s v : Str)
      → length s ≤ fuel
      → no_token (c ∷ s) ≡ false
      → splice f (scan (suc fuel) p (c ∷ s)) ≡ resolved v
      → ((p' : Option ℕ) (s' w : Str)
          → length s' ≤ fuel
          → splice f (scan fuel p' s') ≡ resolved w
          → Becomes lookup p' s' w)
      → Becomes lookup p (c ∷ s) v
  unfolding scan splice no_token has_prefix
  scan_token fuel p c [] v l q h next = absurd (ground (arith, q))
  scan_token fuel p c (d ∷ s) v l q h next =
      let dollar : c ≡ b'$' = ground (arith, q) in
      let open_brace : d ≡ b'{' = ground (arith, q) in
      elim (Option-cases (cut_brace s)) [
        | inl n ↦
            let same : (c ∷ d ∷ s) ++ [] ≡ v = ground (arith, h, n, dollar, open_brace) in
            subst (Becomes lookup p (c ∷ d ∷ s)) (sym (append-nil (c ∷ d ∷ s)) ∙ same) (
              unclosed-Becomes lookup p (c ∷ d ∷ s) (
                λ x. ground (arith, x, dollar),
                (λ x. ground (arith, x, open_brace), no_brace s n),
              ))
        | inr (r, n) ↦
            let (e, shorter) = cut_brace-append s r n in
            let whole : b'$' ∷ b'{' ∷ (r.0 ++ b'}' ∷ r.1) ≡ c ∷ d ∷ s =
              ground (arith, e, dollar, open_brace) in
            let t : splice f (span p r.0 ∷ scan fuel (some b'}') r.1) ≡ resolved v =
              ground (arith, h, n, dollar, open_brace) in
            subst (λ z. Becomes lookup p z v) whole
              (token-Becomes p r.0 r.1 v (scan fuel (some b'}') r.1) (cut_brace-HasNoBrace s r n) t
                (λ w x. next (some b'}') r.1 w (omega (arith, l, shorter)) x))
      ]

  scan-Becomes :
      (fuel : ℕ) (p : Option ℕ) (s v : Str)
      → length s ≤ fuel
      → splice f (scan fuel p s) ≡ resolved v
      → Becomes lookup p s v
  unfolding scan splice no_token has_prefix
  scan-Becomes zero p [] v l h =
      let e : [] ≡ v = ground (arith, h) in subst (Becomes lookup p []) e done
  scan-Becomes zero p (c ∷ s) v l h = absurd (omega (arith, l))
  scan-Becomes (suc fuel) p [] v l h =
      let e : [] ≡ v = ground (arith, h) in subst (Becomes lookup p []) e done
  scan-Becomes (suc fuel) p (c ∷ s) v l h = elim (Bool-cases (no_token (c ∷ s))) [
    | inl q ↦
        let t : prepend (c ∷ []) (splice f (scan fuel (some c) s)) ≡ resolved v =
          ground (arith, h, q) in
        let (w, e, same) = prepend-cases (c ∷ []) (splice f (scan fuel (some c) s)) v t in
        subst (Becomes lookup p (c ∷ s)) (sym same) (
          keep c (λ name rest. no_token_lem (c ∷ s) name rest q)
            (scan-Becomes fuel (some c) s w (omega (arith, l)) e))
    | inr q ↦
        scan_token fuel p c s v (omega (arith, l)) q h
          (λ p' s' w l' e. scan-Becomes fuel p' s' w l' e)
  ]

-- The resolution of the names in a chain
expand-Becomes :
    (lookup : Str → Option Str) (fuel : ℕ) (s : Str) (chain : List Str) (v : Str)
    → expand lookup fuel s chain ≡ resolved v
    → Becomes lookup none s v
unfolding expand pieces
expand-Becomes lookup zero s chain v h = cc
expand-Becomes lookup (suc fuel) s chain v h =
    scan-Becomes lookup
      (λ name. follow lookup chain (λ raw. expand lookup fuel raw (chain ++ name ∷ [])) name)
      (λ name r e.
        let (raw, q, p) =
          follow-resolved lookup chain (λ raw. expand lookup fuel raw (chain ++ name ∷ [])) name r
            e in
        (raw, q, expand-Becomes lookup fuel raw (chain ++ name ∷ []) r p))
      (length s) none s v (omega arith) (ground (arith, h))

-- Where Resolve returns no error, it returns the value with every token that is not escaped and
-- whose payload is a name replaced by what the stored value of that name becomes in the same way,
-- and with every other byte kept.
pub resolve-Becomes :
    (lookup : Str → Option Str) (value v : Str)
    → resolve lookup value ≡ resolved v
    → Becomes lookup none value v
unfolding resolve
resolve-Becomes lookup value v h = expand-Becomes lookup (suc (suc max_depth)) value [] v h
