-- ===== src/Ref/Errors.antt =====
-- The errors of `Resolve` (internal/ref/ref.go), and that it returns.
use skret.Base.{
  ℕ, zero, suc, ◌+◌, ◌≡◌, ◌≢◌, refl, arith, true, false, List, [], ◌∷◌, ◌++◌, Option, none, some,
  Str, ◌⊎◌, inl, inr, Bool-cases, Option-cases, ltb, length, length-append, ◌≤◌, Among,
}
use skret.Ref.{
  Piece, literal, reference, Failure, missing, cycle, depth, out_of_fuel, Resolution, failed,
  pieces, splice, follow, expand, resolve, in_chain, max_depth,
}
use skret.Ref.Spec.{resolution-cases}

splice-failed :
    (f : Str → Resolution) (ps : List Piece) (e : Failure)
    → splice f ps ≡ failed e
    → (name : Str) × Among (reference name) ps × (f name ≡ failed e)
unfolding splice
splice-failed f [] e h = cc
splice-failed f (literal t ∷ ps) e h = elim (resolution-cases (splice f ps)) [
  | inl (e', q) ↦
      let (name, a, p) = splice-failed f ps e' q in (name, inr a, ground (arith, h, q, p))
  | inr (v, q) ↦ absurd (ground (arith, h, q))
]
splice-failed f (reference name ∷ ps) e h = elim (resolution-cases (f name)) [
  | inl (e', q) ↦ (name, inl refl, ground (arith, h, q))
  | inr (v, p) ↦ elim (resolution-cases (splice f ps)) [
    | inl (e', q) ↦
        let (other, a, r) = splice-failed f ps e' q in (other, inr a, ground (arith, h, p, q, r))
    | inr (w, q) ↦ absurd (ground (arith, h, p, q))
  ]
]

module _ (lookup : Str → Option Str) where
  -- The ways in which the step from a value to the value of a name fails.
  follow-failed :
      (chain : List Str) (inner : Str → Resolution) (name : Str) (e : Failure)
      → follow lookup chain inner name ≡ failed e
      → ((lookup name ≡ none) × (e ≡ missing name (chain ++ name ∷ [])))
        ⊎ ((raw : Str) × (lookup name ≡ some raw)
            × (((in_chain name chain ≡ true) × (e ≡ cycle (chain ++ name ∷ [])))
                ⊎ ((in_chain name chain ≡ false) × (inner raw ≡ failed e))))
  unfolding follow
  follow-failed chain inner name e h = elim (Option-cases (lookup name)) [
    | inl q ↦ inl (q, ground (arith, h, q))
    | inr (raw, q) ↦ inr (
      raw,
      q,
      elim (Bool-cases (in_chain name chain)) [
        | inl c ↦ inl (c, ground (arith, h, q, c))
        | inr c ↦ inr (c, ground (arith, h, q, c))
      ],
    )
  ]

  expand-fuel :
      (fuel : ℕ) (s : Str) (chain : List Str)
      → 1 ≤ fuel
      → suc (suc max_depth) ≤ fuel + length chain
      → expand lookup fuel s chain ≢ failed out_of_fuel
  unfolding expand
  expand-fuel zero s chain pos enough h = omega (arith, pos)
  expand-fuel (suc fuel) s chain pos enough h = elim (Bool-cases (ltb max_depth (length chain))) [
    | inl q ↦ ground (arith, h, q)
    | inr q ↦
        let (name, a, f) =
          splice-failed
            (λ name. follow lookup chain (λ raw. expand lookup fuel raw (chain ++ name ∷ [])) name)
            (pieces s) out_of_fuel (ground (arith, h, q)) in
        elim (follow-failed chain _ name out_of_fuel f) [
          | inl (n, e) ↦ cc
          | inr (raw, found, inl (c, e)) ↦ cc
          | inr (raw, found, inr (c, e)) ↦
              expand-fuel fuel raw (chain ++ name ∷ []) (ground (arith, q, enough))
                (ground (arith, q, enough, length-append chain (name ∷ []))) e
        ]
  ]

  -- `Resolve` returns, whatever value and scope it is given: the limit on the length of a chain
  -- ends every descent.
  pub resolve-returns : (value : Str) → resolve lookup value ≢ failed out_of_fuel
  unfolding resolve
  resolve-returns value = expand-fuel (suc (suc max_depth)) value [] (omega arith) (omega arith)

  -- The chain is a path of references that leads from the value `v` to the value `s`.
  abbrev pub Reaches : Str → List Str → Str → Type 0
  Reaches v [] s = v ≡ s
  Reaches v (name ∷ chain) s =
      Among (reference name) (pieces v)
      × (raw : Str) × (lookup name ≡ some raw)
      × Reaches raw chain s

  -- A path of references from the value `v` to a value that refers to `name`.
  abbrev pub Leads : Str → List Str → Str → Type 0
  Leads v chain name = (s : Str) × Reaches v chain s × Among (reference name) (pieces s)

  Reaches-step :
      (v s raw name : Str) (chain : List Str)
      → Reaches v chain s
      → Among (reference name) (pieces s)
      → lookup name ≡ some raw
      → Reaches v (chain ++ name ∷ []) raw
  Reaches-step v s raw name [] r a found = let r' : v ≡ s = r in (rw r' a, raw, found, refl)
  Reaches-step v s raw name (n ∷ chain) (b, t, q, r) a found =
      (b, t, q, Reaches-step t s raw name chain r a found)

  -- What each error says of the scope.
  abbrev pub IsJustified : Str → Failure → Type 0
  IsJustified v (missing name path) =
      (lookup name ≡ none) × (chain : List Str) × (path ≡ chain ++ name ∷ []) × Leads v chain name
  IsJustified v (cycle path) =
      (name : Str) × (chain : List Str) × (path ≡ chain ++ name ∷ [])
      × Leads v chain name
      × (in_chain name chain ≡ true)
  IsJustified v (depth path) = (length path ≡ suc max_depth) × (s : Str) × Reaches v path s
  IsJustified v out_of_fuel = Unit

  expand-IsJustified :
      (v : Str) (fuel : ℕ) (s : Str) (chain : List Str) (e : Failure)
      → Reaches v chain s
      → length chain ≤ suc max_depth
      → expand lookup fuel s chain ≡ failed e
      → IsJustified v e
  unfolding expand
  expand-IsJustified v zero s chain e r short h =
      let q : e ≡ out_of_fuel = ground (arith, h) in rw q tt
  expand-IsJustified v (suc fuel) s chain e r short h =
      elim (Bool-cases (ltb max_depth (length chain))) [
        | inl q ↦
            let p : e ≡ depth chain = ground (arith, h, q) in rw p (ground (arith, q, short), s, r)
        | inr q ↦
            let (name, a, f) =
              splice-failed
                (λ name.
                  follow lookup chain (λ raw. expand lookup fuel raw (chain ++ name ∷ [])) name)
                (pieces s) e (ground (arith, h, q)) in
            elim (follow-failed chain _ name e f) [
              | inl (n, p) ↦ rw p (n, chain, refl, (s, r, a))
              | inr (raw, found, inl (c, p)) ↦ rw p (name, chain, refl, (s, r, a), c)
              | inr (raw, found, inr (c, p)) ↦
                  expand-IsJustified v fuel raw (chain ++ name ∷ []) e
                    (Reaches-step v s raw name chain r a found)
                    (ground (arith, q, length-append chain (name ∷ []))) p
            ]
      ]

  -- Every error of `Resolve` names a path of references that starts in the value: at a name that
  -- the scope does not hold, at a name that stands on the path already, or of one reference more
  -- than the limit.
  pub resolve-IsJustified :
      (value : Str) (e : Failure) → resolve lookup value ≡ failed e → IsJustified value e
  unfolding resolve
  resolve-IsJustified value e h =
      expand-IsJustified value (suc (suc max_depth)) value [] e refl (omega arith) h
