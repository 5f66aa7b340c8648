-- ===== src/Collision/Agree.antt =====
-- What the search for a clash of names finds, and what it means that it finds none.
use skret.Base.{
  ◌≡◌, ◌≢◌, refl, sym, ◌∙◌, arith, Bool, true, false, List, [], ◌∷◌, none, some, Str, Map, str_eq,
  str_eq_iff, str_eq_refl, lookup, insert, lookup-insert, ◌⊎◌, inl, inr, Bool-cases, Option-cases,
  Among,
}
use skret.Collision.{Clash, first_clash}

module _ {A : Type 0} (skip : A → Bool) (name key : A → Str) where
  -- The ways in which one round of the loop goes.
  round-cases :
      (seen : Map Str) (s : A) (ss : List A)
      → ((skip s ≡ true)
          × (first_clash skip name key seen (s ∷ ss) ≡ first_clash skip name key seen ss))
        ⊎ ((skip s ≡ false)
            × (((lookup (name s) seen ≡ none)
                  × (first_clash skip name key seen (s ∷ ss)
                      ≡ first_clash skip name key (insert (name s) (key s) seen) ss))
                ⊎ ((previous : Str) × (lookup (name s) seen ≡ some previous)
                    × (((previous ≡ key s)
                          × (first_clash skip name key seen (s ∷ ss)
                              ≡ first_clash skip name key (insert (name s) (key s) seen) ss))
                        ⊎ ((previous ≢ key s)
                            × (first_clash skip name key seen (s ∷ ss)
                                ≡ some (record {
                                  name = name s;
                                  previous = previous;
                                  key = key s;
                                })))))))
  unfolding first_clash
  round-cases seen s ss = elim (Bool-cases (skip s)) [
    | inl q ↦ inl (q, ground (arith, q))
    | inr q ↦ inr (
      q,
      elim (Option-cases (lookup (name s) seen)) [
        | inl n ↦ inl (n, ground (arith, q, n))
        | inr (p, n) ↦ inr (
          p,
          n,
          elim (Bool-cases (str_eq p (key s))) [
            | inl e ↦ inl ((str_eq_iff p (key s)).0 e, ground (arith, q, n, e))
            | inr e ↦ inr (
              λ d. ground (arith, d, e, str_eq_refl (key s), str_eq_iff p (key s)),
              ground (arith, q, n, e),
            )
          ],
        )
      ],
    )
  ]

  -- The map holds the key of every element that is not skipped.
  abbrev pub Holds : Map Str → List A → Type 0
  Holds m ss = (s : A) → Among s ss → skip s ≡ false → lookup (name s) m ≡ some (key s)

  abbrev pub Extends : Map Str → Map Str → Type 0
  Extends seen m = (n k : Str) → lookup n seen ≡ some k → lookup n m ≡ some k

  insert-Extends :
      (seen : Map Str) (n k : Str)
      → ((p : Str) → lookup n seen ≡ some p → p ≡ k)
      → Extends seen (insert n k seen)
  insert-Extends seen n k only j v h = elim (Bool-cases (str_eq n j)) [
    | inl e ↦
        let e' : n ≡ j = (str_eq_iff n j).0 e in
        ground (arith, lookup-insert n j k seen, e, only v (rw e' h))
    | inr e ↦ ground (arith, lookup-insert n j k seen, e, h)
  ]

  lookup-inserted : (seen : Map Str) (n k : Str) → lookup n (insert n k seen) ≡ some k
  lookup-inserted seen n k = ground (arith, lookup-insert n n k seen, str_eq_refl n)

  first_clash-Holds :
      (ss : List A) (seen : Map Str)
      → first_clash skip name key seen ss ≡ none
      → (m : Map Str) × Extends seen m × Holds m ss
  first_clash-Holds [] seen h = (seen, (λ n k e. e), λ s a. absurd (ground (arith, a)))
  first_clash-Holds (s ∷ ss) seen h = elim (round-cases seen s ss) [
    | inl (q, e) ↦
        let (m, x, y) = first_clash-Holds ss seen (ground (arith, h, e)) in
        (m, x, λ t a u. elim a [ inl b ↦ absurd (ground (arith, b, q, u)) | inr b ↦ y t b u ])
    | inr (q, inl (n, e)) ↦
        extend s ss seen (λ p f. absurd (ground (arith, n, f)))
          (first_clash-Holds ss (insert (name s) (key s) seen) (ground (arith, h, e)))
    | inr (q, inr (p, n, inl (same, e))) ↦
        extend s ss seen (λ p' f. ground (arith, n, f, same))
          (first_clash-Holds ss (insert (name s) (key s) seen) (ground (arith, h, e)))
    | inr (q, inr (p, n, inr (other, e))) ↦ absurd (ground (arith, h, e))
  ]
    where
      extend :
          (s : A) (ss : List A) (seen : Map Str)
          → ((p : Str) → lookup (name s) seen ≡ some p → p ≡ key s)
          → (m : Map Str) × Extends (insert (name s) (key s) seen) m × Holds m ss
          → (m : Map Str) × Extends seen m × Holds m (s ∷ ss)
      extend s ss seen only (m, x, y) = (
        m,
        (λ n k f. x n k (insert-Extends seen (name s) (key s) only n k f)),
        λ t a u. elim a [
          | inl b ↦
              let b' : s ≡ t = b in
              rw (← b') (x (name s) (key s) (lookup-inserted seen (name s) (key s)))
          | inr b ↦ y t b u
        ],
      )

  -- Two elements of the list that are not skipped and have one name have one key.
  abbrev pub IsUnambiguous : List A → Type 0
  IsUnambiguous ss =
      (s t : A)
      → Among s ss
      → Among t ss
      → skip s ≡ false
      → skip t ≡ false
      → name s ≡ name t
      → key s ≡ key t

  -- No clash is found only where there is none.
  pub first_clash-IsUnambiguous :
      (ss : List A) → first_clash skip name key [] ss ≡ none → IsUnambiguous ss
  first_clash-IsUnambiguous ss h s t a b u v e =
      let (m, x, y) = first_clash-Holds ss [] h in
      let found : lookup (name t) m ≡ some (key s) = rw (← e) (y s a u) in
      ground (arith, found, y t b v)

  -- An element of the list with the name and the key that is not skipped.
  abbrev pub Produces : List A → Str → Str → Type 0
  Produces ss n k = (s : A) × Among s ss × (skip s ≡ false) × (name s ≡ n) × (key s ≡ k)

  Produces-cons : (s : A) (ss : List A) (n k : Str) → Produces ss n k → Produces (s ∷ ss) n k
  Produces-cons s ss n k (t, a, u, e, f) = (t, inr a, u, e, f)

  -- What a clash says of a list in which `seen` has the keys of earlier elements.
  abbrev IsReal : Map Str → List A → Clash → Type 0
  IsReal seen ss c =
      Produces ss c.name c.key
      × (c.previous ≢ c.key)
      × ((lookup c.name seen ≡ some c.previous) ⊎ Produces ss c.name c.previous)

  IsReal-insert :
      (s : A) (ss : List A) (seen : Map Str) (c : Clash)
      → skip s ≡ false
      → IsReal (insert (name s) (key s) seen) ss c
      → IsReal seen (s ∷ ss) c
  IsReal-insert s ss seen c q (p, d, inr o) =
      (Produces-cons s ss c.name c.key p, d, inr (Produces-cons s ss c.name c.previous o))
  IsReal-insert s ss seen c q (p, d, inl o) = (
    Produces-cons s ss c.name c.key p,
    d,
    elim (Bool-cases (str_eq (name s) c.name)) [
      | inl e ↦ inr (
        s,
        inl refl,
        q,
        (str_eq_iff (name s) c.name).0 e,
        ground (arith, lookup-insert (name s) c.name (key s) seen, e, o),
      )
      | inr e ↦ inl (ground (arith, lookup-insert (name s) c.name (key s) seen, e, o))
    ],
  )

  first_clash-IsReal :
      (ss : List A) (seen : Map Str) (c : Clash)
      → first_clash skip name key seen ss ≡ some c
      → IsReal seen ss c
  unfolding first_clash
  first_clash-IsReal [] seen c h = cc
  first_clash-IsReal (s ∷ ss) seen c h = elim (round-cases seen s ss) [
    | inl (q, e) ↦
        let (p, d, o) = first_clash-IsReal ss seen c (sym e ∙ h) in
        (
          Produces-cons s ss c.name c.key p,
          d,
          elim o [ inl x ↦ inl x | inr x ↦ inr (Produces-cons s ss c.name c.previous x) ],
        )
    | inr (q, inl (n, e)) ↦
        IsReal-insert s ss seen c q
          (first_clash-IsReal ss (insert (name s) (key s) seen) c (sym e ∙ h))
    | inr (q, inr (p, n, inl (same, e))) ↦
        IsReal-insert s ss seen c q
          (first_clash-IsReal ss (insert (name s) (key s) seen) c (sym e ∙ h))
    | inr (q, inr (p, n, inr (other, e))) ↦
        let r : record { name = name s; previous = p; key = key s } ≡ c = ground (arith, h, e) in
        rw (← r) ((s, inl refl, q, refl, refl), other, inl n)
  ]

  -- A clash that is found is one: two elements of its name with its two keys, which differ.
  pub first_clash-Produces :
      (ss : List A) (c : Clash)
      → first_clash skip name key [] ss ≡ some c
      → Produces ss c.name c.previous × Produces ss c.name c.key × (c.previous ≢ c.key)
  first_clash-Produces ss c h =
      let (p, d, o) = first_clash-IsReal ss [] c h in
      (elim o [ inl x ↦ absurd (unfold lookup in ground (arith, x)) | inr x ↦ x ], p, d)
