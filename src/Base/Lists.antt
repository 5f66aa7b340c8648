-- ===== src/Base/Lists.antt =====
-- Lists measured by native numbers, under the library's names, and predicates on all elements.
use Prim.Native.Nat.{ℕ, zero, suc, ◌+◌}
use mathlib.Core.Path.{◌≡◌, refl, ap, subst}
use mathlib.Core.Bool.{true, false}
use mathlib.Core.Logic.{◌⊎◌, inl, inr}
use mathlib.Core.List.{List, [], ◌∷◌, ◌++◌, map}
use native.Mathlib.Omega.{arith}

module _ {ℓ} {A : Type ℓ} where
  abbrev pub length : List A → ℕ
  length [] = 0
  length (x ∷ xs) = suc (length xs)

  abbrev pub take : ℕ → List A → List A
  take zero xs = []
  take (suc n) [] = []
  take (suc n) (x ∷ xs) = x ∷ take n xs

  abbrev pub drop : ℕ → List A → List A
  drop zero xs = xs
  drop (suc n) [] = []
  drop (suc n) (x ∷ xs) = drop n xs

  pub length-append : (xs ys : List A) → length (xs ++ ys) ≡ length xs + length ys
  length-append [] ys = omega arith
  length-append (x ∷ xs) ys = omega (arith, length-append xs ys)

abbrev pub All {ℓ κ} : {A : Type ℓ} → (A → Type κ) → List A → Type κ
All P [] = Unit
All P (x ∷ xs) = P x × All P xs

pub All-append {ℓ κ} :
    {A : Type ℓ} (P : A → Type κ) (xs ys : List A) → All P xs → All P ys → All P (xs ++ ys)
All-append P [] ys hx hy = hy
All-append P (x ∷ xs) ys hx hy = (hx.0, All-append P xs ys hx.1 hy)

pub All-map {ℓ κ} :
    {A : Type ℓ} {P Q : A → Type κ} (xs : List A) → ((x : A) → P x → Q x) → All P xs → All Q xs
All-map [] f h = tt
All-map (x ∷ xs) f h = (f x h.0, All-map xs f h.1)

pub All-both {ℓ κ} :
    {A : Type ℓ} (P Q : A → Type κ) (xs : List A) → All P xs → All Q xs → All (λ x. P x × Q x) xs
All-both P Q [] p q = tt
All-both P Q (x ∷ xs) p q = ((p.0, q.0), All-both P Q xs p.1 q.1)

-- Is `x` an element of the list?
abbrev pub Among : {A : Type 0} → A → List A → Type 0
Among x [] = true ≡ false
Among x (y ∷ ys) = (y ≡ x) ⊎ Among x ys

pub Among-append-right : {A : Type 0} (x : A) (xs ys : List A) → Among x ys → Among x (xs ++ ys)
Among-append-right x [] ys h = h
Among-append-right x (y ∷ xs) ys h = inr (Among-append-right x xs ys h)

pub Among-append :
    {A : Type 0} (x : A) (xs ys : List A) → Among x (xs ++ ys) → Among x xs ⊎ Among x ys
Among-append x [] ys h = inr h
Among-append x (y ∷ xs) ys (inl e) = inl (inl e)
Among-append x (y ∷ xs) ys (inr h) = elim (Among-append x xs ys h) [
  | inl a ↦ inl (inr a)
  | inr a ↦ inr a
]

pub Among-map :
    {A B : Type 0} (f : A → B) (x : A) (xs : List A) → Among x xs → Among (f x) (map f xs)
Among-map f x (y ∷ xs) (inl e) = inl (ap f e)
Among-map f x (y ∷ xs) (inr h) = inr (Among-map f x xs h)
Among-map f x [] h = h

pub map-Among :
    {A B : Type 0} (f : A → B) (y : B) (xs : List A)
    → Among y (map f xs)
    → (x : A) × Among x xs × (f x ≡ y)
map-Among f y [] h = absurd (ground (arith, h))
map-Among f y (x ∷ xs) (inl e) = (x, inl refl, e)
map-Among f y (x ∷ xs) (inr h) = let (z, a, e) = map-Among f y xs h in (z, inr a, e)

pub All-Among : {A : Type 0} (P : A → Type 0) (x : A) (xs : List A) → All P xs → Among x xs → P x
All-Among P x [] h a = absurd (ground (arith, a))
All-Among P x (y ∷ xs) h (inl e) = subst P e h.0
All-Among P x (y ∷ xs) h (inr a) = All-Among P x xs h.1 a

pub Among-All :
    {A : Type 0} (P : A → Type 0) (xs : List A) → ((x : A) → Among x xs → P x) → All P xs
Among-All P [] f = tt
Among-All P (x ∷ xs) f = (f x (inl refl), Among-All P xs (λ y a. f y (inr a)))
