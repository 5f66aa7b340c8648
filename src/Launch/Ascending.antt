-- ===== src/Launch/Ascending.antt =====
-- Lists of strings that rise strictly, and sequences of checks that all pass.
use skret.Base.{
  ◌≡◌, refl, arith, Bool, true, false, List, [], ◌∷◌, Option, none, some, Str, All, All-map, ◌↔◌,
  str_lt, is_empty,
}
use skret.Launch.Fields.{LaunchError, error_if, first_error}

pub first_error-All :
    (checks : List (Option LaunchError)) → (first_error checks ≡ none) ↔ All (λ c. c ≡ none) checks
unfolding first_error
first_error-All [] = ground arith
first_error-All (none ∷ checks) = ground (arith, first_error-All checks)
first_error-All (some e ∷ checks) = ground arith

pub error_if-none : (b : Bool) (e : LaunchError) → (error_if b e ≡ none) ↔ (b ≡ false)
error_if-none true e = ground arith
error_if-none false e = ground arith

pub str_lt_trans : (a b c : Str) → str_lt a b ≡ true → str_lt b c ≡ true → str_lt a c ≡ true
unfolding str_lt
str_lt_trans a [] c h k = cc
str_lt_trans a (y ∷ b) [] h k = cc
str_lt_trans [] (y ∷ b) (z ∷ c) h k = refl
str_lt_trans (x ∷ a) (y ∷ b) (z ∷ c) h k = ground (arith, str_lt_trans a b c)

pub str_lt_irrefl : (a : Str) → str_lt a a ≡ false
unfolding str_lt
str_lt_irrefl [] = refl
str_lt_irrefl (x ∷ a) = ground (arith, str_lt_irrefl a)

pub str_lt-empty : (a : Str) → (str_lt [] a ≡ true) ↔ (is_empty a ≡ false)
unfolding str_lt
str_lt-empty [] = ground arith
str_lt-empty (x ∷ a) = ground arith

-- Is the first string below all of the second's list?
abbrev pub IsBelow : Str → List Str → Type 0
IsBelow x xs = All (λ y. str_lt x y ≡ true) xs

-- Every string is below all behind it.
abbrev pub IsAscending : List Str → Type 0
IsAscending [] = Unit
IsAscending (x ∷ xs) = IsBelow x xs × IsAscending xs

-- No string stands twice.
abbrev pub IsDistinct : List Str → Type 0
IsDistinct [] = Unit
IsDistinct (x ∷ xs) = All (λ y. ¬ (x ≡ y)) xs × IsDistinct xs

-- No string of the second list stands in the first.
abbrev pub IsFresh : List Str → List Str → Type 0
IsFresh names [] = Unit
IsFresh names (x ∷ xs) = All (λ y. ¬ (y ≡ x)) names × IsFresh names xs

pub IsFresh-cons :
    (x : Str) (names xs : List Str)
    → IsFresh (x ∷ names) xs ↔ (All (λ y. ¬ (x ≡ y)) xs × IsFresh names xs)
IsFresh-cons x names [] = (λ _. (tt, tt), λ _. tt)
IsFresh-cons x names (y ∷ ys) = ground (arith, IsFresh-cons x names ys)

pub IsFresh-nil : (xs : List Str) → IsFresh [] xs
IsFresh-nil [] = tt
IsFresh-nil (x ∷ xs) = (tt, IsFresh-nil xs)

pub IsBelow-trans : (x y : Str) (xs : List Str) → str_lt x y ≡ true → IsBelow y xs → IsBelow x xs
IsBelow-trans x y xs h = All-map xs (λ z. str_lt_trans x y z h)

-- A list in which each string is above the one before it, the first above `last`.
pub IsBelow-cons :
    (last x : Str) (xs : List Str)
    → ((str_lt last x ≡ true) × (IsBelow x xs × IsAscending xs))
      ↔ (IsBelow last (x ∷ xs) × IsAscending (x ∷ xs))
IsBelow-cons last x xs = (
  λ (h, (below, rise)). ((h, IsBelow-trans last x xs h below), (below, rise)),
  λ (below, rise). (below.0, rise),
)
