-- ===== src/Base/Text.antt =====
-- Go strings as lists of bytes, and the functions of Go's `strings` package that the source calls.
use Prim.Native.Nat.{ℕ, ◌-◌}
use Prim.Native.Char.{code}
use Prim.Native.String.{String}
use mathlib.Core.Path.{◌≡◌, refl}
use mathlib.Core.Logic.{◌↔◌}
use mathlib.Core.Bool.{Bool, true, false, ◌&&◌, ◌||◌}
use mathlib.Core.List.{List, [], ◌∷◌, ◌++◌, reverse}
use native.Mathlib.Omega.{arith}
use skret.Base.Tests.{ltb, ◌==◌, if◌then◌else◌, within}
use skret.Base.Lists.{drop, length}

-- A Go string: its bytes.
abbrev pub Str : Type 0
Str = List ℕ

-- A literal of the source (every one is ASCII) as its bytes.
abbrev pub codes : String → Str
codes String.[] = []
codes (String.◌∷◌ c s) = code c ∷ codes s

-- `a == b` on strings.
unfoldable pub str_eq : Str → Str → Bool
str_eq [] [] = true
str_eq (x ∷ xs) (y ∷ ys) = x == y && str_eq xs ys
str_eq _ _ = false

pub str_eq_iff : (a b : Str) → (str_eq a b ≡ true) ↔ (a ≡ b)
unfolding str_eq
str_eq_iff (x ∷ a) (y ∷ b) = ground (arith, str_eq_iff a b)
str_eq_iff _ _ = ground arith

pub str_eq_refl : (a : Str) → str_eq a a ≡ true
str_eq_refl a = (str_eq_iff a a).1 refl

-- `s == ""`
abbrev pub is_empty : Str → Bool
is_empty [] = true
is_empty (_ ∷ _) = false

-- `strings.HasPrefix(s, p)`
unfoldable pub has_prefix : Str → Str → Bool
has_prefix s [] = true
has_prefix [] (p ∷ ps) = false
has_prefix (c ∷ s) (p ∷ ps) = c == p && has_prefix s ps

pub has_prefix-append : (p s : Str) → has_prefix (p ++ s) p ≡ true
unfolding has_prefix
has_prefix-append [] s = refl
has_prefix-append (c ∷ p) s = ground (arith, has_prefix-append p s)

-- `strings.TrimPrefix(s, p)`
unfoldable pub trim_prefix : Str → Str → Str
unfolding has_prefix
trim_prefix s p = if has_prefix s p then drop (length p) s else s

-- Does some byte of the string pass the test (`strings.ContainsAny` and the like)?
unfoldable pub any_byte : (ℕ → Bool) → Str → Bool
any_byte test [] = false
any_byte test (c ∷ s) = test c || any_byte test s

-- Do all bytes pass the test?
unfoldable pub all_bytes : (ℕ → Bool) → Str → Bool
all_bytes test [] = true
all_bytes test (c ∷ s) = test c && all_bytes test s

-- `strings.TrimLeft(s, cutset)` for the cutset of the test.
unfoldable pub trim_left : (ℕ → Bool) → Str → Str
trim_left test [] = []
trim_left test (c ∷ s) = let rest = trim_left test s in if test c then rest else c ∷ s

-- `strings.TrimRight(s, cutset)`
unfoldable pub trim_right : (ℕ → Bool) → Str → Str
unfolding trim_left
trim_right test s = reverse (trim_left test (reverse s))

abbrev pub is_lower : ℕ → Bool
is_lower c = within b'a' b'z' c

abbrev pub is_upper : ℕ → Bool
is_upper c = within b'A' b'Z' c

abbrev pub is_digit : ℕ → Bool
is_digit c = within b'0' b'9' c

-- `a < b` on strings: byte by byte, a prefix first.
unfoldable pub str_lt : Str → Str → Bool
str_lt s [] = false
str_lt [] (y ∷ t) = true
str_lt (x ∷ s) (y ∷ t) = ltb x y || (x == y && str_lt s t)

-- `strings.ToUpper(s)` on ASCII letters.
abbrev pub upper_byte : ℕ → ℕ
upper_byte c = if is_lower c then c - 32 else c
