-- ===== src/Base/Space.antt =====
-- `strings.TrimSpace`: Unicode white space at both ends, by its UTF-8 bytes.
use Prim.Native.Nat.{ℕ, zero, suc}
use mathlib.Core.Bool.{◌&&◌, ◌||◌}
use mathlib.Core.List.{[], ◌∷◌, reverse}
use skret.Base.Tests.{◌==◌, if◌then◌else◌, within}
use skret.Base.Lists.{drop, length}
use skret.Base.Text.{Str}

-- The code points of two bytes that are white space: U+0085 and U+00A0.
space_two : ℕ → ℕ → ℕ
space_two a b = if a == 0xC2 && (b == 0x85 || b == 0xA0) then 2 else 0

-- Those of three bytes: U+1680, U+2000 to U+200A, U+2028, U+2029, U+202F, U+205F, U+3000.
space_three : ℕ → ℕ → ℕ → ℕ
space_three a b c =
    if a == 0xE1 && b == 0x9A && c == 0x80
      || a == 0xE2 && b == 0x80 && (within 0x80 0x8A c || c == 0xA8 || c == 0xA9 || c == 0xAF)
      || a == 0xE2 && b == 0x81 && c == 0x9F
      || a == 0xE3 && b == 0x80 && c == 0x80
    then 3
    else 0

space_one : ℕ → ℕ
space_one a = if a == 32 || within 9 13 a then 1 else 0

or_else : ℕ → ℕ → ℕ
or_else zero n = n
or_else (suc m) n = suc m

-- How many bytes the white space at the front takes, or 0 where there is none.
front_space : Str → ℕ
unfolding space_one space_two space_three or_else
front_space [] = 0
front_space (a ∷ []) = space_one a
front_space (a ∷ b ∷ []) = or_else (space_one a) (space_two a b)
front_space (a ∷ b ∷ c ∷ s) = or_else (or_else (space_one a) (space_two a b)) (space_three a b c)

-- The same at the end of a text, which is given reversed.
back_space : Str → ℕ
unfolding space_one space_two space_three or_else
back_space [] = 0
back_space (a ∷ []) = space_one a
back_space (a ∷ b ∷ []) = or_else (space_one a) (space_two b a)
back_space (a ∷ b ∷ c ∷ s) = or_else (or_else (space_one a) (space_two b a)) (space_three c b a)

-- One round for each byte is enough, since each takes a byte or stops.
trim_by : (Str → ℕ) → ℕ → Str → Str
trim_by measure zero s = s
trim_by measure (suc fuel) s = elim (measure s) [
  | zero ↦ s
  | suc n ↦ trim_by measure fuel (drop (suc n) s)
]

unfoldable pub trim_space : Str → Str
unfolding front_space back_space trim_by
trim_space s =
    let front = trim_by front_space (length s) s in
    reverse (trim_by back_space (length front) (reverse front))
