-- ===== src/Launch/Decimal.antt =====
-- `strconv.ParseInt(value, 10, 64)` and `strconv.FormatInt`, as `validProviderVersion` of
-- internal/secretlaunch/manifest.go uses them.
use skret.Base.{
  ℕ, zero, suc, ◌+◌, ◌-◌, ◌*◌, ◌/◌, ◌%◌, ◌^◌, Bool, true, false, ◌&&◌, [], ◌∷◌, Option, none, some,
  Str, ◌==◌, ltb, is_digit, if◌then◌else◌, is_empty, str_eq, ℤ, pos, negsuc,
}

digits_from : ℕ → Str → Option ℕ
digits_from n [] = some n
digits_from n (c ∷ s) =
    let rest = digits_from (n * 10 + (c - 48)) s in if is_digit c then rest else none

-- A number of at least one digit.
parse_digits : Str → Option ℕ
unfolding digits_from
parse_digits s = if is_empty s then none else digits_from 0 s

positive : Option ℕ → Option ℤ
positive none = none
positive (some n) = if ltb n (2 ^ 63) then some (pos n) else none

negative : Option ℕ → Option ℤ
negative none = none
negative (some zero) = some (pos 0)
negative (some (suc n)) = if ltb n (2 ^ 63) then some (negsuc n) else none

-- `strconv.ParseInt(s, 10, 64)`; `none` is an error.
unfoldable pub parse_int : Str → Option ℤ
unfolding parse_digits positive negative
parse_int [] = none
parse_int (c ∷ s) =
    if c == b'-'
    then negative (parse_digits s)
    else if c == b'+'
    then positive (parse_digits s)
    else positive (parse_digits (c ∷ s))

-- The digits of `n` before `rest`; `n` rounds are enough.
format_from : ℕ → ℕ → Str → Str
format_from zero n rest = (n % 10 + 48) ∷ rest
format_from (suc fuel) n rest = elim (ltb n 10) [
  | true ↦ (n + 48) ∷ rest
  | false ↦ format_from fuel (n / 10) ((n % 10 + 48) ∷ rest)
]

-- `strconv.FormatUint(n, 10)`
unfoldable pub format_nat : ℕ → Str
unfolding format_from
format_nat n = format_from 20 n []

-- `strconv.FormatInt(i, 10)`
unfoldable pub format_int : ℤ → Str
unfolding format_nat
format_int (pos n) = format_nat n
format_int (negsuc n) = b'-' ∷ format_nat (suc n)

provider_version : Str → Option ℤ → Bool
unfolding format_int
provider_version value (some (pos n)) = ltb 0 n && str_eq (format_int (pos n)) value
provider_version value _ = false

-- `validProviderVersion`
unfoldable pub valid_provider_version : Str → Bool
unfolding parse_int provider_version
valid_provider_version value = provider_version value (parse_int value)

below_2_64 : Option ℕ → Option ℕ
below_2_64 none = none
below_2_64 (some n) = if ltb n (2 ^ 64) then some n else none

-- `strconv.ParseUint(s, 10, 64)`, which takes no sign
unfoldable pub parse_uint : Str → Option ℕ
unfolding parse_digits below_2_64
parse_uint s = below_2_64 (parse_digits s)
