-- ===== src/Dotenv.antt =====
-- internal/dotenv/dotenv.go: the codec of one line of a .env file.
pub mod RoundTrip
mod Tests
use skret.Base.{
  ℕ, Bool, true, false, not, ◌&&◌, ◌||◌, List, [], ◌∷◌, ◌++◌, Option, none, some, Str, codes, ◌==◌,
  if◌then◌else◌, is_empty, any_byte, has_prefix, trim_prefix, trim_left, trim_space,
}

-- The bytes of `" \t\r\n\"'`#=$\\"`.
unfoldable pub is_special : ℕ → Bool
is_special c =
    c == 32
    || c == 9
    || c == 13
    || c == 10
    || c == 34
    || c == 39
    || c == 96
    || c == 35
    || c == 61
    || c == 36
    || c == 92

-- `needsQuoting`
unfoldable pub needs_quoting : Str → Bool
unfolding is_special any_byte
needs_quoting v = if is_empty v then true else any_byte is_special v

-- What `Encode` writes for one byte of a quoted value.
unfoldable pub escape_byte : ℕ → Str
escape_byte c =
    if c == 92
    then 92 ∷ 92 ∷ []
    else if c == 34
    then 92 ∷ 34 ∷ []
    else if c == 10
    then 92 ∷ b'n' ∷ []
    else if c == 13
    then 92 ∷ b'r' ∷ []
    else if c == 9
    then 92 ∷ b't' ∷ []
    else c ∷ []

unfoldable pub escape : Str → Str
unfolding escape_byte
escape [] = []
escape (c ∷ v) = escape_byte c ++ escape v

-- `Encode`
unfoldable pub encode : Str → Str → Str
unfolding needs_quoting escape
encode key value =
    if not (needs_quoting value)
    then key ++ (61 ∷ value)
    else key ++ (61 ∷ 34 ∷ (escape value ++ 34 ∷ []))

-- What `unescape` writes for a backslash and the byte behind it.
unfoldable pub unescape_byte : ℕ → Str
unescape_byte c =
    if c == b'n'
    then 10 ∷ []
    else if c == b'r'
    then 13 ∷ []
    else if c == b't'
    then 9 ∷ []
    else if c == 92
    then 92 ∷ []
    else if c == 34
    then 34 ∷ []
    else 92 ∷ c ∷ []

-- The loop of `unescape`; a backslash at the very end stays.
unfoldable pub unescape_loop : Str → Str
unfolding unescape_byte
unescape_loop [] = []
unescape_loop (c ∷ []) = c ∷ []
unescape_loop (c ∷ d ∷ s) =
    let plain = c ∷ unescape_loop (d ∷ s) in
    let escaped = unescape_byte d ++ unescape_loop s in if not (c == 92) then plain else escaped

-- `unescape`, with its way out for a text that holds no backslash.
unfoldable pub unescape : Str → Str
unfolding unescape_loop any_byte
unescape s = if not (any_byte (λ c. c == 92) s) then s else unescape_loop s

-- `s[:len(s)-1]` where the last byte is `q`, and `none` for every other text.
unfoldable pub strip_last : ℕ → Str → Option Str
strip_last q [] = none
strip_last q (c ∷ []) = if c == q then some [] else none
strip_last q (c ∷ d ∷ s) = elim (strip_last q (d ∷ s)) [ none ↦ none | some r ↦ some (c ∷ r) ]

-- `v[1:len(v)-1]` where `v` has two bytes at least and stands between two bytes `q`.
unfoldable pub unquoted : ℕ → Str → Option Str
unfolding strip_last
unquoted q [] = none
unquoted q (c ∷ s) = if c == q then strip_last q s else none

-- `decodeValue`
unfoldable pub decode_value : Str → Str
unfolding unquoted unescape
decode_value v = elim (unquoted 34 v) [
  | some inner ↦ unescape inner
  | none ↦ elim (unquoted 39 v) [ some inner ↦ inner | none ↦ v ]
]

-- `strings.Cut(s, "=")`
unfoldable pub cut : Str → Option (Str × Str)
cut [] = none
cut (c ∷ s) =
    let rest : Option (Str × Str) = elim (cut s) [ none ↦ none | some p ↦ some (c ∷ p.0, p.1) ] in
    if c == 61 then some ([], s) else rest

-- The last step of `Decode`: the key without its surrounding white space.
unfoldable pub decode_pair : Option (Str × Str) → Option (Str × Str)
unfolding trim_space decode_value
decode_pair none = none
decode_pair (some (k, v)) =
    if is_empty (trim_space k) then none else some (trim_space k, decode_value v)

-- `Decode`; `none` is `ok == false`.
unfoldable pub decode : Str → Option (Str × Str)
unfolding trim_left has_prefix trim_prefix cut decode_pair
decode line =
    let s = trim_left (λ c. c == 32 || c == 9) line in
    if is_empty s || has_prefix s (codes "#")
    then none
    else decode_pair (cut (trim_prefix s (codes "export ")))
