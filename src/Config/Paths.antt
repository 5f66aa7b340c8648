-- ===== src/Config/Paths.antt =====
-- `ResolvePath` of internal/config/pathresolve.go: a path that a shell has rewritten into one of
-- Windows, and is brought back.
use skret.Config.{drive_letter}
use skret.Base.{
  ℕ, zero, suc, Bool, true, false, not, ◌&&◌, ◌||◌, [], ◌∷◌, ◌++◌, Option, none, some, Str, codes,
  ◌==◌, leb, if◌then◌else◌, is_empty, has_prefix, trim_left, is_lower, is_digit, all_bytes, length,
  map,
}

abbrev pub segment_byte : ℕ → Bool
segment_byte c = is_lower c || is_digit c || c == b'_' || c == b'-'

-- `isSSMPathSegment`
unfoldable pub is_segment : Str → Bool
unfolding all_bytes
is_segment [] = false
is_segment (c ∷ s) = is_lower c && all_bytes segment_byte s

-- The text in front of the last slash and the one behind it (`strings.LastIndexByte`).
unfoldable pub last_slash : Str → Option (Str × Str)
last_slash [] = none
last_slash (c ∷ s) = elim (last_slash s) [
  | some (a, b) ↦ some (c ∷ a, b)
  | none ↦ if c == b'/' then some ([], s) else none
]

-- The loop of `ResolvePath`: `current` is the text in front of the index, `rest` that from it on.
-- A round for each byte is enough, since each but the last takes a slash.
unfoldable pub trailing : ℕ → Str → Str → ℕ → ℕ × Str
unfolding last_slash is_segment
trailing zero current rest matched = (matched, rest)
trailing (suc fuel) current rest matched =
    if is_empty current then (matched, rest) else (elim (last_slash current) [
      | none ↦ if is_segment current then (suc matched, current ++ rest) else (matched, rest)
      | some (before, segment) ↦
          let deeper = trailing fuel before (b'/' ∷ segment ++ rest) (suc matched) in
          if is_segment segment then deeper else (matched, rest)
    ])

abbrev pub plain_byte : ℕ → Bool
plain_byte c = not (c == b'/' || c == b'\\')

abbrev pub slashed : ℕ → ℕ
slashed c = if c == b'\\' then b'/' else c

unfoldable pub recovered : Str → ℕ × Str → Str × Bool
unfolding trim_left
recovered raw (matched, rest) =
    if leb 2 matched then (b'/' ∷ trim_left (λ c. c == b'/') rest, true) else (raw, true)

-- `ResolvePath`
unfoldable pub resolve_path : Str → Str × Bool
unfolding trailing recovered has_prefix
resolve_path raw =
    if is_empty raw || has_prefix raw (codes "/")
    then (raw, false)
    else if not (drive_letter raw)
    then (raw, false)
    else (let norm = map slashed raw in recovered raw (trailing (length norm) norm [] 0))
