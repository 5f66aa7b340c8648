-- ===== src/Launch/Json.antt =====
-- `jsonScanner` and `validateJSONObject` of internal/secretlaunch/manifest.go. The position in the
-- data is the text that is left from it; where the source steps past the end nothing is left. The
-- loops and the recursion run on fuel. `json.Valid`, the meaning of a string token
-- (`json.Unmarshal`) and `strconv.ParseFloat` are parameters.
pub mod Ends
pub mod Texts
pub mod Accepts
use skret.Base.{
  ℕ, zero, suc, ◌+◌, ◌*◌, Bool, true, false, not, ◌&&◌, ◌||◌, List, [], ◌∷◌, ◌++◌, Option, none,
  some, Str, codes, ◌==◌, if◌then◌else◌, has_prefix, length, drop, trim_left,
}
use skret.Launch.Fields.{
  LaunchError, fail, fail_key, err_canonical, err_duplicate_field, err_invalid_input,
}
use skret.Launch.Authority.{is_among}

-- What the scanner returns: the text behind what it read, or an error.
pub data Scan : Type 0 where
  scanned : Str → Scan
  refused : LaunchError → Scan
  out_of_fuel : Scan

-- The routines that call one another: `value`, and the loops of `object` (with the fields before)
-- and of `array`.
pub data Task : Type 0 where
  a_value : Task
  members : List Str → Task
  elements : Task

-- `isJSONSpace`
abbrev pub is_json_space : ℕ → Bool
is_json_space b = b == 32 || b == b'\t' || b == b'\r' || b == b'\n'

-- `space`
unfoldable pub skip_space : Str → Str
unfolding trim_left
skip_space = trim_left is_json_space

-- The text behind the byte, if it comes next.
unfoldable pub expect : ℕ → Str → Option Str
expect b [] = none
expect b (c ∷ s) = if c == b then some s else none

abbrev push : ℕ → Option (Str × Str) → Option (Str × Str)
push c none = none
push c (some p) = some (c ∷ p.0, p.1)

-- The rest of a string token up to its closing quote, and what follows it.
unfoldable pub string_end : Bool → Str → Option (Str × Str)
string_end escaped [] = none
string_end true (c ∷ s) = push c (string_end false s)
string_end false (c ∷ s) =
    let rest = string_end (c == b'\\') s in if c == b'"' then some ([], s) else push c rest

-- Ends `number`: `,`, `]`, `}` or white space.
abbrev pub is_number_end : ℕ → Bool
is_number_end b = b == b',' || b == b']' || b == b'}' || is_json_space b

-- The text up to where a number ends, and the rest.
unfoldable pub split_number : Str → Str × Str
split_number [] = ([], [])
split_number (c ∷ s) =
    let rest = split_number s in if is_number_end c then ([], c ∷ s) else (c ∷ rest.0, rest.1)

-- The functions of Go's json and strconv packages that the scanner calls.
pub record Json : Type 0 where
  -- `json.Valid`
  pub valid : Str → Bool
  -- `json.Unmarshal` of a string token
  pub unquote : Str → Option Str
  -- does `strconv.ParseFloat` accept the text?
  pub is_float : Str → Bool

-- `literal`
unfoldable pub literal : Str → Str → Scan
unfolding has_prefix
literal word s =
    if has_prefix s word then scanned (drop (length word) s) else refused (fail err_canonical)

abbrev pub and_then : Scan → (Str → Scan) → Scan
and_then (scanned rest) f = f rest
and_then (refused e) f = refused e
and_then out_of_fuel f = out_of_fuel

module _ (json : Json) where
  abbrev pub unquoted : Option (Str × Str) → Option (Str × Str)
  unquoted none = none
  unquoted (some p) = elim (json.unquote ((b'"' ∷ p.0) ++ b'"' ∷ [])) [
    | none ↦ none
    | some v ↦ some (v, p.1)
  ]

  -- `string` behind the opening quote: the value of the token, and the text behind it.
  unfoldable pub read_string : Str → Option (Str × Str)
  unfolding string_end
  read_string s = unquoted (string_end false s)

  -- `number`
  unfoldable pub number : Str → Scan
  unfolding split_number
  number s =
      let p = split_number s in
      elim p.0 [
        | [] ↦ refused (fail err_canonical)
        | _ ∷ _ ↦ if json.is_float p.0 then scanned p.1 else refused (fail err_canonical)
      ]

  -- The last four cases of the switch in `value`
  unfoldable pub word : Str → Scan
  unfolding literal number
  word [] = refused (fail err_canonical)
  word (c ∷ s) =
      if c == b't'
      then literal (codes "true") (c ∷ s)
      else if c == b'f'
      then literal (codes "false") (c ∷ s)
      else if c == b'n'
      then literal (codes "null") (c ∷ s)
      else number (c ∷ s)

  -- `again` is the scanner with less fuel.
  module _ (again : Task → Str → Scan) where
    -- Behind the opening brace or bracket: an empty object or array ends here.
    unfoldable pub open_list : ℕ → Task → Str → Scan
    unfolding expect skip_space
    open_list close task s =
        let t = skip_space s in
        elim (expect close t) [ some rest ↦ scanned rest | none ↦ again task t ]

    -- Behind an element: the end of the list, or a comma and the next one.
    unfoldable pub next : ℕ → Task → Str → Scan
    unfolding expect skip_space
    next close task s =
        let t = skip_space s in
        elim (expect close t) [
          | some rest ↦ scanned rest
          | none ↦ elim (expect b',' t) [
            | some rest ↦ again task rest
            | none ↦ refused (fail err_canonical)
          ]
        ]

    -- `value`, white space before it skipped
    unfoldable pub value_step : Str → Scan
    unfolding open_list read_string word
    value_step [] = refused (fail err_canonical)
    value_step (c ∷ s) = elim (c == b'{') [
      | true ↦ open_list b'}' (members []) s
      | false ↦ elim (c == b'[') [
        | true ↦ open_list b']' elements s
        | false ↦ elim (c == b'"') [
          | true ↦ elim (read_string s) [
            | none ↦ refused (fail err_canonical)
            | some p ↦ scanned p.1
          ]
          | false ↦ word (c ∷ s)
        ]
      ]
    ]

    -- Behind the name of a field: the colon, the value, and what follows it.
    unfoldable pub field : List Str → Str → Str → Scan
    unfolding expect skip_space next is_among
    field seen key s = elim (is_among key seen) [
      | true ↦ refused (fail_key err_duplicate_field key)
      | false ↦ elim (expect b':' (skip_space s)) [
        | none ↦ refused (fail err_canonical)
        | some t ↦ and_then (again a_value t) (next b'}' (members (key ∷ seen)))
      ]
    ]

    -- One round of the loop in `object`
    unfoldable pub member_step : List Str → Str → Scan
    unfolding expect skip_space read_string field
    member_step seen s = elim (expect b'"' (skip_space s)) [
      | none ↦ refused (fail err_canonical)
      | some t ↦ elim (read_string t) [
        | none ↦ refused (fail err_canonical)
        | some p ↦ field seen p.0 p.1
      ]
    ]

    -- One round of each routine; the white space that `array` skips in front of an element is
    -- skipped by `value`.
    unfoldable pub step : Task → Str → Scan
    unfolding value_step member_step next skip_space
    step a_value s = value_step (skip_space s)
    step (members seen) s = member_step seen s
    step elements s = and_then (again a_value s) (next b']' elements)

  -- The scanner on fuel.
  unfoldable pub scan : ℕ → Task → Str → Scan
  unfolding step
  scan zero task s = out_of_fuel
  scan (suc fuel) task s = step (scan fuel) task s

  -- The byte at `firstNonSpace`
  abbrev opens_object : Str → Bool
  opens_object [] = false
  opens_object (c ∷ s) = c == b'{'

  abbrev finish : Str → Str → Scan
  finish data_bytes [] =
      if opens_object (skip_space data_bytes) then scanned [] else refused (fail err_invalid_input)
  finish data_bytes (c ∷ s) = refused (fail err_canonical)

  -- `validateJSONObject`
  unfoldable pub validate_json_object : Str → Scan
  unfolding scan skip_space
  validate_json_object data_bytes =
      if (length data_bytes == 0) || not (json.valid data_bytes)
      then refused (fail err_canonical)
      else and_then (scan (2 * length data_bytes + 2) a_value data_bytes)
          (λ rest. finish data_bytes (skip_space rest))
