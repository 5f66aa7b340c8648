-- ===== src/Launch/Json/Texts.antt =====
-- Compact JSON texts in which no object repeats a field, and how the scanner begins on them.
use skret.Base.{
  ℕ, ◌≤◌, ◌≡◌, ◌≢◌, refl, arith, Bool, true, false, not, List, [], ◌∷◌, ◌++◌, ◌⊎◌, some, none, Str,
  codes, ◌==◌, length, trim_left, all_bytes,
}
use skret.Launch.Authority.{is_among}
use skret.Launch.Json.{
  Scan, scanned, Task, a_value, members, elements, is_json_space, is_number_end, skip_space, expect,
  string_end, split_number, Json, read_string, number, open_list, next, word, value_step, field,
  member_step, step, unquoted,
}

-- What stands between the quotes of a string: a backslash takes the byte behind it along.
pub data IsBody : Str → Type 0 where
  done : IsBody []
  plain : (c : ℕ) {s : Str} → c ≢ b'"' → c ≢ b'\\' → IsBody s → IsBody (c ∷ s)
  escaped : (c : ℕ) {s : Str} → IsBody s → IsBody (b'\\' ∷ c ∷ s)

-- A digit or a minus sign
abbrev pub StartsNumber : ℕ → Type 0
StartsNumber c = (c ≡ b'-') ⊎ ((b'0' ≤ c) × (c ≤ b'9'))

-- A compact text: a value, the fields of an object behind its brace, of which none is among those
-- that were seen or comes again, or the elements of an array behind its bracket.
pub data IsText (json : Json) : Task → Str → Type 0 where
  a_string :
      (body v : Str)
      → IsBody body
      → json.unquote ((b'"' ∷ body) ++ b'"' ∷ []) ≡ some v
      → IsText json a_value (b'"' ∷ (body ++ b'"' ∷ []))
  a_number :
      (c : ℕ) (s : Str)
      → StartsNumber c
      → all_bytes (λ b. not (is_number_end b)) (c ∷ s) ≡ true
      → json.is_float (c ∷ s) ≡ true
      → IsText json a_value (c ∷ s)
  a_true : IsText json a_value (codes "true")
  a_false : IsText json a_value (codes "false")
  a_null : IsText json a_value (codes "null")
  empty_object : IsText json a_value (codes "{}")
  empty_array : IsText json a_value (codes "[]")
  object : {t : Str} → IsText json (members []) t → IsText json a_value (b'{' ∷ t)
  array : {t : Str} → IsText json elements t → IsText json a_value (b'[' ∷ t)
  last_member :
      (seen : List Str) (body key : Str) {v : Str}
      → IsBody body
      → json.unquote ((b'"' ∷ body) ++ b'"' ∷ []) ≡ some key
      → is_among key seen ≡ false
      → IsText json a_value v
      → IsText json (members seen) (b'"' ∷ (body ++ b'"' ∷ b':' ∷ (v ++ b'}' ∷ [])))
  more_members :
      (seen : List Str) (body key : Str) {v t : Str}
      → IsBody body
      → json.unquote ((b'"' ∷ body) ++ b'"' ∷ []) ≡ some key
      → is_among key seen ≡ false
      → IsText json a_value v
      → IsText json (members (key ∷ seen)) t
      → IsText json (members seen) (b'"' ∷ (body ++ b'"' ∷ b':' ∷ (v ++ b',' ∷ t)))
  last_element : {v : Str} → IsText json a_value v → IsText json elements (v ++ b']' ∷ [])
  more_elements :
      {v t : Str}
      → IsText json a_value v
      → IsText json elements t
      → IsText json elements (v ++ b',' ∷ t)

string_end-IsBody :
    {body : Str} (rest : Str)
    → IsBody body
    → string_end false (body ++ b'"' ∷ rest) ≡ some (body, rest)
unfolding string_end
string_end-IsBody rest done = refl
string_end-IsBody rest (plain c q e h) =
    let quote : (c == b'"') ≡ false = ground (arith, q) in
    let slash : (c == b'\\') ≡ false = ground (arith, e) in
    rw (quote, slash, string_end-IsBody rest h) refl
string_end-IsBody rest (escaped c h) = rw (string_end-IsBody rest h) refl

-- What follows a value: nothing, or a byte that ends a number.
abbrev pub follows : Str → Bool
follows [] = true
follows (c ∷ s) = is_number_end c

split_number-all :
    (s rest : Str)
    → all_bytes (λ b. not (is_number_end b)) s ≡ true
    → follows rest ≡ true
    → split_number (s ++ rest) ≡ (s, rest)
unfolding split_number all_bytes
split_number-all [] [] h f = refl
split_number-all [] (c ∷ rest) h f = rw f refl
split_number-all (c ∷ s) rest h f =
    let inner : is_number_end c ≡ false = ground (arith, h) in
    rw (inner, split_number-all s rest (ground (arith, h)) f) refl

module _ (json : Json) where
  read_string-IsBody :
      (body v rest : Str)
      → IsBody body
      → json.unquote ((b'"' ∷ body) ++ b'"' ∷ []) ≡ some v
      → read_string json (body ++ b'"' ∷ rest) ≡ some (v, rest)
  unfolding read_string
  read_string-IsBody body v rest b h = rw (string_end-IsBody rest b, h, unquoted) refl

  number-all :
      (c : ℕ) (s rest : Str)
      → all_bytes (λ b. not (is_number_end b)) (c ∷ s) ≡ true
      → json.is_float (c ∷ s) ≡ true
      → follows rest ≡ true
      → number json (c ∷ s ++ rest) ≡ scanned rest
  unfolding number
  number-all c s rest h float f = ground (arith, split_number-all (c ∷ s) rest h f, float)

  module _ (again : Task → Str → Scan) where
    pub number_read :
        (c : ℕ) (s rest : Str)
        → StartsNumber c
        → all_bytes (λ b. not (is_number_end b)) (c ∷ s) ≡ true
        → json.is_float (c ∷ s) ≡ true
        → follows rest ≡ true
        → value_step json again (c ∷ s ++ rest) ≡ scanned rest
    unfolding value_step word
    number_read c s rest start h float f =
        let brace : (c == b'{') ≡ false = ground (arith, start) in
        let bracket : (c == b'[') ≡ false = ground (arith, start) in
        let quote : (c == b'"') ≡ false = ground (arith, start) in
        let t : (c == b't') ≡ false = ground (arith, start) in
        let other_f : (c == b'f') ≡ false = ground (arith, start) in
        let n : (c == b'n') ≡ false = ground (arith, start) in
        rw (brace, bracket, quote, t, other_f, n, value_step, word) (number-all c s rest h float f)

    pub string_read :
        (body v rest : Str)
        → IsBody body
        → json.unquote ((b'"' ∷ body) ++ b'"' ∷ []) ≡ some v
        → value_step json again (b'"' ∷ (body ++ b'"' ∷ rest)) ≡ scanned rest
    unfolding value_step
    string_read body v rest b h = rw (read_string-IsBody body v rest b h, value_step) refl

    -- A field with its value, behind which the object ends or goes on
    pub field_read :
        (seen : List Str) (body key w after : Str)
        → IsBody body
        → json.unquote ((b'"' ∷ body) ++ b'"' ∷ []) ≡ some key
        → is_among key seen ≡ false
        → again a_value w ≡ scanned after
        → step json again (members seen) (b'"' ∷ (body ++ b'"' ∷ b':' ∷ w))
          ≡ next json again b'}' (members (key ∷ seen)) after
    unfolding step member_step expect skip_space trim_left field
    field_read seen body key w after b h new q =
        rw (read_string-IsBody body key (b':' ∷ w) b h, new, q, step, member_step, field, expect)
          refl

  -- The first byte is no white space and closes no array.
  abbrev pub HasHead : Str → Type 0
  HasHead [] = true ≡ false
  HasHead (c ∷ s) = (is_json_space c ≡ false) × ((c == b']') ≡ false)

  pub value-HasHead : {v : Str} → IsText json a_value v → HasHead v
  value-HasHead (a_string body v b h) = (refl, refl)
  value-HasHead (a_number c s start h f) = (ground (arith, start), ground (arith, start))
  value-HasHead a_true = (refl, refl)
  value-HasHead a_false = (refl, refl)
  value-HasHead a_null = (refl, refl)
  value-HasHead empty_object = (refl, refl)
  value-HasHead empty_array = (refl, refl)
  value-HasHead (object m) = (refl, refl)
  value-HasHead (array e) = (refl, refl)

  pub append-HasHead : (v rest : Str) → HasHead v → HasHead (v ++ rest)
  append-HasHead [] rest h = absurd (ground (arith, h))
  append-HasHead (c ∷ v) rest h = h

  pub elements-HasHead : {t : Str} → IsText json elements t → HasHead t
  elements-HasHead (last_element {v} h) = append-HasHead v (b']' ∷ []) (value-HasHead h)
  elements-HasHead (more_elements {v} {t} h e) = append-HasHead v (b',' ∷ t) (value-HasHead h)

  pub skip_head : (s : Str) → HasHead s → skip_space s ≡ s
  unfolding skip_space trim_left
  skip_head [] h = absurd (ground (arith, h))
  skip_head (c ∷ s) h = rw h.0 refl

  not_closed : (s : Str) → HasHead s → expect b']' s ≡ none
  unfolding expect
  not_closed [] h = absurd (ground (arith, h))
  not_closed (c ∷ s) h = rw h.1 refl

  HasHead-length : (s : Str) → HasHead s → 1 ≤ length s
  HasHead-length [] h = absurd (ground (arith, h))
  HasHead-length (c ∷ s) h = omega arith

  members-length : {seen : List Str} {t : Str} → IsText json (members seen) t → 1 ≤ length t
  members-length (last_member seen body key b h new v) = omega arith
  members-length (more_members seen body key b h new v m) = omega arith

  -- The fields of an object begin with a quote.
  pub members_open :
      (again : Task → Str → Scan) {seen : List Str} {t : Str} (rest : Str)
      → IsText json (members seen) t
      → open_list json again b'}' (members seen) (t ++ rest) ≡ again (members seen) (t ++ rest)
  unfolding open_list expect skip_space trim_left
  members_open again rest (last_member seen body key b h new v) = refl
  members_open again rest (more_members seen body key b h new v m) = refl

  pub elements_open :
      (again : Task → Str → Scan) (s : Str)
      → HasHead s
      → open_list json again b']' elements s ≡ again elements s
  unfolding open_list
  elements_open again [] h = absurd (ground (arith, h))
  elements_open again (c ∷ s) h = ground (arith, skip_head (c ∷ s) h, not_closed (c ∷ s) h)

-- The text of an object, which `json.Valid` accepts.
pub record IsObject (json : Json) (s : Str) : Type 0 where
  pub behind : Str
  pub braced : s ≡ b'{' ∷ behind
  pub accepted : json.valid s ≡ true
  pub compact : IsText json a_value s
