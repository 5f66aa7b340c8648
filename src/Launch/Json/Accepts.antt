-- ===== src/Launch/Json/Accepts.antt =====
-- The scanner lets through every compact JSON object in which no object repeats a field.
use skret.Base.{
  ℕ, zero, suc, ◌+◌, ◌*◌, ◌≤◌, ◌≡◌, refl, sym, ap, subst, ◌∙◌, arith, true, List, [], ◌∷◌, ◌++◌,
  Str, has_prefix, length, length-append, append_assoc, append-nil, trim_left,
}
use skret.Launch.Json.{
  Scan, scanned, Task, a_value, members, elements, skip_space, expect, Json, literal, open_list,
  next, word, value_step, step, scan, validate_json_object,
}
use skret.Launch.Json.Texts.{
  IsText, a_string, a_number, a_true, a_false, a_null, empty_object, empty_array, object, array,
  last_member, more_members, last_element, more_elements, follows, field_read, string_read,
  number_read, value-HasHead, append-HasHead, elements-HasHead, skip_head, members_open,
  elements_open, IsObject,
}

module _ (json : Json) where
  member_assoc :
      (body v x rest : Str)
      → (body ++ b'"' ∷ b':' ∷ (v ++ x)) ++ rest ≡ body ++ b'"' ∷ b':' ∷ (v ++ (x ++ rest))
  member_assoc body v x rest =
      append_assoc body (b'"' ∷ b':' ∷ (v ++ x)) rest
      ∙ ap (λ z. body ++ b'"' ∷ b':' ∷ z) (append_assoc v x rest)

  abbrev Room : Task → Str → ℕ → Type 0
  Room a_value t fuel = 2 * length t + 1 ≤ fuel
  Room _ t fuel = 2 * length t ≤ fuel

  abbrev Follows : Task → Str → Type 0
  Follows a_value rest = follows rest ≡ true
  Follows _ rest = Unit

  element_round :
      (fuel : ℕ) (v x : Str)
      → scan json fuel a_value (v ++ x) ≡ scanned x
      → scan json (suc fuel) elements (v ++ x) ≡ next json (scan json fuel) b']' elements x
  unfolding scan step
  element_round fuel v x h = rw h refl

  next_closed :
      (again : Task → Str → Scan) (rest : Str)
      → (next json again b']' elements (b']' ∷ rest) ≡ scanned rest)
        × ((seen : List Str) → next json again b'}' (members seen) (b'}' ∷ rest) ≡ scanned rest)
  unfolding next expect skip_space trim_left
  next_closed again rest = (refl, λ seen. refl)

  next_comma :
      (again : Task → Str → Scan) (rest : Str)
      → (next json again b']' elements (b',' ∷ rest) ≡ again elements rest)
        × ((seen : List Str)
            → next json again b'}' (members seen) (b',' ∷ rest) ≡ again (members seen) rest)
  unfolding next expect skip_space trim_left
  next_comma again rest = (refl, λ seen. refl)

  scan-IsText :
      {task : Task} {t : Str}
      → IsText json task t
      → (fuel : ℕ) (rest : Str) → Room task t fuel
      → Follows task rest
      → scan json fuel task (t ++ rest) ≡ scanned rest
  unfolding scan step value_step skip_space trim_left word literal has_prefix open_list expect
  scan-IsText (a_string body v b h) zero rest room f = absurd (omega (arith, room))
  scan-IsText (a_string body v b h) (suc fuel) rest room f =
      subst (λ z. value_step json (scan json fuel) (b'"' ∷ z) ≡ scanned rest)
        (sym (append_assoc body (b'"' ∷ []) rest))
        (string_read json (scan json fuel) body v rest b h)
  scan-IsText (a_number c s start h float) zero rest room f = absurd (omega (arith, room))
  scan-IsText (a_number c s start h float) (suc fuel) rest room f =
      ap (value_step json (scan json fuel))
        (skip_head json (c ∷ s ++ rest) (value-HasHead json (a_number c s start h float)))
      ∙ number_read json (scan json fuel) c s rest start h float f
  scan-IsText a_true zero rest room f = absurd (omega (arith, room))
  scan-IsText a_true (suc fuel) rest room f = refl
  scan-IsText a_false zero rest room f = absurd (omega (arith, room))
  scan-IsText a_false (suc fuel) rest room f = refl
  scan-IsText a_null zero rest room f = absurd (omega (arith, room))
  scan-IsText a_null (suc fuel) rest room f = refl
  scan-IsText empty_object zero rest room f = absurd (omega (arith, room))
  scan-IsText empty_object (suc fuel) rest room f = refl
  scan-IsText empty_array zero rest room f = absurd (omega (arith, room))
  scan-IsText empty_array (suc fuel) rest room f = refl
  scan-IsText (object m) zero rest room f = absurd (omega (arith, room))
  scan-IsText (object m) (suc fuel) rest room f =
      members_open json (scan json fuel) rest m ∙ scan-IsText m fuel rest (omega (arith, room)) tt
  scan-IsText (array {t} e) zero rest room f = absurd (omega (arith, room))
  scan-IsText (array {t} e) (suc fuel) rest room f =
      elements_open json (scan json fuel) (t ++ rest)
        (append-HasHead json t rest (elements-HasHead json e))
      ∙ scan-IsText e fuel rest (omega (arith, room)) tt
  scan-IsText (last_member seen body key b h new w) zero rest room f = absurd (omega (arith, room))
  scan-IsText (last_member seen body key {v} b h new w) (suc fuel) rest room f =
      ap (λ z. scan json (suc fuel) (members seen) (b'"' ∷ z))
        (member_assoc body v (b'}' ∷ []) rest)
      ∙ field_read json (scan json fuel) seen body key (v ++ b'}' ∷ rest) (b'}' ∷ rest) b h new (
          scan-IsText w fuel (b'}' ∷ rest)
            (omega (
              arith,
              room,
              length-append body (b'"' ∷ b':' ∷ (v ++ b'}' ∷ [])),
              length-append v (b'}' ∷ []),
            ))
            refl)
      ∙ (next_closed (scan json fuel) rest).1 (key ∷ seen)
  scan-IsText (more_members seen body key b h new w m) zero rest room f =
      absurd (omega (arith, room))
  scan-IsText (more_members seen body key {v} {t} b h new w m) (suc fuel) rest room f =
      let size = length-append body (b'"' ∷ b':' ∷ (v ++ b',' ∷ t)) in
      let inner = length-append v (b',' ∷ t) in
      ap (λ z. scan json (suc fuel) (members seen) (b'"' ∷ z)) (member_assoc body v (b',' ∷ t) rest)
      ∙ field_read json (scan json fuel) seen body key (v ++ b',' ∷ (t ++ rest))
          (b',' ∷ (t ++ rest)) b h new
          (scan-IsText w fuel (b',' ∷ (t ++ rest)) (omega (arith, room, size, inner)) refl)
      ∙ (next_comma (scan json fuel) (t ++ rest)).1 (key ∷ seen)
      ∙ scan-IsText m fuel rest (omega (arith, room, size, inner)) tt
  scan-IsText (last_element {v} w) zero rest room f =
      absurd (omega (arith, room, length-append v (b']' ∷ [])))
  scan-IsText (last_element {v} w) (suc fuel) rest room f =
      ap (scan json (suc fuel) elements) (append_assoc v (b']' ∷ []) rest)
      ∙ element_round fuel v (b']' ∷ rest)
          (scan-IsText w fuel (b']' ∷ rest) (omega (arith, room, length-append v (b']' ∷ []))) refl)
      ∙ (next_closed (scan json fuel) rest).0
  scan-IsText (more_elements {v} {t} w e) zero rest room f =
      absurd (omega (arith, room, length-append v (b',' ∷ t)))
  scan-IsText (more_elements {v} {t} w e) (suc fuel) rest room f =
      let size = length-append v (b',' ∷ t) in
      ap (scan json (suc fuel) elements) (append_assoc v (b',' ∷ t) rest)
      ∙ element_round fuel v (b',' ∷ (t ++ rest))
          (scan-IsText w fuel (b',' ∷ (t ++ rest)) (omega (arith, room, size)) refl)
      ∙ (next_comma (scan json fuel) (t ++ rest)).0
      ∙ scan-IsText e fuel rest (omega (arith, room, size)) tt

pub validate_json_object-IsObject :
    (json : Json) (s : Str) → IsObject json s → validate_json_object json s ≡ scanned []
unfolding validate_json_object skip_space trim_left
validate_json_object-IsObject json s h =
    let t = h.behind in
    let ok : json.valid (b'{' ∷ t) ≡ true = subst (λ z. json.valid z ≡ true) h.braced h.accepted in
    let grammar = subst (IsText json a_value) h.braced h.compact in
    let read : scan json (2 * length (b'{' ∷ t) + 2) a_value (b'{' ∷ t) ≡ scanned [] =
      subst (λ z. scan json (2 * length (b'{' ∷ t) + 2) a_value z ≡ scanned [])
        (append-nil (b'{' ∷ t))
        (scan-IsText json grammar (2 * length (b'{' ∷ t) + 2) [] (omega arith) refl) in
    subst (λ z. validate_json_object json z ≡ scanned []) (sym h.braced) (ground (arith, ok, read))
