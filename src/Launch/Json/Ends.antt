-- ===== src/Launch/Json/Ends.antt =====
-- The scanner always comes to an end: every round reads a byte or goes from an element to its
-- value, so twice the length of the data is fuel enough.
use skret.Base.{
  ℕ, zero, suc, ◌+◌, ◌*◌, ◌≤◌, ◌<◌, ◌≡◌, ◌≢◌, arith, Bool, true, false, not, ◌||◌, List, [], ◌∷◌,
  some, Str, codes, ◌==◌, if◌then◌else◌, inl, inr, Bool-cases, Option-cases, has_prefix, length,
  drop, trim_left,
}
use skret.Launch.Authority.{is_among}
use skret.Launch.Json.{
  Scan, scanned, refused, out_of_fuel, Task, a_value, members, elements, is_json_space, skip_space,
  expect, string_end, split_number, Json, literal, and_then, read_string, number, open_list, next,
  word, value_step, field, member_step, step, scan, finish, validate_json_object,
}

-- The scanner came to an end, with at most `n` bytes left.
abbrev pub IsDone : ℕ → Scan → Type 0
IsDone n (scanned t) = length t ≤ n
IsDone n (refused e) = Unit
IsDone n out_of_fuel = true ≡ false

IsDone-mono : (m n : ℕ) (r : Scan) → m ≤ n → IsDone m r → IsDone n r
IsDone-mono m n (scanned t) h d = omega (arith, h, d)
IsDone-mono m n (refused e) h d = tt
IsDone-mono m n out_of_fuel h d = d

trim_left-length : (test : ℕ → Bool) (s : Str) → length (trim_left test s) ≤ length s
unfolding trim_left
trim_left-length test [] = omega arith
trim_left-length test (c ∷ s) = ground (arith, trim_left-length test s)

skip_space-length : (s : Str) → length (skip_space s) ≤ length s
unfolding skip_space
skip_space-length s = trim_left-length is_json_space s

expect-length : (b : ℕ) (s t : Str) → expect b s ≡ some t → length t < length s
unfolding expect
expect-length b [] t h = absurd (ground (arith, h))
expect-length b (c ∷ s) t h = ground (arith, h)

string_end-length :
    (e : Bool) (s : Str) (p : Str × Str) → string_end e s ≡ some p → length p.1 ≤ length s
unfolding string_end
string_end-length e [] p h = absurd (ground (arith, h))
string_end-length true (c ∷ s) p h = elim (Option-cases (string_end false s)) [
  | inl q ↦ absurd (ground (arith, q, h))
  | inr (r, q) ↦ ground (arith, q, h, string_end-length false s r q)
]
string_end-length false (c ∷ s) p h = elim (Option-cases (string_end (c == b'\\') s)) [
  | inl q ↦ ground (arith, q, h)
  | inr (r, q) ↦ ground (arith, q, h, string_end-length (c == b'\\') s r q)
]

split_number-length : (s : Str) → length (split_number s).1 ≤ length s
unfolding split_number
split_number-length [] = omega arith
split_number-length (c ∷ s) = ground (arith, split_number-length s)

drop-length : (n : ℕ) (s : Str) → length (drop n s) ≤ length s
drop-length zero s = omega arith
drop-length (suc n) [] = omega arith
drop-length (suc n) (c ∷ s) = omega (arith, drop-length n s)

literal-IsDone : (word s : Str) → IsDone (length s) (literal word s)
unfolding literal
literal-IsDone word s = elim (Bool-cases (has_prefix s word)) [
  | inl q ↦ rw q (drop-length (length word) s)
  | inr q ↦ rw q tt
]

module _ (json : Json) where
  read_string-length :
      (s : Str) (p : Str × Str) → read_string json s ≡ some p → length p.1 ≤ length s
  unfolding read_string
  read_string-length s p h = elim (Option-cases (string_end false s)) [
    | inl q ↦ absurd (ground (arith, q, h))
    | inr (r, q) ↦ ground (arith, q, h, string_end-length false s r q)
  ]

  number-IsDone : (s : Str) → IsDone (length s) (number json s)
  unfolding number
  number-IsDone s = ground (arith, split_number-length s)

IsDone-if :
    (b : Bool) (n : ℕ) (x y : Scan) → IsDone n x → IsDone n y → IsDone n (if b then x else y)
IsDone-if true n x y hx hy = hx
IsDone-if false n x y hx hy = hy

word-IsDone : (json : Json) (s : Str) → IsDone (length s) (word json s)
unfolding word
word-IsDone json [] = tt
word-IsDone json (c ∷ s) =
    let n = length (c ∷ s) in
    IsDone-if (c == b't') n _ _ (literal-IsDone (codes "true") (c ∷ s)) (
      IsDone-if (c == b'f') n _ _ (literal-IsDone (codes "false") (c ∷ s)) (
        IsDone-if (c == b'n') n _ _ (literal-IsDone (codes "null") (c ∷ s))
          (number-IsDone json (c ∷ s))))

-- How many rounds a routine may take.
abbrev weight : Task → Str → ℕ
weight a_value s = 2 * length s + 1
weight (members seen) s = 2 * length s + 2
weight elements s = 2 * length s + 2

-- The weight grows with the text alone, by two for each byte.
weight_mono :
    (task : Task) (s t : Str) (n : ℕ)
    → length t + n ≤ length s
    → weight task t + (n + n) ≤ weight task s
weight_mono a_value s t n h = omega (arith, h)
weight_mono (members seen) s t n h = omega (arith, h)
weight_mono elements s t n h = omega (arith, h)

module _ (json : Json) (again : Task → Str → Scan) (w : ℕ)
    (known : (task : Task) (s : Str) → weight task s ≤ w → IsDone (length s) (again task s)) where
  open_list-IsDone :
      (close : ℕ) (task : Task) (s : Str)
      → weight task s ≤ w
      → IsDone (length s) (open_list json again close task s)
  unfolding open_list
  open_list-IsDone close task s h = elim (Option-cases (expect close (skip_space s))) [
    | inl q ↦
        rw (q, open_list)
          (IsDone-mono (length (skip_space s)) (length s) (again task (skip_space s))
            (skip_space-length s)
            (known task (skip_space s) (
              omega (
                arith,
                h,
                weight_mono task s (skip_space s) 0 (omega (arith, skip_space-length s)),
              ))))
    | inr (t, q) ↦
        rw (q, open_list)
          (omega (arith, expect-length close (skip_space s) t q, skip_space-length s))
  ]

  next-IsDone :
      (close : ℕ) (task : Task) (s : Str)
      → weight task s ≤ suc w
      → IsDone (length s) (next json again close task s)
  unfolding next
  next-IsDone close task s h = elim (Option-cases (expect close (skip_space s))) [
    | inl q ↦ elim (Option-cases (expect b',' (skip_space s))) [
      | inl q' ↦ rw (q, q', next) tt
      | inr (t, q') ↦
          let shorter = expect-length b',' (skip_space s) t q' in
          rw (q, q', next)
            (IsDone-mono (length t) (length s) (again task t)
              (omega (arith, shorter, skip_space-length s))
              (known task t (
                omega (
                  arith,
                  h,
                  weight_mono task s t 1 (omega (arith, shorter, skip_space-length s)),
                ))))
    ]
    | inr (t, q) ↦
        rw (q, next) (omega (arith, expect-length close (skip_space s) t q, skip_space-length s))
  ]

  and_then-IsDone :
      (n : ℕ) (r : Scan) (f : Str → Scan)
      → IsDone n r
      → ((t : Str) → length t ≤ n → IsDone n (f t))
      → IsDone n (and_then r f)
  and_then-IsDone n (scanned t) f h g = g t h
  and_then-IsDone n (refused e) f h g = tt
  and_then-IsDone n out_of_fuel f h g = h

  value_step-IsDone : (s : Str) → 2 * length s ≤ w → IsDone (length s) (value_step json again s)
  unfolding value_step
  value_step-IsDone [] h = tt
  value_step-IsDone (c ∷ s) h = elim (Bool-cases (c == b'{')) [
    | inl q ↦
        rw (q, value_step)
          (IsDone-mono (length s) (suc (length s)) _ (omega arith)
            (open_list-IsDone b'}' (members []) s (omega (arith, h))))
    | inr q ↦ elim (Bool-cases (c == b'[')) [
      | inl r ↦
          rw (q, r, value_step)
            (IsDone-mono (length s) (suc (length s)) _ (omega arith)
              (open_list-IsDone b']' elements s (omega (arith, h))))
      | inr r ↦ elim (Bool-cases (c == b'"')) [
        | inl t ↦ elim (Option-cases (read_string json s)) [
          | inl u ↦ rw (q, r, t, u, value_step) tt
          | inr (p, u) ↦ rw (q, r, t, u, value_step) (omega (arith, read_string-length json s p u))
        ]
        | inr t ↦ rw (q, r, t, value_step) (word-IsDone json (c ∷ s))
      ]
    ]
  ]

  field-IsDone :
      (seen : List Str) (key s : Str)
      → 2 * length s + 2 ≤ suc w
      → IsDone (length s) (field json again seen key s)
  unfolding field
  field-IsDone seen key s h = elim (Bool-cases (is_among key seen)) [
    | inl q ↦ rw (q, field) tt
    | inr q ↦ elim (Option-cases (expect b':' (skip_space s))) [
      | inl r ↦ rw (q, r, field) tt
      | inr (t, r) ↦
          let shorter = expect-length b':' (skip_space s) t r in
          let before = skip_space-length s in
          rw (q, r, field)
            (IsDone-mono (length t) (length s) _ (omega (arith, shorter, before)) (
              and_then-IsDone (length t) (again a_value t) _
                (known a_value t (omega (arith, h, shorter, before)))
                λ u le. IsDone-mono (length u) (length t) _ le (
                  next-IsDone b'}' (members (key ∷ seen)) u
                    (omega (arith, h, shorter, before, le)))))
    ]
  ]

  member_step-IsDone :
      (seen : List Str) (s : Str)
      → 2 * length s + 2 ≤ suc w
      → IsDone (length s) (member_step json again seen s)
  unfolding member_step
  member_step-IsDone seen s h = elim (Option-cases (expect b'"' (skip_space s))) [
    | inl q ↦ rw (q, member_step) tt
    | inr (t, q) ↦ elim (Option-cases (read_string json t)) [
      | inl r ↦ rw (q, r, member_step) tt
      | inr (p, r) ↦
          let shorter = expect-length b'"' (skip_space s) t q in
          let le = read_string-length json t p r in
          rw (q, r, member_step)
            (IsDone-mono (length p.1) (length s) _ (omega (arith, shorter, le, skip_space-length s))
              (field-IsDone seen p.0 p.1 (omega (arith, h, shorter, le, skip_space-length s))))
    ]
  ]

  step-IsDone :
      (task : Task) (s : Str) → weight task s ≤ suc w → IsDone (length s) (step json again task s)
  unfolding step
  step-IsDone a_value s h =
      IsDone-mono (length (skip_space s)) (length s) _ (skip_space-length s)
        (value_step-IsDone (skip_space s) (omega (arith, h, skip_space-length s)))
  step-IsDone (members seen) s h = member_step-IsDone seen s h
  step-IsDone elements s h =
      and_then-IsDone (length s) (again a_value s) _ (known a_value s (omega (arith, h))) λ t le.
        IsDone-mono (length t) (length s) _ le (next-IsDone b']' elements t (omega (arith, h, le)))

scan-IsDone :
    (json : Json) (fuel : ℕ) (task : Task) (s : Str)
    → weight task s ≤ fuel
    → IsDone (length s) (scan json fuel task s)
unfolding scan
scan-IsDone json zero a_value s h = absurd (omega (arith, h))
scan-IsDone json zero (members seen) s h = absurd (omega (arith, h))
scan-IsDone json zero elements s h = absurd (omega (arith, h))
scan-IsDone json (suc fuel) task s h =
    step-IsDone json (scan json fuel) fuel (scan-IsDone json fuel) task s h

finish-ends : (json : Json) (s t : Str) → finish json s t ≢ out_of_fuel
finish-ends json s [] e = ground (arith, e)
finish-ends json s (c ∷ t) e = cc

and_then-ends :
    (n : ℕ) (r : Scan) (f : Str → Scan)
    → IsDone n r
    → ((t : Str) → f t ≢ out_of_fuel)
    → and_then r f ≢ out_of_fuel
and_then-ends n (scanned t) f h g e = g t e
and_then-ends n (refused x) f h g e = cc
and_then-ends n out_of_fuel f h g e = cc

-- validateJSONObject returns on every data: its scanner reads to the end or refuses.
pub validate_json_object-ends : (json : Json) (s : Str) → validate_json_object json s ≢ out_of_fuel
unfolding validate_json_object
validate_json_object-ends json s = elim (Bool-cases ((length s == 0) || not (json.valid s))) [
  | inl q ↦ rw (q, validate_json_object) (λ e. cc)
  | inr q ↦
      rw (q, validate_json_object)
        (and_then-ends (length s) _ _ (scan-IsDone json (2 * length s + 2) a_value s (omega arith))
          (λ t. finish-ends json s (skip_space t)))
]
