-- ===== src/Target/DotenvFile.antt =====
-- What the dotenv target writes (internal/syncer/dotenv.go) is what the importer reads
-- (internal/importer/dotenv.go).
use skret.Base.{
  ℕ, suc, ◌≤◌, ◌≡◌, refl, ap, ◌∙◌, arith, Bool, false, ◌||◌, List, [], ◌∷◌, ◌++◌, map, none, some,
  Str, ◌==◌, length, any_byte, ◌⊎◌, inl, inr, Bool-cases, All, Among, Among-map, str_lt,
}
use skret.Provider.{Secret}
use skret.Dotenv.{is_special, needs_quoting, escape_byte, escape, encode, strip_last}
use skret.Dotenv.RoundTrip.{IsName, decode-encode}
use skret.Target.Dotenv.{
  Line, line_of, insert_line, sort_lines, render, written, sync, split_lines, drop_cr, max_line,
  import_lines, import_text,
}

abbrev pub is_break : ℕ → Bool
is_break c = c == 10 || c == 13

any_break-append :
    (a b : Str)
    → any_byte is_break a ≡ false
    → any_byte is_break b ≡ false
    → any_byte is_break (a ++ b) ≡ false
unfolding any_byte
any_break-append [] b h k = k
any_break-append (c ∷ a) b h k = ground (arith, h, any_break-append a b (ground (arith, h)) k)

escape-no_break : (v : Str) → any_byte is_break (escape v) ≡ false
unfolding escape any_byte escape_byte
escape-no_break [] = refl
escape-no_break (c ∷ v) = ground (arith, escape-no_break v)

bare-no_break : (v : Str) → any_byte is_special v ≡ false → any_byte is_break v ≡ false
unfolding any_byte is_special
bare-no_break [] h = refl
bare-no_break (c ∷ v) h = ground (arith, h, bare-no_break v (ground (arith, h)))

-- The text behind the `=` of an encoded line.
encode-parts : (k v : Str) → (w : Str) × (encode k v ≡ k ++ 61 ∷ w) × (any_byte is_break w ≡ false)
unfolding encode needs_quoting
encode-parts k v = elim (Bool-cases (needs_quoting v)) [
  | inr q ↦ (v, ground (arith, q), bare-no_break v (ground (arith, q)))
  | inl q ↦ (
    34 ∷ (escape v ++ 34 ∷ []),
    ground (arith, q),
    unfold any_byte in (any_break-append (34 ∷ escape v) (34 ∷ []) (escape-no_break v) refl),
  )
]

strip_last-no_break : (s : Str) → any_byte is_break s ≡ false → strip_last 13 s ≡ none
unfolding strip_last any_byte
strip_last-no_break [] h = refl
strip_last-no_break (c ∷ []) h = ground (arith, h)
strip_last-no_break (c ∷ d ∷ s) h =
    ground (arith, h, strip_last-no_break (d ∷ s) (ground (arith, h)))

split_lines-append :
    (l rest : Str)
    → any_byte is_break l ≡ false
    → split_lines (l ++ 10 ∷ rest) ≡ l ∷ split_lines rest
unfolding split_lines any_byte
split_lines-append [] rest h = refl
split_lines-append (c ∷ l) rest h = ground (arith, h, split_lines-append l rest (ground (arith, h)))

-- A line that the importer can read back: a name for a line, without a line break, and an encoded
-- length within the scanner's limit.
pub record IsReadable (l : Line) : Type 0 where
  pub name : IsName l.0
  pub no_break : any_byte is_break l.0 ≡ false
  pub short : length (encode l.0 l.1) ≤ max_line

encode-no_break : (l : Line) → IsReadable l → any_byte is_break (encode l.0 l.1) ≡ false
encode-no_break l i =
    let (w, e, f) = encode-parts l.0 l.1 in
    rw e (any_break-append l.0 (61 ∷ w) i.no_break (unfold any_byte in ground (arith, f)))

import-render : (lines : List Line) → All IsReadable lines → import_text (render lines) ≡ some lines
unfolding import_text import_lines render drop_cr split_lines
import-render [] h = refl
import-render (l ∷ lines) (i, h) =
    let clean = encode-no_break l i in
    let again : import_lines (split_lines (render lines)) ≡ some lines = import-render lines h in
    rw (split_lines-append (encode l.0 l.1) (render lines) clean) (
      ground (
        arith,
        again,
        i.short,
        strip_last-no_break (encode l.0 l.1) clean,
        decode-encode l.0 i.name l.1,
      ))

insert_line-All :
    (P : Line → Type 0) (l : Line) (lines : List Line)
    → P l
    → All P lines
    → All P (insert_line l lines)
unfolding insert_line
insert_line-All P l [] p h = (p, tt)
insert_line-All P l (m ∷ lines) p (q, h) = elim (Bool-cases (str_lt m.0 l.0)) [
  | inl e ↦ rw e (q, insert_line-All P l lines p h)
  | inr e ↦ rw e (p, (q, h))
]

sort_lines-All : (P : Line → Type 0) (lines : List Line) → All P lines → All P (sort_lines lines)
unfolding sort_lines
sort_lines-All P [] h = tt
sort_lines-All P (l ∷ lines) (p, h) =
    insert_line-All P l (sort_lines lines) p (sort_lines-All P lines h)

Among-insert_line :
    (x l : Line) (lines : List Line) → (l ≡ x) ⊎ Among x lines → Among x (insert_line l lines)
unfolding insert_line
Among-insert_line x l [] a = a
Among-insert_line x l (m ∷ lines) a = elim (Bool-cases (str_lt m.0 l.0)) [
  | inr e ↦ rw e a
  | inl e ↦ rw e (elim a [
    | inl b ↦ inr (Among-insert_line x l lines (inl b))
    | inr (inl b) ↦ inl b
    | inr (inr b) ↦ inr (Among-insert_line x l lines (inr b))
  ])
]

Among-sort_lines : (x : Line) (lines : List Line) → Among x lines → Among x (sort_lines lines)
unfolding sort_lines
Among-sort_lines x [] a = a
Among-sort_lines x (l ∷ lines) (inl e) = Among-insert_line x l (sort_lines lines) (inl e)
Among-sort_lines x (l ∷ lines) (inr a) =
    Among-insert_line x l (sort_lines lines) (inr (Among-sort_lines x lines a))

length-insert_line :
    (l : Line) (lines : List Line) → length (insert_line l lines) ≡ suc (length lines)
unfolding insert_line
length-insert_line l [] = refl
length-insert_line l (m ∷ lines) = ground (arith, length-insert_line l lines)

length-sort_lines : (lines : List Line) → length (sort_lines lines) ≡ length lines
unfolding sort_lines
length-sort_lines [] = refl
length-sort_lines (l ∷ lines) =
    length-insert_line l (sort_lines lines) ∙ ap suc (length-sort_lines lines)

-- Where the name of every secret is one that a line can carry, without a line break, and every line
-- is within the scanner's limit, the importer reads from the file that the dotenv target writes one
-- entry for each secret, and among them the name of every secret with exactly its value.
pub import-sync :
    (secrets : List Secret) (text : Str)
    → All IsReadable (map line_of secrets)
    → sync secrets ≡ written text
    → (found : List Line) × (import_text text ≡ some found)
      × (length found ≡ length (map line_of secrets))
      × ((s : Secret) → Among s secrets → Among (line_of s) found)
unfolding sync
import-sync secrets text h w =
    let r : render (sort_lines (map line_of secrets)) ≡ text = ground (arith, w) in
    (
      sort_lines (map line_of secrets),
      rw (← r) (import-render _ (sort_lines-All IsReadable (map line_of secrets) h)),
      length-sort_lines (map line_of secrets),
      λ s a. Among-sort_lines (line_of s) (map line_of secrets) (Among-map line_of s secrets a),
    )
