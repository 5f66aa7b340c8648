-- ===== src/Config/Recovered.antt =====
-- What `ResolvePath` of internal/config/pathresolve.go brings back of a path that a shell rewrote.
use skret.Config.{drive_letter}
use skret.Config.Paths.{
  segment_byte, is_segment, last_slash, trailing, plain_byte, slashed, recovered, resolve_path,
}
use skret.Base.{
  ℕ, zero, suc, ◌+◌, ◌≤◌, ◌≡◌, refl, sym, ap, ◌∙◌, arith, true, false, List, [], ◌∷◌, ◌++◌, none,
  some, Str, codes, ◌==◌, leb, is_empty, has_prefix, trim_left, all_bytes, length, map, All,
  append_assoc, append-nil, length-append,
}

-- The path of the segments, the last one first.
abbrev pub path_of : List Str → Str
path_of [] = []
path_of (s ∷ ss) = path_of ss ++ b'/' ∷ s

-- A name of a folder that the loop stops at: no segment, and no separator in it.
abbrev pub IsFolder : Str → Type 0
IsFolder s = (is_segment s ≡ false) × (all_bytes plain_byte s ≡ true)

last_slash-none : (s : Str) → all_bytes plain_byte s ≡ true → last_slash s ≡ none
unfolding last_slash all_bytes
last_slash-none [] h = refl
last_slash-none (c ∷ s) h = ground (arith, h, last_slash-none s)

all_bytes_segment : (s : Str) → all_bytes segment_byte s ≡ true → all_bytes plain_byte s ≡ true
unfolding all_bytes
all_bytes_segment [] h = refl
all_bytes_segment (c ∷ s) h = ground (arith, h, all_bytes_segment s)

segment_plain : (s : Str) → is_segment s ≡ true → all_bytes plain_byte s ≡ true
unfolding is_segment all_bytes
segment_plain [] h = refl
segment_plain (c ∷ s) h = ground (arith, h, all_bytes_segment s)

last_slash-append :
    (a s : Str) → all_bytes plain_byte s ≡ true → last_slash (a ++ b'/' ∷ s) ≡ some (a, s)
unfolding last_slash
last_slash-append [] s h = rw (last_slash-none s h) refl
last_slash-append (c ∷ a) s h = rw (last_slash-append a s h) refl

map_plain : (s : Str) → all_bytes plain_byte s ≡ true → map slashed s ≡ s
unfolding all_bytes
map_plain [] h = refl
map_plain (c ∷ s) h = ground (arith, h, map_plain s)

map_append_lem : (s t : Str) → map slashed (s ++ t) ≡ map slashed s ++ map slashed t
map_append_lem [] t = refl
map_append_lem (c ∷ s) t = rw (map_append_lem s t) refl

map-path_of :
    (ss : List Str) → All (λ s. is_segment s ≡ true) ss → map slashed (path_of ss) ≡ path_of ss
map-path_of [] h = refl
map-path_of (s ∷ ss) h =
    map_append_lem (path_of ss) (b'/' ∷ s)
    ∙ rw (map-path_of ss h.1, map_plain s (segment_plain s h.0)) refl

long_enough : (ss : List Str) → length ss ≤ length (path_of ss)
long_enough [] = omega arith
long_enough (s ∷ ss) = omega (arith, long_enough ss, length-append (path_of ss) (b'/' ∷ s))

not_empty : (a s : Str) → is_empty (a ++ b'/' ∷ s) ≡ false
not_empty [] s = refl
not_empty (c ∷ a) s = refl

-- The loop stops at a folder.
trailing_stop :
    (fuel : ℕ) (outer folder rest : Str) (n : ℕ)
    → IsFolder folder
    → trailing fuel (outer ++ b'/' ∷ folder) rest n ≡ (n, rest)
unfolding trailing
trailing_stop zero outer folder rest n h = refl
trailing_stop (suc fuel) outer folder rest n h =
    rw (not_empty outer folder, last_slash-append outer folder h.1, h.0) refl

trailing_round :
    (fuel : ℕ) (base s rest : Str) (n : ℕ)
    → is_segment s ≡ true
    → trailing (suc fuel) (base ++ b'/' ∷ s) rest n ≡ trailing fuel base (b'/' ∷ s ++ rest) (suc n)
unfolding trailing
trailing_round fuel base s rest n h =
    rw (not_empty base s, last_slash-append base s (segment_plain s h), h) refl

trailing-path_of :
    (fuel : ℕ) (base : Str) (ss : List Str) (rest : Str) (n : ℕ) (outer folder : Str)
    → base ≡ outer ++ b'/' ∷ folder
    → IsFolder folder
    → All (λ s. is_segment s ≡ true) ss
    → length ss ≤ fuel
    → trailing fuel (base ++ path_of ss) rest n ≡ (length ss + n, path_of ss ++ rest)
trailing-path_of fuel base [] rest n outer folder e h hs l =
    ap (λ z. trailing fuel z rest n) (append-nil base ∙ e)
    ∙ trailing_stop fuel outer folder rest n h
    ∙ ap (λ z. (z, rest)) (omega arith)
trailing-path_of zero base (s ∷ ss) rest n outer folder e h hs l = absurd (omega (arith, l))
trailing-path_of (suc fuel) base (s ∷ ss) rest n outer folder e h hs l =
    ap (λ z. trailing (suc fuel) z rest n) (sym (append_assoc base (path_of ss) (b'/' ∷ s)))
    ∙ trailing_round fuel (base ++ path_of ss) s rest n hs.0
    ∙ trailing-path_of fuel base ss (b'/' ∷ s ++ rest) (suc n) outer folder e h hs.1
        (omega (arith, l))
    ∙ ap (λ z. (z, path_of ss ++ (b'/' ∷ s ++ rest))) (omega arith)
    ∙ ap (λ z. (suc (length ss) + n, z)) (sym (append_assoc (path_of ss) (b'/' ∷ s) rest))

-- A path of segments keeps the one slash that it begins with.
rooted :
    (s : Str) (ss : List Str) (x : Str)
    → All (λ s. is_segment s ≡ true) (s ∷ ss)
    → b'/' ∷ trim_left (λ c. c == b'/') (path_of (s ∷ ss) ++ x) ≡ path_of (s ∷ ss) ++ x
unfolding trim_left is_segment
rooted [] [] x h = absurd (ground (arith, h.0))
rooted (c ∷ s) [] x h = ground (arith, h.0)
rooted s (t ∷ ss) x h =
    ap (λ z. b'/' ∷ trim_left (λ c. c == b'/') z) (append_assoc (path_of (t ∷ ss)) (b'/' ∷ s) x)
    ∙ rooted t ss (b'/' ∷ s ++ x) h.1
    ∙ sym (append_assoc (path_of (t ∷ ss)) (b'/' ∷ s) x)

normal_lem :
    (outer folder : Str) (ss : List Str)
    → IsFolder folder
    → All (λ s. is_segment s ≡ true) ss
    → map slashed ((outer ++ b'/' ∷ folder) ++ path_of ss)
      ≡ (map slashed outer ++ b'/' ∷ folder) ++ path_of ss
normal_lem outer folder ss h hs =
    map_append_lem (outer ++ b'/' ∷ folder) (path_of ss)
    ∙ rw (map_append_lem outer (b'/' ∷ folder), map_plain folder h.1, map-path_of ss hs) refl

two_found :
    (raw : Str) (ss : List Str)
    → 2 ≤ length ss
    → recovered raw (length ss + 0, path_of ss ++ [])
      ≡ (b'/' ∷ trim_left (λ c. c == b'/') (path_of ss ++ []), true)
unfolding recovered
two_found raw ss h = let two : leb 2 (length ss + 0) ≡ true = ground (arith, h) in rw two refl

recovered_path :
    (raw base : Str) (ss : List Str) (outer folder : Str)
    → base ≡ outer ++ b'/' ∷ folder
    → IsFolder folder
    → All (λ s. is_segment s ≡ true) ss
    → 2 ≤ length ss
    → recovered raw (trailing (length (base ++ path_of ss)) (base ++ path_of ss) [] 0)
      ≡ (path_of ss, true)
recovered_path raw base [] outer folder e h hs two = absurd (omega (arith, two))
recovered_path raw base (s ∷ ss) outer folder e h hs two =
    let found =
      trailing-path_of (length (base ++ path_of (s ∷ ss))) base (s ∷ ss) [] 0 outer folder e h hs
        (omega (arith, long_enough (s ∷ ss), length-append base (path_of (s ∷ ss)))) in
    ap (recovered raw) found
    ∙ two_found raw (s ∷ ss) two
    ∙ ap (λ z. (z, true)) (rooted s ss [] hs ∙ append-nil (path_of (s ∷ ss)))

entered :
    (raw : Str)
    → is_empty raw ≡ false
    → has_prefix raw (codes "/") ≡ false
    → drive_letter raw ≡ true
    → resolve_path raw
      ≡ (let norm = map slashed raw in recovered raw (trailing (length norm) norm [] 0))
unfolding resolve_path
entered raw e p d = rw (e, p, d) refl

-- A path of two segments or more that a shell has put behind a folder below a drive letter
-- comes back from ResolvePath as it was, and is reported as mangled, where the name of the
-- folder has no separator and is no segment itself.
pub resolve_path-path_of :
    (outer folder : Str) (segments : List Str)
    → drive_letter outer ≡ true
    → has_prefix outer (codes "/") ≡ false
    → IsFolder folder
    → All (λ s. is_segment s ≡ true) segments
    → 2 ≤ length segments
    → resolve_path ((outer ++ b'/' ∷ folder) ++ path_of segments) ≡ (path_of segments, true)
unfolding has_prefix
resolve_path-path_of [] folder ss d p h hs two = absurd (ground (arith, d))
resolve_path-path_of (c ∷ []) folder ss d p h hs two = absurd (ground (arith, d))
resolve_path-path_of (c ∷ d ∷ outer) folder ss drive p h hs two =
    let raw = (c ∷ d ∷ outer ++ b'/' ∷ folder) ++ path_of ss in
    let base = map slashed (c ∷ d ∷ outer) ++ b'/' ∷ folder in
    entered raw refl p drive
    ∙ ap (λ z. recovered raw (trailing (length z) z [] 0))
        (normal_lem (c ∷ d ∷ outer) folder ss h hs)
    ∙ recovered_path raw base ss (map slashed (c ∷ d ∷ outer)) folder refl h hs two
