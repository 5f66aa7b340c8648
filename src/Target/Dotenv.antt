-- ===== src/Target/Dotenv.antt =====
-- internal/syncer/dotenv.go and internal/importer/dotenv.go: a .env file as a target and as a
-- source. `sort.Slice` leaves the order of equal names open; the sort here keeps it. The file is
-- its text; opening, writing and renaming it are left out.
use skret.Base.{
  ℕ, false, List, [], ◌∷◌, ◌++◌, map, Option, none, some, Str, ◌==◌, ltb, if◌then◌else◌, length,
  str_lt,
}
use skret.Provider.{Secret}
use skret.Collision.{Clash, first_clash}
use skret.Dotenv.{encode, decode, strip_last}
use skret.Target.{secret_name}

-- A line of the file: a name and a value.
abbrev pub Line : Type 0
Line = Str × Str

abbrev pub name_of : Secret → Str
name_of s = secret_name s.key

abbrev pub line_of : Secret → Line
line_of s = (name_of s, s.value)

unfoldable pub insert_line : Line → List Line → List Line
unfolding str_lt
insert_line l [] = l ∷ []
insert_line l (m ∷ lines) =
    let rest = m ∷ insert_line l lines in if str_lt m.0 l.0 then rest else l ∷ m ∷ lines

-- `sort.Slice` by the names
unfoldable pub sort_lines : List Line → List Line
unfolding insert_line
sort_lines [] = []
sort_lines (l ∷ lines) = insert_line l (sort_lines lines)

-- The loop over `fmt.Fprintln`.
unfoldable pub render : List Line → Str
unfolding encode
render [] = []
render (l ∷ lines) = encode l.0 l.1 ++ (10 ∷ render lines)

pub data Synced : Type 0 where
  written : Str → Synced
  refused : Clash → Synced

-- `Sync` of the dotenv target
unfoldable pub sync : List Secret → Synced
unfolding first_clash secret_name sort_lines render
sync secrets = elim (first_clash (λ s. false) name_of (λ s. s.key) [] secrets) [
  | some c ↦ refused c
  | none ↦ written (render (sort_lines (map line_of secrets)))
]

abbrev pub put_front : ℕ → List Str → List Str
put_front c [] = (c ∷ []) ∷ []
put_front c (l ∷ ls) = (c ∷ l) ∷ ls

-- The lines of a text, as `bufio.ScanLines` cuts them before it drops a carriage return.
unfoldable pub split_lines : Str → List Str
split_lines [] = []
split_lines (c ∷ s) = let rest = split_lines s in if c == 10 then [] ∷ rest else put_front c rest

-- A line without the carriage return at its end.
unfoldable pub drop_cr : Str → Str
unfolding strip_last
drop_cr l = elim (strip_last 13 l) [ some r ↦ r | none ↦ l ]

-- `bufio.MaxScanTokenSize` less the byte of the newline: a longer line ends the scan in an error.
abbrev pub max_line : ℕ
max_line = 65535

-- The loop of `Import`; `none` is the error of the scanner.
unfoldable pub import_lines : List Str → Option (List Line)
unfolding decode drop_cr
import_lines [] = some []
import_lines (l ∷ ls) =
    let rest = import_lines ls in
    let taken : Option (List Line) = elim rest [
      | none ↦ none
      | some found ↦ elim (decode (drop_cr l)) [ none ↦ some found | some p ↦ some (p ∷ found) ]
    ] in
    if ltb max_line (length l) then none else taken

-- `Import` of the text of a file
unfoldable pub import_text : Str → Option (List Line)
unfolding split_lines import_lines
import_text s = import_lines (split_lines s)
