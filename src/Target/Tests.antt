-- ===== src/Target/Tests.antt =====
-- The names and the .env file of a target at concrete secrets.
use skret.Base.{
  ◌≡◌, refl, arith, Bool, true, List, [], ◌∷◌, ◌++◌, map, none, some, Str, codes, length, Among,
  str_eq, lookup, insert, any_byte, trim_space, trim_left, has_prefix, upper_byte, str_lt,
}
use skret.Provider.{Secret}
use skret.Collision.{first_clash}
use skret.Collision.Agree.{IsUnambiguous}
use skret.Dotenv.{is_special, needs_quoting, escape, escape_byte, encode}
use skret.Target.{
  after_slash, secret_name, existing, filtered, filter_absent, keep_absent, is_present, is_listed,
  is_keyed, check_mapping, validate_mapping,
}
use skret.Target.Mapping.{never, mapped_name, key_of, validate_mapping-IsUnambiguous}
use skret.Target.Dotenv.{Line, line_of, insert_line, sort_lines, render, written, sync, import_text}
use skret.Target.DotenvFile.{IsReadable, import-sync}

abbrev password : Secret
password = record { key = codes "/app/PASSWORD"; value = codes "p#" ++ 10 ∷ codes "q" }

abbrev host : Secret
host = record { key = codes "/app/db/HOST"; value = codes "h" }

abbrev secrets : List Secret
secrets = password ∷ host ∷ []

abbrev upper : Str → Str
upper = map upper_byte

-- All that these runs call.
executes : Bool
unfolding filter_absent keep_absent is_present is_listed secret_name after_slash str_eq is_keyed
    check_mapping validate_mapping lookup insert sync first_clash sort_lines insert_line str_lt
    render encode needs_quoting is_special escape escape_byte any_byte trim_space trim_left
    has_prefix
executes = true

filter-host :
    filter_absent upper (existing (codes "host" ∷ [])) secrets ≡ filtered (password ∷ []) 1
unfolding executes
filter-host = refl

github_keyed : is_keyed (codes "github") ≡ true
unfolding executes
github_keyed = refl

mapping-accepted : validate_mapping (codes "github") (some password ∷ some host ∷ []) ≡ none
unfolding executes
mapping-accepted = refl

validate_mapping-IsUnambiguous_example :
    (ss : List Secret) × (some password ∷ some host ∷ [] ≡ map some ss)
    × IsUnambiguous never mapped_name key_of ss
validate_mapping-IsUnambiguous_example =
    validate_mapping-IsUnambiguous (codes "github") (some password ∷ some host ∷ []) github_keyed
      mapping-accepted

abbrev file : Str
file =
    codes "HOST=h" ++ 10 ∷ codes "PASSWORD=" ++ 34 ∷ codes "p#" ++ 92 ∷ codes "nq" ++ 34 ∷ 10 ∷ []

sync-file : sync secrets ≡ written file
unfolding executes
sync-file = refl

password-IsReadable : IsReadable (line_of password)
unfolding executes
password-IsReadable = record {
  name = record {
    trimmed = refl;
    ne_nil = refl;
    indent = refl;
    no_comment = refl;
    no_export = refl;
    no_equals = refl;
  };
  no_break = refl;
  short = omega arith;
}

host-IsReadable : IsReadable (line_of host)
unfolding executes
host-IsReadable = record {
  name = record {
    trimmed = refl;
    ne_nil = refl;
    indent = refl;
    no_comment = refl;
    no_export = refl;
    no_equals = refl;
  };
  no_break = refl;
  short = omega arith;
}

import-sync_example :
    (found : List Line) × (import_text file ≡ some found)
    × (length found ≡ length (map line_of secrets))
    × ((s : Secret) → Among s secrets → Among (line_of s) found)
import-sync_example =
    import-sync secrets file (password-IsReadable, (host-IsReadable, tt)) sync-file
