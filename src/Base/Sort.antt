-- ===== src/Base/Sort.antt =====
-- `sort.Strings`.
use mathlib.Core.Path.{◌≡◌}
use mathlib.Core.Logic.{◌⊎◌, ◌↔◌}
use mathlib.Core.List.{List, [], ◌∷◌}
use native.Mathlib.Omega.{arith}
use skret.Base.Tests.{if◌then◌else◌}
use skret.Base.Lists.{Among}
use skret.Base.Text.{Str, str_lt}

unfoldable pub insert_string : Str → List Str → List Str
unfolding str_lt
insert_string k [] = k ∷ []
insert_string k (j ∷ ks) =
    let rest = j ∷ insert_string k ks in if str_lt j k then rest else k ∷ j ∷ ks

-- `sort.Strings`
unfoldable pub sort_strings : List Str → List Str
unfolding insert_string
sort_strings [] = []
sort_strings (k ∷ ks) = insert_string k (sort_strings ks)

Among-insert_string :
    (x k : Str) (ks : List Str) → Among x (insert_string k ks) ↔ ((k ≡ x) ⊎ Among x ks)
unfolding insert_string
Among-insert_string x k [] = (λ h. h, λ h. h)
Among-insert_string x k (j ∷ ks) = ground (arith, Among-insert_string x k ks)

pub Among-sort_strings : (x : Str) (ks : List Str) → Among x (sort_strings ks) ↔ Among x ks
unfolding sort_strings
Among-sort_strings x [] = (λ h. h, λ h. h)
Among-sort_strings x (k ∷ ks) =
    ground (arith, Among-insert_string x k (sort_strings ks), Among-sort_strings x ks)
