-- ===== src/Differ/Tests.antt =====
-- Comparisons of internal/differ/differ.go at concrete sides.
use skret.Base.{
  insert_string, sort_strings, ◌≡◌, refl, Bool, true, false, [], ◌∷◌, Str, codes, lookup, insert,
  str_eq, str_lt,
}
use skret.Differ.{
  Snapshot, snapshot, Source, Result, compared, has_drift, compare_values, scan_a, scan_b, sorted,
  diff_snapshots, diff,
}
use skret.Differ.Drift.{diff-no_drift}

-- A hash that shows nothing.
abbrev blank : Str → Str
blank v = codes "00000000"

abbrev left : Snapshot
left = record {
  secrets = (codes "B", codes "2") ∷ (codes "A", codes "1") ∷ [];
  can_read_values = true;
}

abbrev right : Snapshot
right = record {
  secrets = (codes "A", codes "1") ∷ (codes "B", codes "2") ∷ [];
  can_read_values = true;
}

abbrev changed_right : Snapshot
changed_right = record {
  secrets = (codes "B", codes "3") ∷ (codes "C", codes "1") ∷ [];
  can_read_values = true;
}

abbrev source : Str → Snapshot → Source
source label s = record { label = label; read = snapshot s }

-- All that a comparison calls.
executes : Bool
unfolding diff diff_snapshots scan_a scan_b compare_values sorted sort_strings insert_string
    has_drift lookup insert str_eq str_lt
executes = true

abbrev same_result : Result
same_result = record {
  a = codes "l";
  b = codes "r";
  only_a = [];
  only_b = [];
  changed = [];
  unknown = [];
  same_count = 2;
  hashes = [];
}

diff-same :
    diff blank true (source (codes "l") left) (source (codes "r") right) ≡ compared same_result
unfolding executes
diff-same = refl

diff-changed :
    diff blank false (source (codes "l") left) (source (codes "r") changed_right)
    ≡ compared (record {
      a = codes "l";
      b = codes "r";
      only_a = codes "A" ∷ [];
      only_b = codes "C" ∷ [];
      changed = codes "B" ∷ [];
      unknown = [];
      same_count = 0;
      hashes = [];
    })
unfolding executes
diff-changed = refl

same-no_drift : has_drift same_result ≡ false
unfolding executes
same-no_drift = refl

diff-no_drift_example : lookup (codes "A") left.secrets ≡ lookup (codes "A") right.secrets
diff-no_drift_example =
    diff-no_drift blank true (source (codes "l") left) (source (codes "r") right) left right
      same_result refl refl refl diff-same same-no_drift (codes "A")
