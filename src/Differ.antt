-- ===== src/Differ.antt =====
-- internal/differ/differ.go: the comparison of two sets of secrets. A source is its label and what
-- its `Read` returns; the hash of a value is the parameter `hash8`.
pub mod Drift
mod Tests
use skret.Base.{
  ℕ, suc, Bool, true, false, not, ◌&&◌, ◌||◌, List, [], ◌∷◌, Option, none, some, Str, Map, codes,
  lookup, insert, str_eq, str_lt, sort_strings, if◌then◌else◌,
}

-- `Snapshot`
pub record Snapshot : Type 0 where
  pub secrets : Map Str
  pub can_read_values : Bool

pub data ReadResult : Type 0 where
  read_error : Str → ReadResult
  snapshot : Snapshot → ReadResult

pub record Source : Type 0 where
  pub label : Str
  pub read : ReadResult

-- `Result`; a nil map of hashes is an empty one.
pub record Result : Type 0 where
  pub a : Str
  pub b : Str
  pub only_a : List Str
  pub only_b : List Str
  pub changed : List Str
  pub unknown : List Str
  pub same_count : ℕ
  pub hashes : Map (Str × Str)

pub data Compared : Type 0 where
  failed : Str → Compared
  compared : Result → Compared

abbrev pub is_nil : List Str → Bool
is_nil [] = true
is_nil (_ ∷ _) = false

-- `HasDrift`
unfoldable pub has_drift : Result → Bool
has_drift r = not (is_nil r.only_a) || not (is_nil r.only_b) || not (is_nil r.changed)

module _ (hash8 : Str → Str) (want_hashes : Bool) where
  -- `hashSide`
  abbrev pub hash_side : Bool → Str → Str
  hash_side readable v = if not readable then codes "?" else hash8 v

  abbrev pub with_hashes : Result → Str → Str × Str → Result
  with_hashes r k h = if want_hashes then record r { hashes = insert k h r.hashes } else r

  -- The body of the loop over the first side, for a key of both.
  unfoldable pub compare_values : Snapshot → Snapshot → Str → Str → Str → Result → Result
  unfolding str_eq insert
  compare_values sa sb k va vb r =
      if not (sa.can_read_values && sb.can_read_values)
      then with_hashes (record r { unknown = k ∷ r.unknown }) k
          (hash_side sa.can_read_values va, hash_side sb.can_read_values vb)
      else if not (str_eq va vb)
      then with_hashes (record r { changed = k ∷ r.changed }) k (hash8 va, hash8 vb)
      else record r { same_count = suc r.same_count }

  -- The loop over the first side.
  unfoldable pub scan_a : Snapshot → Snapshot → Map Str → Result → Result
  unfolding compare_values lookup
  scan_a sa sb [] r = r
  scan_a sa sb ((k, va) ∷ entries) r = scan_a sa sb entries (elim (lookup k sb.secrets) [
    | none ↦ record r { only_a = k ∷ r.only_a }
    | some vb ↦ compare_values sa sb k va vb r
  ])

  -- The loop over the second side.
  unfoldable pub scan_b : Snapshot → Map Str → Result → Result
  unfolding lookup
  scan_b sa [] r = r
  scan_b sa ((k, vb) ∷ entries) r =
      scan_b sa entries
        (elim (lookup k sa.secrets) [ none ↦ record r { only_b = k ∷ r.only_b } | some va ↦ r ])

  unfoldable pub sorted : Result → Result
  unfolding sort_strings
  sorted r = record r {
    only_a = sort_strings r.only_a;
    only_b = sort_strings r.only_b;
    changed = sort_strings r.changed;
    unknown = sort_strings r.unknown;
  }

  abbrev pub empty_result : Source → Source → Result
  empty_result a b = record {
    a = a.label;
    b = b.label;
    only_a = [];
    only_b = [];
    changed = [];
    unknown = [];
    same_count = 0;
    hashes = [];
  }

  unfoldable pub diff_snapshots : Source → Source → Snapshot → Snapshot → Result
  unfolding scan_a scan_b sorted
  diff_snapshots a b sa sb =
      sorted (scan_b sa sb.secrets (scan_a sa sb sa.secrets (empty_result a b)))

  -- `Diff`
  unfoldable pub diff : Source → Source → Compared
  unfolding diff_snapshots
  diff a b = elim a.read [
    | read_error e ↦ failed e
    | snapshot sa ↦ elim b.read [
      | read_error e ↦ failed e
      | snapshot sb ↦ compared (diff_snapshots a b sa sb)
    ]
  ]
