-- ===== src/Differ/Drift.antt =====
-- What it means that `Diff` (internal/differ/differ.go) reports no drift.
use skret.Base.{
  insert_string, sort_strings, ◌≡◌, ◌≢◌, refl, sym, ◌∙◌, arith, Bool, true, false, ◌&&◌, List, [],
  ◌∷◌, none, some, Str, Map, lookup, lookup-Among, str_eq_iff, inl, inr, Bool-cases, Option-cases,
  Among,
}
use skret.Differ.{
  Snapshot, snapshot, Source, Result, compared, is_nil, has_drift, compare_values, scan_a, scan_b,
  sorted, empty_result, diff_snapshots, diff,
}

insert_string-nil : (k : Str) (ks : List Str) → is_nil (insert_string k ks) ≡ false
unfolding insert_string
insert_string-nil k [] = refl
insert_string-nil k (j ∷ ks) = ground arith

sort_strings-nil : (ks : List Str) → is_nil (sort_strings ks) ≡ is_nil ks
unfolding sort_strings
sort_strings-nil [] = refl
sort_strings-nil (k ∷ ks) = insert_string-nil k (sort_strings ks)

module _ (hash8 : Str → Str) (want_hashes : Bool) where
  sorted-has_drift : (r : Result) → has_drift (sorted hash8 want_hashes r) ≡ has_drift r
  unfolding has_drift sorted
  sorted-has_drift r =
      ground
        (arith, sort_strings-nil r.only_a, sort_strings-nil r.only_b, sort_strings-nil r.changed)

  -- Drift that is found stays.
  scan_b-keeps :
      (sa : Snapshot) (entries : Map Str) (r : Result)
      → has_drift r ≡ true
      → has_drift (scan_b hash8 want_hashes sa entries r) ≡ true
  unfolding scan_b
  scan_b-keeps sa [] r h = h
  scan_b-keeps sa ((k, v) ∷ entries) r h = elim (Option-cases (lookup k sa.secrets)) [
    | inl q ↦ rw q (
        scan_b-keeps sa entries (record r { only_b = k ∷ r.only_b })
          (unfold has_drift in ground (arith, h)))
    | inr (w, q) ↦ rw q (scan_b-keeps sa entries r h)
  ]

  compare_values-keeps :
      (sa sb : Snapshot) (k va vb : Str) (r : Result)
      → has_drift r ≡ true
      → has_drift (compare_values hash8 want_hashes sa sb k va vb r) ≡ true
  unfolding compare_values has_drift
  compare_values-keeps sa sb k va vb r h = ground (arith, h)

  scan_a-keeps :
      (sa sb : Snapshot) (entries : Map Str) (r : Result)
      → has_drift r ≡ true
      → has_drift (scan_a hash8 want_hashes sa sb entries r) ≡ true
  unfolding scan_a
  scan_a-keeps sa sb [] r h = h
  scan_a-keeps sa sb ((k, v) ∷ entries) r h = elim (Option-cases (lookup k sb.secrets)) [
    | inl q ↦ rw q (
        scan_a-keeps sa sb entries (record r { only_a = k ∷ r.only_a })
          (unfold has_drift in ground (arith, h)))
    | inr (w, q) ↦ rw q (
        scan_a-keeps sa sb entries (compare_values hash8 want_hashes sa sb k v w r)
          (compare_values-keeps sa sb k v w r h))
  ]

  -- Both sides hold the key, with one value where both can be read.
  abbrev IsSame : Snapshot → Snapshot → Str → Str → Type 0
  IsSame sa sb k v =
      (w : Str) × (lookup k sb.secrets ≡ some w)
      × ((sa.can_read_values && sb.can_read_values) ≡ true → v ≡ w)

  not_kept :
      (r s : Result)
      → (has_drift r ≡ true → has_drift s ≡ true)
      → has_drift s ≡ false
      → has_drift r ≡ false
  not_kept r s keeps h = elim (Bool-cases (has_drift r)) [
    | inl q ↦ absurd (ground (arith, h, keeps q))
    | inr q ↦ q
  ]

  scan_a-IsSame :
      (sa sb : Snapshot) (entries : Map Str) (r : Result)
      → has_drift (scan_a hash8 want_hashes sa sb entries r) ≡ false
      → (k v : Str) → Among (k, v) entries
      → IsSame sa sb k v
  unfolding scan_a
  scan_a-IsSame sa sb [] r h k v a = absurd (ground (arith, a))
  scan_a-IsSame sa sb ((j, u) ∷ entries) r h k v a = elim (Option-cases (lookup j sb.secrets)) [
    | inl q ↦
        let h' : has_drift
              (scan_a hash8 want_hashes sa sb entries (record r { only_a = j ∷ r.only_a }))
            ≡ false =
          rw q at h in
        let d = not_kept _ _ (scan_a-keeps sa sb entries (record r { only_a = j ∷ r.only_a })) h' in
        absurd (unfold has_drift in ground (arith, d))
    | inr (w, q) ↦
        let h' : has_drift (
              scan_a hash8 want_hashes sa sb entries
                (compare_values hash8 want_hashes sa sb j u w r))
            ≡ false =
          rw q at h in
        let d =
          not_kept _ _ (scan_a-keeps sa sb entries (compare_values hash8 want_hashes sa sb j u w r))
            h' in
        elim a [
          | inr b ↦
              scan_a-IsSame sa sb entries (compare_values hash8 want_hashes sa sb j u w r) h' k v b
          | inl e ↦ (
            w,
            ground (arith, q, e),
            λ c.
                unfold has_drift in
                unfold compare_values in ground (arith, d, e, c, str_eq_iff u w),
          )
        ]
  ]

  scan_b-found :
      (sa : Snapshot) (entries : Map Str) (r : Result)
      → has_drift (scan_b hash8 want_hashes sa entries r) ≡ false
      → (k v : Str) → Among (k, v) entries
      → lookup k sa.secrets ≢ none
  unfolding scan_b
  scan_b-found sa [] r h k v a n = absurd (ground (arith, a))
  scan_b-found sa ((j, u) ∷ entries) r h k v a n = elim (Option-cases (lookup j sa.secrets)) [
    | inl q ↦
        let h' : has_drift
              (scan_b hash8 want_hashes sa entries (record r { only_b = j ∷ r.only_b }))
            ≡ false =
          rw q at h in
        let d = not_kept _ _ (scan_b-keeps sa entries (record r { only_b = j ∷ r.only_b })) h' in
        absurd (unfold has_drift in ground (arith, d))
    | inr (w, q) ↦ elim a [
      | inl e ↦ absurd (ground (arith, n, q, e))
      | inr b ↦
          let h' : has_drift (scan_b hash8 want_hashes sa entries r) ≡ false = rw q at h in
          scan_b-found sa entries r h' k v b n
    ]
  ]

  -- Where `Diff` of two sides whose values can be read reports no drift, the two sides hold the same
  -- keys with the same values.
  pub diff-no_drift :
      (a b : Source) (sa sb : Snapshot) (r : Result)
      → a.read ≡ snapshot sa
      → b.read ≡ snapshot sb
      → (sa.can_read_values && sb.can_read_values) ≡ true
      → diff hash8 want_hashes a b ≡ compared r
      → has_drift r ≡ false
      → (k : Str) → lookup k sa.secrets ≡ lookup k sb.secrets
  unfolding diff diff_snapshots
  diff-no_drift a b sa sb r ra rb readable h none_found k =
      let first = scan_a hash8 want_hashes sa sb sa.secrets (empty_result hash8 want_hashes a b) in
      let both = scan_b hash8 want_hashes sa sb.secrets first in
      let e : sorted hash8 want_hashes both ≡ r = ground (arith, h, ra, rb) in
      let calm : has_drift both ≡ false = sym (sorted-has_drift both) ∙ rw e none_found in
      let calm_a : has_drift first ≡ false = not_kept _ _ (scan_b-keeps sa sb.secrets first) calm in
      elim (Option-cases (lookup k sa.secrets)) [
        | inr (v, q) ↦
            let (w, p, eq) =
              scan_a-IsSame sa sb sa.secrets (empty_result hash8 want_hashes a b) calm_a k v
                (lookup-Among k v sa.secrets q) in
            ground (arith, q, p, eq readable)
        | inl q ↦ elim (Option-cases (lookup k sb.secrets)) [
          | inl p ↦ ground (arith, q, p)
          | inr (w, p) ↦
              absurd (scan_b-found sa sb.secrets first calm k w (lookup-Among k w sb.secrets p) q)
        ]
      ]
