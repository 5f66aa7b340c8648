-- ===== src/Target/Absent.antt =====
-- What `FilterAbsent` (internal/syncer/syncer.go) keeps.
use skret.Base.{
  ℕ, ◌+◌, ◌-◌, ◌≤◌, ◌≡◌, arith, false, List, [], ◌∷◌, Str, length, inl, inr, ◌↔◌, Bool-cases, Among,
}
use skret.Provider.{Secret}
use skret.Target.{existing, filtered, is_present, keep_absent, filter_absent}

module _ (to_upper : Str → Str) (names : List Str) where
  length-keep_absent :
      (secrets : List Secret) → length (keep_absent to_upper names secrets) ≤ length secrets
  unfolding keep_absent
  length-keep_absent [] = omega arith
  length-keep_absent (s ∷ secrets) = ground (arith, length-keep_absent secrets)

  keep_absent-Among :
      (s : Secret) (secrets : List Secret)
      → Among s (keep_absent to_upper names secrets)
      → Among s secrets × (is_present to_upper names s ≡ false)
  unfolding keep_absent
  keep_absent-Among s [] a = absurd (ground (arith, a))
  keep_absent-Among s (t ∷ secrets) a = elim (Bool-cases (is_present to_upper names t)) [
    | inl q ↦
        let a' : Among s (keep_absent to_upper names secrets) = rw q at a in
        let (b, c) = keep_absent-Among s secrets a' in (inr b, c)
    | inr q ↦
        let a' : Among s (t ∷ keep_absent to_upper names secrets) = rw q at a in
        elim a' [
          | inl e ↦ (inl e, ground (arith, q, e))
          | inr b ↦ let (c, d) = keep_absent-Among s secrets b in (inr c, d)
        ]
  ]

  Among-keep_absent :
      (s : Secret) (secrets : List Secret)
      → Among s secrets
      → is_present to_upper names s ≡ false
      → Among s (keep_absent to_upper names secrets)
  unfolding keep_absent
  Among-keep_absent s [] a q = a
  Among-keep_absent s (t ∷ secrets) (inl e) q =
      let q' : is_present to_upper names t ≡ false = ground (arith, q, e) in rw q' (inl e)
  Among-keep_absent s (t ∷ secrets) (inr a) q = elim (Bool-cases (is_present to_upper names t)) [
    | inl p ↦ rw p (Among-keep_absent s secrets a q)
    | inr p ↦ rw p (inr (Among-keep_absent s secrets a q))
  ]

  -- Where the target lists its names, `FilterAbsent` keeps exactly the secrets whose name is none of
  -- them, upper and lower case aside, and counts the others.
  pub filter_absent-exact :
      (secrets kept : List Secret) (skipped : ℕ)
      → filter_absent to_upper (existing names) secrets ≡ filtered kept skipped
      → ((s : Secret) → Among s kept ↔ (Among s secrets × (is_present to_upper names s ≡ false)))
        × (length kept + skipped ≡ length secrets)
  unfolding filter_absent
  filter_absent-exact secrets kept skipped h =
      let e : keep_absent to_upper names secrets ≡ kept = ground (arith, h) in
      let n : length secrets - length (keep_absent to_upper names secrets) ≡ skipped =
        ground (arith, h) in
      rw (← e) (
        (λ s. (keep_absent-Among s secrets, λ p. Among-keep_absent s secrets p.0 p.1)),
        omega (arith, n, length-keep_absent secrets),
      )
