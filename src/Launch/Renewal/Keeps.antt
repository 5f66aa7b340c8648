-- ===== src/Launch/Renewal/Keeps.antt =====
-- A renewal keeps the launch authority: what the reloads of a supervisor may change.
use skret.Base.{
  ◌≡◌, refl, sym, ap, subst, ◌∙◌, lt→ltb, arith, true, false, List, [], ◌∷◌, none, Str, ◌⊎◌, inl,
  inr, ◌↔◌, str_eq_iff, Option-cases, Among, ℤ, pos, negsuc,
}
use skret.Launch.Data.{Manifest}
use skret.Launch.Fields.{fail, err_binding, err_replay}
use skret.Launch.Authority.{validate, ltz}
use skret.Launch.Ascending.{first_error-All, error_if-none}
use skret.Launch.Accepted.{IsWindow, validate-IsManifest}
use skret.Launch.Trust.{Crypto}
use skret.Launch.Signed.{Reply, returned, failed}
use skret.Launch.Verified.{IsLive, validate_at-IsLive, unless-returned, if_failed-returned}
use skret.Launch.Renewal.{
  Time, authority_digest, ttl_refused, with_window, renew_manifest, error_of, differ,
  renewal_checks, accept_renewal, refresh_manifest, refresh_all,
}

ltz_irrefl : (a : ℤ) → ltz a a ≡ false
ltz_irrefl (pos a) = ground arith
ltz_irrefl (negsuc a) = ground arith

not_ltz_trans : (a b c : ℤ) → ltz b a ≡ false → ltz c b ≡ false → ltz c a ≡ false
not_ltz_trans (pos a) (pos b) (pos c) h k = ground (arith, h, k)
not_ltz_trans (pos a) (pos b) (negsuc c) h k = cc
not_ltz_trans (pos a) (negsuc b) c h k = cc
not_ltz_trans (negsuc a) b (pos c) h k = refl
not_ltz_trans (negsuc a) (pos b) (negsuc c) h k = cc
not_ltz_trans (negsuc a) (negsuc b) (negsuc c) h k = ground (arith, h, k)

-- The same launch authority, and no earlier end.
pub record IsRenewal (crypto : Crypto) (old new : Manifest) : Type 0 where
  pub authority : authority_digest crypto new ≡ authority_digest crypto old
  pub lasting : ltz new.expires_at old.expires_at ≡ false

differ-same :
    (a b : Reply Str) → error_of a ≡ none → error_of b ≡ none → (differ a b ≡ false) ↔ (a ≡ b)
differ-same (returned a) (returned b) _ _ = ground (arith, str_eq_iff a b)
differ-same (returned a) (failed e) _ h = cc
differ-same (failed e) b h _ = cc

module _ (crypto : Crypto) where
  digest-valid :
      (m : Manifest) → (error_of (authority_digest crypto m) ≡ none) ↔ (validate m ≡ none)
  unfolding authority_digest
  digest-valid m = elim (Option-cases (validate m)) [
    | inl q ↦ (λ _. q, λ _. rw (q, authority_digest) refl)
    | inr (e, q) ↦ (λ h. absurd (ground (arith, q, h)), λ h. absurd (ground (arith, q, h)))
  ]

  accept_renewal_iff :
      (old new : Manifest) (now : ℤ)
      → (accept_renewal crypto old new now ≡ none) ↔ (
          ((validate new ≡ none) × IsLive new now)
          × ((validate old ≡ none) × IsRenewal crypto old new))
  unfolding accept_renewal
  accept_renewal_iff old new now = ground (
    arith,
    first_error-All (renewal_checks crypto old new now),
    validate_at-IsLive new now,
    digest-valid old,
    digest-valid new,
    error_if-none (differ (authority_digest crypto new) (authority_digest crypto old))
        (fail err_binding),
    error_if-none (ltz new.expires_at old.expires_at) (fail err_replay),
    differ-same (authority_digest crypto new) (authority_digest crypto old),
  )

  -- A manifest that was handed in at a time at which it was valid and live.
  abbrev pub WasLive : Manifest → List (Reply Manifest × ℤ) → Type 0
  WasLive m replies =
      (now : ℤ) × Among (returned m, now) replies × (validate m ≡ none) × IsLive m now

  IsRenewal-refl : (m : Manifest) → IsRenewal crypto m m
  IsRenewal-refl m = record { authority = refl; lasting = ltz_irrefl m.expires_at }

  IsRenewal-trans :
      (a b m : Manifest) → IsRenewal crypto a b → IsRenewal crypto b m → IsRenewal crypto a m
  IsRenewal-trans a b m p q = record {
    authority = q.authority ∙ p.authority;
    lasting = not_ltz_trans a.expires_at b.expires_at m.expires_at p.lasting q.lasting;
  }

  -- One reload keeps the manifest, or adopts a candidate that is live and a renewal.
  refresh_manifest-cases :
      (current : Manifest) (reply : Reply Manifest) (now : ℤ)
      → (refresh_manifest crypto current reply now ≡ current)
        ⊎ ((new : Manifest) × (reply ≡ returned new)
            × (refresh_manifest crypto current reply now ≡ new)
            × (validate new ≡ none)
            × IsLive new now
            × IsRenewal crypto current new)
  unfolding refresh_manifest
  refresh_manifest-cases current (failed e) now = inl refl
  refresh_manifest-cases current (returned new) now =
      elim (Option-cases (accept_renewal crypto current new now)) [
        | inl q ↦
            let (live, (_, renewal)) = (accept_renewal_iff current new now).0 q in
            inr (new, refl, rw (q, refresh_manifest) refl, live.0, live.1, renewal)
        | inr (e, q) ↦ inl (rw (q, refresh_manifest) refl)
      ]

  -- What the reloads lead to: a renewal of the first manifest that is the current one or was live.
  abbrev pub IsOutcome : Manifest → Manifest → List (Reply Manifest × ℤ) → Manifest → Type 0
  IsOutcome start current replies r = IsRenewal crypto start r × ((r ≡ current) ⊎ WasLive r replies)

  IsOutcome-later :
      (start current r : Manifest) (x : Reply Manifest × ℤ) (later : List (Reply Manifest × ℤ))
      → IsOutcome start current later r
      → IsOutcome start current (x ∷ later) r
  IsOutcome-later start current r x later (h, inl e) = (h, inl e)
  IsOutcome-later start current r x later (h, inr (now, among, valid, live)) =
      (h, inr (now, inr among, valid, live))

  IsOutcome-adopted :
      (start current new r : Manifest) (now : ℤ) (later : List (Reply Manifest × ℤ))
      → validate new ≡ none
      → IsLive new now
      → IsOutcome start new later r
      → IsOutcome start current ((returned new, now) ∷ later) r
  IsOutcome-adopted start current new r now later valid live (h, inl e) =
      (h, inr (now, inl (ap (λ m. (returned m, now)) (sym e)), rw e valid, rw e live))
  IsOutcome-adopted start current new r now later valid live (h, inr (t, among, v, l)) =
      (h, inr (t, inr among, v, l))

  refresh_all-step :
      (start current : Manifest) (replies : List (Reply Manifest × ℤ))
      → IsRenewal crypto start current
      → IsOutcome start current replies (refresh_all crypto current replies)
  unfolding refresh_all
  refresh_all-step start current [] h = (h, inl refl)
  refresh_all-step start current ((reply, now) ∷ later) h =
      let goal = λ (reply' : Reply Manifest) (m : Manifest).
        IsOutcome start current ((reply', now) ∷ later) (refresh_all crypto m later) in
      elim (refresh_manifest-cases current reply now) [
        | inl kept ↦ subst (goal reply) (sym kept) (
            IsOutcome-later start current (refresh_all crypto current later) (reply, now) later
              (refresh_all-step start current later h))
        | inr (new, e, adopted, valid, live, renewal) ↦ subst (goal reply) (sym adopted) (
            subst (λ r. goal r new) (sym e)
              (IsOutcome-adopted start current new (refresh_all crypto new later) now later valid
                live
                (refresh_all-step start new later (IsRenewal-trans start current new h renewal))))
      ]

-- Whatever the reloads of a supervisor return, and at whatever times, the manifest in force has the
-- authority digest of the first and ends no earlier, and it is the first or one that was valid and
-- live when it was handed in.
pub refresh_all-IsRenewal :
    (crypto : Crypto) (m : Manifest) (replies : List (Reply Manifest × ℤ))
    → IsRenewal crypto m (refresh_all crypto m replies)
      × ((refresh_all crypto m replies ≡ m) ⊎ WasLive crypto (refresh_all crypto m replies) replies)
refresh_all-IsRenewal crypto m replies =
    refresh_all-step crypto m m replies (IsRenewal-refl crypto m)

IsWindow-rises : (i e : ℤ) → IsWindow i e → ltz i e ≡ true
IsWindow-rises i e w = rw (w.issued_eq, w.expires_eq) (lt→ltb _ _ w.rising.1)

-- What RenewManifest returns is accepted as a renewal of its base at the time of the renewal, where
-- it does not end before the base; it differs from the base in the window alone.
pub accept-renew :
    (crypto : Crypto) (base m : Manifest) (now : Time) (ttl : ℤ)
    → renew_manifest base now ttl ≡ returned m
    → ltz m.expires_at base.expires_at ≡ false
    → (accept_renewal crypto base m now.seconds ≡ none) × (m ≡ with_window base now ttl)
unfolding renew_manifest authority_digest
accept-renew crypto base m now ttl h lasting =
    let (valid, h1) = unless-returned (validate base) _ m h in
    let (_, h2) = if_failed-returned (ttl_refused ttl) _ _ m h1 in
    let (fresh, h3) = unless-returned (validate (with_window base now ttl)) _ m h2 in
    let w = with_window base now ttl in
    let same : w ≡ m = ground (arith, h3) in
    let live : IsLive w now.seconds = (
      ltz_irrefl now.seconds,
      IsWindow-rises now.seconds w.expires_at ((validate-IsManifest w).0 fresh).window,
    ) in
    (
      subst (λ n. accept_renewal crypto base n now.seconds ≡ none) same
          ((accept_renewal_iff crypto base w now.seconds).1 (
            (fresh, live),
            (
              valid,
              record {
                authority = rw (fresh, valid, authority_digest) refl;
                lasting = subst (λ n. ltz n.expires_at base.expires_at ≡ false) (sym same) lasting;
              },
            ),
          )),
      sym same,
    )
