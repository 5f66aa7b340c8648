-- ===== src/Provider/Local/Durable.antt =====
-- What a change of internal/provider/local/local.go leaves on the disk.
use skret.Base.{
  ◌≡◌, refl, ap, arith, [], ◌∷◌, ◌++◌, Option, none, some, Str, codes, lookup, remove, ◌⊎◌, inl,
  inr, Bool-cases,
}
use skret.Provider.Local.{
  LocalFile, Disk, LocalProvider, LocalError, Codec, not_found, encoded, written, save, audited,
  put, set, delete, is_present,
}
use skret.Provider.Local.Sealing.{IsCodec, IsKeyed, Reads, Encodes, encoded-Encodes}

module _ (codec : Codec) where
  abbrev pub Changed :
      LocalFile → Str → Str → Disk → LocalProvider × Disk × Option LocalError → Type 0
  Changed f op key d (q, d', e) =
      Reads codec f d'.file
      × (((e ≡ none) × (d'.trail ≡ d.trail ++ (op, key) ∷ []))
          ⊎ ((x : LocalError) × (e ≡ some x) × (d'.trail ≡ d.trail)))

  abbrev pub Refused : Disk → LocalProvider × Disk × Option LocalError → Type 0
  Refused d (q, d', e) = (d' ≡ d) × ((x : LocalError) × (e ≡ some x))

  module _ (laws : IsCodec codec) where
    abbrev Saved : LocalFile → Disk → LocalProvider × Disk × Option LocalError → Type 0
    Saved f d (q, d', e) =
        ((e ≡ none) × Reads codec f d'.file × (d'.trail ≡ d.trail)) ⊎ Refused d (q, d', e)

    written-Saved :
        (answer : Option LocalError) (f : LocalFile) (x : LocalProvider × (LocalError ⊎ Str))
        (d : Disk)
        → Encodes codec f x
        → Saved f d (written codec answer x d)
    written-Saved answer f (q, inl e) d h = inr (refl, (e, refl))
    written-Saved (some e) f (q, inr raw) d h = inr (refl, (e, refl))
    written-Saved none f (q, inr raw) d h = inl (refl, h, refl)

    audited-Changed :
        (answer : Option LocalError) (f : LocalFile) (op key : Str) (d : Disk)
        (r : LocalProvider × Disk × Option LocalError)
        → Saved f d r
        → let r' = audited codec answer op key r in Changed f op key d r' ⊎ Refused d r'
    audited-Changed answer f op key d (q, d', some e) (inl (no_error, reads, trail)) =
        absurd (ground (arith, no_error))
    audited-Changed answer f op key d (q, d', some e) (inr h) = inr h
    audited-Changed (some e) f op key d (q, d', none) (inl (no_error, reads, trail)) =
        inl (reads, inr (e, refl, trail))
    audited-Changed none f op key d (q, d', none) (inl (no_error, reads, trail)) =
        inl (reads, inl (refl, ap (λ t. t ++ (op, key) ∷ []) trail))
    audited-Changed answer f op key d (q, d', none) (inr (kept, (x, error))) =
        absurd (ground (arith, error))

    save-Saved :
        (answer : Option LocalError) (p : LocalProvider) (d : Disk)
        → IsKeyed codec p
        → Saved p.contents d (save codec answer p d)
    unfolding save
    save-Saved answer p d h =
        written-Saved answer p.contents (encoded codec p) d (encoded-Encodes codec laws p h)

    set_atomic :
        (write audit : Option LocalError) (op key value : Str) (expiry : Option Str)
        (p : LocalProvider) (d : Disk)
        → IsKeyed codec p
        → let s = set codec write audit op key value expiry p d in
          Changed (put codec key value expiry p.contents) op key d s ⊎ Refused d s
    unfolding set
    set_atomic write audit op key value expiry p d h =
        let f = put codec key value expiry p.contents in
        let q = record p { contents = f } in
        audited-Changed audit f op key d (save codec write q d) (save-Saved write q d h)

    delete_atomic :
        (write audit : Option LocalError) (key : Str) (p : LocalProvider) (d : Disk)
        → IsKeyed codec p
        → let t = delete codec write audit key p d in
          let removed = record p.contents { secrets = remove key p.contents.secrets } in
          Changed removed (codes "delete") key d t ⊎ Refused d t
    unfolding delete
    delete_atomic write audit key p d h =
        elim (Bool-cases (is_present codec (lookup key p.contents.secrets))) [
          | inl e ↦
              let f = record p.contents { secrets = remove key p.contents.secrets } in
              let q = record p { contents = f } in
              rw e (
                audited-Changed audit f (codes "delete") key d (save codec write q d)
                  (save-Saved write q d h))
          | inr e ↦ rw e (inr (refl, (not_found key, refl)))
        ]

    -- Where what was sealed or written opens again and the key that the provider keeps is
    -- the one that is found again, Set and Delete are atomic on the disk, whatever the file
    -- system answers: either they return an error and leave the file and the trail alone,
    -- or the file reads back as the changed contents, with an entry in the trail, or an
    -- error where that entry could not be written.
    pub mutations_atomic :
        (write audit : Option LocalError) (op key value : Str) (expiry : Option Str)
        (p : LocalProvider) (d : Disk)
        → IsKeyed codec p
        → let s = set codec write audit op key value expiry p d in
          let t = delete codec write audit key p d in
          let removed = record p.contents { secrets = remove key p.contents.secrets } in
          (Changed (put codec key value expiry p.contents) op key d s ⊎ Refused d s)
          × (Changed removed (codes "delete") key d t ⊎ Refused d t)
    mutations_atomic write audit op key value expiry p d h =
        (set_atomic write audit op key value expiry p d h, delete_atomic write audit key p d h)
