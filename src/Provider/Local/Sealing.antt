-- ===== src/Provider/Local/Sealing.antt =====
-- What internal/provider/local/local.go writes reads back, in each of the three forms.
use skret.Base.{
  ◌≡◌, refl, sym, ap, ◌∙◌, arith, Bool, true, false, not, ◌&&◌, ◌||◌, [], Option, none, some, Str,
  Map, is_empty, ◌⊎◌, inl, inr, Bool-cases, subst,
}
use skret.Provider.Local.{
  LocalFile, LocalProvider, LocalError, Codec, seal_failed, marshal_failed, or_fail, keyed, same,
  ensure_key, load, new, sealed, encoded,
}

abbrev pub no_file : LocalFile
no_file = record { version = []; secrets = []; meta = [] }

-- What the provider relies on: what was sealed or written opens again, and the first bytes tell
-- the three forms apart.
pub record IsCodec (codec : Codec) : Type 0 where
  pub opens :
      (s m : Map Str) (k raw : Str)
      → codec.seal_with_meta s m k ≡ some raw
      → codec.open_with_meta raw k ≡ some (s, m)
  pub detects :
      (s m : Map Str) (k raw : Str)
      → codec.seal_with_meta s m k ≡ some raw
      → codec.detect raw ≡ true
  pub opens_legacy :
      (s m : Map Str) (k raw : Str)
      → codec.seal_legacy_with_meta s m k ≡ some raw
      → codec.open_legacy_with_meta raw k ≡ some (s, m)
  pub detects_legacy :
      (s m : Map Str) (k raw : Str)
      → codec.seal_legacy_with_meta s m k ≡ some raw
      → (codec.detect raw ≡ false) × (codec.detect_legacy raw ≡ true)
  pub reads :
      (f : LocalFile) (raw : Str)
      → codec.marshal f ≡ some raw
      → let r = codec.unmarshal raw no_file in
        (r.1 ≡ true) × (r.0.secrets ≡ f.secrets) × (r.0.meta ≡ f.meta)
  pub is_plain :
      (f : LocalFile) (raw : Str)
      → codec.marshal f ≡ some raw
      → (codec.detect raw ≡ false) × (codec.detect_legacy raw ≡ false)

module _ (codec : Codec) where
  -- The key that the provider keeps is the one that is found again.
  abbrev pub IsKeyed : LocalProvider → Type 0
  IsKeyed p = is_empty p.key_material ≡ false → codec.resolve p.key_legacy ≡ some p.key_material

  -- A provider that is started on the file finds the secrets and their metadata.
  abbrev pub Reads : LocalFile → Option Str → Type 0
  Reads f file =
      (enc_cfg : Bool)
      → let r = new codec enc_cfg file in
        (r.1 ≡ none) × (r.0.contents.secrets ≡ f.secrets) × (r.0.contents.meta ≡ f.meta)

  abbrev pub Encodes : LocalFile → LocalProvider × (LocalError ⊎ Str) → Type 0
  Encodes f (q, inl e) = Unit
  Encodes f (q, inr raw) = Reads f (some raw)

  module _ (laws : IsCodec codec) where
    marshal-Reads : (f : LocalFile) (raw : Str) → codec.marshal f ≡ some raw → Reads f (some raw)
    unfolding new load
    marshal-Reads f raw h enc =
        let (a, b) = laws.is_plain f raw h in
        let (c, secrets, meta) = laws.reads f raw h in
        (rw (a, b, c) refl, rw (a, b, c) secrets, rw (a, b, c) meta)

    seal_with_meta-Reads :
        (f : LocalFile) (k raw : Str)
        → codec.resolve false ≡ some k
        → codec.seal_with_meta f.secrets f.meta k ≡ some raw
        → Reads f (some raw)
    unfolding new load ensure_key
    seal_with_meta-Reads f k raw q h enc =
        let a = laws.detects f.secrets f.meta k raw h in
        let b = laws.opens f.secrets f.meta k raw h in
        (rw (a, q, b) refl, rw (a, q, b) refl, rw (a, q, b) refl)

    seal_legacy_with_meta-Reads :
        (f : LocalFile) (k raw : Str)
        → codec.resolve true ≡ some k
        → codec.seal_legacy_with_meta f.secrets f.meta k ≡ some raw
        → Reads f (some raw)
    unfolding new load ensure_key
    seal_legacy_with_meta-Reads f k raw q h enc =
        let (a, b) = laws.detects_legacy f.secrets f.meta k raw h in
        let c = laws.opens_legacy f.secrets f.meta k raw h in
        (rw (a, b, q, c) refl, rw (a, b, q, c) refl, rw (a, b, q, c) refl)

    or_fail-Reads :
        (f : LocalFile) (q : LocalProvider) (e : LocalError) (o : Option Str)
        → ((raw : Str) → o ≡ some raw → Reads f (some raw))
        → Encodes f (q, or_fail e o)
    or_fail-Reads f q e none h = tt
    or_fail-Reads f q e (some raw) h = h raw refl

    abbrev Ensured : Bool → LocalProvider → LocalError ⊎ LocalProvider → Type 0
    Ensured legacy p (inl e) = Unit
    Ensured legacy p (inr q) =
        (codec.resolve legacy ≡ some q.key_material)
        × (q.contents ≡ p.contents)
        × (q.enc_legacy ≡ p.enc_legacy)

    keyed-Ensured :
        (legacy : Bool) (p : LocalProvider) (o : Option Str)
        → codec.resolve legacy ≡ o
        → Ensured legacy p (keyed codec legacy p o)
    keyed-Ensured legacy p none h = tt
    keyed-Ensured legacy p (some m) h = (h, refl, refl)

    same_lem : (a b : Bool) → same codec a b ≡ true → b ≡ a
    same_lem true b h = h
    same_lem false true h = absurd (ground (arith, h))
    same_lem false false h = refl

    ensure_key-Ensured :
        (legacy : Bool) (p : LocalProvider)
        → IsKeyed p
        → Ensured legacy p (ensure_key codec legacy p)
    unfolding ensure_key
    ensure_key-Ensured legacy p keyed_p =
        elim (Bool-cases (not (is_empty p.key_material) && same codec p.key_legacy legacy)) [
          | inl e ↦
              let given : is_empty p.key_material ≡ false = ground (arith, e) in
              let alike : legacy ≡ p.key_legacy =
                same_lem p.key_legacy legacy (ground (arith, e)) in
              rw e (ap codec.resolve alike ∙ keyed_p given, refl, refl)
          | inr e ↦ rw e (keyed-Ensured legacy p (codec.resolve legacy) refl)
        ]

    sealed-Encodes :
        (p : LocalProvider) (o : LocalError ⊎ LocalProvider)
        → Ensured p.enc_legacy p o
        → Encodes p.contents (sealed codec o p)
    sealed-Encodes p (inl e) h = tt
    sealed-Encodes p (inr q) (found, kept, legacy) = elim (Bool-cases q.enc_legacy) [
      | inl e ↦ rw e (
          subst
            (λ f. Encodes f (
              q,
              or_fail seal_failed
                  (codec.seal_legacy_with_meta q.contents.secrets q.contents.meta q.key_material),
            ))
            kept
            (or_fail-Reads q.contents q seal_failed
              (codec.seal_legacy_with_meta q.contents.secrets q.contents.meta q.key_material)
              (λ raw h.
                seal_legacy_with_meta-Reads q.contents q.key_material raw
                  (ap codec.resolve (sym e ∙ legacy) ∙ found) h)))
      | inr e ↦ rw e (
          subst
            (λ f. Encodes f (
              q,
              or_fail seal_failed
                  (codec.seal_with_meta q.contents.secrets q.contents.meta q.key_material),
            ))
            kept
            (or_fail-Reads q.contents q seal_failed
              (codec.seal_with_meta q.contents.secrets q.contents.meta q.key_material)
              (λ raw h.
                seal_with_meta-Reads q.contents q.key_material raw
                  (ap codec.resolve (sym e ∙ legacy) ∙ found) h)))
    ]

    pub encoded-Encodes : (p : LocalProvider) → IsKeyed p → Encodes p.contents (encoded codec p)
    unfolding encoded
    encoded-Encodes p h = elim (Bool-cases (p.enc_cfg || p.enc_disk)) [
      | inl e ↦
          rw e (
            sealed-Encodes p (ensure_key codec p.enc_legacy p)
              (ensure_key-Ensured p.enc_legacy p h))
      | inr e ↦ rw e (
          or_fail-Reads p.contents p marshal_failed (codec.marshal p.contents)
            (marshal-Reads p.contents))
    ]
