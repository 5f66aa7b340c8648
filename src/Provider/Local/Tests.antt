-- ===== src/Provider/Local/Tests.antt =====
-- Runs of the local provider, and the theorem at a concrete provider, over files of one secret.
use skret.Base.{
  ◌≡◌, refl, Bool, true, false, Option, none, some, Str, Map, codes, [], ◌∷◌, ℕ, ◌⊎◌, subst, ap,
  arith, remove, str_eq, ◌==◌,
}
use skret.Provider.Local.{
  LocalFile, Disk, LocalProvider, Codec, set, delete, get, put, rename_failed,
}
use skret.Provider.Local.Sealing.{IsCodec, no_file}
use skret.Provider.Local.Durable.{Changed, Refused, mutations_atomic}

-- One secret whose key has one byte, behind a byte that tells the form
abbrev one : ℕ → Map Str → Map Str → Option Str
one form (((c ∷ []), value) ∷ []) [] = some (form ∷ c ∷ value)
one form _ _ = none

abbrev back : Str → Option (Map Str × Map Str)
back (form ∷ c ∷ value) = some (((c ∷ [], value) ∷ []), [])
back _ = none

abbrev starts : ℕ → Str → Bool
starts form (c ∷ _) = c == form
starts form [] = false

abbrev to_file : Option (Map Str × Map Str) → LocalFile × Bool
to_file none = (no_file, false)
to_file (some (secrets, meta)) =
    (record { version = codes "1"; secrets = secrets; meta = meta }, true)

abbrev single : Codec
single = record {
  detect = starts b's';
  detect_legacy = starts b'l';
  open_with_meta = λ raw k. back raw;
  open_legacy_with_meta = λ raw k. back raw;
  seal_with_meta = λ secrets meta k. one b's' secrets meta;
  seal_legacy_with_meta = λ secrets meta k. one b'l' secrets meta;
  unmarshal = λ raw f. to_file (back raw);
  marshal = λ f. one b'p' f.secrets f.meta;
  resolve = λ legacy. some (codes "key");
}

abbrev Returned : ℕ → Map Str → Map Str → Option Str → Type 0
Returned form s m none = Unit
Returned form s m (some []) = true ≡ false
Returned form s m (some (c ∷ raw)) = (c ≡ form) × (back (c ∷ raw) ≡ some (s, m))

one-Returned : (form : ℕ) (s m : Map Str) → Returned form s m (one form s m)
one-Returned form [] m = tt
one-Returned form (([], v) ∷ r) m = tt
one-Returned form ((c ∷ d ∷ k, v) ∷ r) m = tt
one-Returned form ((c ∷ [], v) ∷ e ∷ r) m = tt
one-Returned form ((c ∷ [], v) ∷ []) (e ∷ m) = tt
one-Returned form ((c ∷ [], v) ∷ []) [] = (refl, refl)

came_back :
    (form : ℕ) (s m : Map Str) (raw : Str)
    → one form s m ≡ some raw
    → (back raw ≡ some (s, m)) × ((r : Str) × (raw ≡ form ∷ r))
came_back form s m [] h =
    absurd (ground (arith, subst (Returned form s m) h (one-Returned form s m)))
came_back form s m (c ∷ raw) h =
    let (e, b) = subst (Returned form s m) h (one-Returned form s m) in
    (b, (raw, ap (λ z. z ∷ raw) e))

form_of :
    (test form : ℕ) (s m : Map Str) (raw : Str)
    → one form s m ≡ some raw
    → starts test raw ≡ (form == test)
form_of test form s m raw h = let (b, (r, e)) = came_back form s m raw h in ap (starts test) e

single-IsCodec : IsCodec single
single-IsCodec = record {
  opens = λ s m k raw h. (came_back b's' s m raw h).0;
  detects = λ s m k raw h. form_of b's' b's' s m raw h;
  opens_legacy = λ s m k raw h. (came_back b'l' s m raw h).0;
  detects_legacy = λ s m k raw h. (form_of b's' b'l' s m raw h, form_of b'l' b'l' s m raw h);
  reads = λ f raw h. rw (came_back b'p' f.secrets f.meta raw h).0 (refl, refl, refl);
  is_plain = λ f raw h.
      (form_of b's' b'p' f.secrets f.meta raw h, form_of b'l' b'p' f.secrets f.meta raw h);
}

abbrev empty_disk : Disk
empty_disk = record { file = none; trail = [] }

-- A provider whose file is to be sealed, with its key at hand
abbrev fresh : LocalProvider
fresh = record {
  contents = no_file;
  enc_cfg = true;
  enc_disk = false;
  enc_legacy = false;
  key_material = codes "key";
  key_legacy = false;
}

sealed_file :
    (set single none none (codes "set") (codes "A") (codes "v") none fresh empty_disk).1.file
    ≡ some (codes "sAv")
unfolding set
sealed_file = refl

-- A Set that fails on the disk has changed the value that Get returns.
kept_in_memory :
    let r =
      set single
        (some rename_failed)
        none
        (codes "set")
        (codes "A")
        (codes "v")
        none
        fresh
        empty_disk in
    (get single (codes "A") r.0 ≡ some (codes "v", none))
    × (r.1.file ≡ none)
    × (r.2 ≡ some rename_failed)
unfolding set get str_eq
kept_in_memory = (refl, refl, refl)

-- The expiry of a key that was deleted is that of the key when it is set again.
expiry_returns :
    let first =
      set single none none
        (codes "set")
        (codes "A")
        (codes "v")
        (some (codes "2026"))
        (record fresh { enc_cfg = false })
        empty_disk in
    let second = delete single none none (codes "A") first.0 empty_disk in
    let third =
      set single none none (codes "set") (codes "A") (codes "w") none second.0 empty_disk in
    get single (codes "A") third.0 ≡ some (codes "w", some (codes "2026"))
unfolding set get delete str_eq
expiry_returns = refl

mutations_atomic_example :
    let s = set single none none (codes "rotate") (codes "A") (codes "v") none fresh empty_disk in
    let t = delete single none none (codes "A") fresh empty_disk in
    let removed = record no_file { secrets = remove (codes "A") [] } in
    (Changed single
        (put single (codes "A") (codes "v") none no_file)
        (codes "rotate")
        (codes "A")
        empty_disk
        s
      ⊎ Refused single empty_disk s)
    × (Changed single removed (codes "delete") (codes "A") empty_disk t
        ⊎ Refused single empty_disk t)
mutations_atomic_example =
    mutations_atomic single single-IsCodec none none (codes "rotate") (codes "A") (codes "v") none
      fresh empty_disk (λ given. refl)
