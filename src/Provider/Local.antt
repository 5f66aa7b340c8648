-- ===== src/Provider/Local.antt =====
-- internal/provider/local/local.go: the provider over one file of secrets, plain or sealed.
-- A nil map is an empty one. The YAML library, the envelopes of internal/keystore, the search for
-- a key and the layout of a time are parameters; so are the answers of the operating system to a
-- write. The mutex is left out: each operation holds it from its start to its end.
pub mod Sealing
pub mod Durable
mod Tests
use skret.Base.{
  ℕ, zero, suc, Bool, true, false, not, ◌&&◌, ◌||◌, List, [], ◌∷◌, ◌++◌, Option, none, some, Str,
  Map, codes, ◌==◌, if◌then◌else◌, is_empty, lookup, insert, remove, sort_strings, map, ◌⊎◌, inl,
  inr,
}

-- `localFile`
pub record LocalFile : Type 0 where
  pub version : Str
  pub secrets : Map Str
  pub meta : Map Str

-- What stands on the disk: the secrets file and the audit trail, as operations and names
pub record Disk : Type 0 where
  pub file : Option Str
  pub trail : List (Str × Str)

-- `Provider`, without its paths
pub record LocalProvider : Type 0 where
  pub contents : LocalFile
  pub enc_cfg : Bool
  pub enc_disk : Bool
  pub enc_legacy : Bool
  pub key_material : Str
  pub key_legacy : Bool

pub data LocalError : Type 0 where
  not_found : Str → LocalError
  key_unresolved open_failed seal_failed decode_failed marshal_failed : LocalError
  create_failed write_failed chmod_failed close_failed rename_failed audit_failed : LocalError

-- The functions of other packages that the provider calls
pub record Codec : Type 0 where
  pub detect : Str → Bool
  pub detect_legacy : Str → Bool
  pub open_with_meta : Str → Str → Option (Map Str × Map Str)
  pub open_legacy_with_meta : Str → Str → Option (Map Str × Map Str)
  pub seal_with_meta : Map Str → Map Str → Str → Option Str
  pub seal_legacy_with_meta : Map Str → Map Str → Str → Option Str
  pub unmarshal : Str → LocalFile → LocalFile × Bool
  pub marshal : LocalFile → Option Str
  pub resolve : Bool → Option Str

abbrev pub opened : Option (Map Str × Map Str) → LocalError ⊎ LocalFile
opened none = inl open_failed
opened (some (secrets, meta)) = inr (record { version = codes "1"; secrets = secrets; meta = meta })

-- `yaml.Unmarshal` leaves what it has decoded, also where it fails.
abbrev pub decoded : LocalProvider → LocalFile × Bool → LocalProvider × Option LocalError
decoded p (f, true) = (record p { contents = f }, none)
decoded p (f, false) = (record p { contents = f }, some decode_failed)

abbrev pub with_data : LocalProvider → LocalError ⊎ LocalFile → LocalProvider × Option LocalError
with_data p (inl e) = (p, some e)
with_data p (inr f) = (record p { contents = f }, none)

abbrev pub or_fail : {A : Type 0} → LocalError → Option A → LocalError ⊎ A
or_fail e none = inl e
or_fail e (some a) = inr a

module _ (codec : Codec) where
  abbrev pub keyed : Bool → LocalProvider → Option Str → LocalError ⊎ LocalProvider
  keyed legacy p none = inl key_unresolved
  keyed legacy p (some m) = inr (record p { key_material = m; key_legacy = legacy })

  abbrev pub same : Bool → Bool → Bool
  same true b = b
  same false b = not b

  -- `ensureKey`
  unfoldable pub ensure_key : Bool → LocalProvider → LocalError ⊎ LocalProvider
  ensure_key legacy p =
      if not (is_empty p.key_material) && same p.key_legacy legacy
      then inr p
      else keyed legacy p (codec.resolve legacy)

  -- The two branches of `load` for an envelope, once the key is there
  abbrev pub load_sealed :
      Bool → Str → LocalProvider → LocalError ⊎ LocalProvider → LocalProvider × Option LocalError
  load_sealed legacy raw p (inl e) = (p, some e)
  load_sealed legacy raw p (inr q) = with_data q (
      opened (
        if legacy
        then codec.open_legacy_with_meta raw q.key_material
        else codec.open_with_meta raw q.key_material))

  -- `load`, given what `os.ReadFile` finds
  unfoldable pub load : LocalProvider → Option Str → LocalProvider × Option LocalError
  unfolding ensure_key
  load p none =
      (record p { contents = record { version = codes "1"; secrets = []; meta = [] } }, none)
  load p (some raw) =
      if codec.detect raw
      then (let q = record p { enc_disk = true; enc_legacy = false } in
          load_sealed false raw q (ensure_key false q))
      else if codec.detect_legacy raw
      then (let q = record p { enc_disk = true; enc_legacy = true } in
          load_sealed true raw q (ensure_key true q))
      else decoded (record p { enc_disk = false; enc_legacy = false })
          (codec.unmarshal raw p.contents)

  abbrev pub started : Bool → LocalProvider
  started enc_cfg = record {
    contents = record { version = []; secrets = []; meta = [] };
    enc_cfg = enc_cfg;
    enc_disk = false;
    enc_legacy = false;
    key_material = [];
    key_legacy = false;
  }

  -- `New`
  unfoldable pub new : Bool → Option Str → LocalProvider × Option LocalError
  unfolding load
  new enc_cfg file = load (started enc_cfg) file

  -- The content that `save` writes
  abbrev pub sealed :
      LocalError ⊎ LocalProvider → LocalProvider → LocalProvider × (LocalError ⊎ Str)
  sealed (inl e) p = (p, inl e)
  sealed (inr q) p = (
    q,
    or_fail seal_failed (
        if q.enc_legacy
        then codec.seal_legacy_with_meta q.contents.secrets q.contents.meta q.key_material
        else codec.seal_with_meta q.contents.secrets q.contents.meta q.key_material),
  )

  unfoldable pub encoded : LocalProvider → LocalProvider × (LocalError ⊎ Str)
  unfolding ensure_key
  encoded p =
      if p.enc_cfg || p.enc_disk
      then sealed (ensure_key p.enc_legacy p) p
      else (p, or_fail marshal_failed (codec.marshal p.contents))

  -- The temporary file and the renaming: the secrets file changes in the last step only.
  abbrev pub written :
      Option LocalError
      → LocalProvider × (LocalError ⊎ Str)
      → Disk
      → LocalProvider × Disk × Option LocalError
  written answer (p, inl e) d = (p, d, some e)
  written (some e) (p, inr raw) d = (p, d, some e)
  written none (p, inr raw) d = (p, record d { file = some raw }, none)

  -- `save`; `answer` is the error of the first step on the file system that fails.
  unfoldable pub save :
      Option LocalError → LocalProvider → Disk → LocalProvider × Disk × Option LocalError
  unfolding encoded
  save answer p d = written answer (encoded p) d

  -- `appendAudit` behind a `save`
  abbrev pub audited :
      Option LocalError
      → Str
      → Str
      → LocalProvider × Disk × Option LocalError
      → LocalProvider × Disk × Option LocalError
  audited answer op key (p, d, some e) = (p, d, some e)
  audited (some e) op key (p, d, none) = (p, d, some e)
  audited none op key (p, d, none) = (p, record d { trail = d.trail ++ (op, key) ∷ [] }, none)

  -- `Set` on the data in memory; no expiry is a time that is zero.
  unfoldable pub put : Str → Str → Option Str → LocalFile → LocalFile
  unfolding insert
  put key value none f = record f { secrets = insert key value f.secrets }
  put key value (some expiry) f = record f {
    secrets = insert key value f.secrets;
    meta = insert key expiry f.meta;
  }

  -- `Set`, with the operation that the context names and the formatted expiry
  unfoldable pub set :
      Option LocalError
      → Option LocalError
      → Str
      → Str
      → Str
      → Option Str
      → LocalProvider
      → Disk
      → LocalProvider × Disk × Option LocalError
  unfolding put save
  set write audit op key value expiry p d =
      audited audit op key (save write (record p { contents = put key value expiry p.contents }) d)

  abbrev pub is_present : Option Str → Bool
  is_present none = false
  is_present (some _) = true

  -- `Delete`
  unfoldable pub delete :
      Option LocalError
      → Option LocalError
      → Str
      → LocalProvider
      → Disk
      → LocalProvider × Disk × Option LocalError
  unfolding lookup remove save
  delete write audit key p d =
      if is_present (lookup key p.contents.secrets)
      then audited audit (codes "delete") key (
          save write
            (record p { contents = record p.contents { secrets = remove key p.contents.secrets } })
            d)
      else (p, d, some (not_found key))

  -- `Get`: the value and the expiry as it is stored
  unfoldable pub get : Str → LocalProvider → Option (Str × Option Str)
  unfolding lookup
  get key p = elim (lookup key p.contents.secrets) [
    | none ↦ none
    | some value ↦ some (value, lookup key p.contents.meta)
  ]

  -- `ListNames`
  unfoldable pub list_names : LocalProvider → List Str
  unfolding sort_strings
  list_names p = sort_strings (map (λ (e : Str × Str). e.0) p.contents.secrets)
