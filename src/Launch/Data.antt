-- ===== src/Launch/Data.antt =====
-- The data of a launch manifest, internal/secretlaunch/manifest.go.
use skret.Base.{ℕ, Bool, List, Str, Map, ℤ}

-- `ManifestKey`
pub record ManifestKey : Type 0 where
  pub name : Str
  pub version : Str
  pub env : Str

abbrev pub key_name : ManifestKey → Str
key_name k = k.name

abbrev pub key_env : ManifestKey → Str
key_env k = k.env

-- `ChildSpec`
pub record ChildSpec : Type 0 where
  pub argv : List Str
  pub user : Str
  pub environment : Map Str

-- `HealthSpec`; every field is a `uint32`.
pub record HealthSpec : Type 0 where
  pub command : List Str
  pub interval_ms : ℕ
  pub timeout_ms : ℕ
  pub retries : ℕ
  pub heartbeat_interval_ms : ℕ
  pub heartbeat_timeout_ms : ℕ

-- `ServiceAuthority`
pub record ServiceAuthority : Type 0 where
  pub name : Str
  pub image : Str
  pub user : Str
  pub argv : List Str
  pub environment : Map Str
  pub labels : Map Str
  pub networks : List Str
  pub restart : Str
  pub open_stdin : Bool
  pub health : HealthSpec
  pub dependencies : List Str
  pub keys : List ManifestKey
  pub wrapper_digest : Str
  pub child : ChildSpec

-- `ArtifactDigests`
pub record ArtifactDigests : Type 0 where
  pub helper : Str
  pub supervisor : Str
  pub compose : Str

-- `Manifest`; the times are Unix seconds (`int64`).
pub record Manifest : Type 0 where
  pub version : Str
  pub runtime_id : Str
  pub role : Str
  pub generation : ℕ
  pub issued_at : ℤ
  pub expires_at : ℤ
  pub nonce : Str
  pub services : List ServiceAuthority
  pub digests : ArtifactDigests
