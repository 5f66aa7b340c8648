-- ===== src/Launch/Samples.antt =====
-- A manifest of two services, for the tests.
use skret.Base.{ℕ, zero, suc, true, false, [], ◌∷◌, ◌++◌, some, Str, Map, codes, pos, str_eq, Bool}
use skret.Launch.Data.{ChildSpec, HealthSpec, ServiceAuthority, Manifest}
use skret.Launch.Json.{Json}
use skret.Launch.Trust.{Crypto, TrustPolicy}
use skret.Launch.Signed.{Codec, SignedManifest}

abbrev pub digest : Str
digest = codes "sha256:0123456789abcdef0123456789abcdef0123456789abcdef0123456789abcdef"

abbrev pub health : HealthSpec
health = record {
  command = codes "true" ∷ [];
  interval_ms = 1000;
  timeout_ms = 500;
  retries = 3;
  heartbeat_interval_ms = 1000;
  heartbeat_timeout_ms = 3000;
}

abbrev pub child : ChildSpec
child = record {
  argv = codes "/app" ∷ [];
  user = codes "app";
  environment = (codes "PORT", codes "80") ∷ [];
}

abbrev pub db : ServiceAuthority
db = record {
  name = codes "db";
  image = codes "db@" ++ digest;
  user = codes "app";
  argv = codes "/helper" ∷ [];
  environment = (codes "PORT", codes "80") ∷ [];
  labels = (codes "tier", codes "data") ∷ [];
  networks = codes "back" ∷ [];
  restart = codes "no";
  open_stdin = true;
  health = health;
  dependencies = [];
  keys =
      (record { name = codes "/app/PW"; version = codes "7"; env = codes "PW" })
      ∷ (record { name = codes "/app/USER"; version = codes "12"; env = codes "USER" })
      ∷ [];
  wrapper_digest = digest;
  child = child;
}

abbrev pub api : ServiceAuthority
api = record db {
  name = codes "api";
  image = codes "api@" ++ digest;
  dependencies = codes "db" ∷ [];
  networks = codes "back" ∷ codes "front" ∷ [];
}

abbrev pub sample : Manifest
sample = record {
  version = codes "v2";
  runtime_id = codes "prod-1";
  role = codes "web";
  generation = 4;
  issued_at = pos 1000;
  expires_at = pos 1900;
  nonce = codes "0123456789abcdef";
  services = api ∷ db ∷ [];
  digests = record { helper = digest; supervisor = digest; compose = digest };
}

-- A stand-in for SHA-256 and Ed25519: one digest, one signature.
abbrev pub bytes : ℕ → Str
bytes zero = []
bytes (suc n) = 7 ∷ bytes n

abbrev pub crypto : Crypto
crypto = record {
  canonical = λ m. codes "{\"nonce\":\"" ++ (m.nonce ++ codes "\"}");
  sha256 = λ text. text;
  sign = λ private text. bytes 64;
  verify = λ public text raw. str_eq raw (bytes 64);
  public_of = λ private. bytes 32;
}

abbrev pub signed_sample : SignedManifest
signed_sample = record { manifest = sample; key_id = codes "k1"; signature = bytes 64 }

abbrev pub codec : Codec
codec = record {
  decode_manifest = λ text. some sample;
  encode_signed = λ s. codes "{\"key_id\":\"" ++ (s.key_id ++ codes "\",\"manifest\":{}}");
  decode_signed = λ text. some signed_sample;
  to_base64 = λ raw. raw;
  from_base64 = λ text. some text;
}

abbrev pub json : Json
json = record { valid = λ text. true; unquote = λ token. some token; is_float = λ text. false }

abbrev pub versions : Map Bool
versions = (codes "7", true) ∷ (codes "12", true) ∷ []

abbrev pub policy : TrustPolicy
policy = record {
  signing_keys = (codes "k1", bytes 32) ∷ [];
  versions = (codes "v2", true) ∷ [];
  runtime_ids = (codes "prod-1", true) ∷ [];
  roles = (codes "web", true) ∷ [];
  key_versions = (codes "/app/PW", versions) ∷ (codes "/app/USER", versions) ∷ [];
}
