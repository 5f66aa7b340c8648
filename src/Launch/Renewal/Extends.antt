-- ===== src/Launch/Renewal/Extends.antt =====
-- What `RenewSignedManifest` of internal/secretlaunch/renew.go signs.
use skret.Base.{◌+◌, ◌*◌, ◌≤◌, ◌<◌, ℕ, pos, ◌≡◌, none, some, Str, lookup, ℤ}
use skret.Launch.Data.{Manifest}
use skret.Launch.Authority.{validate}
use skret.Launch.Json.{Json}
use skret.Launch.Trust.{Crypto, TrustPolicy}
use skret.Launch.Signed.{SignedManifest, Codec}
use skret.Launch.Verified.{IsTrusted}
use skret.Launch.Renewal.{Time}

-- The times are after the epoch; from the issue to now there are no more nanoseconds than asked
-- for, which is a week at most.
pub record IsRecent (now : Time) (issued_at max_age : ℤ) : Type 0 where
  pub issue : ℕ
  pub second : ℕ
  pub age : ℕ
  pub issue_eq : issued_at ≡ pos issue
  pub second_eq : now.seconds ≡ pos second
  pub age_eq : max_age ≡ pos age
  pub not_future : issue ≤ second
  pub young : second * 1000000000 + now.nanos ≤ issue * 1000000000 + age
  pub week : age ≤ 7 * 24 * 60 * 60 * 1000000000

-- The window begins with the second of now, and ends with the last whole second that is no later
-- than the lifetime behind now, which is between a second and a quarter of an hour.
pub record IsWindowOf (now : Time) (ttl : ℤ) (m : Manifest) : Type 0 where
  pub begin : ℕ
  pub end : ℕ
  pub life : ℕ
  pub begins : now.seconds ≡ pos begin
  pub issued : m.issued_at ≡ pos begin
  pub ends : m.expires_at ≡ pos end
  pub life_eq : ttl ≡ pos life
  pub shortest : 1000000000 ≤ life
  pub longest : life ≤ 15 * 60 * 1000000000
  pub not_late : end * 1000000000 ≤ begin * 1000000000 + now.nanos + life
  pub not_early : begin * 1000000000 + now.nanos + life < (end + 1) * 1000000000

-- The template is the text of a manifest that the policy trusts under the key that signs now, it is
-- recent, and what is signed is its manifest with a new window.
pub record IsExtension (c : Crypto) (codec : Codec) (template : Str) (p : TrustPolicy)
    (private : Str) (now : Time) (ttl max_age : ℤ) (text : Str) : Type 0 where
  pub old : SignedManifest
  pub raw : Str
  pub template_eq : codec.encode_signed old ≡ template
  pub trusted : IsTrusted c old.manifest raw old.key_id p
  pub own_key : lookup old.key_id p.signing_keys ≡ some (c.public_of private)
  pub recent : IsRecent now old.manifest.issued_at max_age
  pub new : Manifest
  pub same_authority :
      record new { issued_at = pos 0; expires_at = pos 0 }
      ≡ record old.manifest { issued_at = pos 0; expires_at = pos 0 }
  pub window : IsWindowOf now ttl new
  pub valid : validate new ≡ none
  pub text_eq :
      codec.encode_signed (record {
        manifest = new;
        key_id = old.key_id;
        signature = codec.to_base64 (c.sign private (c.canonical new));
      })
      ≡ text
