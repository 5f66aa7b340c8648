-- ===== src/Launch/Labels.antt =====
-- The labels by which a launch knows its containers, internal/secretlaunch/runtime.go.
use skret.Base.{
  ℕ, ◌/◌, ◌%◌, ◌+◌, Bool, false, not, ◌&&◌, [], ◌∷◌, ◌++◌, Option, none, some, Str, Map, codes, ltb,
  leb, ◌==◌, if◌then◌else◌, is_empty, str_eq, length, insert,
}
use skret.Launch.Data.{Manifest}
use skret.Launch.Fields.{valid_nonce, valid_digest_text, contains_labels, read}
use skret.Launch.Decimal.{format_nat, parse_uint}
use skret.Launch.Authority.{manifest_version}
use skret.Launch.Trust.{Crypto}
use skret.Launch.Signed.{Reply, returned, failed}
use skret.Launch.Renewal.{authority_digest}
use skret.Launch.Model.{ServiceSpec}

abbrev pub label : Str
label = codes "com.skret.secret-launch"

abbrev pub service_label : Str
service_label = codes "com.skret.secret-launch.service"

abbrev pub generation_label : Str
generation_label = codes "com.skret.secret-launch.generation"

hex_digit : ℕ → ℕ
hex_digit n = if ltb n 10 then n + 48 else n + 87

-- `%x` of a byte slice
unfoldable pub hex : Str → Str
unfolding hex_digit
hex [] = []
hex (b ∷ bs) = hex_digit (b / 16 % 16) ∷ hex_digit (b % 16) ∷ hex bs

abbrev labels_with : Manifest → Reply Str → Map Str
labels_with m (failed e) = []
labels_with m (returned digest) =
    (label, manifest_version)
    ∷ (codes "com.skret.secret-launch.runtime", m.runtime_id)
    ∷ (codes "com.skret.secret-launch.role", m.role)
    ∷ (generation_label, format_nat m.generation)
    ∷ (codes "com.skret.secret-launch.nonce", m.nonce)
    ∷ (codes "com.skret.secret-launch.manifest", codes "sha256:" ++ hex digest)
    ∷ []

-- `OwnershipScopeLabels`
abbrev pub scope_labels : Manifest → Map Str
scope_labels m =
    (label, manifest_version)
    ∷ (codes "com.skret.secret-launch.runtime", m.runtime_id)
    ∷ (codes "com.skret.secret-launch.role", m.role)
    ∷ []

-- `ExactLabels`
unfoldable pub exact_labels : Map Str → Map Str → Bool
unfolding contains_labels
exact_labels actual expected = (length actual == length expected) && contains_labels actual expected

abbrev generation_within : ℕ → Option ℕ → Bool
generation_within current none = false
generation_within current (some g) = ltb 0 g && leb g current

-- `ownedGenerationInScope`
unfoldable pub owned_in_scope : Map Str → Map Str → ℕ → Bool
unfolding contains_labels read parse_uint
owned_in_scope labels scope current =
    contains_labels labels scope
    && not (is_empty (read labels service_label))
    && generation_within current (parse_uint (read labels generation_label))
    && valid_nonce (read labels (codes "com.skret.secret-launch.nonce"))
    && valid_digest_text (read labels (codes "com.skret.secret-launch.manifest"))

abbrev generation_below : ℕ → Option ℕ → Bool
generation_below current none = false
generation_below current (some g) = ltb g current

-- `olderOwnedGeneration`
unfoldable pub older_owned : Map Str → Map Str → ServiceSpec → ℕ → Bool
unfolding owned_in_scope
older_owned labels scope service current =
    not (is_empty service.name)
    && owned_in_scope labels scope current
    && generation_below current (parse_uint (read labels generation_label))
    && str_eq (read labels service_label) service.name

module _ (crypto : Crypto) where
  -- `OwnershipLabels`
  unfoldable pub ownership_labels : Manifest → Map Str
  unfolding authority_digest hex format_nat
  ownership_labels m = labels_with m (authority_digest crypto m)

  -- `LaunchLabels`
  unfoldable pub launch_labels : Manifest → Str → Map Str
  unfolding ownership_labels insert
  launch_labels m name = insert service_label name (ownership_labels m)

  -- `currentOwnedGeneration`; the expected labels have the service's at least.
  unfoldable pub current_owned : Map Str → Manifest → Str → Bool
  unfolding launch_labels contains_labels
  current_owned labels m name = not (is_empty name) && contains_labels labels (launch_labels m name)
