-- ===== src/Launch/Accepted.antt =====
-- What `Validate` of internal/secretlaunch/manifest.go lets through: an equivalent without loops
-- and without an order of the checks.
use skret.Base.{
  ℕ, ◌≤◌, ◌<◌, ◌+◌, ◌≡◌, refl, arith, true, false, not, ◌||◌, List, [], ◌∷◌, none, codes, map, All,
  ◌↔◌, str_eq, str_eq_iff, length, ℤ, pos, negsuc, ◌==◌, ltb,
}
use skret.Launch.Fields.{valid_nonce, valid_service_name, valid_digest_text}
use skret.Launch.Data.{ServiceAuthority, ArtifactDigests, Manifest}
use skret.Launch.Authority.{manifest_version, valid_window, manifest_checks, validate}
use skret.Launch.Ascending.{first_error-All, error_if-none, IsBelow, IsAscending}
use skret.Launch.Valid.{IsService, valid_service_name-filled}
use skret.Launch.Services.{error_if-not, service_name, services_rise_iff}

-- The window of validity: 15 minutes at most, after the epoch.
pub record IsWindow (issued expires : ℤ) : Type 0 where
  pub issued_seconds : ℕ
  pub expires_seconds : ℕ
  pub issued_eq : issued ≡ pos issued_seconds
  pub expires_eq : expires ≡ pos expires_seconds
  pub rising : (0 < issued_seconds) × (issued_seconds < expires_seconds)
  pub short : expires_seconds ≤ issued_seconds + 900

valid_window-IsWindow : (i e : ℤ) → (valid_window i e ≡ true) ↔ IsWindow i e
valid_window-IsWindow (pos i) (pos e) = (
  λ h. record {
    issued_seconds = i;
    expires_seconds = e;
    issued_eq = refl;
    expires_eq = refl;
    rising = ground (arith, h);
    short = ground (arith, h);
  },
  λ w. ground (arith, w.issued_eq, w.expires_eq, w.rising, w.short),
)
valid_window-IsWindow (negsuc i) e = (λ h. cc, λ w. absurd (ground (arith, w.issued_eq)))
valid_window-IsWindow (pos i) (negsuc e) = (λ h. cc, λ w. absurd (ground (arith, w.expires_eq)))

-- A manifest of version 2 with a short window, whose services rise by their names and are valid
-- each.
pub record IsManifest (m : Manifest) : Type 0 where
  pub version : m.version ≡ codes "v2"
  pub names : (valid_service_name m.runtime_id ≡ true) × (valid_service_name m.role ≡ true)
  pub generation : 0 < m.generation
  pub window : IsWindow m.issued_at m.expires_at
  pub nonce : valid_nonce m.nonce ≡ true
  pub service_count : (0 < length m.services) × (length m.services ≤ 256)
  pub services : All IsService m.services
  pub service_names : IsAscending (map service_name m.services)
  pub helper : valid_digest_text m.digests.helper ≡ true
  pub supervisor : valid_digest_text m.digests.supervisor ≡ true
  pub compose : valid_digest_text m.digests.compose ≡ true

head_refused_iff :
    (m : Manifest)
    → ((not (str_eq m.version manifest_version)
          || not (valid_service_name m.runtime_id)
          || not (valid_service_name m.role)
          || (m.generation == 0))
        ≡ false)
      ↔ ((m.version ≡ codes "v2")
          × (((valid_service_name m.runtime_id ≡ true) × (valid_service_name m.role ≡ true))
              × (0 < m.generation)))
head_refused_iff m = ground (arith, str_eq_iff m.version manifest_version)

size_refused_iff :
    (m : Manifest)
    → ((not (valid_nonce m.nonce) || (length m.services == 0) || ltb 256 (length m.services))
        ≡ false)
      ↔ ((valid_nonce m.nonce ≡ true) × ((0 < length m.services) × (length m.services ≤ 256)))
size_refused_iff m = ground arith

digests_refused_iff :
    (d : ArtifactDigests)
    → ((not (valid_digest_text d.helper)
          || not (valid_digest_text d.supervisor)
          || not (valid_digest_text d.compose))
        ≡ false)
      ↔ ((valid_digest_text d.helper ≡ true)
          × ((valid_digest_text d.supervisor ≡ true) × (valid_digest_text d.compose ≡ true)))
digests_refused_iff d = ground arith

services_filled : (ss : List ServiceAuthority) → All IsService ss → IsBelow [] (map service_name ss)
services_filled [] _ = tt
services_filled (s ∷ ss) (h, hs) = (valid_service_name-filled s.name h.name, services_filled ss hs)

manifest_valid : (m : Manifest) → validate m ≡ none → IsManifest m
unfolding validate
manifest_valid m e =
    let (head, (window, (size, (services, (digests, _))))) =
      (first_error-All (manifest_checks m)).0 e in
    let (version, (names, generation)) = (head_refused_iff m).0 ((error_if-none _ _).0 head) in
    let (nonce, count) = (size_refused_iff m).0 ((error_if-none _ _).0 size) in
    let (each, (_, up)) = (services_rise_iff [] m.services).0 ((error_if-not _ _).0 services) in
    let (helper, (supervisor, compose)) =
      (digests_refused_iff m.digests).0 ((error_if-none _ _).0 digests) in
    record {
      version = version;
      names = names;
      generation = generation;
      window = (valid_window-IsWindow m.issued_at m.expires_at).0 ((error_if-not _ _).0 window);
      nonce = nonce;
      service_count = count;
      services = each;
      service_names = up;
      helper = helper;
      supervisor = supervisor;
      compose = compose;
    }

manifest_accepted : (m : Manifest) → IsManifest m → validate m ≡ none
unfolding validate
manifest_accepted m w = (first_error-All (manifest_checks m)).1 (
  (error_if-none _ _).1 ((head_refused_iff m).1 (w.version, (w.names, w.generation))),
  (
    (error_if-not _ _).1 ((valid_window-IsWindow m.issued_at m.expires_at).1 w.window),
    (
      (error_if-none _ _).1 ((size_refused_iff m).1 (w.nonce, w.service_count)),
      (
        (error_if-not _ _).1 (
            (services_rise_iff [] m.services).1
              (w.services, (services_filled m.services w.services, w.service_names))),
        (
          (error_if-none _ _).1
              ((digests_refused_iff m.digests).1 (w.helper, (w.supervisor, w.compose))),
          tt,
        ),
      ),
    ),
  ),
)

-- Validate accepts exactly the manifests of version 2 with a valid runtime id, a valid role, a
-- generation above 0, a window of 1 to 900 seconds after the epoch, a valid nonce, three valid
-- digests and 1 to 256 services, each valid and each named above the one before it.
pub validate-IsManifest : (m : Manifest) → (validate m ≡ none) ↔ IsManifest m
validate-IsManifest m = (manifest_valid m, manifest_accepted m)
