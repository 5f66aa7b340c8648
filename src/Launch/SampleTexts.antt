-- ===== src/Launch/SampleTexts.antt =====
-- The texts of the sample manifest are compact JSON objects, for the tests.
use skret.Base.{
  ◌++◌, ◌==◌, ◌||◌, not, ◌≡◌, refl, true, [], ◌∷◌, Str, codes, all_bytes, str_eq, arith,
}
use skret.Launch.Authority.{is_among}
use skret.Launch.Json.{a_value}
use skret.Launch.Json.Texts.{
  IsBody, done, plain, IsText, a_string, object, last_member, more_members, empty_object, IsObject,
}
use skret.Launch.Samples.{sample, crypto, signed_sample, codec, json}

plain-IsBody : (s : Str) → all_bytes (λ b. not (b == b'"' || b == b'\\')) s ≡ true → IsBody s
unfolding all_bytes
plain-IsBody [] h = done
plain-IsBody (c ∷ s) h =
    plain c (ground (arith, h)) (ground (arith, h)) (plain-IsBody s (ground (arith, h)))

string-IsText :
    (s : Str)
    → all_bytes (λ b. not (b == b'"' || b == b'\\')) s ≡ true
    → IsText json a_value (b'"' ∷ (s ++ b'"' ∷ []))
string-IsText s h = a_string s ((b'"' ∷ s) ++ b'"' ∷ []) (plain-IsBody s h) refl

pub nonce-IsObject : IsObject json (crypto.canonical sample)
unfolding all_bytes is_among str_eq
nonce-IsObject = record {
  behind = codes "\"nonce\":\"0123456789abcdef\"}";
  braced = refl;
  accepted = refl;
  compact = object (
      last_member [] (codes "nonce") (codes "\"nonce\"") (plain-IsBody (codes "nonce") refl) refl
        refl (string-IsText sample.nonce refl));
}

pub signed-IsObject : IsObject json (codec.encode_signed signed_sample)
unfolding all_bytes is_among str_eq
signed-IsObject = record {
  behind = codes "\"key_id\":\"k1\",\"manifest\":{}}";
  braced = refl;
  accepted = refl;
  compact = object (
      more_members [] (codes "key_id") (codes "\"key_id\"") (plain-IsBody (codes "key_id") refl)
        refl refl (string-IsText (codes "k1") refl)
        (last_member (codes "\"key_id\"" ∷ []) (codes "manifest") (codes "\"manifest\"")
          (plain-IsBody (codes "manifest") refl) refl refl empty_object));
}
