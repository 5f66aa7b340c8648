-- ===== src/Provider/Oci/Names.antt =====
-- The names of internal/provider/oci/names.go and the keys that they are read back as.
use skret.Provider.Oci.{
  slash, dashed, path_token, named, valid_secret_name, name_of, secret_name_for, key_below,
  secret_key_for,
}
use skret.Base.{
  ℕ, ◌+◌, ◌≡◌, refl, sym, ap, ◌∙◌, arith, true, false, not, [], ◌∷◌, ◌++◌, some, Str, is_empty,
  has_prefix, has_prefix-append, drop, length, trim_left, trim_right, all_bytes, append_assoc,
  length-append, Bool-cases, inl, inr,
}

drop_prefix : (p s : Str) → drop (length p) (p ++ s) ≡ s
drop_prefix [] s = refl
drop_prefix (c ∷ p) s = drop_prefix p s

joined : (p : Str) (c : ℕ) (s : Str) → (p ++ c ∷ []) ++ s ≡ p ++ c ∷ s
joined p c s = append_assoc p (c ∷ []) s

has_prefix_joined : (p : Str) (c : ℕ) (s : Str) → has_prefix (p ++ c ∷ s) (p ++ c ∷ []) ≡ true
has_prefix_joined p c s =
    ap (λ z. has_prefix z (p ++ c ∷ [])) (sym (joined p c s)) ∙ has_prefix-append (p ++ c ∷ []) s

drop_joined : (p : Str) (c : ℕ) (s : Str) → drop (length (p ++ c ∷ [])) (p ++ c ∷ s) ≡ s
drop_joined p c s =
    ap (drop (length (p ++ c ∷ []))) (sym (joined p c s)) ∙ drop_prefix (p ++ c ∷ []) s

drop_below : (p : Str) (s : Str) (c : ℕ) → drop (length p + 1) (p ++ c ∷ s) ≡ s
drop_below p s c =
    ap (λ n. drop n (p ++ c ∷ s)) (omega (arith, length-append p (c ∷ []))) ∙ drop_joined p c s

dashed_plain : (s : Str) → all_bytes (λ c. not (slash c)) s ≡ true → dashed s ≡ s
unfolding all_bytes
dashed_plain [] h = refl
dashed_plain (c ∷ s) h = ground (arith, h, dashed_plain s)

no_token : (s : Str) → is_empty s ≡ true → is_empty (dashed (trim_left slash s)) ≡ true
unfolding trim_left
no_token [] h = refl
no_token (c ∷ s) h = absurd (ground (arith, h))

-- A path with a token is not empty without its last slashes.
rooted_path :
    (path : Str) → is_empty (path_token path) ≡ false → is_empty (trim_right slash path) ≡ false
unfolding path_token
rooted_path path h = elim (Bool-cases (is_empty (trim_right slash path))) [
  | inl e ↦ absurd (ground (arith, h, no_token (trim_right slash path) e))
  | inr e ↦ e
]

found_below :
    (path token leaf : Str)
    → path_token path ≡ token
    → is_empty (trim_right slash path) ≡ false
    → secret_key_for path (token ++ b'_' ∷ leaf) ≡ key_below (trim_right slash path) leaf
unfolding secret_key_for
found_below path token leaf t r =
    rw (r, t, has_prefix_joined token b'_' leaf, drop_joined token b'_' leaf) refl

nonempty_joined : (p : Str) (c : ℕ) (s : Str) → is_empty (p ++ c ∷ s) ≡ false
nonempty_joined [] c s = refl
nonempty_joined (d ∷ p) c s = refl

named_below :
    (path leaf : Str)
    → is_empty (path_token path) ≡ false
    → secret_name_for path (trim_right slash path ++ b'/' ∷ leaf) ≡ name_of (path_token path) leaf
unfolding secret_name_for
named_below path leaf t =
    let rp = trim_right slash path in
    rw (nonempty_joined rp b'/' leaf, t, has_prefix_joined rp b'/' leaf, drop_below rp leaf b'/')
      refl

name_plain :
    (token leaf : Str)
    → is_empty token ≡ false
    → all_bytes (λ c. not (slash c)) leaf ≡ true
    → valid_secret_name (token ++ b'_' ∷ leaf) ≡ true
    → name_of token leaf ≡ named (token ++ b'_' ∷ leaf)
unfolding name_of
name_plain token leaf t p v = rw (t, dashed_plain leaf p, v) refl

-- A key below a path that has a token, with a leaf that is not empty and holds no slash, gets the
-- name of token and leaf where OCI allows that name, and is what the name is read back as.
pub secret_key_for-secret_name_for :
    (path leaf : Str)
    → is_empty (path_token path) ≡ false
    → is_empty leaf ≡ false
    → all_bytes (λ c. not (slash c)) leaf ≡ true
    → valid_secret_name (path_token path ++ b'_' ∷ leaf) ≡ true
    → let key = trim_right slash path ++ b'/' ∷ leaf in
      let name = path_token path ++ b'_' ∷ leaf in
      (secret_name_for path key ≡ named name) × (secret_key_for path name ≡ some key)
secret_key_for-secret_name_for path [] t l p v = absurd (ground (arith, l))
secret_key_for-secret_name_for path (c ∷ leaf) t l p v = (
  named_below path (c ∷ leaf) t ∙ name_plain (path_token path) (c ∷ leaf) t p v,
  found_below path (path_token path) (c ∷ leaf) refl (rooted_path path t),
)
