-- ===== src/Provider/Oci/Tests.antt =====
-- Runs of the names of OCI, and the theorem at a concrete key.
use skret.Base.{◌≡◌, refl, some, codes, ◌∷◌, ◌++◌, trim_right, str_eq}
use skret.Provider.Oci.{
  slash, path_token, refused, named, outside, path_itself, secret_name_for, secret_key_for,
  valid_secret_name,
}
use skret.Provider.Oci.Names.{secret_key_for-secret_name_for}

bare : secret_name_for (codes "/app/prod") (codes "DB_URL") ≡ named (codes "app-prod_DB_URL")
unfolding secret_name_for str_eq
bare = refl

other_path : secret_name_for (codes "/app/prod") (codes "/app/dev/DB") ≡ refused outside
unfolding secret_name_for str_eq
other_path = refl

same_path : secret_name_for (codes "/app") (codes "/app") ≡ refused path_itself
unfolding secret_name_for str_eq
same_path = refl

-- A secret of the path /a_b is read as one of /a, and shares its name with a key of /a.
foreign_name :
    (secret_name_for (codes "/a_b") (codes "/a_b/X") ≡ named (codes "a_b_X"))
    × (secret_key_for (codes "/a") (codes "a_b_X") ≡ some (codes "/a/b_X"))
    × (secret_name_for (codes "/a") (codes "/a/b_X") ≡ named (codes "a_b_X"))
unfolding secret_name_for secret_key_for str_eq
foreign_name = (refl, refl, refl)

secret_key_for-secret_name_for_example :
    let key = trim_right slash (codes "/app/prod/") ++ b'/' ∷ codes "DB_URL" in
    let name = path_token (codes "/app/prod/") ++ b'_' ∷ codes "DB_URL" in
    (secret_name_for (codes "/app/prod/") key ≡ named name)
    × (secret_key_for (codes "/app/prod/") name ≡ some key)
unfolding path_token valid_secret_name
secret_key_for-secret_name_for_example =
    secret_key_for-secret_name_for (codes "/app/prod/") (codes "DB_URL") refl refl refl refl
