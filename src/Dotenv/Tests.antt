-- ===== src/Dotenv/Tests.antt =====
-- The codec of internal/dotenv/dotenv.go at a concrete name and value.
use skret.Base.{
  ◌≡◌, refl, Str, codes, ◌∷◌, ◌++◌, some, none, trim_space, trim_left, has_prefix, any_byte,
  trim_prefix,
}
use skret.Dotenv.{encode, decode, strip_last, unquoted, decode_value, cut, decode_pair}
use skret.Dotenv.RoundTrip.{IsName, decode-encode}

-- A value with a quote, a backslash and a newline.
abbrev hard_value : Str
hard_value = codes "a b=" ++ 34 ∷ 92 ∷ 10 ∷ codes "#$"

db_url-IsName : IsName (codes "DB_URL")
unfolding trim_space trim_left has_prefix any_byte
db_url-IsName = record {
  trimmed = refl;
  ne_nil = refl;
  indent = refl;
  no_comment = refl;
  no_export = refl;
  no_equals = refl;
}

decode-comment : decode (codes "  # A=b") ≡ none
unfolding decode trim_left has_prefix
decode-comment = refl

decode-export : decode (codes "export A='b c'") ≡ some (codes "A", codes "b c")
unfolding decode trim_left has_prefix trim_prefix cut decode_pair trim_space decode_value unquoted
    strip_last
decode-export = refl

decode-encode_example :
    decode (encode (codes "DB_URL") hard_value) ≡ some (codes "DB_URL", hard_value)
decode-encode_example = decode-encode (codes "DB_URL") db_url-IsName hard_value
