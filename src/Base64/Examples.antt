-- ===== src/Base64/Examples.antt =====
-- Base64 at concrete texts.
use nav_caster.Base.{ℕ, ◌≡◌, refl, List, [], ◌∷◌, arith}
use nav_caster.Base64.{
  util_base64_encode, util_base64_decode, base64_encode, encode_loop, encode_three, widen, sextet,
  alphabet, c_string,
}
use nav_caster.Base64.Roundtrip.{util_base64_decode-encode}

-- "a:b"
abbrev credentials : List ℕ
credentials = 97 ∷ 58 ∷ 98 ∷ []

-- "YTpi"
encoded : util_base64_encode credentials ≡ 89 ∷ 84 ∷ 112 ∷ 105 ∷ []
unfolding util_base64_encode base64_encode encode_loop encode_three widen sextet alphabet c_string
encoded = refl

-- The bytes 0xC3 0xA9 and 0x41: the text is "wqlB", where that of the same bytes, unsigned, is "w6lB".
encoded_signed : util_base64_encode (0xC3 ∷ 0xA9 ∷ 0x41 ∷ []) ≡ 119 ∷ 113 ∷ 108 ∷ 66 ∷ []
unfolding util_base64_encode base64_encode encode_loop encode_three widen sextet alphabet c_string
encoded_signed = refl

util_base64_decode-encode_example :
    util_base64_decode (util_base64_encode credentials) ≡ credentials
util_base64_decode-encode_example =
    util_base64_decode-encode credentials
      (omega arith, (omega arith, (omega arith, (omega arith, (omega arith, (omega arith, tt))))))
