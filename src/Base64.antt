-- ===== src/Base64.antt =====
-- base/src/base64.cpp. A text is the list of its characters' codes, without the NUL behind it. `none`
-- stands for NULL, which the callers turn into the empty text. `char` is signed.
pub mod Groups
pub mod Roundtrip
pub mod Examples
use nav_caster.Base.{
  ℕ, zero, suc, ◌+◌, ◌-◌, ◌*◌, ◌/◌, ◌%◌, ◌^◌, Bool, true, false, not, ◌&&◌, ◌||◌, ◌==◌, ltb, leb,
  Option, none, some, List, [], ◌∷◌, ◌++◌, if◌then◌else◌, get_or, length,
}

-- `alphabet[v]` for v below 64.
unfoldable pub alphabet : ℕ → ℕ
alphabet v =
    if ltb v 26
    then 65 + v
    else if ltb v 52
    then 97 + (v - 26)
    else if ltb v 62
    then 48 + (v - 52)
    else if v == 62
    then 43
    else 47

-- A signed char as an unsigned long.
unfoldable pub widen : ℕ → ℕ
widen c = if ltb c 128 then c else 2 ^ 64 - (256 - c)

unfoldable pub sextet : ℕ → ℕ → ℕ
sextet bitqueue shift = bitqueue / 2 ^ shift % 64

unfoldable pub encode_three : ℕ → ℕ → ℕ → List ℕ
unfolding widen sextet alphabet
encode_three a b c =
    let two = (widen a * 256 + widen b) % 2 ^ 64 in
    let bitqueue = (two * 256 + widen c) % 2 ^ 64 in
    alphabet (sextet bitqueue 18)
    ∷ alphabet (sextet bitqueue 12)
    ∷ alphabet (sextet bitqueue 6)
    ∷ alphabet (sextet bitqueue 0)
    ∷ []

unfoldable pub encode_two : ℕ → ℕ → List ℕ
unfolding widen sextet alphabet
encode_two a b =
    let bitqueue = (widen a * 256 + widen b) % 2 ^ 64 * 256 % 2 ^ 64 in
    alphabet (sextet bitqueue 18)
    ∷ alphabet (sextet bitqueue 12)
    ∷ alphabet (sextet bitqueue 6)
    ∷ 61
    ∷ []

unfoldable pub encode_one : ℕ → List ℕ
unfolding widen sextet alphabet
encode_one a =
    let bitqueue = widen a * 65536 % 2 ^ 64 in
    alphabet (sextet bitqueue 18) ∷ alphabet (sextet bitqueue 12) ∷ 61 ∷ 61 ∷ []

-- The loop, on what is left of the message.
unfoldable pub encode_loop : List ℕ → List ℕ
unfolding encode_three encode_two encode_one
encode_loop [] = []
encode_loop (a ∷ []) = encode_one a
encode_loop (a ∷ b ∷ []) = encode_two a b
encode_loop (a ∷ b ∷ c ∷ rest) = encode_three a b c ++ encode_loop rest

unfoldable pub base64_encode : List ℕ → Option (List ℕ)
unfolding encode_loop
base64_encode [] = none
base64_encode (a ∷ rest) = some (encode_loop (a ∷ rest))

-- 64 stands for the padding, 65 for a character that is not in the alphabet.
unfoldable pub unalphabet : ℕ → ℕ
unalphabet c =
    if leb 65 c && leb c 90
    then c - 65
    else if leb 97 c && leb c 122
    then c - 97 + 26
    else if leb 48 c && leb c 57
    then c - 48 + 52
    else if c == 43
    then 62
    else if c == 47
    then 63
    else if c == 61
    then 64
    else 65

-- The bytes of a group with `pad` characters of padding.
unfoldable pub bytes_of : ℕ → ℕ → List ℕ
bytes_of pad bitqueue =
    let first = bitqueue / 65536 % 256 in
    let second = bitqueue / 256 % 256 in
    let third = bitqueue % 256 in
    if pad == 0
    then first ∷ second ∷ third ∷ []
    else if pad == 1
    then first ∷ second ∷ []
    else first ∷ []

-- A group of four characters, of these values; `last` says that the message ends behind it.
unfoldable pub decode_values : ℕ → ℕ → ℕ → ℕ → Bool → Option (List ℕ)
unfolding bytes_of
decode_values u v w x last =
    if u == 64 || v == 64
    then none
    else if w == 64
    then (if not last || not (x == 64) then none else some (bytes_of 2 (u * 262144 + v * 4096)))
    else if x == 64
    then (if not last then none else some (bytes_of 1 (u * 262144 + v * 4096 + w * 64)))
    else some (bytes_of 0 (u * 262144 + v * 4096 + w * 64 + x))

unfoldable pub decode_four : ℕ → ℕ → ℕ → ℕ → Bool → Option (List ℕ)
unfolding unalphabet decode_values
decode_four a b c d last =
    decode_values (unalphabet a) (unalphabet b) (unalphabet c) (unalphabet d) last

abbrev pub is_end : List ℕ → Bool
is_end [] = true
is_end (c ∷ rest) = false

unfoldable pub decode_loop : List ℕ → Option (List ℕ)
unfolding decode_four
decode_loop [] = some []
decode_loop (a ∷ b ∷ c ∷ d ∷ rest) =
    let later = decode_loop rest in
    elim (decode_four a b c d (is_end rest)) [
      | none ↦ none
      | some bytes ↦ elim later [ none ↦ none | some more ↦ some (bytes ++ more) ]
    ]
decode_loop _ = none

unfoldable pub base64_decode : List ℕ → Option (List ℕ)
unfolding decode_loop
base64_decode [] = none
base64_decode (a ∷ rest) = decode_loop (a ∷ rest)

-- What a std::string takes of a C string.
unfoldable pub c_string : List ℕ → List ℕ
c_string [] = []
c_string (c ∷ rest) = if c == 0 then [] else c ∷ c_string rest

unfoldable pub util_base64_encode : List ℕ → List ℕ
unfolding base64_encode c_string
util_base64_encode message = elim (base64_encode message) [ none ↦ [] | some text ↦ c_string text ]

unfoldable pub util_base64_decode : List ℕ → List ℕ
unfolding base64_decode c_string
util_base64_decode message = elim (base64_decode message) [ none ↦ [] | some text ↦ c_string text ]
