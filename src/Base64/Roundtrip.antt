-- ===== src/Base64/Roundtrip.antt =====
-- base/src/base64.cpp: decoding what has been encoded.
use mathlib.Core.Path.{subst}
use nav_caster.Base.{ℕ, ◌<◌, ◌≡◌, ◌≢◌, refl, sym, ◌∙◌, ap, some, List, [], ◌∷◌, ◌++◌, arith}
use nav_caster.Base64.{
  sextet, encode_loop, base64_encode, decode_four, is_end, decode_loop, base64_decode, c_string,
  util_base64_encode, util_base64_decode,
}
use nav_caster.Base64.Groups.{
  decode-three, decode-two, decode-one, encode_three-ascii, encode_two-ascii, encode_one-ascii,
  alphabet_visible, sextet_bound, queue, quartet,
}

-- A text of characters of ASCII, without NUL.
abbrev pub Ascii : List ℕ → Type 0
Ascii [] = Unit {0}
Ascii (c ∷ rest) = (0 < c) × ((c < 128) × Ascii rest)

decode_loop-group :
    (a b c d : ℕ) (rest bytes more : List ℕ)
    → decode_four a b c d (is_end rest) ≡ some bytes
    → decode_loop rest ≡ some more
    → decode_loop (a ∷ b ∷ c ∷ d ∷ rest) ≡ some (bytes ++ more)
unfolding decode_loop
decode_loop-group a b c d rest bytes more e later = ground arith

decode-encode_loop : (m : List ℕ) → Ascii m → decode_loop (encode_loop m) ≡ some m
unfolding encode_loop
decode-encode_loop [] p = unfold decode_loop in refl
decode-encode_loop (a ∷ []) p =
    ap decode_loop (encode_one-ascii a p.1.0)
    ∙ decode_loop-group _ _ _ _ [] (a ∷ []) [] (decode-one a p.1.0) (unfold decode_loop in refl)
decode-encode_loop (a ∷ b ∷ []) p =
    ap decode_loop (encode_two-ascii a b p.1.0 p.1.1.1.0)
    ∙ decode_loop-group _ _ _ _ [] (a ∷ b ∷ []) [] (decode-two a b p.1.0 p.1.1.1.0)
        (unfold decode_loop in refl)
decode-encode_loop (a ∷ b ∷ c ∷ rest) p =
    ap (λ g. decode_loop (g ++ encode_loop rest))
      (encode_three-ascii a b c p.1.0 p.1.1.1.0 p.1.1.1.1.1.0)
    ∙ decode_loop-group _ _ _ _ (encode_loop rest) (a ∷ b ∷ c ∷ []) rest
        (decode-three a b c (is_end (encode_loop rest)) p.1.0 p.1.1.1.0 p.1.1.1.1.1.0)
        (decode-encode_loop rest p.1.1.1.1.1.1)

-- No character is 0.
abbrev NoZero : List ℕ → Type 0
NoZero [] = Unit {0}
NoZero (c ∷ rest) = (0 < c) × NoZero rest

-- No character is a space or a control character.
abbrev pub Visible : List ℕ → Type 0
Visible [] = Unit {0}
Visible (c ∷ rest) = (32 < c) × Visible rest

NoZero-Visible : (m : List ℕ) → Visible m → NoZero m
NoZero-Visible [] p = tt
NoZero-Visible (c ∷ rest) p = (omega arith, NoZero-Visible rest p.1)

c_string-NoZero : (m : List ℕ) → NoZero m → c_string m ≡ m
unfolding c_string
c_string-NoZero [] p = refl
c_string-NoZero (c ∷ rest) p = ground (arith, c_string-NoZero rest p.1)

NoZero-Ascii : (m : List ℕ) → Ascii m → NoZero m
NoZero-Ascii [] p = tt
NoZero-Ascii (c ∷ rest) p = (p.0, NoZero-Ascii rest p.1.1)

visible : (q n : ℕ) → 32 < quartet q n
visible q n = alphabet_visible (sextet q n) (sextet_bound q n)

encode_loop-Visible : (m : List ℕ) → Ascii m → Visible (encode_loop m)
unfolding encode_loop
encode_loop-Visible [] p = tt
encode_loop-Visible (a ∷ []) p =
    subst Visible (sym (encode_one-ascii a p.1.0))
      (visible (queue a 0 0) 18, (visible (queue a 0 0) 12, (omega arith, (omega arith, tt))))
encode_loop-Visible (a ∷ b ∷ []) p = subst Visible (sym (encode_two-ascii a b p.1.0 p.1.1.1.0)) (
  visible (queue a b 0) 18,
  (visible (queue a b 0) 12, (visible (queue a b 0) 6, (omega arith, tt))),
)
encode_loop-Visible (a ∷ b ∷ c ∷ rest) p =
    subst (λ g. Visible (g ++ encode_loop rest))
      (sym (encode_three-ascii a b c p.1.0 p.1.1.1.0 p.1.1.1.1.1.0))
      (
        visible (queue a b c) 18,
        (
          visible (queue a b c) 12,
          (
            visible (queue a b c) 6,
            (visible (queue a b c) 0, encode_loop-Visible rest p.1.1.1.1.1.1),
          ),
        ),
      )

base64_decode_lem : (m : List ℕ) → m ≢ [] → base64_decode m ≡ decode_loop m
unfolding base64_decode
base64_decode_lem [] ne = absurd (ne refl)
base64_decode_lem (c ∷ rest) ne = refl

decode-encode_full : (m : List ℕ) → Ascii m → m ≢ [] → base64_decode (encode_loop m) ≡ some m
unfolding decode_loop
decode-encode_full m p ne =
    base64_decode_lem (encode_loop m)
      (λ e. ne (some-injective (sym (decode-encode_loop m p) ∙ ap decode_loop e)))
    ∙ decode-encode_loop m p
  where
    some-injective : {x y : List ℕ} → some x ≡ some y → x ≡ y
    some-injective e = cc e

util_base64_decode_lem :
    (t m : List ℕ) → base64_decode t ≡ some m → util_base64_decode t ≡ c_string m
unfolding util_base64_decode
util_base64_decode_lem t m e = ground arith

util_base64_encode_lem : (m : List ℕ) → m ≢ [] → util_base64_encode m ≡ c_string (encode_loop m)
unfolding util_base64_encode base64_encode
util_base64_encode_lem [] ne = absurd (ne refl)
util_base64_encode_lem (a ∷ rest) ne = refl

-- util_base64_decode gives back what util_base64_encode has encoded, for every text of ASCII
-- characters without NUL, the empty text included.
pub util_base64_decode-encode :
    (m : List ℕ) → Ascii m → util_base64_decode (util_base64_encode m) ≡ m
unfolding util_base64_decode util_base64_encode base64_encode base64_decode
util_base64_decode-encode [] p = refl
util_base64_decode-encode (a ∷ rest) p =
    ap util_base64_decode (
      util_base64_encode_lem (a ∷ rest) (λ e. cc e)
      ∙ c_string-NoZero (encode_loop (a ∷ rest))
          (NoZero-Visible _ (encode_loop-Visible (a ∷ rest) p)))
    ∙ util_base64_decode_lem (encode_loop (a ∷ rest)) (a ∷ rest)
        (decode-encode_full (a ∷ rest) p (λ e. cc e))
    ∙ c_string-NoZero (a ∷ rest) (NoZero-Ascii (a ∷ rest) p)

-- What util_base64_encode writes can be read with "%s" again.
pub util_base64_encode-Visible : (m : List ℕ) → Ascii m → Visible (util_base64_encode m)
unfolding util_base64_encode base64_encode
util_base64_encode-Visible [] p = tt
util_base64_encode-Visible (a ∷ rest) p =
    subst Visible
      (sym (
        c_string-NoZero (encode_loop (a ∷ rest))
          (NoZero-Visible _ (encode_loop-Visible (a ∷ rest) p))))
      (encode_loop-Visible (a ∷ rest) p)
