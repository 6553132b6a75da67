-- ===== src/Base64/Groups.antt =====
-- base/src/base64.cpp: one group of characters, of three, two or one byte below 128.
use nav_caster.Base.{
  ℕ, ◌+◌, ◌*◌, ◌%◌, ◌^◌, ◌<◌, ◌≡◌, refl, ◌∙◌, ap, Bool, true, some, [], ◌∷◌, arith,
}
use nav_caster.Base64.{
  alphabet, widen, sextet, encode_three, encode_two, encode_one, unalphabet, bytes_of,
  decode_values, decode_four,
}

unalphabet-alphabet : (v : ℕ) → v < 64 → unalphabet (alphabet v) ≡ v
unfolding unalphabet alphabet
unalphabet-alphabet v h = ground arith

pub sextet_bound : (q n : ℕ) → sextet q n < 64
unfolding sextet
sextet_bound q n = omega arith

-- The characters of a queue of 24 bits.
abbrev pub quartet : ℕ → ℕ → ℕ
quartet q n = alphabet (sextet q n)

recompose :
    (q : ℕ)
    → q < 2 ^ 24
    → sextet q 18 * 262144 + sextet q 12 * 4096 + sextet q 6 * 64 + sextet q 0 ≡ q
unfolding sextet
recompose q h = omega arith

decode_values-three :
    (u v w x : ℕ) (last : Bool)
    → u < 64
    → v < 64
    → w < 64
    → x < 64
    → decode_values u v w x last ≡ some (bytes_of 0 (u * 262144 + v * 4096 + w * 64 + x))
unfolding decode_values
decode_values-three u v w x last hu hv hw hx = ground arith

decode_values-two :
    (u v w : ℕ)
    → u < 64
    → v < 64
    → w < 64
    → decode_values u v w 64 true ≡ some (bytes_of 1 (u * 262144 + v * 4096 + w * 64))
unfolding decode_values
decode_values-two u v w hu hv hw = ground arith

decode_values-one :
    (u v : ℕ)
    → u < 64
    → v < 64
    → decode_values u v 64 64 true ≡ some (bytes_of 2 (u * 262144 + v * 4096))
unfolding decode_values
decode_values-one u v hu hv = ground arith

-- The values of the four characters of a queue.
value : (q n : ℕ) → unalphabet (quartet q n) ≡ sextet q n
value q n = unalphabet-alphabet (sextet q n) (sextet_bound q n)

abbrev pub queue : ℕ → ℕ → ℕ → ℕ
queue a b c = a * 65536 + b * 256 + c

bytes_of-three :
    (a b c : ℕ) → a < 128 → b < 128 → c < 128 → bytes_of 0 (queue a b c) ≡ a ∷ b ∷ c ∷ []
unfolding bytes_of
bytes_of-three a b c ha hb hc = ground arith

bytes_of-two : (a b : ℕ) → a < 128 → b < 128 → bytes_of 1 (queue a b 0) ≡ a ∷ b ∷ []
unfolding bytes_of
bytes_of-two a b ha hb = ground arith

bytes_of-one : (a : ℕ) → a < 128 → bytes_of 2 (queue a 0 0) ≡ a ∷ []
unfolding bytes_of
bytes_of-one a ha = ground arith

pub decode-three :
    (a b c : ℕ) (last : Bool)
    → a < 128
    → b < 128
    → c < 128
    → decode_four
        (quartet (queue a b c) 18)
        (quartet (queue a b c) 12)
        (quartet (queue a b c) 6)
        (quartet (queue a b c) 0)
        last
      ≡ some (a ∷ b ∷ c ∷ [])
unfolding decode_four
decode-three a b c last ha hb hc =
    rw
      (value (queue a b c) 18, value (queue a b c) 12, value (queue a b c) 6, value (queue a b c) 0)
      (decode_values-three (sextet (queue a b c) 18) (sextet (queue a b c) 12)
          (sextet (queue a b c) 6) (sextet (queue a b c) 0) last (sextet_bound _ _)
          (sextet_bound _ _) (sextet_bound _ _) (sextet_bound _ _)
        ∙ ap (λ q. some (bytes_of 0 q)) (recompose (queue a b c) (omega arith))
        ∙ ap some (bytes_of-three a b c ha hb hc))

recompose_two :
    (q : ℕ)
    → q < 2 ^ 24
    → q % 64 ≡ 0
    → sextet q 18 * 262144 + sextet q 12 * 4096 + sextet q 6 * 64 ≡ q
unfolding sextet
recompose_two q h e = omega arith

recompose_one : (q : ℕ) → q < 2 ^ 24 → q % 4096 ≡ 0 → sextet q 18 * 262144 + sextet q 12 * 4096 ≡ q
unfolding sextet
recompose_one q h e = omega arith

padding : unalphabet 61 ≡ 64
unfolding unalphabet
padding = refl

pub decode-two :
    (a b : ℕ)
    → a < 128
    → b < 128
    → decode_four
        (quartet (queue a b 0) 18)
        (quartet (queue a b 0) 12)
        (quartet (queue a b 0) 6)
        61
        true
      ≡ some (a ∷ b ∷ [])
unfolding decode_four
decode-two a b ha hb =
    rw (value (queue a b 0) 18, value (queue a b 0) 12, value (queue a b 0) 6, padding)
      (decode_values-two (sextet (queue a b 0) 18) (sextet (queue a b 0) 12)
          (sextet (queue a b 0) 6) (sextet_bound _ _) (sextet_bound _ _) (sextet_bound _ _)
        ∙ ap (λ q. some (bytes_of 1 q)) (recompose_two (queue a b 0) (omega arith) (omega arith))
        ∙ ap some (bytes_of-two a b ha hb))

pub decode-one :
    (a : ℕ)
    → a < 128
    → decode_four (quartet (queue a 0 0) 18) (quartet (queue a 0 0) 12) 61 61 true ≡ some (a ∷ [])
unfolding decode_four
decode-one a ha =
    rw (value (queue a 0 0) 18, value (queue a 0 0) 12, padding)
      (decode_values-one (sextet (queue a 0 0) 18) (sextet (queue a 0 0) 12) (sextet_bound _ _)
          (sextet_bound _ _)
        ∙ ap (λ q. some (bytes_of 2 q)) (recompose_one (queue a 0 0) (omega arith) (omega arith))
        ∙ ap some (bytes_of-one a ha))

-- The queue of three characters below 128.
queue_three :
    (a b c : ℕ)
    → a < 128
    → b < 128
    → c < 128
    → ((widen a * 256 + widen b) % 2 ^ 64 * 256 + widen c) % 2 ^ 64 ≡ queue a b c
unfolding widen
queue_three a b c ha hb hc = ground arith

queue_two :
    (a b : ℕ) → a < 128 → b < 128 → (widen a * 256 + widen b) % 2 ^ 64 * 256 % 2 ^ 64 ≡ queue a b 0
unfolding widen
queue_two a b ha hb = ground arith

queue_one : (a : ℕ) → a < 128 → widen a * 65536 % 2 ^ 64 ≡ queue a 0 0
unfolding widen
queue_one a ha = ground arith

pub encode_three-ascii :
    (a b c : ℕ)
    → a < 128
    → b < 128
    → c < 128
    → encode_three a b c
      ≡ quartet (queue a b c) 18
        ∷ quartet (queue a b c) 12
        ∷ quartet (queue a b c) 6
        ∷ quartet (queue a b c) 0
        ∷ []
unfolding encode_three
encode_three-ascii a b c ha hb hc =
    ap (λ q. quartet q 18 ∷ quartet q 12 ∷ quartet q 6 ∷ quartet q 0 ∷ [])
      (queue_three a b c ha hb hc)

pub encode_two-ascii :
    (a b : ℕ)
    → a < 128
    → b < 128
    → encode_two a b
      ≡ quartet (queue a b 0) 18 ∷ quartet (queue a b 0) 12 ∷ quartet (queue a b 0) 6 ∷ 61 ∷ []
unfolding encode_two
encode_two-ascii a b ha hb =
    ap (λ q. quartet q 18 ∷ quartet q 12 ∷ quartet q 6 ∷ 61 ∷ []) (queue_two a b ha hb)

pub encode_one-ascii :
    (a : ℕ)
    → a < 128
    → encode_one a ≡ quartet (queue a 0 0) 18 ∷ quartet (queue a 0 0) 12 ∷ 61 ∷ 61 ∷ []
unfolding encode_one
encode_one-ascii a ha = ap (λ q. quartet q 18 ∷ quartet q 12 ∷ 61 ∷ 61 ∷ []) (queue_one a ha)

pub alphabet_visible : (v : ℕ) → v < 64 → 32 < alphabet v
unfolding alphabet
alphabet_visible v h = ground arith
