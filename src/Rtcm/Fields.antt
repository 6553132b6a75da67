-- ===== src/Rtcm/Fields.antt =====
-- base/src/decode_rtcm.cpp: the bit readers util_getbitu_64, util_getbits_64 and their `_auto`
-- forms, which move the position on. `none` is a read outside of the buffer.
use nav_caster.Base.{
  ℕ, zero, suc, ◌+◌, ◌-◌, ◌*◌, ◌/◌, ◌%◌, ◌^◌, ◌||◌, Option, none, some, List, ◌==◌, leb,
  if◌then◌else◌, get_elem?,
}
use nav_caster.Base.Int.{ℤ, to_int64}

infixl 5 ◌>>=◌
abbrev pub ◌>>=◌ {ℓ κ} : {A : Type ℓ} {B : Type κ} → Option A → (A → Option B) → Option B
none >>= f = none
some a >>= f = f a

-- The loop of util_getbitu_64 with `n` rounds left.
unfoldable pub getbitu_loop : List ℕ → ℕ → ℕ → ℕ → Option ℕ
getbitu_loop buff zero i bits = some bits
getbitu_loop buff (suc n) i bits = elim (get_elem? buff (i / 8)) [
  | none ↦ none
  | some byte ↦
      getbitu_loop buff n (i + 1) ((bits * 2 % 2 ^ 64 + byte / 2 ^ (7 - i % 8) % 2) % 2 ^ 64)
]

unfoldable pub util_getbitu_64 : List ℕ → ℕ → ℕ → Option ℕ
unfolding getbitu_loop
util_getbitu_64 buff start len = getbitu_loop buff len start 0

-- The `|` that extends the sign joins bits apart, since `bits` is below 2 ^ len.
unfoldable pub extend_sign : ℕ → ℕ → ℤ
unfolding to_int64
extend_sign len bits =
    if len == 0 || leb 64 len || bits / 2 ^ (len - 1) % 2 == 0
    then to_int64 bits
    else to_int64 (bits + (2 ^ 64 - 2 ^ len))

unfoldable pub util_getbits_64 : List ℕ → ℕ → ℕ → Option ℤ
unfolding util_getbitu_64 extend_sign
util_getbits_64 buff start len =
    util_getbitu_64 buff start len >>= λ bits. some (extend_sign len bits)

unfoldable pub util_getbitu_64_auto : List ℕ → ℕ → ℕ → Option (ℕ × ℕ)
unfolding util_getbitu_64
util_getbitu_64_auto data_ start len =
    util_getbitu_64 data_ start len >>= λ v. some (v, start + len)

unfoldable pub util_getbits_64_auto : List ℕ → ℕ → ℕ → Option (ℤ × ℕ)
unfolding util_getbits_64
util_getbits_64_auto data_ start len =
    util_getbits_64 data_ start len >>= λ v. some (v, start + len)
