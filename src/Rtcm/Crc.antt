-- ===== src/Rtcm/Crc.antt =====
-- base/src/decode_rtcm.cpp: calCRC24, the checksum of an RTCM frame. `crc` is a uint32_t.
use Prim.Native.Nat.{bit_xor}
use nav_caster.Base.{
  ℕ, zero, suc, ◌*◌, ◌/◌, ◌%◌, ◌^◌, ◌<◌, List, [], ◌∷◌, arith, ◌==◌, if◌then◌else◌, take,
}
use nav_caster.Base.Bits.{bit_xor-shift}

abbrev pub poly_crc24 : ℕ
poly_crc24 = 0x01864CFB

-- One round of the inner loop: `crc <<= 1; if (crc & 0x1000000) crc ^= POLY_CRC24;`
unfoldable pub crc_round : ℕ → ℕ
crc_round crc = let c = crc * 2 % 2 ^ 32 in if c / 2 ^ 24 % 2 == 0 then c else bit_xor c poly_crc24

unfoldable pub crc_rounds : ℕ → ℕ → ℕ
unfolding crc_round
crc_rounds zero crc = crc
crc_rounds (suc n) crc = crc_rounds n (crc_round crc)

-- The outer loop, over the bytes that are left.
unfoldable pub crc24_from : ℕ → List ℕ → ℕ
unfolding crc_rounds
crc24_from crc [] = crc
crc24_from crc (b ∷ buf) = crc24_from (crc_rounds 8 (bit_xor crc (b * 2 ^ 16))) buf

unfoldable pub cal_crc24 : List ℕ → ℕ → ℕ
unfolding crc24_from
cal_crc24 buf size = crc24_from 0 (take size buf)

abbrev pub AllBytes : List ℕ → Type 0
AllBytes [] = Unit {0}
AllBytes (b ∷ bs) = (b < 256) × AllBytes bs

crc_round_bound : (crc : ℕ) → crc < 2 ^ 24 → crc_round crc < 2 ^ 24
unfolding crc_round
crc_round_bound crc h = ground (arith, bit_xor-shift 24 (crc * 2) poly_crc24)

crc_rounds_bound : (n crc : ℕ) → crc < 2 ^ 24 → crc_rounds n crc < 2 ^ 24
unfolding crc_rounds
crc_rounds_bound zero crc h = h
crc_rounds_bound (suc n) crc h = crc_rounds_bound n (crc_round crc) (crc_round_bound crc h)

xor_byte_bound : (crc b : ℕ) → crc < 2 ^ 24 → b < 256 → bit_xor crc (b * 2 ^ 16) < 2 ^ 24
xor_byte_bound crc b h k = ground (arith, bit_xor-shift 24 crc (b * 2 ^ 16))

pub crc24_from_bound :
    (buf : List ℕ) (crc : ℕ) → AllBytes buf → crc < 2 ^ 24 → crc24_from crc buf < 2 ^ 24
unfolding crc24_from
crc24_from_bound [] crc a h = h
crc24_from_bound (b ∷ buf) crc a h =
    crc24_from_bound buf _ a.1
      (crc_rounds_bound 8 (bit_xor crc (b * 2 ^ 16)) (xor_byte_bound crc b h a.0))
