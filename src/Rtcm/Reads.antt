-- ===== src/Rtcm/Reads.antt =====
-- The bit readers of base/src/decode_rtcm.cpp: when a read stays inside the buffer, and the range of
-- what it returns.
use native.Mathlib.Nat.{pow-suc}
use nav_caster.Base.{
  ℕ, zero, suc, ◌+◌, ◌-◌, ◌*◌, ◌/◌, ◌%◌, ◌^◌, ◌≤◌, ◌<◌, ◌≡◌, refl, ap, inl, inr, none, some, List,
  [], ◌∷◌, arith, length, get_elem?, Option-cases,
}
use nav_caster.Base.Int.{ℤ, pos, negsuc, ◌≤ℤ◌, to_int64}
use nav_caster.Rtcm.Fields.{getbitu_loop, util_getbitu_64, util_getbits_64, extend_sign, ◌>>=◌}

get_elem?-lt : (xs : List ℕ) (i : ℕ) → i < length xs → (x : ℕ) × (get_elem? xs i ≡ some x)
get_elem?-lt [] i h = absurd (omega arith)
get_elem?-lt (x ∷ xs) zero h = (x, refl)
get_elem?-lt (x ∷ xs) (suc i) h = get_elem?-lt xs i (omega arith)

get_elem?-some : (xs : List ℕ) (i x : ℕ) → get_elem? xs i ≡ some x → i < length xs
get_elem?-some [] i x e = cc
get_elem?-some (y ∷ xs) zero x e = omega arith
get_elem?-some (y ∷ xs) (suc i) x e = omega (arith, get_elem?-some xs i x e)

pow_pos : (n : ℕ) → 1 ≤ 2 ^ n
pow_pos zero = omega arith
pow_pos (suc n) = omega (arith, pow-suc 2 n, pow_pos n)

mul_grows : (a p : ℕ) → 1 ≤ p → a ≤ a * p
mul_grows a p h = grind arith

-- One more bit on the right of `bits` takes half of the room.
shift_room :
    (bits bit p c : ℕ)
    → 1 ≤ p
    → (bits + 1) * (p * 2) ≤ c
    → c ≤ 2 ^ 64
    → bit < 2
    → ((bits * 2 % 2 ^ 64 + bit) % 2 ^ 64 + 1) * p ≤ c
shift_room bits bit p c h r w b =
    let small : bits * 2 + 2 ≤ 2 ^ 64 = omega (arith, mul_grows (bits * 2 + 2) p h) in
    let shifted : (bits * 2 % 2 ^ 64 + bit) % 2 ^ 64 ≡ bits * 2 + bit = omega arith in
    rw shifted (low bit b)
  where
    low : (b : ℕ) → b < 2 → (bits * 2 + b + 1) * p ≤ c
    low zero q = omega arith
    low (suc zero) q = omega arith
    low (suc (suc b)) q = absurd (omega arith)

-- With `n` rounds left the bits read so far leave room for the rest.
getbitu_loop-reads :
    (buff : List ℕ) (n i bits c : ℕ)
    → i + n ≤ 8 * length buff
    → (bits + 1) * 2 ^ n ≤ c
    → c ≤ 2 ^ 64
    → (v : ℕ) × (getbitu_loop buff n i bits ≡ some v) × (v < c)
unfolding getbitu_loop
getbitu_loop-reads buff zero i bits c h r w = (bits, refl, omega arith)
getbitu_loop-reads buff (suc n) i bits c h r w =
    let (byte, e) = get_elem?-lt buff (i / 8) (omega arith) in
    let bit = byte / 2 ^ (7 - i % 8) % 2 in
    let (v, e', b) =
      getbitu_loop-reads buff n (i + 1) ((bits * 2 % 2 ^ 64 + bit) % 2 ^ 64) c (omega arith)
        (shift_room bits bit (2 ^ n) c (pow_pos n) (rw (← pow-suc 2 n) r) w (omega arith)) w in
    (v, rw (e, getbitu_loop) e', b)

getbitu_loop-overrun :
    (buff : List ℕ) (n i bits : ℕ)
    → 0 < n
    → 8 * length buff < i + n
    → getbitu_loop buff n i bits ≡ none
unfolding getbitu_loop
getbitu_loop-overrun buff zero i bits p h = absurd (omega arith)
getbitu_loop-overrun buff (suc n) i bits p h = elim (Option-cases (get_elem? buff (i / 8))) [
  | inl e ↦ rw (e, getbitu_loop)
  | inr (byte, e) ↦
      rw (e, getbitu_loop)
        (getbitu_loop-overrun buff n (i + 1) _ (omega (arith, get_elem?-some buff (i / 8) byte e))
          (omega arith))
]

-- util_getbitu_64 of at most 64 bits inside the buffer returns a number below 2 ^ len.
pub getbitu-reads :
    (buff : List ℕ) (start len : ℕ)
    → start + len ≤ 8 * length buff
    → 2 ^ len ≤ 2 ^ 64
    → (v : ℕ) × (util_getbitu_64 buff start len ≡ some v) × (v < 2 ^ len)
unfolding util_getbitu_64
getbitu-reads buff start len h w = getbitu_loop-reads buff len start 0 (2 ^ len) h (omega arith) w

pub getbitu-overrun :
    (buff : List ℕ) (start len : ℕ)
    → 0 < len
    → 8 * length buff < start + len
    → util_getbitu_64 buff start len ≡ none
unfolding util_getbitu_64
getbitu-overrun buff start len p h = getbitu_loop-overrun buff len start 0 p h

-- The 38 bits of a signed number, in two's complement.
abbrev pub field38 : ℤ → ℕ
field38 (pos n) = n
field38 (negsuc n) = 2 ^ 38 - n - 1

abbrev pub InField38 : ℤ → Type 0
InField38 z = (negsuc (2 ^ 37 - 1) ≤ℤ z) × (z ≤ℤ pos (2 ^ 37 - 1))

extend_sign-field38 : (z : ℤ) → InField38 z → extend_sign 38 (field38 z) ≡ z
unfolding extend_sign to_int64
extend_sign-field38 (pos n) h = ground arith
extend_sign-field38 (negsuc n) h = ground arith

-- Where the 38 bits at a position are the two's complement of a number in their range,
-- util_getbits_64 returns that number.
pub getbits-field38 :
    (buff : List ℕ) (start : ℕ) (z : ℤ)
    → InField38 z
    → util_getbitu_64 buff start 38 ≡ some (field38 z)
    → util_getbits_64 buff start 38 ≡ some z
unfolding util_getbits_64
getbits-field38 buff start z h e = rw (e, ◌>>=◌) (ap some (extend_sign-field38 z h))
