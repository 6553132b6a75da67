-- ===== src/Rtcm/Station.antt =====
-- The station messages 1005, 1006 and 1032 of base/src/decode_rtcm.cpp read fields at fixed
-- positions of a message whose length the decoder never compares with them.
use nav_caster.Base.{
  ℕ, ◌+◌, ◌*◌, ◌^◌, ◌≤◌, ◌<◌, ◌≡◌, ◌≢◌, Option, none, some, List, arith, length, leb, Option-cases,
  Bool-cases, inl, inr, ◌↔◌,
}
use nav_caster.Base.Int.{ℤ}
use nav_caster.Rtcm.Fields.{
  ◌>>=◌, util_getbitu_64_auto, util_getbits_64_auto, util_getbitu_64, util_getbits_64, extend_sign,
}
use nav_caster.Rtcm.Message.{
  Facts, decode_station, decode_m1005, decode_m1006, decode_m1032, set_position, set_indicators,
}
use nav_caster.Rtcm.Reads.{getbitu-reads, getbitu-overrun}

module _ (msg : List ℕ) (start len : ℕ) where
  u_auto-reads :
      start + len ≤ 8 * length msg
      → 2 ^ len ≤ 2 ^ 64
      → (v : ℕ) × (util_getbitu_64_auto msg start len ≡ some (v, start + len))
  unfolding util_getbitu_64_auto
  u_auto-reads h w = let (v, e, b) = getbitu-reads msg start len h w in (v, rw (e, ◌>>=◌))

  s_auto-reads :
      start + len ≤ 8 * length msg
      → 2 ^ len ≤ 2 ^ 64
      → (z : ℤ) × (util_getbits_64_auto msg start len ≡ some (z, start + len))
  unfolding util_getbits_64_auto util_getbits_64
  s_auto-reads h w =
      let (v, e, b) = getbitu-reads msg start len h w in (extend_sign len v, rw (e, ◌>>=◌))

  u_auto-overrun :
      0 < len → 8 * length msg < start + len → util_getbitu_64_auto msg start len ≡ none
  unfolding util_getbitu_64_auto
  u_auto-overrun p h = rw (getbitu-overrun msg start len p h, ◌>>=◌)

  s_auto-overrun :
      0 < len → 8 * length msg < start + len → util_getbits_64_auto msg start len ≡ none
  unfolding util_getbits_64_auto util_getbits_64
  s_auto-overrun p h = rw (getbitu-overrun msg start len p h, ◌>>=◌)

  -- A read and what follows it fail if what follows fails at every value.
  u_auto-fails {ℓ} :
      {B : Type ℓ} (k : ℕ × ℕ → Option B)
      → ((v : ℕ) → k (v, start + len) ≡ none)
      → (util_getbitu_64_auto msg start len >>= k) ≡ none
  unfolding util_getbitu_64_auto
  u_auto-fails k h = elim (Option-cases (util_getbitu_64 msg start len)) [
    | inl e ↦ rw (e, ◌>>=◌)
    | inr (v, e) ↦ rw (e, ◌>>=◌) (h v)
  ]

  s_auto-fails {ℓ} :
      {B : Type ℓ} (k : ℤ × ℕ → Option B)
      → ((z : ℤ) → k (z, start + len) ≡ none)
      → (util_getbits_64_auto msg start len >>= k) ≡ none
  unfolding util_getbits_64_auto
  s_auto-fails k h = elim (Option-cases (util_getbits_64 msg start len)) [
    | inl e ↦ rw (e, ◌>>=◌)
    | inr (z, e) ↦ rw (e, ◌>>=◌) (h z)
  ]

safe_from {ℓ} :
    {A : Type ℓ} (n l : ℕ) (o : Option A)
    → (n ≤ l → (a : A) × (o ≡ some a))
    → (l < n → o ≡ none)
    → (o ≢ none) ↔ (n ≤ l)
safe_from n l o reads overrun = elim (Bool-cases (leb n l)) [
  | inl enough ↦ let le : n ≤ l = ground arith in let (a, e) = reads le in (λ h. le, λ h e'. cc)
  | inr short ↦
      let lt : l < n = ground arith in (λ h. absurd (h (overrun lt)), λ h. absurd (omega arith))
]

module _ (now : ℕ) (msg : List ℕ) (f : Facts) where
  decode_station-reads : 22 ≤ length msg → (g : Facts) × (decode_station now msg f ≡ some (g, 176))
  unfolding decode_station
  decode_station-reads h =
      let (v1, e1) = u_auto-reads msg 24 12 (omega arith) (omega arith) in
      let (v2, e2) = u_auto-reads msg 36 12 (omega arith) (omega arith) in
      let (v3, e3) = u_auto-reads msg 48 6 (omega arith) (omega arith) in
      let (v4, e4) = u_auto-reads msg 54 1 (omega arith) (omega arith) in
      let (v5, e5) = u_auto-reads msg 55 1 (omega arith) (omega arith) in
      let (v6, e6) = u_auto-reads msg 56 1 (omega arith) (omega arith) in
      let (v7, e7) = u_auto-reads msg 57 1 (omega arith) (omega arith) in
      let (x, e8) = s_auto-reads msg 58 38 (omega arith) (omega arith) in
      let (v9, e9) = u_auto-reads msg 96 1 (omega arith) (omega arith) in
      let (v10, e10) = u_auto-reads msg 97 1 (omega arith) (omega arith) in
      let (y, e11) = s_auto-reads msg 98 38 (omega arith) (omega arith) in
      let (v12, e12) = u_auto-reads msg 136 2 (omega arith) (omega arith) in
      let (z, e13) = s_auto-reads msg 138 38 (omega arith) (omega arith) in
      (
        set_position now x y z (set_indicators v4 v5 v6 f),
        rw (e1, ◌>>=◌, e2, e3, e4, e5, e6, e7, e8, e9, e10, e11, e12, e13),
      )

  decode_station-overrun : length msg < 22 → decode_station now msg f ≡ none
  unfolding decode_station
  decode_station-overrun h = u_auto-fails msg 24 12 _ λ v1. u_auto-fails msg 36 12 _ λ v2.
      u_auto-fails msg 48 6 _ λ v3. u_auto-fails msg 54 1 _ λ v4. u_auto-fails msg 55 1 _ λ v5.
        u_auto-fails msg 56 1 _ λ v6. u_auto-fails msg 57 1 _ λ v7. s_auto-fails msg 58 38 _ λ x.
          u_auto-fails msg 96 1 _ λ v9. u_auto-fails msg 97 1 _ λ v10. s_auto-fails msg 98 38 _ λ y.
            u_auto-fails msg 136 2 _
              λ v12. rw (s_auto-overrun msg 138 38 (omega arith) (omega arith), ◌>>=◌)

  m1005-reads : 22 ≤ length msg → (g : Facts) × (decode_m1005 now msg f ≡ some g)
  unfolding decode_m1005
  m1005-reads h = let (g, e) = decode_station-reads h in (g, rw (e, ◌>>=◌))

  m1005-overrun : length msg < 22 → decode_m1005 now msg f ≡ none
  unfolding decode_m1005
  m1005-overrun h = rw (decode_station-overrun h, ◌>>=◌)

  m1006-reads : 24 ≤ length msg → (g : Facts) × (decode_m1006 now msg f ≡ some g)
  unfolding decode_m1006
  m1006-reads h =
      let (g, e) = decode_station-reads (omega arith) in
      let (v, e') = u_auto-reads msg 176 16 (omega arith) (omega arith) in (g, rw (e, ◌>>=◌, e'))

  m1006-overrun : length msg < 24 → decode_m1006 now msg f ≡ none
  unfolding decode_m1006
  m1006-overrun h = elim (Bool-cases (leb 22 (length msg))) [
    | inl enough ↦
        let (g, e) = decode_station-reads (ground arith) in
        rw (e, ◌>>=◌, u_auto-overrun msg 176 16 (omega arith) (omega arith))
    | inr short ↦ rw (decode_station-overrun (ground arith), ◌>>=◌)
  ]

  m1032-reads : 23 ≤ length msg → (g : Facts) × (decode_m1032 now msg f ≡ some g)
  unfolding decode_m1032
  m1032-reads h =
      let (v1, e1) = u_auto-reads msg 24 12 (omega arith) (omega arith) in
      let (v2, e2) = u_auto-reads msg 36 12 (omega arith) (omega arith) in
      let (v3, e3) = u_auto-reads msg 48 12 (omega arith) (omega arith) in
      let (v4, e4) = u_auto-reads msg 60 6 (omega arith) (omega arith) in
      let (x, e5) = s_auto-reads msg 66 38 (omega arith) (omega arith) in
      let (y, e6) = s_auto-reads msg 104 38 (omega arith) (omega arith) in
      let (z, e7) = s_auto-reads msg 142 38 (omega arith) (omega arith) in
      (set_position now x y z f, rw (e1, ◌>>=◌, e2, e3, e4, e5, e6, e7))

  m1032-overrun : length msg < 23 → decode_m1032 now msg f ≡ none
  unfolding decode_m1032
  m1032-overrun h = u_auto-fails msg 24 12 _ λ v1. u_auto-fails msg 36 12 _ λ v2.
      u_auto-fails msg 48 12 _ λ v3. u_auto-fails msg 60 6 _ λ v4. s_auto-fails msg 66 38 _ λ x.
        s_auto-fails msg 104 38 _
          λ y. rw (s_auto-overrun msg 142 38 (omega arith) (omega arith), ◌>>=◌)

  -- The decoders of the station messages stay inside the message, which is its header, payload and
  -- checksum together, exactly if it has at least 22 bytes (1005), 24 bytes (1006) and 23 bytes
  -- (1032). Below that they read outside of the buffer.
  pub station_safe_iff :
      ((decode_m1005 now msg f ≢ none) ↔ (22 ≤ length msg))
      × ((decode_m1006 now msg f ≢ none) ↔ (24 ≤ length msg))
      × ((decode_m1032 now msg f ≢ none) ↔ (23 ≤ length msg))
  station_safe_iff = (
    safe_from 22 (length msg) _ m1005-reads m1005-overrun,
    safe_from 24 (length msg) _ m1006-reads m1006-overrun,
    safe_from 23 (length msg) _ m1032-reads m1032-overrun,
  )
