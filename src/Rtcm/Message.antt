-- ===== src/Rtcm/Message.antt =====
-- base/src/decode_rtcm.cpp and base/include/decode_rtcm.h: what is learned from a decoded message.
-- ECEF coordinates are kept in units of 0.0001 m, the integers that the source multiplies by 0.0001.
-- Times are seconds; a clock that goes back counts as standing still, which no test tells apart.
use nav_caster.Base.{
  ℕ, ◌+◌, ◌-◌, ◌*◌, ◌/◌, Bool, true, ◌&&◌, ◌||◌, Option, some, List, [], ◌∷◌, ◌==◌, ltb, leb,
  if◌then◌else◌,
}
use nav_caster.Base.Int.{ℤ}
use nav_caster.Rtcm.Fields.{◌>>=◌, util_getbitu_64_auto, util_getbits_64_auto}

pub record MsgStat : Type 0 where
  pub count : ℕ
  pub first_time : ℕ
  pub last_time : ℕ
  pub window_count : ℕ
  pub window_start : ℕ
  pub interval : ℕ

-- `MsgStat{}`
abbrev pub new_stat : MsgStat
new_stat = record {
  count = 0;
  first_time = 0;
  last_time = 0;
  window_count = 0;
  window_start = 0;
  interval = 1;
}

-- The public members of `decode_rtcm`, apart from its buffers.
pub record Facts : Type 0 where
  pub has_position : Bool
  pub ecef_x : ℤ
  pub ecef_y : ℤ
  pub ecef_z : ℤ
  pub position_update_time : ℕ
  pub msg_stats : List (ℕ × MsgStat)
  pub gps_indicator : Bool
  pub glo_indicator : Bool
  pub gal_indicator : Bool
  pub bds_indicator : Bool
  pub qzss_indicator : Bool
  pub sbas_indicator : Bool
  pub navic_indicator : Bool

-- `_msg_stats[id]`, which makes an entry for a new id.
unfoldable pub stat_of : ℕ → List (ℕ × MsgStat) → MsgStat
stat_of id [] = new_stat
stat_of id ((i, s) ∷ stats) = if i == id then s else stat_of id stats

unfoldable pub set_stat : ℕ → MsgStat → List (ℕ × MsgStat) → List (ℕ × MsgStat)
set_stat id s [] = (id, s) ∷ []
set_stat id s ((i, t) ∷ stats) = if i == id then (i, s) ∷ stats else (i, t) ∷ set_stat id s stats

-- `std::round(elapsed / n)` for non-negative numbers.
abbrev pub round_div : ℕ → ℕ → ℕ
round_div a n = (2 * a + n) / (2 * n)

-- The window of a statistic that has been counted.
unfoldable pub update_window : ℕ → MsgStat → MsgStat
update_window now s =
    let counted = record s { window_count = s.window_count + 1 } in
    let elapsed = now - s.window_start in
    let interval = round_div elapsed s.window_count in
    if counted.window_count == 1
    then record counted { window_start = now }
    else if leb 300 elapsed
    then record counted {
      interval = if ltb interval 1 then 1 else interval;
      window_count = 1;
      window_start = now;
    }
    else counted

unfoldable pub update_stat : ℕ → MsgStat → MsgStat
unfolding update_window
update_stat now s = update_window now (record s {
  first_time = if s.count == 0 then now else s.first_time;
  last_time = now;
  count = s.count + 1;
})

abbrev pub within : ℕ → ℕ → ℕ → Bool
within lo hi id = leb lo id && leb id hi

-- The satellite system of an MSM message.
unfoldable pub mark_system : ℕ → Facts → Facts
mark_system id f =
    if within 1071 1077 id
    then record f { gps_indicator = true }
    else if within 1081 1087 id
    then record f { glo_indicator = true }
    else if within 1091 1097 id
    then record f { gal_indicator = true }
    else if within 1101 1107 id
    then record f { sbas_indicator = true }
    else if within 1111 1117 id
    then record f { qzss_indicator = true }
    else if within 1121 1127 id
    then record f { bds_indicator = true }
    else if within 1131 1137 id
    then record f { navic_indicator = true }
    else f

unfoldable pub set_position : ℕ → ℤ → ℤ → ℤ → Facts → Facts
set_position now x y z f = record f {
  position_update_time = now;
  has_position = true;
  ecef_x = x;
  ecef_y = y;
  ecef_z = z;
}

unfoldable pub set_indicators : ℕ → ℕ → ℕ → Facts → Facts
set_indicators gps glo gal f = record f {
  gps_indicator = if gps == 0 then f.gps_indicator else true;
  glo_indicator = if glo == 0 then f.glo_indicator else true;
  gal_indicator = if gal == 0 then f.gal_indicator else true;
}

-- The fields that 1005 and 1006 share, from bit 24 on; the position behind them is returned too.
unfoldable pub decode_station : ℕ → List ℕ → Facts → Option (Facts × ℕ)
decode_station now msg f = do
  (message_id, c1) ← util_getbitu_64_auto msg 24 12
  (ref_id, c2) ← util_getbitu_64_auto msg c1 12
  (resv, c3) ← util_getbitu_64_auto msg c2 6
  (gps, c4) ← util_getbitu_64_auto msg c3 1
  (glo, c5) ← util_getbitu_64_auto msg c4 1
  (gal, c6) ← util_getbitu_64_auto msg c5 1
  (ref, c7) ← util_getbitu_64_auto msg c6 1
  (x, c8) ← util_getbits_64_auto msg c7 38
  (osc, c9) ← util_getbitu_64_auto msg c8 1
  (spare, c10) ← util_getbitu_64_auto msg c9 1
  (y, c11) ← util_getbits_64_auto msg c10 38
  (quarter, c12) ← util_getbitu_64_auto msg c11 2
  (z, c13) ← util_getbits_64_auto msg c12 38
  some (set_position now x y z (set_indicators gps glo gal f), c13)

unfoldable pub decode_m1005 : ℕ → List ℕ → Facts → Option Facts
unfolding decode_station
decode_m1005 now msg f = do (g, ctx) ← decode_station now msg f; some g

-- The antenna height that 1006 adds is read and dropped.
unfoldable pub decode_m1006 : ℕ → List ℕ → Facts → Option Facts
unfolding decode_station
decode_m1006 now msg f = do
  (g, ctx) ← decode_station now msg f
  (ant_h, ctx') ← util_getbitu_64_auto msg ctx 16
  some g

unfoldable pub decode_m1032 : ℕ → List ℕ → Facts → Option Facts
decode_m1032 now msg f = do
  (message_id, c1) ← util_getbitu_64_auto msg 24 12
  (non_id, c2) ← util_getbitu_64_auto msg c1 12
  (ref_id, c3) ← util_getbitu_64_auto msg c2 12
  (resv, c4) ← util_getbitu_64_auto msg c3 6
  (x, c5) ← util_getbits_64_auto msg c4 38
  (y, c6) ← util_getbits_64_auto msg c5 38
  (z, c7) ← util_getbits_64_auto msg c6 38
  some (set_position now x y z f)

-- The contents of a message: SSR and MSM messages and the other cases of the switch have none here.
unfoldable pub decode_body : ℕ → ℕ → List ℕ → Facts → Option Facts
decode_body id now msg f =
    if within 1057 1068 id || within 1240 1270 id || id == 4076
    then some f
    else if within 1070 1237 id
    then some f
    else if id == 1005
    then decode_m1005 now msg f
    else if id == 1006
    then decode_m1006 now msg f
    else if id == 1032
    then decode_m1032 now msg f
    else some f

unfoldable pub decode_message : ℕ → ℕ → List ℕ → Facts → Option Facts
decode_message id now msg f =
    let stat = update_stat now (stat_of id f.msg_stats) in
    decode_body id now msg (mark_system id (record f { msg_stats = set_stat id stat f.msg_stats }))

-- The number of messages that have been decoded.
unfoldable pub messages : List (ℕ × MsgStat) → ℕ
messages [] = 0
messages ((i, s) ∷ stats) = s.count + messages stats

-- The second in which a decoder decodes its message of each number, counted from 0.
abbrev pub Clock : Type 0
Clock = ℕ → ℕ

-- util_get_now_second is read while a message is decoded; both readings of one message give the same
-- second.
unfoldable pub decode_at : ℕ → Clock → List ℕ → Facts → Option Facts
unfolding messages decode_message
decode_at id clock msg f = decode_message id (clock (messages f.msg_stats)) msg f
