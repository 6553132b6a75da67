-- ===== src/Rtcm/Examples.antt =====
-- The RTCM decoder at concrete streams.
use nav_caster.Base.{
  ℕ, ◌≡◌, ◌≢◌, ◌≤◌, refl, ◌↔◌, true, false, none, some, List, [], ◌∷◌, ◌++◌, arith,
}
use nav_caster.Base.Int.{pos, negsuc}
use nav_caster.Rtcm.{
  Decoder, done, fault, unfinished, decode, decode_loop, decode_round, search_round, check_header,
  skip_round, skip_byte, keep_partial, payload_length, message_length, message_id,
}
use nav_caster.Rtcm.Message.{Facts, Clock, decode_m1005, decode_m1006, decode_m1032}
use nav_caster.Rtcm.Fields.{util_getbitu_64, util_getbits_64}
use nav_caster.Rtcm.Crc.{AllBytes}
use nav_caster.Rtcm.Stream.{view}
use nav_caster.Rtcm.Forward.{IsReady, decode-IsReady, decode-append, decode-ends}
use nav_caster.Rtcm.Frames.{frame, stream, learn, nothing_left, decode-frames, decode-zero_id}
use nav_caster.Rtcm.Reads.{field38, getbits-field38}
use nav_caster.Rtcm.Station.{station_safe_iff}

abbrev no_facts : Facts
no_facts = record {
  has_position = false;
  ecef_x = pos 0;
  ecef_y = pos 0;
  ecef_z = pos 0;
  position_update_time = 0;
  msg_stats = [];
  gps_indicator = false;
  glo_indicator = false;
  gal_indicator = false;
  bds_indicator = false;
  qzss_indicator = false;
  sbas_indicator = false;
  navic_indicator = false;
}

abbrev idle : Decoder
idle = record {
  facts = no_facts;
  data_ = [];
  msg = [];
  recycle_back_flag = false;
  recycle_front_flag = false;
  recycle_back = [];
  recycle_front = [];
}

idle-IsReady : IsReady idle
idle-IsReady = record { drained = refl; bytes = tt; partial = omega arith }

-- A message each second.
abbrev clock : Clock
clock n = n

-- A stray byte, and the start of a frame.
abbrev noise : List ℕ
noise = 0x41 ∷ 0xD3 ∷ 0 ∷ 2 ∷ 0x3E ∷ []

abbrev waiting : Decoder
waiting = record idle {
  recycle_front_flag = true;
  recycle_back = 0x41 ∷ [];
  recycle_front = 0xD3 ∷ 0 ∷ 2 ∷ 0x3E ∷ [];
}

noise-bytes : AllBytes noise
noise-bytes = (omega arith, (omega arith, (omega arith, (omega arith, (omega arith, tt)))))

noise-decode : decode clock noise false idle ≡ done waiting
unfolding decode decode_loop decode_round search_round check_header skip_round skip_byte
    keep_partial message_length payload_length
noise-decode = refl

decode-IsReady_example : IsReady waiting
decode-IsReady_example =
    decode-IsReady clock noise idle waiting idle-IsReady noise-bytes noise-decode

decode-append_example :
    view (decode clock (0x80 ∷ []) false waiting)
    ≡ view (decode clock (noise ++ 0x80 ∷ []) false idle)
decode-append_example =
    decode-append clock noise idle waiting idle-IsReady noise-bytes noise-decode (0x80 ∷ [])

decode-ends_example : decode clock noise false idle ≢ unfinished
decode-ends_example = decode-ends clock noise idle idle-IsReady

-- Messages 1000 and 1001, of two bytes each.
abbrev payloads : List (List ℕ)
payloads = (0x3E ∷ 0x80 ∷ []) ∷ (0x3E ∷ 0x90 ∷ []) ∷ []

id_1000 : message_id (frame (0x3E ∷ 0x80 ∷ [])) ≢ 0
unfolding message_id frame
id_1000 = omega arith

id_1001 : message_id (frame (0x3E ∷ 0x90 ∷ [])) ≢ 0
unfolding message_id frame
id_1001 = omega arith

decode-frames_example :
    view (decode clock (stream payloads) false idle) ≡ nothing_left (learn clock payloads no_facts)
decode-frames_example = decode-frames clock payloads idle idle-IsReady refl (
  (omega arith, (omega arith, tt)),
  (omega arith, (id_1000, ((omega arith, (omega arith, tt)), (omega arith, (id_1001, tt))))),
)

id_0 : message_id (frame (0 ∷ 0 ∷ [])) ≡ 0
unfolding message_id frame
id_0 = refl

decode-zero_id_example : decode clock (frame (0 ∷ 0 ∷ [])) false idle ≡ fault
decode-zero_id_example =
    decode-zero_id clock (0 ∷ 0 ∷ []) idle idle-IsReady refl (omega arith, (omega arith, tt))
      (omega arith) id_0

station_safe_iff_example :
    ((decode_m1005 0 (0xD3 ∷ []) no_facts ≢ none) ↔ (22 ≤ 1))
    × ((decode_m1006 0 (0xD3 ∷ []) no_facts ≢ none) ↔ (24 ≤ 1))
    × ((decode_m1032 0 (0xD3 ∷ []) no_facts ≢ none) ↔ (23 ≤ 1))
station_safe_iff_example = station_safe_iff 0 (0xD3 ∷ []) no_facts

minus_one : util_getbitu_64 (0xFF ∷ 0xFF ∷ 0xFF ∷ 0xFF ∷ 0xFF ∷ []) 1 38 ≡ some (field38 (negsuc 0))
unfolding util_getbitu_64
minus_one = refl

getbits-field38_example :
    util_getbits_64 (0xFF ∷ 0xFF ∷ 0xFF ∷ 0xFF ∷ 0xFF ∷ []) 1 38 ≡ some (negsuc 0)
getbits-field38_example =
    getbits-field38 (0xFF ∷ 0xFF ∷ 0xFF ∷ 0xFF ∷ 0xFF ∷ []) 1 (negsuc 0) (omega arith) minus_one
