-- ===== src/Rtcm.antt =====
-- base/src/decode_rtcm.cpp: the stream decoder, decode_rtcm::Decode and what it calls. A buffer is
-- a list of bytes. `fault` stands for undefined behaviour (a read outside of a buffer, `front` or
-- `erase` on an empty vector), `unfinished` for a run that has used up its fuel.
pub mod Crc
pub mod Fields
pub mod Message
pub mod Counted
pub mod Stream
pub mod Chunks
pub mod Forward
pub mod Reads
pub mod Station
pub mod Frames
pub mod Examples
use nav_caster.Base.{
  ℕ, zero, suc, ◌+◌, ◌*◌, ◌/◌, ◌%◌, Bool, true, false, not, Option, none, some, List, [], ◌∷◌, ◌++◌,
  ◌==◌, ltb, if◌then◌else◌, length, take, drop, get_or,
}
use Crc.{cal_crc24}
use Message.{Facts, Clock, decode_at}

-- The members of `decode_rtcm`.
pub record Decoder : Type 0 where
  pub facts : Facts
  pub data_ : List ℕ
  pub msg : List ℕ
  pub recycle_back_flag : Bool
  pub recycle_front_flag : Bool
  pub recycle_back : List ℕ
  pub recycle_front : List ℕ

pub data Outcome {ℓ} (A : Type ℓ) : Type ℓ where
  done : A → Outcome A
  fault : Outcome A
  unfinished : Outcome A

abbrev pub msg_min_length : ℕ
msg_min_length = 3

abbrev pub msg_max_recycle : ℕ
msg_max_recycle = 1000000

-- `((_data[1] & 0x03) << 8) | _data[2]`, of bits apart.
unfoldable pub payload_length : List ℕ → ℕ
payload_length buf = get_or buf 1 0 % 4 * 256 + get_or buf 2 0

-- Sync and header, payload, checksum.
unfoldable pub message_length : List ℕ → ℕ
message_length buf = 3 + payload_length buf + 3

-- Called with more than three bytes in the buffer.
unfoldable pub check_header : List ℕ → ℕ
check_header buf = if get_or buf 0 0 == 0xD3 then message_length buf else 0

-- The three bytes behind the payload, of bits apart.
unfoldable pub extracted_crc : List ℕ → ℕ → ℕ
extracted_crc buf n = get_or buf n 0 * 65536 + get_or buf (n + 1) 0 * 256 + get_or buf (n + 2) 0

unfoldable pub message_id : List ℕ → ℕ
message_id m = get_or m 3 0 * 16 + get_or m 4 0 / 16

-- Returns the message's id, or 0 for a bad checksum.
unfoldable pub get_message : ℕ → Decoder → ℕ × Decoder
get_message msg_length d =
    let buf = d.data_ in
    let body = 3 + payload_length buf in
    if not (get_or buf 0 0 == 0xD3)
    then (0, d)
    else if not (cal_crc24 buf body == extracted_crc buf body)
    then (0, d)
    else (
      message_id (take (message_length buf) buf),
      record d { msg = take (message_length buf) buf; data_ = drop (message_length buf) buf },
    )

-- The byte at the front goes to the recycled ones, and the search goes on behind it.
unfoldable pub skip_byte : Decoder → Option Decoder
skip_byte d = elim d.data_ [
  | [] ↦ none
  | b ∷ rest ↦ some (record d {
    recycle_back = if d.recycle_back_flag then d.recycle_back else d.recycle_back ++ b ∷ [];
    data_ = rest;
  })
]

-- What is left over when the loop has ended.
unfoldable pub recycle_rest : Bool → Decoder → Decoder
recycle_rest true d = record d {
  recycle_back = d.recycle_back ++ d.data_;
  recycle_back_flag = true;
  data_ = [];
}
recycle_rest false d = record d {
  recycle_front = d.recycle_front ++ d.data_;
  recycle_front_flag = true;
  data_ = [];
}

-- A frame that is not yet complete waits for more data.
unfoldable pub keep_partial : Decoder → Decoder
keep_partial d = record d {
  recycle_front = d.data_ ++ d.recycle_front;
  recycle_front_flag = true;
  data_ = [];
}

-- How a round of the loop in Decode ends: the call returns, the behaviour is undefined, or the next
-- round follows.
pub data Round {ℓ} (A : Type ℓ) : Type ℓ where
  stop : A → Round A
  crash : Round A
  again : A → Round A

-- The branches `if (msg_length == 0)` and `if (id == 0)`.
unfoldable pub skip_round : Decoder → Round Decoder
unfolding skip_byte
skip_round d = elim (skip_byte d) [ none ↦ crash | some next ↦ again next ]

-- The round from `int id = get_message(msg_length)` on.
unfoldable pub message_round : Clock → ℕ × Decoder → Round Decoder
message_round clock (id, d) =
    if id == 0 then skip_round d else elim (decode_at id clock d.msg d.facts) [
      | none ↦ crash
      | some facts ↦ again (record d { recycle_front_flag = true; facts = facts; msg = [] })
    ]

unfoldable pub search_round : Clock → Decoder → Round Decoder
search_round clock d =
    let msg_length = check_header d.data_ in
    if msg_length == 0
    then skip_round d
    else if ltb (length d.data_) msg_length
    then stop (keep_partial d)
    else message_round clock (get_message msg_length d)

-- A round, with the loop's test and what stands behind the loop.
unfoldable pub decode_round : Clock → Bool → Decoder → Round Decoder
decode_round clock reverse d =
    if ltb msg_min_length (length d.data_)
    then search_round clock d
    else stop (recycle_rest reverse d)

unfoldable pub decode_loop : ℕ → Clock → Bool → Decoder → Outcome Decoder
decode_loop zero clock reverse d = unfinished
decode_loop (suc f) clock reverse d = elim (decode_round clock reverse d) [
  | stop last ↦ done last
  | crash ↦ fault
  | again next ↦ decode_loop f clock reverse next
]

unfoldable pub clear_if_large : List ℕ → List ℕ
clear_if_large xs = if ltb msg_max_recycle (length xs) then [] else xs

-- The buffer in which Decode searches: new data in front of what a reverse call left over, or
-- behind what a forward call left over.
unfoldable pub joined : List ℕ → Bool → Decoder → List ℕ
unfolding clear_if_large
joined buffer true d = buffer ++ d.data_ ++ clear_if_large d.recycle_back
joined buffer false d = clear_if_large d.recycle_front ++ d.data_ ++ buffer

unfoldable pub decode : Clock → List ℕ → Bool → Decoder → Outcome Decoder
unfolding joined
decode clock buffer reverse d =
    decode_loop (suc (length (joined buffer reverse d))) clock reverse (record d {
      data_ = joined buffer reverse d;
      recycle_back = [];
      recycle_front = [];
      recycle_back_flag = false;
      recycle_front_flag = false;
    })
