-- ===== src/Rtcm/Stream.antt =====
-- The forward search of decode_rtcm::Decode as a function of the bytes alone, and what follows for
-- a stream that arrives in pieces.
use mathlib.Core.List.{append-nil}
use nav_caster.Base.{
  ℕ, zero, suc, ◌+◌, ◌≤◌, ◌<◌, ◌≡◌, refl, ap, ◌∙◌, inl, inr, Bool, true, false, not, none, some,
  List, [], ◌∷◌, arith, ◌==◌, ltb, if◌then◌else◌, length, take, drop, get_or, Bool-cases,
}
use nav_caster.Rtcm.Crc.{cal_crc24}
use nav_caster.Rtcm.Message.{Facts, Clock, decode_at}
use nav_caster.Rtcm.{
  Decoder, Outcome, done, fault, unfinished, payload_length, message_length, check_header,
  extracted_crc, message_id, get_message, recycle_rest, keep_partial, decode_loop, Round, stop,
  crash, again, skip_round, message_round, search_round, decode_round,
}

-- A round of the forward search, as it acts on the bytes and on what has been learned.
unfoldable pub scan_message : Clock → ℕ → List ℕ → List ℕ → Facts → Round (Facts × List ℕ)
scan_message clock id msg [] facts =
    if id == 0
    then crash
    else elim (decode_at id clock msg facts) [ none ↦ crash | some g ↦ again (g, []) ]
scan_message clock id msg (b ∷ rest) facts =
    if id == 0
    then again (facts, rest)
    else elim (decode_at id clock msg facts) [ none ↦ crash | some g ↦ again (g, b ∷ rest) ]

unfoldable pub valid_crc : List ℕ → Bool
valid_crc buf = cal_crc24 buf (3 + payload_length buf) == extracted_crc buf (3 + payload_length buf)

unfoldable pub scan_round : Clock → List ℕ → Facts → Round (Facts × List ℕ)
scan_round clock buf facts =
    let n = message_length buf in
    if not (ltb 3 (length buf))
    then stop (facts, buf)
    else if not (get_or buf 0 0 == 0xD3)
    then again (facts, drop 1 buf)
    else if ltb (length buf) n
    then stop (facts, buf)
    else if not (valid_crc buf)
    then again (facts, drop 1 buf)
    else scan_message clock (message_id (take n buf)) (take n buf) (drop n buf) facts

unfoldable pub scan : ℕ → Clock → List ℕ → Facts → Outcome (Facts × List ℕ)
scan zero clock buf facts = unfinished
scan (suc f) clock buf facts = elim (scan_round clock buf facts) [
  | stop last ↦ done last
  | crash ↦ fault
  | again (g, rest) ↦ scan f clock rest g
]

-- What a later forward call reads of the decoder.
abbrev pub view : Outcome Decoder → Outcome (Facts × List ℕ)
view (done d) = done (d.facts, d.recycle_front)
view fault = fault
view unfinished = unfinished

pub message_length_bound : (buf : List ℕ) → 6 ≤ message_length buf
unfolding message_length
message_length_bound buf = omega arith

abbrev view_round : Round Decoder → Round (Facts × List ℕ)
view_round (stop d) = stop (d.facts, d.recycle_front)
view_round crash = crash
view_round (again d) = again (d.facts, d.data_)

message_round-view :
    (clock : Clock) (id : ℕ) (d : Decoder) (rest : List ℕ)
    → d.data_ ≡ rest
    → view_round (message_round clock (id, d)) ≡ scan_message clock id d.msg rest d.facts
unfolding message_round scan_message skip_round
message_round-view clock id d [] e = ground arith
message_round-view clock id d (b ∷ rest) e = ground arith

skip_round-view :
    (d : Decoder) → 0 < length d.data_ → view_round (skip_round d) ≡ again (d.facts, drop 1 d.data_)
unfolding skip_round
skip_round-view d h = ground arith

message_round-zero : (clock : Clock) (d : Decoder) → message_round clock (0, d) ≡ skip_round d
unfolding message_round
message_round-zero clock d = refl

taken : Decoder → Decoder
taken d = record d {
  msg = take (message_length d.data_) d.data_;
  data_ = drop (message_length d.data_) d.data_;
}

get_message_lem :
    (n : ℕ) (d : Decoder)
    → get_or d.data_ 0 0 == 0xD3 ≡ true
    → get_message n d ≡ (
        if not (valid_crc d.data_)
        then (0, d)
        else (message_id (take (message_length d.data_) d.data_), taken d))
unfolding get_message valid_crc taken
get_message_lem n d h = rw h

search_round-view :
    (clock : Clock) (d : Decoder)
    → d.recycle_front ≡ []
    → ltb 3 (length d.data_) ≡ true
    → view_round (search_round clock d) ≡ scan_round clock d.data_ d.facts
unfolding search_round scan_round check_header keep_partial taken
search_round-view clock d e h = elim (Bool-cases (get_or d.data_ 0 0 == 0xD3)) [
  | inl sync ↦ ground (
    arith,
    get_message_lem (message_length d.data_) d sync,
    message_length_bound d.data_,
    message_round-zero clock d,
    message_round-view clock (message_id (take (message_length d.data_) d.data_)) (taken d)
        (drop (message_length d.data_) d.data_) refl,
    skip_round-view d,
    append-nil d.data_,
  )
  | inr other ↦ ground (arith, skip_round-view d)
]

decode_round-view :
    (clock : Clock) (d : Decoder)
    → d.recycle_front ≡ []
    → view_round (decode_round clock false d) ≡ scan_round clock d.data_ d.facts
unfolding decode_round recycle_rest scan_round
decode_round-view clock d e = elim (Bool-cases (ltb 3 (length d.data_))) [
  | inl more ↦ ground (arith, search_round-view clock d e more)
  | inr few ↦ ground arith
]

-- A round that is followed by another has put nothing into the forward recycling buffer.
abbrev FrontEmpty : Round Decoder → Type 0
FrontEmpty (again d) = d.recycle_front ≡ []
FrontEmpty r = Unit {0}

skip_round-FrontEmpty : (d : Decoder) → d.recycle_front ≡ [] → FrontEmpty (skip_round d)
unfolding skip_round
skip_round-FrontEmpty d e = ground arith

message_round-FrontEmpty :
    (clock : Clock) (id : ℕ) (d : Decoder)
    → d.recycle_front ≡ []
    → FrontEmpty (message_round clock (id, d))
unfolding message_round
message_round-FrontEmpty clock id d e = ground (arith, skip_round-FrontEmpty d e)

decode_round-FrontEmpty :
    (clock : Clock) (d : Decoder) → d.recycle_front ≡ [] → FrontEmpty (decode_round clock false d)
unfolding decode_round search_round get_message taken
decode_round-FrontEmpty clock d e = ground (
  arith,
  skip_round-FrontEmpty d e,
  message_round-FrontEmpty clock 0 d e,
  message_round-FrontEmpty clock (message_id (take (message_length d.data_) d.data_)) (taken d) e,
)

-- The loop on a decoder and the scan of its bytes go together.
pub loop-scan :
    (f : ℕ) (clock : Clock) (d : Decoder)
    → d.recycle_front ≡ []
    → view (decode_loop f clock false d) ≡ scan f clock d.data_ d.facts
unfolding decode_loop scan
loop-scan zero clock d e = refl
loop-scan (suc f) clock d e =
    go (decode_round clock false d) (decode_round-FrontEmpty clock d e) (loop-scan f clock)
      (decode_round-view clock d e)
  where
    after : Round (Facts × List ℕ) → Outcome (Facts × List ℕ)
    after r = elim r [
      | stop last ↦ done last
      | crash ↦ fault
      | again (g, rest) ↦ scan f clock rest g
    ]

    go :
        (r : Round Decoder)
        → FrontEmpty r
        → ((n : Decoder)
            → n.recycle_front ≡ []
            → view (decode_loop f clock false n) ≡ scan f clock n.data_ n.facts)
        → {s : Round (Facts × List ℕ)} → view_round r ≡ s
        → view (elim r [
          | stop last ↦ done last
          | crash ↦ fault
          | again next ↦ decode_loop f clock false next
        ])
          ≡ after s
    go (stop d') fe ih p = ap after p
    go crash fe ih p = ap after p
    go (again n) fe ih p = ih n fe ∙ ap after p
