-- ===== src/Rtcm/Frames.antt =====
-- RTCM 3 framing, as the comment in decode_rtcm::check_header draws it, and Decode on framed data.
use mathlib.Core.List.{append-nil, append_assoc}
use nav_caster.Base.{
  ℕ, zero, suc, ◌+◌, ◌/◌, ◌%◌, ◌^◌, ◌<◌, ◌≡◌, refl, sym, ap, ◌∙◌, ◌≢◌, true, false, Option, none,
  some, List, [], ◌∷◌, ◌++◌, arith, ◌==◌, length, drop, get_or, take, length-append, take-append_le,
  drop-append_le, get_or-append_lt, ==_self, Option-cases, inl, inr,
}
use nav_caster.Rtcm.Crc.{AllBytes, cal_crc24, crc24_from_bound}
use nav_caster.Rtcm.Message.{Facts, Clock, decode_at}
use nav_caster.Rtcm.{
  Decoder, Outcome, done, fault, unfinished, payload_length, message_length, message_id,
  extracted_crc, decode, Round, crash, again,
}
use nav_caster.Rtcm.Stream.{scan_message, scan_round, scan, valid_crc, view}
use nav_caster.Rtcm.Chunks.{scan-stop, scan-again, scan-crash}
use nav_caster.Rtcm.Forward.{IsReady, decode-scan}

abbrev pub header : List ℕ → List ℕ
header payload = 0xD3 ∷ (length payload / 256) ∷ (length payload % 256) ∷ payload

abbrev checksum : List ℕ → ℕ
checksum body = cal_crc24 body (length body)

abbrev crc_bytes : ℕ → List ℕ
crc_bytes c = (c / 65536) ∷ (c / 256 % 256) ∷ (c % 256) ∷ []

-- Preamble, six zero bits, ten bits of length, payload, parity.
unfoldable pub frame : List ℕ → List ℕ
frame payload = header payload ++ crc_bytes (checksum (header payload))

take_all {ℓ} : {A : Type ℓ} (xs : List A) → take (length xs) xs ≡ xs
take_all [] = refl
take_all (x ∷ xs) = ap (◌∷◌ x) (take_all xs)

drop_all {ℓ} : {A : Type ℓ} (xs : List A) → drop (length xs) xs ≡ []
drop_all [] = refl
drop_all (x ∷ xs) = drop_all xs

get_or-append_ge : (xs ys : List ℕ) (i : ℕ) → get_or (xs ++ ys) (length xs + i) 0 ≡ get_or ys i 0
get_or-append_ge [] ys i = ap (λ k. get_or ys k 0) (omega arith)
get_or-append_ge (x ∷ xs) ys i =
    ap (λ k. get_or (x ∷ (xs ++ ys)) k 0) shift ∙ get_or-append_ge xs ys i
  where
    shift : suc (length xs) + i ≡ suc (length xs + i)
    shift = omega arith

checksum_bound : (body : List ℕ) → AllBytes body → checksum body < 2 ^ 24
unfolding cal_crc24
checksum_bound body p = rw (take_all body) (crc24_from_bound body 0 p (omega arith))

cal_crc24-append : (body more : List ℕ) → cal_crc24 (body ++ more) (length body) ≡ checksum body
unfolding cal_crc24
cal_crc24-append body more = rw (take-append_le (length body) body more (omega arith))

extracted_crc-append :
    (body : List ℕ) (c : ℕ) → c < 2 ^ 24 → extracted_crc (body ++ crc_bytes c) (length body) ≡ c
unfolding extracted_crc
extracted_crc-append body c h =
    rw
      (
        ap (λ k. get_or (body ++ crc_bytes c) k 0) (zeroth (length body)),
        get_or-append_ge body (crc_bytes c) 0,
        get_or-append_ge body (crc_bytes c) 1,
        get_or-append_ge body (crc_bytes c) 2,
      )
      (omega arith)
  where
    zeroth : (n : ℕ) → n ≡ n + 0
    zeroth n = omega arith

extracted_crc-append_lt :
    (xs ys : List ℕ) (n : ℕ) → n + 2 < length xs → extracted_crc (xs ++ ys) n ≡ extracted_crc xs n
unfolding extracted_crc
extracted_crc-append_lt xs ys n h =
    rw
      (
        get_or-append_lt xs ys n 0 (omega (arith, h)),
        get_or-append_lt xs ys (n + 1) 0 (omega (arith, h)),
        get_or-append_lt xs ys (n + 2) 0 h,
      )
      refl

module _ (payload : List ℕ) (bytes : AllBytes payload) (short : length payload < 1024) where
  length-frame : length (frame payload) ≡ length payload + 6
  unfolding frame
  length-frame = omega (arith, length-append payload (crc_bytes (checksum (header payload))))

  message_length-frame :
      (rest : List ℕ) → message_length (frame payload ++ rest) ≡ length payload + 6
  unfolding message_length payload_length frame
  message_length-frame rest = omega arith

  body_length :
      (rest : List ℕ) → 3 + payload_length (frame payload ++ rest) ≡ length (header payload)
  unfolding payload_length frame
  body_length rest = omega arith

  parity-frame :
      (rest : List ℕ)
      → extracted_crc (frame payload ++ rest) (length (header payload)) ≡ checksum (header payload)
  unfolding frame
  parity-frame rest =
      extracted_crc-append_lt (header payload ++ crc_bytes (checksum (header payload))) rest
        (length (header payload))
        (omega (arith, length-append (header payload) (crc_bytes (checksum (header payload)))))
      ∙ extracted_crc-append (header payload) (checksum (header payload))
          (checksum_bound (header payload) (omega arith, (omega arith, (omega arith, bytes))))

  covered-frame :
      (rest : List ℕ)
      → cal_crc24 (frame payload ++ rest) (length (header payload)) ≡ checksum (header payload)
  unfolding frame
  covered-frame rest =
      ap (λ xs. cal_crc24 xs (length (header payload)))
        (append_assoc (header payload) (crc_bytes (checksum (header payload))) rest)
      ∙ cal_crc24-append (header payload) (crc_bytes (checksum (header payload)) ++ rest)

  valid_crc-frame : (rest : List ℕ) → valid_crc (frame payload ++ rest) ≡ true
  unfolding valid_crc
  valid_crc-frame rest =
      rw (body_length rest, parity-frame rest, covered-frame rest)
        (==_self (checksum (header payload)))

  starts : (rest : List ℕ) → get_or (frame payload ++ rest) 0 0 == 0xD3 ≡ true
  unfolding frame
  starts rest = refl

  frame-scan :
      (clock : Clock) (rest : List ℕ) (facts : Facts)
      → scan_round clock (frame payload ++ rest) facts
        ≡ scan_message clock (message_id (frame payload)) (frame payload) rest facts
  unfolding scan_round
  frame-scan clock rest facts = ground (
    arith,
    valid_crc-frame rest,
    message_length-frame rest ∙ sym length-frame,
    length-frame,
    length-append (frame payload) rest,
    starts rest,
    take-append_le (length (frame payload)) (frame payload) rest (omega arith)
        ∙ take_all (frame payload),
    drop-append_le (length (frame payload)) (frame payload) rest (omega arith)
        ∙ ap (λ xs. xs ++ rest) (drop_all (frame payload)),
  )

-- The messages of a stream, each decoded with what those before it have taught.
pub learn : Clock → List (List ℕ) → Facts → Outcome Facts
learn clock [] facts = done facts
learn clock (p ∷ ps) facts = elim (decode_at (message_id (frame p)) clock (frame p) facts) [
  | none ↦ fault
  | some g ↦ learn clock ps g
]

abbrev pub stream : List (List ℕ) → List ℕ
stream [] = []
stream (p ∷ ps) = frame p ++ stream ps

-- Payloads of bytes, of a length that ten bits hold, whose message number is not 0.
abbrev pub Payloads : List (List ℕ) → Type 0
Payloads [] = Unit {0}
Payloads (p ∷ ps) = AllBytes p × ((length p < 1024) × ((message_id (frame p) ≢ 0) × Payloads ps))

abbrev pub nothing_left : Outcome Facts → Outcome (Facts × List ℕ)
nothing_left (done g) = done (g, [])
nothing_left fault = fault
nothing_left unfinished = unfinished

scan_message-nonzero :
    (clock : Clock) (id : ℕ) (msg rest : List ℕ) (facts : Facts)
    → id ≢ 0
    → scan_message clock id msg rest facts
      ≡ elim (decode_at id clock msg facts) [ none ↦ crash | some g ↦ again (g, rest) ]
unfolding scan_message
scan_message-nonzero clock id msg [] facts h = ground arith
scan_message-nonzero clock id msg (b ∷ rest) facts h = ground arith

stream-scan :
    (f : ℕ) (clock : Clock) (payloads : List (List ℕ)) (facts : Facts)
    → Payloads payloads
    → length (stream payloads) < f
    → scan f clock (stream payloads) facts ≡ nothing_left (learn clock payloads facts)
unfolding learn
stream-scan zero clock payloads facts ps h = absurd (omega arith)
stream-scan (suc f) clock [] facts ps h =
    scan-stop f clock [] facts (facts, []) (unfold scan_round in refl)
stream-scan (suc f) clock (p ∷ payloads) facts ps h =
    elim (Option-cases (decode_at (message_id (frame p)) clock (frame p) facts)) [
      | inl e ↦
          scan-crash f clock (frame p ++ stream payloads) facts (round e)
          ∙ ap nothing_left (sym (learned e))
      | inr (g, e) ↦
          scan-again f clock (frame p ++ stream payloads) facts g (stream payloads) (round e)
          ∙ stream-scan f clock payloads g ps.1.1.1
              (omega (arith, length-frame p ps.0 ps.1.0, length-append (frame p) (stream payloads)))
          ∙ ap nothing_left (sym (learned e))
    ]
  where
    after : Option Facts → Round (Facts × List ℕ)
    after r = elim r [ none ↦ crash | some g ↦ again (g, stream payloads) ]

    round :
        {r : Option Facts}
        → decode_at (message_id (frame p)) clock (frame p) facts ≡ r
        → scan_round clock (frame p ++ stream payloads) facts ≡ after r
    round e =
        frame-scan p ps.0 ps.1.0 clock (stream payloads) facts
        ∙ scan_message-nonzero clock (message_id (frame p)) (frame p) (stream payloads) facts
            ps.1.1.0
        ∙ ap after e

    learned :
        {r : Option Facts}
        → decode_at (message_id (frame p)) clock (frame p) facts ≡ r
        → learn clock (p ∷ payloads) facts
          ≡ elim r [ none ↦ fault | some g ↦ learn clock payloads g ]
    learned e = ap (λ r. elim r [ none ↦ fault | some g ↦ learn clock payloads g ]) e

-- A ready decoder that has kept nothing, given one or several whole frames one behind the other,
-- finds each of them and no other: it decodes their messages in order, each with what those before
-- it have taught, and has nothing left (or meets the undefined behaviour that decoding one of the
-- messages meets). The payloads are bytes, at most 1023, and no message number is 0.
pub decode-frames :
    (clock : Clock) (payloads : List (List ℕ)) (d : Decoder)
    → IsReady d
    → d.recycle_front ≡ []
    → Payloads payloads
    → view (decode clock (stream payloads) false d) ≡ nothing_left (learn clock payloads d.facts)
decode-frames clock payloads d ready empty ps =
    decode-scan clock (stream payloads) d ready
    ∙ ap
        (λ front.
          scan (suc (length (front ++ stream payloads))) clock (front ++ stream payloads) d.facts)
        empty
    ∙ stream-scan (suc (length (stream payloads))) clock payloads d.facts ps (omega arith)

view-fault : (o : Outcome Decoder) → view o ≡ fault → o ≡ fault
view-fault (done d) e = cc
view-fault fault e = refl
view-fault unfinished e = cc

-- A decoder that is ready and has kept nothing, given one whole frame whose message number is 0,
-- has undefined behaviour: the frame has left the buffer when Decode reads and erases the byte at
-- the buffer's front.
pub decode-zero_id :
    (clock : Clock) (payload : List ℕ) (d : Decoder)
    → IsReady d
    → d.recycle_front ≡ []
    → AllBytes payload
    → length payload < 1024
    → message_id (frame payload) ≡ 0
    → decode clock (frame payload) false d ≡ fault
unfolding scan_message
decode-zero_id clock payload d ready empty bytes short zero_id =
    view-fault (decode clock (frame payload) false d) (
      decode-scan clock (frame payload) d ready
      ∙ ap
          (λ front.
            scan (suc (length (front ++ frame payload))) clock (front ++ frame payload) d.facts)
          empty
      ∙ scan-crash (length (frame payload)) clock (frame payload) d.facts round)
  where
    round : scan_round clock (frame payload) d.facts ≡ crash
    round =
        ap (λ buf. scan_round clock buf d.facts) (sym (append-nil (frame payload)))
        ∙ frame-scan payload bytes short clock [] d.facts
        ∙ rw zero_id refl
