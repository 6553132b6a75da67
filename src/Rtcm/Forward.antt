-- ===== src/Rtcm/Forward.antt =====
-- Forward calls of decode_rtcm::Decode: the state between calls, that each call ends, and that a
-- stream may be cut anywhere.
use mathlib.Core.Path.{subst}
use mathlib.Core.List.{append-nil, append_assoc}
use nav_caster.Base.{
  ℕ, zero, suc, ◌≤◌, ◌<◌, ◌≡◌, refl, sym, ap, ◌∙◌, ◌≢◌, inl, inr, Bool, true, false, List, [], ◌∷◌,
  ◌++◌, arith, length, drop, get_or, take,
}
use nav_caster.Rtcm.Crc.{AllBytes}
use nav_caster.Rtcm.Message.{Facts, Clock}
use nav_caster.Rtcm.{
  Decoder, Outcome, done, fault, unfinished, payload_length, message_length, message_id, decode,
  decode_loop, decode_round, joined, search_round, message_round, skip_round, clear_if_large, Round,
  stop, crash, again, recycle_rest, keep_partial, get_message, check_header,
}
use nav_caster.Rtcm.Stream.{scan_message, scan_round, scan, view, loop-scan}
use nav_caster.Rtcm.Chunks.{
  scan-append, scan-total, scan-again, scan-stop, scan-crash, done-injective, Round-cases,
}

pub AllBytes-append : (xs ys : List ℕ) → AllBytes xs → AllBytes ys → AllBytes (xs ++ ys)
AllBytes-append [] ys p q = q
AllBytes-append (x ∷ xs) ys p q = (p.0, AllBytes-append xs ys p.1 q)

AllBytes-drop : (n : ℕ) (xs : List ℕ) → AllBytes xs → AllBytes (drop n xs)
AllBytes-drop zero xs p = p
AllBytes-drop (suc n) [] p = tt
AllBytes-drop (suc n) (x ∷ xs) p = AllBytes-drop n xs p.1

get_or-byte : (xs : List ℕ) (i : ℕ) → AllBytes xs → get_or xs i 0 < 256
get_or-byte [] i p = omega arith
get_or-byte (x ∷ xs) zero p = p.0
get_or-byte (x ∷ xs) (suc i) p = get_or-byte xs i p.1

abbrev max_message : ℕ
max_message = 1029

-- What a forward call leaves for the next: less than a whole frame.
abbrev Left : List ℕ → Type 0
Left buf = AllBytes buf × (length buf < max_message)

message_length_max : (buf : List ℕ) → AllBytes buf → message_length buf ≤ max_message
unfolding message_length payload_length
message_length_max buf p = omega (arith, get_or-byte buf 2 p)

abbrev KeepsBytes : Round (Facts × List ℕ) → Type 0
KeepsBytes (again (g, rest)) = AllBytes rest
KeepsBytes (stop (g, rest)) = Left rest
KeepsBytes crash = Unit {0}

scan_message-KeepsBytes :
    (clock : Clock) (id : ℕ) (msg rest : List ℕ) (facts : Facts)
    → AllBytes rest
    → KeepsBytes (scan_message clock id msg rest facts)
unfolding scan_message
scan_message-KeepsBytes clock id msg [] facts p = ground arith
scan_message-KeepsBytes clock id msg (b ∷ rest) facts p = ground arith

scan_round-KeepsBytes :
    (clock : Clock) (buf : List ℕ) (facts : Facts)
    → AllBytes buf
    → KeepsBytes (scan_round clock buf facts)
unfolding scan_round
scan_round-KeepsBytes clock buf facts p = ground (
  arith,
  AllBytes-drop 1 buf p,
  message_length_max buf p,
  scan_message-KeepsBytes clock (message_id (take (message_length buf) buf))
      (take (message_length buf) buf) (drop (message_length buf) buf) facts
      (AllBytes-drop (message_length buf) buf p),
)

scan-Left :
    (f : ℕ) (clock : Clock) (buf : List ℕ) (facts g : Facts) (left : List ℕ)
    → AllBytes buf
    → scan f clock buf facts ≡ done (g, left)
    → Left left
scan-Left zero clock buf facts g left p e = unfold scan in cc e
scan-Left (suc f) clock buf facts g left p e = elim (Round-cases (scan_round clock buf facts)) [
  | inl r ↦ cc (scan-crash f clock buf facts r)
  | inr (inl (last, r)) ↦
      subst (λ (s : Facts × List ℕ). Left s.1)
        (done-injective (sym (scan-stop f clock buf facts last r) ∙ e))
        (subst KeepsBytes r (scan_round-KeepsBytes clock buf facts p))
  | inr (inr ((s, rest), r)) ↦
      scan-Left f clock rest s g left (subst KeepsBytes r (scan_round-KeepsBytes clock buf facts p))
        (sym (scan-again f clock buf facts s rest r) ∙ e)
]

-- The state between forward calls.
pub record IsReady (d : Decoder) : Type 0 where
  pub drained : d.data_ ≡ []
  pub bytes : AllBytes d.recycle_front
  pub partial : length d.recycle_front < 1029

joined_ready :
    (buffer : List ℕ) (d : Decoder) → IsReady d → joined buffer false d ≡ d.recycle_front ++ buffer
unfolding joined clear_if_large
joined_ready buffer d r = ground (arith, append-nil d.recycle_front)

pub decode-scan :
    (clock : Clock) (buffer : List ℕ) (d : Decoder)
    → IsReady d
    → view (decode clock buffer false d)
      ≡ scan (suc (length (d.recycle_front ++ buffer))) clock (d.recycle_front ++ buffer) d.facts
unfolding decode
decode-scan clock buffer d r =
    loop-scan (suc (length (joined buffer false d))) clock _ refl
    ∙ ap (λ buf. scan (suc (length buf)) clock buf d.facts) (joined_ready buffer d r)

abbrev Drained : Round Decoder → Type 0
Drained (stop d) = d.data_ ≡ []
Drained r = Unit {0}

skip_round-Drained : (d : Decoder) → Drained (skip_round d)
unfolding skip_round
skip_round-Drained d = ground arith

message_round-Drained : (clock : Clock) (r : ℕ × Decoder) → Drained (message_round clock r)
unfolding message_round
message_round-Drained clock (id, d) = ground (arith, skip_round-Drained d)

decode_round-Drained :
    (clock : Clock) (reverse : Bool) (d : Decoder) → Drained (decode_round clock reverse d)
unfolding decode_round search_round recycle_rest keep_partial
decode_round-Drained clock true d = ground (
  arith,
  skip_round-Drained d,
  message_round-Drained clock (get_message (check_header d.data_) d),
)
decode_round-Drained clock false d = ground (
  arith,
  skip_round-Drained d,
  message_round-Drained clock (get_message (check_header d.data_) d),
)

-- A call that returns has emptied the search buffer.
decode_loop-drained :
    (f : ℕ) (clock : Clock) (reverse : Bool) (d last : Decoder)
    → decode_loop f clock reverse d ≡ done last
    → last.data_ ≡ []
unfolding decode_loop
decode_loop-drained zero clock reverse d last e = cc
decode_loop-drained (suc f) clock reverse d last e =
    go (decode_round clock reverse d) (decode_round-Drained clock reverse d)
      (decode_loop-drained f clock reverse) e
  where
    go :
        (r : Round Decoder)
        → Drained r
        → ((n m : Decoder) → decode_loop f clock reverse n ≡ done m → m.data_ ≡ [])
        → elim r [ stop l ↦ done l | crash ↦ fault | again n ↦ decode_loop f clock reverse n ]
          ≡ done last
        → last.data_ ≡ []
    go (stop l) w ih p = subst (λ (x : Decoder). x.data_ ≡ []) (done-injective p) w
    go crash w ih p = cc
    go (again n) w ih p = ih n last p

view-done :
    (o : Outcome Decoder) (d : Decoder) → o ≡ done d → view o ≡ done (d.facts, d.recycle_front)
view-done o d e = ap view e

module _ (clock : Clock) (buffer : List ℕ) (d d' : Decoder) (ready : IsReady d)
    (bytes : AllBytes buffer) (returned : decode clock buffer false d ≡ done d') where
  scanned :
      scan (suc (length (d.recycle_front ++ buffer))) clock (d.recycle_front ++ buffer) d.facts
      ≡ done (d'.facts, d'.recycle_front)
  scanned = sym (decode-scan clock buffer d ready) ∙ ap view returned

  -- A forward call of Decode on a ready decoder that is given bytes and returns leaves the decoder
  -- ready for the next: its search buffer is empty, and what it keeps for the next call are bytes,
  -- and fewer than the 1029 of the longest frame.
  pub decode-IsReady : IsReady d'
  unfolding decode
  decode-IsReady = record {
    drained = decode_loop-drained _ clock false _ d' returned;
    bytes = left.0;
    partial = left.1;
  }
    where
      left : Left d'.recycle_front
      left =
          scan-Left _ clock _ d.facts d'.facts d'.recycle_front
            (AllBytes-append d.recycle_front buffer ready.bytes bytes) scanned

  -- A stream may be cut anywhere: if a ready decoder returns from the first part, of bytes, the call
  -- on the second part ends as the one call on both parts together does, with the same messages
  -- learned and the same bytes kept for later, or with the same undefined behaviour. The parts may
  -- arrive at any times; each message is decoded in the same second in both.
  pub decode-append :
      (more : List ℕ)
      → view (decode clock more false d') ≡ view (decode clock (buffer ++ more) false d)
  decode-append more =
      decode-scan clock more d' decode-IsReady
      ∙ sym (
          scan-append _ clock (d.recycle_front ++ buffer) more d.facts d'.facts d'.recycle_front
            (omega arith) scanned)
      ∙ ap (λ buf. scan (suc (length buf)) clock buf d.facts)
          (append_assoc d.recycle_front buffer more)
      ∙ sym (decode-scan clock (buffer ++ more) d ready)

-- A forward call on a ready decoder always ends: one round for each byte in the buffer and one more
-- are enough.
pub decode-ends :
    (clock : Clock) (buffer : List ℕ) (d : Decoder)
    → IsReady d
    → decode clock buffer false d ≢ unfinished
decode-ends clock buffer d ready e =
    scan-total _ clock (d.recycle_front ++ buffer) d.facts (omega arith)
      (sym (decode-scan clock buffer d ready) ∙ ap view e)
