-- ===== src/Rtcm/Chunks.antt =====
-- decode_rtcm::Decode on a stream that arrives in pieces: the loop ends, and where the stream is cut
-- makes no difference.
use mathlib.Core.Path.{subst}
use nav_caster.Base.{
  ℕ, zero, suc, ◌+◌, ◌≤◌, ◌<◌, ◌≡◌, refl, sym, ap, ◌∙◌, ◌≢◌, ◌⊎◌, inl, inr, List, [], ◌∷◌, ◌++◌,
  arith, ltb, length, take, drop, length-append, length-drop, take-append_le, drop-append_le,
  get_or-append_lt, Bool-cases,
}
use nav_caster.Rtcm.Crc.{cal_crc24}
use nav_caster.Rtcm.Message.{Facts, Clock}
use nav_caster.Rtcm.{
  Outcome, done, fault, unfinished, payload_length, message_length, extracted_crc, message_id,
  Round, stop, crash, again,
}
use nav_caster.Rtcm.Stream.{scan_message, scan_round, scan, valid_crc, message_length_bound}

-- A round that is followed by another leaves fewer bytes.
abbrev Shorter : List ℕ → Round (Facts × List ℕ) → Type 0
Shorter buf (again (g, rest)) = length rest < length buf
Shorter buf r = Unit {0}

scan_message-Shorter :
    (clock : Clock) (id : ℕ) (msg rest buf : List ℕ) (facts : Facts)
    → length rest < length buf
    → Shorter buf (scan_message clock id msg rest facts)
unfolding scan_message
scan_message-Shorter clock id msg [] buf facts h = ground arith
scan_message-Shorter clock id msg (b ∷ rest) buf facts h = ground arith

scan_round-Shorter :
    (clock : Clock) (buf : List ℕ) (facts : Facts) → Shorter buf (scan_round clock buf facts)
unfolding scan_round
scan_round-Shorter clock buf facts = ground (
  arith,
  length-drop 1 buf,
  length-drop (message_length buf) buf,
  message_length_bound buf,
  scan_message-Shorter clock (message_id (take (message_length buf) buf))
      (take (message_length buf) buf) (drop (message_length buf) buf) buf facts,
)

-- Fuel above the number of bytes is enough.
pub scan-total :
    (f : ℕ) (clock : Clock) (buf : List ℕ) (facts : Facts)
    → length buf < f
    → scan f clock buf facts ≢ unfinished
unfolding scan
scan-total zero clock buf facts h = absurd (omega arith)
scan-total (suc f) clock buf facts h =
    go (scan_round clock buf facts) (scan_round-Shorter clock buf facts) (scan-total f clock)
  where
    go :
        (r : Round (Facts × List ℕ))
        → Shorter buf r
        → ((xs : List ℕ) (s : Facts) → length xs < f → scan f clock xs s ≢ unfinished)
        → elim r [ stop last ↦ done last | crash ↦ fault | again (g, rest) ↦ scan f clock rest g ]
          ≢ unfinished
    go (stop last) w ih = λ e. cc
    go crash w ih = λ e. cc
    go (again (g, rest)) w ih = ih rest g (omega arith)

scan-fuel :
    (f f' : ℕ) (clock : Clock) (buf : List ℕ) (facts : Facts)
    → length buf < f
    → length buf < f'
    → scan f clock buf facts ≡ scan f' clock buf facts
unfolding scan
scan-fuel zero f' clock buf facts h h' = absurd (omega arith)
scan-fuel (suc f) zero clock buf facts h h' = absurd (omega arith)
scan-fuel (suc f) (suc f') clock buf facts h h' =
    go (scan_round clock buf facts) (scan_round-Shorter clock buf facts) (scan-fuel f f' clock)
  where
    go :
        (r : Round (Facts × List ℕ))
        → Shorter buf r
        → ((xs : List ℕ) (s : Facts)
            → length xs < f
            → length xs < f'
            → scan f clock xs s ≡ scan f' clock xs s)
        → ◌≡◌ {A = Outcome (Facts × List ℕ)}
            (elim r [
              | stop last ↦ done last
              | crash ↦ fault
              | again (g, rest) ↦ scan f clock rest g
            ])
            (elim r [
              | stop last ↦ done last
              | crash ↦ fault
              | again (g, rest) ↦ scan f' clock rest g
            ])
    go (stop last) w ih = refl
    go crash w ih = refl
    go (again (g, rest)) w ih = ih rest g (omega arith) (omega arith)

scan_message-append :
    (clock : Clock) (id : ℕ) (msg rest more : List ℕ) (facts g : Facts) (left : List ℕ)
    → scan_message clock id msg rest facts ≡ again (g, left)
    → scan_message clock id msg (rest ++ more) facts ≡ again (g, left ++ more)
unfolding scan_message
scan_message-append clock id msg [] [] facts g left h = ground arith
scan_message-append clock id msg [] (m ∷ more) facts g left h = ground arith
scan_message-append clock id msg (b ∷ rest) more facts g left h = ground arith

-- The decision of a round looks at no byte behind the frame.
valid_crc-append :
    (buf more : List ℕ) → message_length buf ≤ length buf → valid_crc (buf ++ more) ≡ valid_crc buf
unfolding valid_crc extracted_crc cal_crc24 payload_length message_length
valid_crc-append buf more h = rw (
  get_or-append_lt buf more 1 0 (omega arith),
  get_or-append_lt buf more 2 0 (omega arith),
  get_or-append_lt buf more (3 + payload_length buf) 0 (omega arith),
  get_or-append_lt buf more (3 + payload_length buf + 1) 0 (omega arith),
  get_or-append_lt buf more (3 + payload_length buf + 2) 0 (omega arith),
  take-append_le (3 + payload_length buf) buf more (omega arith),
)

message_length-append :
    (buf more : List ℕ) → 3 < length buf → message_length (buf ++ more) ≡ message_length buf
unfolding message_length payload_length
message_length-append buf more h =
    rw (get_or-append_lt buf more 1 0 (omega arith), get_or-append_lt buf more 2 0 (omega arith))

drop_one-append : (buf more : List ℕ) → 0 < length buf → drop 1 (buf ++ more) ≡ drop 1 buf ++ more
drop_one-append buf more h = drop-append_le 1 buf more h

scan_round-append :
    (clock : Clock) (buf more : List ℕ) (facts g : Facts) (left : List ℕ)
    → scan_round clock buf facts ≡ again (g, left)
    → scan_round clock (buf ++ more) facts ≡ again (g, left ++ more)
unfolding scan_round
scan_round-append clock buf more facts g left h = elim (Bool-cases (ltb 3 (length buf))) [
  | inr few ↦ absurd (ground arith)
  | inl long ↦ elim (Bool-cases (ltb (length buf) (message_length buf))) [
    | inl partial ↦ ground (
      arith,
      length-append buf more,
      get_or-append_lt buf more 0 0 (ground arith),
      drop_one-append buf more (ground arith),
    )
    | inr complete ↦ ground (
      arith,
      length-append buf more,
      get_or-append_lt buf more 0 0 (ground arith),
      drop_one-append buf more (ground arith),
      message_length-append buf more (ground arith),
      valid_crc-append buf more (ground arith),
      take-append_le (message_length buf) buf more (ground arith),
      drop-append_le (message_length buf) buf more (ground arith),
      scan_message-append clock (message_id (take (message_length buf) buf))
          (take (message_length buf) buf) (drop (message_length buf) buf) more facts g left,
    )
  ]
]

scan_message-runs :
    (clock : Clock) (id : ℕ) (msg rest : List ℕ) (facts : Facts) (last : Facts × List ℕ)
    → scan_message clock id msg rest facts ≢ stop last
unfolding scan_message
scan_message-runs clock id msg [] facts last = λ e. ground arith
scan_message-runs clock id msg (b ∷ rest) facts last = λ e. ground arith

pub scan_round-stop :
    (clock : Clock) (buf : List ℕ) (facts : Facts) (last : Facts × List ℕ)
    → scan_round clock buf facts ≡ stop last
    → last ≡ (facts, buf)
unfolding scan_round
scan_round-stop clock buf facts last h = ground (
  arith,
  scan_message-runs clock (message_id (take (message_length buf) buf))
      (take (message_length buf) buf) (drop (message_length buf) buf) facts last,
)

pub scan-again :
    (f : ℕ) (clock : Clock) (buf : List ℕ) (facts g : Facts) (rest : List ℕ)
    → scan_round clock buf facts ≡ again (g, rest)
    → scan (suc f) clock buf facts ≡ scan f clock rest g
unfolding scan
scan-again f clock buf facts g rest h = rw (h, scan)

pub scan-stop :
    (f : ℕ) (clock : Clock) (buf : List ℕ) (facts : Facts) (last : Facts × List ℕ)
    → scan_round clock buf facts ≡ stop last
    → scan (suc f) clock buf facts ≡ done last
unfolding scan
scan-stop f clock buf facts last h = rw (h, scan)

pub scan-crash :
    (f : ℕ) (clock : Clock) (buf : List ℕ) (facts : Facts)
    → scan_round clock buf facts ≡ crash
    → scan (suc f) clock buf facts ≡ fault
unfolding scan
scan-crash f clock buf facts h = rw (h, scan)

pub done-injective {ℓ} : {A : Type ℓ} {a b : A} → done a ≡ done b → a ≡ b
done-injective e = cc

pub again-shorter :
    (clock : Clock) (buf : List ℕ) (facts g : Facts) (rest : List ℕ)
    → scan_round clock buf facts ≡ again (g, rest)
    → length rest < length buf
again-shorter clock buf facts g rest h = subst (Shorter buf) h (scan_round-Shorter clock buf facts)

pub Round-cases {ℓ} :
    {A : Type ℓ} (r : Round A)
    → (r ≡ crash) ⊎ (((a : A) × (r ≡ stop a)) ⊎ ((a : A) × (r ≡ again a)))
Round-cases (stop a) = inr (inl (a, refl))
Round-cases crash = inl refl
Round-cases (again a) = inr (inr (a, refl))

-- Bytes that come later continue the scan where it stopped.
pub scan-append :
    (f : ℕ) (clock : Clock) (buf more : List ℕ) (facts g : Facts) (left : List ℕ)
    → length buf < f
    → scan f clock buf facts ≡ done (g, left)
    → scan (suc (length (buf ++ more))) clock (buf ++ more) facts
      ≡ scan (suc (length (left ++ more))) clock (left ++ more) g
scan-append zero clock buf more facts g left h e = absurd (omega arith)
scan-append (suc f) clock buf more facts g left h e =
    elim (Round-cases (scan_round clock buf facts)) [
      | inl r ↦ cc (scan-crash f clock buf facts r)
      | inr (inl (last, r)) ↦
          let same : (facts, buf) ≡ (g, left) =
            sym (scan_round-stop clock buf facts last r)
            ∙ done-injective (sym (scan-stop f clock buf facts last r) ∙ e) in
          ap (λ (s : Facts × List ℕ). scan (suc (length (s.1 ++ more))) clock (s.1 ++ more) s.0)
            same
      | inr (inr ((s, rest), r)) ↦
          let shorter : length rest < length buf = again-shorter clock buf facts s rest r in
          scan-again (length (buf ++ more)) clock (buf ++ more) facts s (rest ++ more)
            (scan_round-append clock buf more facts s rest r)
          ∙ scan-fuel (length (buf ++ more)) (suc (length (rest ++ more))) clock (rest ++ more) s
              (omega (arith, length-append buf more, length-append rest more)) (omega arith)
          ∙ scan-append f clock rest more s g left (omega arith)
              (sym (scan-again f clock buf facts s rest r) ∙ e)
    ]
