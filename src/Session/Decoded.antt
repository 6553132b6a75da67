-- ===== src/Session/Decoded.antt =====
-- service/session: what is sent in chunks is what the other side publishes.
use mathlib.Core.Path.{subst}
use nav_caster.Base.{
  lt→ltb, append_assoc, take-append_length, drop-append_length, length-append, ℕ, zero, suc, ◌+◌,
  ◌^◌, ◌<◌, ◌≤◌, true, false, none, some, List, [], ◌∷◌, ◌++◌, ◌≡◌, refl, ap, ◌∙◌, length, arith,
}
use nav_caster.Session.Chunk.{
  LineReader, ChunkState, Chunked, returned, read_body, read_chunk, read_chunks, goes_on, line_size,
  chunk_text,
}

-- That a header which has been printed, and its end of line, are read as the size.
pub record ReadsHeaders (r : LineReader) (print_hex : ℕ → List ℕ) : Type 0 where
  pub reads :
      (n : ℕ) (rest : List ℕ)
      → r.readln (print_hex n ++ (13 ∷ 10 ∷ rest)) ≡ some (print_hex n, rest)
  pub scans : (n : ℕ) → n < 2 ^ 64 → r.scan_hex (print_hex n) ≡ some n

-- Each piece is short enough that its size and 2 are a size_t.
abbrev pub Short : List (List ℕ) → Type 0
Short [] = Unit {0}
Short (c ∷ cs) = (length c + 2 < 2 ^ 64) × Short cs

-- The pieces as they are sent, and what follows.
abbrev pub sent : (ℕ → List ℕ) → List (List ℕ) → List ℕ → List ℕ
sent print_hex [] tail = tail
sent print_hex (c ∷ cs) tail = chunk_text print_hex c ++ sent print_hex cs tail

module _ (r : LineReader) (print_hex : ℕ → List ℕ) (headers : ReadsHeaders r print_hex) where
  chunk_text-onto :
      (c more : List ℕ)
      → chunk_text print_hex c ++ more ≡ print_hex (length c) ++ (13 ∷ 10 ∷ (c ++ (13 ∷ 10 ∷ more)))
  unfolding chunk_text
  chunk_text-onto c more =
      append_assoc (print_hex (length c)) _ more
      ∙ ap (λ l. print_hex (length c) ++ (13 ∷ 10 ∷ l)) (append_assoc c (13 ∷ 10 ∷ []) more)

  pub read_body-whole :
      (c more : List ℕ)
      → length c + 2 < 2 ^ 64
      → read_body (length c) (c ++ (13 ∷ 10 ∷ more)) ≡ record {
        end = returned;
        state = record { chunked_size = 0; recv_evbuf = more };
        pieces = c ∷ [];
      }
  unfolding read_body
  read_body-whole c more short = ground (
    arith,
    length-append c (13 ∷ 10 ∷ more),
    take-append_length c (13 ∷ 10 ∷ more),
    drop-append_length c (13 ∷ 10 ∷ more),
  )

  read_body-part :
      (c part : List ℕ)
      → length c + 2 < 2 ^ 64
      → length part < length c + 2
      → read_body (length c) part ≡ record {
        end = returned;
        state = record { chunked_size = length c; recv_evbuf = part };
        pieces = [];
      }
  unfolding read_body
  read_body-part c part short few = ground arith

  unfoldable pub whole : List ℕ → List ℕ → Chunked
  whole c more = record {
    end = returned;
    state = record { chunked_size = 0; recv_evbuf = more };
    pieces = c ∷ [];
  }

  line_size-printed : (n : ℕ) → n < 2 ^ 64 → line_size r (print_hex n) ≡ n
  unfolding line_size
  line_size-printed n small = ground (arith, headers.scans n small)

  read_chunk-sent :
      (c more : List ℕ)
      → length c + 2 < 2 ^ 64
      → read_chunk r (record { chunked_size = 0; recv_evbuf = chunk_text print_hex c ++ more })
        ≡ whole c more
  unfolding read_chunk whole
  read_chunk-sent c more short =
      rw
        (
          chunk_text-onto c more,
          headers.reads (length c) (c ++ (13 ∷ 10 ∷ more)),
          line_size-printed (length c) (omega arith),
        )
        (read_body-whole c more short)

  pub read_chunk-part :
      (c part : List ℕ)
      → length c + 2 < 2 ^ 64
      → length part < length c + 2
      → read_chunk r
          (record { chunked_size = 0; recv_evbuf = print_hex (length c) ++ (13 ∷ 10 ∷ part) })
        ≡ record {
          end = returned;
          state = record { chunked_size = length c; recv_evbuf = part };
          pieces = [];
        }
  unfolding read_chunk
  read_chunk-part c part short few =
      rw (headers.reads (length c) part, line_size-printed (length c) (omega arith))
        (read_body-part c part short few)

  pub length-sent :
      (cs : List (List ℕ)) (tail : List ℕ)
      → length cs + length tail ≤ length (sent print_hex cs tail)
  unfolding chunk_text
  length-sent [] tail = omega arith
  length-sent (c ∷ cs) tail = omega (
    arith,
    length-sent cs tail,
    length-append (chunk_text print_hex c) (sent print_hex cs tail),
    length-append (print_hex (length c)) (13 ∷ 10 ∷ (c ++ (13 ∷ 10 ∷ []))),
  )

  read_chunks-step :
      (f : ℕ) (s : ChunkState) (c : Chunked)
      → read_chunk r s ≡ c
      → goes_on c ≡ true
      → read_chunks (suc f) r s ≡ (elim (read_chunks f r c.state) [
        | none ↦ none
        | some d ↦ some (record d { pieces = c.pieces ++ d.pieces })
      ])
  unfolding read_chunks
  read_chunks-step f s c e =
      subst
        (λ (x : Chunked).
          goes_on x ≡ true
          → read_chunks (suc f) r s ≡ (elim (read_chunks f r x.state) [
            | none ↦ none
            | some d ↦ some (record d { pieces = x.pieces ++ d.pieces })
          ]))
        e (λ more. rw more refl)

  read_chunks-more :
      (f : ℕ) (c more : List ℕ) (s : ChunkState)
      → read_chunk r s ≡ whole c more
      → 0 < length more
      → read_chunks (suc f) r s
        ≡ (elim (read_chunks f r (record { chunked_size = 0; recv_evbuf = more })) [
          | none ↦ none
          | some d ↦ some (record d { pieces = c ∷ d.pieces })
        ])
  unfolding goes_on whole
  read_chunks-more f c more s e there =
      read_chunks-step f s (whole c more) e (lt→ltb 0 (length more) there)

  read_chunks-last :
      (f : ℕ) (s : ChunkState)
      → goes_on (read_chunk r s) ≡ false
      → read_chunks (suc f) r s ≡ some (read_chunk r s)
  unfolding read_chunks
  read_chunks-last f s e = rw e refl

  -- Pieces, and something behind them of which no more is published.
  pub read_chunks-tail :
      (f : ℕ) (cs : List (List ℕ)) (tail : List ℕ)
      → Short cs
      → length cs ≤ f
      → 0 < length tail
      → goes_on (read_chunk r (record { chunked_size = 0; recv_evbuf = tail })) ≡ false
      → read_chunks (suc f) r (record { chunked_size = 0; recv_evbuf = sent print_hex cs tail })
        ≡ some (record (read_chunk r (record { chunked_size = 0; recv_evbuf = tail })) {
          pieces = cs ++ (read_chunk r (record { chunked_size = 0; recv_evbuf = tail })).pieces;
        })
  read_chunks-tail f [] tail short enough there e =
      read_chunks-last f (record { chunked_size = 0; recv_evbuf = tail }) e
  read_chunks-tail zero (c ∷ cs) tail short enough there e = absurd (omega arith)
  read_chunks-tail (suc f) (c ∷ cs) tail short enough there e =
      read_chunks-more (suc f) c (sent print_hex cs tail) _
        (read_chunk-sent c (sent print_hex cs tail) short.0) (omega (arith, length-sent cs tail))
      ∙ ap (λ o. elim o [ none ↦ none | some d ↦ some (record d { pieces = c ∷ d.pieces }) ])
          (read_chunks-tail f cs tail short.1 (omega arith) there e)

  goes_on-whole : (c : List ℕ) → goes_on (whole c []) ≡ false
  unfolding goes_on whole
  goes_on-whole c = refl

  -- Pieces and nothing behind them.
  pub read_chunks-sent :
      (f : ℕ) (c : List ℕ) (cs : List (List ℕ)) (s : ChunkState)
      → Short cs
      → length cs ≤ f
      → read_chunk r s ≡ whole c (sent print_hex cs [])
      → read_chunks (suc f) r s
        ≡ some (record {
          end = returned;
          state = record { chunked_size = 0; recv_evbuf = [] };
          pieces = c ∷ cs;
        })
  unfolding whole
  read_chunks-sent f c [] s short enough e =
      read_chunks-last f s (ap goes_on e ∙ goes_on-whole c) ∙ ap some e
  read_chunks-sent zero c (d ∷ cs) s short enough e = absurd (omega arith)
  read_chunks-sent (suc f) c (d ∷ cs) s short enough e =
      read_chunks-more (suc f) c (sent print_hex (d ∷ cs) []) s e
        (omega (arith, length-sent (d ∷ cs) []))
      ∙ ap (λ o. elim o [ none ↦ none | some d ↦ some (record d { pieces = c ∷ d.pieces }) ])
          (read_chunks-sent f d cs _ short.1 (omega arith)
            (read_chunk-sent d (sent print_hex cs []) short.0))
