-- ===== src/Session/Split.antt =====
-- service/session/server_ntrip.cpp: a base whose chunks arrive in pieces of the stream.
use nav_caster.Base.{
  append-nil, append_assoc, length-append, ℕ, suc, ◌+◌, ◌^◌, ◌<◌, true, false, some, List, [], ◌∷◌,
  ◌++◌, ◌≡◌, refl, sym, ap, ◌∙◌, length, arith,
}
use nav_caster.Session.Chunk.{
  LineReader, ChunkState, Chunked, returned, read_body, read_chunk, read_chunks, goes_on,
}
use nav_caster.Session.Server.{ServerNtrip, read_callback, publish_data_from_chunk, publish_pieces}
use nav_caster.Session.Decoded.{
  ReadsHeaders, Short, sent, whole, read_body-whole, read_chunk-part, read_chunks-tail,
  read_chunks-sent, length-sent,
}

-- A session that has read this much of a chunk.
abbrev pub at_chunk : ℕ → List ℕ → ServerNtrip → ServerNtrip
at_chunk n buf s = record s { chunk = record { chunked_size = n; recv_evbuf = buf } }

-- A chunk that has not come to its end.
waits :
    (n : ℕ) (buf : List ℕ)
    → goes_on (record {
      end = returned;
      state = record { chunked_size = n; recv_evbuf = buf };
      pieces = [];
    })
      ≡ false
unfolding goes_on
waits n buf = refl

-- What a call does that ends as it should.
publish-returned :
    (r : LineReader) (s : ServerNtrip) (t : ChunkState) (ps : List (List ℕ))
    → read_chunks (suc (length s.chunk.recv_evbuf)) r s.chunk
      ≡ some (record { end = returned; state = t; pieces = ps })
    → publish_data_from_chunk r s
      ≡ some (record { state = record s { chunk = t }; effects = publish_pieces ps })
unfolding publish_data_from_chunk
publish-returned r s t ps e = ground (arith, e)

read_chunk-body :
    (r : LineReader) (n : ℕ) (buf : List ℕ)
    → 0 < n
    → read_chunk r (record { chunked_size = n; recv_evbuf = buf }) ≡ read_body n buf
unfolding read_chunk
read_chunk-body r n buf h = ground arith

pub read_callback-chunked :
    (r : LineReader) (s : ServerNtrip) (bytes : List ℕ)
    → s.transfer_with_chunked ≡ true
    → read_callback r bytes s
      ≡ publish_data_from_chunk r (at_chunk s.chunk.chunked_size (s.chunk.recv_evbuf ++ bytes) s)
unfolding read_callback
read_callback-chunked r s bytes chunked = rw chunked refl

module _ (r : LineReader) (print_hex : ℕ → List ℕ) (headers : ReadsHeaders r print_hex)
    (s : ServerNtrip) (chunked : s.transfer_with_chunked ≡ true) (cs ds : List (List ℕ))
    (c part later : List ℕ) (cs_short : Short cs) (ds_short : Short ds)
    (c_short : length c + 2 < 2 ^ 64) (some_data : 0 < length c) (some_later : 0 < length later)
    (together : part ++ later ≡ c ++ (13 ∷ 10 ∷ [])) where
  part_shorter : length part < length c + 2
  part_shorter =
      omega (arith, length-append part later, length-append c (13 ∷ 10 ∷ []), ap length together)

  first_read :
      read_callback r
        (sent print_hex cs (print_hex (length c) ++ (13 ∷ 10 ∷ part)))
        (at_chunk 0 [] s)
      ≡ some (record { state = at_chunk (length c) part s; effects = publish_pieces cs })
  first_read =
      let tail = print_hex (length c) ++ (13 ∷ 10 ∷ part) in
      let buf = sent print_hex cs tail in
      read_callback-chunked r (at_chunk 0 [] s) buf chunked
      ∙ publish-returned r (at_chunk 0 buf s)
          (record { chunked_size = length c; recv_evbuf = part }) cs
          (read_chunks-tail r print_hex headers (length buf) cs tail cs_short
              (omega (arith, length-sent r print_hex headers cs tail))
              (omega (arith, length-append (print_hex (length c)) (13 ∷ 10 ∷ part)))
              (ap goes_on (read_chunk-part r print_hex headers c part c_short part_shorter)
                ∙ waits (length c) part)
            ∙ ap (λ (x : Chunked). some (record x { pieces = cs ++ x.pieces }))
                (read_chunk-part r print_hex headers c part c_short part_shorter)
            ∙ ap
                (λ ps. some (record {
                  end = returned;
                  state = record { chunked_size = length c; recv_evbuf = part };
                  pieces = ps;
                }))
                (append-nil cs))

  buf_is : part ++ (later ++ sent print_hex ds []) ≡ c ++ (13 ∷ 10 ∷ sent print_hex ds [])
  buf_is =
      sym (append_assoc part later (sent print_hex ds []))
      ∙ ap (λ l. l ++ sent print_hex ds []) together
      ∙ append_assoc c (13 ∷ 10 ∷ []) (sent print_hex ds [])

  second_read :
      read_callback r (later ++ sent print_hex ds []) (at_chunk (length c) part s)
      ≡ some (record { state = at_chunk 0 [] s; effects = publish_pieces (c ∷ ds) })
  unfolding whole
  second_read =
      let buf = part ++ (later ++ sent print_hex ds []) in
      read_callback-chunked r (at_chunk (length c) part s) (later ++ sent print_hex ds []) chunked
      ∙ publish-returned r (at_chunk (length c) buf s)
          (record { chunked_size = 0; recv_evbuf = [] }) (c ∷ ds)
          (read_chunks-sent r print_hex headers (length buf) c ds
            (record { chunked_size = length c; recv_evbuf = buf }) ds_short
            (omega (
              arith,
              length-sent r print_hex headers ds [],
              length-append part (later ++ sent print_hex ds []),
              length-append later (sent print_hex ds []),
            ))
            (read_chunk-body r (length c) buf some_data
              ∙ ap (read_body (length c)) buf_is
              ∙ read_body-whole r print_hex headers c (sent print_hex ds []) c_short))

  -- A base's data is published as it was sent in chunks, in the same pieces and order, also where
  -- the stream arrives in two parts: the first ends within a chunk, behind its header, and the second
  -- has the rest of the chunk and more of them; after them the session is as it was. The chunk that
  -- is cut is not empty, and every one is shorter than the greatest size.
  pub read_callback-split :
      (read_callback r
          (sent print_hex cs (print_hex (length c) ++ (13 ∷ 10 ∷ part)))
          (at_chunk 0 [] s)
        ≡ some (record { state = at_chunk (length c) part s; effects = publish_pieces cs }))
      × (read_callback r (later ++ sent print_hex ds []) (at_chunk (length c) part s)
          ≡ some (record { state = at_chunk 0 [] s; effects = publish_pieces (c ∷ ds) }))
  read_callback-split = (first_read, second_read)
