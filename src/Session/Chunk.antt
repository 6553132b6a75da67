-- ===== src/Session/Chunk.antt =====
-- service/session/server_ntrip.cpp and service/session/relay_pull.cpp: publish_data_from_chunk,
-- which is the same in both but for what it does where it finds no line.
use nav_caster.Base.{
  ℕ, zero, suc, ◌+◌, ◌%◌, ◌^◌, ltb, ◌==◌, Option, none, some, List, [], ◌∷◌, length, take, drop,
  if◌then◌else◌, Bool, false, ◌++◌,
}

-- evbuffer_readln with EVBUFFER_EOL_CRLF, which gives the first line and what is behind its end, and
-- sscanf of "%zx", `none` where nothing is read.
pub record LineReader : Type 0 where
  pub readln : List ℕ → Option (List ℕ × List ℕ)
  pub scan_hex : List ℕ → Option ℕ

-- `_chunked_size` and `_recv_evbuf`
pub record ChunkState : Type 0 where
  pub chunked_size : ℕ
  pub recv_evbuf : List ℕ

-- How a call ends: as it should, without a line for a header, or with the exception of a vector of
-- such a length.
pub data ChunkEnd : Type 0 where
  returned no_line thrown : ChunkEnd

-- The pieces to publish, in order.
pub record Chunked : Type 0 where
  pub end : ChunkEnd
  pub state : ChunkState
  pub pieces : List (List ℕ)

-- The size that a header line has; where nothing is read from it, its own length stays.
unfoldable pub line_size : LineReader → List ℕ → ℕ
line_size r line = elim (r.scan_hex line) [ none ↦ length line | some n ↦ n ]

-- `_chunked_size + 2`, in a size_t.
abbrev pub with_end : ℕ → ℕ
with_end n = (n + 2) % 2 ^ 64

-- What a call does with a size, before it looks for the next header.
unfoldable pub read_body : ℕ → List ℕ → Chunked
read_body n buf =
    if ltb (length buf) (with_end n)
    then record {
      end = returned;
      state = record { chunked_size = n; recv_evbuf = buf };
      pieces = [];
    }
    else if ltb (length buf) n
    then record { end = thrown; state = record { chunked_size = n; recv_evbuf = buf }; pieces = [] }
    else record {
      end = returned;
      state = record { chunked_size = 0; recv_evbuf = drop 2 (drop n buf) };
      pieces = take n buf ∷ [];
    }

unfoldable pub read_chunk : LineReader → ChunkState → Chunked
unfolding read_body line_size
read_chunk r s =
    if s.chunked_size == 0
    then elim (r.readln s.recv_evbuf) [
      | none ↦ record { end = no_line; state = s; pieces = [] }
      | some (line, rest) ↦ read_body (line_size r line) rest
    ]
    else read_body s.chunked_size s.recv_evbuf

-- A call goes on where a chunk has been published and the buffer has more.
unfoldable pub goes_on : Chunked → Bool
goes_on c = elim c.end [
  | returned ↦ elim c.pieces [ [] ↦ false | p ∷ ps ↦ ltb 0 (length c.state.recv_evbuf) ]
  | no_line ↦ false
  | thrown ↦ false
]

-- The calls of itself are counted: each has taken at least two bytes from the buffer.
unfoldable pub read_chunks : ℕ → LineReader → ChunkState → Option Chunked
unfolding read_chunk goes_on
read_chunks zero r s = none
read_chunks (suc f) r s =
    let c = read_chunk r s in
    let rest = read_chunks f r c.state in
    if goes_on c
    then elim rest [ none ↦ none | some d ↦ some (record d { pieces = c.pieces ++ d.pieces }) ]
    else some c

-- What transfer_sub_raw_data of client_ntrip.cpp adds to the buffer for one piece, with `print_hex`
-- for "%lx".
unfoldable pub chunk_text : (ℕ → List ℕ) → List ℕ → List ℕ
chunk_text print_hex piece = print_hex (length piece) ++ (13 ∷ 10 ∷ (piece ++ (13 ∷ 10 ∷ [])))
