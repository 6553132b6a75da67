-- ===== src/Session/Examples.antt =====
-- Sessions at concrete states.
use nav_caster.Base.{
  ℕ, zero, suc, ◌==◌, ◌&&◌, true, false, Option, none, some, List, [], ◌∷◌, ◌++◌, ◌≡◌, refl, ap,
  length, drop, if◌then◌else◌, arith,
}
use nav_caster.Auth.{server as auth_server}
use nav_caster.Caster.{Reply, ok}
use nav_caster.Session.{add_logout_record, push_destroy}
use nav_caster.Session.Chunk.{LineReader}
use nav_caster.Session.Server.{
  ServerOpt, ServerNtrip, register_answer, event, stop_call, read_callback, publish_pieces,
}
use nav_caster.Session.Response.{starts_with}
use nav_caster.Session.Pull.{RelayPull, registering, is_running}
use nav_caster.Session.Decoded.{ReadsHeaders, sent}
use nav_caster.Session.Split.{at_chunk, read_callback-split}
use nav_caster.Session.Ended.{run, closing, run-stop}
use nav_caster.Session.Retrying.{timeouts, late_answer, timeouts-late_answer}

-- A line ends at a line feed, and a carriage return before it is part of the end.
readln : List ℕ → Option (List ℕ × List ℕ)
readln [] = none
readln (x ∷ xs) =
    let later = readln xs in
    if x == 10
    then some ([], xs)
    else if (x == 13) && starts_with xs (10 ∷ [])
    then some ([], drop 1 xs)
    else elim later [ none ↦ none | some p ↦ some (x ∷ p.0, p.1) ]

-- Sizes are written with as many digits 1.
ones : ℕ → List ℕ
ones zero = []
ones (suc n) = 49 ∷ ones n

abbrev tally : LineReader
tally = record { readln = readln; scan_hex = λ line. some (length line) }

readln-ones : (n : ℕ) (rest : List ℕ) → readln (ones n ++ (13 ∷ 10 ∷ rest)) ≡ some (ones n, rest)
unfolding readln ones starts_with
readln-ones zero rest = refl
readln-ones (suc n) rest = rw (readln-ones n rest) refl

length-ones : (n : ℕ) → length (ones n) ≡ n
unfolding ones
length-ones zero = refl
length-ones (suc n) = ap suc (length-ones n)

tally-ReadsHeaders : ReadsHeaders tally ones
tally-ReadsHeaders = record { reads = readln-ones; scans = λ n small. ap some (length-ones n) }

abbrev base : ServerNtrip
base = record {
  group_uid = "default";
  ntrip_version2 = true;
  transfer_with_chunked = true;
  chunk = record { chunked_size = 0; recv_evbuf = [] };
  stopped = false;
  registered = false;
  timeout_ev_flag = false;
}

-- Three pieces, the second of which is cut within its end.
read_callback-split_example :
    (read_callback tally
        (sent ones ((211 ∷ 0 ∷ []) ∷ []) (ones 3 ++ (13 ∷ 10 ∷ 7 ∷ 8 ∷ 9 ∷ 13 ∷ [])))
        (at_chunk 0 [] base)
      ≡ some (record {
        state = at_chunk 3 (7 ∷ 8 ∷ 9 ∷ 13 ∷ []) base;
        effects = publish_pieces ((211 ∷ 0 ∷ []) ∷ []);
      }))
    × (read_callback tally
          (10 ∷ sent ones ((4 ∷ []) ∷ []) [])
          (at_chunk 3 (7 ∷ 8 ∷ 9 ∷ 13 ∷ []) base)
        ≡ some (record {
          state = at_chunk 0 [] base;
          effects = publish_pieces ((7 ∷ 8 ∷ 9 ∷ []) ∷ (4 ∷ []) ∷ []);
        }))
read_callback-split_example =
    read_callback-split tally ones tally-ReadsHeaders base refl ((211 ∷ 0 ∷ []) ∷ [])
      ((4 ∷ []) ∷ []) (7 ∷ 8 ∷ 9 ∷ []) (7 ∷ 8 ∷ 9 ∷ 13 ∷ []) (10 ∷ []) (omega arith, tt)
      (omega arith, tt) (omega arith) (omega arith) (omega arith) refl

abbrev opt : ServerOpt
opt = record {
  connect_timeout = 30;
  heartbeat_interval = 0;
  heartbeat_msg = "";
  unsend_byte_limit = 0;
}

abbrev accepted : Reply
accepted = record { type = ok; str = "" }

-- The answer to the registration comes after the end.
run-stop_example :
    ((run opt tally (stop_call ∷ register_answer accepted ∷ event ∷ []) base).state.stopped ≡ true)
    × (closing (run opt tally (stop_call ∷ register_answer accepted ∷ event ∷ []) base).effects
        ≡ add_logout_record auth_server ∷ push_destroy ∷ [])
run-stop_example = run-stop opt tally (register_answer accepted ∷ event ∷ []) base refl

abbrev pulled : RelayPull
pulled = record {
  connect_key = "k";
  mount_point = "M";
  mount_para = "";
  ntrip_version2 = false;
  transfer_with_chunked = false;
  chunk = record { chunked_size = 0; recv_evbuf = [] };
  stopped = false;
  registered = false;
  retry_delay = 5;
  state = registering;
  timeout_ev_flag = false;
}

timeouts-late_answer_example :
    ((late_answer accepted pulled).state ≡ is_running)
    × (((late_answer accepted pulled).connect_key ≡ "")
        × (timeouts ("k2" ∷ "k3" ∷ []) (late_answer accepted pulled)
            ≡ record { after = late_answer accepted pulled; effects = [] }))
timeouts-late_answer_example =
    timeouts-late_answer accepted pulled ("k2" ∷ "k3" ∷ []) refl refl refl refl
