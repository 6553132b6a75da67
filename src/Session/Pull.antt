-- ===== src/Session/Pull.antt =====
-- service/session/relay_pull.h and relay_pull.cpp: the session that pulls a base from another caster.
use nav_caster.Base.{
  ℕ, suc, ◌*◌, String, is_empty, Bool, true, false, leb, List, [], ◌∷◌, ◌++◌, length, Option, none,
  some, if◌then◌else◌,
}
use nav_caster.Caster.{Reply, ok, err, pull}
use nav_caster.Session.{
  SessionEffect, set_bev, del_timer, event_add, event_del, register_record, withdraw_record,
  pub_raw_data, write_request, new_bev, del_bev, set_pull_base_info,
}
use nav_caster.Session.Chunk.{LineReader, ChunkState, read_chunks, returned, no_line, thrown}
use nav_caster.Session.Response.{verify_ntrip_response}

pub data PullState : Type 0 where
  idle connecting handshaking registering is_running waiting_retry : PullState

pub record RelayPull : Type 0 where
  pub connect_key : String
  pub mount_point : String
  pub mount_para : String
  pub ntrip_version2 : Bool
  pub transfer_with_chunked : Bool
  pub chunk : ChunkState
  pub stopped : Bool
  pub registered : Bool
  pub retry_delay : ℕ
  pub state : PullState
  pub timeout_ev_flag : Bool

pub record Pulled : Type 0 where
  pub after : RelayPull
  pub effects : List SessionEffect

abbrev pub min_delay : ℕ
min_delay = 5

abbrev pub max_delay : ℕ
max_delay = 60

unfoldable pub backoff : ℕ → ℕ
backoff delay = if leb (delay * 2) max_delay then delay * 2 else max_delay

unfoldable pub cleanup_connection : RelayPull → Pulled
cleanup_connection s =
    if is_empty s.connect_key then record { after = s; effects = [] } else record {
      after = record s { registered = false; connect_key = "" };
      effects =
          set_bev false false
          ∷ del_timer
          ∷ ((if s.registered then withdraw_record pull ∷ [] else [])
              ++ del_bev s.connect_key ∷ []);
    }

unfoldable pub schedule_retry : RelayPull → Pulled
unfolding cleanup_connection backoff
schedule_retry s =
    if s.stopped
    then record { after = s; effects = [] }
    else (let cleaned = cleanup_connection s in
        record {
          after = record cleaned.after {
            state = waiting_retry;
            timeout_ev_flag = true;
            retry_delay = backoff s.retry_delay;
          };
          effects = cleaned.effects ++ set_pull_base_info "" 0 ∷ event_add s.retry_delay ∷ [];
        })

-- With the key that new_bev gives, empty where there is no connection.
unfoldable pub start_connect : String → RelayPull → Pulled
unfolding schedule_retry
start_connect key s =
    if s.stopped
    then record { after = s; effects = [] }
    else (let t = record s { timeout_ev_flag = false; state = connecting; connect_key = key } in
        let untimed = if s.timeout_ev_flag then event_del ∷ [] else [] in
        if is_empty key
        then (let retry = schedule_retry t in
            record { after = retry.after; effects = untimed ++ new_bev ∷ retry.effects })
        else record { after = t; effects = untimed ++ new_bev ∷ set_bev true true ∷ [] })

unfoldable pub start : String → RelayPull → Pulled
unfolding start_connect
start key s = start_connect key (record s { stopped = false })

unfoldable pub stop : RelayPull → Pulled
unfolding cleanup_connection
stop s =
    if s.stopped
    then record { after = s; effects = [] }
    else (let cleaned = cleanup_connection (record s { stopped = true; timeout_ev_flag = false }) in
        record {
          after = record cleaned.after { state = idle };
          effects = (if s.timeout_ev_flag then event_del ∷ [] else []) ++ cleaned.effects;
        })

-- With the key that recalculate_key gives.
unfoldable pub handle_connected : String → RelayPull → Pulled
handle_connected new_key s = record {
  after = record s { connect_key = new_key; state = handshaking };
  effects =
      write_request s.ntrip_version2 (if is_empty s.mount_para then s.mount_point else s.mount_para)
      ∷ [];
}

unfoldable pub handle_handshake : RelayPull → Pulled
unfolding schedule_retry verify_ntrip_response
handle_handshake s = elim s.chunk.recv_evbuf [
  | [] ↦ schedule_retry s
  | x ∷ xs ↦
      let t = record s { chunk = record s.chunk { recv_evbuf = [] } } in
      let v = verify_ntrip_response (x ∷ xs) in
      if v.accepted
      then record {
        after = record t {
          ntrip_version2 = v.version2;
          transfer_with_chunked = v.chunked;
          state = registering;
        };
        effects = register_record pull "SYSTEM" ∷ [];
      }
      else schedule_retry t
]

unfoldable pub running : RelayPull → Pulled
running s = record {
  after = record s { registered = true; state = is_running; retry_delay = min_delay };
  effects = set_bev true true ∷ set_pull_base_info s.connect_key 1 ∷ [];
}

unfoldable pub publish_pieces : List (List ℕ) → List SessionEffect
publish_pieces [] = []
publish_pieces (p ∷ ps) = pub_raw_data pull p ∷ publish_pieces ps

unfoldable pub publish_data_from_chunk : LineReader → RelayPull → Option Pulled
unfolding read_chunks publish_pieces schedule_retry
publish_data_from_chunk r s = elim (read_chunks (suc (length s.chunk.recv_evbuf)) r s.chunk) [
  | none ↦ none
  | some c ↦
      let t = record s { chunk = c.state } in
      elim c.end [
        | returned ↦ some (record { after = t; effects = publish_pieces c.pieces })
        | no_line ↦ some (record {
          after = (schedule_retry t).after;
          effects = publish_pieces c.pieces ++ (schedule_retry t).effects;
        })
        | thrown ↦ none
      ]
]

unfoldable pub publish_data_from_evbuf : RelayPull → Pulled
publish_data_from_evbuf s = elim s.chunk.recv_evbuf [
  | [] ↦ record { after = s; effects = [] }
  | x ∷ xs ↦ record {
    after = record s { chunk = record s.chunk { recv_evbuf = [] } };
    effects = pub_raw_data pull (x ∷ xs) ∷ [];
  }
]

unfoldable pub read_callback : LineReader → List ℕ → RelayPull → Option Pulled
unfolding handle_handshake publish_data_from_chunk publish_data_from_evbuf
read_callback r bytes s =
    let t = record s { chunk = record s.chunk { recv_evbuf = s.chunk.recv_evbuf ++ bytes } } in
    elim s.state [
      | handshaking ↦ some (handle_handshake t)
      | is_running ↦
          if s.transfer_with_chunked
          then publish_data_from_chunk r t
          else some (publish_data_from_evbuf t)
      | _ ↦ some (record { after = t; effects = [] })
    ]

-- With whether the event is that of a connection that stands, and the key then.
unfoldable pub event_callback : Bool → String → RelayPull → Pulled
unfolding handle_connected schedule_retry
event_callback connected new_key s =
    if s.stopped then record { after = s; effects = [] } else elim s.state [
      | connecting ↦ if connected then handle_connected new_key s else schedule_retry s
      | _ ↦ schedule_retry s
    ]

-- With the key that new_bev gives.
unfoldable pub timeout_callback : String → RelayPull → Pulled
unfolding start_connect
timeout_callback key s =
    let idle_still : Pulled = record { after = s; effects = [] } in
    if s.stopped then idle_still else elim s.state [
      | waiting_retry ↦
          let started = start_connect key (record s { timeout_ev_flag = false }) in
          record { after = started.after; effects = event_del ∷ started.effects }
      | _ ↦ idle_still
    ]

unfoldable pub caster_register_callback : Reply → RelayPull → Pulled
unfolding running schedule_retry
caster_register_callback reply s = elim reply.type [
  | ok ↦ running s
  | err ↦ schedule_retry s
  | _ ↦ record { after = s; effects = [] }
]
