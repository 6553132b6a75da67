-- ===== src/Session/Server.antt =====
-- service/session/server_ntrip.h and server_ntrip.cpp: the session of a base.
use nav_caster.Base.{
  ℕ, suc, String, is_empty, Bool, true, false, not, ◌&&◌, ltb, List, [], ◌∷◌, ◌++◌, length, Option,
  none, some, if◌then◌else◌,
}
use nav_caster.Auth.{AuthReplyData, ok as auth_ok, server as auth_server}
use nav_caster.Caster.{Reply, ok, err, server}
use nav_caster.Session.{
  SessionEffect, set_bev, set_timer, del_timer, event_add, event_del, add_login_record,
  add_logout_record, register_record, withdraw_record, pub_raw_data, write_reply, write_text,
  push_destroy,
}
use nav_caster.Session.Chunk.{LineReader, ChunkState, read_chunks, returned, no_line, thrown}

-- The configuration `_ntrip_server_opt`; a negative interval or limit is as good as 0.
pub record ServerOpt : Type 0 where
  pub connect_timeout : ℕ
  pub heartbeat_interval : ℕ
  pub heartbeat_msg : String
  pub unsend_byte_limit : ℕ

pub record ServerNtrip : Type 0 where
  pub group_uid : String
  pub ntrip_version2 : Bool
  pub transfer_with_chunked : Bool
  pub chunk : ChunkState
  pub stopped : Bool
  pub registered : Bool
  pub timeout_ev_flag : Bool

-- The state that a call leaves and what it has done, in order.
pub record Served : Type 0 where
  pub state : ServerNtrip
  pub effects : List SessionEffect

unfoldable pub start : ServerNtrip → Served
start s = record {
  state = record s { stopped = false };
  effects = set_bev false true ∷ add_login_record auth_server ∷ [];
}

unfoldable pub stop : ServerNtrip → Served
stop s = if s.stopped then record { state = s; effects = [] } else record {
  state = record s { stopped = true; timeout_ev_flag = false; registered = false };
  effects =
      set_bev false false
      ∷ del_timer
      ∷ ((if s.timeout_ev_flag then event_del ∷ [] else [])
          ++ add_logout_record auth_server
            ∷ ((if s.registered then withdraw_record server ∷ [] else []) ++ push_destroy ∷ []));
}

unfoldable pub running : ServerOpt → ServerNtrip → Served
running opt s =
    let timed = ltb 0 opt.heartbeat_interval && not s.timeout_ev_flag in
    record {
      state = record s { timeout_ev_flag = if timed then true else s.timeout_ev_flag };
      effects =
          set_bev true true
          ∷ set_timer opt.connect_timeout
          ∷ ((if timed then event_add opt.heartbeat_interval ∷ [] else [])
              ++ write_reply s.ntrip_version2 s.transfer_with_chunked ∷ []);
    }

-- With the number of bytes that wait to be sent.
unfoldable pub send_heart_beat_to_server : ServerOpt → ℕ → ServerNtrip → Served
unfolding stop
send_heart_beat_to_server opt unsend_size s =
    if ltb 0 opt.unsend_byte_limit && ltb opt.unsend_byte_limit unsend_size
    then stop s
    else record {
      state = s;
      effects = if is_empty opt.heartbeat_msg then [] else write_text opt.heartbeat_msg ∷ [];
    }

unfoldable pub publish_data_from_evbuf : ServerNtrip → Served
publish_data_from_evbuf s = elim s.chunk.recv_evbuf [
  | [] ↦ record { state = s; effects = [] }
  | x ∷ xs ↦ record {
    state = record s { chunk = record s.chunk { recv_evbuf = [] } };
    effects = pub_raw_data server (x ∷ xs) ∷ [];
  }
]

unfoldable pub publish_pieces : List (List ℕ) → List SessionEffect
publish_pieces [] = []
publish_pieces (p ∷ ps) = pub_raw_data server p ∷ publish_pieces ps

-- `none` where an exception leaves the call.
unfoldable pub publish_data_from_chunk : LineReader → ServerNtrip → Option Served
unfolding read_chunks publish_pieces stop
publish_data_from_chunk r s = elim (read_chunks (suc (length s.chunk.recv_evbuf)) r s.chunk) [
  | none ↦ none
  | some c ↦
      let t = record s { chunk = c.state } in
      elim c.end [
        | returned ↦ some (record { state = t; effects = publish_pieces c.pieces })
        | no_line ↦ some (record {
          state = (stop t).state;
          effects = publish_pieces c.pieces ++ (stop t).effects;
        })
        | thrown ↦ none
      ]
]

-- The bytes that have arrived go behind those that are left.
unfoldable pub read_callback : LineReader → List ℕ → ServerNtrip → Option Served
unfolding publish_data_from_evbuf publish_data_from_chunk
read_callback r bytes s =
    let t = record s { chunk = record s.chunk { recv_evbuf = s.chunk.recv_evbuf ++ bytes } } in
    if s.transfer_with_chunked
    then publish_data_from_chunk r t
    else some (publish_data_from_evbuf t)

unfoldable pub auth_login_callback : AuthReplyData → ServerNtrip → Served
unfolding stop
auth_login_callback reply s = elim reply.type [
  | auth_ok ↦
      let group = if is_empty reply.group_uid then s.group_uid else reply.group_uid in
      record { state = record s { group_uid = group }; effects = register_record server group ∷ [] }
  | _ ↦ stop s
]

unfoldable pub caster_register_callback : ServerOpt → Reply → ServerNtrip → Served
unfolding running stop
caster_register_callback opt reply s = elim reply.type [
  | ok ↦ running opt (record s { registered = true })
  | err ↦ stop s
  | _ ↦ record { state = s; effects = [] }
]

-- What happens to a session once it has started: a call of `stop` from outside, or one of its
-- callbacks.
pub data ServerEvent : Type 0 where
  stop_call : ServerEvent
  read : List ℕ → ServerEvent
  event : ServerEvent
  timeout : ℕ → ServerEvent
  auth_answer : AuthReplyData → ServerEvent
  register_answer : Reply → ServerEvent

unfoldable pub handle : ServerOpt → LineReader → ServerEvent → ServerNtrip → Option Served
unfolding stop read_callback send_heart_beat_to_server auth_login_callback caster_register_callback
handle opt r stop_call s = some (stop s)
handle opt r (read bytes) s = read_callback r bytes s
handle opt r event s = some (stop s)
handle opt r (timeout unsend_size) s = some (send_heart_beat_to_server opt unsend_size s)
handle opt r (auth_answer reply) s = some (auth_login_callback reply s)
handle opt r (register_answer reply) s = some (caster_register_callback opt reply s)
