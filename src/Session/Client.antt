-- ===== src/Session/Client.antt =====
-- service/session/client_ntrip.h and client_ntrip.cpp: the session of a rover.
use nav_caster.Base.{
  ℕ, String, is_empty, Bool, true, false, ◌&&◌, ltb, List, [], ◌∷◌, ◌++◌, Option, none, some,
  if◌then◌else◌,
}
use nav_caster.Auth.{AuthReplyData, ok as auth_ok, client as auth_client}
use nav_caster.Caster.{Reply, ok, err, client}
use nav_caster.Session.{
  SessionEffect, set_bev, set_timer, del_timer, add_login_record, add_logout_record,
  register_record, withdraw_record, pub_raw_data, sub_raw_data, unsub_raw_data, write_buffer,
  write_reply, push_destroy,
}
use nav_caster.Session.Chunk.{chunk_text}

-- The configuration `_ntrip_client_opt`; a negative limit is as good as 0.
pub record ClientOpt : Type 0 where
  pub connect_timeout : ℕ
  pub unsend_byte_limit : ℕ

pub record ClientNtrip : Type 0 where
  pub mount_point : String
  pub alias_mpt : String
  pub group_uid : String
  pub ntrip_version2 : Bool
  pub transfer_with_chunked : Bool
  pub stopped : Bool
  pub registered : Bool
  pub is_running : Bool
  pub recv_evbuf : List ℕ

-- The state that a call leaves and what it has done, in order.
pub record ClientServed : Type 0 where
  pub state : ClientNtrip
  pub effects : List SessionEffect

-- What the core tells a subscriber: data, that it has subscribed and, if so, to which mount point,
-- or an error.
pub data SubReply : Type 0 where
  sub_string : List ℕ → SubReply
  sub_ok : Option String → SubReply
  sub_err sub_other : SubReply

unfoldable pub start : ClientNtrip → ClientServed
start s = record {
  state = record s { stopped = false };
  effects = set_bev false true ∷ add_login_record auth_client ∷ [];
}

unfoldable pub unsub_mpt : ClientNtrip → String
unsub_mpt s = if is_empty s.alias_mpt then s.mount_point else s.alias_mpt

unfoldable pub stop : ClientNtrip → ClientServed
unfolding unsub_mpt
stop s = if s.stopped then record { state = s; effects = [] } else record {
  state = record s { stopped = true; registered = false };
  effects =
      set_bev false false
      ∷ del_timer
      ∷ add_logout_record auth_client
      ∷ ((if s.registered
            then unsub_raw_data client (unsub_mpt s) ∷ withdraw_record client ∷ []
            else [])
          ++ push_destroy ∷ []);
}

unfoldable pub running : ClientOpt → ClientNtrip → ClientServed
running opt s = if s.is_running then record { state = s; effects = [] } else record {
  state = record s { is_running = true };
  effects =
      set_bev true true
      ∷ set_timer opt.connect_timeout
      ∷ write_reply s.ntrip_version2 s.transfer_with_chunked
      ∷ [];
}

-- With "%lx" and the number of bytes that wait to be sent.
unfoldable pub transfer_sub_raw_data :
    ClientOpt → (ℕ → List ℕ) → ℕ → List ℕ → ClientNtrip → ClientServed
unfolding stop chunk_text
transfer_sub_raw_data opt print_hex unsend_size piece s =
    if ltb 0 opt.unsend_byte_limit && ltb opt.unsend_byte_limit unsend_size
    then stop s
    else record {
      state = s;
      effects =
          write_buffer (if s.transfer_with_chunked then chunk_text print_hex piece else piece) ∷ [];
    }

unfoldable pub publish_recv_raw_data : ClientNtrip → ClientServed
publish_recv_raw_data s = elim s.recv_evbuf [
  | [] ↦ record { state = s; effects = [] }
  | x ∷ xs ↦ record {
    state = record s { recv_evbuf = [] };
    effects = pub_raw_data client (x ∷ xs) ∷ [];
  }
]

unfoldable pub read_callback : List ℕ → ClientNtrip → ClientServed
unfolding publish_recv_raw_data
read_callback bytes s = publish_recv_raw_data (record s { recv_evbuf = s.recv_evbuf ++ bytes })

unfoldable pub auth_login_callback : AuthReplyData → ClientNtrip → ClientServed
unfolding stop
auth_login_callback reply s = elim reply.type [
  | auth_ok ↦
      let group = if is_empty reply.group_uid then s.group_uid else reply.group_uid in
      record { state = record s { group_uid = group }; effects = register_record client group ∷ [] }
  | _ ↦ stop s
]

unfoldable pub caster_register_callback : Reply → ClientNtrip → ClientServed
unfolding stop
caster_register_callback reply s = elim reply.type [
  | ok ↦ record {
    state = record s { registered = true };
    effects = sub_raw_data client s.group_uid ∷ [];
  }
  | err ↦ stop s
  | _ ↦ record { state = s; effects = [] }
]

unfoldable pub caster_subscribe_callback :
    ClientOpt → (ℕ → List ℕ) → ℕ → SubReply → ClientNtrip → ClientServed
unfolding stop running transfer_sub_raw_data
caster_subscribe_callback opt print_hex unsend_size (sub_string piece) s =
    transfer_sub_raw_data opt print_hex unsend_size piece s
caster_subscribe_callback opt print_hex unsend_size (sub_ok none) s = running opt s
caster_subscribe_callback opt print_hex unsend_size (sub_ok (some mount)) s =
    running opt (record s { alias_mpt = mount })
caster_subscribe_callback opt print_hex unsend_size sub_err s = stop s
caster_subscribe_callback opt print_hex unsend_size sub_other s = record { state = s; effects = [] }
