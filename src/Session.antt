-- ===== src/Session.antt =====
-- service/session: the session of a connection, from its login to its end. What a session does to
-- the parts around it is an effect. Of libevent are left out the buffers that only wait to be sent.
pub mod Chunk
pub mod Server
pub mod Client
pub mod Response
pub mod Pull
pub mod Decoded
pub mod Split
pub mod Ended
pub mod Retrying
pub mod Examples
use nav_caster.Base.{ℕ, String, Bool, List}
use nav_caster.Caster.{CasterRegisterType}
use nav_caster.Auth.{AuthType}

pub data SessionEffect : Type 0 where
  -- set_bev: whether reading, and whether events, go to the session from now on.
  set_bev : Bool → Bool → SessionEffect
  -- A timeout for reading, in seconds.
  set_timer : ℕ → SessionEffect
  del_timer : SessionEffect
  -- An event of the session's own, every so many seconds.
  event_add : ℕ → SessionEffect
  event_del : SessionEffect
  add_login_record : AuthType → SessionEffect
  add_logout_record : AuthType → SessionEffect
  -- With the group.
  register_record : CasterRegisterType → String → SessionEffect
  withdraw_record : CasterRegisterType → SessionEffect
  pub_raw_data : CasterRegisterType → List ℕ → SessionEffect
  -- Sub_Raw_Data with the group, Unsub_Raw_Data with the mount point.
  sub_raw_data : CasterRegisterType → String → SessionEffect
  unsub_raw_data : CasterRegisterType → String → SessionEffect
  -- bufferevent_write_buffer
  write_buffer : List ℕ → SessionEffect
  -- The reply to the request, by the version and whether it announces chunks.
  write_reply : Bool → Bool → SessionEffect
  write_text : String → SessionEffect
  -- The request of a relay, by the version and the mount point.
  write_request : Bool → String → SessionEffect
  -- new_bev, to the address of the task.
  new_bev : SessionEffect
  -- The connection with this key is freed.
  del_bev : String → SessionEffect
  -- Set_Pull_Base_Info, with the key and the state.
  set_pull_base_info : String → ℕ → SessionEffect
  -- QUEUE::Push with OPERATE_TYPE_DESTROY
  push_destroy : SessionEffect
