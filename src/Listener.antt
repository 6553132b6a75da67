-- ===== src/Listener.antt =====
-- service/ntrip_listener.h and ntrip_listener.cpp: a new connection sends one request, from which the
-- listener makes a ConnectInfo for the session to come. A text is the list of its bytes; the key of
-- a connection and a group, which are never looked into, are texts of the library. Left out are the
-- address of the client, and the degrees of a position.
pub mod Accept
pub mod Text
pub mod Gga
pub mod Headers
pub mod Request
pub mod Lines
pub mod Credentials
pub mod Accepted
pub mod Disposed
pub mod Dispatch
pub mod Examples
use nav_caster.Base.{ℕ, String, Bool, Option, List}
use nav_caster.Auth.{AuthType}

-- The options that a request meets.
pub record ListenerOpt : Type 0 where
  pub enable_source_login : Bool
  pub enable_client_login : Bool
  pub enable_server_login : Bool
  pub enable_header_no_crlf : Bool

pub data ConnectType : Type 0 where
  unknown source server client nearest proxy alias pull push grid vrs : ConnectType

pub data OperateType : Type 0 where
  unknown_operate create destroy pause update : OperateType

pub record ConnectInfo : Type 0 where
  pub connect_key : String
  pub operate : OperateType
  pub type : ConnectType
  pub group_uid : String
  pub mount_point : List ℕ
  pub mount_para : List ℕ
  pub mount_info : List ℕ
  pub http_host : List ℕ
  pub http_chunked : List ℕ
  pub user_agent : List ℕ
  pub ntrip_version : List ℕ
  pub ntrip_gga : List ℕ
  pub ntrip_auth : List ℕ
  pub user_base64 : List ℕ
  pub user_name : List ℕ
  pub user_pwd : List ℕ

-- Check_Nearest_Mpt and Check_Alias_Mpt of the core.
pub record Mounts : Type 0 where
  pub is_nearest : List ℕ → Bool
  pub is_alias : List ℕ → Bool

-- How a call ends: with a value, with an exception, or where C leaves open what happens.
pub data Outcome {ℓ} (A : Type ℓ) : Type ℓ where
  value : A → Outcome A
  thrown : Outcome A
  undefined : Outcome A

pub data ListenerEffect : Type 0 where
  -- bufferevent_disable, and no callbacks any more.
  stop_reading : ListenerEffect
  del_timer : String → ListenerEffect
  del_bev : String → ListenerEffect
  -- AUTH::Verify with the name and the password, and Auth_Verify_Cb with the request.
  verify : AuthType → ConnectInfo → ListenerEffect
  -- QUEUE::Push
  queue_push : ConnectInfo → ListenerEffect
