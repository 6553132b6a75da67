-- ===== src/Auth.antt =====
-- auth/include/Auth_Verify.h, auth/src/auth_verify_internal.h and auth/src/auth_verify_internal.cpp:
-- who may log in, and how often at once. A callback is two numbers, the pointers `cb` and `arg`; that
-- it is called is an effect, and so is every command that goes to Redis, without the times in it.
pub mod Limit
pub mod Verify
pub mod Login
pub mod Kick
pub mod Broadcast
pub mod Verified
pub mod Kicking
pub mod Protecting
pub mod Newest
pub mod Reaching
pub mod Examples
use nav_caster.Base.{
  ℕ, String, Bool, true, false, Option, none, some, List, [], ◌∷◌, ◌&&◌, if◌then◌else◌, is_empty,
}
use nav_caster.Base.Int.{ℤ}
use nav_caster.Base.Dict.{Dict, find, set, insert}

-- The other replies of the enumeration are never made here.
pub data AuthReply : Type 0 where
  err ok other : AuthReply

pub data AuthBroadcastType : Type 0 where
  account_status_update unnamed_status_update other_type : AuthBroadcastType

pub data AuthType : Type 0 where
  unknown server client source : AuthType

-- `auth_reply`, with `none` for a text that is not set.
pub record AuthReplyData : Type 0 where
  pub type : AuthReply
  pub str : Option String
  pub group_uid : String

pub record AuthCtx : Type 0 where
  pub type : AuthType
  pub user_name : String
  pub user_pwd : String
  pub connect_key : String
  pub cb : ℕ
  pub arg : ℕ

-- What the constructor of `auth_status` sets, whatever it is given.
pub record AuthStatus : Type 0 where
  pub uid : String
  pub account : String

pub record AuthLimit : Type 0 where
  pub account : String
  pub password : String
  pub active : Bool
  pub type : ℤ
  pub date_limit : ℤ
  pub time_limit : ℤ
  pub access : ℤ
  pub connect_limit : ℕ
  pub group : String
  pub expire : ℤ

pub record AuthCbItem : Type 0 where
  pub connect_key : String
  pub user_name : String
  pub cb : ℕ
  pub arg : ℕ

pub record AuthBroadcastItem : Type 0 where
  pub type : AuthBroadcastType
  pub connect_key : String
  pub channel : String
  pub para : String
  pub status : AuthReply
  pub reason : String

-- The functions that the answer to a command may go to.
pub data Answer : Type 0 where
  add_temp verify_password add_login add_unname : Answer

pub data AuthEffect : Type 0 where
  -- A call `cb(nullptr, arg, &Reply)`.
  call : ℕ → ℕ → AuthReplyData → AuthEffect
  redis : List String → AuthEffect
  query : Answer → List String → AuthCtx → AuthEffect
  -- PUBLISH AUTH:BROADCAST
  publish : AuthBroadcastItem → AuthEffect

-- `verify_internal`
pub record Verifier : Type 0 where
  pub server_anonymous_login : Bool
  pub server_online_protection : Bool
  pub client_anonymous_login : Bool
  pub client_online_protection : Bool
  pub source_anonymous_login : Bool
  pub register_map : Dict (Dict AuthCbItem)
  pub unnamed_map : Dict (Dict AuthCbItem)
  pub register_limit_map : Dict AuthLimit
  pub unnamed_limit_map : Dict AuthLimit
  pub register_status_map : Dict AuthStatus

-- What an operation returns, the state it leaves and what it has sent, in order.
pub record AuthResult : Type 0 where
  pub code : ℕ
  pub state : Verifier
  pub effects : List AuthEffect

unfoldable pub normalize_group_uid : String → String
normalize_group_uid group_uid = if is_empty group_uid then "default" else group_uid

-- The connections of a user, none for a user without an entry.
unfoldable pub entries : String → Dict (Dict AuthCbItem) → Dict AuthCbItem
unfolding find
entries user m = elim (find user m) [ none ↦ [] | some items ↦ items ]

-- The user's entry is made where it is missing, and the item inserted into it.
unfoldable pub enter : AuthCbItem → Dict (Dict AuthCbItem) → Dict (Dict AuthCbItem)
unfolding entries
enter item m = set item.user_name (insert item.connect_key item (entries item.user_name m)) m

-- `connect_limit` of an account without a name of its own.
abbrev pub unlimited : ℕ
unlimited = 9999

-- `send_change_auth_status`
unfoldable pub send_change_auth_status : String → String → AuthReply → String → AuthEffect
send_change_auth_status user_name connect_key status reason = publish (record {
  type = account_status_update;
  connect_key = connect_key;
  channel = user_name;
  para = "";
  status = status;
  reason = reason;
})
