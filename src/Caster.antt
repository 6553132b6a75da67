-- ===== src/Caster.antt =====
-- core/src/caster_internal.h and core/src/caster_internal.cpp: what one node keeps of its own
-- connections, the subscriptions and registrations made with it, and what it tells others.
-- A callback is two numbers, the pointers `cb` and `arg`; that it is called is an effect, and so is
-- every command that goes to Redis. What a callback does to the node meanwhile is a later step.
-- Left out of the commands: the expiry of a field, and its value where that is a time or a JSON
-- text.
pub mod Register
pub mod Withdraw
pub mod Subscribe
pub mod Notify
pub mod Roundtrip
pub mod Kicks
pub mod Delivery
pub mod Alias
pub mod Filing
pub mod Invariant
pub mod Subscribing
pub mod Offline
pub mod Reachable
pub mod Examples
use nav_caster.Base.{
  ℕ, ◌+◌, String, Bool, true, false, Option, none, some, List, [], ◌∷◌, ◌++◌, if◌then◌else◌,
}
use nav_caster.Base.Int.{ℤ}
use nav_caster.Base.Dict.{Dict, find, set}
use nav_caster.Access.{Policy}
use nav_caster.Rtcm.{Decoder}

pub data CasterReply : Type 0 where
  err ok active inactive string integer double nil : CasterReply

pub data CasterRegisterType : Type 0 where
  unknown server client nearest alias pull push : CasterRegisterType

-- `caster_reply`
pub record Reply : Type 0 where
  pub type : CasterReply
  pub str : String

-- `caster_cb_item`
pub record CbItem : Type 0 where
  pub connect_key : String
  pub channel : String
  pub user_name : String
  pub group_uid : String
  pub cb : ℕ
  pub arg : ℕ

-- The types and operations of `broadcast_msg` that the node's own maps answer to.
pub data BroadcastType : Type 0 where
  unspecified_type server_operate client_operate other_type : BroadcastType

pub data BroadcastOperate : Type 0 where
  unspecified active_operate inactive_operate delete_operate other_operate : BroadcastOperate

pub record BroadcastMsg : Type 0 where
  pub type : BroadcastType
  pub operate : BroadcastOperate
  pub target : String
  pub msg_str : String
  pub reason_str : String

-- `server_status` and `client_status`, without the addresses, times and counters that only the
-- uploads read.
pub record LoginStatus : Type 0 where
  pub login_mpt : String
  pub alias_mpt : String
  pub type : CasterRegisterType
  pub account : String

-- The totals of `stream_status`, whole numbers in a double.
pub record StreamStatus : Type 0 where
  pub send_total : ℕ
  pub recv_total : ℕ

-- The entry of a history map, a JSON object.
pub record History : Type 0 where
  pub name : String
  pub mount : String
  pub connect_key : String
  pub type : CasterRegisterType
  pub account : String
  pub connect_time : ℕ
  pub last_update : ℕ
  pub disconnect_time : ℕ
  pub send_total : ℕ
  pub recv_total : ℕ

-- The buffers of `decode_nmea`.
pub record NmeaDecoder : Type 0 where
  pub data_ : List ℕ
  pub msg : List ℕ
  pub recycle_back : List ℕ
  pub recycle_front : List ℕ

-- A position whose coordinates are written as std::to_string writes them.
pub record Position : Type 0 where
  pub lat : String
  pub lon : String
  pub is_zero : Bool

-- `_near_pos_cache_map`'s values, in the coordinates' own unit.
pub record NearPosCache : Type 0 where
  pub ecef_x : ℤ
  pub ecef_y : ℤ
  pub ecef_z : ℤ

abbrev pub Subscribers : Type 0
Subscribers = Dict CbItem

pub data Effect : Type 0 where
  -- A call `cb(pattern, arg, &Reply)`, with `none` for NULL.
  call : ℕ → ℕ → Option String → Reply → Effect
  redis : List String → Effect
  -- A command whose answer goes to a callback with this item.
  query : List String → CbItem → Effect
  -- GEORADIUS around a longitude and a latitude, on behalf of a connection.
  near_query : String → String → String → Effect
  -- The JSON text of an entry, into the log of a name.
  log : String → History → Effect
  publish : BroadcastMsg → Effect

pub record Caster : Type 0 where
  pub policy : Policy
  pub active_mount_map : Dict String
  pub active_user_map : Dict String
  pub base_sub_map : Dict Subscribers
  pub rover_sub_map : Dict Subscribers
  pub base_register_map : Dict Subscribers
  pub rover_register_map : Dict Subscribers
  pub base_near_sub_map : Dict CbItem
  pub near_pos_cache_map : Dict NearPosCache
  pub kick_map : Dict CbItem
  pub stream_status_map : Dict StreamStatus
  pub server_status_map : Dict LoginStatus
  pub client_status_map : Dict LoginStatus
  pub base_decoder_map : Dict Decoder
  pub rover_decoder_map : Dict NmeaDecoder
  pub base_history_map : Dict History
  pub rover_history_map : Dict History
  pub send_total : ℕ
  pub upload_base_stat : Bool
  pub upload_rover_stat : Bool
  pub notify_base_inactive : Bool
  pub notify_rover_inactive : Bool
  pub base_enable_mult : Bool
  pub base_keep_early : Bool
  pub rover_enable_mult : Bool
  pub rover_keep_early : Bool

-- What an operation returns, the state it leaves and what it has sent, in order.
pub record Result : Type 0 where
  pub code : ℕ
  pub state : Caster
  pub effects : List Effect

-- The effects of what came before, in front.
abbrev pub after : List Effect → Result → Result
after es r = record r { effects = es ++ r.effects }

abbrev pub reply : CbItem → CasterReply → String → Effect
reply item t s = call item.cb item.arg none (record { type = t; str = s })

-- The subscribers filed under a channel, none for a channel without an entry.
unfoldable pub subs_of : String → Dict Subscribers → Subscribers
unfolding find
subs_of channel m = elim (find channel m) [ none ↦ [] | some subs ↦ subs ]

unfoldable pub operate_of_reply : CasterReply → BroadcastOperate
operate_of_reply active = active_operate
operate_of_reply inactive = inactive_operate
operate_of_reply _ = unspecified

unfoldable pub reply_of_operate : BroadcastOperate → CasterReply
reply_of_operate active_operate = active
reply_of_operate inactive_operate = inactive
reply_of_operate _ = ok

unfoldable pub send_status_base_channel : String → String → CasterReply → String → Effect
send_status_base_channel channel connect_key status reason = publish (record {
  type = server_operate;
  operate = operate_of_reply status;
  target = connect_key;
  msg_str = channel;
  reason_str = reason;
})

unfoldable pub send_status_rover_channel : String → String → CasterReply → String → Effect
send_status_rover_channel channel connect_key status reason = publish (record {
  type = client_operate;
  operate = operate_of_reply status;
  target = connect_key;
  msg_str = channel;
  reason_str = reason;
})
