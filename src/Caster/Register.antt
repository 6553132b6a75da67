-- ===== src/Caster/Register.antt =====
-- core/src/caster_internal.cpp: registering and withdrawing a connection, and the answer of Redis
-- to the query for the logins of one name.
use Prim.Native.String.{◌++◌ as str_append}
use nav_caster.Base.{ℕ, String, Bool, true, false, List, [], ◌∷◌, if◌then◌else◌}
use nav_caster.Base.Int.{pos}
use nav_caster.Base.Dict.{set, insert, has}
use nav_caster.Access.{check_mount_access, check_nearest_mount_login, normalize_access_group_uid}
use nav_caster.Rtcm.{Decoder}
use nav_caster.Rtcm.Message.{Facts}
use nav_caster.Caster.{
  err, CasterRegisterType, nearest, CbItem, LoginStatus, StreamStatus, History, NmeaDecoder, Effect,
  redis, query, log, Caster, Result, after, reply, subs_of,
}

abbrev new_stream : StreamStatus
new_stream = record { send_total = 0; recv_total = 0 }

abbrev new_facts : Facts
new_facts = record {
  has_position = false;
  ecef_x = pos 0;
  ecef_y = pos 0;
  ecef_z = pos 0;
  position_update_time = 0;
  msg_stats = [];
  gps_indicator = false;
  glo_indicator = false;
  gal_indicator = false;
  bds_indicator = false;
  qzss_indicator = false;
  sbas_indicator = false;
  navic_indicator = false;
}

abbrev pub new_decoder : Decoder
new_decoder = record {
  facts = new_facts;
  data_ = [];
  msg = [];
  recycle_back_flag = false;
  recycle_front_flag = false;
  recycle_back = [];
  recycle_front = [];
}

abbrev new_nmea : NmeaDecoder
new_nmea = record { data_ = []; msg = []; recycle_back = []; recycle_front = [] }

-- The arguments of a registration, with the group as the caller gives it.
abbrev with_group : CbItem → CbItem
with_group r = record r { group_uid = normalize_access_group_uid r.group_uid }

-- `set_info`
login : CbItem → CasterRegisterType → LoginStatus
login r type = record {
  login_mpt = r.channel;
  alias_mpt = r.channel;
  type = type;
  account = r.user_name;
}

-- The entry of the connection's history, which names a rover by its user. The text of a base's entry
-- has no mount.
opened : String → CbItem → CasterRegisterType → ℕ → History
opened name r type now = record {
  name = name;
  mount = r.channel;
  connect_key = r.connect_key;
  type = type;
  account = r.user_name;
  connect_time = now;
  last_update = now;
  disconnect_time = 0;
  send_total = 0;
  recv_total = 0;
}

-- The records that a registration makes before it looks for the key among the channel's.
unfoldable pub open_base : ℕ → CbItem → CasterRegisterType → Caster → Caster
unfolding login opened
open_base now r type s = record s {
  base_register_map = insert r.channel [] s.base_register_map;
  server_status_map = insert r.connect_key (login r type) s.server_status_map;
  stream_status_map = insert r.connect_key new_stream s.stream_status_map;
  base_decoder_map = insert r.connect_key new_decoder s.base_decoder_map;
  base_history_map = set r.connect_key (opened r.channel r type now) s.base_history_map;
}

open_base_effects : ℕ → CbItem → CasterRegisterType → List Effect
unfolding opened
open_base_effects now r type =
    redis ("HSETEX" ∷ "MPT:STAT" ∷ r.connect_key ∷ [])
    ∷ redis ("HSETEX" ∷ "STR:STAT" ∷ r.connect_key ∷ [])
    ∷ log (str_append "LOG:MPT:" r.channel) (opened r.channel r type now)
    ∷ []

-- Returns 1 without a callback for a key that is registered for the channel already.
unfoldable pub add_base : CbItem → Caster → Result
unfolding subs_of
add_base item s =
    let subs = subs_of item.channel s.base_register_map in
    if has item.connect_key subs then record { code = 1; state = s; effects = [] } else record {
      code = 0;
      state = record s {
        base_register_map =
            set item.channel (insert item.connect_key item subs) s.base_register_map;
      };
      effects =
          redis ("HSETEX" ∷ str_append "MPT:REC:" item.channel ∷ item.connect_key ∷ [])
          ∷ query ("HGETALL" ∷ str_append "MPT:REC:" item.channel ∷ []) item
          ∷ [];
    }

unfoldable pub register_base_channel : ℕ → CbItem → CasterRegisterType → Caster → Result
unfolding open_base add_base open_base_effects
register_base_channel now r type s =
    let check = check_mount_access s.policy (normalize_access_group_uid r.group_uid) r.channel in
    if check.allowed
    then after (open_base_effects now r type) (add_base (with_group r) (open_base now r type s))
    else record { code = 1; state = s; effects = reply r err check.reason ∷ [] }

unfoldable pub open_rover : ℕ → CbItem → CasterRegisterType → Caster → Caster
unfolding login opened
open_rover now r type s = record s {
  rover_register_map = insert r.user_name [] s.rover_register_map;
  client_status_map = insert r.connect_key (login r type) s.client_status_map;
  stream_status_map = insert r.connect_key new_stream s.stream_status_map;
  rover_decoder_map = insert r.connect_key new_nmea s.rover_decoder_map;
  rover_history_map = set r.connect_key (opened r.user_name r type now) s.rover_history_map;
}

open_rover_effects : ℕ → CbItem → CasterRegisterType → List Effect
unfolding opened
open_rover_effects now r type =
    redis ("HSETEX" ∷ "USR:STAT" ∷ r.connect_key ∷ [])
    ∷ redis ("HSETEX" ∷ "STR:STAT" ∷ r.connect_key ∷ [])
    ∷ log (str_append "LOG:USR:" r.user_name) (opened r.user_name r type now)
    ∷ []

unfoldable pub add_rover : CbItem → Caster → Result
unfolding subs_of
add_rover item s =
    let subs = subs_of item.user_name s.rover_register_map in
    if has item.connect_key subs then record { code = 1; state = s; effects = [] } else record {
      code = 0;
      state = record s {
        rover_register_map =
            set item.user_name (insert item.connect_key item subs) s.rover_register_map;
        kick_map = set item.connect_key item s.kick_map;
      };
      effects =
          redis ("HSETEX" ∷ str_append "USR:REC:" item.user_name ∷ item.connect_key ∷ [])
          ∷ query ("HGETALL" ∷ str_append "USR:REC:" item.user_name ∷ []) item
          ∷ [];
    }

abbrev pub is_nearest : CasterRegisterType → Bool
is_nearest nearest = true
is_nearest _ = false

unfoldable pub register_rover_channel : ℕ → CbItem → CasterRegisterType → Caster → Result
unfolding open_rover add_rover open_rover_effects
register_rover_channel now r type s =
    let group = normalize_access_group_uid r.group_uid in
    let check =
      if is_nearest type
      then check_nearest_mount_login s.policy group r.channel
      else check_mount_access s.policy group r.channel in
    if check.allowed
    then after (open_rover_effects now r type) (add_rover (with_group r) (open_rover now r type s))
    else record { code = 1; state = s; effects = reply r err check.reason ∷ [] }
