-- ===== src/Caster/Offline.antt =====
-- core/src/caster_internal.cpp: forcing a connection offline, by a broadcast that deletes it.
use nav_caster.Base.{
  ℕ, String, is_empty, Bool, true, false, none, some, [], ◌∷◌, ◌≡◌, ◌∙◌, ap, if◌then◌else◌, arith,
}
use nav_caster.Base.Dict.{find, insert, find-set_self, has-none}
use nav_caster.Access.{check_mount_access, check_nearest_mount_login, normalize_access_group_uid}
use nav_caster.Caster.{
  err, CasterRegisterType, CbItem, BroadcastType, client_operate, server_operate, BroadcastMsg,
  delete_operate, Caster, reply, subs_of,
}
use nav_caster.Caster.Register.{
  register_base_channel, open_base, add_base, register_rover_channel, open_rover, add_rover,
  is_nearest,
}
use nav_caster.Caster.Notify.{broadcast_response, is_delete, register_map_of, force_offline}
use nav_caster.Caster.Roundtrip.{subs_of-insert_nil}

-- The broadcast with which an administrator forces a connection offline.
abbrev pub deletion : BroadcastType → String → String → BroadcastMsg
deletion type key reason = record {
  type = type;
  operate = delete_operate;
  target = key;
  msg_str = "";
  reason_str = reason;
}

-- The check of a rover's registration.
abbrev pub rover_allowed : CbItem → CasterRegisterType → Caster → Bool
rover_allowed r type s =
    (if is_nearest type
      then check_nearest_mount_login s.policy (normalize_access_group_uid r.group_uid) r.channel
      else check_mount_access s.policy (normalize_access_group_uid r.group_uid) r.channel).allowed

abbrev filed : CbItem → CbItem
filed r = record r { group_uid = normalize_access_group_uid r.group_uid }

deletion_lem :
    (key reason : String) (s : Caster) (item : CbItem)
    → is_empty key ≡ false
    → is_empty reason ≡ false
    → find key s.kick_map ≡ some item
    → broadcast_response (some (deletion client_operate key reason)) s
      ≡ (0, reply item err reason ∷ [])
unfolding broadcast_response is_delete register_map_of force_offline
deletion_lem key reason s item full given e = ground arith

kick_map-register :
    (now : ℕ) (r : CbItem) (type : CasterRegisterType) (s : Caster)
    → rover_allowed r type s ≡ true
    → find r.connect_key (subs_of r.user_name s.rover_register_map) ≡ none
    → find r.connect_key (register_rover_channel now r type s).state.kick_map ≡ some (filed r)
unfolding register_rover_channel add_rover open_rover
kick_map-register now r type s ok new = ground (
  arith,
  ok,
  has-none r.connect_key (subs_of r.user_name (insert r.user_name [] s.rover_register_map)) (
      ap (find r.connect_key) (subs_of-insert_nil r.user_name r.user_name s.rover_register_map)
      ∙ new),
  find-set_self r.connect_key (filed r) s.kick_map,
)

-- A rover that has registered, with success and for the first time, can be forced offline: the
-- broadcast that deletes its connection calls the rover's callback, and no other, with an error and
-- the reason given. The key of the connection and the reason are not empty.
pub broadcast_response-register_rover :
    (now : ℕ) (r : CbItem) (type : CasterRegisterType) (s : Caster) (reason : String)
    → rover_allowed r type s ≡ true
    → find r.connect_key (subs_of r.user_name s.rover_register_map) ≡ none
    → is_empty r.connect_key ≡ false
    → is_empty reason ≡ false
    → broadcast_response
        (some (deletion client_operate r.connect_key reason))
        (register_rover_channel now r type s).state
      ≡ (0, reply r err reason ∷ [])
broadcast_response-register_rover now r type s reason ok new full given =
    deletion_lem r.connect_key reason (register_rover_channel now r type s).state (filed r) full
      given (kick_map-register now r type s ok new)

deletion_missing :
    (key reason : String) (s : Caster)
    → is_empty key ≡ false
    → find key s.kick_map ≡ none
    → broadcast_response (some (deletion server_operate key reason)) s ≡ (0, [])
unfolding broadcast_response is_delete register_map_of force_offline
deletion_missing key reason s full e = ground arith

kick_map-register_base :
    (now : ℕ) (r : CbItem) (type : CasterRegisterType) (s : Caster)
    → (register_base_channel now r type s).state.kick_map ≡ s.kick_map
unfolding register_base_channel add_base open_base
kick_map-register_base now r type s = ground arith

-- A base that registers cannot be forced offline: the broadcast that deletes its connection calls
-- no callback, if the node did not have the connection in its kick map before the registration.
-- The key of the connection is not empty.
pub broadcast_response-register_base :
    (now : ℕ) (r : CbItem) (type : CasterRegisterType) (s : Caster) (reason : String)
    → find r.connect_key s.kick_map ≡ none
    → is_empty r.connect_key ≡ false
    → broadcast_response
        (some (deletion server_operate r.connect_key reason))
        (register_base_channel now r type s).state
      ≡ (0, [])
broadcast_response-register_base now r type s reason out full =
    deletion_missing r.connect_key reason (register_base_channel now r type s).state full
      (ap (find r.connect_key) (kick_map-register_base now r type s) ∙ out)
