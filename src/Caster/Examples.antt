-- ===== src/Caster/Examples.antt =====
-- A node's operations at concrete states.
use Prim.Native.String.{◌++◌ as str_append}
use nav_caster.Base.{
  String, str_eq, ◌≡◌, ◌≢◌, refl, true, false, Option, none, some, List, [], ◌∷◌, ◌++◌,
  if◌then◌else◌, arith,
}
use nav_caster.Base.Dict.{find, has}
use nav_caster.Access.{Policy, is_alias_mpt, check_mount_access, allow}
use nav_caster.Caster.{
  client, err, reply, client_operate, server_operate, CbItem, server, string, Caster, Result, call,
  subs_of,
}
use nav_caster.Caster.Register.{register_rover_channel, register_base_channel}
use nav_caster.Caster.Withdraw.{withdraw_base_channel}
use nav_caster.Caster.Subscribe.{
  sub_direct, unsub_base_channel, sub_base_channel, sub_rover_channel, alias_target,
}
use nav_caster.Caster.Offline.{
  deletion, broadcast_response-register_rover, broadcast_response-register_base,
}
use nav_caster.Caster.Notify.{
  broadcast_response, holds, register_base_callback, register_rover_callback, sub_base_callback,
  sub_rover_callback,
}
use nav_caster.Caster.Roundtrip.{SameRecords, withdraw-register}
use nav_caster.Caster.Kicks.{targets, has_to_go, Lost, register_base-targets, kicks-Lost}
use nav_caster.Caster.Delivery.{deliver-sub, unsub-sub, deliver-sub_rover}
use nav_caster.Caster.Alias.{Leads, IsLoop, sub_base_channel-ends, sub_base_channel-loops}
use nav_caster.Caster.Filing.{FiledBy, Filed}
use nav_caster.Caster.Invariant.{IsWellFiled}
use nav_caster.Caster.Reachable.{start, next, register_base, Reachable-IsWellFiled}

abbrev open_policy : Policy
open_policy = record {
  source_record_map = [];
  source_decode_map = [];
  access_group_map = [];
  access_item_map = [];
  alias_rule_map = [];
}

-- A node that has just started, and knows one mount that is online.
abbrev node : Caster
node = record {
  policy = open_policy;
  active_mount_map = ("BASE1", "") ∷ [];
  active_user_map = [];
  base_sub_map = [];
  rover_sub_map = [];
  base_register_map = [];
  rover_register_map = [];
  base_near_sub_map = [];
  near_pos_cache_map = [];
  kick_map = [];
  stream_status_map = [];
  server_status_map = [];
  client_status_map = [];
  base_decoder_map = [];
  rover_decoder_map = [];
  base_history_map = [];
  rover_history_map = [];
  send_total = 0;
  upload_base_stat = true;
  upload_rover_stat = true;
  notify_base_inactive = true;
  notify_rover_inactive = true;
  base_enable_mult = false;
  base_keep_early = false;
  rover_enable_mult = false;
  rover_keep_early = false;
}

abbrev base : CbItem
base = record {
  connect_key = "k1";
  channel = "BASE1";
  user_name = "ann";
  group_uid = "";
  cb = 1;
  arg = 2;
}

withdraw-register_example :
    ((withdraw_base_channel 9 "BASE1" "k1" (register_base_channel 5 base server node).state).code
      ≡ 0)
    × SameRecords
        (withdraw_base_channel 9 "BASE1" "k1"
          (register_base_channel 5 base server node).state).state
        node
unfolding check_mount_access allow find subs_of
withdraw-register_example =
    withdraw-register 5 9 base server node refl (refl, (refl, (refl, (refl, refl))))

abbrev logins : List String
logins = "k0" ∷ "k1" ∷ []

register_base-targets_example :
    holds "k0" (targets (register_base_callback base logins node))
    ≡ has_to_go false false "k1" logins "k0"
register_base-targets_example = register_base-targets node base logins "k0"

-- The earlier login has to go.
k0-has_to_go : has_to_go false false "k1" logins "k0" ≡ true
unfolding holds
k0-has_to_go = refl

kicks-Lost_example :
    Lost node (register_base_callback base logins node)
    × Lost node (register_rover_callback base logins node)
kicks-Lost_example = kicks-Lost node node base logins

abbrev split : String → Option (String × String)
split pattern = if str_eq pattern "MPT:BASE1" then some ("MPT", "BASE1") else none

deliver-sub_example :
    (sub_base_callback split "MPT:BASE1" "data" (sub_direct base false node).state).effects
    ≡ (sub_base_callback split "MPT:BASE1" "data" node).effects
      ++ call 1 2 (some "MPT:BASE1") (record { type = string; str = "data" }) ∷ []
unfolding check_mount_access allow find subs_of has
deliver-sub_example = deliver-sub split "MPT" "MPT:BASE1" "data" base false node refl refl refl

unsub-sub_example :
    (sub : Result) × ((sub_base_channel 1 base false node ≡ some sub)
      × (((unsub_base_channel "BASE1" "k1" sub.state).code ≡ 0)
          × ((c k : String)
              → find k (subs_of c (unsub_base_channel "BASE1" "k1" sub.state).state.base_sub_map)
                ≡ find k (subs_of c node.base_sub_map))))
unfolding check_mount_access allow find subs_of has is_alias_mpt
unsub-sub_example = unsub-sub 0 base node refl refl refl refl

abbrev rover : CbItem
rover = record {
  connect_key = "k2";
  channel = "bob";
  user_name = "ann";
  group_uid = "";
  cb = 3;
  arg = 4;
}

deliver-sub_rover_example :
    (sub_rover_callback
      (str_append "USR:" "bob")
      "data"
      (sub_rover_channel rover node).state).effects
    ≡ []
unfolding find
deliver-sub_rover_example = deliver-sub_rover rover node "data" refl refl

-- "A" is an alias of the mount that is online.
abbrev alias_node : Caster
alias_node = record node {
  policy = record open_policy { alias_rule_map = ("A", "X" ∷ "BASE1" ∷ []) ∷ [] };
}

abbrev to_alias : CbItem
to_alias = record base { channel = "A" }

base1_plain : is_alias_mpt alias_node.policy "BASE1" ≡ false
unfolding is_alias_mpt has find
base1_plain = refl

alias_node_plain :
    (channel mpt : String)
    → Leads alias_node channel mpt
    → is_alias_mpt alias_node.policy mpt ≡ false
unfolding find alias_target has
alias_node_plain channel mpt e = ground (arith, base1_plain)

sub_base_channel-ends_example : sub_base_channel 2 to_alias false alias_node ≢ none
sub_base_channel-ends_example = sub_base_channel-ends 0 to_alias false alias_node alias_node_plain

-- The aliases "A" and "B" name each other.
abbrev loop_node : Caster
loop_node = record node {
  policy = record open_policy { alias_rule_map = ("A", "B" ∷ []) ∷ ("B", "A" ∷ []) ∷ [] };
  active_mount_map = ("A", "") ∷ ("B", "") ∷ [];
}

loop_node-IsLoop : IsLoop loop_node "A" "B"
unfolding is_alias_mpt alias_target find
loop_node-IsLoop = record {
  apart = refl;
  back_apart = refl;
  alias_a = refl;
  alias_b = refl;
  there = refl;
  back = refl;
}

sub_base_channel-loops_example :
    sub_base_channel 100 (record base { channel = "A" }) false loop_node ≡ none
sub_base_channel-loops_example =
    sub_base_channel-loops 100 (record base { channel = "A" }) false loop_node "B" loop_node-IsLoop

node-IsWellFiled : IsWellFiled node
unfolding FiledBy Filed subs_of find
node-IsWellFiled = record {
  base_sub = λ c k item e. cc e;
  rover_sub = λ c k item e. cc e;
  base_register = λ c k item e. cc e;
  rover_register = λ c k item e. cc e;
  near = λ k item e. cc e;
  kick = λ k item e. cc e;
}

Reachable-IsWellFiled_example : IsWellFiled (register_base_channel 5 base server node).state
Reachable-IsWellFiled_example =
    Reachable-IsWellFiled node (register_base_channel 5 base server node).state
      (next node (register_base_channel 5 base server node).state start
        (register_base 5 base server refl))
      node-IsWellFiled

broadcast_response-register_rover_example :
    broadcast_response
      (some (deletion client_operate "k2" "maintenance"))
      (register_rover_channel 5 (record rover { channel = "BASE1" }) client node).state
    ≡ (0, reply rover err "maintenance" ∷ [])
unfolding check_mount_access allow find subs_of
broadcast_response-register_rover_example =
    broadcast_response-register_rover 5 (record rover { channel = "BASE1" }) client node
      "maintenance" refl refl refl refl

broadcast_response-register_base_example :
    broadcast_response
      (some (deletion server_operate "k1" "maintenance"))
      (register_base_channel 5 base server node).state
    ≡ (0, [])
unfolding find
broadcast_response-register_base_example =
    broadcast_response-register_base 5 base server node "maintenance" refl refl
