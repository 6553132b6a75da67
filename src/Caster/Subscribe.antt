-- ===== src/Caster/Subscribe.antt =====
-- core/src/caster_internal.cpp: subscribing to a base, a nearest mount, an alias or a rover, and the
-- end of a subscription (sub_base_channel to unsub_rover_channel, Redis_Geo_Radius_Callback).
use Prim.Native.String.{◌++◌ as str_append}
use nav_caster.Base.{
  ℕ, zero, suc, String, str_eq, Bool, true, false, not, ◌&&◌, Option, none, some, List, [], ◌∷◌,
  ◌++◌, if◌then◌else◌,
}
use nav_caster.Base.Dict.{Dict, find, set, insert, erase, has}
use nav_caster.Access.{
  check_mount_access, check_nearest_mount_login, normalize_access_group_uid, is_alias_mpt,
}
use nav_caster.Caster.{
  err, ok, active, CbItem, LoginStatus, Position, redis, near_query, Caster, Result, after, reply,
  subs_of, send_status_base_channel, send_status_rover_channel,
}
use nav_caster.Caster.Withdraw.{unsub_near_channel}

unfoldable pub set_alias_mpt : String → String → Dict LoginStatus → Dict LoginStatus
unfolding find set
set_alias_mpt key mpt m = elim (find key m) [
  | none ↦ m
  | some st ↦ set key (record st { alias_mpt = mpt }) m
]

-- A channel without an entry is subscribed to at Redis, and announced.
unfoldable pub open_base_sub : String → Caster → Result
unfolding has send_status_base_channel
open_base_sub channel s =
    if has channel s.base_sub_map then record { code = 0; state = s; effects = [] } else record {
      code = 0;
      state = record s { base_sub_map = insert channel [] s.base_sub_map };
      effects =
          redis ("SUBSCRIBE" ∷ str_append "MPT:" channel ∷ [])
          ∷ send_status_base_channel channel "" active "First subscribe in one Caster Node"
          ∷ [];
    }

unfoldable pub file_base_sub : CbItem → Caster → Result
unfolding subs_of set_alias_mpt
file_base_sub r s = record {
  code = 0;
  state = record s {
    base_sub_map =
        set r.channel
          (insert r.connect_key (record r { group_uid = normalize_access_group_uid r.group_uid })
            (subs_of r.channel s.base_sub_map))
          s.base_sub_map;
    client_status_map = set_alias_mpt r.connect_key r.channel s.client_status_map;
  };
  effects =
      redis ("HSETEX" ∷ str_append "MPT:SUB:" r.channel ∷ r.connect_key ∷ [])
      ∷ reply r ok r.channel
      ∷ [];
}

-- The subscription to a channel that is no alias.
unfoldable pub sub_direct : CbItem → Bool → Caster → Result
unfolding has open_base_sub file_base_sub
sub_direct r skip s =
    let check = check_mount_access s.policy (normalize_access_group_uid r.group_uid) r.channel in
    if not skip && not check.allowed
    then record { code = 1; state = s; effects = reply r err check.reason ∷ [] }
    else if not (has r.channel s.active_mount_map)
    then record { code = 1; state = s; effects = reply r err "Can't Find Sub Base Recored" ∷ [] }
    else (let opened = open_base_sub r.channel s in
        after opened.effects (file_base_sub r opened.state))

-- The first base of an alias's rule that is online.
unfoldable pub alias_target : Caster → List String → Option String
unfolding has
alias_target s [] = none
alias_target s (mpt ∷ rest) = if has mpt s.active_mount_map then some mpt else alias_target s rest

-- A subscription that a channel's entry holds goes.
unfoldable pub leave : String → String → Caster → Caster
unfolding find
leave channel key s = elim (find channel s.base_sub_map) [
  | none ↦ s
  | some subs ↦ record s { base_sub_map = set channel (erase key subs) s.base_sub_map }
]

-- sub_alias_channel up to its call of sub_base_channel.
pub data AliasStep : Type 0 where
  ended : Result → AliasStep
  onward : CbItem → Caster → AliasStep

unfoldable pub alias_step : CbItem → Caster → AliasStep
unfolding find alias_target leave set_alias_mpt
alias_step r s = elim (find r.channel s.policy.alias_rule_map) [
  | none ↦
      ended
        (record { code = 1; state = s; effects = reply r err "Can't Find Alias Mount Point" ∷ [] })
  | some rule ↦ elim (alias_target s rule) [
    | none ↦ ended (record {
      code = 2;
      state = s;
      effects = reply r err "Can't Find Useful Alias Mount Point" ∷ [];
    })
    | some mpt ↦
        if str_eq r.channel mpt
        then ended (record { code = 0; state = s; effects = [] })
        else (let left = leave r.channel r.connect_key s in
            onward (record r { channel = mpt })
              (record left {
                client_status_map = set_alias_mpt r.connect_key mpt left.client_status_map;
              }))
  ]
]

-- `none` for calls that go on past the fuel: the target of an alias may be an alias.
unfoldable pub sub_base_channel : ℕ → CbItem → Bool → Caster → Option Result
unfolding alias_step sub_direct
sub_base_channel zero r skip s = none
sub_base_channel (suc f) r skip s =
    if is_alias_mpt s.policy r.channel
    then elim (alias_step r s) [
      | ended res ↦ some res
      | onward r' s' ↦ sub_base_channel f r' false s'
    ]
    else some (sub_direct r skip s)

-- A second call of a client sets the callback, but neither channel nor user.
unfoldable pub file_near : CbItem → Dict CbItem → Dict CbItem
unfolding find set
file_near r m =
    let group = normalize_access_group_uid r.group_uid in
    elim (find r.connect_key m) [
      | none ↦ set r.connect_key (record r { group_uid = group }) m
      | some old ↦ set r.connect_key (record old { group_uid = group; cb = r.cb; arg = r.arg }) m
    ]

-- `sent` is what hiredis answers: whether it has taken the command.
unfoldable pub sub_near_channel : CbItem → Position → Bool → Caster → Result
unfolding file_near
sub_near_channel r at sent s =
    let check =
      check_nearest_mount_login s.policy (normalize_access_group_uid r.group_uid) r.channel in
    let filed = record s { base_near_sub_map = file_near r s.base_near_sub_map } in
    if not check.allowed
    then record { code = 1; state = s; effects = reply r err check.reason ∷ [] }
    else if at.is_zero
    then record { code = 0; state = filed; effects = reply r ok r.channel ∷ [] }
    else if not sent
    then record { code = 1; state = filed; effects = [] }
    else record { code = 0; state = filed; effects = near_query at.lon at.lat r.connect_key ∷ [] }

-- The client moves to the base that has been found.
unfoldable pub switch_near : ℕ → CbItem → String → Caster → Option Result
unfolding leave set_alias_mpt sub_base_channel
switch_near f near field s =
    let left = leave near.channel near.connect_key s in
    let moved = record near { channel = field } in
    sub_base_channel f moved true (record left {
      client_status_map = set_alias_mpt near.connect_key field left.client_status_map;
      base_near_sub_map = set near.connect_key moved left.base_near_sub_map;
    })

-- The bases of the answer, the nearest first. Each that is not online leaves the list of positions.
unfoldable pub near_loop : ℕ → CbItem → List String → Caster → Option Result
unfolding has switch_near
near_loop f near [] s = some (record {
  code = 0;
  state = s;
  effects = reply near err "Can't Find Useful Nearest Mount Point" ∷ [];
})
near_loop f near (field ∷ rest) s =
    let later = near_loop f near rest s in
    if not (has field s.active_mount_map)
    then elim later [
      | none ↦ none
      | some r ↦ some (after (redis ("ZREM" ∷ "MPT:GEO" ∷ field ∷ []) ∷ []) r)
    ]
    else if str_eq near.channel field
    then some (record { code = 0; state = s; effects = [] })
    else switch_near f near field s

-- `none` in place of the list for an answer that is missing, or no array.
unfoldable pub geo_radius_callback : ℕ → String → Option (List String) → Caster → Option Result
unfolding find near_loop
geo_radius_callback f key answer s = elim (find key s.base_near_sub_map) [
  | none ↦ some (record { code = 0; state = s; effects = [] })
  | some near ↦ elim answer [
    | none ↦ some (record { code = 0; state = s; effects = [] })
    | some fields ↦ near_loop f near fields s
  ]
]

-- What unsub_base_channel does for a client that is not on a nearest mount.
unfoldable pub unsub_direct : String → String → Caster → Result
unfolding find has
unsub_direct channel key s = elim (find channel s.base_sub_map) [
  | none ↦ record { code = 1; state = s; effects = [] }
  | some subs ↦
      if has key subs
      then record {
        code = 0;
        state = record s { base_sub_map = set channel (erase key subs) s.base_sub_map };
        effects = redis ("HDEL" ∷ str_append "MPT:SUB:" channel ∷ key ∷ []) ∷ [];
      }
      else record { code = 1; state = s; effects = [] }
]

unfoldable pub unsub_base_channel : String → String → Caster → Result
unfolding has unsub_near_channel unsub_direct
unsub_base_channel channel key s =
    if has key s.base_near_sub_map then unsub_near_channel key s else unsub_direct channel key s

unfoldable pub open_rover_sub : String → Caster → Result
unfolding has send_status_rover_channel
open_rover_sub channel s =
    if has channel s.rover_sub_map then record { code = 0; state = s; effects = [] } else record {
      code = 0;
      state = record s { rover_sub_map = insert channel [] s.rover_sub_map };
      effects =
          redis ("SUBSCRIBE" ∷ str_append "USR:" channel ∷ [])
          ∷ send_status_rover_channel channel "" active "First subscribe in one Caster Node"
          ∷ [];
    }

unfoldable pub sub_rover_channel : CbItem → Caster → Result
unfolding open_rover_sub subs_of
sub_rover_channel r s =
    let opened = open_rover_sub r.channel s in
    let t = opened.state in
    record {
      code = 0;
      state = record t {
        rover_sub_map =
            set r.channel
              (insert r.connect_key
                (record r { group_uid = normalize_access_group_uid r.group_uid })
                (subs_of r.channel t.rover_sub_map))
              t.rover_sub_map;
      };
      effects =
          opened.effects
          ++ redis ("HSETEX" ∷ str_append "USR:SUB:" r.channel ∷ r.connect_key ∷ [])
            ∷ reply r ok ""
            ∷ [];
    }

unfoldable pub unsub_rover_channel : String → String → Caster → Result
unfolding find has
unsub_rover_channel channel key s = elim (find channel s.rover_sub_map) [
  | none ↦ record { code = 1; state = s; effects = [] }
  | some subs ↦
      if has key subs
      then record {
        code = 0;
        state = record s { rover_sub_map = set channel (erase key subs) s.rover_sub_map };
        effects = redis ("HDEL" ∷ str_append "USR:SUB:" channel ∷ key ∷ []) ∷ [];
      }
      else record { code = 1; state = s; effects = [] }
]
