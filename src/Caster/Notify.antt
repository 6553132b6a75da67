-- ===== src/Caster/Notify.antt =====
-- core/src/caster_internal.cpp: what reaches a node from Redis and from other nodes, and the checks
-- of its subscriptions (Redis_Register_Base_Callback to Redis_SUB_Rover_Callback,
-- broadcast_response, check_active_base_channel, check_active_rover_channel).
use Prim.Native.String.{len, ◌++◌ as str_append}
use nav_caster.Base.{
  ℕ, ◌+◌, String, str_eq, is_empty, Bool, true, false, not, ◌&&◌, ◌==◌, Option, none, some, List,
  [], ◌∷◌, ◌++◌, if◌then◌else◌, length,
}
use nav_caster.Base.Dict.{Dict, find, set, erase, has, is_nil}
use nav_caster.Caster.{
  err, ok, inactive, string, CbItem, Subscribers, BroadcastType, server_operate, client_operate,
  BroadcastOperate, delete_operate, BroadcastMsg, Reply, Effect, call, redis, Caster, Result, after,
  reply, reply_of_operate, send_status_base_channel, send_status_rover_channel,
}

-- The keys that HGETALL answers with hold this one.
unfoldable pub holds : String → List String → Bool
holds key [] = false
holds key (k ∷ ks) = if str_eq k key then true else holds key ks

-- A status for each other login.
unfoldable pub kick_others : (String → Effect) → String → List String → List Effect
kick_others kick key [] = []
kick_others kick key (k ∷ ks) =
    if str_eq k key then kick_others kick key ks else kick k ∷ kick_others kick key ks

-- What both register callbacks do with the logins of a name: `kick` sends a status to a login, and
-- `refuse` to this one, with the text of the exception.
unfoldable pub login_answer :
    Bool → Bool → (String → Effect) → (String → Effect) → CbItem → List String → List Effect
unfolding holds kick_others
login_answer enable_mult keep_early kick refuse item records =
    if not (holds item.connect_key records)
    then refuse "Can't Find Recored" ∷ []
    else if not (length records == 1) && not enable_mult
    then (if keep_early
        then refuse "Base already online ,don't allow base duplicate logins" ∷ []
        else kick_others kick item.connect_key records ++ reply item ok "" ∷ [])
    else reply item ok "" ∷ []

unfoldable pub register_base_callback : CbItem → List String → Caster → List Effect
unfolding login_answer send_status_base_channel
register_base_callback item records s =
    login_answer s.base_enable_mult s.base_keep_early
      (λ key.
        send_status_base_channel item.channel key err
          "New same name Base Login, kick out this Connect!")
      (λ what. send_status_base_channel item.channel item.connect_key err what) item records

unfoldable pub register_rover_callback : CbItem → List String → Caster → List Effect
unfolding login_answer send_status_rover_channel
register_rover_callback item records s =
    login_answer s.rover_enable_mult s.rover_keep_early
      (λ key.
        send_status_rover_channel item.channel key err
          "New same name Rover Login, kick out this Connect!")
      (λ what. send_status_rover_channel item.channel item.connect_key err what) item records

unfoldable pub is_delete : BroadcastOperate → Bool
is_delete delete_operate = true
is_delete _ = false

-- The registrations that a broadcast speaks of, `none` for a type that is not supported.
unfoldable pub register_map_of : BroadcastType → Caster → Option (Dict Subscribers)
register_map_of client_operate s = some s.base_register_map
register_map_of server_operate s = some s.rover_register_map
register_map_of _ s = none

-- A callback of each subscriber.
unfoldable pub call_all : Option String → Reply → Subscribers → List Effect
call_all pattern r [] = []
call_all pattern r ((key, item) ∷ rest) = call item.cb item.arg pattern r ∷ call_all pattern r rest

unfoldable pub force_offline : BroadcastMsg → Caster → List Effect
unfolding find
force_offline req s = elim (find req.target s.kick_map) [
  | none ↦ []
  | some item ↦
      reply item err
        (if is_empty req.reason_str then "Force offline by administrator" else req.reason_str)
      ∷ []
]

-- The state is not changed; `none` stands for a text that is no message.
unfoldable pub broadcast_response : Option BroadcastMsg → Caster → ℕ × List Effect
unfolding is_delete register_map_of force_offline find call_all reply_of_operate
broadcast_response none s = (1, [])
broadcast_response (some req) s = elim (register_map_of req.type s) [
  | none ↦ (1, [])
  | some item_map ↦
      let r : Reply = record { type = reply_of_operate req.operate; str = req.reason_str } in
      if is_delete req.operate && not (is_empty req.target)
      then (0, force_offline req s)
      else elim (find req.msg_str item_map) [
        | none ↦ (2, [])
        | some items ↦
            if is_empty req.target
            then (0, call_all none r items)
            else elim (find req.target items) [
              | none ↦ (3, [])
              | some item ↦ (0, call item.cb item.arg none r ∷ [])
            ]
      ]
]

unfoldable pub add_send : String → ℕ → Caster → Caster
unfolding find set
add_send key n s = elim (find key s.stream_status_map) [
  | none ↦ s
  | some str ↦ record s {
    stream_status_map =
        set key (record str { send_total = str.send_total + n }) s.stream_status_map;
    send_total = s.send_total + n;
  }
]

unfoldable pub deliver : String → String → Subscribers → Caster → Result
unfolding add_send
deliver pattern payload [] s = record { code = 0; state = s; effects = [] }
deliver pattern payload ((key, item) ∷ rest) s =
    after (call item.cb item.arg (some pattern) (record { type = string; str = payload }) ∷ [])
      (deliver pattern payload rest (add_send item.connect_key (len payload) s))

-- A message on a channel of Redis, an answer of three elements. `split` is the C library's sscanf with the format
-- "%[^:]:%s", which gives the parts around the first colon, the second up to white space.
unfoldable pub sub_base_callback :
    (String → Option (String × String)) → String → String → Caster → Result
unfolding find deliver
sub_base_callback split pattern payload s = elim (split pattern) [
  | none ↦ record { code = 0; state = s; effects = [] }
  | some (type, channel) ↦ elim (find channel s.base_sub_map) [
    | none ↦ record { code = 0; state = s; effects = [] }
    | some subs ↦ deliver pattern payload subs s
  ]
]

unfoldable pub sub_rover_callback : String → String → Caster → Result
unfolding find deliver
sub_rover_callback pattern payload s = elim (find pattern s.rover_sub_map) [
  | none ↦ record { code = 0; state = s; effects = [] }
  | some subs ↦ deliver pattern payload subs s
]

-- One channel of check_active_base_channel: its subscribers are told, or it is given up.
unfoldable pub check_base : String → Subscribers → Caster → Result
unfolding has call_all send_status_base_channel
check_base channel subs s =
    let told =
      if not (has channel s.active_mount_map) && s.notify_base_inactive
      then call_all (some channel) (record { type = err; str = "Subscribe Base is not active" })
          subs
      else [] in
    if is_nil subs
    then record {
      code = 0;
      state = record s { base_sub_map = erase channel s.base_sub_map };
      effects =
          told
          ++ redis ("UNSUBSCRIBE" ∷ str_append "MPT:" channel ∷ [])
            ∷ send_status_base_channel channel "" inactive
                "one Caster Node unsubscribe this channel "
            ∷ [];
    }
    else record { code = 0; state = s; effects = told }

unfoldable pub check_bases : Dict Subscribers → Caster → Result
unfolding check_base
check_bases [] s = record { code = 0; state = s; effects = [] }
check_bases ((channel, subs) ∷ rest) s =
    let r = check_base channel subs s in after r.effects (check_bases rest r.state)

unfoldable pub check_active_base_channel : Caster → Result
unfolding check_bases
check_active_base_channel s = check_bases s.base_sub_map s

unfoldable pub check_rover : String → Subscribers → Caster → Result
unfolding has call_all send_status_rover_channel
check_rover channel subs s =
    let told =
      if not (has channel s.active_user_map) && s.notify_rover_inactive
      then call_all (some channel) (record { type = err; str = "Subscribe Rover is not active" })
          subs
      else [] in
    if is_nil subs
    then record {
      code = 0;
      state = record s { rover_sub_map = erase channel s.rover_sub_map };
      effects =
          told
          ++ redis ("UNSUBSCRIBE" ∷ str_append "USR:" channel ∷ [])
            ∷ send_status_rover_channel channel "" inactive
                "one Caster Node unsubscribe this channel "
            ∷ [];
    }
    else record { code = 0; state = s; effects = told }

unfoldable pub check_rovers : Dict Subscribers → Caster → Result
unfolding check_rover
check_rovers [] s = record { code = 0; state = s; effects = [] }
check_rovers ((channel, subs) ∷ rest) s =
    let r = check_rover channel subs s in after r.effects (check_rovers rest r.state)

unfoldable pub check_active_rover_channel : Caster → Result
unfolding check_rovers
check_active_rover_channel s = check_rovers s.rover_sub_map s
