-- ===== src/Caster/Withdraw.antt =====
-- core/src/caster_internal.cpp: withdrawing a connection (withdraw_base_channel,
-- withdraw_rover_channel, unsub_near_channel) and clear_overdue_item.
use Prim.Native.String.{◌++◌ as str_append}
use nav_caster.Base.{ℕ, String, Bool, true, false, none, some, List, [], ◌∷◌, ◌++◌, if◌then◌else◌}
use nav_caster.Base.Dict.{Dict, find, set, erase, has, is_nil}
use nav_caster.Caster.{
  History, StreamStatus, Subscribers, Effect, redis, log, Caster, Result, subs_of,
}

-- The totals of a connection, 0 for one without a record.
unfoldable pub totals_of : String → Dict StreamStatus → StreamStatus
unfolding find
totals_of key m = elim (find key m) [
  | none ↦ record { send_total = 0; recv_total = 0 }
  | some str ↦ str
]

-- The entry that goes to the log.
closed : ℕ → StreamStatus → History → History
closed now str h = record h {
  disconnect_time = now;
  last_update = now;
  send_total = str.send_total;
  recv_total = str.recv_total;
}

log_closed : ℕ → String → String → StreamStatus → Dict History → List Effect
unfolding find closed
log_closed now list key str m = elim (find key m) [
  | none ↦ []
  | some h ↦ log list (closed now str h) ∷ []
]

abbrev when : Bool → Effect → List Effect
when true e = e ∷ []
when false e = []

-- What follows once the registration is gone: the status and all that goes with it, or 3.
unfoldable pub close_base : ℕ → String → String → Caster → Result
unfolding has log_closed totals_of
close_base now channel key s =
    if has key s.server_status_map
    then record {
      code = 0;
      state = record s {
        server_status_map = erase key s.server_status_map;
        stream_status_map = erase key s.stream_status_map;
        base_decoder_map = erase key s.base_decoder_map;
        base_history_map = erase key s.base_history_map;
      };
      effects =
          when s.upload_base_stat (redis ("HDEL" ∷ "MPT:STAT" ∷ key ∷ []))
          ++ log_closed now (str_append "LOG:MPT:" channel) key (totals_of key s.stream_status_map)
              s.base_history_map;
    }
    else record { code = 3; state = s; effects = [] }

unfoldable pub withdraw_base_channel : ℕ → String → String → Caster → Result
unfolding find has close_base
withdraw_base_channel now channel key s = elim (find channel s.base_register_map) [
  | none ↦ record { code = 1; state = s; effects = [] }
  | some registers ↦
      if has key registers
      then (let r = close_base now channel key (record s {
        base_register_map = set channel (erase key registers) s.base_register_map;
        kick_map = erase key s.kick_map;
      }) in
          record r {
            effects = redis ("HDEL" ∷ str_append "MPT:REC:" channel ∷ key ∷ []) ∷ r.effects;
          })
      else record { code = 2; state = s; effects = [] }
]

-- The subscription of a nearest-mount client, taken out of the channel it has been put on.
unfoldable pub unsub_near_channel : String → Caster → Result
unfolding find subs_of has
unsub_near_channel key s = elim (find key s.base_near_sub_map) [
  | none ↦ record {
    code = 0;
    state = record s { near_pos_cache_map = erase key s.near_pos_cache_map };
    effects = [];
  }
  | some near ↦
      let gone = record s {
        base_near_sub_map = erase key s.base_near_sub_map;
        near_pos_cache_map = erase key s.near_pos_cache_map;
      } in
      let subs = subs_of near.channel s.base_sub_map in
      if has key subs
      then record {
        code = 0;
        state = record gone { base_sub_map = set near.channel (erase key subs) s.base_sub_map };
        effects = redis ("HDEL" ∷ str_append "MPT:SUB:" near.channel ∷ key ∷ []) ∷ [];
      }
      else record { code = 0; state = gone; effects = [] }
]

unfoldable pub close_rover : ℕ → String → String → Caster → Result
unfolding has unsub_near_channel log_closed totals_of
close_rover now user key s =
    if has key s.client_status_map
    then (let r = unsub_near_channel key (record s {
      client_status_map = erase key s.client_status_map;
      stream_status_map = erase key s.stream_status_map;
      rover_decoder_map = erase key s.rover_decoder_map;
    }) in
        record {
          code = 0;
          state = record r.state { rover_history_map = erase key r.state.rover_history_map };
          effects =
              r.effects
              ++ when s.upload_rover_stat (redis ("HDEL" ∷ "USR:STAT" ∷ key ∷ []))
              ++ log_closed now (str_append "LOG:USR:" user) key (totals_of key s.stream_status_map)
                  s.rover_history_map;
        })
    else record { code = 3; state = s; effects = [] }

unfoldable pub withdraw_rover_channel : ℕ → String → String → Caster → Result
unfolding find has close_rover
withdraw_rover_channel now user key s = elim (find user s.rover_register_map) [
  | none ↦ record { code = 1; state = s; effects = [] }
  | some registers ↦
      if has key registers
      then (let r = close_rover now user key (record s {
        rover_register_map = set user (erase key registers) s.rover_register_map;
        kick_map = erase key s.kick_map;
      }) in
          record r { effects = redis ("HDEL" ∷ str_append "USR:REC:" user ∷ key ∷ []) ∷ r.effects })
      else record { code = 2; state = s; effects = [] }
]

-- The names that no connection is registered for go, as a copy of the map is iterated.
unfoldable pub erase_empty : Dict Subscribers → Dict Subscribers → Dict Subscribers
unfolding erase
erase_empty [] m = m
erase_empty ((channel, subs) ∷ rest) m =
    erase_empty rest (if is_nil subs then erase channel m else m)

unfoldable pub clear_overdue_item : Caster → Caster
unfolding erase_empty
clear_overdue_item s = record s {
  base_register_map = erase_empty s.base_register_map s.base_register_map;
  rover_register_map = erase_empty s.rover_register_map s.rover_register_map;
}
