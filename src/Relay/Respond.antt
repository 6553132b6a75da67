-- ===== src/Relay/Respond.antt =====
-- core/src/caster_internal.cpp: relay_task_response, and upload_relay_status.
use nav_caster.Base.{String, Option, none, some, List, [], ◌∷◌, ◌++◌, if◌then◌else◌}
use nav_caster.Base.Dict.{Dict, insert, erase, has}
use nav_caster.Relay.{
  Kind, pull, push, active, inactive, update, other_operate, TaskStatus, TaskMsg, Relay,
  RelayEffect, relay_cb, redis, upload, RelayResult, tasks_of, put_tasks,
}

abbrev pub status_list : Kind → String
status_list pull = "PULL:STAT"
status_list push = "PUSH:STAT"

abbrev pub new_status : String → Relay → TaskStatus
new_status uid s = record {
  uid = uid;
  connect_key = "";
  state = 0;
  node_uid = s.node_id;
  node_name = s.node_name;
}

abbrev set_status : Kind → Dict TaskStatus → Relay → Relay
set_status kind m s = put_tasks kind (record (tasks_of kind s) { status_map = m }) s

-- The callback is called before the status goes; what it does to the node is a later operation.
unfoldable pub respond : Kind → TaskMsg → Relay → RelayResult
unfolding has
respond kind req s =
    let m = (tasks_of kind s).status_map in
    let uid = req.target in
    elim req.operate [
      | active ↦ if has uid m then record { code = 2; state = s; effects = [] } else record {
        code = 0;
        state = set_status kind (insert uid (new_status uid s) m) s;
        effects = relay_cb req ∷ [];
      }
      | inactive ↦
          if has uid m
          then record {
            code = 0;
            state = set_status kind (erase uid m) s;
            effects = relay_cb req ∷ redis ("HDEL" ∷ status_list kind ∷ uid ∷ []) ∷ [];
          }
          else record { code = 3; state = s; effects = [] }
      | update ↦
          if has uid m
          then record { code = 0; state = s; effects = relay_cb req ∷ [] }
          else record { code = 3; state = s; effects = [] }
      | other_operate ↦ record { code = 0; state = s; effects = [] }
    ]

-- The text has been read, `none` where fromString has returned 1.
unfoldable pub relay_task_response : Option TaskMsg → Relay → RelayResult
unfolding respond
relay_task_response none s = record { code = 1; state = s; effects = [] }
relay_task_response (some req) s = elim req.type [
  | none ↦ record { code = 0; state = s; effects = [] }
  | some kind ↦ respond kind req s
]

unfoldable pub upload_statuses : Kind → Dict TaskStatus → List RelayEffect
upload_statuses kind [] = []
upload_statuses kind ((uid, st) ∷ m) = upload kind uid st ∷ upload_statuses kind m

unfoldable pub upload_relay_status : Relay → RelayResult
unfolding upload_statuses
upload_relay_status s = record {
  code = 0;
  state = s;
  effects =
      upload_statuses pull s.pull_tasks.status_map ++ upload_statuses push s.push_tasks.status_map;
}
