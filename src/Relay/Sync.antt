-- ===== src/Relay/Sync.antt =====
-- core/src/caster_internal.cpp: the choice of the master (try_set_master_node and its answers), and
-- what the master reads from Redis (sync_cluster_state and its answers).
use Prim.Native.String.{◌++◌ as str_append}
use nav_caster.Base.{
  ℕ, ◌+◌, String, str_eq, Bool, true, false, not, ◌&&◌, ◌==◌, Option, none, some, List, [], ◌∷◌,
  ◌++◌, if◌then◌else◌,
}
use nav_caster.Base.Dict.{Dict, insert}
use nav_caster.Relay.{
  Kind, TaskStatus, Relay, RelayEffect, redis, RelayResult, tasks_of, put_tasks, RecordTexts,
}
use nav_caster.Relay.Distribute.{
  relay_pull_task_distribution, relay_push_task_distribution, task_distribution,
}

-- What Redis may answer to HGETALL: a null pointer, no value, fields with their values, or a reply of
-- another type.
pub data HgetallReply : Type 0 where
  no_reply nil_reply other_reply : HgetallReply
  array_reply : List (String × String) → HgetallReply

-- The fields as a map. fromString of a record takes every text.
unfoldable pub read_records : List (String × String) → Dict String → Dict String
unfolding insert
read_records [] m = m
read_records ((field, value) ∷ fields) m = read_records fields (insert field value m)

unfoldable pub sync_list : Kind → HgetallReply → Relay → Relay
unfolding read_records
sync_list kind (array_reply fields) s =
    put_tasks kind (record (tasks_of kind s) { record_map = read_records fields [] }) s
sync_list kind reply s = s

-- `parse` is what fromString makes of a text, `none` where it returns 1.
module _ (parse : String → Option TaskStatus) where
  unfoldable pub read_statuses : List (String × String) → Dict TaskStatus → Dict TaskStatus
  unfolding insert
  read_statuses [] m = m
  read_statuses ((field, value) ∷ fields) m = elim (parse value) [
    | none ↦ read_statuses fields m
    | some st ↦ read_statuses fields (insert field st m)
  ]

  unfoldable pub count_running : List (String × String) → ℕ
  count_running [] = 0
  count_running ((field, value) ∷ fields) = elim (parse value) [
    | none ↦ count_running fields
    | some st ↦ (if st.state == 1 then 1 else 0) + count_running fields
  ]

  unfoldable pub sync_stat : Kind → HgetallReply → Relay → Relay
  unfolding read_statuses count_running
  sync_stat kind (array_reply fields) s =
      put_tasks kind
        (record (tasks_of kind s) {
          status_map = read_statuses fields [];
          connection_count = count_running fields;
        })
        s
  sync_stat kind reply s = s

-- The last of the answers: the tasks are given out.
unfoldable pub sync_cluster_node : RecordTexts → HgetallReply → Relay → RelayResult
unfolding read_records task_distribution
sync_cluster_node p (array_reply fields) s =
    let pulls =
      relay_pull_task_distribution p (record s { cluster_node_map = read_records fields [] }) in
    let pushes = relay_push_task_distribution p pulls.state in
    record { code = 0; state = pushes.state; effects = pulls.effects ++ pushes.effects }
sync_cluster_node p reply s = record { code = 0; state = s; effects = [] }

abbrev sync_cluster_state : List RelayEffect
sync_cluster_state =
    redis ("HGETALL" ∷ "PULL:RECORD" ∷ [])
    ∷ redis ("HGETALL" ∷ "PUSH:RECORD" ∷ [])
    ∷ redis ("HGETALL" ∷ "PULL:STAT" ∷ [])
    ∷ redis ("HGETALL" ∷ "PUSH:STAT" ∷ [])
    ∷ redis ("HGETALL" ∷ "CASTER:NODE" ∷ [])
    ∷ []

unfoldable pub try_set_master_node : Relay → List RelayEffect
try_set_master_node s =
    redis ("SET" ∷ "CASTER:MASTER" ∷ s.node_id ∷ "NX" ∷ [])
    ∷ redis ("GET" ∷ "CASTER:MASTER" ∷ [])
    ∷ []

-- The answer to GET, `none` where it is not a text.
unfoldable pub set_master_callback : Option String → Relay → RelayResult
set_master_callback reply s = record {
  code = 0;
  state = elim reply [
    | none ↦ s
    | some master_id ↦
        if str_eq s.current_master_id master_id
        then s
        else record s { current_master_id = master_id }
  ];
  effects = redis ("SET" ∷ "CASTER:MASTER" ∷ s.node_id ∷ "IFEQ" ∷ s.node_id ∷ []) ∷ [];
}

-- Whether the answer to SET was OK.
unfoldable pub keep_master_callback : Bool → Relay → RelayResult
keep_master_callback renewed s =
    let log : String → List RelayEffect =
      λ event. redis ("HSET" ∷ str_append "LOG:NODE:" s.node_id ∷ event ∷ []) ∷ [] in
    let change : List RelayEffect =
      if renewed && not s.is_master
      then log "master_acquired"
      else if not renewed && s.is_master
      then log "master_lost"
      else [] in
    record {
      code = 0;
      state = record s {
        is_master =
            if renewed && not s.is_master
            then true
            else if not renewed && s.is_master
            then false
            else s.is_master;
      };
      effects = change ++ (if renewed then sync_cluster_state else []);
    }
