-- ===== src/Relay/Distribute.antt =====
-- core/src/caster_internal.cpp: relay_pull_task_distribution and relay_push_task_distribution.
use nav_caster.Base.{String, str_eq, Bool, false, none, some, List, [], ◌∷◌, ◌++◌, if◌then◌else◌}
use nav_caster.Base.Dict.{Dict, find, set, erase}
use nav_caster.Relay.{
  Kind, pull, push, TaskOperate, active, inactive, TaskStatus, Payload, record_text, status_text,
  TaskMsg, Relay, RelayEffect, publish, RelayResult, tasks_of, put_tasks, RecordTexts, to_string,
  is_enabled,
}

-- The texts of the tasks given out, and what is sent.
pub record Given : Type 0 where
  pub distributed : Dict String
  pub effects : List RelayEffect

unfoldable pub task_msg : Kind → TaskOperate → String → Payload → String → TaskMsg
task_msg kind operate uid text reason = record {
  type = some kind;
  operate = operate;
  target = uid;
  msg_str = text;
  reason_str = reason;
}

-- Whether the text was given out for the task.
unfoldable pub is_distributed : String → String → Dict String → Bool
unfolding find
is_distributed uid json d = elim (find uid d) [ none ↦ false | some j ↦ str_eq j json ]

abbrev pub active_reason : Kind → String
active_reason pull = "Pull Task Active"
active_reason push = "Push Task Active"

abbrev pub changed_reason : Kind → String
changed_reason pull = "Pull Task Config Changed"
changed_reason push = "Push Task Config Changed"

abbrev pub inactive_reason : Kind → String
inactive_reason pull = "Pull Task Inactive"
inactive_reason push = "Push Task Inactive"

module _ (p : RecordTexts) (kind : Kind) (node : String) where
  unfoldable pub distribute_record : Dict TaskStatus → String → String → Dict String → Given
  unfolding find is_distributed to_string is_enabled task_msg
  distribute_record statuses uid json d =
      if is_enabled p json
      then elim (find uid statuses) [
        | none ↦ record {
          distributed = set uid (to_string p uid json) d;
          effects =
              publish node
                (task_msg kind active uid (record_text (to_string p uid json)) (active_reason kind))
              ∷ [];
        }
        | some st ↦
            if is_distributed uid (to_string p uid json) d
            then record { distributed = d; effects = [] }
            else record {
              distributed = erase uid d;
              effects =
                  publish node (task_msg kind inactive uid (status_text st) (changed_reason kind))
                  ∷ [];
            }
      ]
      else record { distributed = d; effects = [] }

  unfoldable pub distribute_records : Dict TaskStatus → Dict String → Dict String → Given
  unfolding distribute_record
  distribute_records statuses [] d = record { distributed = d; effects = [] }
  distribute_records statuses ((uid, json) ∷ records) d =
      let first = distribute_record statuses uid json d in
      let rest = distribute_records statuses records first.distributed in
      record { distributed = rest.distributed; effects = first.effects ++ rest.effects }

  -- Whether a task is to run.
  unfoldable pub is_wanted : Dict String → String → Bool
  unfolding find is_enabled
  is_wanted records uid = elim (find uid records) [ none ↦ false | some json ↦ is_enabled p json ]

  unfoldable pub withdraw_status : Dict String → String → TaskStatus → Dict String → Given
  unfolding is_wanted task_msg
  withdraw_status records uid st d =
      if is_wanted records uid then record { distributed = d; effects = [] } else record {
        distributed = erase uid d;
        effects =
            publish node (task_msg kind inactive uid (status_text st) (inactive_reason kind)) ∷ [];
      }

  unfoldable pub withdraw_statuses : Dict String → Dict TaskStatus → Dict String → Given
  unfolding withdraw_status
  withdraw_statuses records [] d = record { distributed = d; effects = [] }
  withdraw_statuses records ((uid, st) ∷ statuses) d =
      let first = withdraw_status records uid st d in
      let rest = withdraw_statuses records statuses first.distributed in
      record { distributed = rest.distributed; effects = first.effects ++ rest.effects }

unfoldable pub task_distribution : RecordTexts → Kind → Relay → RelayResult
unfolding distribute_records withdraw_statuses
task_distribution p kind s =
    let t = tasks_of kind s in
    let given =
      distribute_records p kind s.node_id t.status_map t.record_map t.record_distributed in
    let gone = withdraw_statuses p kind s.node_id t.record_map t.status_map given.distributed in
    record {
      code = 0;
      state = put_tasks kind (record t { record_distributed = gone.distributed }) s;
      effects = given.effects ++ gone.effects;
    }

abbrev pub relay_pull_task_distribution : RecordTexts → Relay → RelayResult
relay_pull_task_distribution p s = task_distribution p pull s

abbrev pub relay_push_task_distribution : RecordTexts → Relay → RelayResult
relay_push_task_distribution p s = task_distribution p push s
