-- ===== src/Relay/Running.antt =====
-- core/src/caster_internal.cpp: the callbacks that start and stop tasks, and a master that takes over.
use nav_caster.Base.{
  String, str_eq, eq_iff, str_eq_self, Bool, true, false, ◌&&◌, Option, none, some, List, [], ◌∷◌,
  ◌++◌, ◌≡◌, refl, sym, ap, ◌∙◌, if◌then◌else◌, arith,
}
use nav_caster.Base.Dict.{Dict, find, has-find, Distinct}
use nav_caster.Relay.{
  Kind, pull, push, active, inactive, update, other_operate, TaskStatus, TaskMsg, Relay,
  RelayEffect, publish, relay_cb, redis, upload, RelayResult, tasks_of, RecordTexts,
}
use nav_caster.Relay.Distribute.{
  distribute_record, distribute_records, withdraw_status, withdraw_statuses, task_distribution,
}
use nav_caster.Relay.Respond.{respond, relay_task_response, new_status}
use nav_caster.Relay.Told.{is_for, has-insert, has-erase}
use nav_caster.Relay.Settling.{round, wanted, runs, round-runs}

-- A task as its callbacks show it: `none` where one stops or changes a task that does not run, or
-- starts one that does.
abbrev pub after_callbacks : Kind → String → List RelayEffect → Bool → Option Bool
after_callbacks kind uid [] b = some b
after_callbacks kind uid (relay_cb m ∷ es) b =
    let started = after_callbacks kind uid es true in
    let stopped = after_callbacks kind uid es false in
    if is_for kind uid m
    then elim m.operate [
      | active ↦ if b then none else started
      | inactive ↦ if b then stopped else none
      | update ↦ if b then started else none
      | other_operate ↦ none
    ]
    else if b
    then started
    else stopped
after_callbacks kind uid (publish n m ∷ es) b = after_callbacks kind uid es b
after_callbacks kind uid (redis w ∷ es) b = after_callbacks kind uid es b
after_callbacks kind uid (upload k u st ∷ es) b = after_callbacks kind uid es b

-- Several messages, one after the other.
unfoldable pub respond_all : List (Option TaskMsg) → Relay → RelayResult
respond_all [] s = record { code = 0; state = s; effects = [] }
respond_all (m ∷ ms) s =
    let first = relay_task_response m s in
    let rest = respond_all ms first.state in
    record { code = rest.code; state = rest.state; effects = first.effects ++ rest.effects }

response-callbacks :
    (kind : Kind) (uid : String) (m : TaskMsg) (s : Relay) (es : List RelayEffect)
    → after_callbacks kind uid ((relay_task_response (some m) s).effects ++ es) (runs kind s uid)
      ≡ after_callbacks kind uid es (runs kind (relay_task_response (some m) s).state uid)
unfolding relay_task_response respond
response-callbacks pull uid m s es = ground (
  arith,
  eq_iff m.target uid,
  has-insert m.target uid (new_status m.target s) s.pull_tasks.status_map,
  has-erase m.target uid s.pull_tasks.status_map,
)
response-callbacks push uid m s es = ground (
  arith,
  eq_iff m.target uid,
  has-insert m.target uid (new_status m.target s) s.push_tasks.status_map,
  has-erase m.target uid s.push_tasks.status_map,
)

response-none :
    (s : Relay) → relay_task_response none s ≡ record { code = 1; state = s; effects = [] }
unfolding relay_task_response
response-none s = refl

-- Whatever messages a node receives, in whatever order and however often, the callbacks for a task
-- start it only while it does not run, and stop or change it only while it runs; whether it runs in
-- the end is what they amount to.
pub respond_all-callbacks :
    (kind : Kind) (uid : String) (ms : List (Option TaskMsg)) (s : Relay)
    → after_callbacks kind uid (respond_all ms s).effects (runs kind s uid)
      ≡ some (runs kind (respond_all ms s).state uid)
unfolding respond_all
respond_all-callbacks kind uid [] s = refl
respond_all-callbacks kind uid (none ∷ ms) s =
    ap
      (λ (r : RelayResult).
        after_callbacks kind uid (r.effects ++ (respond_all ms r.state).effects) (runs kind s uid))
      (response-none s)
    ∙ respond_all-callbacks kind uid ms s
    ∙ ap (λ (r : RelayResult). some (runs kind (respond_all ms r.state).state uid))
        (sym (response-none s))
respond_all-callbacks kind uid (some m ∷ ms) s =
    let next = (relay_task_response (some m) s).state in
    response-callbacks kind uid m s (respond_all ms next).effects
    ∙ respond_all-callbacks kind uid ms next

-- Whether every message is published to this node.
unfoldable pub only_to : String → List RelayEffect → Bool
only_to node [] = true
only_to node (publish n m ∷ es) = str_eq n node && only_to node es
only_to node (relay_cb m ∷ es) = only_to node es
only_to node (redis w ∷ es) = only_to node es
only_to node (upload k u st ∷ es) = only_to node es

only_to-append :
    (node : String) (es fs : List RelayEffect)
    → only_to node es ≡ true
    → only_to node fs ≡ true
    → only_to node (es ++ fs) ≡ true
unfolding only_to
only_to-append node [] fs e f = f
only_to-append node (publish n m ∷ es) fs e f = ground (arith, only_to-append node es fs)
only_to-append node (relay_cb m ∷ es) fs e f = only_to-append node es fs e f
only_to-append node (redis w ∷ es) fs e f = only_to-append node es fs e f
only_to-append node (upload k u st ∷ es) fs e f = only_to-append node es fs e f

module _ (p : RecordTexts) (kind : Kind) (node : String) where
  only_to-nil : only_to node [] ≡ true
  unfolding only_to
  only_to-nil = refl

  only_to-record :
      (statuses : Dict TaskStatus) (uid json : String) (d : Dict String)
      → only_to node (distribute_record p kind node statuses uid json d).effects ≡ true
  unfolding distribute_record only_to
  only_to-record statuses uid json d = ground (arith, str_eq_self node)

  only_to-records :
      (statuses : Dict TaskStatus) (records : Dict String) (d : Dict String)
      → only_to node (distribute_records p kind node statuses records d).effects ≡ true
  unfolding distribute_records
  only_to-records statuses [] d = only_to-nil
  only_to-records statuses ((uid, json) ∷ records) d =
      only_to-append node _ _ (only_to-record statuses uid json d)
        (only_to-records statuses records _)

  only_to-status :
      (records : Dict String) (uid : String) (st : TaskStatus) (d : Dict String)
      → only_to node (withdraw_status p kind node records uid st d).effects ≡ true
  unfolding withdraw_status only_to
  only_to-status records uid st d = ground (arith, str_eq_self node)

  only_to-statuses :
      (records : Dict String) (statuses : Dict TaskStatus) (d : Dict String)
      → only_to node (withdraw_statuses p kind node records statuses d).effects ≡ true
  unfolding withdraw_statuses
  only_to-statuses records [] d = only_to-nil
  only_to-statuses records ((uid, st) ∷ statuses) d =
      only_to-append node _ _ (only_to-status records uid st d)
        (only_to-statuses records statuses _)

only_to-distribution :
    (p : RecordTexts) (kind : Kind) (s : Relay)
    → only_to s.node_id (task_distribution p kind s).effects ≡ true
unfolding task_distribution
only_to-distribution p kind s =
    only_to-append s.node_id _ _
      (only_to-records p kind s.node_id (tasks_of kind s).status_map (tasks_of kind s).record_map
        (tasks_of kind s).record_distributed)
      (only_to-statuses p kind s.node_id (tasks_of kind s).record_map (tasks_of kind s).status_map
        _)

-- A task that runs according to its status, on whatever node, and that this master has not given out
-- itself is forgotten as running by the master's first distribution, though it is to run; and no
-- message of the distribution goes to another node than the master. The records have distinct names.
pub distribution-forgets :
    (p : RecordTexts) (kind : Kind) (s : Relay) (uid : String) (st : TaskStatus)
    → Distinct (tasks_of kind s).record_map
    → wanted p kind s uid ≡ true
    → find uid (tasks_of kind s).status_map ≡ some st
    → find uid (tasks_of kind s).record_distributed ≡ none
    → (runs kind (round p kind s) uid ≡ false)
      × (only_to s.node_id (task_distribution p kind s).effects ≡ true)
distribution-forgets p kind s uid st distinct want there never = (
  ground
      (arith, round-runs p kind s uid distinct, has-find uid (tasks_of kind s).status_map st there),
  only_to-distribution p kind s,
)
