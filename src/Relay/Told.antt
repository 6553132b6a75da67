-- ===== src/Relay/Told.antt =====
-- core/src/caster_internal.cpp: what the messages of a distribution make of the tasks that run.
use nav_caster.Base.{
  String, str_eq, eq_iff, str_eq_self, Bool, true, false, not, ◌&&◌, Option, none, some, List, [],
  ◌∷◌, ◌++◌, ◌≡◌, refl, ap, ◌∙◌, if◌then◌else◌, arith, Bool-cases, Option-cases, inl, inr,
}
use nav_caster.Base.Dict.{
  Dict, find, insert, erase, has, Distinct, find-none_of_has, find-set, find-insert, find-erase,
}
use nav_caster.Relay.{
  Kind, pull, push, TaskOperate, active, inactive, update, other_operate, TaskStatus, TaskMsg,
  Payload, record_text, status_text, Relay, RelayEffect, publish, relay_cb, redis, upload, tasks_of,
  RecordTexts, to_string, is_enabled,
}
use nav_caster.Relay.Distribute.{
  distribute_record, distribute_records, withdraw_status, withdraw_statuses, is_wanted,
  is_distributed, task_msg, active_reason, changed_reason, inactive_reason,
}
use nav_caster.Relay.Respond.{respond, relay_task_response, new_status}

abbrev pub is_kind : Kind → Option Kind → Bool
is_kind kind none = false
is_kind pull (some k) = elim k [ pull ↦ true | push ↦ false ]
is_kind push (some k) = elim k [ pull ↦ false | push ↦ true ]

-- Whether the task runs after a message for it.
abbrev pub after_operate : TaskOperate → Bool → Bool
after_operate active b = true
after_operate inactive b = false
after_operate update b = b
after_operate other_operate b = b

-- Whether the message is for the task.
abbrev pub is_for : Kind → String → TaskMsg → Bool
is_for kind uid m = is_kind kind m.type && str_eq m.target uid

-- Whether a task runs after the messages to a node.
unfoldable pub told : Kind → String → String → List RelayEffect → Bool → Bool
told kind node uid [] b = b
told kind node uid (publish n m ∷ es) b =
    told kind node uid es
      (if str_eq n node && is_for kind uid m then after_operate m.operate b else b)
told kind node uid (relay_cb m ∷ es) b = told kind node uid es b
told kind node uid (redis w ∷ es) b = told kind node uid es b
told kind node uid (upload k u st ∷ es) b = told kind node uid es b

-- A node that receives what it has published to itself, in that order.
unfoldable pub deliver_own : List RelayEffect → Relay → Relay
deliver_own [] s = s
deliver_own (publish n m ∷ es) s =
    deliver_own es (if str_eq n s.node_id then (relay_task_response (some m) s).state else s)
deliver_own (relay_cb m ∷ es) s = deliver_own es s
deliver_own (redis w ∷ es) s = deliver_own es s
deliver_own (upload k u st ∷ es) s = deliver_own es s

pub told-append :
    (kind : Kind) (node uid : String) (es fs : List RelayEffect) (b : Bool)
    → told kind node uid (es ++ fs) b ≡ told kind node uid fs (told kind node uid es b)
unfolding told
told-append kind node uid [] fs b = refl
told-append kind node uid (publish n m ∷ es) fs b = told-append kind node uid es fs _
told-append kind node uid (relay_cb m ∷ es) fs b = told-append kind node uid es fs b
told-append kind node uid (redis w ∷ es) fs b = told-append kind node uid es fs b
told-append kind node uid (upload k u st ∷ es) fs b = told-append kind node uid es fs b

pub has-insert :
    (k j : String) (v : TaskStatus) (m : Dict TaskStatus)
    → has j (insert k v m) ≡ (if str_eq k j then true else has j m)
unfolding has
has-insert k j v m = ground (arith, find-insert k j v m)

pub has-erase :
    (k j : String) (m : Dict TaskStatus)
    → has j (erase k m) ≡ (if str_eq k j then false else has j m)
unfolding has
has-erase k j m = ground (arith, find-erase k j m)

-- One message, to a node that runs the task or does not.
has-respond :
    (kind : Kind) (uid : String) (m : TaskMsg) (s : Relay)
    → has uid (tasks_of kind (relay_task_response (some m) s).state).status_map ≡ (
        if is_for kind uid m
        then after_operate m.operate (has uid (tasks_of kind s).status_map)
        else has uid (tasks_of kind s).status_map)
unfolding relay_task_response respond
has-respond pull uid m s = ground (
  arith,
  eq_iff m.target uid,
  has-insert m.target uid (new_status m.target s) s.pull_tasks.status_map,
  has-erase m.target uid s.pull_tasks.status_map,
)
has-respond push uid m s = ground (
  arith,
  eq_iff m.target uid,
  has-insert m.target uid (new_status m.target s) s.push_tasks.status_map,
  has-erase m.target uid s.push_tasks.status_map,
)

-- What a message leaves as it is.
abbrev pub SameGiven : Kind → Relay → Relay → Type 0
SameGiven kind t s =
    (t.node_id ≡ s.node_id)
    × (((tasks_of kind t).record_map ≡ (tasks_of kind s).record_map)
        × ((tasks_of kind t).record_distributed ≡ (tasks_of kind s).record_distributed))

SameGiven-respond :
    (kind : Kind) (m : TaskMsg) (s : Relay)
    → SameGiven kind (relay_task_response (some m) s).state s
unfolding relay_task_response respond
SameGiven-respond pull m s = ground arith
SameGiven-respond push m s = ground arith

own_message : String → TaskMsg → Relay → Relay
own_message n m s = if str_eq n s.node_id then (relay_task_response (some m) s).state else s

SameGiven-own :
    (kind : Kind) (n : String) (m : TaskMsg) (s : Relay) → SameGiven kind (own_message n m s) s
unfolding own_message
SameGiven-own kind n m s = elim (Bool-cases (str_eq n s.node_id)) [
  | inl here ↦ rw here (SameGiven-respond kind m s)
  | inr there ↦ rw there (refl, (refl, refl))
]

pub SameGiven-deliver :
    (kind : Kind) (es : List RelayEffect) (s : Relay) → SameGiven kind (deliver_own es s) s
unfolding deliver_own own_message
SameGiven-deliver kind [] s = (refl, (refl, refl))
SameGiven-deliver kind (publish n m ∷ es) s =
    let later = SameGiven-deliver kind es (own_message n m s) in
    let now = SameGiven-own kind n m s in
    (later.0 ∙ now.0, (later.1.0 ∙ now.1.0, later.1.1 ∙ now.1.1))
SameGiven-deliver kind (relay_cb m ∷ es) s = SameGiven-deliver kind es s
SameGiven-deliver kind (redis w ∷ es) s = SameGiven-deliver kind es s
SameGiven-deliver kind (upload k u st ∷ es) s = SameGiven-deliver kind es s

has-own :
    (kind : Kind) (uid n : String) (m : TaskMsg) (s : Relay)
    → has uid (tasks_of kind (own_message n m s)).status_map ≡ (
        if str_eq n s.node_id && is_for kind uid m
        then after_operate m.operate (has uid (tasks_of kind s).status_map)
        else has uid (tasks_of kind s).status_map)
unfolding own_message
has-own kind uid n m s = elim (Bool-cases (str_eq n s.node_id)) [
  | inl here ↦ rw here (has-respond kind uid m s)
  | inr there ↦ rw there refl
]

-- Which tasks run once a node has received its own messages.
pub has-deliver :
    (kind : Kind) (uid : String) (es : List RelayEffect) (s : Relay)
    → has uid (tasks_of kind (deliver_own es s)).status_map
      ≡ told kind s.node_id uid es (has uid (tasks_of kind s).status_map)
unfolding deliver_own own_message told
has-deliver kind uid [] s = refl
has-deliver kind uid (publish n m ∷ es) s =
    has-deliver kind uid es (own_message n m s)
    ∙ ap (λ node. told kind node uid es (has uid (tasks_of kind (own_message n m s)).status_map))
        (SameGiven-own kind n m s).0
    ∙ ap (told kind s.node_id uid es) (has-own kind uid n m s)
has-deliver kind uid (relay_cb m ∷ es) s = has-deliver kind uid es s
has-deliver kind uid (redis w ∷ es) s = has-deliver kind uid es s
has-deliver kind uid (upload k u st ∷ es) s = has-deliver kind uid es s

-- Whether the text that was given out, if any, is this one.
abbrev pub is_text : String → Option String → Bool
is_text json none = false
is_text json (some j) = str_eq j json

module _ (p : RecordTexts) (kind : Kind) (node : String) where
  -- What a record makes of its own task, which runs or does not.
  abbrev pub verdict : String → String → Bool → Option String → Bool → Bool
  verdict uid json runs given b =
      if is_enabled p json
      then (if runs then (if is_text (to_string p uid json) given then b else false) else true)
      else b

  told-task_msg :
      (op : TaskOperate) (uid j reason : String) (x : Payload) (b : Bool)
      → told kind node j (publish node (task_msg kind op uid x reason) ∷ []) b
        ≡ (if str_eq uid j then after_operate op b else b)
  unfolding told task_msg
  told-task_msg op uid j reason x b = ground (arith, str_eq_self node, is_kind-self kind)
    where
      is_kind-self : (kind : Kind) → is_kind kind (some kind) ≡ true
      is_kind-self pull = refl
      is_kind-self push = refl

  told-nil : (j : String) (b : Bool) → told kind node j [] b ≡ b
  unfolding told
  told-nil j b = refl

  told-record :
      (statuses : Dict TaskStatus) (uid j json : String) (d : Dict String) (b : Bool)
      → told kind node j (distribute_record p kind node statuses uid json d).effects b
        ≡ (if str_eq uid j then verdict uid json (has uid statuses) (find uid d) b else b)
  unfolding distribute_record has is_distributed
  told-record statuses uid j json d b = elim (Option-cases (find uid statuses)) [
    | inl idle ↦ ground (
      arith,
      told-nil j b,
      told-task_msg active uid j (active_reason kind) (record_text (to_string p uid json)) b,
    )
    | inr (st, there) ↦
        ground (
          arith,
          told-nil j b,
          told-task_msg inactive uid j (changed_reason kind) (status_text st) b,
        )
  ]

  -- What a record makes of the text given out for its task.
  abbrev pub new_text : String → String → Bool → Option String → Option String
  new_text uid json runs given =
      if is_enabled p json
      then (if runs
          then (if is_text (to_string p uid json) given then given else none)
          else some (to_string p uid json))
      else given

  find-record :
      (statuses : Dict TaskStatus) (uid j json : String) (d : Dict String)
      → find j (distribute_record p kind node statuses uid json d).distributed
        ≡ (if str_eq uid j then new_text uid json (has uid statuses) (find uid d) else find j d)
  unfolding distribute_record has is_distributed
  find-record statuses uid j json d =
      ground (arith, eq_iff uid j, find-set uid j (to_string p uid json) d, find-erase uid j d)

  -- The records together, each of them about its own task.
  pub told-records :
      (statuses : Dict TaskStatus) (records : Dict String) (j : String) (d : Dict String) (b : Bool)
      → Distinct records
      → (told kind node j (distribute_records p kind node statuses records d).effects b
          ≡ elim (find j records) [
            | none ↦ b
            | some json ↦ verdict j json (has j statuses) (find j d) b
          ])
        × (find j (distribute_records p kind node statuses records d).distributed
            ≡ elim (find j records) [
              | none ↦ find j d
              | some json ↦ new_text j json (has j statuses) (find j d)
            ])
  unfolding distribute_records find
  told-records statuses [] j d b distinct = (told-nil j b, refl)
  told-records statuses ((uid, json) ∷ records) j d b distinct =
      let first = distribute_record p kind node statuses uid json d in
      let rest =
        told-records statuses records j first.distributed (told kind node j first.effects b)
          distinct.1 in
      elim (Bool-cases (str_eq uid j)) [
        | inl hit ↦ ground (
          arith,
          (eq_iff uid j).0 hit,
          find-none_of_has uid records distinct.0,
          told-append kind node j (distribute_record p kind node statuses uid json d).effects
              (distribute_records p kind node statuses records first.distributed).effects b,
          told-record statuses uid j json d b,
          find-record statuses uid j json d,
          rest.0,
          rest.1,
        )
        | inr miss ↦ ground (
          arith,
          told-append kind node j (distribute_record p kind node statuses uid json d).effects
              (distribute_records p kind node statuses records first.distributed).effects b,
          told-record statuses uid j json d b,
          find-record statuses uid j json d,
          rest.0,
          rest.1,
        )
      ]

  told-status :
      (records : Dict String) (uid j : String) (st : TaskStatus) (d : Dict String) (b : Bool)
      → (told kind node j (withdraw_status p kind node records uid st d).effects b
          ≡ (if str_eq uid j && not (is_wanted p kind node records uid) then false else b))
        × (find j (withdraw_status p kind node records uid st d).distributed
            ≡ (if str_eq uid j && not (is_wanted p kind node records uid) then none else find j d))
  unfolding withdraw_status
  told-status records uid j st d b = ground (
    arith,
    told-nil j b,
    told-task_msg inactive uid j (inactive_reason kind) (status_text st) b,
    eq_iff uid j,
    find-erase uid j d,
  )

  -- The statuses together: those of tasks that are not to run.
  pub told-statuses :
      (records : Dict String) (statuses : Dict TaskStatus) (j : String) (d : Dict String) (b : Bool)
      → (told kind node j (withdraw_statuses p kind node records statuses d).effects b
          ≡ (if has j statuses && not (is_wanted p kind node records j) then false else b))
        × (find j (withdraw_statuses p kind node records statuses d).distributed
            ≡ (if has j statuses && not (is_wanted p kind node records j) then none else find j d))
  unfolding withdraw_statuses has find
  told-statuses records [] j d b = (told-nil j b, refl)
  told-statuses records ((uid, st) ∷ statuses) j d b =
      let first = withdraw_status p kind node records uid st d in
      let rest =
        told-statuses records statuses j first.distributed (told kind node j first.effects b) in
      ground (
        arith,
        eq_iff uid j,
        told-append kind node j (withdraw_status p kind node records uid st d).effects
            (withdraw_statuses p kind node records statuses first.distributed).effects b,
        told-status records uid j st d b,
        rest,
      )
