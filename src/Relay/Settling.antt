-- ===== src/Relay/Settling.antt =====
-- core/src/caster_internal.cpp: a master that gives out tasks, receives its own messages and reads the
-- statuses from Redis.
use mathlib.Core.Path.{subst, sym}
use nav_caster.Base.{
  String, str_eq_self, Bool, true, false, Option, none, some, ◌++◌, ◌≡◌, refl, ap, ◌∙◌,
  if◌then◌else◌, arith, Option-cases, inl, inr,
}
use nav_caster.Base.Dict.{Dict, find, has, Distinct}
use nav_caster.Relay.{
  Kind, pull, push, Tasks, TaskStatus, Relay, tasks_of, RecordTexts, to_string, is_enabled,
}
use nav_caster.Relay.Sync.{HgetallReply, no_reply, nil_reply, other_reply, array_reply, sync_stat}
use nav_caster.Relay.Distribute.{
  Given, distribute_records, withdraw_statuses, task_distribution, is_wanted,
}
use nav_caster.Relay.Told.{
  told, deliver_own, told-append, has-deliver, SameGiven-deliver, told-records, told-statuses,
  is_text,
}

-- One distribution of a kind, and what its messages make of the node.
unfoldable pub round : RecordTexts → Kind → Relay → Relay
round p kind s = deliver_own (task_distribution p kind s).effects (task_distribution p kind s).state

abbrev pub wanted : RecordTexts → Kind → Relay → String → Bool
wanted p kind s uid = is_wanted p kind s.node_id (tasks_of kind s).record_map uid

abbrev pub runs : Kind → Relay → String → Bool
runs kind s uid = has uid (tasks_of kind s).status_map

-- Whether what was given out for a task is its record.
abbrev pub is_current : RecordTexts → String → Dict String → Dict String → Bool
is_current p uid records d = elim (find uid records) [
  | none ↦ false
  | some json ↦ is_text (to_string p uid json) (find uid d)
]

abbrev pub up_to_date : RecordTexts → Kind → Relay → String → Bool
up_to_date p kind s uid =
    is_current p uid (tasks_of kind s).record_map (tasks_of kind s).record_distributed

module _ (p : RecordTexts) (kind : Kind) (node : String) (t : Tasks) (uid : String)
    (distinct : Distinct t.record_map) where
  given : Given
  given = distribute_records p kind node t.status_map t.record_map t.record_distributed

  gone : Given
  gone = withdraw_statuses p kind node t.record_map t.status_map given.distributed

  -- What a distribution sends about a task, and the text that it leaves.
  tasks-told :
      (told kind node uid (given.effects ++ gone.effects) (has uid t.status_map) ≡ (
        if is_wanted p kind node t.record_map uid
        then (if has uid t.status_map
            then is_current p uid t.record_map t.record_distributed
            else true)
        else false))
      × ((if is_wanted p kind node t.record_map uid
            then is_current p uid t.record_map gone.distributed
            else true)
          ≡ (if is_wanted p kind node t.record_map uid
              then (if has uid t.status_map
                  then is_current p uid t.record_map t.record_distributed
                  else true)
              else true))
  unfolding given gone is_wanted
  tasks-told =
      let first =
        told-records p kind node t.status_map t.record_map uid t.record_distributed
          (has uid t.status_map) distinct in
      let second =
        told-statuses p kind node t.record_map t.status_map uid given.distributed
          (told kind node uid given.effects (has uid t.status_map)) in
      elim (Option-cases (find uid t.record_map)) [
        | inl out ↦ ground (
          arith,
          told-append kind node uid given.effects gone.effects (has uid t.status_map),
          first,
          second,
        )
        | inr (json, there) ↦ ground (
          arith,
          told-append kind node uid given.effects gone.effects (has uid t.status_map),
          first,
          second,
          str_eq_self (to_string p uid json),
        )
      ]

-- What a distribution sends about a task, and the text that it leaves.
distribution-told :
    (p : RecordTexts) (kind : Kind) (s : Relay) (uid : String)
    → Distinct (tasks_of kind s).record_map
    → (told kind s.node_id uid (task_distribution p kind s).effects (runs kind s uid) ≡ (
        if wanted p kind s uid
        then (if runs kind s uid then up_to_date p kind s uid else true)
        else false))
      × ((if wanted p kind s uid
            then up_to_date p kind (task_distribution p kind s).state uid
            else true)
          ≡ (if wanted p kind s uid
              then (if runs kind s uid then up_to_date p kind s uid else true)
              else true))
unfolding task_distribution given gone
distribution-told p pull s uid distinct = tasks-told p pull s.node_id s.pull_tasks uid distinct
distribution-told p push s uid distinct = tasks-told p push s.node_id s.push_tasks uid distinct

-- A distribution leaves the records and the statuses.
distribution-same :
    (p : RecordTexts) (kind : Kind) (s : Relay)
    → ((task_distribution p kind s).state.node_id ≡ s.node_id)
      × (((tasks_of kind (task_distribution p kind s).state).record_map
            ≡ (tasks_of kind s).record_map)
          × ((tasks_of kind (task_distribution p kind s).state).status_map
              ≡ (tasks_of kind s).status_map))
unfolding task_distribution
distribution-same p pull s = (refl, (refl, refl))
distribution-same p push s = (refl, (refl, refl))

round-same :
    (p : RecordTexts) (kind : Kind) (s : Relay)
    → ((round p kind s).node_id ≡ s.node_id)
      × (((tasks_of kind (round p kind s)).record_map ≡ (tasks_of kind s).record_map)
          × ((tasks_of kind (round p kind s)).record_distributed
              ≡ (tasks_of kind (task_distribution p kind s).state).record_distributed))
unfolding round
round-same p kind s =
    let delivered =
      SameGiven-deliver kind (task_distribution p kind s).effects
        (task_distribution p kind s).state in
    let same = distribution-same p kind s in
    (delivered.0 ∙ same.0, (delivered.1.0 ∙ same.1.0, delivered.1.1))

round-wanted :
    (p : RecordTexts) (kind : Kind) (s : Relay) (uid : String)
    → wanted p kind (round p kind s) uid ≡ wanted p kind s uid
unfolding is_wanted
round-wanted p kind s uid =
    ap (λ m. elim (find uid m) [ none ↦ false | some json ↦ is_enabled p json ])
      (round-same p kind s).1.0

-- What runs after a round.
pub round-runs :
    (p : RecordTexts) (kind : Kind) (s : Relay) (uid : String)
    → Distinct (tasks_of kind s).record_map
    → runs kind (round p kind s) uid ≡ (
        if wanted p kind s uid
        then (if runs kind s uid then up_to_date p kind s uid else true)
        else false)
unfolding round
round-runs p kind s uid distinct =
    let es = (task_distribution p kind s).effects in
    has-deliver kind uid es (task_distribution p kind s).state
    ∙ ap (λ node. told kind node uid es (runs kind (task_distribution p kind s).state uid))
        (distribution-same p kind s).0
    ∙ ap (λ m. told kind s.node_id uid es (has uid m)) (distribution-same p kind s).1.1
    ∙ (distribution-told p kind s uid distinct).0

-- What is up to date after a round.
round-up_to_date :
    (p : RecordTexts) (kind : Kind) (s : Relay) (uid : String)
    → Distinct (tasks_of kind s).record_map
    → (if wanted p kind s uid then up_to_date p kind (round p kind s) uid else true) ≡ (
        if wanted p kind s uid
        then (if runs kind s uid then up_to_date p kind s uid else true)
        else true)
round-up_to_date p kind s uid distinct =
    ap
      (λ m.
        if wanted p kind s uid
        then is_current p uid m (tasks_of kind (round p kind s)).record_distributed
        else true)
      ((round-same p kind s).1.0 ∙ sym (distribution-same p kind s).1.0)
    ∙ ap
        (λ d.
          if wanted p kind s uid
          then is_current p uid (tasks_of kind (task_distribution p kind s).state).record_map d
          else true)
        (round-same p kind s).1.1
    ∙ (distribution-told p kind s uid distinct).1

-- A distribution of a kind as the master comes to it: the statuses are read from Redis before.
-- `parse` is what fromString makes of a status.
unfoldable pub reload_round :
    RecordTexts → (String → Option TaskStatus) → Kind → HgetallReply → Relay → Relay
unfolding sync_stat round
reload_round p parse kind reply s = round p kind (sync_stat parse kind reply s)

-- Reading the statuses leaves the records and what has been given out.
sync-same :
    (parse : String → Option TaskStatus) (kind : Kind) (reply : HgetallReply) (s : Relay)
    → ((tasks_of kind (sync_stat parse kind reply s)).record_map ≡ (tasks_of kind s).record_map)
      × ((tasks_of kind (sync_stat parse kind reply s)).record_distributed
          ≡ (tasks_of kind s).record_distributed)
unfolding sync_stat
sync-same parse pull no_reply s = (refl, refl)
sync-same parse pull nil_reply s = (refl, refl)
sync-same parse pull other_reply s = (refl, refl)
sync-same parse pull (array_reply fields) s = (refl, refl)
sync-same parse push no_reply s = (refl, refl)
sync-same parse push nil_reply s = (refl, refl)
sync-same parse push other_reply s = (refl, refl)
sync-same parse push (array_reply fields) s = (refl, refl)

module _ (p : RecordTexts) (parse : String → Option TaskStatus) (kind : Kind) (reply : HgetallReply)
    (s : Relay) (uid : String) where
  sync-wanted : wanted p kind (sync_stat parse kind reply s) uid ≡ wanted p kind s uid
  unfolding is_wanted
  sync-wanted =
      ap (λ m. elim (find uid m) [ none ↦ false | some json ↦ is_enabled p json ])
        (sync-same parse kind reply s).0

  sync-up_to_date : up_to_date p kind (sync_stat parse kind reply s) uid ≡ up_to_date p kind s uid
  sync-up_to_date =
      ap (λ m. is_current p uid m (tasks_of kind (sync_stat parse kind reply s)).record_distributed)
        (sync-same parse kind reply s).0
      ∙ ap (is_current p uid (tasks_of kind s).record_map) (sync-same parse kind reply s).1

-- The master distributes, receives its own messages, reads the statuses from Redis again,
-- distributes once more and receives those messages: where that reading leaves the task as it is, a
-- task with a status or one without, its map of statuses in the end has the task exactly if the task
-- has an enabled record, and what was given out for such a task is its record. That holds whatever
-- the statuses were before and whatever was given out. The records have distinct names and do not
-- change meanwhile.
pub reload_round-round :
    (p : RecordTexts) (parse : String → Option TaskStatus) (kind : Kind) (reply : HgetallReply)
    (s : Relay) (uid : String)
    → Distinct (tasks_of kind s).record_map
    → runs kind (sync_stat parse kind reply (round p kind s)) uid ≡ runs kind (round p kind s) uid
    → (runs kind (reload_round p parse kind reply (round p kind s)) uid ≡ wanted p kind s uid)
      × ((if wanted p kind s uid
            then up_to_date p kind (reload_round p parse kind reply (round p kind s)) uid
            else true)
          ≡ true)
unfolding reload_round
reload_round-round p parse kind reply s uid distinct kept =
    let one = round p kind s in
    let read = sync_stat parse kind reply one in
    let still =
      subst Distinct (sym ((sync-same parse kind reply one).0 ∙ (round-same p kind s).1.0))
        distinct in
    let first = round-runs p kind s uid distinct in
    let text = round-up_to_date p kind s uid distinct in
    let second = round-runs p kind read uid still in
    let text2 = round-up_to_date p kind read uid still in
    let same = sync-wanted p parse kind reply one uid ∙ round-wanted p kind s uid in
    let current = sync-up_to_date p parse kind reply one uid in
    ground (arith, first, text, second, text2, same, current, kept)
