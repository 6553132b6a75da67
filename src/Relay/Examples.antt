-- ===== src/Relay/Examples.antt =====
-- Tasks at concrete states.
use nav_caster.Base.{String, str_eq, not, true, false, Option, none, some, List, [], ◌∷◌, ◌≡◌, refl}
use nav_caster.Base.Dict.{find, has}
use nav_caster.Relay.{
  pull, active, inactive, update, TaskStatus, TaskOperate, TaskMsg, record_text, Tasks, Relay,
  RecordTexts, is_enabled,
}
use nav_caster.Relay.Distribute.{task_distribution, is_wanted}
use nav_caster.Relay.Settling.{round, runs, up_to_date, reload_round, reload_round-round}
use nav_caster.Relay.Sync.{HgetallReply, array_reply}
use nav_caster.Relay.Running.{
  after_callbacks, respond_all, only_to, respond_all-callbacks, distribution-forgets,
}

-- Every text that is not "off" is a record that is enabled.
abbrev texts : RecordTexts
texts = record { minimal = λ uid. uid; enabled = λ json. not (str_eq json "off") }

abbrev running : String → TaskStatus
running uid = record { uid = uid; connect_key = ""; state = 1; node_uid = "n2"; node_name = "two" }

abbrev no_tasks : Tasks
no_tasks = record {
  record_map = [];
  status_map = [];
  record_distributed = [];
  connection_count = 0;
}

-- A task that is new, one whose record has changed, one that is switched off and one that is not
-- known.
abbrev busy : Relay
busy = record {
  node_id = "n1";
  node_name = "one";
  is_master = true;
  current_master_id = "n1";
  cluster_node_map = [];
  pull_tasks = record {
    record_map = ("t1", "a") ∷ ("t2", "b") ∷ ("t3", "off") ∷ [];
    status_map =
        ("t2", running "t2")
        ∷ ("t3", running "t3")
        ∷ ("t4", running "t4")
        ∷ ("t5", running "t5")
        ∷ [];
    record_distributed = ("t2", "old") ∷ [];
    connection_count = 4;
  };
  push_tasks = no_tasks;
}

-- Redis has a status of the task that is new alone, whose value is its name.
abbrev listed : HgetallReply
listed = array_reply (("t1", "t1") ∷ [])

abbrev parse : String → Option TaskStatus
parse value = some (running value)

reload_round-round_example :
    (runs pull (reload_round texts parse pull listed (round texts pull busy)) "t2" ≡ true)
    × (up_to_date texts pull (reload_round texts parse pull listed (round texts pull busy)) "t2"
        ≡ true)
unfolding is_wanted find is_enabled has round nav_caster.Relay.Sync.sync_stat
    nav_caster.Relay.Told.deliver_own task_distribution nav_caster.Base.Dict.set
    nav_caster.Relay.Respond.relay_task_response nav_caster.Base.Dict.erase
reload_round-round_example =
    reload_round-round texts parse pull listed busy "t2" (refl, (refl, (refl, tt))) refl

abbrev message : TaskOperate → TaskMsg
message op = record {
  type = some pull;
  operate = op;
  target = "t1";
  msg_str = record_text "a";
  reason_str = "";
}

abbrev messages : List (Option TaskMsg)
messages =
    some (message active)
    ∷ some (message active)
    ∷ none
    ∷ some (message update)
    ∷ some (message inactive)
    ∷ some (message inactive)
    ∷ some (message active)
    ∷ []

respond_all-callbacks_example :
    after_callbacks pull "t1" (respond_all messages busy).effects (runs pull busy "t1")
    ≡ some (runs pull (respond_all messages busy).state "t1")
respond_all-callbacks_example = respond_all-callbacks pull "t1" messages busy

abbrev taken_over : Relay
taken_over = record busy {
  pull_tasks = record no_tasks {
    record_map = ("t2", "b") ∷ [];
    status_map = ("t2", running "t2") ∷ [];
  };
}

distribution-forgets_example :
    (runs pull (round texts pull taken_over) "t2" ≡ false)
    × (only_to "n1" (task_distribution texts pull taken_over).effects ≡ true)
unfolding is_wanted find is_enabled has
distribution-forgets_example =
    distribution-forgets texts pull taken_over "t2" (running "t2") (refl, tt) refl refl refl
