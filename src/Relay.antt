-- ===== src/Relay.antt =====
-- core/src/caster_internal.cpp, core/context/pull_record.h, push_record.h, pull_status.h and
-- push_status.h: the tasks that pull a base from another caster or push one there, which the master
-- gives out, and the choice of the master. Pull and push are the same code twice; here they are one,
-- by their kind. That a command goes to Redis or the callback is called is an effect. Left out are
-- the times of a status, and the settings of a task, which only the callback reads.
pub mod Distribute
pub mod Respond
pub mod Sync
pub mod Told
pub mod Settling
pub mod Running
pub mod Examples
use nav_caster.Base.{
  ℕ, String, Bool, true, false, Option, none, some, List, if◌then◌else◌, is_empty,
}
use nav_caster.Base.Dict.{Dict}

pub data Kind : Type 0 where
  pull push : Kind

pub data TaskOperate : Type 0 where
  active inactive update other_operate : TaskOperate

-- `pull_status` and `push_status`
pub record TaskStatus : Type 0 where
  pub uid : String
  pub connect_key : String
  pub state : ℕ
  pub node_uid : String
  pub node_name : String

-- The text of a message: that of a record, or of a status.
pub data Payload : Type 0 where
  record_text : String → Payload
  status_text : TaskStatus → Payload

-- The members of `broadcast_msg` for a task, `none` for a type that is not of tasks.
pub record TaskMsg : Type 0 where
  pub type : Option Kind
  pub operate : TaskOperate
  pub target : String
  pub msg_str : Payload
  pub reason_str : String

-- The three maps of a kind; a record is its `_json`.
pub record Tasks : Type 0 where
  pub record_map : Dict String
  pub status_map : Dict TaskStatus
  pub record_distributed : Dict String
  pub connection_count : ℕ

pub record Relay : Type 0 where
  pub node_id : String
  pub node_name : String
  pub is_master : Bool
  pub current_master_id : String
  pub cluster_node_map : Dict String
  pub pull_tasks : Tasks
  pub push_tasks : Tasks

pub data RelayEffect : Type 0 where
  -- PUBLISH NODE:id
  publish : String → TaskMsg → RelayEffect
  -- `_relay_cb(_relay_cb_arg, req)`
  relay_cb : TaskMsg → RelayEffect
  redis : List String → RelayEffect
  -- HSETEX into the list of a kind.
  upload : Kind → String → TaskStatus → RelayEffect

pub record RelayResult : Type 0 where
  pub code : ℕ
  pub state : Relay
  pub effects : List RelayEffect

abbrev pub tasks_of : Kind → Relay → Tasks
tasks_of pull s = s.pull_tasks
tasks_of push s = s.push_tasks

abbrev pub put_tasks : Kind → Tasks → Relay → Relay
put_tasks pull t s = record s { pull_tasks = t }
put_tasks push t s = record s { push_tasks = t }

-- What is made of texts by protobuf: the smallest record of a name, and whether a text is a record
-- that is enabled.
pub record RecordTexts : Type 0 where
  pub minimal : String → String
  pub enabled : String → Bool

-- `toString` of a record
unfoldable pub to_string : RecordTexts → String → String → String
to_string p uid json = if is_empty json then p.minimal uid else json

unfoldable pub is_enabled : RecordTexts → String → Bool
is_enabled p json = if is_empty json then false else p.enabled json
