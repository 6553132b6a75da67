-- ===== src/Queue.antt =====
-- service/process_queue.cpp, the class Carrier of service/ntrip_global.h, and process_request with
-- Request_Process_Cb of service/ntrip_caster.cpp: how a request becomes a session, and how a session
-- is taken down. A session is its request here: that its `start` and its `stop` are called are
-- effects, and what they put into the queue comes with them as a later `push`.
pub mod Drained
use nav_caster.Base.{Bool, true, false, List, [], ◌∷◌, ◌++◌, Option, none, some}
use nav_caster.Base.Dict.{Dict, find, insert, erase}
use nav_caster.Listener.{
  ConnectType, ConnectInfo, source, server, client, nearest, pull, push as push_type, create,
  destroy,
}

pub data QueueEffect : Type 0 where
  -- event_active
  activated : QueueEffect
  -- `start` and `stop` of a session.
  started : ConnectInfo → QueueEffect
  stopped : ConnectInfo → QueueEffect

-- The sessions by their keys, `m_obj_map`.
abbrev pub Carrier : Type 0
Carrier = Dict ConnectInfo

pub record Carried : Type 0 where
  pub objects : Carrier
  pub effects : List QueueEffect

unfoldable pub create_object : ConnectInfo → Carrier → Carried
create_object req m = elim (find req.connect_key m) [
  | none ↦ record { objects = insert req.connect_key req m; effects = started req ∷ [] }
  | some old ↦ record {
    objects = insert req.connect_key req (erase req.connect_key m);
    effects = stopped old ∷ started req ∷ [];
  }
]

unfoldable pub destroy_object : ConnectInfo → Carrier → Carried
destroy_object req m = elim (find req.connect_key m) [
  | none ↦ record { objects = m; effects = [] }
  | some old ↦ record { objects = erase req.connect_key m; effects = stopped old ∷ [] }
]

-- A pause and an update do nothing.
unfoldable pub operate_object : ConnectInfo → Carrier → Carried
unfolding create_object destroy_object
operate_object req m = elim req.operate [
  | create ↦ create_object req m
  | destroy ↦ destroy_object req m
  | _ ↦ record { objects = m; effects = [] }
]

-- The queue and the carriers of the service.
pub record Service : Type 0 where
  pub queue : List ConnectInfo
  pub sources : Carrier
  pub servers : Carrier
  pub clients : Carrier
  pub nears : Carrier
  pub pulls : Carrier
  pub pushs : Carrier

pub record Done : Type 0 where
  pub state : Service
  pub effects : List QueueEffect

unfoldable pub push_and_active : ConnectInfo → Service → Done
push_and_active req s = record {
  state = record s { queue = s.queue ++ (req ∷ []) };
  effects = activated ∷ [];
}

-- The switch of process_request.
unfoldable pub process_as : ConnectType → ConnectInfo → Service → Done
unfolding operate_object
process_as source req s =
    let c = operate_object req s.sources in
    record { state = record s { sources = c.objects }; effects = c.effects }
process_as server req s =
    let c = operate_object req s.servers in
    record { state = record s { servers = c.objects }; effects = c.effects }
process_as client req s =
    let c = operate_object req s.clients in
    record { state = record s { clients = c.objects }; effects = c.effects }
process_as nearest req s =
    let c = operate_object req s.nears in
    record { state = record s { nears = c.objects }; effects = c.effects }
process_as pull req s =
    let c = operate_object req s.pulls in
    record { state = record s { pulls = c.objects }; effects = c.effects }
process_as push_type req s =
    let c = operate_object req s.pushs in
    record { state = record s { pushs = c.objects }; effects = c.effects }
process_as _ req s = record { state = s; effects = [] }

unfoldable pub process_request : ConnectInfo → Service → Done
unfolding process_as
process_request req s = process_as req.type req s

-- The event is made active again while there is something left.
unfoldable pub again : List ConnectInfo → List QueueEffect
again [] = []
again (req ∷ queue) = activated ∷ []

unfoldable pub request_process_cb : Service → Done
unfolding process_request again
request_process_cb s = elim s.queue [
  | [] ↦ record { state = s; effects = [] }
  | req ∷ rest ↦
      let d = process_request req (record s { queue = rest }) in
      record { state = d.state; effects = d.effects ++ again rest }
]
