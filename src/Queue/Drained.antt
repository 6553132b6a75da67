-- ===== src/Queue/Drained.antt =====
-- service/process_queue.cpp and service/ntrip_caster.cpp: the requests in the queue are all handled,
-- in the order in which they came.
use nav_caster.Base.{ℕ, zero, suc, List, [], ◌∷◌, ◌≡◌, refl, ◌∙◌, ap, length}
use nav_caster.Listener.{
  ConnectType, ConnectInfo, unknown, source, server, client, nearest, proxy, alias, pull,
  push as push_type, grid, vrs,
}
use nav_caster.Queue.{Service, process_as, process_request, request_process_cb}

-- So many calls of the processor.
abbrev pub calls : ℕ → Service → Service
calls zero s = s
calls (suc n) s = calls n (request_process_cb s).state

-- The requests, one behind the other.
abbrev pub process_all : List ConnectInfo → Service → Service
process_all [] s = s
process_all (req ∷ rest) s = process_all rest (process_request req s).state

abbrev with_queue : List ConnectInfo → Service → Service
with_queue q s = record s { queue = q }

process_as-with_queue :
    (t : ConnectType) (req : ConnectInfo) (q : List ConnectInfo) (s : Service)
    → (process_as t req (with_queue q s)).state ≡ with_queue q (process_as t req s).state
unfolding process_as
process_as-with_queue unknown req q s = refl
process_as-with_queue source req q s = refl
process_as-with_queue server req q s = refl
process_as-with_queue client req q s = refl
process_as-with_queue nearest req q s = refl
process_as-with_queue proxy req q s = refl
process_as-with_queue alias req q s = refl
process_as-with_queue pull req q s = refl
process_as-with_queue push_type req q s = refl
process_as-with_queue grid req q s = refl
process_as-with_queue vrs req q s = refl

call-with_queue :
    (req : ConnectInfo) (rest : List ConnectInfo) (s : Service)
    → (request_process_cb (with_queue (req ∷ rest) s)).state
      ≡ with_queue rest (process_request req s).state
unfolding request_process_cb process_request
call-with_queue req rest s = process_as-with_queue req.type req rest s

-- As many calls of the processor as the queue has requests leave an empty queue and the sessions as
-- the requests say, handled in the order in which they came.
calls-process_all :
    (requests : List ConnectInfo) (s : Service)
    → calls (length requests) (with_queue requests s) ≡ with_queue [] (process_all requests s)
calls-process_all [] s = refl
calls-process_all (req ∷ rest) s =
    ap (calls (length rest)) (call-with_queue req rest s)
    ∙ calls-process_all rest (process_request req s).state
