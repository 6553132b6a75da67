-- ===== src/Listener/Accept.antt =====
-- service/ntrip_listener.cpp: a connection from its arrival to its first bytes or its end.
use nav_caster.Base.{ℕ, String, is_empty, Bool, true, false, List, [], ◌∷◌, if◌then◌else◌}

pub data AcceptEffect : Type 0 where
  -- evutil_closesocket
  close_socket : AcceptEffect
  -- set_timer for reading, with the seconds.
  set_timer : String → ℕ → AcceptEffect
  -- The callbacks of the listener, and reading.
  wait_request : String → AcceptEffect
  free_bev : String → AcceptEffect

-- The result, and what has been done, in order.
pub record Accepted : Type 0 where
  pub code : ℕ
  pub effects : List AcceptEffect

-- `_disable_new_connect` as the two operations set it.
unfoldable pub disable_accept_new_connect : Bool → Bool
disable_accept_new_connect disabled = true

unfoldable pub enable_accept_new_connect : Bool → Bool
enable_accept_new_connect disabled = false

-- With `_disable_new_connect`, the timeout and the key that new_bev gives.
unfoldable pub process_accept_request : Bool → ℕ → String → Accepted
process_accept_request disabled connect_timeout connect_key =
    if disabled
    then record { code = 1; effects = close_socket ∷ [] }
    else if is_empty connect_key
    then record { code = 2; effects = close_socket ∷ [] }
    else record {
      code = 0;
      effects = set_timer connect_key connect_timeout ∷ wait_request connect_key ∷ [];
    }

-- BevEventCallback with process_bev_event: by whether the event is BEV_EVENT_CONNECTED alone.
unfoldable pub bev_event_callback : Bool → String → List AcceptEffect
bev_event_callback connected connect_key = if connected then [] else free_bev connect_key ∷ []
