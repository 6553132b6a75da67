-- ===== src/Session/Retrying.antt =====
-- service/session/relay_pull.cpp: a pull that loses its connection before its registration is
-- answered.
use nav_caster.Base.{String, is_empty, false, List, [], ◌∷◌, ◌++◌, ◌≡◌, refl, ap, ◌∙◌, arith}
use nav_caster.Caster.{Reply, ok}
use nav_caster.Session.Pull.{
  RelayPull, Pulled, registering, is_running, event_callback, schedule_retry, cleanup_connection,
  running, caster_register_callback, timeout_callback,
}

-- The timer fires, again and again, with the keys that new_bev would give.
unfoldable pub timeouts : List String → RelayPull → Pulled
timeouts [] s = record { after = s; effects = [] }
timeouts (key ∷ keys) s =
    let first = timeout_callback key s in
    let rest = timeouts keys first.after in
    record { after = rest.after; effects = first.effects ++ rest.effects }

-- The connection is lost, and the answer to the registration comes after it.
abbrev pub late_answer : Reply → RelayPull → RelayPull
late_answer reply s = (caster_register_callback reply (event_callback false "" s).after).after

timeout-running :
    (key : String) (s : RelayPull)
    → s.state ≡ is_running
    → timeout_callback key s ≡ record { after = s; effects = [] }
unfolding timeout_callback
timeout-running key s e = ground (arith, e)

timeouts-running :
    (keys : List String) (s : RelayPull)
    → s.state ≡ is_running
    → timeouts keys s ≡ record { after = s; effects = [] }
unfolding timeouts
timeouts-running [] s e = refl
timeouts-running (key ∷ keys) s e =
    ap
      (λ (first : Pulled). record {
        after = (timeouts keys first.after).after;
        effects = first.effects ++ (timeouts keys first.after).effects;
      })
      (timeout-running key s e)
    ∙ ap (λ (rest : Pulled). record { after = rest.after; effects = rest.effects })
        (timeouts-running keys s e)

late_answer-state :
    (reply : Reply) (s : RelayPull)
    → s.state ≡ registering
    → s.stopped ≡ false
    → is_empty s.connect_key ≡ false
    → reply.type ≡ ok
    → ((late_answer reply s).state ≡ is_running) × ((late_answer reply s).connect_key ≡ "")
unfolding event_callback schedule_retry cleanup_connection caster_register_callback running
late_answer-state reply s waiting alive connected accepted = ground arith

-- A pull whose connection is lost between its registration and the answer, which then is OK, takes
-- itself for running without a connection, and however often its timer fires it does nothing more:
-- it never connects again by itself.
pub timeouts-late_answer :
    (reply : Reply) (s : RelayPull) (keys : List String)
    → s.state ≡ registering
    → s.stopped ≡ false
    → is_empty s.connect_key ≡ false
    → reply.type ≡ ok
    → ((late_answer reply s).state ≡ is_running)
      × (((late_answer reply s).connect_key ≡ "")
          × (timeouts keys (late_answer reply s)
              ≡ record { after = late_answer reply s; effects = [] }))
timeouts-late_answer reply s keys waiting alive connected accepted =
    let lost = late_answer-state reply s waiting alive connected accepted in
    (lost.0, (lost.1, timeouts-running keys (late_answer reply s) lost.0))
