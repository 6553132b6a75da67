-- ===== src/Session/Ended.antt =====
-- service/session/server_ntrip.cpp: the end of a base's session, and what comes after it.
use mathlib.Core.Path.{subst, sym}
use nav_caster.Session.Split.{at_chunk, read_callback-chunked}
use nav_caster.Base.{
  ℕ, suc, Bool, true, false, Option, none, some, List, [], ◌∷◌, ◌++◌, ◌≡◌, refl, ap, ◌∙◌, length,
  if◌then◌else◌, arith, append-nil, Option-cases, Bool-cases, inl, inr,
}
use nav_caster.Auth.{server as auth_server, AuthReplyData}
use nav_caster.Caster.{server, Reply}
use nav_caster.Session.{SessionEffect, add_logout_record, withdraw_record, push_destroy}
use nav_caster.Session.Chunk.{LineReader, read_chunks}
use nav_caster.Session.Server.{
  ServerOpt, ServerNtrip, Served, ServerEvent, stop_call, read, event, timeout, auth_answer,
  register_answer, stop, running, send_heart_beat_to_server, publish_data_from_evbuf,
  publish_data_from_chunk, publish_pieces, read_callback, auth_login_callback,
  caster_register_callback, handle,
}

-- A session under a list of events. An exception ends the program.
unfoldable pub run : ServerOpt → LineReader → List ServerEvent → ServerNtrip → Served
run opt r [] s = record { state = s; effects = [] }
run opt r (e ∷ es) s = elim (handle opt r e s) [
  | none ↦ record { state = s; effects = [] }
  | some t ↦
      let rest = run opt r es t.state in
      record { state = rest.state; effects = t.effects ++ rest.effects }
]

abbrev pub is_closing : SessionEffect → Bool
is_closing (add_logout_record t) = true
is_closing (withdraw_record t) = true
is_closing push_destroy = true
is_closing _ = false

-- What is sent for the end of a session, in order.
unfoldable pub closing : List SessionEffect → List SessionEffect
closing [] = []
closing (e ∷ es) = if is_closing e then e ∷ closing es else closing es

closing-append : (es fs : List SessionEffect) → closing (es ++ fs) ≡ closing es ++ closing fs
unfolding closing
closing-append [] fs = refl
closing-append (e ∷ es) fs = elim (Bool-cases (is_closing e)) [
  | inl is ↦ rw is (ap (◌∷◌ e) (closing-append es fs))
  | inr isnt ↦ rw isnt (closing-append es fs)
]

closing-pieces : (ps : List (List ℕ)) → closing (publish_pieces ps) ≡ []
unfolding publish_pieces closing
closing-pieces [] = refl
closing-pieces (p ∷ ps) = closing-pieces ps

-- A session that stays stopped and sends nothing for its end.
abbrev Silent : Served → Type 0
Silent t = (t.state.stopped ≡ true) × (closing t.effects ≡ [])

abbrev SilentIfAny : Option Served → Type 0
SilentIfAny none = Unit {0}
SilentIfAny (some t) = Silent t

module _ (s : ServerNtrip) (stopped : s.stopped ≡ true) where
  stop-again : stop s ≡ record { state = s; effects = [] }
  unfolding stop
  stop-again = ground arith

  Silent-heart_beat : (opt : ServerOpt) (n : ℕ) → Silent (send_heart_beat_to_server opt n s)
  unfolding send_heart_beat_to_server closing
  Silent-heart_beat opt n = ground (arith, stop-again)

  Silent-auth : (reply : AuthReplyData) → Silent (auth_login_callback reply s)
  unfolding auth_login_callback closing
  Silent-auth reply = ground (arith, stop-again)

  Silent-register :
      (opt : ServerOpt) (reply : Reply) → Silent (caster_register_callback opt reply s)
  unfolding caster_register_callback closing running
  Silent-register opt reply = ground (arith, stop-again)

  Silent-evbuf : Silent (publish_data_from_evbuf s)
  unfolding publish_data_from_evbuf closing
  Silent-evbuf = ground arith

stop-stopped : (s : ServerNtrip) → s.stopped ≡ true → stop s ≡ record { state = s; effects = [] }
stop-stopped s h = stop-again s h

Silent-chunk :
    (r : LineReader) (s : ServerNtrip)
    → s.stopped ≡ true
    → SilentIfAny (publish_data_from_chunk r s)
unfolding publish_data_from_chunk
Silent-chunk r s h = elim (Option-cases (read_chunks (suc (length s.chunk.recv_evbuf)) r s.chunk)) [
  | inl none_read ↦ ground (arith, none_read)
  | inr (c, e) ↦ ground (
    arith,
    e,
    closing-pieces c.pieces,
    append-nil (publish_pieces c.pieces),
    stop-stopped (record s { chunk = c.state }) h,
  )
]

read_callback-plain :
    (r : LineReader) (s : ServerNtrip) (bytes : List ℕ)
    → s.transfer_with_chunked ≡ false
    → read_callback r bytes s
      ≡ some
          (publish_data_from_evbuf (at_chunk s.chunk.chunked_size (s.chunk.recv_evbuf ++ bytes) s))
unfolding read_callback
read_callback-plain r s bytes plain = ground (arith, plain)

Silent-read :
    (r : LineReader) (bytes : List ℕ) (s : ServerNtrip)
    → s.stopped ≡ true
    → SilentIfAny (read_callback r bytes s)
Silent-read r bytes s h =
    let t = at_chunk s.chunk.chunked_size (s.chunk.recv_evbuf ++ bytes) s in
    elim (Bool-cases s.transfer_with_chunked) [
      | inl chunked ↦
          subst SilentIfAny (sym (read_callback-chunked r s bytes chunked)) (Silent-chunk r t h)
      | inr plain ↦ subst SilentIfAny (sym (read_callback-plain r s bytes plain)) (Silent-evbuf t h)
    ]

Silent-handle :
    (opt : ServerOpt) (r : LineReader) (e : ServerEvent) (s : ServerNtrip)
    → s.stopped ≡ true
    → SilentIfAny (handle opt r e s)
unfolding handle closing
Silent-handle opt r stop_call s h = rw (stop-again s h) (h, refl)
Silent-handle opt r (read bytes) s h = Silent-read r bytes s h
Silent-handle opt r event s h = rw (stop-again s h) (h, refl)
Silent-handle opt r (timeout n) s h = Silent-heart_beat s h opt n
Silent-handle opt r (auth_answer reply) s h = Silent-auth s h reply
Silent-handle opt r (register_answer reply) s h = Silent-register s h opt reply

run-none :
    (opt : ServerOpt) (r : LineReader) (e : ServerEvent) (es : List ServerEvent) (s : ServerNtrip)
    → handle opt r e s ≡ none
    → run opt r (e ∷ es) s ≡ record { state = s; effects = [] }
unfolding run
run-none opt r e es s h = ground (arith, h)

run-some :
    (opt : ServerOpt) (r : LineReader) (e : ServerEvent) (es : List ServerEvent) (s : ServerNtrip)
    (t : Served)
    → handle opt r e s ≡ some t
    → run opt r (e ∷ es) s ≡ record {
      state = (run opt r es t.state).state;
      effects = t.effects ++ (run opt r es t.state).effects;
    }
unfolding run
run-some opt r e es s t h = ground (arith, h)

Silent-run :
    (opt : ServerOpt) (r : LineReader) (es : List ServerEvent) (s : ServerNtrip)
    → s.stopped ≡ true
    → Silent (run opt r es s)
unfolding run closing
Silent-run opt r [] s h = (h, refl)
Silent-run opt r (e ∷ es) s h = elim (Option-cases (handle opt r e s)) [
  | inl thrown_out ↦ subst Silent (sym (run-none opt r e es s thrown_out)) (h, refl)
  | inr (t, there) ↦
      let silent = subst SilentIfAny there (Silent-handle opt r e s h) in
      let rest = Silent-run opt r es t.state silent.0 in
      subst Silent (sym (run-some opt r e es s t there)) (
        rest.0,
        closing-append t.effects (run opt r es t.state).effects
            ∙ ap (◌++ closing (run opt r es t.state).effects) silent.1
            ∙ rest.1,
      )
]

stops :
    (s : ServerNtrip)
    → s.stopped ≡ false
    → ((stop s).state.stopped ≡ true)
      × (closing (stop s).effects
          ≡ add_logout_record auth_server
            ∷ ((if s.registered then withdraw_record server ∷ [] else []) ++ push_destroy ∷ []))
unfolding stop closing
stops s h = ground arith

-- When a base's session ends, its login is logged out and the session's destruction is asked for,
-- each once, and its registration is withdrawn in between exactly if the answer to it had come before
-- the end. None of these happens again and none is made up for, whatever happens to the session
-- later, an answer to its registration included.
pub run-stop :
    (opt : ServerOpt) (r : LineReader) (es : List ServerEvent) (s : ServerNtrip)
    → s.stopped ≡ false
    → ((run opt r (stop_call ∷ es) s).state.stopped ≡ true)
      × (closing (run opt r (stop_call ∷ es) s).effects
          ≡ add_logout_record auth_server
            ∷ ((if s.registered then withdraw_record server ∷ [] else []) ++ push_destroy ∷ []))
unfolding run handle
run-stop opt r es s h =
    let rest = Silent-run opt r es (stop s).state (stops s h).0 in
    (
      rest.0,
      closing-append (stop s).effects (run opt r es (stop s).state).effects
          ∙ ap (closing (stop s).effects ++◌) rest.1
          ∙ append-nil (closing (stop s).effects)
          ∙ (stops s h).1,
    )
