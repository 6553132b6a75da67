-- ===== src/Caster/Kicks.antt =====
-- core/src/caster_internal.cpp and core/context/broadcast_msg.h: which logins are told to go, and
-- what becomes of the message.
use nav_caster.Base.{
  String, str_eq, eq_iff, Bool, false, not, ◌&&◌, ◌||◌, ◌==◌, Option, none, some, List, [], ◌∷◌,
  ◌++◌, ◌≡◌, ◌≢◌, refl, ap, if◌then◌else◌, length, arith, Bool-cases, Option-cases, inl, inr,
}
use nav_caster.Base.Dict.{find}
use nav_caster.Caster.{
  err, ok, CbItem, Subscribers, BroadcastMsg, unspecified, Reply, Effect, call, redis, query,
  near_query, log, publish, Caster, operate_of_reply, reply_of_operate, send_status_base_channel,
  send_status_rover_channel,
}
use nav_caster.Caster.Notify.{
  holds, kick_others, login_answer, register_base_callback, register_rover_callback,
  broadcast_response, call_all, register_map_of, is_delete,
}

-- The connections that the messages of a list of effects are for.
abbrev pub targets : List Effect → List String
targets [] = []
targets (publish m ∷ es) = m.target ∷ targets es
targets (e ∷ es) = targets es

-- Several logins of a name, where that is not allowed.
abbrev pub is_duplicate : Bool → List String → Bool
is_duplicate enable_mult records = not (length records == 1) && not enable_mult

-- Who has to go, for the answer to a login with this key.
abbrev pub has_to_go : Bool → Bool → String → List String → String → Bool
has_to_go enable_mult keep_early key records k =
    if str_eq key k
    then not (holds key records) || (is_duplicate enable_mult records && keep_early)
    else holds key records
      && (is_duplicate enable_mult records && (not keep_early && holds k records))

targets-append : (es fs : List Effect) → targets (es ++ fs) ≡ targets es ++ targets fs
targets-append [] fs = refl
targets-append (call cb arg p r ∷ es) fs = targets-append es fs
targets-append (redis w ∷ es) fs = targets-append es fs
targets-append (query w i ∷ es) fs = targets-append es fs
targets-append (near_query a b c ∷ es) fs = targets-append es fs
targets-append (log a h ∷ es) fs = targets-append es fs
targets-append (publish m ∷ es) fs = ap (◌∷◌ m.target) (targets-append es fs)

module _ (kick : String → Effect)
    (kicks : (k : String) (es : List Effect) → targets (kick k ∷ es) ≡ k ∷ targets es)
    (key : String) where
  holds-kick_others :
      (records : List String) (k : String) (more : List Effect)
      → targets more ≡ []
      → holds k (targets (kick_others kick key records ++ more))
        ≡ (if str_eq key k then false else holds k records)
  unfolding kick_others holds
  holds-kick_others [] k more e = ground arith
  holds-kick_others (j ∷ records) k more e = ground (
    arith,
    eq_iff j key,
    eq_iff key k,
    eq_iff j k,
    kicks j (kick_others kick key records ++ more),
    holds-kick_others records k more e,
  )

  login_answer-targets :
      (refuse : String → Effect) (refusal : (w : String) → targets (refuse w ∷ []) ≡ key ∷ [])
      (mult keep : Bool) (item : CbItem) (records : List String) (k : String)
      → item.connect_key ≡ key
      → holds k (targets (login_answer mult keep kick refuse item records))
        ≡ has_to_go mult keep key records k
  unfolding login_answer holds
  login_answer-targets refuse refusal mult keep item records k e = ground (
    arith,
    e,
    eq_iff key k,
    refusal "Can't Find Recored",
    refusal "Base already online ,don't allow base duplicate logins",
    holds-kick_others records k (call item.cb item.arg none (record { type = ok; str = "" }) ∷ [])
        refl,
  )

-- The answer to a base's login is for the connections that have to go, and for no other: this
-- login, if Redis does not hold it, or if there are others where several are not allowed and the
-- earlier is kept; the other logins, if several are not allowed and the later is kept.
pub register_base-targets :
    (s : Caster) (item : CbItem) (records : List String) (k : String)
    → holds k (targets (register_base_callback item records s))
      ≡ has_to_go s.base_enable_mult s.base_keep_early item.connect_key records k
unfolding register_base_callback send_status_base_channel
register_base-targets s item records k =
    login_answer-targets
      (λ key.
        send_status_base_channel item.channel key err
          "New same name Base Login, kick out this Connect!")
      (λ key es. refl) item.connect_key
      (λ what. send_status_base_channel item.channel item.connect_key err what) (λ w. refl)
      s.base_enable_mult s.base_keep_early item records k refl

-- The answer to a rover's login is for the connections that have to go, and for no other, by the
-- same rule with the rovers' settings.
register_rover-targets :
    (s : Caster) (item : CbItem) (records : List String) (k : String)
    → holds k (targets (register_rover_callback item records s))
      ≡ has_to_go s.rover_enable_mult s.rover_keep_early item.connect_key records k
unfolding register_rover_callback send_status_rover_channel
register_rover-targets s item records k =
    login_answer-targets
      (λ key.
        send_status_rover_channel item.channel key err
          "New same name Rover Login, kick out this Connect!")
      (λ key es. refl) item.connect_key
      (λ what. send_status_rover_channel item.channel item.connect_key err what) (λ w. refl)
      s.rover_enable_mult s.rover_keep_early item records k refl

-- No callback is called with an error.
abbrev pub NoError : List Effect → Type 0
NoError [] = Unit {0}
NoError (call cb arg p r ∷ es) = (r.type ≢ err) × NoError es
NoError (e ∷ es) = NoError es

-- No message among the effects makes a node call a callback with an error.
abbrev pub Lost : Caster → List Effect → Type 0
Lost t [] = Unit {0}
Lost t (publish m ∷ es) = NoError (broadcast_response (some m) t).1 × Lost t es
Lost t (e ∷ es) = Lost t es

call_all-NoError :
    (p : Option String) (r : Reply) (subs : Subscribers)
    → r.type ≢ err
    → NoError (call_all p r subs)
unfolding call_all
call_all-NoError p r [] h = tt
call_all-NoError p r ((key, item) ∷ subs) h = (h, call_all-NoError p r subs h)

broadcast_response-NoError :
    (m : BroadcastMsg) (t : Caster)
    → m.operate ≡ unspecified
    → NoError (broadcast_response (some m) t).1
unfolding broadcast_response is_delete reply_of_operate
broadcast_response-NoError m t e = elim (Option-cases (register_map_of m.type t)) [
  | inl none_of ↦ ground arith
  | inr (maps, of_type) ↦ elim (Option-cases (find m.msg_str maps)) [
    | inl none_there ↦ ground arith
    | inr (items, there) ↦ ground (
      arith,
      call_all-NoError none (record { type = reply_of_operate m.operate; str = m.reason_str })
          items,
    )
  ]
]

Lost-append : (t : Caster) (es fs : List Effect) → Lost t es → Lost t fs → Lost t (es ++ fs)
Lost-append t [] fs p q = q
Lost-append t (call cb arg r x ∷ es) fs p q = Lost-append t es fs p q
Lost-append t (redis w ∷ es) fs p q = Lost-append t es fs p q
Lost-append t (query w i ∷ es) fs p q = Lost-append t es fs p q
Lost-append t (near_query a b c ∷ es) fs p q = Lost-append t es fs p q
Lost-append t (log a h ∷ es) fs p q = Lost-append t es fs p q
Lost-append t (publish m ∷ es) fs p q = (p.0, Lost-append t es fs p.1 q)

module _ (t : Caster) (kick : String → Effect) (lost : (k : String) → Lost t (kick k ∷ [])) where
  kick_others-Lost : (key : String) (records : List String) → Lost t (kick_others kick key records)
  unfolding kick_others
  kick_others-Lost key [] = tt
  kick_others-Lost key (k ∷ records) = elim (Bool-cases (str_eq k key)) [
    | inl own ↦ rw own (kick_others-Lost key records)
    | inr other ↦ rw other (
        Lost-append t (kick k ∷ []) (kick_others kick key records) (lost k)
          (kick_others-Lost key records))
  ]

  login_answer-Lost :
      (refuse : String → Effect) (gone : (w : String) → Lost t (refuse w ∷ [])) (mult keep : Bool)
      (item : CbItem) (records : List String)
      → Lost t (login_answer mult keep kick refuse item records)
  unfolding login_answer
  login_answer-Lost refuse gone mult keep item records = ground (
    arith,
    gone "Can't Find Recored",
    gone "Base already online ,don't allow base duplicate logins",
    Lost-append t (kick_others kick item.connect_key records)
        (call item.cb item.arg none (record { type = ok; str = "" }) ∷ [])
        (kick_others-Lost item.connect_key records) tt,
  )

-- No connection that has to go is told so, be it a base or a rover: whatever the answer to a login
-- is, and on whatever node its messages arrive, no callback is called with an error for them.
pub kicks-Lost :
    (s t : Caster) (item : CbItem) (records : List String)
    → Lost t (register_base_callback item records s)
      × Lost t (register_rover_callback item records s)
unfolding register_base_callback register_rover_callback send_status_base_channel
    send_status_rover_channel operate_of_reply
kicks-Lost s t item records = (
  login_answer-Lost t
      (λ key.
        send_status_base_channel item.channel key err
          "New same name Base Login, kick out this Connect!")
      (λ k. (broadcast_response-NoError _ t refl, tt))
      (λ what. send_status_base_channel item.channel item.connect_key err what)
      (λ w. (broadcast_response-NoError _ t refl, tt)) s.base_enable_mult s.base_keep_early item
      records,
  login_answer-Lost t
      (λ key.
        send_status_rover_channel item.channel key err
          "New same name Rover Login, kick out this Connect!")
      (λ k. (broadcast_response-NoError _ t refl, tt))
      (λ what. send_status_rover_channel item.channel item.connect_key err what)
      (λ w. (broadcast_response-NoError _ t refl, tt)) s.rover_enable_mult s.rover_keep_early item
      records,
)
