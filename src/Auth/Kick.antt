-- ===== src/Auth/Kick.antt =====
-- auth/src/auth_verify_internal.cpp: Redis_Add_Login_Callback and Redis_Add_Unname_Callback, the
-- answers to the query for the logins of a user. An answer is the list of its fields, connection
-- keys, with the times that their values stand for.
use nav_caster.Base.{
  ℕ, zero, suc, String, str_eq, Bool, true, false, not, ◌&&◌, ◌||◌, ltb, ◌==◌, Option, none, some,
  List, [], ◌∷◌, ◌++◌, length, if◌then◌else◌,
}
use nav_caster.Base.Dict.{find}
use nav_caster.Auth.{
  err, ok, AuthCtx, AuthLimit, AuthEffect, call, Verifier, normalize_group_uid,
  send_change_auth_status,
}
use nav_caster.Auth.Verify.{is_server, is_client}

-- std::multimap<time_t, std::string>, in its order.
abbrev pub Records : Type 0
Records = List (ℕ × String)

-- An entry goes behind those of the same time.
unfoldable pub insert_record : ℕ → String → Records → Records
insert_record t key [] = (t, key) ∷ []
insert_record t key ((u, k) ∷ rs) =
    let rest = insert_record t key rs in if ltb t u then (t, key) ∷ (u, k) ∷ rs else (u, k) ∷ rest

unfoldable pub collect : List (String × ℕ) → Records → Records
unfolding insert_record
collect [] rs = rs
collect ((field, t) ∷ fields) rs = collect fields (insert_record t field rs)

unfoldable pub holds_field : String → List (String × ℕ) → Bool
holds_field key [] = false
holds_field key ((field, t) ∷ fields) = if str_eq field key then true else holds_field key fields

-- `erase(t)` takes out every entry of that time.
unfoldable pub erase_time : ℕ → Records → Records
erase_time t [] = []
erase_time t ((u, k) ∷ rs) = let rest = erase_time t rs in if u == t then rest else (u, k) ∷ rest

-- `rbegin()`
unfoldable pub last_record : Records → Option (ℕ × String)
last_record [] = none
last_record (r ∷ []) = some r
last_record (r ∷ s ∷ rs) = last_record (s ∷ rs)

abbrev pub kick_reason : String
kick_reason = "User Connects Upper Limit , kick out this Connect!"

-- What the loop works on: the records that are left, whether this login stays, and what was sent.
pub record Kicks : Type 0 where
  pub records : Records
  pub check : Bool
  pub effects : List AuthEffect

-- This login is marked, another is told to go.
unfoldable pub kick : String → String → String → Kicks → Kicks
kick user own key s =
    if str_eq key own
    then record s { check = false }
    else record s { effects = s.effects ++ send_change_auth_status user key err kick_reason ∷ [] }

-- A round where those who are online have priority.
unfoldable pub protected_round : String → String → Kicks → Option Kicks
unfolding last_record erase_time kick
protected_round user own s = elim (last_record s.records) [
  | none ↦ none
  | some (t, key) ↦
      let kicked = kick user own key s in some (record kicked { records = erase_time t s.records })
]

-- The other round: the first goes from the records before the connection to kick is read from them;
-- with none left that is a read of `end()`.
unfoldable pub open_round : String → String → Kicks → Option Kicks
unfolding erase_time kick
open_round user own s = elim s.records [
  | [] ↦ none
  | (t, k) ∷ rs ↦ elim (erase_time t s.records) [
    | [] ↦ none
    | (u, key) ∷ left ↦ some (kick user own key (record s { records = (u, key) ∷ left }))
  ]
]

unfoldable pub kick_round : Bool → String → String → Kicks → Option Kicks
kick_round true user own s = protected_round user own s
kick_round false user own s = open_round user own s

-- How the loop ends: with its records, with a round that reads what is not there, or, which the
-- source does not know, with its rounds run out.
pub data Loop : Type 0 where
  ended : Kicks → Loop
  read_end : Loop
  unfinished : Loop

-- `while (records.size() > _connect_limit)`
unfoldable pub kick_loop : ℕ → Bool → ℕ → String → String → Kicks → Loop
unfolding kick_round
kick_loop zero protection limit user own s =
    if ltb limit (length s.records) then unfinished else ended s
kick_loop (suc f) protection limit user own s =
    if ltb limit (length s.records)
    then elim (kick_round protection user own s) [
      | none ↦ read_end
      | some t ↦ kick_loop f protection limit user own t
    ]
    else ended s

unfoldable pub is_protected : AuthCtx → Verifier → Bool
is_protected ctx s =
    (is_server ctx.type && s.server_online_protection)
    || (is_client ctx.type && s.client_online_protection)

-- The end of the callback: what the `catch` sends to this login, or its callback.
unfoldable pub login_verdict : AuthCtx → AuthLimit → Kicks → List AuthEffect
unfolding normalize_group_uid
login_verdict ctx limit k =
    if not k.check
    then k.effects ++ send_change_auth_status ctx.user_name ctx.connect_key err kick_reason ∷ []
    else k.effects
      ++ call ctx.cb ctx.arg
          (record { type = ok; str = some ""; group_uid = normalize_group_uid limit.group })
        ∷ []

-- What the callback sends, `none` where it reads what is not there; the state stays. Each round takes out a record, so that the rounds are
-- not more than the records.
unfoldable pub redis_add_login_callback :
    List (String × ℕ) → AuthCtx → Verifier → Option (List AuthEffect)
unfolding find kick_loop login_verdict collect holds_field is_protected
redis_add_login_callback fields ctx s =
    let records = collect fields [] in
    let give_up : String → Option (List AuthEffect) =
      λ why. some (send_change_auth_status ctx.user_name ctx.connect_key err why ∷ []) in
    if not (holds_field ctx.connect_key fields)
    then give_up "Can't Find Recored"
    else elim (find ctx.user_name s.register_limit_map) [
      | none ↦ give_up "Can't Find User Active Info"
      | some limit ↦
          elim (kick_loop (length records) (is_protected ctx s) limit.connect_limit ctx.user_name
            ctx.connect_key (record { records = records; check = true; effects = [] })) [
              | ended k ↦ some (login_verdict ctx limit k)
              | read_end ↦ none
              | unfinished ↦ none
            ]
    ]

-- The first record stands for this login in what the `catch` sends, and is read even where there is
-- none.
unfoldable pub redis_add_unname_callback : List (String × ℕ) → AuthCtx → Option (List AuthEffect)
unfolding collect holds_field
redis_add_unname_callback fields ctx =
    if holds_field ctx.connect_key fields
    then some
        (call ctx.cb ctx.arg (record { type = ok; str = some ""; group_uid = "default" }) ∷ [])
    else elim (collect fields []) [
      | [] ↦ none
      | (t, key) ∷ rs ↦
          some (send_change_auth_status ctx.user_name key err "Can't Find Recored" ∷ [])
    ]
