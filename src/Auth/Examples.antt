-- ===== src/Auth/Examples.antt =====
-- The logins at concrete states.
use nav_caster.Base.{
  ◌≤◌, String, str_eq, if◌then◌else◌, true, false, none, some, [], ◌∷◌, ◌≡◌, ◌≢◌, refl, arith,
}
use nav_caster.Base.Int.{pos}
use nav_caster.Base.Dict.{Dict, find}
use nav_caster.Auth.{
  err, AuthCtx, entries, AuthLimit, client, call, Verifier, send_change_auth_status,
}
use nav_caster.Auth.Limit.{
  JsonReader, no_limit, from_string, assign, read_active, read_date, read_time, read_rest,
  read_connect, read_group, read_expire,
}
use nav_caster.Auth.Verify.{redis_verify_callback, string_reply}
use nav_caster.Auth.Login.{add_login_record, add_logout_record, is_anonymous}
use nav_caster.Auth.Kick.{
  Records, ended, read_end, kick_loop, redis_add_login_callback, kick_reason, is_protected,
}
use nav_caster.Auth.Kicking.{kick_loop-open, kick_loop-at_once}
use nav_caster.Auth.Protecting.{kick_loop-protected}
use nav_caster.Auth.Newest.{add_login-newest}
use nav_caster.Auth.Verified.{
  accepts, from_string-Complete, verify_callback-limits, verify_callback-no_password,
}
use nav_caster.Auth.Reaching.{heard, SameLogins, broadcast_response-add_login, add_logout-add_login}

-- A reader of objects that are maps to texts, whose numbers are all 5.
abbrev texts : JsonReader (Dict String)
texts = record {
  text = λ key d j. elim (find key j) [ none ↦ some d | some v ↦ some v ];
  int = λ key d j. some (pos 5);
  int64 = λ key d j. some (pos 5);
  double = λ key j. some (pos 5);
  bool = λ key j. none;
}

-- One that finds no password.
abbrev no_password : JsonReader (Dict String)
no_password = record texts { text = λ key d j. if str_eq key "password" then none else find key j }

abbrev account : String → Dict String
account pwd = ("account", "ann") ∷ ("password", pwd) ∷ ("group", "north") ∷ []

abbrev empty : Verifier
empty = record {
  server_anonymous_login = false;
  server_online_protection = true;
  client_anonymous_login = false;
  client_online_protection = false;
  source_anonymous_login = true;
  register_map = [];
  unnamed_map = [];
  register_limit_map = [];
  unnamed_limit_map = [];
  register_status_map = [];
}

abbrev one_login : AuthLimit
one_login = record no_limit { account = "ann"; connect_limit = 1 }

abbrev with_limit : Verifier
with_limit = record empty { register_limit_map = ("ann", one_login) ∷ [] }

abbrev rover : AuthCtx
rover = record {
  type = client;
  user_name = "ann";
  user_pwd = "secret";
  connect_key = "k2";
  cb = 7;
  arg = 8;
}

abbrev four : Records
four = (10, "a") ∷ (20, "b") ∷ (30, "c") ∷ (40, "d") ∷ []

from_string-Complete_example :
    (1 ≤ (from_string texts (account "secret")).limit.connect_limit)
    × ((from_string texts (account "secret")).limit.group ≢ "")
unfolding from_string assign find read_active read_date read_time read_rest read_connect read_group
    read_expire
from_string-Complete_example = from_string-Complete texts (account "secret") refl

verify_callback-limits_example :
    (accepts (redis_verify_callback texts account (string_reply "secret") rover empty).effects
      ≡ true)
    × (find "ann"
          (redis_verify_callback texts account
            (string_reply "secret")
            rover
            empty).state.register_limit_map
        ≡ some (from_string texts (account "secret")).limit)
unfolding from_string assign find read_active read_date read_time read_rest read_connect read_group
    read_expire
verify_callback-limits_example =
    verify_callback-limits texts account empty rover (string_reply "secret") "ann"

kick_loop-open_example :
    kick_loop 4 false 2 "ann" "b" (record { records = four; check = true; effects = [] })
    ≡ ended (record {
      records = (30, "c") ∷ (40, "d") ∷ [];
      check = false;
      effects = send_change_auth_status "ann" "c" err kick_reason ∷ [];
    })
kick_loop-open_example =
    kick_loop-open 2 "ann" "b" four
      (
        (omega arith, (omega arith, (omega arith, tt))),
        ((omega arith, (omega arith, tt)), ((omega arith, tt), (tt, tt))),
      )
      (omega arith)

kick_loop-protected_example :
    kick_loop 4 true 2 "ann" "c" (record { records = four; check = true; effects = [] })
    ≡ ended (record {
      records = (10, "a") ∷ (20, "b") ∷ [];
      check = false;
      effects = send_change_auth_status "ann" "d" err kick_reason ∷ [];
    })
kick_loop-protected_example =
    kick_loop-protected "ann" "c" ((10, "a") ∷ (20, "b") ∷ []) ((30, "c") ∷ (40, "d") ∷ []) (
      (omega arith, (omega arith, (omega arith, tt))),
      ((omega arith, (omega arith, tt)), ((omega arith, tt), (tt, tt))),
    )

kick_loop-at_once_example :
    kick_loop 2 false 1 "ann" "k2"
      (record { records = (10, "k1") ∷ (10, "k2") ∷ []; check = true; effects = [] })
    ≡ read_end
kick_loop-at_once_example = kick_loop-at_once 1 1 10 "ann" "k2" ("k1" ∷ "k2" ∷ []) (omega arith)

add_login-newest_example :
    redis_add_login_callback (("k1", 10) ∷ ("k2", 20) ∷ []) rover with_limit
    ≡ some (send_change_auth_status "ann" "k2" err kick_reason ∷ [])
unfolding is_protected find
add_login-newest_example =
    add_login-newest rover with_limit one_login "k1" 10 20 refl refl refl (omega arith)

broadcast_response-add_login_example :
    heard (add_login_record rover empty).state (send_change_auth_status "ann" "k2" err "gone" ∷ [])
    ≡ call 7 8 (record { type = err; str = some "gone"; group_uid = "" }) ∷ []
unfolding is_anonymous find entries
broadcast_response-add_login_example =
    broadcast_response-add_login rover err "gone" empty refl refl refl

add_logout-add_login_example :
    ((add_logout_record "ann" "k2" client (add_login_record rover empty).state).code ≡ 0)
    × SameLogins
        (add_logout_record "ann" "k2" client (add_login_record rover empty).state).state
        empty
unfolding find entries
add_logout-add_login_example = add_logout-add_login rover empty (refl, (refl, refl))

verify_callback-no_password_example :
    (accepts
        (redis_verify_callback no_password account
          (string_reply "x")
          (record rover { user_pwd = "" })
          empty).effects
      ≡ true)
    × (find "ann"
          (redis_verify_callback no_password account
            (string_reply "x")
            (record rover { user_pwd = "" })
            empty).state.register_limit_map
        ≡ some (record no_limit { account = "ann" }))
unfolding find
verify_callback-no_password_example =
    verify_callback-no_password no_password account empty (record rover { user_pwd = "" }) "x" "ann"
      refl refl refl
