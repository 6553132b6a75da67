-- ===== src/Auth/Login.antt =====
-- auth/src/auth_verify_internal.cpp: add_login_record, add_logout_record and upload_record_item.
use Prim.Native.String.{◌++◌ as str_append}
use nav_caster.Base.{String, Bool, ◌&&◌, ◌||◌, none, some, List, [], ◌∷◌, ◌++◌, if◌then◌else◌}
use nav_caster.Base.Dict.{Dict, find, set, insert, erase, has}
use nav_caster.Auth.{
  AuthType, AuthCtx, AuthStatus, AuthCbItem, AuthEffect, redis, query, add_login, add_unname,
  Verifier, AuthResult, enter,
}
use nav_caster.Auth.Verify.{is_server, is_client}

-- The test of both operations; unlike that of verify, it leaves out the type SOURCE.
unfoldable pub is_anonymous : AuthType → Verifier → Bool
is_anonymous type s =
    (is_server type && s.server_anonymous_login) || (is_client type && s.client_anonymous_login)

abbrev pub new_status : AuthStatus
new_status = record { uid = ""; account = "" }

abbrev pub item_of : AuthCtx → AuthCbItem
item_of ctx = record {
  connect_key = ctx.connect_key;
  user_name = ctx.user_name;
  cb = ctx.cb;
  arg = ctx.arg;
}

-- The context of the answer has no password.
abbrev pub waiting : AuthCtx → AuthCtx
waiting ctx = record ctx { user_pwd = "" }

unfoldable pub add_login_record : AuthCtx → Verifier → AuthResult
unfolding is_anonymous
add_login_record ctx s =
    let status = insert ctx.connect_key new_status s.register_status_map in
    if is_anonymous ctx.type s
    then record {
      code = 0;
      state = record s {
        unnamed_map = enter (item_of ctx) s.unnamed_map;
        register_status_map = status;
      };
      effects =
          redis ("HSETEX" ∷ str_append "ACT:UND:" ctx.user_name ∷ ctx.connect_key ∷ [])
          ∷ query add_unname ("HGETALL" ∷ str_append "ACT:UND:" ctx.user_name ∷ []) (waiting ctx)
          ∷ [];
    }
    else record {
      code = 0;
      state = record s {
        register_map = enter (item_of ctx) s.register_map;
        register_status_map = status;
      };
      effects =
          redis ("HSETEX" ∷ str_append "ACT:REC:" ctx.user_name ∷ ctx.connect_key ∷ [])
          ∷ query add_login ("HGETALL" ∷ str_append "ACT:REC:" ctx.user_name ∷ []) (waiting ctx)
          ∷ [];
    }

-- What follows once the record is gone: its status, or 3.
unfoldable pub drop_status : String → List AuthEffect → Verifier → AuthResult
unfolding has
drop_status key effects s =
    if has key s.register_status_map
    then record {
      code = 0;
      state = record s { register_status_map = erase key s.register_status_map };
      effects = effects;
    }
    else record { code = 3; state = s; effects = effects }

unfoldable pub add_logout_record : String → String → AuthType → Verifier → AuthResult
unfolding is_anonymous find has drop_status
add_logout_record user_name key type s =
    if is_anonymous type s
    then elim (find user_name s.unnamed_map) [
      | none ↦ record { code = 1; state = s; effects = [] }
      | some items ↦
          if has key items
          then drop_status key (redis ("HDEL" ∷ str_append "ACT:UND:" user_name ∷ key ∷ []) ∷ [])
              (record s { unnamed_map = set user_name (erase key items) s.unnamed_map })
          else record { code = 2; state = s; effects = [] }
    ]
    else elim (find user_name s.register_map) [
      | none ↦ record { code = 1; state = s; effects = [] }
      | some items ↦
          if has key items
          then drop_status key (redis ("HDEL" ∷ str_append "ACT:REC:" user_name ∷ key ∷ []) ∷ [])
              (record s { register_map = set user_name (erase key items) s.register_map })
          else record { code = 2; state = s; effects = [] }
    ]

unfoldable pub expire_items : String → Dict AuthCbItem → List AuthEffect
expire_items prefix [] = []
expire_items prefix ((key, item) ∷ items) =
    redis ("HEXPIRE" ∷ str_append prefix item.user_name ∷ item.connect_key ∷ [])
    ∷ expire_items prefix items

unfoldable pub expire_map : String → Dict (Dict AuthCbItem) → List AuthEffect
expire_map prefix [] = []
expire_map prefix ((user, items) ∷ m) = expire_items prefix items ++ expire_map prefix m

-- Each record on this node keeps its place in Redis.
unfoldable pub upload_record_item : Verifier → AuthResult
upload_record_item s = record {
  code = 0;
  state = s;
  effects = expire_map "ACT:REC:" s.register_map ++ expire_map "ACT:UND:" s.unnamed_map;
}
