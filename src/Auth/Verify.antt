-- ===== src/Auth/Verify.antt =====
-- auth/src/auth_verify_internal.cpp: verify, and the two answers that it waits for.
use nav_caster.Base.{
  String, str_eq, Bool, true, false, not, ◌&&◌, ◌||◌, none, some, [], ◌∷◌, if◌then◌else◌,
}
use nav_caster.Base.Dict.{insert, erase}
use nav_caster.Auth.{
  err, ok, AuthType, server, client, source, AuthReplyData, AuthCtx, call, query, Verifier,
  AuthResult, normalize_group_uid, unlimited, add_temp, verify_password,
}
use nav_caster.Auth.Limit.{JsonReader, no_limit, from_string}

abbrev pub is_server : AuthType → Bool
is_server server = true
is_server _ = false

abbrev pub is_client : AuthType → Bool
is_client client = true
is_client _ = false

abbrev pub is_source : AuthType → Bool
is_source source = true
is_source _ = false

unfoldable pub verify : AuthCtx → Verifier → AuthResult
verify ctx s =
    if (is_server ctx.type && s.server_anonymous_login)
      || ((is_client ctx.type && s.client_anonymous_login)
          || (is_source ctx.type && s.source_anonymous_login))
    then record {
      code = 0;
      state = s;
      effects = query add_temp ("HSET" ∷ "ACT:UNNAMED" ∷ ctx.user_name ∷ []) ctx ∷ [];
    }
    else record {
      code = 0;
      state = s;
      effects = query verify_password ("HGET" ∷ "ACT:ACTIVE" ∷ ctx.user_name ∷ []) ctx ∷ [];
    }

abbrev pub refused : String → AuthReplyData
refused why = record { type = err; str = some why; group_uid = "" }

-- The limit of an account without a name of its own; whatever the answer is.
unfoldable pub redis_add_temp_callback : AuthCtx → Verifier → AuthResult
redis_add_temp_callback ctx s = record {
  code = 0;
  state = record s {
    unnamed_limit_map =
        insert ctx.user_name (record no_limit { connect_limit = unlimited }) s.unnamed_limit_map;
  };
  effects = call ctx.cb ctx.arg (record { type = ok; str = none; group_uid = "default" }) ∷ [];
}

-- What Redis may answer to HGET: nothing at all (a null pointer), no value, a text, or a reply of
-- another type.
pub data HgetReply : Type 0 where
  no_reply nil_reply other_reply : HgetReply
  string_reply : String → HgetReply

-- `parse` is json::parse, on a text that it accepts. The return value of fromString is not read.
module _ {ℓ} {J : Type ℓ} (r : JsonReader J) (parse : String → J) where
  unfoldable pub redis_verify_callback : HgetReply → AuthCtx → Verifier → AuthResult
  redis_verify_callback no_reply ctx s = record { code = 0; state = s; effects = [] }
  redis_verify_callback nil_reply ctx s = record {
    code = 0;
    state = s;
    effects = call ctx.cb ctx.arg (refused "User Not active or existed!") ∷ [];
  }
  redis_verify_callback other_reply ctx s = record { code = 0; state = s; effects = [] }
  redis_verify_callback (string_reply str) ctx s =
      let active_info = (from_string r (parse str)).limit in
      if not (str_eq active_info.password ctx.user_pwd)
      then record {
        code = 0;
        state = s;
        effects = call ctx.cb ctx.arg (refused "User Password Error!") ∷ [];
      }
      else record {
        code = 0;
        state = record s {
          register_limit_map =
              insert ctx.user_name active_info (erase ctx.user_name s.register_limit_map);
        };
        effects =
            call ctx.cb ctx.arg
              (record { type = ok; str = none; group_uid = normalize_group_uid active_info.group })
            ∷ [];
      }
