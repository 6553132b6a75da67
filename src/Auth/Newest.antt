-- ===== src/Auth/Newest.antt =====
-- auth/src/auth_verify_internal.cpp: the answer to a login, where one login is allowed and two are
-- there.
use nav_caster.Base.{ℕ, ◌<◌, String, str_eq_self, false, some, [], ◌∷◌, ◌≡◌, arith}
use nav_caster.Base.Dict.{find}
use nav_caster.Auth.{err, AuthCtx, AuthLimit, Verifier, send_change_auth_status}
use nav_caster.Auth.Kick.{
  redis_add_login_callback, is_protected, kick_reason, collect, insert_record, holds_field,
  login_verdict,
}
use nav_caster.Auth.Kicking.{kick_loop-open}

collect-two :
    (a b : String) (t u : ℕ) → t < u → collect ((a, t) ∷ (b, u) ∷ []) [] ≡ (t, a) ∷ (u, b) ∷ []
unfolding collect insert_record
collect-two a b t u before = ground arith

-- Where an account may have one login, the earlier ones have no priority and another login of it is
-- there already, it is the new login that is refused, and the other stays: the one message that is
-- sent is the refusal of the new login.
pub add_login-newest :
    (ctx : AuthCtx) (s : Verifier) (limit : AuthLimit) (earlier : String) (t u : ℕ)
    → is_protected ctx s ≡ false
    → find ctx.user_name s.register_limit_map ≡ some limit
    → limit.connect_limit ≡ 1
    → t < u
    → redis_add_login_callback ((earlier, t) ∷ (ctx.connect_key, u) ∷ []) ctx s
      ≡ some (send_change_auth_status ctx.user_name ctx.connect_key err kick_reason ∷ [])
unfolding redis_add_login_callback holds_field login_verdict
add_login-newest ctx s limit earlier t u unprotected there one before = ground (
  arith,
  str_eq_self ctx.connect_key,
  collect-two earlier ctx.connect_key t u before,
  kick_loop-open 1 ctx.user_name ctx.connect_key ((t, earlier) ∷ (u, ctx.connect_key) ∷ [])
      ((before, tt), (tt, tt)) (omega arith),
)
