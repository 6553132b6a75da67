-- ===== src/Auth/Verified.antt =====
-- auth/src/auth_verify_internal.cpp: what the limit of an account and the answer to verify amount to.
use nav_caster.Base.{
  zero, suc, ◌≤◌, String, str_eq, eq_iff, Bool, true, false, ◌&&◌, Option, none, some, List, [],
  ◌∷◌, ◌≡◌, ◌≢◌, refl, if◌then◌else◌, is_empty, str_eq_self, arith, Bool-cases, inl, inr,
}
use nav_caster.Base.Int.{ℤ, pos, negsuc}
use nav_caster.Base.Dict.{Dict, find, insert, erase, find-insert, find-erase}
use nav_caster.Auth.{ok, AuthCtx, AuthLimit, AuthEffect, call, Verifier, normalize_group_uid}
use nav_caster.Auth.Limit.{JsonReader, no_limit, limit_of, assign, read_rest, from_string, Parsed}
use nav_caster.Auth.Verify.{
  HgetReply, no_reply, nil_reply, other_reply, string_reply, redis_verify_callback,
}

limit_of-positive : (n : ℤ) → 1 ≤ limit_of n
unfolding limit_of
limit_of-positive (pos zero) = omega arith
limit_of-positive (pos (suc n)) = omega arith
limit_of-positive (negsuc n) = omega arith

normalize_group_uid-nonempty : (g : String) → normalize_group_uid g ≢ ""
unfolding normalize_group_uid
normalize_group_uid-nonempty g = elim (Bool-cases (is_empty g)) [
  | inl empty ↦ rw empty (λ e. cc e)
  | inr other ↦ rw other (λ e. cc ((eq_iff g "").1 e, other))
]

module _ {J : Type 0} (r : JsonReader J) (info : J) where
  -- A limit that an account's record gives.
  Complete : Parsed → Type 0
  Complete p = p.code ≡ 0 → (1 ≤ p.limit.connect_limit) × (p.limit.group ≢ "")

  assign-Complete :
      {A : Type 0} (o : Option A) (l : AuthLimit) (go : A → Parsed)
      → ((a : A) → Complete (go a))
      → Complete (assign o l go)
  unfolding assign Complete
  assign-Complete none l go h = λ e. absurd (omega arith)
  assign-Complete (some a) l go h = h a

  done-Complete :
      (l : AuthLimit) (n e : ℤ) (g : String)
      → Complete (record {
        code = 0;
        limit = record l { connect_limit = limit_of n; group = normalize_group_uid g; expire = e };
      })
  unfolding Complete
  done-Complete l n e g done = (limit_of-positive n, normalize_group_uid-nonempty g)

  read_rest-Complete : (l : AuthLimit) → Complete (read_rest r info l)
  unfolding read_rest
  read_rest-Complete l = assign-Complete _ _ _ (λ access. assign-Complete _ _ _ (λ n.
      assign-Complete _ _ _
        (λ g. assign-Complete _ _ _ (λ e. done-Complete (record l { access = access }) n e g))))

  all-Complete : Complete (from_string r info)
  unfolding from_string
  all-Complete = assign-Complete _ _ _ (λ account. assign-Complete _ _ _ (λ password.
      assign-Complete _ _ _ (λ active. assign-Complete _ _ _ (λ type.
        assign-Complete _ _ _ (λ date. assign-Complete _ _ _ (λ time. read_rest-Complete _))))))

  -- Where fromString returns 0, the account has a limit of at least one connection and a group that
  -- is not empty, whatever the record is.
  pub from_string-Complete :
      (from_string r info).code ≡ 0
      → (1 ≤ (from_string r info).limit.connect_limit) × ((from_string r info).limit.group ≢ "")
  unfolding Complete
  from_string-Complete = all-Complete

find-insert-erase :
    (k j : String) (v : AuthLimit) (m : Dict AuthLimit)
    → find j (insert k v (erase k m)) ≡ (if str_eq k j then some v else find j m)
find-insert-erase k j v m = ground (
  arith,
  eq_iff k j,
  find-insert k j v (erase k m),
  find-erase k k m,
  find-erase k j m,
  str_eq_self k,
)

find-insert-erase_self :
    (k : String) (v : AuthLimit) (m : Dict AuthLimit) → find k (insert k v (erase k m)) ≡ some v
find-insert-erase_self k v m = ground (arith, find-insert-erase k k v m, str_eq_self k)

abbrev is_ok : AuthEffect → Bool
is_ok (call cb arg reply) = elim reply.type [ ok ↦ true | _ ↦ false ]
is_ok e = false

-- Whether some callback is called with OK.
abbrev pub accepts : List AuthEffect → Bool
accepts [] = false
accepts (e ∷ es) = if is_ok e then true else accepts es

module _ {J : Type 0} (r : JsonReader J) (parse : String → J) (s : Verifier) (ctx : AuthCtx) where
  -- Whether the answer is a text, and its password the one given.
  abbrev pub has_password : HgetReply → Bool
  has_password (string_reply str) = str_eq (from_string r (parse str)).limit.password ctx.user_pwd
  has_password _ = false

  abbrev pub recorded : HgetReply → Option AuthLimit
  recorded (string_reply str) = some (from_string r (parse str)).limit
  recorded _ = none

  -- The answer to a verification is OK exactly where the account's record has the password given;
  -- then the account's record becomes its limit here, in place of an earlier one, and otherwise, and
  -- for every other user, the limits stay.
  pub verify_callback-limits :
      (reply : HgetReply) (user : String)
      → (accepts (redis_verify_callback r parse reply ctx s).effects ≡ has_password reply)
        × (find user (redis_verify_callback r parse reply ctx s).state.register_limit_map ≡ (
            if has_password reply && str_eq ctx.user_name user
            then recorded reply
            else find user s.register_limit_map))
  unfolding redis_verify_callback
  verify_callback-limits no_reply user = ground arith
  verify_callback-limits nil_reply user = ground arith
  verify_callback-limits other_reply user = ground arith
  verify_callback-limits (string_reply str) user =
      elim (Bool-cases (str_eq (from_string r (parse str)).limit.password ctx.user_pwd)) [
        | inl same ↦ rw same (
          refl,
          find-insert-erase ctx.user_name user (from_string r (parse str)).limit
              s.register_limit_map,
        )
        | inr other ↦ rw other (refl, refl)
      ]

  -- A record whose account is a text and whose password is not lets everyone in who gives the empty
  -- password, and the limit that is noted is of no connection at all.
  pub verify_callback-no_password :
      (str account : String)
      → ctx.user_pwd ≡ ""
      → r.text "account" "" (parse str) ≡ some account
      → r.text "password" "" (parse str) ≡ none
      → (accepts (redis_verify_callback r parse (string_reply str) ctx s).effects ≡ true)
        × (find ctx.user_name
              (redis_verify_callback r parse (string_reply str) ctx s).state.register_limit_map
            ≡ some (record no_limit { account = account }))
  unfolding redis_verify_callback from_string assign
  verify_callback-no_password str account empty e f =
      rw (e, f, empty)
        (
          str_eq_self "",
          find-insert-erase_self ctx.user_name (record no_limit { account = account })
              s.register_limit_map,
        )
