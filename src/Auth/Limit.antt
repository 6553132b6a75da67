-- ===== src/Auth/Limit.antt =====
-- auth/src/auth_verify_internal.cpp: auth_limit::fromString, on a text that is JSON.
use nav_caster.Base.{ℕ, zero, suc, String, Bool, false, Option, none, some, ◌==◌}
use nav_caster.Base.Int.{ℤ, pos, negsuc}
use nav_caster.Auth.{AuthLimit, normalize_group_uid, unlimited}

-- nlohmann's `value(key, default)` on a parsed text, at the types that it is used at, with `none`
-- for an exception; the double is cut down to an integer.
pub record JsonReader {ℓ} (J : Type ℓ) : Type ℓ where
  pub text : String → String → J → Option String
  pub int : String → ℤ → J → Option ℤ
  pub int64 : String → ℤ → J → Option ℤ
  pub double : String → J → Option ℤ
  -- The value if it is there and a Boolean.
  pub bool : String → J → Option Bool

abbrev pub no_limit : AuthLimit
no_limit = record {
  account = "";
  password = "";
  active = false;
  type = pos 0;
  date_limit = pos 0;
  time_limit = pos 0;
  access = pos 0;
  connect_limit = 0;
  group = "";
  expire = pos 0;
}

abbrev is_one : ℤ → Bool
is_one (pos n) = n == 1
is_one (negsuc n) = false

-- A limit that is not above 0 is none.
unfoldable pub limit_of : ℤ → ℕ
limit_of (pos zero) = unlimited
limit_of (pos (suc n)) = suc n
limit_of (negsuc n) = unlimited

-- The assignments one after the other: at an exception those before it stand, and 1 is returned.
pub record Parsed : Type 0 where
  pub code : ℕ
  pub limit : AuthLimit

unfoldable pub assign {ℓ} : {A : Type ℓ} → Option A → AuthLimit → (A → Parsed) → Parsed
assign none l go = record { code = 1; limit = l }
assign (some a) l go = go a

module _ {ℓ} {J : Type ℓ} (r : JsonReader J) (info : J) where
  unfoldable pub read_active : Option Bool
  read_active = elim (r.bool "active" info) [
    | none ↦ elim (r.int "active" (pos 0) info) [ none ↦ none | some n ↦ some (is_one n) ]
    | some b ↦ some b
  ]

  -- `value(key, value(older, default))`
  unfoldable pub read_date : Option ℤ
  read_date = elim (r.double "expire_time" info) [
    | none ↦ none
    | some t ↦ r.int64 "date_limit" t info
  ]

  unfoldable pub read_time : Option ℤ
  read_time = elim (r.int "available_seconds" (pos 0) info) [
    | none ↦ none
    | some t ↦ r.int64 "time_limit" t info
  ]

  unfoldable pub read_connect : Option ℤ
  read_connect = elim (r.int "connection_limit" (pos 0) info) [
    | none ↦ none
    | some n ↦ r.int "connect_limit" n info
  ]

  unfoldable pub read_group : Option String
  read_group = elim (r.text "group" "" info) [ none ↦ none | some g ↦ r.text "group_uid" g info ]

  unfoldable pub read_expire : Option ℤ
  read_expire = elim (r.double "expire_time" info) [
    | none ↦ none
    | some t ↦ r.int64 "expire" t info
  ]

  unfoldable pub read_rest : AuthLimit → Parsed
  read_rest l0 = assign (r.int "access" (pos 0) info) l0 (λ access.
      let l1 = record l0 { access = access } in
      assign read_connect l1 (λ n.
        let l2 = record l1 { connect_limit = limit_of n } in
        assign read_group l2 (λ g.
          let l3 = record l2 { group = normalize_group_uid g } in
          assign read_expire l3 (λ e. record { code = 0; limit = record l3 { expire = e } }))))

  unfoldable pub from_string : Parsed
  from_string = assign (r.text "account" "" info) no_limit (λ account.
      let l1 = record no_limit { account = account } in
      assign (r.text "password" "" info) l1 (λ password.
        let l2 = record l1 { password = password } in
        assign read_active l2 (λ active.
          let l3 = record l2 { active = active } in
          assign (r.int "type" (pos 0) info) l3 (λ type.
            let l4 = record l3 { type = type } in
            assign read_date l4 (λ date.
              let l5 = record l4 { date_limit = date } in
              assign read_time l5 (λ time. read_rest (record l5 { time_limit = time })))))))
