-- ===== src/Auth/Reaching.antt =====
-- auth/src/auth_verify_internal.cpp: a login that is told to go, and one that goes by itself.
use nav_caster.Base.{
  String, str_eq, eq_iff, str_eq_self, true, false, none, some, List, [], ◌∷◌, ◌≡◌, ◌∙◌, ap, refl,
  if◌then◌else◌, is_empty, arith, Bool-cases, inl, inr,
}
use nav_caster.Base.Dict.{
  Dict, find, set, insert, erase, has, find-set, find-insert, find-erase, find-set_self,
  has-insert_self,
}
use nav_caster.Auth.{
  AuthReply, AuthType, AuthCtx, AuthCbItem, AuthEffect, call, publish, Verifier, entries, enter,
  send_change_auth_status,
}
use nav_caster.Auth.Login.{
  add_login_record, add_logout_record, drop_status, new_status, is_anonymous, item_of,
}
use nav_caster.Auth.Broadcast.{broadcast_response, item_map_of}

-- What the messages among the effects make another node call.
abbrev pub heard : Verifier → List AuthEffect → List AuthEffect
heard t [] = []
heard t (publish item ∷ es) = (broadcast_response (some item) t).effects
heard t (e ∷ es) = heard t es

find-insert_fresh :
    {V : Type 0} (k : String) (v : V) (m : Dict V)
    → find k m ≡ none
    → find k (insert k v m) ≡ some v
find-insert_fresh k v m e = ground (arith, find-insert k k v m, str_eq_self k)

entered :
    (item : AuthCbItem) (m : Dict (Dict AuthCbItem))
    → find item.user_name (enter item m)
      ≡ some (insert item.connect_key item (entries item.user_name m))
unfolding enter
entered item m =
    find-set_self item.user_name (insert item.connect_key item (entries item.user_name m)) m

found_item :
    (key user reason : String) (status : AuthReply) (item : AuthCbItem) (items : Dict AuthCbItem)
    (t : Verifier)
    → is_empty key ≡ false
    → find user t.register_map ≡ some items
    → find key items ≡ some item
    → heard t (send_change_auth_status user key status reason ∷ [])
      ≡ call item.cb item.arg (record { type = status; str = some reason; group_uid = "" }) ∷ []
unfolding send_change_auth_status broadcast_response item_map_of
found_item key user reason status item items t named there here = ground arith

-- A login of an account can be told to go: on the node where it has been added, the message that
-- changes its status calls its callback, and no other, with that status and the reason. Its key is
-- not empty, and it was not among the logins of its user on that node before.
pub broadcast_response-add_login :
    (ctx : AuthCtx) (status : AuthReply) (reason : String) (s : Verifier)
    → is_anonymous ctx.type s ≡ false
    → is_empty ctx.connect_key ≡ false
    → find ctx.connect_key (entries ctx.user_name s.register_map) ≡ none
    → heard
        (add_login_record ctx s).state
        (send_change_auth_status ctx.user_name ctx.connect_key status reason ∷ [])
      ≡ call ctx.cb ctx.arg (record { type = status; str = some reason; group_uid = "" }) ∷ []
unfolding add_login_record
broadcast_response-add_login ctx status reason s account named fresh = rw account (
    found_item ctx.connect_key ctx.user_name reason status (item_of ctx)
      (insert ctx.connect_key (item_of ctx) (entries ctx.user_name s.register_map)) _ named
      (entered (item_of ctx) s.register_map)
      (find-insert_fresh ctx.connect_key (item_of ctx) (entries ctx.user_name s.register_map)
        fresh))

find-erase-insert :
    {V : Type 0} (k j : String) (v : V) (m : Dict V)
    → find k m ≡ none
    → find j (erase k (insert k v m)) ≡ find j m
find-erase-insert k j v m e =
    ground (arith, eq_iff k j, find-erase k j (insert k v m), find-insert k j v m)

entries-set :
    (u v : String) (items : Dict AuthCbItem) (m : Dict (Dict AuthCbItem))
    → entries v (set u items m) ≡ (if str_eq u v then items else entries v m)
unfolding entries
entries-set u v items m = ground (arith, find-set u v items m)

-- Each connection of each user has the same record, and each connection the same status.
abbrev pub SameLogins : Verifier → Verifier → Type 0
SameLogins t s =
    ((user key : String)
      → find key (entries user t.register_map) ≡ find key (entries user s.register_map))
    × (((user key : String)
          → find key (entries user t.unnamed_map) ≡ find key (entries user s.unnamed_map))
        × ((key : String) → find key t.register_status_map ≡ find key s.register_status_map))

leave_map :
    (item : AuthCbItem) (user key : String) (m : Dict (Dict AuthCbItem))
    → find item.connect_key (entries item.user_name m) ≡ none
    → find key (
        entries user (
          set item.user_name
            (erase item.connect_key (insert item.connect_key item (entries item.user_name m)))
            (enter item m)))
      ≡ find key (entries user m)
unfolding enter
leave_map item user key m fresh =
    ap (find key) (entries-set item.user_name user _ (enter item m))
    ∙ elim (Bool-cases (str_eq item.user_name user)) [
      | inl hit ↦ rw hit (
          find-erase-insert item.connect_key key item (entries item.user_name m) fresh
          ∙ ap (λ u. find key (entries u m)) ((eq_iff item.user_name user).0 hit))
      | inr miss ↦
          rw
            (
              miss,
              entries-set item.user_name user
                  (insert item.connect_key item (entries item.user_name m)) m,
              miss,
            )
            refl
    ]

-- A logout from an entry that has the connection, and its status.
left_account :
    (user key : String) (type : AuthType) (t : Verifier) (items : Dict AuthCbItem)
    → is_anonymous type t ≡ false
    → find user t.register_map ≡ some items
    → has key items ≡ true
    → has key t.register_status_map ≡ true
    → ((add_logout_record user key type t).code ≡ 0)
      × ((add_logout_record user key type t).state ≡ record t {
        register_map = set user (erase key items) t.register_map;
        register_status_map = erase key t.register_status_map;
      })
unfolding add_logout_record drop_status
left_account user key type t items account there here status = ground arith

left_anonymous :
    (user key : String) (type : AuthType) (t : Verifier) (items : Dict AuthCbItem)
    → is_anonymous type t ≡ true
    → find user t.unnamed_map ≡ some items
    → has key items ≡ true
    → has key t.register_status_map ≡ true
    → ((add_logout_record user key type t).code ≡ 0)
      × ((add_logout_record user key type t).state ≡ record t {
        unnamed_map = set user (erase key items) t.unnamed_map;
        register_status_map = erase key t.register_status_map;
      })
unfolding add_logout_record drop_status
left_anonymous user key type t items anonymous there here status = ground arith

-- No login of this connection, neither with the user's account nor anonymous, and no status.
abbrev pub FreshLogin : AuthCtx → Verifier → Type 0
FreshLogin ctx s =
    (find ctx.connect_key (entries ctx.user_name s.register_map) ≡ none)
    × ((find ctx.connect_key (entries ctx.user_name s.unnamed_map) ≡ none)
        × (find ctx.connect_key s.register_status_map ≡ none))

abbrev AfterLogout : AuthCtx → Verifier → Type 0
AfterLogout ctx s =
    ((add_logout_record ctx.user_name ctx.connect_key ctx.type (add_login_record ctx s).state).code
      ≡ 0)
    × SameLogins
        (add_logout_record ctx.user_name ctx.connect_key ctx.type
          (add_login_record ctx s).state).state
        s

logout-account :
    (ctx : AuthCtx) (s : Verifier)
    → is_anonymous ctx.type s ≡ false
    → FreshLogin ctx s
    → AfterLogout ctx s
unfolding add_login_record is_anonymous
logout-account ctx s account fresh = rw account (
    let items = insert ctx.connect_key (item_of ctx) (entries ctx.user_name s.register_map) in
    let left =
      left_account ctx.user_name ctx.connect_key ctx.type
        (record s {
          register_map = enter (item_of ctx) s.register_map;
          register_status_map = insert ctx.connect_key new_status s.register_status_map;
        })
        items account (entered (item_of ctx) s.register_map)
        (has-insert_self ctx.connect_key (item_of ctx) (entries ctx.user_name s.register_map))
        (has-insert_self ctx.connect_key new_status s.register_status_map) in
    (
      left.0,
      rw left.1 (
        (λ user key. leave_map (item_of ctx) user key s.register_map fresh.0),
        (
          (λ user key. refl),
          (λ key. find-erase-insert ctx.connect_key key new_status s.register_status_map fresh.1.1),
        ),
      ),
    ))

logout-anonymous :
    (ctx : AuthCtx) (s : Verifier)
    → is_anonymous ctx.type s ≡ true
    → FreshLogin ctx s
    → AfterLogout ctx s
unfolding add_login_record is_anonymous
logout-anonymous ctx s anonymous fresh = rw anonymous (
    let items = insert ctx.connect_key (item_of ctx) (entries ctx.user_name s.unnamed_map) in
    let left =
      left_anonymous ctx.user_name ctx.connect_key ctx.type
        (record s {
          unnamed_map = enter (item_of ctx) s.unnamed_map;
          register_status_map = insert ctx.connect_key new_status s.register_status_map;
        })
        items anonymous (entered (item_of ctx) s.unnamed_map)
        (has-insert_self ctx.connect_key (item_of ctx) (entries ctx.user_name s.unnamed_map))
        (has-insert_self ctx.connect_key new_status s.register_status_map) in
    (
      left.0,
      rw left.1 (
        (λ user key. refl),
        (
          (λ user key. leave_map (item_of ctx) user key s.unnamed_map fresh.1.0),
          (λ key. find-erase-insert ctx.connect_key key new_status s.register_status_map fresh.1.1),
        ),
      ),
    ))

-- A login, of an account or anonymous, that is followed by its logout returns 0 from the logout and
-- leaves the logins as they were: each connection of each user has the record that it had, and each
-- connection the status. The connection had none of these before.
pub add_logout-add_login :
    (ctx : AuthCtx) (s : Verifier)
    → FreshLogin ctx s
    → ((add_logout_record ctx.user_name ctx.connect_key ctx.type
          (add_login_record ctx s).state).code
        ≡ 0)
      × SameLogins
          (add_logout_record ctx.user_name ctx.connect_key ctx.type
            (add_login_record ctx s).state).state
          s
add_logout-add_login ctx s fresh = elim (Bool-cases (is_anonymous ctx.type s)) [
  | inl anonymous ↦ logout-anonymous ctx s anonymous fresh
  | inr account ↦ logout-account ctx s account fresh
]
