-- ===== src/Auth/Broadcast.antt =====
-- auth/src/auth_verify_internal.cpp: broadcast_response, what a node does with a message that another
-- one has sent.
use nav_caster.Base.{is_empty, Option, none, some, List, [], ◌∷◌, if◌then◌else◌}
use nav_caster.Base.Dict.{Dict, find}
use nav_caster.Auth.{
  account_status_update, unnamed_status_update, other_type, AuthReplyData, AuthCbItem,
  AuthBroadcastType, AuthBroadcastItem, AuthEffect, call, Verifier, AuthResult,
}

unfoldable pub item_map_of : AuthBroadcastType → Verifier → Option (Dict (Dict AuthCbItem))
item_map_of account_status_update s = some s.register_map
item_map_of unnamed_status_update s = some s.unnamed_map
item_map_of other_type s = none

unfoldable pub call_items : AuthReplyData → Dict AuthCbItem → List AuthEffect
call_items reply [] = []
call_items reply ((key, item) ∷ items) = call item.cb item.arg reply ∷ call_items reply items

-- The text of the message has been read, `none` where fromString has returned 1.
unfoldable pub broadcast_response : Option AuthBroadcastItem → Verifier → AuthResult
unfolding find call_items item_map_of
broadcast_response none s = record { code = 1; state = s; effects = [] }
broadcast_response (some req) s = elim (item_map_of req.type s) [
  | none ↦ record { code = 1; state = s; effects = [] }
  | some item_map ↦ elim (find req.channel item_map) [
    | none ↦ record { code = 2; state = s; effects = [] }
    | some items ↦
        let reply : AuthReplyData = record {
          type = req.status;
          str = some req.reason;
          group_uid = "";
        } in
        if is_empty req.connect_key
        then record { code = 0; state = s; effects = call_items reply items }
        else elim (find req.connect_key items) [
          | none ↦ record { code = 3; state = s; effects = [] }
          | some item ↦ record { code = 0; state = s; effects = call item.cb item.arg reply ∷ [] }
        ]
  ]
]
