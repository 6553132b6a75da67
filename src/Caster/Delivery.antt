-- ===== src/Caster/Delivery.antt =====
-- core/src/caster_internal.cpp: whom the data of a base reaches, and whom the data of a rover.
use Prim.Native.String.{◌++◌ as str_append}
use nav_caster.Base.{
  ℕ, suc, String, str_eq, eq_iff, Bool, true, false, not, ◌&&◌, Option, none, some, [], ◌∷◌, ◌++◌,
  ◌≡◌, refl, sym, ◌∙◌, ap, if◌then◌else◌, arith, Bool-cases, Option-cases, inl, inr, str_eq_self,
}
use nav_caster.Base.Dict.{
  find, set, insert, erase, has, find-set, find-insert, find-set_self, has-insert_self,
}
use nav_caster.Access.{is_alias_mpt, check_mount_access, normalize_access_group_uid}
use nav_caster.Caster.{string, CbItem, Subscribers, Reply, call, Caster, Result, subs_of}
use nav_caster.Caster.Subscribe.{
  sub_direct, open_base_sub, file_base_sub, unsub_direct, sub_base_channel, unsub_base_channel,
  sub_rover_channel, open_rover_sub,
}
use nav_caster.Caster.Notify.{deliver, call_all, sub_base_callback, sub_rover_callback, add_send}
use nav_caster.Caster.Roundtrip.{subs_of-set, subs_of-insert_nil, find-erase-insert}

abbrev message : String → Reply
message payload = record { type = string; str = payload }

deliver-effects :
    (pattern payload : String) (subs : Subscribers) (s : Caster)
    → (deliver pattern payload subs s).effects ≡ call_all (some pattern) (message payload) subs
unfolding deliver call_all
deliver-effects pattern payload [] s = refl
deliver-effects pattern payload ((key, item) ∷ subs) s =
    ap (λ es. call item.cb item.arg (some pattern) (message payload) ∷ es)
      (deliver-effects pattern payload subs (add_send item.connect_key _ s))

sub_base_callback-effects :
    (split : String → Option (String × String)) (type channel pattern payload : String) (s : Caster)
    → split pattern ≡ some (type, channel)
    → (sub_base_callback split pattern payload s).effects
      ≡ call_all (some pattern) (message payload) (subs_of channel s.base_sub_map)
unfolding sub_base_callback subs_of call_all
sub_base_callback-effects split type channel pattern payload s e =
    elim (Option-cases (find channel s.base_sub_map)) [
      | inl out ↦ ground (arith, e, out)
      | inr (subs, there) ↦ ground (arith, e, there, deliver-effects pattern payload subs s)
    ]

-- The subscription of sub_base_channel is to a channel that is online, and the group may use it.
abbrev pub accepted : CbItem → Bool → Caster → Bool
accepted r skip s =
    not (
      not skip
      && not
          (check_mount_access s.policy (normalize_access_group_uid r.group_uid) r.channel).allowed)
    && has r.channel s.active_mount_map

abbrev filed : CbItem → CbItem
filed r = record r { group_uid = normalize_access_group_uid r.group_uid }

abbrev new_subs : CbItem → Subscribers → Subscribers
new_subs r subs = insert r.connect_key (filed r) subs

open_base_sub-subs_of :
    (channel c : String) (s : Caster)
    → subs_of c (open_base_sub channel s).state.base_sub_map ≡ subs_of c s.base_sub_map
unfolding open_base_sub
open_base_sub-subs_of channel c s = ground (arith, subs_of-insert_nil channel c s.base_sub_map)

-- The channel has the subscriber too; another has those that it had.
sub_direct-subs_of :
    (r : CbItem) (skip : Bool) (s : Caster) (c : String)
    → accepted r skip s ≡ true
    → subs_of c (sub_direct r skip s).state.base_sub_map ≡ (
        if str_eq r.channel c
        then new_subs r (subs_of r.channel s.base_sub_map)
        else subs_of c s.base_sub_map)
unfolding sub_direct file_base_sub
sub_direct-subs_of r skip s c ok = ground (
  arith,
  ok,
  open_base_sub-subs_of r.channel r.channel s,
  open_base_sub-subs_of r.channel c s,
  subs_of-set r.channel c (new_subs r (subs_of r.channel s.base_sub_map))
      (open_base_sub r.channel s).state.base_sub_map,
)

insert_fresh :
    (key : String) (item : CbItem) (subs : Subscribers) (p : Option String) (m : Reply)
    → find key subs ≡ none
    → call_all p m (insert key item subs) ≡ call_all p m subs ++ call item.cb item.arg p m ∷ []
unfolding insert call_all find
insert_fresh key item [] p m e = refl
insert_fresh key item ((k, i) ∷ subs) p m e = ground (arith, insert_fresh key item subs p m)

sub_direct-find :
    (r : CbItem) (skip : Bool) (s : Caster)
    → accepted r skip s ≡ true
    → find r.channel (sub_direct r skip s).state.base_sub_map
      ≡ some (new_subs r (subs_of r.channel s.base_sub_map))
unfolding sub_direct file_base_sub
sub_direct-find r skip s ok = ground (
  arith,
  ok,
  open_base_sub-subs_of r.channel r.channel s,
  find-set_self r.channel (new_subs r (subs_of r.channel s.base_sub_map))
      (open_base_sub r.channel s).state.base_sub_map,
)

unsub_direct_lem :
    (channel key : String) (s : Caster) (subs : Subscribers)
    → find channel s.base_sub_map ≡ some subs
    → has key subs ≡ true
    → ((unsub_direct channel key s).code ≡ 0)
      × ((unsub_direct channel key s).state.base_sub_map
          ≡ set channel (erase key subs) s.base_sub_map)
unfolding unsub_direct
unsub_direct_lem channel key s subs e h = ground arith

module _ (split : String → Option (String × String)) (type pattern payload : String) (r : CbItem)
    (skip : Bool) (s : Caster) (ok : accepted r skip s ≡ true)
    (new : find r.connect_key (subs_of r.channel s.base_sub_map) ≡ none) where
  -- Once a connection has subscribed to a base's channel, for the first time, what arrives on the
  -- channel is handed to it, and to all to whom it was handed before. `split` has to take the
  -- channel out of the pattern of the message.
  pub deliver-sub :
      split pattern ≡ some (type, r.channel)
      → (sub_base_callback split pattern payload (sub_direct r skip s).state).effects
        ≡ (sub_base_callback split pattern payload s).effects
          ++ call r.cb r.arg (some pattern) (record { type = string; str = payload }) ∷ []
  deliver-sub e =
      sub_base_callback-effects split type r.channel pattern payload (sub_direct r skip s).state e
      ∙ ap (call_all (some pattern) (message payload)) (sub_direct-subs_of r skip s r.channel ok)
      ∙ rw (str_eq_self r.channel) (
          insert_fresh r.connect_key (filed r) (subs_of r.channel s.base_sub_map) (some pattern)
            (message payload) new)
      ∙ ap (λ es. es ++ call r.cb r.arg (some pattern) (message payload) ∷ [])
          (sym (sub_base_callback-effects split type r.channel pattern payload s e))

left :
    (r : CbItem) (skip : Bool) (s : Caster)
    → accepted r skip s ≡ true
    → ((unsub_direct r.channel r.connect_key (sub_direct r skip s).state).code ≡ 0)
      × ((unsub_direct r.channel r.connect_key (sub_direct r skip s).state).state.base_sub_map
          ≡ set r.channel
              (erase r.connect_key (new_subs r (subs_of r.channel s.base_sub_map)))
              (sub_direct r skip s).state.base_sub_map)
left r skip s ok =
    unsub_direct_lem r.channel r.connect_key (sub_direct r skip s).state
      (new_subs r (subs_of r.channel s.base_sub_map)) (sub_direct-find r skip s ok)
      (has-insert_self r.connect_key (filed r) (subs_of r.channel s.base_sub_map))

subscribers_same :
    (r : CbItem) (skip : Bool) (s : Caster) (c k : String)
    → accepted r skip s ≡ true
    → find r.connect_key (subs_of r.channel s.base_sub_map) ≡ none
    → find k (
        subs_of c (
          set r.channel
            (erase r.connect_key (new_subs r (subs_of r.channel s.base_sub_map)))
            (sub_direct r skip s).state.base_sub_map))
      ≡ find k (subs_of c s.base_sub_map)
subscribers_same r skip s c k ok new =
    ap (find k) (subs_of-set r.channel c _ _) ∙ elim (Bool-cases (str_eq r.channel c)) [
      | inl hit ↦ rw hit (
          find-erase-insert r.connect_key k (filed r) (subs_of r.channel s.base_sub_map) new
          ∙ ap (λ d. find k (subs_of d s.base_sub_map)) ((eq_iff r.channel c).0 hit))
      | inr miss ↦ rw (miss, sub_direct-subs_of r skip s c ok, miss) refl
    ]

sub_direct-near :
    (r : CbItem) (skip : Bool) (s : Caster)
    → (sub_direct r skip s).state.base_near_sub_map ≡ s.base_near_sub_map
unfolding sub_direct file_base_sub open_base_sub
sub_direct-near r skip s = ground arith

sub_base_channel-direct :
    (f : ℕ) (r : CbItem) (skip : Bool) (s : Caster)
    → is_alias_mpt s.policy r.channel ≡ false
    → sub_base_channel (suc f) r skip s ≡ some (sub_direct r skip s)
unfolding sub_base_channel
sub_base_channel-direct f r skip s plain = ground arith

unsub_base_channel-direct :
    (channel key : String) (s : Caster)
    → has key s.base_near_sub_map ≡ false
    → unsub_base_channel channel key s ≡ unsub_direct channel key s
unfolding unsub_base_channel
unsub_base_channel-direct channel key s far = ground arith

-- A connection without a nearest mount point that subscribes to a base's channel, for the first time,
-- and then ends this subscription gets 0 from unsub_base_channel, and each channel has the
-- subscribers that it had. The channel is no alias and is online, and the group may use it.
pub unsub-sub :
    (f : ℕ) (r : CbItem) (s : Caster)
    → is_alias_mpt s.policy r.channel ≡ false
    → has r.connect_key s.base_near_sub_map ≡ false
    → accepted r false s ≡ true
    → find r.connect_key (subs_of r.channel s.base_sub_map) ≡ none
    → (sub : Result) × ((sub_base_channel (suc f) r false s ≡ some sub)
        × (((unsub_base_channel r.channel r.connect_key sub.state).code ≡ 0)
            × ((c k : String)
                → find k (
                    subs_of c
                      (unsub_base_channel r.channel r.connect_key sub.state).state.base_sub_map)
                  ≡ find k (subs_of c s.base_sub_map))))
unsub-sub f r s plain far ok new =
    let sub = sub_direct r false s in
    let direct =
      unsub_base_channel-direct r.channel r.connect_key sub.state
        (ap (has r.connect_key) (sub_direct-near r false s) ∙ far) in
    (
      sub,
      (
        sub_base_channel-direct f r false s plain,
        (
          ap (λ (u : Result). u.code) direct ∙ (left r false s ok).0,
          λ c k.
              ap (λ (u : Result). find k (subs_of c u.state.base_sub_map)) direct
              ∙ ap (λ m. find k (subs_of c m)) (left r false s ok).1
              ∙ subscribers_same r false s c k ok new,
        ),
      ),
    )

-- What is published for a rover's channel reaches no subscriber of that channel: the pattern of the
-- message is the channel behind "USR:", and the subscription is filed under the channel alone. (The
-- channel's own name is not the pattern, and no channel of that name has been subscribed to.)
pub deliver-sub_rover :
    (r : CbItem) (s : Caster) (payload : String)
    → str_eq r.channel (str_append "USR:" r.channel) ≡ false
    → find (str_append "USR:" r.channel) s.rover_sub_map ≡ none
    → (sub_rover_callback
        (str_append "USR:" r.channel)
        payload
        (sub_rover_channel r s).state).effects
      ≡ []
unfolding sub_rover_callback sub_rover_channel open_rover_sub
deliver-sub_rover r s payload other out = ground (
  arith,
  find-set r.channel (str_append "USR:" r.channel)
      (new_subs r (subs_of r.channel (open_rover_sub r.channel s).state.rover_sub_map))
      (open_rover_sub r.channel s).state.rover_sub_map,
  find-insert r.channel (str_append "USR:" r.channel) [] s.rover_sub_map,
)
