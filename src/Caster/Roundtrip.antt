-- ===== src/Caster/Roundtrip.antt =====
-- core/src/caster_internal.cpp: a base that registers and withdraws.
use nav_caster.Base.{
  ℕ, String, str_eq, eq_iff, Bool, true, none, some, [], ◌≡◌, ◌∙◌, ap, if◌then◌else◌, arith,
  Bool-cases, inl, inr,
}
use nav_caster.Base.Dict.{
  Dict, find, set, insert, erase, has, find-set, find-insert, find-erase, find-set_self, has-none,
  has-insert_self,
}
use nav_caster.Access.{check_mount_access, normalize_access_group_uid}
use nav_caster.Caster.{CasterRegisterType, CbItem, Subscribers, Caster, subs_of}
use nav_caster.Caster.Register.{register_base_channel, open_base, add_base}
use nav_caster.Caster.Withdraw.{withdraw_base_channel, close_base}

pub find-erase-insert {ℓ} :
    {V : Type ℓ} (k j : String) (v : V) (m : Dict V)
    → find k m ≡ none
    → find j (erase k (insert k v m)) ≡ find j m
find-erase-insert k j v m e =
    ground (arith, eq_iff k j, find-erase k j (insert k v m), find-insert k j v m)

find-erase-set {ℓ} :
    {V : Type ℓ} (k j : String) (v : V) (m : Dict V)
    → find k m ≡ none
    → find j (erase k (set k v m)) ≡ find j m
find-erase-set k j v m e = ground (arith, eq_iff k j, find-erase k j (set k v m), find-set k j v m)

pub subs_of-set :
    (c d : String) (subs : Subscribers) (m : Dict Subscribers)
    → subs_of d (set c subs m) ≡ (if str_eq c d then subs else subs_of d m)
unfolding subs_of
subs_of-set c d subs m = ground (arith, find-set c d subs m)

pub subs_of-insert_nil :
    (c d : String) (m : Dict Subscribers) → subs_of d (insert c [] m) ≡ subs_of d m
unfolding subs_of
subs_of-insert_nil c d m = ground (arith, find-insert c d [] m, eq_iff c d)

-- No record of the connection: neither of its login, its traffic, its decoder nor its history, nor
-- a registration for the channel.
abbrev pub Fresh : CbItem → Caster → Type 0
Fresh r s =
    (find r.connect_key s.server_status_map ≡ none)
    × ((find r.connect_key s.stream_status_map ≡ none)
        × ((find r.connect_key s.base_decoder_map ≡ none)
            × ((find r.connect_key s.base_history_map ≡ none)
                × (find r.connect_key (subs_of r.channel s.base_register_map) ≡ none))))

-- Each connection has the same records in both states.
abbrev pub SameRecords : Caster → Caster → Type 0
SameRecords t s =
    ((key : String) → find key t.server_status_map ≡ find key s.server_status_map)
    × (((key : String) → find key t.stream_status_map ≡ find key s.stream_status_map)
        × (((key : String) → find key t.base_decoder_map ≡ find key s.base_decoder_map)
            × (((key : String) → find key t.base_history_map ≡ find key s.base_history_map)
                × ((channel key : String)
                    → find key (subs_of channel t.base_register_map)
                      ≡ find key (subs_of channel s.base_register_map)))))

abbrev allowed_base : CbItem → Caster → Bool
allowed_base r s =
    (check_mount_access s.policy (normalize_access_group_uid r.group_uid) r.channel).allowed

-- The entry of the registration.
abbrev filed : CbItem → CbItem
filed r = record r { group_uid = normalize_access_group_uid r.group_uid }

registered :
    (now : ℕ) (r : CbItem) (type : CasterRegisterType) (s : Caster)
    → allowed_base r s ≡ true
    → Fresh r s
    → (register_base_channel now r type s).state ≡ record (open_base now r type s) {
      base_register_map =
          set r.channel
            (insert r.connect_key
              (filed r)
              (subs_of r.channel (insert r.channel [] s.base_register_map)))
            (insert r.channel [] s.base_register_map);
    }
unfolding register_base_channel add_base open_base
registered now r type s ok fresh = ground (
  arith,
  has-none r.connect_key (subs_of r.channel (insert r.channel [] s.base_register_map)) (
      ap (find r.connect_key) (subs_of-insert_nil r.channel r.channel s.base_register_map)
      ∙ fresh.1.1.1.1),
)

-- A withdrawal of what is registered and has a status.
withdrawn :
    (now : ℕ) (channel key : String) (s : Caster) (registers : Subscribers)
    → find channel s.base_register_map ≡ some registers
    → has key registers ≡ true
    → has key s.server_status_map ≡ true
    → ((withdraw_base_channel now channel key s).code ≡ 0)
      × ((withdraw_base_channel now channel key s).state ≡ record s {
        base_register_map = set channel (erase key registers) s.base_register_map;
        kick_map = erase key s.kick_map;
        server_status_map = erase key s.server_status_map;
        stream_status_map = erase key s.stream_status_map;
        base_decoder_map = erase key s.base_decoder_map;
        base_history_map = erase key s.base_history_map;
      })
unfolding withdraw_base_channel close_base
withdrawn now channel key s registers e h st = ground arith

registers_same :
    (r : CbItem) (channel key : String) (m : Dict Subscribers)
    → find r.connect_key (subs_of r.channel m) ≡ none
    → find key (
        subs_of channel (
          set r.channel
            (erase r.connect_key
              (insert r.connect_key (filed r) (subs_of r.channel (insert r.channel [] m))))
            (set r.channel
              (insert r.connect_key (filed r) (subs_of r.channel (insert r.channel [] m)))
              (insert r.channel [] m))))
      ≡ find key (subs_of channel m)
registers_same r channel key m e =
    ap (find key) (subs_of-set r.channel channel _ _)
    ∙ elim (Bool-cases (str_eq r.channel channel)) [
      | inl hit ↦
          rw (hit, subs_of-insert_nil r.channel r.channel m)
            (find-erase-insert r.connect_key key (filed r) (subs_of r.channel m) e
              ∙ ap (λ c. find key (subs_of c m)) ((eq_iff r.channel channel).0 hit))
      | inr miss ↦
          rw
            (
              miss,
              subs_of-set r.channel channel
                  (insert r.connect_key (filed r) (subs_of r.channel (insert r.channel [] m)))
                  (insert r.channel [] m),
              miss,
            )
            (ap (find key) (subs_of-insert_nil r.channel channel m))
    ]

module _ (now later : ℕ) (r : CbItem) (type : CasterRegisterType) (s : Caster)
    (allowed : allowed_base r s ≡ true) (fresh : Fresh r s) where
  joined_state : Caster
  joined_state = (register_base_channel now r type s).state

  at_channel : Subscribers
  at_channel =
      insert r.connect_key (filed r) (subs_of r.channel (insert r.channel [] s.base_register_map))

  left_state :
      ((withdraw_base_channel later r.channel r.connect_key joined_state).code ≡ 0)
      × ((withdraw_base_channel later r.channel r.connect_key joined_state).state
          ≡ record joined_state {
            base_register_map =
                set r.channel (erase r.connect_key at_channel) joined_state.base_register_map;
            kick_map = erase r.connect_key joined_state.kick_map;
            server_status_map = erase r.connect_key joined_state.server_status_map;
            stream_status_map = erase r.connect_key joined_state.stream_status_map;
            base_decoder_map = erase r.connect_key joined_state.base_decoder_map;
            base_history_map = erase r.connect_key joined_state.base_history_map;
          })
  unfolding joined_state at_channel open_base
  left_state =
      withdrawn later r.channel r.connect_key joined_state at_channel
        (ap (λ (t : Caster). find r.channel t.base_register_map)
            (registered now r type s allowed fresh)
          ∙ find-set_self r.channel at_channel (insert r.channel [] s.base_register_map))
        (has-insert_self r.connect_key (filed r)
          (subs_of r.channel (insert r.channel [] s.base_register_map)))
        (ap (λ (t : Caster). has r.connect_key t.server_status_map)
            (registered now r type s allowed fresh)
          ∙ has-insert_self r.connect_key _ s.server_status_map)

  same : SameRecords (withdraw_base_channel later r.channel r.connect_key joined_state).state s
  unfolding open_base at_channel joined_state
  same =
      rw (left_state.1, registered now r type s allowed fresh)
        (
          (λ key. find-erase-insert r.connect_key key _ s.server_status_map fresh.0),
          (
            (λ key. find-erase-insert r.connect_key key _ s.stream_status_map fresh.1.0),
            (
              (λ key. find-erase-insert r.connect_key key _ s.base_decoder_map fresh.1.1.0),
              (
                (λ key. find-erase-set r.connect_key key _ s.base_history_map fresh.1.1.1.0),
                (λ channel key. registers_same r channel key s.base_register_map fresh.1.1.1.1),
              ),
            ),
          ),
        )

  -- A registration that is allowed and then withdrawn returns 0 from the withdrawal and leaves the
  -- records as they were: each connection has the login status, the traffic, the decoder, the
  -- history and, at each channel, the registration that it had before. The connection had none
  -- of these for the channel before it registered.
  pub withdraw-register :
      ((withdraw_base_channel later r.channel r.connect_key
          (register_base_channel now r type s).state).code
        ≡ 0)
      × SameRecords
          (withdraw_base_channel later r.channel r.connect_key
            (register_base_channel now r type s).state).state
          s
  unfolding joined_state
  withdraw-register = (left_state.0, same)
