-- ===== src/Caster/Invariant.antt =====
-- core/src/caster_internal.cpp: what every operation keeps.
use nav_caster.Base.{ℕ, String, some, ◌≡◌, arith, Option-cases, inl, inr}
use nav_caster.Base.Dict.{find, set, erase}
use nav_caster.Access.{normalize_access_group_uid}
use nav_caster.Caster.{CbItem, CasterRegisterType, Subscribers, Caster}
use nav_caster.Caster.Register.{
  register_base_channel, open_base, add_base, register_rover_channel, open_rover, add_rover,
}
use nav_caster.Caster.Withdraw.{
  withdraw_base_channel, close_base, withdraw_rover_channel, close_rover, unsub_near_channel,
  clear_overdue_item,
}
use nav_caster.Caster.Filing.{
  FiledBy, Filed, FiledBy-open, FiledBy-add, FiledBy-drop, FiledBy-left, FiledBy-erase_empty,
  Filed-set, Filed-erase,
}

-- Each item of the node's maps stands under its own key, and under its own channel, or its own
-- user where the map is that of the rovers' registrations.
pub record IsWellFiled (s : Caster) : Type 0 where
  pub base_sub : FiledBy (λ i. i.channel) s.base_sub_map
  pub rover_sub : FiledBy (λ i. i.channel) s.rover_sub_map
  pub base_register : FiledBy (λ i. i.channel) s.base_register_map
  pub rover_register : FiledBy (λ i. i.user_name) s.rover_register_map
  pub near : Filed s.base_near_sub_map
  pub kick : Filed s.kick_map

add_base-IsWellFiled :
    (item : CbItem) (s : Caster) → IsWellFiled s → IsWellFiled (add_base item s).state
unfolding add_base
add_base-IsWellFiled item s w =
    ground (arith, FiledBy-add (λ i. i.channel) s.base_register_map w.base_register item)

open_base-IsWellFiled :
    (now : ℕ) (r : CbItem) (type : CasterRegisterType) (s : Caster)
    → IsWellFiled s
    → IsWellFiled (open_base now r type s)
unfolding open_base
open_base-IsWellFiled now r type s w = record {
  base_sub = w.base_sub;
  rover_sub = w.rover_sub;
  base_register = FiledBy-open (λ i. i.channel) s.base_register_map w.base_register r.channel;
  rover_register = w.rover_register;
  near = w.near;
  kick = w.kick;
}

pub register_base-IsWellFiled :
    (now : ℕ) (r : CbItem) (type : CasterRegisterType) (s : Caster)
    → IsWellFiled s
    → IsWellFiled (register_base_channel now r type s).state
unfolding register_base_channel
register_base-IsWellFiled now r type s w = ground (
  arith,
  w,
  add_base-IsWellFiled (record r { group_uid = normalize_access_group_uid r.group_uid })
      (open_base now r type s) (open_base-IsWellFiled now r type s w),
)

add_rover-IsWellFiled :
    (item : CbItem) (s : Caster) → IsWellFiled s → IsWellFiled (add_rover item s).state
unfolding add_rover
add_rover-IsWellFiled item s w = ground (
  arith,
  FiledBy-add (λ i. i.user_name) s.rover_register_map w.rover_register item,
  Filed-set s.kick_map item w.kick,
)

open_rover-IsWellFiled :
    (now : ℕ) (r : CbItem) (type : CasterRegisterType) (s : Caster)
    → IsWellFiled s
    → IsWellFiled (open_rover now r type s)
unfolding open_rover
open_rover-IsWellFiled now r type s w = record {
  base_sub = w.base_sub;
  rover_sub = w.rover_sub;
  base_register = w.base_register;
  rover_register =
      FiledBy-open (λ i. i.user_name) s.rover_register_map w.rover_register r.user_name;
  near = w.near;
  kick = w.kick;
}

pub register_rover-IsWellFiled :
    (now : ℕ) (r : CbItem) (type : CasterRegisterType) (s : Caster)
    → IsWellFiled s
    → IsWellFiled (register_rover_channel now r type s).state
unfolding register_rover_channel
register_rover-IsWellFiled now r type s w = ground (
  arith,
  w,
  add_rover-IsWellFiled (record r { group_uid = normalize_access_group_uid r.group_uid })
      (open_rover now r type s) (open_rover-IsWellFiled now r type s w),
)

pub withdraw_base-IsWellFiled :
    (now : ℕ) (channel key : String) (s : Caster)
    → IsWellFiled s
    → IsWellFiled (withdraw_base_channel now channel key s).state
unfolding withdraw_base_channel close_base
withdraw_base-IsWellFiled now channel key s w =
    elim (Option-cases (find channel s.base_register_map)) [
      | inl out ↦ ground (arith, w)
      | inr (registers, there) ↦ ground (
        arith,
        w,
        FiledBy-left (λ i. i.channel) s.base_register_map w.base_register channel key registers
            there,
        Filed-erase s.kick_map key w.kick,
      )
    ]

pub unsub_near-IsWellFiled :
    (key : String) (s : Caster) → IsWellFiled s → IsWellFiled (unsub_near_channel key s).state
unfolding unsub_near_channel
unsub_near-IsWellFiled key s w = elim (Option-cases (find key s.base_near_sub_map)) [
  | inl out ↦ ground (arith, w)
  | inr (near, there) ↦ ground (
    arith,
    w,
    FiledBy-drop (λ i. i.channel) s.base_sub_map w.base_sub near.channel key,
    Filed-erase s.base_near_sub_map key w.near,
  )
]

close_rover-IsWellFiled :
    (now : ℕ) (user key : String) (s : Caster)
    → IsWellFiled s
    → IsWellFiled (close_rover now user key s).state
unfolding close_rover
close_rover-IsWellFiled now user key s w =
    ground (arith, w, unsub_near-IsWellFiled key (closing key s) (closing-IsWellFiled key s w))
  where
    closing : String → Caster → Caster
    closing key s = record s {
      client_status_map = erase key s.client_status_map;
      stream_status_map = erase key s.stream_status_map;
      rover_decoder_map = erase key s.rover_decoder_map;
    }

    closing-IsWellFiled : (key : String) (s : Caster) → IsWellFiled s → IsWellFiled (closing key s)
    closing-IsWellFiled key s w = record {
      base_sub = w.base_sub;
      rover_sub = w.rover_sub;
      base_register = w.base_register;
      rover_register = w.rover_register;
      near = w.near;
      kick = w.kick;
    }

withdrawing : String → String → Subscribers → Caster → Caster
withdrawing user key registers s = record s {
  rover_register_map = set user (erase key registers) s.rover_register_map;
  kick_map = erase key s.kick_map;
}

withdrawing-IsWellFiled :
    (user key : String) (registers : Subscribers) (s : Caster)
    → find user s.rover_register_map ≡ some registers
    → IsWellFiled s
    → IsWellFiled (withdrawing user key registers s)
unfolding withdrawing
withdrawing-IsWellFiled user key registers s there w = record {
  base_sub = w.base_sub;
  rover_sub = w.rover_sub;
  base_register = w.base_register;
  rover_register =
      FiledBy-left (λ i. i.user_name) s.rover_register_map w.rover_register user key registers
        there;
  near = w.near;
  kick = Filed-erase s.kick_map key w.kick;
}

pub withdraw_rover-IsWellFiled :
    (now : ℕ) (user key : String) (s : Caster)
    → IsWellFiled s
    → IsWellFiled (withdraw_rover_channel now user key s).state
unfolding withdraw_rover_channel withdrawing
withdraw_rover-IsWellFiled now user key s w = elim (Option-cases (find user s.rover_register_map)) [
  | inl out ↦ ground (arith, w)
  | inr (registers, there) ↦ ground (
    arith,
    w,
    there,
    close_rover-IsWellFiled now user key (withdrawing user key registers s)
        (withdrawing-IsWellFiled user key registers s there w),
  )
]

pub clear_overdue-IsWellFiled : (s : Caster) → IsWellFiled s → IsWellFiled (clear_overdue_item s)
unfolding clear_overdue_item
clear_overdue-IsWellFiled s w = record {
  base_sub = w.base_sub;
  rover_sub = w.rover_sub;
  base_register =
      FiledBy-erase_empty (λ i. i.channel) s.base_register_map s.base_register_map w.base_register;
  rover_register =
      FiledBy-erase_empty (λ i. i.user_name) s.rover_register_map s.rover_register_map
        w.rover_register;
  near = w.near;
  kick = w.kick;
}
