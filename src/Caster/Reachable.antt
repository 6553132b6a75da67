-- ===== src/Caster/Reachable.antt =====
-- core/src/caster_internal.cpp: the operations as steps of one node, in any order.
use mathlib.Core.Path.{subst}
use nav_caster.Base.{
  ℕ, String, Bool, Option, some, List, [], ◌∷◌, ◌≡◌, arith, Option-cases, inl, inr,
}
use nav_caster.Base.Dict.{Dict, find}
use nav_caster.Caster.{CbItem, CasterRegisterType, Subscribers, Position, Caster, Result}
use nav_caster.Caster.Register.{register_base_channel, register_rover_channel}
use nav_caster.Caster.Withdraw.{withdraw_base_channel, withdraw_rover_channel, clear_overdue_item}
use nav_caster.Caster.Subscribe.{
  sub_base_channel, sub_near_channel, geo_radius_callback, unsub_base_channel, sub_rover_channel,
  unsub_rover_channel,
}
use nav_caster.Caster.Notify.{
  add_send, deliver, sub_base_callback, sub_rover_callback, check_base, check_bases,
  check_active_base_channel, check_rover, check_rovers, check_active_rover_channel,
}
use nav_caster.Caster.Filing.{FiledBy-erase}
use nav_caster.Caster.Invariant.{
  IsWellFiled, register_base-IsWellFiled, register_rover-IsWellFiled, withdraw_base-IsWellFiled,
  withdraw_rover-IsWellFiled, clear_overdue-IsWellFiled,
}
use nav_caster.Caster.Subscribing.{
  WellFiledResult, sub_base-WellFiled, sub_near-IsWellFiled, geo_radius-WellFiled,
  unsub_base-IsWellFiled, sub_rover-IsWellFiled, unsub_rover-IsWellFiled,
}

add_send-IsWellFiled :
    (key : String) (n : ℕ) (s : Caster) → IsWellFiled s → IsWellFiled (add_send key n s)
unfolding add_send
add_send-IsWellFiled key n s w = ground (arith, w)

deliver-IsWellFiled :
    (pattern payload : String) (subs : Subscribers) (s : Caster)
    → IsWellFiled s
    → IsWellFiled (deliver pattern payload subs s).state
unfolding deliver
deliver-IsWellFiled pattern payload [] s w = w
deliver-IsWellFiled pattern payload ((key, item) ∷ rest) s w =
    deliver-IsWellFiled pattern payload rest _ (add_send-IsWellFiled item.connect_key _ s w)

sub_base_callback-IsWellFiled :
    (split : String → Option (String × String)) (pattern payload : String) (s : Caster)
    → IsWellFiled s
    → IsWellFiled (sub_base_callback split pattern payload s).state
unfolding sub_base_callback
sub_base_callback-IsWellFiled split pattern payload s w = elim (Option-cases (split pattern)) [
  | inl out ↦ ground (arith, w, out)
  | inr ((type, channel), parts) ↦ elim (Option-cases (find channel s.base_sub_map)) [
    | inl none_there ↦ ground (arith, w, parts, none_there)
    | inr (subs, there) ↦ ground (arith, parts, there, deliver-IsWellFiled pattern payload subs s w)
  ]
]

sub_rover_callback-IsWellFiled :
    (pattern payload : String) (s : Caster)
    → IsWellFiled s
    → IsWellFiled (sub_rover_callback pattern payload s).state
unfolding sub_rover_callback
sub_rover_callback-IsWellFiled pattern payload s w =
    elim (Option-cases (find pattern s.rover_sub_map)) [
      | inl none_there ↦ ground (arith, w, none_there)
      | inr (subs, there) ↦ ground (arith, there, deliver-IsWellFiled pattern payload subs s w)
    ]

check_base-IsWellFiled :
    (channel : String) (subs : Subscribers) (s : Caster)
    → IsWellFiled s
    → IsWellFiled (check_base channel subs s).state
unfolding check_base
check_base-IsWellFiled channel subs s w =
    ground (arith, w, FiledBy-erase (λ i. i.channel) s.base_sub_map w.base_sub channel)

check_bases-IsWellFiled :
    (copy : Dict Subscribers) (s : Caster) → IsWellFiled s → IsWellFiled (check_bases copy s).state
unfolding check_bases
check_bases-IsWellFiled [] s w = w
check_bases-IsWellFiled ((channel, subs) ∷ rest) s w =
    check_bases-IsWellFiled rest (check_base channel subs s).state
      (check_base-IsWellFiled channel subs s w)

check_rover-IsWellFiled :
    (channel : String) (subs : Subscribers) (s : Caster)
    → IsWellFiled s
    → IsWellFiled (check_rover channel subs s).state
unfolding check_rover
check_rover-IsWellFiled channel subs s w =
    ground (arith, w, FiledBy-erase (λ i. i.channel) s.rover_sub_map w.rover_sub channel)

check_rovers-IsWellFiled :
    (copy : Dict Subscribers) (s : Caster) → IsWellFiled s → IsWellFiled (check_rovers copy s).state
unfolding check_rovers
check_rovers-IsWellFiled [] s w = w
check_rovers-IsWellFiled ((channel, subs) ∷ rest) s w =
    check_rovers-IsWellFiled rest (check_rover channel subs s).state
      (check_rover-IsWellFiled channel subs s w)

-- What can happen to a node: each of its operations, with what the caller gives it.
pub data Step (s t : Caster) : Type 0 where
  register_base :
      (now : ℕ) (r : CbItem) (type : CasterRegisterType)
      → (register_base_channel now r type s).state ≡ t
      → Step s t
  register_rover :
      (now : ℕ) (r : CbItem) (type : CasterRegisterType)
      → (register_rover_channel now r type s).state ≡ t
      → Step s t
  withdraw_base :
      (now : ℕ) (channel key : String)
      → (withdraw_base_channel now channel key s).state ≡ t
      → Step s t
  withdraw_rover :
      (now : ℕ) (user key : String) → (withdraw_rover_channel now user key s).state ≡ t → Step s t
  sub_base :
      (f : ℕ) (r : CbItem) (skip : Bool) (res : Result)
      → sub_base_channel f r skip s ≡ some res
      → res.state ≡ t
      → Step s t
  sub_near :
      (r : CbItem) (at : Position) (sent : Bool)
      → (sub_near_channel r at sent s).state ≡ t
      → Step s t
  geo_radius :
      (f : ℕ) (key : String) (answer : Option (List String)) (res : Result)
      → geo_radius_callback f key answer s ≡ some res
      → res.state ≡ t
      → Step s t
  unsub_base : (channel key : String) → (unsub_base_channel channel key s).state ≡ t → Step s t
  sub_rover : (r : CbItem) → (sub_rover_channel r s).state ≡ t → Step s t
  unsub_rover : (channel key : String) → (unsub_rover_channel channel key s).state ≡ t → Step s t
  base_message :
      (split : String → Option (String × String)) (pattern payload : String)
      → (sub_base_callback split pattern payload s).state ≡ t
      → Step s t
  rover_message :
      (pattern payload : String) → (sub_rover_callback pattern payload s).state ≡ t → Step s t
  check_active_bases : (check_active_base_channel s).state ≡ t → Step s t
  check_active_rovers : (check_active_rover_channel s).state ≡ t → Step s t
  clear_overdue : (clear_overdue_item s) ≡ t → Step s t

Step-IsWellFiled : (s t : Caster) → Step s t → IsWellFiled s → IsWellFiled t
unfolding check_active_base_channel check_active_rover_channel
Step-IsWellFiled s t step w = elim step [
  | register_base now r type eq ↦ subst IsWellFiled eq (register_base-IsWellFiled now r type s w)
  | register_rover now r type eq ↦ subst IsWellFiled eq (register_rover-IsWellFiled now r type s w)
  | withdraw_base now channel key eq ↦
      subst IsWellFiled eq (withdraw_base-IsWellFiled now channel key s w)
  | withdraw_rover now user key eq ↦
      subst IsWellFiled eq (withdraw_rover-IsWellFiled now user key s w)
  | sub_base f r skip res e eq ↦
      subst IsWellFiled eq (subst WellFiledResult e (sub_base-WellFiled f r skip s w))
  | sub_near r at sent eq ↦ subst IsWellFiled eq (sub_near-IsWellFiled r at sent s w)
  | geo_radius f key answer res e eq ↦
      subst IsWellFiled eq (subst WellFiledResult e (geo_radius-WellFiled f key answer s w))
  | unsub_base channel key eq ↦ subst IsWellFiled eq (unsub_base-IsWellFiled channel key s w)
  | sub_rover r eq ↦ subst IsWellFiled eq (sub_rover-IsWellFiled r s w)
  | unsub_rover channel key eq ↦ subst IsWellFiled eq (unsub_rover-IsWellFiled channel key s w)
  | base_message split pattern payload eq ↦
      subst IsWellFiled eq (sub_base_callback-IsWellFiled split pattern payload s w)
  | rover_message pattern payload eq ↦
      subst IsWellFiled eq (sub_rover_callback-IsWellFiled pattern payload s w)
  | check_active_bases eq ↦ subst IsWellFiled eq (check_bases-IsWellFiled s.base_sub_map s w)
  | check_active_rovers eq ↦ subst IsWellFiled eq (check_rovers-IsWellFiled s.rover_sub_map s w)
  | clear_overdue eq ↦ subst IsWellFiled eq (clear_overdue-IsWellFiled s w)
]

pub data Reachable (s : Caster) : Caster → Type 0 where
  start : Reachable s s
  next : (t u : Caster) → Reachable s t → Step t u → Reachable s u

-- In every state that a node reaches from a well filed one, by its operations in any order, each
-- item of its subscriptions and registrations stands under its own connection key, and under its
-- own channel (a rover's registration under its own user). A node that has just started, with empty
-- maps, is well filed.
pub Reachable-IsWellFiled : (s t : Caster) → Reachable s t → IsWellFiled s → IsWellFiled t
Reachable-IsWellFiled s t start w = w
Reachable-IsWellFiled s t (next u v path step) w =
    Step-IsWellFiled u t step (Reachable-IsWellFiled s u path w)
