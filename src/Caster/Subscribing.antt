-- ===== src/Caster/Subscribing.antt =====
-- core/src/caster_internal.cpp: what subscribing and unsubscribing keep.
use nav_caster.Base.{
  ℕ, zero, suc, String, Bool, true, false, Option, none, some, List, [], ◌∷◌, if◌then◌else◌, arith,
  Option-cases, inl, inr,
}
use nav_caster.Base.Dict.{Dict, find, set, insert}
use nav_caster.Access.{normalize_access_group_uid, is_alias_mpt}
use nav_caster.Caster.{CbItem, Position, LoginStatus, Caster, Result}
use nav_caster.Caster.Subscribe.{
  sub_base_channel, sub_direct, open_base_sub, file_base_sub, alias_step, AliasStep, alias_target,
  set_alias_mpt, ended, onward, leave, file_near, sub_near_channel, switch_near, near_loop,
  geo_radius_callback, unsub_direct, unsub_base_channel, open_rover_sub, sub_rover_channel,
  unsub_rover_channel,
}
use nav_caster.Caster.Filing.{Filed, FiledBy-open, FiledBy-add, FiledBy-left, Filed-set, Filed-at}
use nav_caster.Caster.Invariant.{IsWellFiled, unsub_near-IsWellFiled}

open_base_sub-IsWellFiled :
    (channel : String) (s : Caster) → IsWellFiled s → IsWellFiled (open_base_sub channel s).state
unfolding open_base_sub
open_base_sub-IsWellFiled channel s w =
    ground (arith, w, FiledBy-open (λ i. i.channel) s.base_sub_map w.base_sub channel)

file_base_sub-IsWellFiled :
    (r : CbItem) (s : Caster) → IsWellFiled s → IsWellFiled (file_base_sub r s).state
unfolding file_base_sub
file_base_sub-IsWellFiled r s w = record {
  base_sub =
      FiledBy-add (λ i. i.channel) s.base_sub_map w.base_sub
        (record r { group_uid = normalize_access_group_uid r.group_uid });
  rover_sub = w.rover_sub;
  base_register = w.base_register;
  rover_register = w.rover_register;
  near = w.near;
  kick = w.kick;
}

sub_direct-IsWellFiled :
    (r : CbItem) (skip : Bool) (s : Caster)
    → IsWellFiled s
    → IsWellFiled (sub_direct r skip s).state
unfolding sub_direct
sub_direct-IsWellFiled r skip s w = ground (
  arith,
  w,
  file_base_sub-IsWellFiled r (open_base_sub r.channel s).state
      (open_base_sub-IsWellFiled r.channel s w),
)

leave-IsWellFiled :
    (channel key : String) (s : Caster) → IsWellFiled s → IsWellFiled (leave channel key s)
unfolding leave
leave-IsWellFiled channel key s w = elim (Option-cases (find channel s.base_sub_map)) [
  | inl out ↦ ground (arith, w)
  | inr (subs, there) ↦
      ground
        (arith, w, FiledBy-left (λ i. i.channel) s.base_sub_map w.base_sub channel key subs there)
]

with_clients : Dict LoginStatus → Caster → Caster
with_clients m s = record s { client_status_map = m }

with_clients-IsWellFiled :
    (m : Dict LoginStatus) (s : Caster) → IsWellFiled s → IsWellFiled (with_clients m s)
unfolding with_clients
with_clients-IsWellFiled m s w = record {
  base_sub = w.base_sub;
  rover_sub = w.rover_sub;
  base_register = w.base_register;
  rover_register = w.rover_register;
  near = w.near;
  kick = w.kick;
}

abbrev WellFiledStep : AliasStep → Type 0
WellFiledStep (ended r) = IsWellFiled r.state
WellFiledStep (onward r s) = IsWellFiled s

alias_step-WellFiled : (r : CbItem) (s : Caster) → IsWellFiled s → WellFiledStep (alias_step r s)
unfolding alias_step with_clients
alias_step-WellFiled r s w = elim (Option-cases (find r.channel s.policy.alias_rule_map)) [
  | inl out ↦ ground (arith, w, out)
  | inr (rule, there) ↦ elim (Option-cases (alias_target s rule)) [
    | inl offline ↦ ground (arith, w, there, offline)
    | inr (mpt, online) ↦ ground (
      arith,
      w,
      there,
      online,
      with_clients-IsWellFiled
          (set_alias_mpt r.connect_key mpt (leave r.channel r.connect_key s).client_status_map)
          (leave r.channel r.connect_key s) (leave-IsWellFiled r.channel r.connect_key s w),
    )
  ]
]

-- `none` for calls that go on past the fuel.
abbrev pub WellFiledResult : Option Result → Type 0
WellFiledResult none = Unit {0}
WellFiledResult (some r) = IsWellFiled r.state

pub sub_base-WellFiled :
    (f : ℕ) (r : CbItem) (skip : Bool) (s : Caster)
    → IsWellFiled s
    → WellFiledResult (sub_base_channel f r skip s)
unfolding sub_base_channel
sub_base-WellFiled zero r skip s w = tt
sub_base-WellFiled (suc f) r skip s w =
    onto (alias_step r s) (alias_step-WellFiled r s w) (sub_direct-IsWellFiled r skip s w)
      (λ r' t. sub_base-WellFiled f r' false t)
  where
    onto :
        (a : AliasStep)
        → WellFiledStep a
        → IsWellFiled (sub_direct r skip s).state
        → ((r' : CbItem) (t : Caster)
            → IsWellFiled t
            → WellFiledResult (sub_base_channel f r' false t))
        → WellFiledResult (
            if is_alias_mpt s.policy r.channel
            then elim a [ ended res ↦ some res | onward r' t ↦ sub_base_channel f r' false t ]
            else some (sub_direct r skip s))
    onto (ended x) v d ih = ground (arith, v, d)
    onto (onward r' t) v d ih = ground (arith, d, ih r' t v)

-- A client's entry takes another channel.
move : CbItem → Dict LoginStatus → Caster → Caster
move item m s = record s {
  client_status_map = m;
  base_near_sub_map = set item.connect_key item s.base_near_sub_map;
}

move-IsWellFiled :
    (item : CbItem) (m : Dict LoginStatus) (s : Caster)
    → IsWellFiled s
    → IsWellFiled (move item m s)
unfolding move
move-IsWellFiled item m s w = record {
  base_sub = w.base_sub;
  rover_sub = w.rover_sub;
  base_register = w.base_register;
  rover_register = w.rover_register;
  near = Filed-set s.base_near_sub_map item w.near;
  kick = w.kick;
}

switch_near-WellFiled :
    (f : ℕ) (near : CbItem) (field : String) (s : Caster)
    → IsWellFiled s
    → WellFiledResult (switch_near f near field s)
unfolding switch_near move
switch_near-WellFiled f near field s w =
    sub_base-WellFiled f (record near { channel = field }) true _
      (move-IsWellFiled (record near { channel = field }) _ (leave near.channel near.connect_key s)
        (leave-IsWellFiled near.channel near.connect_key s w))

near_loop-WellFiled :
    (f : ℕ) (near : CbItem) (fields : List String) (s : Caster)
    → IsWellFiled s
    → WellFiledResult (near_loop f near fields s)
unfolding near_loop
near_loop-WellFiled f near [] s w = w
near_loop-WellFiled f near (field ∷ rest) s w =
    ground (arith, w, switch_near-WellFiled f near field s w, near_loop-WellFiled f near rest s w)

pub geo_radius-WellFiled :
    (f : ℕ) (key : String) (answer : Option (List String)) (s : Caster)
    → IsWellFiled s
    → WellFiledResult (geo_radius_callback f key answer s)
unfolding geo_radius_callback
geo_radius-WellFiled f key none s w = ground (arith, w)
geo_radius-WellFiled f key (some fields) s w = elim (Option-cases (find key s.base_near_sub_map)) [
  | inl out ↦ ground (arith, w)
  | inr (near, there) ↦ ground (arith, w, near_loop-WellFiled f near fields s w)
]

file_near-Filed : (r : CbItem) (m : Dict CbItem) → Filed m → Filed (file_near r m)
unfolding file_near
file_near-Filed r m w = elim (Option-cases (find r.connect_key m)) [
  | inl out ↦
      ground
        (arith, Filed-set m (record r { group_uid = normalize_access_group_uid r.group_uid }) w)
  | inr (old, there) ↦ ground (
    arith,
    Filed-at m r.connect_key old w there,
    Filed-set m
        (record old { group_uid = normalize_access_group_uid r.group_uid; cb = r.cb; arg = r.arg })
        w,
  )
]

pub sub_near-IsWellFiled :
    (r : CbItem) (at : Position) (sent : Bool) (s : Caster)
    → IsWellFiled s
    → IsWellFiled (sub_near_channel r at sent s).state
unfolding sub_near_channel
sub_near-IsWellFiled r at sent s w = ground (arith, w, file_near-Filed r s.base_near_sub_map w.near)

unsub_direct-IsWellFiled :
    (channel key : String) (s : Caster)
    → IsWellFiled s
    → IsWellFiled (unsub_direct channel key s).state
unfolding unsub_direct
unsub_direct-IsWellFiled channel key s w = elim (Option-cases (find channel s.base_sub_map)) [
  | inl out ↦ ground (arith, w)
  | inr (subs, there) ↦
      ground
        (arith, w, FiledBy-left (λ i. i.channel) s.base_sub_map w.base_sub channel key subs there)
]

pub unsub_base-IsWellFiled :
    (channel key : String) (s : Caster)
    → IsWellFiled s
    → IsWellFiled (unsub_base_channel channel key s).state
unfolding unsub_base_channel
unsub_base-IsWellFiled channel key s w =
    ground (arith, unsub_direct-IsWellFiled channel key s w, unsub_near-IsWellFiled key s w)

pub sub_rover-IsWellFiled :
    (r : CbItem) (s : Caster) → IsWellFiled s → IsWellFiled (sub_rover_channel r s).state
unfolding sub_rover_channel open_rover_sub
sub_rover-IsWellFiled r s w = ground (
  arith,
  w,
  FiledBy-add (λ i. i.channel) s.rover_sub_map w.rover_sub
      (record r { group_uid = normalize_access_group_uid r.group_uid }),
  FiledBy-add (λ i. i.channel) (insert r.channel [] s.rover_sub_map)
      (FiledBy-open (λ i. i.channel) s.rover_sub_map w.rover_sub r.channel)
      (record r { group_uid = normalize_access_group_uid r.group_uid }),
)

pub unsub_rover-IsWellFiled :
    (channel key : String) (s : Caster)
    → IsWellFiled s
    → IsWellFiled (unsub_rover_channel channel key s).state
unfolding unsub_rover_channel
unsub_rover-IsWellFiled channel key s w = elim (Option-cases (find channel s.rover_sub_map)) [
  | inl out ↦ ground (arith, w)
  | inr (subs, there) ↦
      ground
        (arith, w, FiledBy-left (λ i. i.channel) s.rover_sub_map w.rover_sub channel key subs there)
]
