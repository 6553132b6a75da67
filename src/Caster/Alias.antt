-- ===== src/Caster/Alias.antt =====
-- core/src/caster_internal.cpp: the calls of sub_base_channel and sub_alias_channel by each other.
use mathlib.Core.Path.{subst}
use nav_caster.Base.{
  ℕ, zero, suc, String, str_eq, Bool, true, false, Option, none, some, List, [], ◌∷◌, ◌≡◌, ◌≢◌,
  refl, sym, ◌∙◌, ap, if◌then◌else◌, arith, str_eq_self, eq_iff,
}
use nav_caster.Base.Dict.{find}
use nav_caster.Access.{is_alias_mpt}
use nav_caster.Caster.{CbItem, Caster}
use nav_caster.Caster.Subscribe.{
  sub_base_channel, alias_step, alias_target, leave, ended, onward, AliasStep, sub_direct,
}

-- What the names stand for is the same in both states.
abbrev SameNames : Caster → Caster → Type 0
SameNames t s = (t.policy ≡ s.policy) × (t.active_mount_map ≡ s.active_mount_map)

leave-SameNames : (channel key : String) (s : Caster) → SameNames (leave channel key s) s
unfolding leave
leave-SameNames channel key s = ground arith

alias_target-same :
    (s t : Caster) (rule : List String)
    → t.active_mount_map ≡ s.active_mount_map
    → alias_target t rule ≡ alias_target s rule
unfolding alias_target
alias_target-same s t [] e = refl
alias_target-same s t (mpt ∷ rule) e = ground (arith, e, alias_target-same s t rule e)

-- The first base of an alias's rule that is online.
abbrev pub Leads : Caster → String → String → Type 0
Leads s channel mpt =
    elim (find channel s.policy.alias_rule_map) [ none ↦ none | some rule ↦ alias_target s rule ]
    ≡ some mpt

abbrev Onward : String → Caster → AliasStep → Type 0
Onward channel s (ended r) = Unit {0}
Onward channel s (onward r t) = SameNames t s × Leads s channel r.channel

alias_step-Onward : (r : CbItem) (s : Caster) → Onward r.channel s (alias_step r s)
unfolding alias_step
alias_step-Onward r s = ground (arith, leave-SameNames r.channel r.connect_key s)

-- Where no alias leads to an alias, a subscription to a base, an alias or what does not exist ends
-- after two calls of sub_base_channel.
pub sub_base_channel-ends :
    (f : ℕ) (r : CbItem) (skip : Bool) (s : Caster)
    → ((channel mpt : String) → Leads s channel mpt → is_alias_mpt s.policy mpt ≡ false)
    → sub_base_channel (suc (suc f)) r skip s ≢ none
unfolding sub_base_channel
sub_base_channel-ends f r skip s plain = ends (alias_step r s) (alias_step-Onward r s)
  where
    ends :
        (a : AliasStep)
        → Onward r.channel s a
        → (if is_alias_mpt s.policy r.channel
            then elim a [ ended res ↦ some res | onward r' t ↦ sub_base_channel (suc f) r' false t ]
            else some (sub_direct r skip s))
          ≢ none
    ends (ended res) o = ground arith
    ends (onward r' t) o =
        ground (arith, plain r.channel r'.channel o.1, ap (λ p. is_alias_mpt p r'.channel) o.0.0)

-- Two aliases, each of which leads to the other.
pub record IsLoop (s : Caster) (a b : String) : Type 0 where
  pub apart : str_eq a b ≡ false
  pub back_apart : str_eq b a ≡ false
  pub alias_a : is_alias_mpt s.policy a ≡ true
  pub alias_b : is_alias_mpt s.policy b ≡ true
  pub there : Leads s a b
  pub back : Leads s b a

targets-same :
    (s t : Caster) (rule : Option (List String))
    → t.active_mount_map ≡ s.active_mount_map
    → (elim rule [ none ↦ none | some x ↦ alias_target t x ])
      ≡ elim rule [ none ↦ none | some x ↦ alias_target s x ]
targets-same s t none e = refl
targets-same s t (some x) e = alias_target-same s t x e

IsLoop-same : (s t : Caster) (a b : String) → SameNames t s → IsLoop s a b → IsLoop t b a
IsLoop-same s t a b same l = record {
  apart = l.back_apart;
  back_apart = l.apart;
  alias_a = ap (λ p. is_alias_mpt p b) same.0 ∙ l.alias_b;
  alias_b = ap (λ p. is_alias_mpt p a) same.0 ∙ l.alias_a;
  there = Leads-same s t b a same l.back;
  back = Leads-same s t a b same l.there;
}
  where
    Leads-same : (s t : Caster) (c m : String) → SameNames t s → Leads s c m → Leads t c m
    Leads-same s t c m e l =
        ap (λ p. elim (find c p.alias_rule_map) [ none ↦ none | some rule ↦ alias_target t rule ])
          e.0
        ∙ targets-same s t (find c s.policy.alias_rule_map) e.1
        ∙ l

alias_step-loop :
    (r : CbItem) (s : Caster) (b : String)
    → Leads s r.channel b
    → str_eq r.channel b ≡ false
    → elim (alias_step r s) [ ended x ↦ false | onward r' t ↦ str_eq r'.channel b ] ≡ true
unfolding alias_step
alias_step-loop r s b l e = ground (arith, str_eq_self b)

-- A subscription to an alias that leads to an alias that leads back never ends: no number of calls
-- is enough, as the rule of each has the other for the first name that is online.
pub sub_base_channel-loops :
    (f : ℕ) (r : CbItem) (skip : Bool) (s : Caster) (b : String)
    → IsLoop s r.channel b
    → sub_base_channel f r skip s ≡ none
unfolding sub_base_channel
sub_base_channel-loops zero r skip s b l = refl
sub_base_channel-loops (suc f) r skip s b l = rw l.alias_a (
    onto (alias_step r s) (alias_step-Onward r s) (alias_step-loop r s b l.there l.apart)
      (λ r' t m. sub_base_channel-loops f r' false t r.channel m))
  where
    onto :
        (a : AliasStep)
        → Onward r.channel s a
        → elim a [ ended x ↦ false | onward r' t ↦ str_eq r'.channel b ] ≡ true
        → ((r' : CbItem) (t : Caster)
            → IsLoop t r'.channel r.channel
            → sub_base_channel f r' false t ≡ none)
        → elim a [ ended res ↦ some res | onward r' t ↦ sub_base_channel f r' false t ] ≡ none
    onto (ended x) o e ih = cc
    onto (onward r' t) o e ih = ih r' t (
        subst (λ c. IsLoop t c r.channel) (sym ((eq_iff r'.channel b).0 e))
          (IsLoop-same s t r.channel b o.0 l))
