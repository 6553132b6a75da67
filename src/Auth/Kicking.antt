-- ===== src/Auth/Kicking.antt =====
-- auth/src/auth_verify_internal.cpp: who goes when a user has more logins than allowed.
use nav_caster.Base.{
  append-nil, append_assoc, ℕ, zero, suc, ◌-◌, ◌≤◌, ◌<◌, String, str_eq, Bool, true, false, not,
  ◌&&◌, none, some, List, [], ◌∷◌, ◌++◌, ◌≡◌, refl, sym, ap, ◌∙◌, length, take, drop, if◌then◌else◌,
  arith,
}
use nav_caster.Auth.{err, AuthEffect, send_change_auth_status}
use nav_caster.Auth.Kick.{
  Records, Kicks, ended, read_end, kick, kick_loop, kick_round, open_round, erase_time, kick_reason,
}

-- Each time is before those that follow.
abbrev pub Before : ℕ → Records → Type 0
Before t [] = Unit {0}
Before t ((u, k) ∷ rs) = (t < u) × Before t rs

abbrev pub Increasing : Records → Type 0
Increasing [] = Unit {0}
Increasing ((t, k) ∷ rs) = Before t rs × Increasing rs

abbrev pub keys : Records → List String
keys [] = []
keys ((t, k) ∷ rs) = k ∷ keys rs

-- The keys, the last first.
abbrev pub keys_back : Records → List String
keys_back [] = []
keys_back ((t, k) ∷ rs) = keys_back rs ++ k ∷ []

abbrev pub without : String → List String → List String
without own [] = []
without own (k ∷ ks) = if str_eq k own then without own ks else k ∷ without own ks

abbrev pub member : String → List String → Bool
member own [] = false
member own (k ∷ ks) = if str_eq k own then true else member own ks

abbrev pub sends : String → List String → List AuthEffect
sends user [] = []
sends user (k ∷ ks) = send_change_auth_status user k err kick_reason ∷ sends user ks

-- What is left where those of the given keys have gone.
abbrev pub gone : String → String → Records → List String → Kicks → Kicks
gone user own left ks s = record {
  records = left;
  check = s.check && not (member own ks);
  effects = s.effects ++ sends user (without own ks);
}

pub gone-nil : (user own : String) (s : Kicks) → gone user own s.records [] s ≡ s
gone-nil user own s = ground (arith, append-nil s.effects)

pub gone-kick :
    (user own key : String) (left middle : Records) (ks : List String) (s : Kicks)
    → gone user own left ks (record (kick user own key s) { records = middle })
      ≡ gone user own left (key ∷ ks) s
unfolding kick
gone-kick user own key left middle ks s = ground (
  arith,
  append_assoc s.effects (send_change_auth_status user key err kick_reason ∷ [])
      (sends user (without own ks)),
)

pub erase_time-Before : (t : ℕ) (rs : Records) → Before t rs → erase_time t rs ≡ rs
unfolding erase_time
erase_time-Before t [] b = refl
erase_time-Before t ((u, k) ∷ rs) b = ground (arith, erase_time-Before t rs b.1)

pub kick_loop-done :
    (f limit : ℕ) (p : Bool) (user own : String) (s : Kicks)
    → length s.records ≤ limit
    → kick_loop f p limit user own s ≡ ended s
unfolding kick_loop
kick_loop-done zero limit p user own s h = ground arith
kick_loop-done (suc f) limit p user own s h = ground arith

pub kick_loop-round :
    (f limit : ℕ) (p : Bool) (user own : String) (s t : Kicks)
    → limit < length s.records
    → kick_round p user own s ≡ some t
    → kick_loop (suc f) p limit user own s ≡ kick_loop f p limit user own t
unfolding kick_loop
kick_loop-round f limit p user own s t h e = ground arith

open_round-two :
    (user own k0 k1 : String) (t0 t1 : ℕ) (rs : Records) (c : Bool) (es : List AuthEffect)
    → Increasing ((t0, k0) ∷ (t1, k1) ∷ rs)
    → open_round user own (record { records = (t0, k0) ∷ (t1, k1) ∷ rs; check = c; effects = es })
      ≡ some
          (record (kick user own k1
            (record { records = (t0, k0) ∷ (t1, k1) ∷ rs; check = c; effects = es })) {
              records = (t1, k1) ∷ rs;
            })
unfolding open_round kick erase_time
open_round-two user own k0 k1 t0 t1 rs c es inc =
    ground (arith, erase_time-Before t0 ((t1, k1) ∷ rs) inc.0)

-- The `n` records above the limit.
open_loop :
    (n f limit : ℕ) (user own : String) (rs : Records) (c : Bool) (es : List AuthEffect)
    → n ≡ length rs - limit
    → Increasing rs
    → length rs ≤ f
    → 1 ≤ limit
    → kick_loop f false limit user own (record { records = rs; check = c; effects = es })
      ≡ ended (
          gone user own
            (drop n rs)
            (keys (take n (drop 1 rs)))
            (record { records = rs; check = c; effects = es }))
unfolding kick_round
open_loop zero f limit user own rs c es e inc enough above =
    kick_loop-done f limit false user own _ (omega arith) ∙ ap ended (sym (gone-nil user own _))
open_loop (suc n) f limit user own [] c es e inc enough above = absurd (omega arith)
open_loop (suc n) f limit user own (r ∷ []) c es e inc enough above = absurd (omega arith)
open_loop (suc n) zero limit user own (r ∷ q ∷ rs) c es e inc enough above = absurd (omega arith)
open_loop (suc n) (suc f) limit user own ((t0, k0) ∷ (t1, k1) ∷ rs) c es e inc enough above =
    kick_loop-round f limit false user own _ _ (omega arith)
      (open_round-two user own k0 k1 t0 t1 rs c es inc)
    ∙ open_loop n f limit user own ((t1, k1) ∷ rs) _ _ (omega arith) inc.1 (omega arith) above
    ∙ ap ended (gone-kick user own k1 (drop n ((t1, k1) ∷ rs)) ((t1, k1) ∷ rs) (keys (take n rs)) _)

-- The loop for an account whose earlier logins have no priority, where the times differ and the
-- limit is at least one: it ends, and of `n` records above the limit the first `n` are taken out of
-- the records. Told to go are, of the `n` records that follow the first, those that are not this
-- login; this login, if it is one of the `n`, is marked as refused and not told.
pub kick_loop-open :
    (limit : ℕ) (user own : String) (rs : Records)
    → Increasing rs
    → 1 ≤ limit
    → kick_loop
        (length rs)
        false
        limit
        user
        own
        (record { records = rs; check = true; effects = [] })
      ≡ ended (
          gone user own
            (drop (length rs - limit) rs)
            (keys (take (length rs - limit) (drop 1 rs)))
            (record { records = rs; check = true; effects = [] }))
kick_loop-open limit user own rs inc above =
    open_loop (length rs - limit) (length rs) limit user own rs true [] refl inc (omega arith) above

-- Logins of one time.
abbrev pub at_once : ℕ → List String → Records
at_once t [] = []
at_once t (k ∷ ks) = (t, k) ∷ at_once t ks

erase_time-at_once : (t : ℕ) (ks : List String) → erase_time t (at_once t ks) ≡ []
unfolding erase_time
erase_time-at_once t [] = refl
erase_time-at_once t (k ∷ ks) = ground (arith, erase_time-at_once t ks)

open_round-at_once :
    (user own : String) (t : ℕ) (ks : List String) (c : Bool) (es : List AuthEffect)
    → open_round user own (record { records = at_once t ks; check = c; effects = es }) ≡ none
unfolding open_round
open_round-at_once user own t [] c es = refl
open_round-at_once user own t (k ∷ ks) c es = ground (arith, erase_time-at_once t (k ∷ ks))

-- Where the earlier logins have no priority, all records are of one time and there are more than
-- are allowed, the first round of the loop reads the first record of none, whatever the fuel is.
pub kick_loop-at_once :
    (f limit t : ℕ) (user own : String) (ks : List String)
    → limit < length (at_once t ks)
    → kick_loop
        (suc f)
        false
        limit
        user
        own
        (record { records = at_once t ks; check = true; effects = [] })
      ≡ read_end
unfolding kick_loop kick_round
kick_loop-at_once f limit t user own ks many =
    ground (arith, open_round-at_once user own t ks true [])
