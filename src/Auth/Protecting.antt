-- ===== src/Auth/Protecting.antt =====
-- auth/src/auth_verify_internal.cpp: who goes when a user has more logins than allowed and the earlier
-- ones have priority.
use mathlib.Core.Path.{subst}
use nav_caster.Base.{
  append-nil, append_assoc, length-append, ℕ, zero, suc, ◌≤◌, ◌<◌, String, Bool, true, some, List,
  [], ◌∷◌, ◌++◌, ◌≡◌, refl, sym, ap, ◌∙◌, length, take, arith,
}
use nav_caster.Auth.{AuthEffect}
use nav_caster.Auth.Kick.{
  Records, ended, kick, kick_loop, kick_round, protected_round, erase_time, last_record,
}
use nav_caster.Auth.Kicking.{
  Before, Increasing, keys_back, gone, gone-nil, gone-kick, kick_loop-done, kick_loop-round,
}

Before-take : (t n : ℕ) (rs : Records) → Before t rs → Before t (take n rs)
Before-take t zero rs b = tt
Before-take t (suc n) [] b = tt
Before-take t (suc n) ((u, k) ∷ rs) b = (b.0, Before-take t n rs b.1)

Increasing-take : (n : ℕ) (rs : Records) → Increasing rs → Increasing (take n rs)
Increasing-take zero rs inc = tt
Increasing-take (suc n) [] inc = tt
Increasing-take (suc n) ((u, k) ∷ rs) inc = (Before-take u n rs inc.0, Increasing-take n rs inc.1)

keys_back-append :
    (rs : Records) (t : ℕ) (k : String) → keys_back (rs ++ (t, k) ∷ []) ≡ k ∷ keys_back rs
keys_back-append [] t k = refl
keys_back-append ((u, j) ∷ rs) t k = ap (◌++ (j ∷ [])) (keys_back-append rs t k)

erase_time-append :
    (t u : ℕ) (k : String) (rs : Records)
    → erase_time t (rs ++ (u, k) ∷ []) ≡ erase_time t rs ++ erase_time t ((u, k) ∷ [])
unfolding erase_time
erase_time-append t u k [] = refl
erase_time-append t u k ((v, j) ∷ rs) = ground (arith, erase_time-append t u k rs)

Before-last : (t u : ℕ) (k : String) (rs : Records) → Before t (rs ++ (u, k) ∷ []) → t < u
Before-last t u k [] b = b.0
Before-last t u k ((v, j) ∷ rs) b = Before-last t u k rs b.1

erase_time-last :
    (t : ℕ) (k : String) (rs : Records)
    → Increasing (rs ++ (t, k) ∷ [])
    → erase_time t (rs ++ (t, k) ∷ []) ≡ rs
unfolding erase_time
erase_time-last t k [] inc = ground arith
erase_time-last t k ((u, j) ∷ rs) inc =
    ground (arith, Before-last u t k rs inc.0, erase_time-last t k rs inc.1)

last_record-append : (r : ℕ × String) (rs : Records) → last_record (rs ++ r ∷ []) ≡ some r
unfolding last_record
last_record-append r [] = refl
last_record-append r (q ∷ []) = refl
last_record-append r (q ∷ p ∷ rs) = last_record-append r (p ∷ rs)

-- Induction from the end of a list.
snoc_induction :
    (P : Records → Type 0)
    → P []
    → ((rs : Records) (r : ℕ × String) → P rs → P (rs ++ r ∷ []))
    → (rs : Records) → P rs
snoc_induction P base step rs = go [] rs base
  where
    go : (done rs : Records) → P done → P (done ++ rs)
    go done [] p = subst P (sym (append-nil done)) p
    go done (r ∷ rs) p =
        subst P (append_assoc done (r ∷ []) rs) (go (done ++ r ∷ []) rs (step done r p))

protected_round-last :
    (user own k : String) (t : ℕ) (rs : Records) (c : Bool) (es : List AuthEffect)
    → Increasing (rs ++ (t, k) ∷ [])
    → protected_round user own (record { records = rs ++ (t, k) ∷ []; check = c; effects = es })
      ≡ some
          (record (kick user own k
            (record { records = rs ++ (t, k) ∷ []; check = c; effects = es })) { records = rs })
unfolding protected_round kick
protected_round-last user own k t rs c es inc =
    ground (arith, last_record-append (t, k) rs, erase_time-last t k rs inc)

Increasing-init : (rs : Records) (r : ℕ × String) → Increasing (rs ++ r ∷ []) → Increasing rs
Increasing-init rs r inc =
    subst Increasing (take_append rs r) (Increasing-take (length rs) (rs ++ r ∷ []) inc)
  where
    take_append : (rs : Records) (r : ℕ × String) → take (length rs) (rs ++ r ∷ []) ≡ rs
    take_append [] r = refl
    take_append (q ∷ rs) r = ap (◌∷◌ q) (take_append rs r)

-- What the loop does with the late records, from the last of them.
Protected : ℕ → String → String → Records → Records → Type 0
Protected limit user own kept late =
    (f : ℕ) (c : Bool) (es : List AuthEffect)
    → Increasing (kept ++ late)
    → length (kept ++ late) ≤ f
    → kick_loop f true limit user own (record { records = kept ++ late; check = c; effects = es })
      ≡ ended (
          gone user own kept (keys_back late)
            (record { records = kept ++ late; check = c; effects = es }))

Protected-nil :
    (limit : ℕ) (user own : String) (kept : Records)
    → length kept ≤ limit
    → Protected limit user own kept []
unfolding Protected
Protected-nil limit user own kept small f c es inc enough =
    rw (append-nil kept)
      (kick_loop-done f limit true user own _ small ∙ ap ended (sym (gone-nil user own _)))

-- One round from the end, and then what the loop does with the others.
after_last :
    (f limit : ℕ) (user own k : String) (t : ℕ) (all left : Records) (ks : List String) (c : Bool)
    (es : List AuthEffect)
    → limit < length (all ++ (t, k) ∷ [])
    → Increasing (all ++ (t, k) ∷ [])
    → ((c2 : Bool) (es2 : List AuthEffect)
        → kick_loop f true limit user own (record { records = all; check = c2; effects = es2 })
          ≡ ended (gone user own left ks (record { records = all; check = c2; effects = es2 })))
    → kick_loop
        (suc f)
        true
        limit
        user
        own
        (record { records = all ++ (t, k) ∷ []; check = c; effects = es })
      ≡ ended (
          gone user own left
            (k ∷ ks)
            (record { records = all ++ (t, k) ∷ []; check = c; effects = es }))
unfolding kick_round
after_last f limit user own k t all left ks c es many inc ih =
    kick_loop-round f limit true user own _ _ many (protected_round-last user own k t all c es inc)
    ∙ ih _ _
    ∙ ap ended (gone-kick user own k left all ks _)

Protected-snoc :
    (limit : ℕ) (user own : String) (kept late : Records) (r : ℕ × String)
    → limit ≤ length kept
    → Protected limit user own kept late
    → Protected limit user own kept (late ++ r ∷ [])
unfolding Protected
Protected-snoc limit user own kept late (t, k) large ih zero c es inc enough =
    absurd
      (omega (arith, length-append kept (late ++ (t, k) ∷ []), length-append late ((t, k) ∷ [])))
Protected-snoc limit user own kept late (t, k) large ih (suc f) c es inc enough =
    rw (keys_back-append late t k) (
      subst
        (λ all.
          Increasing all
          → length all ≤ suc f
          → kick_loop (suc f) true limit user own
              (record { records = all; check = c; effects = es })
            ≡ ended (
                gone user own kept (k ∷ keys_back late)
                  (record { records = all; check = c; effects = es })))
        (append_assoc kept late ((t, k) ∷ []))
        (λ inc2 enough2.
          after_last f limit user own k t (kept ++ late) kept (keys_back late) c es
            (omega (arith, length-append (kept ++ late) ((t, k) ∷ []), length-append kept late))
            inc2
            (λ c2 es2.
              ih f c2 es2 (Increasing-init (kept ++ late) (t, k) inc2)
                (omega (arith, length-append (kept ++ late) ((t, k) ∷ [])))))
        inc enough)

-- The loop for an account whose earlier logins have priority, where the times differ: it ends, and
-- leaves as many of the earliest logins as are allowed; the later ones are told to go, the last
-- first. This login, if it is one of them, is refused and not told.
pub kick_loop-protected :
    (user own : String) (kept late : Records)
    → Increasing (kept ++ late)
    → kick_loop
        (length (kept ++ late))
        true
        (length kept)
        user
        own
        (record { records = kept ++ late; check = true; effects = [] })
      ≡ ended (
          gone user own kept
            (keys_back late)
            (record { records = kept ++ late; check = true; effects = [] }))
unfolding Protected
kick_loop-protected user own kept late inc =
    snoc_induction (Protected (length kept) user own kept)
      (Protected-nil (length kept) user own kept (omega arith))
      (λ rs r p. Protected-snoc (length kept) user own kept rs r (omega arith) p) late
      (length (kept ++ late)) true [] inc (omega arith)
