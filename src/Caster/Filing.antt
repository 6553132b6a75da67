-- ===== src/Caster/Filing.antt =====
-- core/src/caster_internal.cpp: where the items of a node's maps are filed.
use mathlib.Core.Path.{subst}
use nav_caster.Base.{String, eq_iff, some, [], ◌∷◌, ◌≡◌, sym, ◌∙◌, ap, arith, Bool-cases, inl, inr}
use nav_caster.Base.Dict.{Dict, find, set, insert, erase, is_nil, find-set, find-insert, find-erase}
use nav_caster.Caster.{CbItem, Subscribers, subs_of}
use nav_caster.Caster.Withdraw.{erase_empty}
use nav_caster.Caster.Roundtrip.{subs_of-set, subs_of-insert_nil}

-- Under each name and key stands an item of that name and key.
unfoldable pub FiledBy : (CbItem → String) → Dict Subscribers → Type 0
FiledBy name m =
    (c k : String) (item : CbItem)
    → find k (subs_of c m) ≡ some item
    → (item.connect_key ≡ k) × (name item ≡ c)

unfoldable pub Filed : Dict CbItem → Type 0
Filed m = (k : String) (item : CbItem) → find k m ≡ some item → item.connect_key ≡ k

subs_of-some :
    (c : String) (m : Dict Subscribers) (subs : Subscribers)
    → find c m ≡ some subs
    → subs_of c m ≡ subs
unfolding subs_of
subs_of-some c m subs e = ground arith

module _ (name : CbItem → String) (m : Dict Subscribers) (w : FiledBy name m) where
  pub FiledBy-open : (c : String) → FiledBy name (insert c [] m)
  unfolding FiledBy
  FiledBy-open c d k item e = w d k item (ap (find k) (sym (subs_of-insert_nil c d m)) ∙ e)

  pub FiledBy-add :
      (item : CbItem)
      → FiledBy name (set (name item) (insert item.connect_key item (subs_of (name item) m)) m)
  unfolding FiledBy
  FiledBy-add item c k x e = ground (
    arith,
    e,
    subs_of-set (name item) c (insert item.connect_key item (subs_of (name item) m)) m,
    find-insert item.connect_key k item (subs_of (name item) m),
    eq_iff (name item) c,
    eq_iff item.connect_key k,
    w c k x,
    w (name item) k x,
    w (name item) item.connect_key x,
  )

  pub FiledBy-drop : (c k : String) → FiledBy name (set c (erase k (subs_of c m)) m)
  unfolding FiledBy
  FiledBy-drop c k d j x e = ground (
    arith,
    e,
    subs_of-set c d (erase k (subs_of c m)) m,
    find-erase k j (subs_of c m),
    eq_iff c d,
    w d j x,
    w c j x,
  )

  pub FiledBy-left :
      (c k : String) (subs : Subscribers)
      → find c m ≡ some subs
      → FiledBy name (set c (erase k subs) m)
  FiledBy-left c k subs e =
      subst (λ xs. FiledBy name (set c (erase k xs) m)) (subs_of-some c m subs e) (FiledBy-drop c k)

  pub FiledBy-erase : (c : String) → FiledBy name (erase c m)
  unfolding FiledBy subs_of find
  FiledBy-erase c d k x e = ground (arith, e, find-erase c d m, w d k x)

pub FiledBy-erase_empty :
    (name : CbItem → String) (copy m : Dict Subscribers)
    → FiledBy name m
    → FiledBy name (erase_empty copy m)
unfolding erase_empty
FiledBy-erase_empty name [] m w = w
FiledBy-erase_empty name ((c, subs) ∷ rest) m w = elim (Bool-cases (is_nil subs)) [
  | inl bare ↦ rw bare (FiledBy-erase_empty name rest (erase c m) (FiledBy-erase name m w c))
  | inr full ↦ rw full (FiledBy-erase_empty name rest m w)
]

pub Filed-set : (m : Dict CbItem) (item : CbItem) → Filed m → Filed (set item.connect_key item m)
unfolding Filed
Filed-set m item w k x e =
    ground (arith, e, find-set item.connect_key k item m, eq_iff item.connect_key k, w k x)

pub Filed-erase : (m : Dict CbItem) (k : String) → Filed m → Filed (erase k m)
unfolding Filed
Filed-erase m k w j x e = ground (arith, e, find-erase k j m, w j x)

pub Filed-at :
    (m : Dict CbItem) (k : String) (item : CbItem)
    → Filed m
    → find k m ≡ some item
    → item.connect_key ≡ k
unfolding Filed
Filed-at m k item w e = w k item e
