-- ===== src/Base/Dict.antt =====
-- std::unordered_map<std::string, V> as an association list. Iteration goes along the list; what a
-- theorem says never depends on that order unless it says so.
use nav_caster.Base.Tests.{if◌then◌else◌, Bool-cases, str_eq_self}
use Prim.Native.String.{String}
use text.Mathlib.Text.{◌==◌ as str_eq}
use text.Mathlib.TextEquality.{eq_iff}
use mathlib.Core.Path.{◌≡◌, refl, ap}
use mathlib.Core.Logic.{inl, inr}
use mathlib.Core.Bool.{Bool, true, false}
use mathlib.Core.Option.{Option, none, some}
use mathlib.Core.List.{List, [], ◌∷◌}
use native.Mathlib.Omega.{arith}

abbrev pub Dict {ℓ} : Type ℓ → Type ℓ
Dict V = List (String × V)

module _ {ℓ} {V : Type ℓ} where
  unfoldable pub find : String → Dict V → Option V
  find k [] = none
  find k ((j, v) ∷ m) = if str_eq j k then some v else find k m

  -- `map[k] = v`
  unfoldable pub set : String → V → Dict V → Dict V
  set k v [] = (k, v) ∷ []
  set k v ((j, w) ∷ m) = if str_eq j k then (k, v) ∷ m else (j, w) ∷ set k v m

  -- `map.insert({k, v})` keeps what is there.
  unfoldable pub insert : String → V → Dict V → Dict V
  insert k v [] = (k, v) ∷ []
  insert k v ((j, w) ∷ m) = if str_eq j k then (j, w) ∷ m else (j, w) ∷ insert k v m

  unfoldable pub erase : String → Dict V → Dict V
  erase k [] = []
  erase k ((j, w) ∷ m) = if str_eq j k then erase k m else (j, w) ∷ erase k m

  unfoldable pub has : String → Dict V → Bool
  unfolding find
  has k m = elim (find k m) [ none ↦ false | some v ↦ true ]

  abbrev pub is_nil : Dict V → Bool
  is_nil [] = true
  is_nil (e ∷ m) = false

  pub find-set :
      (k j : String) (v : V) (m : Dict V)
      → find j (set k v m) ≡ (if str_eq k j then some v else find j m)
  unfolding find set
  find-set k j v [] = refl
  find-set k j v ((i, w) ∷ m) = ground (arith, eq_iff k j, eq_iff i k, eq_iff i j, find-set k j v m)

  pub find-insert :
      (k j : String) (v : V) (m : Dict V)
      → find j (insert k v m)
        ≡ (if str_eq k j then elim (find k m) [ none ↦ some v | some w ↦ some w ] else find j m)
  unfolding find insert
  find-insert k j v [] = refl
  find-insert k j v ((i, w) ∷ m) =
      ground (arith, eq_iff k j, eq_iff i k, eq_iff i j, find-insert k j v m)

  pub find-erase :
      (k j : String) (m : Dict V) → find j (erase k m) ≡ (if str_eq k j then none else find j m)
  unfolding find erase
  find-erase k j [] = ground arith
  find-erase k j ((i, w) ∷ m) = ground (arith, eq_iff k j, eq_iff i k, eq_iff i j, find-erase k j m)

  pub find-set_self : (k : String) (v : V) (m : Dict V) → find k (set k v m) ≡ some v
  find-set_self k v m = simp (find-set, str_eq_self)

  pub find-erase_self : (k : String) (m : Dict V) → find k (erase k m) ≡ none
  find-erase_self k m = simp (find-erase, str_eq_self)

  -- The keys of the list are distinct, as those of the map are.
  abbrev pub Distinct : Dict V → Type 0
  Distinct [] = Unit {0}
  Distinct ((j, w) ∷ m) = (has j m ≡ false) × Distinct m

  pub find-none_of_has : (k : String) (m : Dict V) → has k m ≡ false → find k m ≡ none
  unfolding has
  find-none_of_has k m h = ground arith

  pub has-none : (k : String) (m : Dict V) → find k m ≡ none → has k m ≡ false
  unfolding has
  has-none k m e = ground arith

  pub has-find : (k : String) (m : Dict V) (v : V) → find k m ≡ some v → has k m ≡ true
  unfolding has
  has-find k m v e = ground arith

  pub has-insert_self : (k : String) (v : V) (m : Dict V) → has k (insert k v m) ≡ true
  unfolding has
  has-insert_self k v m = ground (arith, find-insert k k v m, str_eq_self k)

  -- An entry behind a fresh key is still found.
  pub find-cons_later :
      (k j : String) (v w : V) (m : Dict V)
      → has j m ≡ false
      → find k m ≡ some v
      → find k ((j, w) ∷ m) ≡ some v
  unfolding has find
  find-cons_later k j v w m h e = elim (Bool-cases (str_eq j k)) [
    | inl hit ↦ cc (ap (λ i. find i m) ((eq_iff j k).0 hit), find-none_of_has j m h)
    | inr miss ↦ rw miss e
  ]
