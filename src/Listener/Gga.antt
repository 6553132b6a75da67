-- ===== src/Listener/Gga.antt =====
-- service/ntrip_listener.cpp: parse_gga_to_latlon. What is computed with doubles is a parameter: of the
-- texts of both angles and of their directions, whether the position is outside of the range, at
-- 0 and 0, or elsewhere.
use nav_caster.Base.{
  ℕ, ltb, leb, ◌==◌, Bool, true, false, not, ◌&&◌, ◌||◌, Option, none, some, List, [], ◌∷◌, length,
  drop, get_or, if◌then◌else◌,
}
use nav_caster.Session.Response.{find_text}
use nav_caster.Listener.Text.{skip_space}

pub data Location : Type 0 where
  out_of_range origin elsewhere : Location

-- "GGA,"
abbrev gga_text : List ℕ
gga_text = 71 ∷ 71 ∷ 65 ∷ 44 ∷ []

abbrev longer : ℕ → List (List ℕ) → List (List ℕ)
longer c [] = (c ∷ []) ∷ []
longer c (token ∷ tokens) = (c ∷ token) ∷ tokens

-- The tokens, with the one that no comma and no star has ended.
unfoldable pub tokens : List ℕ → List (List ℕ)
tokens [] = [] ∷ []
tokens (c ∷ text) =
    let rest = tokens text in
    if c == 44 then [] ∷ rest else if c == 42 then [] ∷ [] ∷ [] else longer c rest

-- That one is a field where it is not empty.
unfoldable pub fields : List (List ℕ) → List (List ℕ)
fields [] = []
fields ([] ∷ []) = []
fields (token ∷ rest) = token ∷ fields rest

abbrev nothing : List ℕ → Bool
nothing [] = true
nothing (c ∷ text) = false

-- Whether the digits in front have a value above 0.
unfoldable pub is_positive : List ℕ → Bool
is_positive [] = false
is_positive (c ∷ text) =
    let rest = is_positive text in if leb 48 c && leb c 57 then not (c == 48) || rest else false

-- `std::atoi(text) > 0`, of a number that an int holds.
unfoldable pub atoi_positive : List ℕ → Bool
unfolding skip_space is_positive
atoi_positive text = elim (skip_space text) [
  | [] ↦ false
  | c ∷ digits ↦ if c == 43 then is_positive digits else is_positive (c ∷ digits)
]

-- `none` where the result is false.
unfoldable pub parse_gga_to_latlon :
    (List ℕ → List ℕ → List ℕ → List ℕ → Location) → List ℕ → Option Location
unfolding find_text tokens fields atoi_positive
parse_gga_to_latlon locate gga = elim (find_text gga gga_text) [
  | none ↦ none
  | some pos ↦
      let fs = fields (tokens (drop pos gga)) in
      if ltb (length fs) 7
      then none
      else if not (atoi_positive (get_or fs 6 []))
      then none
      else if nothing (get_or fs 2 []) || nothing (get_or fs 4 [])
      then none
      else elim (locate (get_or fs 2 []) (get_or fs 3 []) (get_or fs 4 []) (get_or fs 5 [])) [
        | out_of_range ↦ none
        | place ↦ some place
      ]
]
