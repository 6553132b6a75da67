-- ===== src/Listener/Text.antt =====
-- service/ntrip_listener.cpp: what a request's texts are cut into.
use nav_caster.Base.{
  ℕ, zero, suc, ◌+◌, ◌-◌, ltb, leb, ◌==◌, Bool, true, false, ◌&&◌, ◌||◌, Option, none, some, List,
  [], ◌∷◌, length, take, drop, if◌then◌else◌,
}
use nav_caster.Session.Response.{starts_with, find_text}
use nav_caster.Base64.{util_base64_decode}
use nav_caster.Listener.{Outcome, value, thrown, undefined}

-- `strcmp` and `==` on texts
unfoldable pub same : List ℕ → List ℕ → Bool
same [] [] = true
same (a ∷ x) (b ∷ y) = if a == b then same x y else false
same _ _ = false

-- `find`, of a character.
unfoldable pub find_char : ℕ → List ℕ → Option ℕ
find_char c [] = none
find_char c (v ∷ text) =
    let later = find_char c text in
    if v == c then some 0 else elim later [ none ↦ none | some i ↦ some (suc i) ]

-- `isspace`
unfoldable pub is_space : ℕ → Bool
is_space c = (c == 32) || (leb 9 c && leb c 13)

unfoldable pub skip_space : List ℕ → List ℕ
unfolding is_space
skip_space [] = []
skip_space (c ∷ text) = let rest = skip_space text in if is_space c then rest else c ∷ text

-- What a format of sscanf takes up to a character that it does not take, and the rest.
unfoldable pub scan_until : (ℕ → Bool) → List ℕ → List ℕ × List ℕ
scan_until stops [] = ([], [])
scan_until stops (c ∷ text) =
    let later = scan_until stops text in if stops c then ([], c ∷ text) else (c ∷ later.0, later.1)

-- "[^ |\n]" stops at a space, a bar and a line feed.
unfoldable pub is_separator : ℕ → Bool
is_separator c = (c == 32) || ((c == 124) || (c == 10))

-- sscanf of "%[^ |\n] " and so on, so many times; an element that is not read is empty.
unfoldable pub elements : ℕ → List ℕ → List (List ℕ)
unfolding is_separator scan_until skip_space
elements zero text = []
elements (suc n) text =
    let field = scan_until is_separator text in
    let rest = elements n (skip_space field.1) in
    elim field.0 [ [] ↦ [] | c ∷ cs ↦ (c ∷ cs) ∷ rest ]

unfoldable pub is_mount_char : ℕ → Bool
is_mount_char c =
    (leb 97 c && leb c 122)
    || ((leb 65 c && leb c 90)
        || ((leb 48 c && leb c 57) || ((c == 95) || ((c == 46) || (c == 45)))))

-- The empty text is valid, too.
unfoldable pub check_mount_is_valid : List ℕ → Bool
unfolding is_mount_char
check_mount_is_valid [] = true
check_mount_is_valid (c ∷ text) = is_mount_char c && check_mount_is_valid text

unfoldable pub with_slash : List ℕ → List ℕ
unfolding starts_with
with_slash path = if starts_with path (47 ∷ []) then path else 47 ∷ path

unfoldable pub mount_of : List ℕ → List ℕ
unfolding with_slash find_char
mount_of path = elim (find_char 63 (with_slash path)) [
  | none ↦ drop 1 (with_slash path)
  | some x ↦ take (x - 1) (drop 1 (with_slash path))
]

unfoldable pub extract_path : List ℕ → Outcome (List ℕ)
unfolding mount_of check_mount_is_valid
extract_path path = if check_mount_is_valid (mount_of path) then value (mount_of path) else thrown

unfoldable pub extract_para : List ℕ → List ℕ
unfolding with_slash find_char
extract_para path = elim (find_char 63 (with_slash path)) [
  | none ↦ []
  | some x ↦ drop (x + 1) (with_slash path)
]

-- "Basic" and "Basic "
abbrev pub basic : List ℕ
basic = 66 ∷ 97 ∷ 115 ∷ 105 ∷ 99 ∷ []

abbrev pub basic_space : List ℕ
basic_space = 66 ∷ 97 ∷ 115 ∷ 105 ∷ 99 ∷ 32 ∷ []

-- What sscanf of "Basic %s" puts into `auth`, which is empty before.
unfoldable pub token : List ℕ → List ℕ
unfolding find_text starts_with scan_until skip_space is_space
token authentication = elim (find_text authentication basic_space) [
  | none ↦ []
  | some at ↦
      if starts_with authentication basic
      then (scan_until is_space (skip_space (drop 5 authentication))).0
      else []
]

-- `auth` has 256 bytes, one of them for the NUL.
unfoldable pub decode_basic_authentication : List ℕ → Outcome (List ℕ)
unfolding token util_base64_decode
decode_basic_authentication authentication =
    if ltb 255 (length (token authentication))
    then undefined
    else value (util_base64_decode (token authentication))
