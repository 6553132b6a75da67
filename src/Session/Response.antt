-- ===== src/Session/Response.antt =====
-- service/session/ntrip_msg.cpp: verify_ntrip_response, on the bytes of a response.
use nav_caster.Base.{
  ℕ, zero, suc, ◌+◌, ◌-◌, leb, ◌==◌, Bool, true, false, Option, none, some, List, [], ◌∷◌, length,
  take, drop, if◌then◌else◌,
}

unfoldable pub starts_with : List ℕ → List ℕ → Bool
starts_with value [] = true
starts_with [] (p ∷ prefix) = false
starts_with (v ∷ value) (p ∷ prefix) = if v == p then starts_with value prefix else false

-- `find`, of a text and of a character, the first place.
unfoldable pub find_text : List ℕ → List ℕ → Option ℕ
unfolding starts_with
find_text [] text = none
find_text (v ∷ value) text =
    let later = find_text value text in
    if starts_with (v ∷ value) text
    then some 0
    else elim later [ none ↦ none | some i ↦ some (suc i) ]

-- `rfind(c, pos)`, the last place up to a place.
unfoldable pub rfind_char : ℕ → List ℕ → ℕ → Option ℕ
rfind_char c [] pos = none
rfind_char c (v ∷ value) zero = if v == c then some 0 else none
rfind_char c (v ∷ value) (suc pos) = elim (rfind_char c value pos) [
  | none ↦ if v == c then some 0 else none
  | some i ↦ some (suc i)
]

-- "ICY 200 OK", "HTTP/1.", "200", "OK", "chunked" and "ransfer-"
abbrev pub icy_200_ok : List ℕ
icy_200_ok = 73 ∷ 67 ∷ 89 ∷ 32 ∷ 50 ∷ 48 ∷ 48 ∷ 32 ∷ 79 ∷ 75 ∷ []

abbrev pub http_1 : List ℕ
http_1 = 72 ∷ 84 ∷ 84 ∷ 80 ∷ 47 ∷ 49 ∷ 46 ∷ []

abbrev code_200 : List ℕ
code_200 = 50 ∷ 48 ∷ 48 ∷ []

abbrev ok_text : List ℕ
ok_text = 79 ∷ 75 ∷ []

abbrev chunked_text : List ℕ
chunked_text = 99 ∷ 104 ∷ 117 ∷ 110 ∷ 107 ∷ 101 ∷ 100 ∷ []

abbrev ransfer : List ℕ
ransfer = 114 ∷ 97 ∷ 110 ∷ 115 ∷ 102 ∷ 101 ∷ 114 ∷ 45 ∷ []

-- The result, with the two flags as they are left; both are false before the call.
pub record Verdict : Type 0 where
  pub accepted : Bool
  pub version2 : Bool
  pub chunked : Bool

abbrev verdict : Bool → Bool → Bool → Verdict
verdict a v c = record { accepted = a; version2 = v; chunked = c }

abbrev is_some : Option ℕ → Bool
is_some none = false
is_some (some n) = true

-- Whether a header line with "ransfer-" has "chunked", the first place of which decides.
unfoldable pub announces_chunks : List ℕ → Bool
unfolding find_text rfind_char
announces_chunks resp = elim (find_text resp chunked_text) [
  | none ↦ false
  | some pos ↦ elim (rfind_char 10 resp pos) [
    | none ↦ false
    | some line_start ↦
        is_some (find_text (take (pos - line_start - 1) (drop (line_start + 1) resp)) ransfer)
  ]
]

unfoldable pub verify_ntrip_response : List ℕ → Verdict
unfolding starts_with find_text announces_chunks
verify_ntrip_response resp =
    if starts_with resp icy_200_ok
    then verdict true false false
    else if starts_with resp http_1
    then elim (find_text resp (32 ∷ [])) [
      | none ↦ verdict false false false
      | some sp1 ↦
          if leb (length resp) (sp1 + 3)
          then verdict false false false
          else if starts_with (take 3 (drop (sp1 + 1) resp)) code_200
          then verdict true true (announces_chunks resp)
          else verdict false false false
    ]
    else if starts_with resp ok_text
    then verdict true false false
    else verdict false false false
