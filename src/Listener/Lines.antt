-- ===== src/Listener/Lines.antt =====
-- service/ntrip_listener.cpp: the headers that a request was sent with are the headers that are read.
use nav_caster.Base.{
  ℕ, zero, suc, ◌+◌, ◌<◌, ◌≤◌, ltb, true, false, some, List, [], ◌∷◌, ◌++◌, ◌≡◌, ◌≢◌, refl, ◌∙◌, ap,
  length, take, drop, arith, length-append, take-append_length,
}
use nav_caster.Base64.{c_string}
use nav_caster.Listener.Text.{same, find_char}
use nav_caster.Listener.Headers.{Reader, Item, look, key_value, line_entry, read_headers, headers}

-- A header with this name and this value.
abbrev pub line_of : List ℕ × List ℕ → List ℕ
line_of entry = entry.0 ++ (58 ∷ 32 ∷ entry.1)

abbrev pub NoColon : List ℕ → Type 0
NoColon [] = Unit {0}
NoColon (c ∷ text) = (c ≢ 58) × NoColon text

abbrev pub NoNul : List ℕ → Type 0
NoNul [] = Unit {0}
NoNul (c ∷ text) = (c ≢ 0) × NoNul text

abbrev pub Sendable : List ℕ × List ℕ → Type 0
Sendable entry =
    NoColon entry.0 × (NoNul entry.0 × (NoNul entry.1 × (length (line_of entry) ≤ 1024)))

-- The buffer begins with these headers, then has an empty line, and then the body.
abbrev pub Sent : Reader → List (List ℕ × List ℕ) → List ℕ → List ℕ → Type 0
Sent reader [] body evbuf = reader.readln evbuf ≡ some ([], body)
Sent reader (entry ∷ entries) body evbuf =
    Sendable entry
    × ((rest : List ℕ) × ((reader.readln evbuf ≡ some (line_of entry, rest))
          × ((length rest < length evbuf) × Sent reader entries body rest)))

-- The later names stand first.
abbrev pub onto : List (List ℕ × List ℕ) → Item → Item
onto [] item = item
onto (entry ∷ entries) item = onto entries (entry ∷ item)

pub find-first :
    (text rest : List ℕ) → NoColon text → find_char 58 (text ++ (58 ∷ rest)) ≡ some (length text)
unfolding find_char
find-first [] rest p = refl
find-first (c ∷ text) rest p = ground (arith, find-first text rest p.1)

c_string-NoNul : (text : List ℕ) → NoNul text → c_string text ≡ text
unfolding c_string
c_string-NoNul [] p = refl
c_string-NoNul (c ∷ text) p = ground (arith, c_string-NoNul text p.1)

NoNul-append : (x y : List ℕ) → NoNul x → NoNul y → NoNul (x ++ y)
NoNul-append [] y p q = q
NoNul-append (c ∷ x) y p q = (p.0, NoNul-append x y p.1 q)

take-name : (k v : List ℕ) → take (length k) (line_of (k, v)) ≡ k
take-name k v = take-append_length k (58 ∷ 32 ∷ v)

pub shift : (n k : ℕ) → suc n + k ≡ suc (n + k)
shift n k = omega arith

drop-name : (k v : List ℕ) → drop (length k + 2) (line_of (k, v)) ≡ v
drop-name [] v = refl
drop-name (c ∷ k) v = ap (λ n. drop n (line_of (c ∷ k, v))) (shift (length k) 2) ∙ drop-name k v

length-line : (k v : List ℕ) → length (line_of (k, v)) ≡ length k + (2 + length v)
length-line k v = length-append k (58 ∷ 32 ∷ v) ∙ omega arith

no_room : (k v : List ℕ) → ltb (length (line_of (k, v))) (length k + 2) ≡ false
no_room k v = ground (arith, length-line k v)

key_value-line : (k v : List ℕ) → NoColon k → key_value (line_of (k, v)) ≡ some (k, v)
unfolding key_value
key_value-line k v p =
    rw (key_value, find-first k (32 ∷ v) p, no_room k v, take-name k v, drop-name k v) refl

line_entry_lem :
    (header : List ℕ) (entry : List ℕ × List ℕ)
    → ltb 1024 (length header) ≡ false
    → c_string header ≡ header
    → key_value header ≡ some entry
    → line_entry header ≡ some entry
unfolding line_entry key_value
line_entry_lem [] entry short whole e = cc (e)
line_entry_lem (c ∷ cs) entry short whole e = rw (short, whole) e

line_entry-line :
    (entry : List ℕ × List ℕ) → Sendable entry → line_entry (line_of entry) ≡ some entry
line_entry-line entry p =
    line_entry_lem (line_of entry) entry (ground arith)
      (c_string-NoNul (line_of entry)
        (NoNul-append entry.0 (58 ∷ 32 ∷ entry.1) p.1.0 ((λ e. cc e), ((λ e. cc e), p.1.1.0))))
      (key_value-line entry.0 entry.1 p.0)

read_headers-Sent :
    (n : ℕ) (reader : Reader) (entries : List (List ℕ × List ℕ)) (body evbuf : List ℕ) (item : Item)
    → length evbuf < n
    → Sent reader entries body evbuf
    → read_headers n reader evbuf item ≡ (onto entries item, body)
unfolding read_headers
read_headers-Sent zero reader entries body evbuf item h p = absurd (omega arith)
read_headers-Sent (suc n) reader [] body evbuf item h p = rw (read_headers, p) refl
read_headers-Sent (suc n) reader (entry ∷ entries) body evbuf item h p =
    rw (read_headers, p.1.1.0, line_entry-line entry p.0)
      (read_headers-Sent n reader entries body p.1.0 (entry ∷ item) (omega arith) p.1.1.1.1)

pub headers-Sent :
    (reader : Reader) (entries : List (List ℕ × List ℕ)) (body evbuf : List ℕ)
    → Sent reader entries body evbuf
    → headers reader evbuf ≡ (onto entries [], body)
unfolding headers
headers-Sent reader entries body evbuf p =
    read_headers-Sent (suc (length evbuf)) reader entries body evbuf [] (omega arith) p

same_self : (k : List ℕ) → same k k ≡ true
unfolding same
same_self [] = refl
same_self (c ∷ k) = ground (arith, same_self k)

-- No header has this name.
abbrev pub Without : List ℕ → List (List ℕ × List ℕ) → Type 0
Without key [] = Unit {0}
Without key (entry ∷ entries) = (same entry.0 key ≡ false) × Without key entries

look-Without :
    (key : List ℕ) (entries : List (List ℕ × List ℕ)) (item : Item)
    → Without key entries
    → look key (onto entries item) ≡ look key item
unfolding look
look-Without key [] item p = refl
look-Without key (entry ∷ entries) item p =
    look-Without key entries (entry ∷ item) p.1 ∙ rw p.0 refl

-- The last header with a name counts.
pub look-last :
    (key v : List ℕ) (before later : List (List ℕ × List ℕ)) (item : Item)
    → Without key later
    → look key (onto (before ++ ((key, v) ∷ later)) item) ≡ some v
unfolding look
look-last key v [] later item p =
    look-Without key later ((key, v) ∷ item) p ∙ rw (same_self key) refl
look-last key v (entry ∷ before) later item p = look-last key v before later (entry ∷ item) p
