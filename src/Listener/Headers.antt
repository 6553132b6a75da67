-- ===== src/Listener/Headers.antt =====
-- service/ntrip_listener.cpp: decode_bufferevent_req. A name is set to what the last line with it says;
-- here the later lines stand first. The degrees of a position are left out.
use nav_caster.Base.{
  ℕ, zero, suc, ◌+◌, ltb, ◌&&◌, String, Bool, true, false, Option, none, some, List, [], ◌∷◌,
  length, take, drop, if◌then◌else◌,
}
use nav_caster.Base64.{c_string}
use nav_caster.Listener.{ConnectInfo, unknown, unknown_operate, Outcome, value, thrown, undefined}
use nav_caster.Listener.Gga.{Location, out_of_range, origin, elsewhere, parse_gga_to_latlon}
use nav_caster.Listener.Text.{
  same, find_char, extract_path, extract_para, decode_basic_authentication,
}

-- evbuffer_readln with EVBUFFER_EOL_CRLF, which gives the first line and what is behind its end, and
-- what parse_gga_to_latlon computes with doubles.
pub record Reader : Type 0 where
  pub readln : List ℕ → Option (List ℕ × List ℕ)
  pub locate : List ℕ → List ℕ → List ℕ → List ℕ → Location

abbrev pub Item : Type 0
Item = List (List ℕ × List ℕ)

unfoldable pub look : List ℕ → Item → Option (List ℕ)
unfolding same
look key [] = none
look key ((k, v) ∷ item) = if same k key then some v else look key item

-- `none` without a colon.
unfoldable pub key_value : List ℕ → Option (List ℕ × List ℕ)
unfolding find_char
key_value line = elim (find_char 58 line) [
  | none ↦ none
  | some x ↦ some (take x line, if ltb (length line) (x + 2) then [] else drop (x + 2) line)
]

-- What a line does to the loop: it sets a name, or it ends the loop.
unfoldable pub line_entry : List ℕ → Option (List ℕ × List ℕ)
unfolding c_string key_value
line_entry header =
    if ltb 1024 (length header)
    then none
    else elim (c_string header) [ [] ↦ none | c ∷ cs ↦ key_value (c ∷ cs) ]

-- The loop, with fuel: what it has set, and what is left in the buffer.
unfoldable pub read_headers : ℕ → Reader → List ℕ → Item → Item × List ℕ
unfolding line_entry
read_headers zero reader evbuf item = (item, evbuf)
read_headers (suc n) reader evbuf item = elim (reader.readln evbuf) [
  | none ↦ (item, evbuf)
  | some line ↦ elim (line_entry line.0) [
    | none ↦ (item, line.1)
    | some entry ↦ read_headers n reader line.1 (entry ∷ item)
  ]
]

-- "Host"
abbrev pub host : List ℕ
host = 72 ∷ 111 ∷ 115 ∷ 116 ∷ []

-- "Transfer-Encoding"
abbrev pub transfer_encoding : List ℕ
transfer_encoding =
    84 ∷ 114 ∷ 97 ∷ 110 ∷ 115 ∷ 102 ∷ 101 ∷ 114 ∷ 45 ∷ 69 ∷ 110 ∷ 99 ∷ 111 ∷ 100 ∷ 105 ∷ 110 ∷ 103
    ∷ []

-- "User-Agent"
abbrev pub user_agent_key : List ℕ
user_agent_key = 85 ∷ 115 ∷ 101 ∷ 114 ∷ 45 ∷ 65 ∷ 103 ∷ 101 ∷ 110 ∷ 116 ∷ []

-- "Source-Agent"
abbrev pub source_agent : List ℕ
source_agent = 83 ∷ 111 ∷ 117 ∷ 114 ∷ 99 ∷ 101 ∷ 45 ∷ 65 ∷ 103 ∷ 101 ∷ 110 ∷ 116 ∷ []

-- "STR"
abbrev pub str_key : List ℕ
str_key = 83 ∷ 84 ∷ 82 ∷ []

-- "Ntrip-Version"
abbrev pub ntrip_version_key : List ℕ
ntrip_version_key = 78 ∷ 116 ∷ 114 ∷ 105 ∷ 112 ∷ 45 ∷ 86 ∷ 101 ∷ 114 ∷ 115 ∷ 105 ∷ 111 ∷ 110 ∷ []

-- "Ntrip-GGA"
abbrev pub ntrip_gga_key : List ℕ
ntrip_gga_key = 78 ∷ 116 ∷ 114 ∷ 105 ∷ 112 ∷ 45 ∷ 71 ∷ 71 ∷ 65 ∷ []

-- "Authorization"
abbrev pub authorization : List ℕ
authorization = 65 ∷ 117 ∷ 116 ∷ 104 ∷ 111 ∷ 114 ∷ 105 ∷ 122 ∷ 97 ∷ 116 ∷ 105 ∷ 111 ∷ 110 ∷ []

unfoldable pub or_empty : Option (List ℕ) → List ℕ
or_empty none = []
or_empty (some text) = text

unfoldable pub agent : Item → List ℕ
unfolding look or_empty
agent item = elim (look user_agent_key item) [
  | none ↦ or_empty (look source_agent item)
  | some text ↦ text
]

-- What an Authorization sets, from its value and what is decoded from it.
unfoldable pub with_user : List ℕ → List ℕ → ConnectInfo → ConnectInfo
unfolding find_char
with_user auth decode_id info = elim (find_char 58 decode_id) [
  | none ↦ info
  | some x ↦ record info {
    ntrip_auth = auth;
    user_base64 = decode_id;
    user_name = take x decode_id;
    user_pwd = drop (x + 1) decode_id;
  }
]

unfoldable pub with_authorization : Item → ConnectInfo → Outcome ConnectInfo
unfolding look decode_basic_authentication with_user
with_authorization item info = elim (look authorization item) [
  | none ↦ value info
  | some auth ↦ elim (decode_basic_authentication auth) [
    | value decode_id ↦ value (with_user auth decode_id info)
    | thrown ↦ thrown
    | undefined ↦ undefined
  ]
]

-- Before the Authorization.
unfoldable pub plain_info : String → List ℕ → List ℕ → Item → ConnectInfo
unfolding look or_empty agent
plain_info connect_key mount para item = record {
  connect_key = connect_key;
  operate = unknown_operate;
  type = unknown;
  group_uid = "";
  mount_point = mount;
  mount_para = para;
  mount_info = or_empty (look str_key item);
  http_host = or_empty (look host item);
  http_chunked = or_empty (look transfer_encoding item);
  user_agent = agent item;
  ntrip_version = or_empty (look ntrip_version_key item);
  ntrip_gga = or_empty (look ntrip_gga_key item);
  ntrip_auth = [];
  user_base64 = [];
  user_name = [];
  user_pwd = [];
}

unfoldable pub headers : Reader → List ℕ → Item × List ℕ
unfolding read_headers
headers reader evbuf = read_headers (suc (length evbuf)) reader evbuf []

-- Whether the position of the header's sentence is taken and is not that of the degrees 0.
unfoldable pub is_placed : Reader → List ℕ → Bool
unfolding parse_gga_to_latlon
is_placed reader [] = false
is_placed reader (c ∷ gga) = elim (parse_gga_to_latlon reader.locate (c ∷ gga)) [
  | none ↦ false
  | some out_of_range ↦ false
  | some origin ↦ false
  | some elsewhere ↦ true
]

-- Without a position, what is left in the buffer is looked at.
unfoldable pub with_gga : Reader → List ℕ → ConnectInfo → ConnectInfo
unfolding is_placed parse_gga_to_latlon
with_gga reader trailing info =
    if is_placed reader info.ntrip_gga
    then info
    else if ltb 0 (length trailing) && ltb (length trailing) 4096
    then elim (parse_gga_to_latlon reader.locate trailing) [
      | none ↦ info
      | some place ↦ record info { ntrip_gga = trailing }
    ]
    else info

unfoldable pub decode_bufferevent_req : Reader → List ℕ → String → List ℕ → Outcome ConnectInfo
unfolding extract_path extract_para headers plain_info with_authorization with_gga
decode_bufferevent_req reader evbuf connect_key url = elim (extract_path url) [
  | value mount ↦
      let read = headers reader evbuf in
      elim (with_authorization read.0 (plain_info connect_key mount (extract_para url) read.0)) [
        | value info ↦ value (with_gga reader read.1 info)
        | thrown ↦ thrown
        | undefined ↦ undefined
      ]
  | thrown ↦ thrown
  | undefined ↦ undefined
]
