-- ===== src/Listener/Examples.antt =====
-- Requests at concrete bytes.
use nav_caster.Base.{
  ℕ, ◌==◌, ◌&&◌, true, false, Bool, Option, none, some, List, [], ◌∷◌, ◌++◌, ◌≡◌, refl, sym, ap,
  if◌then◌else◌, drop, arith,
}
use nav_caster.Session.Response.{starts_with, find_text}
use nav_caster.Listener.{
  ListenerOpt, Mounts, server, value, ListenerEffect, stop_reading, del_timer, del_bev, verify,
}
use nav_caster.Listener.Gga.{elsewhere, parse_gga_to_latlon}
use nav_caster.Listener.Text.{same, extract_path, extract_para}
use nav_caster.Listener.Headers.{
  Reader, authorization, user_agent_key, host, plain_info, headers, decode_bufferevent_req,
}
use nav_caster.Listener.Lines.{line_of, onto}
use nav_caster.Listener.Request.{first_line, process_bev_request}
use nav_caster.Listener.Disposed.{disposes}
use nav_caster.Listener.Accepted.{overruns}
use nav_caster.Listener.Dispatch.{process_bev_request-disposes}
use nav_caster.Listener.Credentials.{basic_value, as_user, decode_bufferevent_req-user}

-- A line ends at a line feed, and a carriage return before it is part of the end.
line : List ℕ → Option (List ℕ × List ℕ)
line [] = none
line (x ∷ xs) =
    let later = line xs in
    if x == 10
    then some ([], xs)
    else if (x == 13) && starts_with xs (10 ∷ [])
    then some ([], drop 1 xs)
    else elim later [ none ↦ none | some p ↦ some (x ∷ p.0, p.1) ]

-- Every position is somewhere else.
abbrev reader : Reader
reader = record { readln = line; locate = λ lat ns lon ew. elsewhere }

-- A GGA sentence of quality 1, and one without its fields.
abbrev gga : List ℕ
gga =
    36 ∷ 71 ∷ 80 ∷ 71 ∷ 71 ∷ 65 ∷ 44 ∷ 49 ∷ 44 ∷ 52 ∷ 57 ∷ 49 ∷ 54 ∷ 46 ∷ 52 ∷ 44 ∷ 78 ∷ 44 ∷ 49
    ∷ 50 ∷ 51 ∷ 49 ∷ 49 ∷ 46 ∷ 49 ∷ 44 ∷ 87 ∷ 44 ∷ 49 ∷ 44 ∷ 56 ∷ 42 ∷ 53 ∷ []

abbrev no_gga : List ℕ
no_gga = 71 ∷ 71 ∷ 65 ∷ 44 ∷ []

reads_gga : parse_gga_to_latlon reader.locate gga ≡ some elsewhere
unfolding parse_gga_to_latlon find_text starts_with
reads_gga = refl

rejects_gga : parse_gga_to_latlon reader.locate no_gga ≡ none
unfolding parse_gga_to_latlon find_text starts_with
rejects_gga = refl

abbrev crlf : List ℕ
crlf = 13 ∷ 10 ∷ []

abbrev options : ListenerOpt
options = record {
  enable_source_login = true;
  enable_client_login = true;
  enable_server_login = true;
  enable_header_no_crlf = false;
}

-- "NEAR" is a nearest mount point, "OTHER" an alias.
abbrev core : Mounts
core = record {
  is_nearest = λ m. same m (78 ∷ 69 ∷ 65 ∷ 82 ∷ []);
  is_alias = λ m. same m (79 ∷ 84 ∷ 72 ∷ 69 ∷ 82 ∷ []);
}

-- "u", "pw", "B1" and "NTRIP x"
abbrev user : List ℕ
user = 117 ∷ []

abbrev password : List ℕ
password = 112 ∷ 119 ∷ []

abbrev base : List ℕ
base = 66 ∷ 49 ∷ []

abbrev agent_value : List ℕ
agent_value = 78 ∷ 84 ∷ 82 ∷ 73 ∷ 80 ∷ 32 ∷ 120 ∷ []

-- The headers of a request, and the empty line behind them.
abbrev sent : List ℕ
sent =
    line_of (user_agent_key, agent_value)
    ++ (crlf
        ++ (line_of (authorization, basic_value user password)
            ++ (crlf ++ (line_of (host, base) ++ (crlf ++ crlf)))))

-- "POST /B1 HTTP/1.1" in front of them.
abbrev request : List ℕ
request =
    (80 ∷ 79 ∷ 83 ∷ 84 ∷ 32 ∷ 47 ∷ 66 ∷ 49 ∷ 32 ∷ 72 ∷ 84 ∷ 84 ∷ 80 ∷ 47 ∷ 49 ∷ 46 ∷ 49 ∷ [])
    ++ (crlf ++ sent)

-- What stands behind a line.
abbrev second : Option (List ℕ × List ℕ) → Bool
second none = false
second (some l) = overruns reader l.1

process_bev_request-disposes_example :
    (e : ListenerEffect) × ((process_bev_request options core reader "k" request
        ≡ value (stop_reading ∷ del_timer "k" ∷ e ∷ []))
      × (disposes options core "k" e ≡ true))
unfolding first_line line starts_with nav_caster.Listener.Headers.look headers
    nav_caster.Base64.util_base64_encode nav_caster.Listener.Text.token
process_bev_request-disposes_example =
    process_bev_request-disposes options core "k" reader request (λ l e. sym (ap second e))

decode_bufferevent_req-user_example :
    decode_bufferevent_req reader (sent ++ gga) "k" base
    ≡ value
        (record (as_user (basic_value user password) user password (
          plain_info "k" base (extract_para base) (
            onto
              ((user_agent_key, agent_value)
                ∷ (authorization, basic_value user password)
                ∷ (host, base)
                ∷ [])
              []))) { ntrip_gga = gga })
unfolding nav_caster.Base64.util_base64_encode extract_path same line
    nav_caster.Listener.Headers.with_gga parse_gga_to_latlon find_text starts_with plain_info
decode_bufferevent_req-user_example =
    decode_bufferevent_req-user reader "k" base base (sent ++ gga) gga user password
      ((user_agent_key, agent_value) ∷ []) ((host, base) ∷ []) ((λ e. omega arith), tt)
      (omega arith, (omega arith, tt))
      (omega arith, (omega arith, (omega arith, (omega arith, tt)))) (omega arith) refl (refl, tt)
      (
        grind arith,
        (
          _,
          (
            refl,
            (
              omega arith,
              (
                grind arith,
                (_, (refl, (omega arith, (grind arith, (_, (refl, (omega arith, refl))))))),
              ),
            ),
          ),
        ),
      )
