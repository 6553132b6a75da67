-- ===== src/Listener/Credentials.antt =====
-- service/ntrip_listener.cpp: the name and the password of a request, from its headers.
use nav_caster.Base.{
  ℕ, ◌+◌, ◌≤◌, String, some, List, [], ◌∷◌, ◌++◌, ◌≡◌, refl, ◌∙◌, ap, length, drop, arith,
  take-append_length,
}
use nav_caster.Base64.{util_base64_encode, util_base64_decode}
use nav_caster.Base64.Roundtrip.{
  Ascii, Visible, util_base64_encode-Visible, util_base64_decode-encode,
}
use nav_caster.Listener.{ConnectInfo, Outcome, value, thrown, undefined}
use nav_caster.Listener.Text.{
  is_space, skip_space, scan_until, token, basic_space, extract_path, extract_para,
  decode_basic_authentication,
}
use nav_caster.Listener.Headers.{
  Reader, Item, authorization, look, with_user, with_authorization, with_gga, plain_info, headers,
  decode_bufferevent_req,
}
use nav_caster.Listener.Lines.{
  shift, NoColon, Sent, Without, find-first, headers-Sent, look-last, onto,
}

skip-Visible : (t : List ℕ) → Visible t → skip_space t ≡ t
unfolding skip_space is_space
skip-Visible [] p = refl
skip-Visible (c ∷ t) p = ground arith

scan-Visible : (t : List ℕ) → Visible t → scan_until is_space t ≡ (t, [])
unfolding scan_until is_space
scan-Visible [] p = refl
scan-Visible (c ∷ t) p = ground (arith, scan-Visible t p.1)

token-Visible : (t : List ℕ) → Visible t → token (basic_space ++ t) ≡ t
unfolding token skip_space
token-Visible t p =
    ap (λ s. (scan_until is_space s).0) (skip-Visible t p) ∙ ap (λ s. s.0) (scan-Visible t p)

Ascii-append : (x y : List ℕ) → Ascii x → Ascii y → Ascii (x ++ y)
Ascii-append [] y p q = q
Ascii-append (c ∷ x) y p q = (p.0, (p.1.0, Ascii-append x y p.1.1 q))

-- "name:password"
abbrev pub user_id : List ℕ → List ℕ → List ℕ
user_id name pwd = name ++ (58 ∷ pwd)

-- The value of the Authorization that a client sends.
abbrev pub basic_value : List ℕ → List ℕ → List ℕ
basic_value name pwd = basic_space ++ util_base64_encode (user_id name pwd)

-- The request of a user, with what the other headers say.
abbrev pub as_user : List ℕ → List ℕ → List ℕ → ConnectInfo → ConnectInfo
as_user auth name pwd info = record info {
  ntrip_auth = auth;
  user_base64 = user_id name pwd;
  user_name = name;
  user_pwd = pwd;
}

drop-password : (name pwd : List ℕ) → drop (length name + 1) (user_id name pwd) ≡ pwd
drop-password [] pwd = refl
drop-password (c ∷ name) pwd =
    ap (λ n. drop n (c ∷ user_id name pwd)) (shift (length name) 1) ∙ drop-password name pwd

with_user-id :
    (auth name pwd : List ℕ) (info : ConnectInfo)
    → NoColon name
    → with_user auth (user_id name pwd) info ≡ as_user auth name pwd info
unfolding with_user
with_user-id auth name pwd info p =
    rw
      (with_user, find-first name pwd p, take-append_length name (58 ∷ pwd), drop-password name pwd)
      refl

decode_basic_lem :
    (auth t : List ℕ)
    → token auth ≡ t
    → length t ≤ 255
    → decode_basic_authentication auth ≡ value (util_base64_decode t)
unfolding decode_basic_authentication
decode_basic_lem auth t e short = ground (arith, e)

decode_basic-value :
    (name pwd : List ℕ)
    → Ascii name
    → Ascii pwd
    → length (util_base64_encode (user_id name pwd)) ≤ 255
    → decode_basic_authentication (basic_value name pwd) ≡ value (user_id name pwd)
decode_basic-value name pwd p q short =
    let ascii = Ascii-append name (58 ∷ pwd) p (omega arith, (omega arith, q)) in
    decode_basic_lem (basic_value name pwd) (util_base64_encode (user_id name pwd))
      (token-Visible _ (util_base64_encode-Visible (user_id name pwd) ascii)) short
    ∙ ap value (util_base64_decode-encode (user_id name pwd) ascii)

with_authorization_lem :
    (item : Item) (auth id : List ℕ) (info : ConnectInfo)
    → look authorization item ≡ some auth
    → decode_basic_authentication auth ≡ value id
    → with_authorization item info ≡ value (with_user auth id info)
unfolding with_authorization
with_authorization_lem item auth id info e d = rw (with_authorization, e, d) refl

abbrev finished : Reader → List ℕ → Outcome ConnectInfo → Outcome ConnectInfo
finished reader trailing (value info) = value (with_gga reader trailing info)
finished reader trailing thrown = thrown
finished reader trailing undefined = undefined

decode_lem :
    (reader : Reader) (key : String) (url mount evbuf : List ℕ)
    → extract_path url ≡ value mount
    → decode_bufferevent_req reader evbuf key url
      ≡ finished reader (headers reader evbuf).1 (
          with_authorization
            (headers reader evbuf).0
            (plain_info key mount (extract_para url) (headers reader evbuf).0))
unfolding decode_bufferevent_req
decode_lem reader key url mount evbuf e = rw (decode_bufferevent_req, e) refl

-- A request whose last Authorization is the Basic one of a name and a password, wherever it stands
-- among the headers, is read as the request of just that user: both come back as they were, and all
-- else is as the mount point, the headers and, for the GGA sentence, the body say. The name and the
-- password are of ASCII characters without NUL, the name has no colon, and encoded both have at
-- most 255 characters; the headers are lines of at most 1024 characters without NUL, their names
-- have no colon, and an empty line and then the body are behind them; the mount point is valid.
pub decode_bufferevent_req-user :
    (reader : Reader) (key : String) (url mount evbuf body : List ℕ) (name pwd : List ℕ)
    (before later : List (List ℕ × List ℕ))
    → NoColon name
    → Ascii name
    → Ascii pwd
    → length (util_base64_encode (user_id name pwd)) ≤ 255
    → extract_path url ≡ value mount
    → Without authorization later
    → Sent reader (before ++ ((authorization, basic_value name pwd) ∷ later)) body evbuf
    → decode_bufferevent_req reader evbuf key url
      ≡ value (
          with_gga reader body (
            as_user (basic_value name pwd) name pwd (
              plain_info key mount
                (extract_para url)
                (onto (before ++ ((authorization, basic_value name pwd) ∷ later)) []))))
decode_bufferevent_req-user reader key url mount evbuf body name pwd before later colon p q short
      path last sent =
    let value_sent = basic_value name pwd in
    let read =
      headers-Sent reader (before ++ ((authorization, value_sent) ∷ later)) body evbuf sent in
    decode_lem reader key url mount evbuf path
    ∙ ap
        (λ (r : Item × List ℕ).
          finished reader r.1
            (with_authorization r.0 (plain_info key mount (extract_para url) r.0)))
        read
    ∙ ap (finished reader body) (
        with_authorization_lem _ value_sent (user_id name pwd) _
          (look-last authorization value_sent before later [] last)
          (decode_basic-value name pwd p q short))
    ∙ ap (λ info. value (with_gga reader body info)) (with_user-id value_sent name pwd _ colon)
