-- ===== src/Listener/Request.antt =====
-- service/ntrip_listener.cpp: process_bev_request, what stands under it, and create_request.
use nav_caster.Base.{
  ℕ, ltb, String, is_empty, Bool, true, false, ◌&&◌, ◌||◌, Option, none, some, List, [], ◌∷◌, ◌++◌,
  length, get_or, if◌then◌else◌,
}
use nav_caster.Base64.{c_string}
use nav_caster.Auth.{
  AuthReplyData, ok as auth_ok, server as auth_server, client as auth_client, source as auth_source,
}
use nav_caster.Listener.{
  ListenerOpt, ConnectInfo, source, client, nearest, server, create, Mounts, Outcome, value, thrown,
  undefined, ListenerEffect, stop_reading, del_timer, del_bev, verify, queue_push,
}
use nav_caster.Listener.Text.{same, elements, extract_path}
use nav_caster.Listener.Headers.{Reader, decode_bufferevent_req}

unfoldable pub create_request : AuthReplyData → ConnectInfo → List ListenerEffect
create_request reply req = elim reply.type [
  | auth_ok ↦
      queue_push (record req {
        operate = create;
        group_uid = if is_empty reply.group_uid then "default" else reply.group_uid;
      })
      ∷ []
  | _ ↦ del_bev req.connect_key ∷ []
]

abbrev pub default_reply : AuthReplyData
default_reply = record { type = auth_ok; str = none; group_uid = "default" }

abbrev pub nothing : List ℕ → Bool
nothing [] = true
nothing (c ∷ text) = false

abbrev pub then_do {ℓ ℓ'} : {A : Type ℓ} → {B : Type ℓ'} → Outcome A → (A → Outcome B) → Outcome B
then_do (value a) f = f a
then_do thrown f = thrown
then_do undefined f = undefined

-- "SOURCE"
abbrev pub source_text : List ℕ
source_text = 83 ∷ 79 ∷ 85 ∷ 82 ∷ 67 ∷ 69 ∷ []

-- "GET"
abbrev pub get_text : List ℕ
get_text = 71 ∷ 69 ∷ 84 ∷ []

-- "POST"
abbrev pub post_text : List ℕ
post_text = 80 ∷ 79 ∷ 83 ∷ 84 ∷ []

-- "HTTP/1.1"
abbrev pub http_1_1 : List ℕ
http_1_1 = 72 ∷ 84 ∷ 84 ∷ 80 ∷ 47 ∷ 49 ∷ 46 ∷ 49 ∷ []

-- "HTTP/1.0"
abbrev pub http_1_0 : List ℕ
http_1_0 = 72 ∷ 84 ∷ 84 ∷ 80 ∷ 47 ∷ 49 ∷ 46 ∷ 48 ∷ []

abbrev pub is_http : List ℕ → Bool
is_http text = same text http_1_1 || same text http_1_0

module _ (opt : ListenerOpt) (core : Mounts) (reader : Reader) (connect_key : String) where
  abbrev rejected : Outcome (List ListenerEffect)
  rejected = value (del_bev connect_key ∷ [])

  unfoldable pub get_source : ConnectInfo → List ListenerEffect
  unfolding create_request
  get_source req =
      if nothing req.user_name && nothing req.user_pwd
      then create_request default_reply req
      else verify auth_source req ∷ []

  unfoldable pub get_with : ConnectInfo → List ListenerEffect
  unfolding get_source
  get_with req =
      if nothing req.mount_point
      then (if opt.enable_source_login
          then get_source (record req { type = source })
          else del_bev connect_key ∷ [])
      else if opt.enable_client_login
      then verify auth_client
          (record req { type = if core.is_nearest req.mount_point then nearest else client })
        ∷ []
      else del_bev connect_key ∷ []

  unfoldable pub process_get_request : List ℕ → List ℕ → Outcome (List ListenerEffect)
  unfolding decode_bufferevent_req get_with
  process_get_request evbuf url =
      then_do (decode_bufferevent_req reader evbuf connect_key url) λ req. value (get_with req)

  -- The path is taken from the URL again, which cannot fail any more.
  unfoldable pub server_with : List ℕ → ConnectInfo → Outcome (List ListenerEffect)
  unfolding extract_path
  server_with url req = then_do (extract_path url) λ mount.
      if core.is_nearest mount
      then rejected
      else if core.is_alias mount
      then rejected
      else value (verify auth_server (record req { type = server }) ∷ [])

  unfoldable pub process_post_request : List ℕ → List ℕ → Outcome (List ListenerEffect)
  unfolding decode_bufferevent_req server_with
  process_post_request evbuf url =
      if opt.enable_server_login
      then then_do (decode_bufferevent_req reader evbuf connect_key url) (server_with url)
      else rejected

  unfoldable pub with_secret : List ℕ → ConnectInfo → ConnectInfo
  with_secret [] req = req
  with_secret (c ∷ pwd) req = record req {
    user_base64 = (c ∷ pwd) ++ (58 ∷ c ∷ pwd);
    user_name = c ∷ pwd;
    user_pwd = c ∷ pwd;
  }

  unfoldable pub process_source_request : List ℕ → List ℕ → List ℕ → Outcome (List ListenerEffect)
  unfolding decode_bufferevent_req server_with with_secret
  process_source_request evbuf url secret =
      if opt.enable_server_login
      then (then_do (decode_bufferevent_req reader evbuf connect_key url)
          λ req. server_with url (with_secret secret req))
      else rejected

  -- The elements of a header that begins with SOURCE, but for the first.
  unfoldable pub dispatch_source : List ℕ → List ℕ → List ℕ → List ℕ → Outcome (List ListenerEffect)
  unfolding process_source_request same
  dispatch_source evbuf ele1 ele2 ele3 =
      if nothing ele3
      then (if nothing ele2
          then (if nothing ele1
              then thrown
              else if is_http ele1
              then thrown
              else process_source_request evbuf ele1 [])
          else if is_http ele2
          then process_source_request evbuf ele1 []
          else process_source_request evbuf ele2 ele1)
      else if is_http ele3
      then process_source_request evbuf ele2 ele1
      else thrown

  unfoldable pub dispatch : List ℕ → List ℕ → Outcome (List ListenerEffect)
  unfolding elements dispatch_source process_get_request process_post_request same
  dispatch evbuf header =
      let ele = elements 4 header in
      if same (get_or ele 0 []) source_text
      then dispatch_source evbuf (get_or ele 1 []) (get_or ele 2 []) (get_or ele 3 [])
      else if is_http (get_or ele 2 [])
      then (if same (get_or ele 0 []) get_text
          then process_get_request evbuf (get_or ele 1 [])
          else if same (get_or ele 0 []) post_text
          then process_post_request evbuf (get_or ele 1 [])
          else thrown)
      else thrown

  -- The first line of the buffer, and what is behind it. A short buffer without an end of line may be
  -- taken for a line.
  unfoldable pub first_line : List ℕ → Option (List ℕ × List ℕ)
  first_line evbuf = elim (reader.readln evbuf) [
    | none ↦ if opt.enable_header_no_crlf && ltb (length evbuf) 255 then some (evbuf, []) else none
    | some line ↦ some line
  ]

  unfoldable pub process_header : Option (List ℕ × List ℕ) → Outcome (List ListenerEffect)
  unfolding dispatch c_string
  process_header none = thrown
  process_header (some line) =
      if ltb 255 (length line.0) || ltb (length line.0) 9
      then thrown
      else dispatch line.1 (c_string line.0)

  -- An exception is caught, and the connection goes.
  unfoldable pub process_bev_request : List ℕ → Outcome (List ListenerEffect)
  unfolding first_line process_header
  process_bev_request evbuf = elim (process_header (first_line evbuf)) [
    | value effects ↦ value (stop_reading ∷ del_timer connect_key ∷ effects)
    | thrown ↦ value (stop_reading ∷ del_timer connect_key ∷ del_bev connect_key ∷ [])
    | undefined ↦ undefined
  ]
