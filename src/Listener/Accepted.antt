-- ===== src/Listener/Accepted.antt =====
-- service/ntrip_listener.cpp: when decode_bufferevent_req gives a request, and what it has.
use nav_caster.Base.{
  ℕ, ltb, String, Bool, true, false, Option, none, some, List, ◌≡◌, refl, sym, ◌∙◌, ap, ◌⊎◌, inl,
  inr, length, arith, Bool-cases, Option-cases,
}
use nav_caster.Listener.{ConnectInfo, Outcome, value, thrown}
use nav_caster.Base64.{util_base64_decode}
use nav_caster.Listener.Text.{
  check_mount_is_valid, token, mount_of, extract_path, extract_para, decode_basic_authentication,
}
use nav_caster.Listener.Headers.{
  Reader, Item, look, authorization, with_user, with_authorization, with_gga, plain_info, headers,
  decode_bufferevent_req,
}

-- Whether the value of an Authorization has more than the buffer holds.
abbrev pub long_token : Option (List ℕ) → Bool
long_token none = false
long_token (some auth) = ltb 255 (length (token auth))

abbrev pub overruns : Reader → List ℕ → Bool
overruns reader evbuf = long_token (look authorization (headers reader evbuf).0)

module _ (key : String) where
  abbrev pub Decoded : List ℕ → Outcome ConnectInfo → Type 0
  Decoded url o =
      (o ≡ thrown)
      ⊎ ((req : ConnectInfo) × ((o ≡ value req)
            × ((req.connect_key ≡ key)
                × ((extract_path url ≡ value req.mount_point)
                    × (check_mount_is_valid req.mount_point ≡ true)))))

  with_user-same :
      (auth id : List ℕ) (info : ConnectInfo)
      → ((with_user auth id info).connect_key ≡ info.connect_key)
        × ((with_user auth id info).mount_point ≡ info.mount_point)
  unfolding with_user
  with_user-same auth id info = ground arith

  decode-short :
      (auth : List ℕ)
      → ltb 255 (length (token auth)) ≡ false
      → decode_basic_authentication auth ≡ value (util_base64_decode (token auth))
  unfolding decode_basic_authentication
  decode-short auth short = rw short refl

  authorized :
      (item : Item) (info : ConnectInfo)
      → long_token (look authorization item) ≡ false
      → (req : ConnectInfo) × ((with_authorization item info ≡ value req)
          × ((req.connect_key ≡ info.connect_key) × (req.mount_point ≡ info.mount_point)))
  unfolding with_authorization
  authorized item info short = elim (Option-cases (look authorization item)) [
    | inl e ↦ (info, (ground (arith, e), (refl, refl)))
    | inr found ↦
        let auth = found.0 in
        (
          with_user auth (util_base64_decode (token auth)) info,
          (
            ground (arith, found.1, decode-short auth (sym (ap long_token found.1) ∙ short)),
            with_user-same auth (util_base64_decode (token auth)) info,
          ),
        )
  ]

  with_gga-same :
      (reader : Reader) (trailing : List ℕ) (info : ConnectInfo)
      → ((with_gga reader trailing info).connect_key ≡ info.connect_key)
        × ((with_gga reader trailing info).mount_point ≡ info.mount_point)
  unfolding with_gga
  with_gga-same reader trailing info = ground arith

  pub decoded :
      (reader : Reader) (evbuf url : List ℕ)
      → overruns reader evbuf ≡ false
      → Decoded url (decode_bufferevent_req reader evbuf key url)
  unfolding decode_bufferevent_req extract_path plain_info
  decoded reader evbuf url short = elim (Bool-cases (check_mount_is_valid (mount_of url))) [
    | inl e ↦
        let read = headers reader evbuf in
        let a = authorized read.0 (plain_info key (mount_of url) (extract_para url) read.0) short in
        let same = with_gga-same reader read.1 a.0 in
        let mount = same.1 ∙ a.1.1.1 in
        inr (
          with_gga reader read.1 a.0,
          (
            ground (arith, e, a.1.0),
            (same.0 ∙ a.1.1.0, (ground (arith, e, mount), ground (arith, e, mount))),
          ),
        )
    | inr e ↦ inl (ground (arith, e))
  ]
