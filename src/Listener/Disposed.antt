-- ===== src/Listener/Disposed.antt =====
-- service/ntrip_listener.cpp: what becomes of a connection that has sent its request.
use nav_caster.Base.{
  ℕ, String, str_eq, str_eq_self, eq_iff, Bool, true, false, not, ◌&&◌, List, [], ◌∷◌, ◌≡◌, refl,
  sym, ◌∙◌, ap, ◌⊎◌, inl, inr, if◌then◌else◌, arith, Bool-cases,
}
use mathlib.Core.Path.{subst}
use nav_caster.Auth.{
  AuthType, unknown as no_auth, server as auth_server, client as auth_client, source as auth_source,
}
use nav_caster.Listener.{
  ListenerOpt, ConnectInfo, ConnectType, source, client, nearest, server, create, Mounts, Outcome,
  value, thrown, ListenerEffect, stop_reading, del_timer, del_bev, verify, queue_push,
}
use nav_caster.Listener.Text.{check_mount_is_valid, extract_path}
use nav_caster.Listener.Headers.{Reader, decode_bufferevent_req}
use nav_caster.Listener.Accepted.{overruns, decoded}
use nav_caster.Listener.Request.{
  create_request, get_source, get_with, process_get_request, server_with, process_post_request,
  with_secret, process_source_request, then_do,
}

abbrev is_root : List ℕ → Bool
is_root [] = true
is_root (c ∷ text) = false

abbrev is_type : ConnectType → ConnectType → Bool
is_type source source = true
is_type server server = true
is_type client client = true
is_type nearest nearest = true
is_type _ _ = false

module _ (opt : ListenerOpt) (core : Mounts) (key : String) where
  -- What has to hold of a request whose user is verified for this kind of connection.
  abbrev pub may_ask : AuthType → ConnectInfo → Bool
  may_ask auth_server req =
      (opt.enable_server_login && is_type req.type server)
      && ((not (core.is_nearest req.mount_point) && not (core.is_alias req.mount_point))
          && check_mount_is_valid req.mount_point)
  may_ask auth_client req =
      (opt.enable_client_login && not (is_root req.mount_point))
      && (is_type req.type (if core.is_nearest req.mount_point then nearest else client)
          && check_mount_is_valid req.mount_point)
  may_ask auth_source req =
      opt.enable_source_login && (is_type req.type source && is_root req.mount_point)
  may_ask no_auth req = false

  -- An effect after which the connection with this key is gone or in the hands of another part.
  abbrev pub disposes : ListenerEffect → Bool
  disposes (del_bev k) = str_eq k key
  disposes (verify t req) = str_eq req.connect_key key && may_ask t req
  disposes (queue_push req) = str_eq req.connect_key key && may_ask auth_source req
  disposes stop_reading = false
  disposes (del_timer k) = false

  -- One such effect, or an exception.
  abbrev pub Ends : Outcome (List ListenerEffect) → Type 0
  Ends o = (o ≡ thrown) ⊎ ((e : ListenerEffect) × ((o ≡ value (e ∷ [])) × (disposes e ≡ true)))

  abbrev EndsWith : List ListenerEffect → Type 0
  EndsWith es = (e : ListenerEffect) × ((es ≡ e ∷ []) × (disposes e ≡ true))

  List-cases : (m : List ℕ) → (m ≡ []) ⊎ ((c : ℕ) × ((cs : List ℕ) × (m ≡ c ∷ cs)))
  List-cases [] = inl refl
  List-cases (c ∷ cs) = inr (c, (cs, refl))

  closed : EndsWith (del_bev key ∷ [])
  closed = (del_bev key, (refl, str_eq_self key))

  source-ends :
      (reader : Reader) (req : ConnectInfo)
      → str_eq req.connect_key key ≡ true
      → req.connect_key ≡ key
      → opt.enable_source_login ≡ true
      → req.mount_point ≡ []
      → EndsWith (get_source opt core reader key (record req { type = source }))
  unfolding get_source create_request
  source-ends reader req k eq on root =
      elim (Bool-cases (is_root req.user_name && is_root req.user_pwd)) [
        | inl e ↦ (
          queue_push (record req { operate = create; type = source; group_uid = "default" }),
          (ground (arith, e), ground (arith, k, on, root)),
        )
        | inr e ↦ (
          verify auth_source (record req { type = source }),
          (ground (arith, e), ground (arith, k, on, root)),
        )
      ]

  get-ends :
      (reader : Reader) (req : ConnectInfo)
      → req.connect_key ≡ key
      → check_mount_is_valid req.mount_point ≡ true
      → EndsWith (get_with opt core reader key req)
  unfolding get_with
  get-ends reader req eq valid =
      let k = (eq_iff _ _).1 eq in
      elim (List-cases req.mount_point) [
        | inl root ↦ elim (Bool-cases opt.enable_source_login) [
          | inl on ↦
              let e = source-ends reader req k eq on root in
              (e.0, (ground (arith, root, on, e.1.0), e.1.1))
          | inr off ↦ (del_bev key, (ground (arith, root, off), str_eq_self key))
        ]
        | inr named ↦ elim (Bool-cases opt.enable_client_login) [
          | inl on ↦ elim (Bool-cases (core.is_nearest req.mount_point)) [
            | inl near ↦ (
              verify auth_client (record req { type = nearest }),
              (ground (arith, named.1.1, on, near), ground (arith, named.1.1, on, near, k, valid)),
            )
            | inr far ↦ (
              verify auth_client (record req { type = client }),
              (ground (arith, named.1.1, on, far), ground (arith, named.1.1, on, far, k, valid)),
            )
          ]
          | inr off ↦ (del_bev key, (ground (arith, named.1.1, off), str_eq_self key))
        ]
      ]

  server-Ends :
      (reader : Reader) (url : List ℕ) (req : ConnectInfo)
      → opt.enable_server_login ≡ true
      → req.connect_key ≡ key
      → extract_path url ≡ value req.mount_point
      → check_mount_is_valid req.mount_point ≡ true
      → Ends (server_with opt core reader key url req)
  unfolding server_with
  server-Ends reader url req on eq path valid =
      let k = (eq_iff _ _).1 eq in
      let told : server_with opt core reader key url req
          ≡ then_do (value req.mount_point) (λ mount.
            if core.is_nearest mount
            then value (del_bev key ∷ [])
            else if core.is_alias mount
            then value (del_bev key ∷ [])
            else value (verify auth_server (record req { type = server }) ∷ [])) =
        ap
          (λ o. then_do o (λ mount.
            if core.is_nearest mount
            then value (del_bev key ∷ [])
            else if core.is_alias mount
            then value (del_bev key ∷ [])
            else value (verify auth_server (record req { type = server }) ∷ [])))
          path in
      elim (Bool-cases (core.is_nearest req.mount_point)) [
        | inl near ↦ inr (del_bev key, (told ∙ ground (arith, near), str_eq_self key))
        | inr far ↦ elim (Bool-cases (core.is_alias req.mount_point)) [
          | inl other ↦ inr (del_bev key, (told ∙ ground (arith, far, other), str_eq_self key))
          | inr own ↦ inr (
            verify auth_server (record req { type = server }),
            (told ∙ ground (arith, far, own), ground (arith, far, own, on, k, valid)),
          )
        ]
      ]

  pub get-Ends :
      (reader : Reader) (evbuf url : List ℕ)
      → overruns reader evbuf ≡ false
      → Ends (process_get_request opt core reader key evbuf url)
  unfolding process_get_request
  get-Ends reader evbuf url short = elim (decoded key reader evbuf url short) [
    | inl e ↦ inl (ap (λ o. then_do o (λ req. value (get_with opt core reader key req))) e)
    | inr d ↦
        let g = get-ends reader d.0 d.1.1.0 d.1.1.1.1 in
        inr (
          g.0,
          (
            ap (λ o. then_do o (λ req. value (get_with opt core reader key req))) d.1.0
                ∙ ap value g.1.0,
            g.1.1,
          ),
        )
  ]

  post-on :
      (reader : Reader) (evbuf url : List ℕ)
      → opt.enable_server_login ≡ true
      → process_post_request opt core reader key evbuf url
        ≡ then_do
            (decode_bufferevent_req reader evbuf key url)
            (server_with opt core reader key url)
  unfolding process_post_request
  post-on reader evbuf url on = rw on refl

  pub post-Ends :
      (reader : Reader) (evbuf url : List ℕ)
      → overruns reader evbuf ≡ false
      → Ends (process_post_request opt core reader key evbuf url)
  unfolding process_post_request
  post-Ends reader evbuf url short = elim (Bool-cases opt.enable_server_login) [
    | inr off ↦ inr (del_bev key, (rw off refl, str_eq_self key))
    | inl on ↦
        subst Ends (sym (post-on reader evbuf url on)) (elim (decoded key reader evbuf url short) [
          | inl e ↦ inl (ap (λ o. then_do o (server_with opt core reader key url)) e)
          | inr d ↦
              subst Ends (sym (ap (λ o. then_do o (server_with opt core reader key url)) d.1.0))
                (server-Ends reader url d.0 on d.1.1.0 d.1.1.1.0 d.1.1.1.1)
        ])
  ]

  secret-same :
      (reader : Reader) (secret : List ℕ) (req : ConnectInfo)
      → ((with_secret opt core reader key secret req).connect_key ≡ req.connect_key)
        × ((with_secret opt core reader key secret req).mount_point ≡ req.mount_point)
  unfolding with_secret
  secret-same reader [] req = (refl, refl)
  secret-same reader (c ∷ pwd) req = (refl, refl)

  abbrev secretly : Reader → List ℕ → List ℕ → ConnectInfo → Outcome (List ListenerEffect)
  secretly reader url secret req =
      server_with opt core reader key url (with_secret opt core reader key secret req)

  source-on :
      (reader : Reader) (evbuf url secret : List ℕ)
      → opt.enable_server_login ≡ true
      → process_source_request opt core reader key evbuf url secret
        ≡ then_do (decode_bufferevent_req reader evbuf key url) (secretly reader url secret)
  unfolding process_source_request
  source-on reader evbuf url secret on = rw on refl

  pub source-Ends :
      (reader : Reader) (evbuf url secret : List ℕ)
      → overruns reader evbuf ≡ false
      → Ends (process_source_request opt core reader key evbuf url secret)
  source-Ends reader evbuf url secret short = elim (Bool-cases opt.enable_server_login) [
    | inr off ↦ inr (del_bev key, (unfold process_source_request in rw off refl, str_eq_self key))
    | inl on ↦
        subst Ends (sym (source-on reader evbuf url secret on))
          (elim (decoded key reader evbuf url short) [
            | inl e ↦ inl (ap (λ o. then_do o (secretly reader url secret)) e)
            | inr d ↦
                let same = secret-same reader secret d.0 in
                subst Ends (sym (ap (λ o. then_do o (secretly reader url secret)) d.1.0)) (
                  server-Ends reader url (with_secret opt core reader key secret d.0) on
                    (same.0 ∙ d.1.1.0) (d.1.1.1.0 ∙ ap value (sym same.1))
                    (ap check_mount_is_valid same.1 ∙ d.1.1.1.1))
          ])
  ]
