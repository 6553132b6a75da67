-- ===== src/Listener/Dispatch.antt =====
-- service/ntrip_listener.cpp: process_bev_request as a whole, what becomes of its connection.
use nav_caster.Base.{
  ℕ, String, str_eq_self, Bool, true, false, Option, none, some, List, [], ◌∷◌, ◌≡◌, refl, inl, inr,
  get_or, if◌then◌else◌,
}
use nav_caster.Base64.{c_string}
use nav_caster.Listener.{
  ListenerOpt, Mounts, Outcome, value, ListenerEffect, stop_reading, del_timer, del_bev,
}
use nav_caster.Listener.Text.{same, elements}
use nav_caster.Listener.Headers.{Reader}
use nav_caster.Listener.Request.{
  nothing, source_text, get_text, post_text, is_http, dispatch_source, dispatch, first_line,
  process_header, process_bev_request,
}
use nav_caster.Listener.Accepted.{overruns}
use nav_caster.Listener.Disposed.{disposes, Ends, get-Ends, post-Ends, source-Ends}

module _ (opt : ListenerOpt) (core : Mounts) (key : String) (reader : Reader) where
  Ends-if :
      (b : Bool) (x y : Outcome (List ListenerEffect))
      → Ends opt core key x
      → Ends opt core key y
      → Ends opt core key (if b then x else y)
  Ends-if true x y p q = p
  Ends-if false x y p q = q

  dispatch_source-Ends :
      (evbuf ele1 ele2 ele3 : List ℕ)
      → overruns reader evbuf ≡ false
      → Ends opt core key (dispatch_source opt core reader key evbuf ele1 ele2 ele3)
  unfolding dispatch_source
  dispatch_source-Ends evbuf ele1 ele2 ele3 short =
      Ends-if (nothing ele3) _ _
        (Ends-if (nothing ele2) _ _
          (Ends-if (nothing ele1) _ _ (inl refl) (
            Ends-if (is_http ele1) _ _ (inl refl)
              (source-Ends opt core key reader evbuf ele1 [] short)))
          (Ends-if (is_http ele2) _ _ (source-Ends opt core key reader evbuf ele1 [] short)
            (source-Ends opt core key reader evbuf ele2 ele1 short)))
        (Ends-if (is_http ele3) _ _ (source-Ends opt core key reader evbuf ele2 ele1 short)
          (inl refl))

  dispatch-Ends :
      (evbuf header : List ℕ)
      → overruns reader evbuf ≡ false
      → Ends opt core key (dispatch opt core reader key evbuf header)
  unfolding dispatch
  dispatch-Ends evbuf header short =
      let ele = elements 4 header in
      Ends-if (same (get_or ele 0 []) source_text) _ _
        (dispatch_source-Ends evbuf (get_or ele 1 []) (get_or ele 2 []) (get_or ele 3 []) short)
        (Ends-if (is_http (get_or ele 2 [])) _ _
          (Ends-if (same (get_or ele 0 []) get_text) _ _
            (get-Ends opt core key reader evbuf (get_or ele 1 []) short)
            (Ends-if (same (get_or ele 0 []) post_text) _ _
              (post-Ends opt core key reader evbuf (get_or ele 1 []) short) (inl refl)))
          (inl refl))

  header-Ends :
      (line : Option (List ℕ × List ℕ))
      → ((l : List ℕ × List ℕ) → line ≡ some l → overruns reader l.1 ≡ false)
      → Ends opt core key (process_header opt core reader key line)
  unfolding process_header
  header-Ends none short = inl refl
  header-Ends (some l) short =
      Ends-if _ _ _ (inl refl) (dispatch-Ends l.1 (c_string l.0) (short l refl))

-- process_bev_request always ends with exactly one effect after it has stopped to read and has
-- deleted the timer, and that one lets no connection be lost or handled twice: the connection is
-- deleted; or its user is to be verified, as a base only where bases may log in and for a mount point
-- that is neither a nearest one nor an alias, as a rover only where rovers may and for a mount point
-- that is not empty, with the kind of session that the mount point asks for, and for the source list
-- only where that is given out and without a mount point; or the source list's session is asked for,
-- under the same conditions. The mount point of a base or a rover has valid characters alone. The
-- condition is that the token of the Authorization has 255 characters at most.
pub process_bev_request-disposes :
    (opt : ListenerOpt) (core : Mounts) (key : String) (reader : Reader) (evbuf : List ℕ)
    → ((line : List ℕ × List ℕ)
        → first_line opt core reader key evbuf ≡ some line
        → overruns reader line.1 ≡ false)
    → (e : ListenerEffect) × ((process_bev_request opt core reader key evbuf
          ≡ value (stop_reading ∷ del_timer key ∷ e ∷ []))
        × (disposes opt core key e ≡ true))
unfolding process_bev_request
process_bev_request-disposes opt core key reader evbuf short =
    elim (header-Ends opt core key reader (first_line opt core reader key evbuf) short) [
      | inl e ↦ (del_bev key, (rw (e, process_bev_request) refl, str_eq_self key))
      | inr d ↦ (d.0, (rw (d.1.0, process_bev_request) refl, d.1.1))
    ]
