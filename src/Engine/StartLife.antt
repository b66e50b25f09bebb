-- ===== src/Engine/StartLife.antt =====
-- `start` and `ensure_session_ready` as moves of the abstract machine of Session/Life.antt.
use secure_tunnel_cpp.RelayStats.{reset}
use secure_tunnel_cpp.Prelude.{
  ◌≡◌, sym, subst, ◌⊎◌, inl, inr, Bool, not, Option, none, some, arith, if-both,
}
use secure_tunnel_cpp.Session.{Session, established, failed, handshaking, transition_to, connecting}
use secure_tunnel_cpp.Session.Life.{
  IsWithin, IsWithin-here, IsWithin-trans, IsWithin-le, transition_to-IsWithin,
}
use secure_tunnel_cpp.Engine.{
  Parts, TunnelEngine, enter, start_handshake, start_server, start_client, start_routing,
  ensure_session_ready, ensure_routed, start_connect, acquire, start_with, start_created, start,
}

-- Where the calls between two moves may leave a session.
abbrev EndsIn : Session → Session → Type 0
EndsIn s r = (r ≡ s) ⊎ ((r ≡ (transition_to s failed).0) ⊎ (r ≡ (transition_to s established).0))

EndsIn-IsWithin : {s r : Session} → EndsIn s r → IsWithin 1 s r
EndsIn-IsWithin {s = s} (inl e) = subst (IsWithin 1 s) (sym e) IsWithin-here
EndsIn-IsWithin {s = s} (inr (inl e)) =
    subst (IsWithin 1 s) (sym e) (transition_to-IsWithin s failed)
EndsIn-IsWithin {s = s} (inr (inr e)) =
    subst (IsWithin 1 s) (sym e) (transition_to-IsWithin s established)

module _ (w : Parts) where
  start_client-ends : (e : TunnelEngine w) → EndsIn e.session (start_client w e).0.session
  unfolding start_client start_routing
  start_client-ends e = ground arith

  start_server-ends : (e : TunnelEngine w) → EndsIn e.session (start_server w e).0.session
  unfolding start_server
  start_server-ends e = ground arith

  ensure_session_ready-ends :
      (e : TunnelEngine w) → EndsIn e.session (ensure_session_ready w e).0.session
  unfolding ensure_session_ready ensure_routed
  ensure_session_ready-ends e = ground arith

  -- A step of `start` either stays where it was or goes on from the next state.
  start_handshake-ends :
      (e : TunnelEngine w)
      → ((start_handshake w e).0.session ≡ e.session)
        ⊎ EndsIn (transition_to e.session handshaking).0 (start_handshake w e).0.session
  unfolding start_handshake
  start_handshake-ends e =
      let e' = enter w e handshaking in ground (arith, start_client-ends e', start_server-ends e')

  start_handshake-IsWithin :
      (e : TunnelEngine w) → IsWithin 2 e.session (start_handshake w e).0.session
  start_handshake-IsWithin e = elim (start_handshake-ends e) [
    | inl same ↦ subst (IsWithin 2 e.session) (sym same) IsWithin-here
    | inr on ↦
        IsWithin-trans 1 1 2 (omega arith) (transition_to-IsWithin e.session handshaking)
          (EndsIn-IsWithin on)
  ]

  start_connect-ends :
      (e : TunnelEngine w)
      → ((start_connect w e).0.session ≡ (transition_to e.session failed).0)
        ⊎ ((start_connect w e).0.session
            ≡ (start_handshake w (record e {
              virtual_interface = (w.vif.open' e.virtual_interface e.config.mtu).0;
              transport = (w.tr.connect e.transport e.config).0;
            })).0.session)
  unfolding start_connect
  start_connect-ends e = ground arith

  start_connect-IsWithin : (e : TunnelEngine w) → IsWithin 2 e.session (start_connect w e).0.session
  start_connect-IsWithin e = elim (start_connect-ends e) [
    | inl lost ↦
        subst (IsWithin 2 e.session) (sym lost)
          (IsWithin-le 1 2 (omega arith) (transition_to-IsWithin e.session failed))
    | inr on ↦ subst (IsWithin 2 e.session) (sym on) (start_handshake-IsWithin _)
  ]

  -- The engine with its two buffers.
  abbrev buffered : TunnelEngine w → TunnelEngine w
  buffered e =
      let (pool, sealed) = acquire e.buffer_pool 0 in
      let (pool', opened) = acquire pool 0 in
      record e {
        relay_stats = reset e.relay_stats;
        buffer_pool = pool';
        scratch_sealed = sealed;
        scratch_opened = opened;
      }

  start_with-ends :
      (e : TunnelEngine w)
      → ((start_with w e).0.session ≡ e.session)
        ⊎ ((start_with w e).0.session
            ≡ (start_connect w (enter w (buffered e) connecting)).0.session)
  unfolding start_with
  start_with-ends e = ground arith

  start_with-IsWithin : (e : TunnelEngine w) → IsWithin 3 e.session (start_with w e).0.session
  start_with-IsWithin e = elim (start_with-ends e) [
    | inl same ↦ subst (IsWithin 3 e.session) (sym same) IsWithin-here
    | inr on ↦ subst (IsWithin 3 e.session) (sym on) (
        IsWithin-trans 1 2 3 (omega arith) (transition_to-IsWithin e.session connecting)
          (start_connect-IsWithin (enter w (buffered e) connecting)))
  ]

  start_created-IsWithin :
      (e : TunnelEngine w) (i : Option (w.inner.State))
      → IsWithin 3 e.session (start_created w e i).0.session
  unfolding start_created
  start_created-IsWithin e none = IsWithin-here
  start_created-IsWithin e (some i) = start_with-IsWithin (record e { inner_session = some i })

  pub start-IsWithin : (e : TunnelEngine w) → IsWithin 3 e.session (start w e).0.session
  unfolding start
  start-IsWithin e =
      if-both (λ (r : TunnelEngine w × Bool). IsWithin 3 e.session r.0.session)
        (not (w.is_valid e.config)) IsWithin-here (start_created-IsWithin e _)

  pub ensure_session_ready-IsWithin :
      (e : TunnelEngine w) → IsWithin 1 e.session (ensure_session_ready w e).0.session
  ensure_session_ready-IsWithin e = EndsIn-IsWithin (ensure_session_ready-ends e)
