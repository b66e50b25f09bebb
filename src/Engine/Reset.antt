-- ===== src/Engine/Reset.antt =====
-- Ending a connection: `reset_server_session` and `stop`.
use secure_tunnel_cpp.Prelude.{◌≡◌, ◌⊎◌, true, false, arith}
use secure_tunnel_cpp.Session.{SessionState, stopped, connecting, handshaking, transition_to}
use secure_tunnel_cpp.Session.Reset.{reset_to_handshaking_lem}
use secure_tunnel_cpp.Config.{Role}
use secure_tunnel_cpp.Engine.{Parts, TunnelEngine, start}
use secure_tunnel_cpp.Engine.Start.{start_outcome}
use secure_tunnel_cpp.Engine.Loop.{reset_server_session, stop}

module _ (w : Parts) where
  -- The state in which `stop` leaves a session.
  abbrev pub stopped_from : SessionState → SessionState
  stopped_from connecting = connecting
  stopped_from handshaking = handshaking
  stopped_from _ = stopped

  -- `stop` requests the end of the data plane and brings the session to `stopped`, except that a
  -- session that is connecting or handshaking stays where it is; the epoch is kept.
  pub stop_effect :
      (e : TunnelEngine w)
      → ((stop w e).session.state ≡ stopped_from e.session.state)
        × ((stop w e).session.epoch ≡ e.session.epoch)
        × ((stop w e).data_plane_stop_requested ≡ true)
  unfolding stop transition_to
  stop_effect e = ground arith

  -- An engine that is stopped while its session is handshaking, as a server's is while it waits for
  -- a client, cannot be started again.
  pub stopped_server_stays_down :
      (e : TunnelEngine w) → e.session.state ≡ handshaking → (start w (stop w e)).1 ≡ false
  stopped_server_stays_down e h = ground (arith, stop_effect e, start_outcome w (stop w e))

  -- A reset brings a server's session back to `handshaking` from every state, under the same epoch,
  -- and keeps the inner session with its counters, the virtual interface and the statistics; a
  -- client is left as it is.
  pub reset_server_session_effect :
      (e : TunnelEngine w)
      → ((e.config.role ≡ Role.server)
          × ((reset_server_session w e).session.state ≡ handshaking)
          × ((reset_server_session w e).session.epoch ≡ e.session.epoch)
          × ((reset_server_session w e).inner_session ≡ e.inner_session)
          × ((reset_server_session w e).virtual_interface ≡ e.virtual_interface)
          × ((reset_server_session w e).relay_stats ≡ e.relay_stats))
        ⊎ ((e.config.role ≡ Role.client) × (reset_server_session w e ≡ e))
  unfolding reset_server_session
  reset_server_session_effect e = ground (arith, reset_to_handshaking_lem e.session)
