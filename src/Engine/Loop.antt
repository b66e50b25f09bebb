-- ===== src/Engine/Loop.antt =====
-- `reset_server_session`, `run_data_plane_for`, `request_data_plane_stop` and `stop` of
-- src/tunnel_engine.cpp. The clock and the other thread that asks for a stop are a list: one
-- `Signal` for each round that begins before the deadline. Sleeping changes no state.
use secure_tunnel_cpp.Prelude.{
  ℕ, Bool, true, false, ◌&&◌, ◌||◌, not, List, [], ◌∷◌, ltb, if◌then◌else◌,
}
use secure_tunnel_cpp.Session.{
  can_send_data, state_eq, handshaking, established, closing, failed, stopped, reset_to_handshaking,
}
use secure_tunnel_cpp.Config.{is_server}
use secure_tunnel_cpp.Pool.{empty_buffer, release}
use secure_tunnel_cpp.Engine.{Parts, TunnelEngine, ensure_session_ready, enter}
use secure_tunnel_cpp.Engine.Forward.{relay_batch}

-- Whether a stop is requested before the loop's test, and while the round runs.
pub record Signal : Type 0 where
  pub before : Bool
  pub during : Bool

module _ (w : Parts) where
  unfoldable pub request_data_plane_stop : TunnelEngine w → TunnelEngine w
  request_data_plane_stop e = record e { data_plane_stop_requested = true }

  abbrev pub requested : Bool → TunnelEngine w → TunnelEngine w
  requested b e = if b then request_data_plane_stop e else e

  unfoldable pub reset_server_session : TunnelEngine w → TunnelEngine w
  reset_server_session e = if not (is_server e.config.role) then e else record e {
    transport = w.tr.reset_for_next_client e.transport;
    session = (reset_to_handshaking e.session).0;
  }

  -- The batch size that the loop uses.
  abbrev pub batch_size_of : TunnelEngine w → ℕ
  batch_size_of e = let batch = e.config.data_plane.batch_size in if ltb 0 batch then batch else 1

  -- From `relay_batch` to the end of the loop's body; false is `break`.
  unfoldable pub relay_round : TunnelEngine w → Bool → TunnelEngine w × Bool
  relay_round e during =
      let (relayed, done) = relay_batch w e (batch_size_of e) in
      let e' = requested during relayed in
      if done
      then (e', true)
      else if e'.data_plane_stop_requested
      then (e', false)
      else if is_server e'.config.role && state_eq e'.session.state handshaking
      then (e', true)
      else if is_server e'.config.role
      then (reset_server_session e', true)
      else (enter w e' failed, false)

  -- From the second test of `can_send_data` on.
  unfoldable pub wait_or_relay : TunnelEngine w → Bool → TunnelEngine w × Bool
  wait_or_relay e during =
      if can_send_data e.session
      then relay_round e during
      else if is_server e.config.role && not e.data_plane_stop_requested
      then (reset_server_session e, true)
      else (e, false)

  unfoldable pub loop_body : TunnelEngine w → Bool → TunnelEngine w × Bool
  loop_body e during =
      if can_send_data e.session
      then relay_round e during
      else if is_server e.config.role && state_eq e.session.state handshaking
      then (let (e', ready) = ensure_session_ready w e in
          if not ready then (e', true) else wait_or_relay e' during)
      else wait_or_relay e during

  unfoldable pub run_data_plane : List Signal → TunnelEngine w → TunnelEngine w
  run_data_plane [] e = e
  run_data_plane (s ∷ ss) e =
      let e' = requested s.before e in
      let (e'', more) = loop_body e' s.during in
      let rest = run_data_plane ss e'' in
      if e'.data_plane_stop_requested then e' else if more then rest else e''

  -- The two buffers go back to the pool, and are empty after the move.
  release_buffers : TunnelEngine w → TunnelEngine w
  release_buffers e = record e {
    buffer_pool = release (release e.buffer_pool e.scratch_sealed) e.scratch_opened;
    scratch_sealed = empty_buffer;
    scratch_opened = empty_buffer;
  }

  unfoldable pub stop : TunnelEngine w → TunnelEngine w
  unfolding release_buffers
  stop e =
      let requested' : TunnelEngine w = record e { data_plane_stop_requested = true } in
      let leaving =
        if state_eq e.session.state established then enter w requested' closing else requested' in
      let closed : TunnelEngine w = record leaving {
        transport = w.tr.close leaving.transport;
        virtual_interface = w.vif.close (w.vif.clear_client_routing leaving.virtual_interface);
      } in
      let released = release_buffers closed in
      if state_eq released.session.state closing || state_eq released.session.state failed
      then enter w released stopped
      else released
