-- ===== src/Engine/Forward.antt =====
-- The data path of src/tunnel_engine.cpp: `forward_outbound`, `forward_inbound_batch` and
-- `relay_batch`. Every way out of the inbound loop returns the number of packets written so far.
use secure_tunnel_cpp.Prelude.{
  ℕ, zero, suc, ◌+◌, max, Bool, true, false, ◌&&◌, ◌||◌, not, none, some, [], ltb, if◌then◌else◌,
  length, Bytes, is_empty,
}
use secure_tunnel_cpp.Session.{can_send_data, state_eq, handshaking}
use secure_tunnel_cpp.Config.{is_server}
use secure_tunnel_cpp.RelayStats.{add_u64}
use secure_tunnel_cpp.Pool.{Buffer, clear}
use secure_tunnel_cpp.Engine.{Parts, TunnelEngine, ensure_session_ready}

-- A buffer that a session has written.
abbrev pub fill : Buffer → Bytes → Buffer
fill b out = record { contents = out; capacity = max b.capacity (length out) }

module _ (w : Parts) where
  abbrev count_seal_error : TunnelEngine w → TunnelEngine w
  count_seal_error e =
      let s = e.relay_stats in
      record e { relay_stats = record s { seal_errors = add_u64 s.seal_errors 1 } }

  abbrev count_open_error : TunnelEngine w → TunnelEngine w
  count_open_error e =
      let s = e.relay_stats in
      record e { relay_stats = record s { open_errors = add_u64 s.open_errors 1 } }

  abbrev count_transport_error : TunnelEngine w → TunnelEngine w
  count_transport_error e =
      let s = e.relay_stats in
      record e { relay_stats = record s { transport_errors = add_u64 s.transport_errors 1 } }

  abbrev count_outbound : TunnelEngine w → ℕ → TunnelEngine w
  count_outbound e n =
      let s = e.relay_stats in
      record e {
        relay_stats = record s {
          outbound_packets = add_u64 s.outbound_packets 1;
          outbound_bytes = add_u64 s.outbound_bytes n;
        };
      }

  abbrev count_inbound : TunnelEngine w → ℕ → TunnelEngine w
  count_inbound e n =
      let s = e.relay_stats in
      record e {
        relay_stats = record s {
          inbound_packets = add_u64 s.inbound_packets 1;
          inbound_bytes = add_u64 s.inbound_bytes n;
        };
      }

  -- A packet that is there is sealed and sent.
  outbound_packet : TunnelEngine w → w.inner.State → Bytes → TunnelEngine w × Bool
  outbound_packet e i packet =
      let (i', out, sealed) = w.inner.seal i packet [] in
      let e' : TunnelEngine w = record e {
        inner_session = some i';
        scratch_sealed = fill (clear e.scratch_sealed) out;
      } in
      if not sealed
      then (count_seal_error e', false)
      else let (t, sent) = w.tr.send_payload e'.transport out in
        let e'' : TunnelEngine w = record e' { transport = t } in
        if not sent
        then (count_transport_error e'', false)
        else (count_outbound e'' (length packet), true)

  outbound_ready : TunnelEngine w → w.inner.State → TunnelEngine w × Bool
  unfolding outbound_packet
  outbound_ready e i =
      let (v, packet) = w.vif.read_packet e.virtual_interface in
      let e' : TunnelEngine w = record e { virtual_interface = v } in
      if is_empty packet then (e', true) else outbound_packet e' i packet

  unfoldable pub forward_outbound : TunnelEngine w → TunnelEngine w × Bool
  unfolding outbound_ready
  forward_outbound e =
      if not (can_send_data e.session)
      then (e, false)
      else elim (e.inner_session) [ none ↦ (e, false) | some i ↦ outbound_ready e i ]

  -- A frame that is there is opened and written; true means that the loop goes on.
  inbound_frame : TunnelEngine w → w.inner.State → Bytes → TunnelEngine w × Bool
  inbound_frame e i received =
      let (i', out, opened) = w.inner.open' i received [] in
      let e' : TunnelEngine w = record e {
        inner_session = some i';
        scratch_opened = fill (clear e.scratch_opened) out;
      } in
      if not opened || is_empty out
      then (count_open_error e', false)
      else let (v, written) = w.vif.write_packet e'.virtual_interface out in
        let e'' : TunnelEngine w = record e' { virtual_interface = v } in
        if not written
        then (count_transport_error e'', false)
        else (count_inbound e'' (length out), true)

  inbound_step : TunnelEngine w → w.inner.State → TunnelEngine w × Bool
  unfolding inbound_frame
  inbound_step e i =
      let (t, received) = w.tr.try_receive_payload e.transport in
      let e' : TunnelEngine w = record e { transport = t } in
      elim received [
        | none ↦ (e', false)
        | some c ↦ if is_empty c then (e', false) else inbound_frame e' i c
      ]

  unfoldable pub inbound_round : TunnelEngine w → TunnelEngine w × Bool
  unfolding inbound_step
  inbound_round e = elim (e.inner_session) [ none ↦ (e, false) | some i ↦ inbound_step e i ]

  -- `rounds` is `max_packets - i`.
  unfoldable pub inbound_loop : ℕ → TunnelEngine w → ℕ → TunnelEngine w × ℕ
  inbound_loop zero e processed = (e, processed)
  inbound_loop (suc rounds) e processed =
      let (e', more) = inbound_round e in
      let rest = inbound_loop rounds e' (processed + 1) in if more then rest else (e', processed)

  unfoldable pub forward_inbound_batch : TunnelEngine w → ℕ → TunnelEngine w × ℕ
  forward_inbound_batch e max_packets =
      if not (can_send_data e.session) then (e, 0) else inbound_loop max_packets e 0

  unfoldable pub relay_ready : TunnelEngine w → ℕ → TunnelEngine w × Bool
  relay_ready e batch_size =
      let s = e.relay_stats in
      let counted : TunnelEngine w = record e {
        relay_stats = record s { relay_iterations = add_u64 s.relay_iterations 1 };
      } in
      let (e', sent) = forward_outbound counted in
      if not sent
      then (e', false)
      else ((forward_inbound_batch e' (if ltb 0 batch_size then batch_size else 1)).0, true)

  unfoldable pub relay_batch : TunnelEngine w → ℕ → TunnelEngine w × Bool
  relay_batch e batch_size =
      if can_send_data e.session
      then relay_ready e batch_size
      else if not (is_server e.config.role && state_eq e.session.state handshaking)
      then (e, false)
      else let e' = (ensure_session_ready w e).0 in
        if not (can_send_data e'.session) then (e', true) else relay_ready e' batch_size

  unfoldable pub relay_once : TunnelEngine w → TunnelEngine w × Bool
  relay_once e = relay_batch e 1
