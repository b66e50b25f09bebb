-- ===== src/Engine/Relay.antt =====
-- What one relay does with packets, and how the statistics count it.
use secure_tunnel_cpp.Prelude.{
  ℕ, zero, suc, ◌+◌, ◌-◌, ◌%◌, ◌^◌, ◌≤◌, ◌<◌, ◌≡◌, ◌≢◌, ◌⊎◌, true, false, some, [], arith, length,
  is_empty,
}
use secure_tunnel_cpp.Session.{handshaking, established, can_send_data}
use secure_tunnel_cpp.Config.{Role}
use secure_tunnel_cpp.RelayStats.{add_u64}
use secure_tunnel_cpp.Engine.{Parts, TunnelEngine}
use secure_tunnel_cpp.Engine.Forward.{
  forward_inbound_batch, inbound_loop, inbound_round, relay_batch, forward_outbound,
}

module _ (w : Parts) where
  -- No packet is touched outside an established session: where the session is not established, and
  -- the engine is not a server that waits for a client, `relay_batch` returns false and changes
  -- nothing.
  pub relay_needs_session :
      (e : TunnelEngine w) (n : ℕ)
      → e.session.state ≢ established
      → (e.config.role ≡ Role.client) ⊎ (e.session.state ≢ handshaking)
      → relay_batch w e n ≡ (e, false)
  unfolding relay_batch can_send_data
  relay_needs_session e n h k = grind arith

  -- The four branches of `forward_outbound` in an established session, for the packet `p` that the
  -- interface hands over, its frame and the transport's answer.
  abbrev pub Forwarded : TunnelEngine w → w.inner.State → Type 0
  Forwarded e i =
      let p = (w.vif.read_packet e.virtual_interface).1 in
      let frame = (w.inner.seal i p []).1 in
      let sealed = (w.inner.seal i p []).2 in
      let sent = w.tr.send_payload e.transport frame in
      let r = forward_outbound w e in
      let before = e.relay_stats in
      ((is_empty p ≡ true)
        × (r.1 ≡ true)
        × (r.0.transport ≡ e.transport)
        × (r.0.relay_stats ≡ before))
      ⊎ (((is_empty p ≡ false)
            × (sealed ≡ false)
            × (r.1 ≡ false)
            × (r.0.transport ≡ e.transport)
            × (r.0.relay_stats ≡ record before { seal_errors = add_u64 before.seal_errors 1 }))
          ⊎ (((is_empty p ≡ false)
                × (sealed ≡ true)
                × (sent.1 ≡ false)
                × (r.1 ≡ false)
                × (r.0.transport ≡ sent.0)
                × (r.0.relay_stats
                    ≡ record before { transport_errors = add_u64 before.transport_errors 1 }))
              ⊎ ((is_empty p ≡ false)
                  × (sealed ≡ true)
                  × (sent.1 ≡ true)
                  × (r.1 ≡ true)
                  × (r.0.transport ≡ sent.0)
                  × (r.0.relay_stats ≡ record before {
                    outbound_packets = add_u64 before.outbound_packets 1;
                    outbound_bytes = add_u64 before.outbound_bytes (length p);
                  }))))

  -- `forward_outbound` in an established session, on each branch. No packet: nothing is sent or
  -- counted. Sealing fails: nothing is sent, one seal error. Sending fails: one transport error.
  -- Else the frame is sent, and one packet and its bytes are counted. It returns false exactly on
  -- the two failures.
  pub forward_outbound_outcome :
      (e : TunnelEngine w) (i : w.inner.State)
      → e.session.state ≡ established
      → e.inner_session ≡ some i
      → Forwarded e i
  unfolding forward_outbound can_send_data
  forward_outbound_outcome e i h k = ground arith

  round_counts :
      (e : TunnelEngine w)
      → (((inbound_round w e).1 ≡ true)
          × ((inbound_round w e).0.relay_stats.inbound_packets
              ≡ add_u64 e.relay_stats.inbound_packets 1))
        ⊎ (((inbound_round w e).1 ≡ false)
            × ((inbound_round w e).0.relay_stats.inbound_packets ≡ e.relay_stats.inbound_packets))
  unfolding inbound_round
  round_counts e = ground arith

  loop_counts :
      (n : ℕ) (e : TunnelEngine w) (k : ℕ)
      → e.relay_stats.inbound_packets < 2 ^ 64
      → (k ≤ (inbound_loop w n e k).1)
        × ((inbound_loop w n e k).1 ≤ k + n)
        × ((inbound_loop w n e k).0.relay_stats.inbound_packets
            ≡ (e.relay_stats.inbound_packets + ((inbound_loop w n e k).1 - k)) % 2 ^ 64)
  unfolding inbound_loop
  loop_counts zero e k h = (omega arith, omega arith, omega arith)
  loop_counts (suc n) e k h =
      ground (arith, round_counts e, loop_counts n (inbound_round w e).0 (k + 1))

  -- The inbound half handles at most `max_packets` packets, and `inbound_packets` grows by exactly
  -- the number that it returns (modulo 2^64), however the batch ends.
  pub forward_inbound_batch_counts :
      (e : TunnelEngine w) (max_packets : ℕ)
      → e.relay_stats.inbound_packets < 2 ^ 64
      → ((forward_inbound_batch w e max_packets).1 ≤ max_packets)
        × ((forward_inbound_batch w e max_packets).0.relay_stats.inbound_packets
            ≡ (e.relay_stats.inbound_packets + (forward_inbound_batch w e max_packets).1) % 2 ^ 64)
  unfolding forward_inbound_batch
  forward_inbound_batch_counts e n h = ground (arith, loop_counts n e 0)
