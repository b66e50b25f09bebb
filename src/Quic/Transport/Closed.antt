-- ===== src/Quic/Transport/Closed.antt =====
-- No operation of the transport but `close` writes `closed_`.
use secure_tunnel_cpp.Prelude.{ℕ, ◌≡◌, refl, ◌∙◌, Bool, true, false, List, [], ◌∷◌, arith, Bytes}
use secure_tunnel_cpp.Config.{TunnelConfig, Role}
use secure_tunnel_cpp.Quic.Api.{MsQuic}
use secure_tunnel_cpp.Quic.Transport.{
  QuicSecureTransport, HandshakeState, close, reset_for_next_client, close_stream, close_connection,
  close_listener, close_configuration, close_registration, delete_all,
}
use secure_tunnel_cpp.Quic.Transport.Open.{
  connect, perform_handshake, open_registration, ensure_api_open, load_configuration,
  load_credentials, connect_role, start_client, start_server_listener, start_listener, or_close,
  wait_for_handshake, handshake_done, handshake_client,
}
use secure_tunnel_cpp.Quic.Transport.Channel.{
  Event, connected, peer_stream_started, shutdown_initiated_by_transport, shutdown_complete,
  receive, send_complete, new_connection, deliver, deliver_all, open_data_channel, send_payload,
  try_receive_payload, set_send_complete, listener_callback, receive_bytes, connection_callback,
  open_client_stream, start_stream, to_context, await_stream, wait_for_stream_ready, wait_for_send,
  send_buffer, send_on, pop_frame,
}

module _ (q : MsQuic) where
  pub close-closed : (t : QuicSecureTransport q) → (close q t).closed ≡ true
  unfolding close delete_all close_registration close_configuration close_listener close_connection
      close_stream
  close-closed t = ground arith

  pub close_again : (t : QuicSecureTransport q) → t.closed ≡ true → close q t ≡ t
  unfolding close
  close_again t h = rw h refl

  pub reset_again : (t : QuicSecureTransport q) → t.closed ≡ true → reset_for_next_client q t ≡ t
  unfolding reset_for_next_client
  reset_again t h = rw h refl

  open_registration-closed :
      (t : QuicSecureTransport q) → (open_registration q t).0.closed ≡ t.closed
  unfolding open_registration ensure_api_open
  open_registration-closed t = ground arith

  load_configuration-closed :
      (t : QuicSecureTransport q) → (load_configuration q t).0.closed ≡ t.closed
  unfolding load_configuration load_credentials
  load_configuration-closed t = ground arith

  connect_role-closed : (t : QuicSecureTransport q) → (connect_role q t).0.closed ≡ t.closed
  unfolding connect_role start_client start_server_listener start_listener
  connect_role-closed t = ground arith

  or_close-closed :
      (r : QuicSecureTransport q × Bool) (k : QuicSecureTransport q → QuicSecureTransport q × Bool)
      → r.0.closed ≡ true
      → ((t : QuicSecureTransport q) → t.closed ≡ true → (k t).0.closed ≡ true)
      → (or_close q r k).0.closed ≡ true
  or_close-closed (t, true) k h f = f t h
  or_close-closed (t, false) k h f = close-closed t

  -- The steps of `connect` after its first `close`, the last one first.
  abbrev pub third_step : QuicSecureTransport q → QuicSecureTransport q × Bool
  third_step t = or_close q (connect_role q t) (λ t3. (t3, true))

  abbrev pub second_step : QuicSecureTransport q → QuicSecureTransport q × Bool
  second_step t = or_close q (load_configuration q t) third_step

  third_step-closed : (t : QuicSecureTransport q) → t.closed ≡ true → (third_step t).0.closed ≡ true
  third_step-closed t h =
      or_close-closed (connect_role q t) (λ t3. (t3, true)) (connect_role-closed t ∙ h)
        (λ t3 h3. h3)

  second_step-closed :
      (t : QuicSecureTransport q) → t.closed ≡ true → (second_step t).0.closed ≡ true
  second_step-closed t h =
      or_close-closed (load_configuration q t) third_step (load_configuration-closed t ∙ h)
        third_step-closed

  first_step-closed :
      (t : QuicSecureTransport q)
      → t.closed ≡ true
      → (or_close q (open_registration q t) second_step).0.closed ≡ true
  first_step-closed t h =
      or_close-closed (open_registration q t) second_step (open_registration-closed t ∙ h)
        second_step-closed

  pub connect-closed :
      (t : QuicSecureTransport q) (config : TunnelConfig) → (connect q t config).0.closed ≡ true
  unfolding connect
  connect-closed t config = ground (
    arith,
    close-closed t,
    first_step-closed (record (close q t) { config = config }) (close-closed t),
  )

  connection_callback-closed :
      (t : QuicSecureTransport q) (role : Role) (h : HandshakeState) (e : Event)
      → (connection_callback q t role h e).closed ≡ t.closed
  unfolding connection_callback open_client_stream start_stream
  connection_callback-closed t role h (connected c) = ground arith
  connection_callback-closed t role h (peer_stream_started s) = ground arith
  connection_callback-closed t role h (shutdown_initiated_by_transport s) = ground arith
  connection_callback-closed t role h shutdown_complete = refl
  connection_callback-closed t role h (receive bs) = refl
  connection_callback-closed t role h send_complete = refl
  connection_callback-closed t role h (new_connection c) = refl

  to_context-closed : (t : QuicSecureTransport q) (e : Event) → (to_context q t e).closed ≡ t.closed
  unfolding to_context
  to_context-closed t e = grind (arith, connection_callback-closed t)

  pub deliver-closed : (t : QuicSecureTransport q) (e : Event) → (deliver q t e).closed ≡ t.closed
  unfolding deliver listener_callback receive_bytes
  deliver-closed t (new_connection c) = ground arith
  deliver-closed t (receive bs) = ground arith
  deliver-closed t send_complete = ground arith
  deliver-closed t (connected c) = to_context-closed t (connected c)
  deliver-closed t (peer_stream_started s) = to_context-closed t (peer_stream_started s)
  deliver-closed t (shutdown_initiated_by_transport s) =
      to_context-closed t (shutdown_initiated_by_transport s)
  deliver-closed t shutdown_complete = to_context-closed t shutdown_complete

  deliver_all-closed :
      (es : List Event) (t : QuicSecureTransport q) → (deliver_all q es t).closed ≡ t.closed
  unfolding deliver_all
  deliver_all-closed [] t = refl
  deliver_all-closed (e ∷ es) t = deliver_all-closed es (deliver q t e) ∙ deliver-closed t e

  wait_for_handshake-closed :
      (es : List Event) (t : QuicSecureTransport q)
      → (wait_for_handshake q (deliver_all q es) t).0.closed ≡ t.closed
  unfolding wait_for_handshake handshake_done
  wait_for_handshake-closed es t = ground (arith, deliver_all-closed es t)

  handshake_client-closed :
      (es : List Event) (t : QuicSecureTransport q) (n : ℕ)
      → (handshake_client q (deliver_all q es) t n).0.closed ≡ t.closed
  unfolding handshake_client
  handshake_client-closed es t n = grind (arith, wait_for_handshake-closed es)

  pub perform_handshake-closed :
      (es : List Event) (t : QuicSecureTransport q)
      → (perform_handshake q (deliver_all q es) t).0.closed ≡ t.closed
  unfolding perform_handshake
  perform_handshake-closed es t = grind (arith, handshake_client-closed es)

  await_stream-closed :
      (es : List Event) (t : QuicSecureTransport q) → (await_stream q es t).0.closed ≡ t.closed
  unfolding await_stream wait_for_stream_ready
  await_stream-closed es t = ground (arith, deliver_all-closed es t)

  pub open_data_channel-closed :
      (es es' : List Event) (t : QuicSecureTransport q)
      → (open_data_channel q es es' t).0.closed ≡ t.closed
  unfolding open_data_channel
  open_data_channel-closed es es' t = ground (
    arith,
    wait_for_handshake-closed es t,
    await_stream-closed es' t,
    await_stream-closed es' (wait_for_handshake q (deliver_all q es) t).0,
  )

  wait_for_send-closed :
      (es : List Event) (t : QuicSecureTransport q) → (wait_for_send q es t).0.closed ≡ t.closed
  unfolding wait_for_send
  wait_for_send-closed es t = ground (arith, deliver_all-closed es t)

  set_send_complete-closed :
      (b : Bool) (t : QuicSecureTransport q) → (set_send_complete q b t).closed ≡ t.closed
  set_send_complete-closed b t = ground arith

  send_on-closed :
      (es : List Event) (t : QuicSecureTransport q) (s : ℕ) (b : Bytes)
      → (send_on q es t s b).0.closed ≡ t.closed
  unfolding send_on
  send_on-closed es t s b = grind (arith, wait_for_send-closed es, set_send_complete-closed)

  pub send_payload-closed :
      (es es' : List Event) (t : QuicSecureTransport q) (p : Bytes)
      → (send_payload q es es' t p).0.closed ≡ t.closed
  unfolding send_payload send_buffer
  send_payload-closed es es' t p = grind (arith, wait_for_send-closed es t, send_on-closed es')

  pub try_receive_payload-closed :
      (t : QuicSecureTransport q) → (try_receive_payload q t).0.closed ≡ t.closed
  unfolding try_receive_payload pop_frame
  try_receive_payload-closed t = ground arith
