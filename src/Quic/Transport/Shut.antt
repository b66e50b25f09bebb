-- ===== src/Quic/Transport/Shut.antt =====
-- What `closed_` does to a transport that has been connected.
use secure_tunnel_cpp.Prelude.{◌≡◌, ap, ◌∙◌, true, List, [], ◌∷◌, Bytes}
use secure_tunnel_cpp.Config.{TunnelConfig}
use secure_tunnel_cpp.Quic.Api.{MsQuic}
use secure_tunnel_cpp.Quic.Transport.{QuicSecureTransport, close, reset_for_next_client}
use secure_tunnel_cpp.Quic.Transport.Open.{connect, perform_handshake}
use secure_tunnel_cpp.Quic.Transport.Channel.{
  Event, deliver, deliver_all, open_data_channel, send_payload, try_receive_payload,
}
use secure_tunnel_cpp.Quic.Transport.Closed.{
  close-closed, close_again, reset_again, connect-closed, deliver-closed, perform_handshake-closed,
  open_data_channel-closed, send_payload-closed, try_receive_payload-closed,
}

module _ (q : MsQuic) where
  -- The calls of an owner, with what the library delivers while they wait, and the callbacks.
  pub data Operation : Type 0 where
    connects : TunnelConfig → Operation
    shakes : List Event → Operation
    opens : List Event → List Event → Operation
    sends : List Event → List Event → Bytes → Operation
    receives : Operation
    resets : Operation
    closes : Operation
    delivers : Event → Operation

  pub step : QuicSecureTransport q → Operation → QuicSecureTransport q
  step t (connects config) = (connect q t config).0
  step t (shakes es) = (perform_handshake q (deliver_all q es) t).0
  step t (opens es es') = (open_data_channel q es es' t).0
  step t (sends es es' p) = (send_payload q es es' t p).0
  step t receives = (try_receive_payload q t).0
  step t resets = reset_for_next_client q t
  step t closes = close q t
  step t (delivers e) = deliver q t e

  pub run : QuicSecureTransport q → List Operation → QuicSecureTransport q
  run t [] = t
  run t (o ∷ os) = run (step t o) os

  step-closed :
      (t : QuicSecureTransport q) (o : Operation) → t.closed ≡ true → (step t o).closed ≡ true
  unfolding step
  step-closed t (connects config) h = connect-closed q t config
  step-closed t (shakes es) h = perform_handshake-closed q es t ∙ h
  step-closed t (opens es es') h = open_data_channel-closed q es es' t ∙ h
  step-closed t (sends es es' p) h = send_payload-closed q es es' t p ∙ h
  step-closed t receives h = try_receive_payload-closed q t ∙ h
  step-closed t resets h = ap (λ x. x.closed) (reset_again q t h) ∙ h
  step-closed t closes h = close-closed q t
  step-closed t (delivers e) h = deliver-closed q t e ∙ h

  run-closed :
      (t : QuicSecureTransport q) (os : List Operation) → t.closed ≡ true → (run t os).closed ≡ true
  unfolding run
  run-closed t [] h = h
  run-closed t (o ∷ os) h = run-closed (step t o) os (step-closed t o h)

  -- A transport that has once been told to connect is never closed and never reset again: whatever
  -- its owner does and whatever the library delivers afterwards, `close` and
  -- `reset_for_next_client` change nothing, neither the transport nor the library's state.
  pub never_closed_again :
      (t : QuicSecureTransport q) (config : TunnelConfig) (os : List Operation)
      → (close q (run (connect q t config).0 os) ≡ run (connect q t config).0 os)
        × (reset_for_next_client q (run (connect q t config).0 os) ≡ run (connect q t config).0 os)
  never_closed_again t config os =
      let h = run-closed (connect q t config).0 os (connect-closed q t config) in
      (close_again q _ h, reset_again q _ h)
