-- ===== src/Quic/Transport/Channel.antt =====
-- The callbacks of src/quic_secure_transport.cpp, and the data channel: `open_data_channel`,
-- `send_payload`, `try_receive_payload`. A callback is an `Event` that the library delivers; the
-- events of handles that the transport has left behind go to objects that nothing reads, and are
-- not modelled. As in Open.antt, `waited` is what the callbacks did while the code waited.
use secure_tunnel_cpp.Prelude.{
  ℕ, Bool, true, false, ◌||◌, not, Option, none, some, List, [], ◌∷◌, ltb, if◌then◌else◌, length,
  Bytes, is_empty,
}
use secure_tunnel_cpp.Config.{Role, is_server, is_client}
use secure_tunnel_cpp.Quic.Framing.{frame_buffer, append_received_bytes}
use secure_tunnel_cpp.Quic.Api.{MsQuic}
use secure_tunnel_cpp.Quic.Transport.{QuicSecureTransport, HandshakeState, StreamChannel, call}
use secure_tunnel_cpp.Quic.Transport.Open.{set_error, with_library, wait_for_handshake}

pub data Event : Type 0 where
  connected : ℕ → Event
  peer_stream_started : ℕ → Event
  shutdown_initiated_by_transport : ℕ → Event
  shutdown_complete : Event
  receive : List Bytes → Event
  send_complete : Event
  new_connection : ℕ → Event

module _ (q : MsQuic) where
  abbrev pub set_channel : QuicSecureTransport q → StreamChannel → QuicSecureTransport q
  set_channel t c = record t { stream_channel = some c }

  -- After `StreamOpen`.
  unfoldable pub start_stream : QuicSecureTransport q → StreamChannel → ℕ → QuicSecureTransport q
  start_stream t c stream =
      let (l, started) = q.stream_start t.global.library stream in
      if not started
      then set_channel (with_library q t (q.stream_close l stream)) (record c { stream = none })
      else set_channel (with_library q t l) (record c { stream = some stream; ready = true })

  unfoldable pub open_client_stream : QuicSecureTransport q → ℕ → QuicSecureTransport q
  open_client_stream t connection = elim (t.stream_channel) [
    | none ↦ t
    | some c ↦
        let (l, stream) = q.stream_open t.global.library connection in
        let t' : QuicSecureTransport q = with_library q t l in
        elim stream [ none ↦ t' | some s ↦ start_stream t' c s ]
  ]

  -- `connection_callback`, for a context with a handshake.
  unfoldable pub connection_callback :
      QuicSecureTransport q → Role → HandshakeState → Event → QuicSecureTransport q
  connection_callback t role h (connected c) =
      let t' : QuicSecureTransport q = record t {
        handshake_state = some (record h { connected = true });
      } in
      if is_client role then open_client_stream t' c else t'
  connection_callback t role h (peer_stream_started s) = elim (t.stream_channel) [
    | none ↦ t
    | some c ↦
        set_channel (call q (λ l. q.set_callback_handler l s) t)
          (record c { stream = some s; ready = true })
  ]
  connection_callback t role h (shutdown_initiated_by_transport status) =
      if h.connected
      then t
      else record t { handshake_state = some (record h { status = status; failed = true }) }
  connection_callback t role h shutdown_complete = record t {
    handshake_state = some (record h { shutdown_complete = true });
  }
  connection_callback t role h (receive bs) = t
  connection_callback t role h send_complete = t
  connection_callback t role h (new_connection c) = t

  -- `QUIC_STREAM_EVENT_RECEIVE`; the bytes always give a result.
  unfoldable pub receive_bytes :
      QuicSecureTransport q → StreamChannel → List Bytes → QuicSecureTransport q
  receive_bytes t c buffers = elim (append_received_bytes c.received buffers) [
    | none ↦ t
    | some r ↦ set_channel t (record c { received = r })
  ]

  unfoldable pub listener_callback : QuicSecureTransport q → ℕ → QuicSecureTransport q
  listener_callback t c = elim (t.server_context) [
    | none ↦ t
    | some configuration ↦
        let t' : QuicSecureTransport q =
          call q (λ l. q.set_callback_handler l c) (record t { connection = some c }) in
        elim configuration [
          | none ↦ t'
          | some k ↦ call q (λ l. (q.connection_set_configuration l c k).0) t'
        ]
  ]

  -- An event of the connection, where there is a context with a handshake.
  unfoldable pub to_context : QuicSecureTransport q → Event → QuicSecureTransport q
  to_context t e = elim (t.connection_context) [
    | none ↦ t
    | some role ↦ elim (t.handshake_state) [ none ↦ t | some h ↦ connection_callback t role h e ]
  ]

  -- Which callback an event goes to.
  unfoldable pub deliver : QuicSecureTransport q → Event → QuicSecureTransport q
  deliver t (new_connection c) = listener_callback t c
  deliver t (receive buffers) = elim (t.stream_channel) [
    | none ↦ t
    | some c ↦ receive_bytes t c buffers
  ]
  deliver t send_complete = elim (t.stream_channel) [
    | none ↦ t
    | some c ↦ set_channel t (record c { send_complete = true })
  ]
  deliver t e = to_context t e

  unfoldable pub deliver_all : List Event → QuicSecureTransport q → QuicSecureTransport q
  deliver_all [] t = t
  deliver_all (e ∷ es) t = deliver_all es (deliver t e)

  -- `wait_for_stream_ready`; the test is made in the state after the wait.
  unfoldable pub wait_for_stream_ready :
      List Event → QuicSecureTransport q → QuicSecureTransport q × Bool
  wait_for_stream_ready es t = elim (t.stream_channel) [
    | none ↦ set_error q t
    | some c ↦
        let t' = deliver_all es t in
        elim (t'.stream_channel) [
          | none ↦ set_error q t'
          | some d ↦ if d.ready then (t', true) else set_error q t'
        ]
  ]

  -- From the wait for the stream on.
  unfoldable pub await_stream : List Event → QuicSecureTransport q → QuicSecureTransport q × Bool
  await_stream es t =
      let (t', ready) = wait_for_stream_ready es t in
      if not ready
      then (if is_server t'.config.role then record t' { last_error = false } else t', false)
      else (record t' { data_channel_open = true }, true)

  -- The events of the two waits.
  unfoldable pub open_data_channel :
      List Event → List Event → QuicSecureTransport q → QuicSecureTransport q × Bool
  open_data_channel es es' t =
      if t.data_channel_open
      then (t, true)
      else if is_server t.config.role
      then (let (t', done) = wait_for_handshake q (deliver_all es) t in
          if not done then (record t' { last_error = false }, false) else await_stream es' t')
      else await_stream es' t

  -- A wait for `send_complete`, and its test.
  unfoldable pub wait_for_send : List Event → QuicSecureTransport q → QuicSecureTransport q × Bool
  wait_for_send es t =
      let t' = deliver_all es t in
      elim (t'.stream_channel) [
        | none ↦ set_error q t'
        | some c ↦ if c.send_complete then (t', true) else set_error q t'
      ]

  -- Marks a send as pending or complete.
  abbrev pub set_send_complete : Bool → QuicSecureTransport q → QuicSecureTransport q
  set_send_complete b t = elim (t.stream_channel) [
    | none ↦ t
    | some c ↦ set_channel t (record c { send_complete = b })
  ]

  -- `StreamSend` on the stream that the channel has after the wait, and the wait for its end.
  unfoldable pub send_on :
      List Event → QuicSecureTransport q → ℕ → Bytes → QuicSecureTransport q × Bool
  send_on es t stream buffer =
      let (l, sent) = q.stream_send t.global.library stream buffer in
      let t' : QuicSecureTransport q = set_send_complete false (with_library q t l) in
      if not sent then set_error q (set_send_complete true t') else wait_for_send es t'

  -- A null stream is refused by the library.
  unfoldable pub send_buffer :
      List Event → QuicSecureTransport q → Bytes → QuicSecureTransport q × Bool
  send_buffer es t buffer = elim (t.stream_channel) [
    | none ↦ set_error q t
    | some c ↦ elim (c.stream) [ none ↦ set_error q t | some s ↦ send_on es t s buffer ]
  ]

  unfoldable pub send_payload :
      List Event → List Event → QuicSecureTransport q → Bytes → QuicSecureTransport q × Bool
  send_payload es es' t payload =
      if not t.data_channel_open then set_error q t else elim (t.stream_channel) [
        | none ↦ set_error q t
        | some c ↦ elim (c.stream) [
          | none ↦ set_error q t
          | some s ↦
              if is_empty payload || ltb 65536 (length payload)
              then set_error q t
              else let (t', free) = wait_for_send es t in
                if not free then (t', false) else send_buffer es' t' (frame_buffer payload)
        ]
      ]

  -- The oldest frame of a channel; an empty packet where there is none.
  unfoldable pub pop_frame :
      QuicSecureTransport q → StreamChannel → List Bytes → QuicSecureTransport q × Option Bytes
  pop_frame t c [] = (t, some [])
  pop_frame t c (frame ∷ rest) =
      let r = c.received in
      (set_channel t (record c { received = record r { frames = rest } }), some frame)

  unfoldable pub try_receive_payload : QuicSecureTransport q → QuicSecureTransport q × Option Bytes
  try_receive_payload t =
      if not t.data_channel_open
      then (t, none)
      else elim (t.stream_channel) [ none ↦ (t, none) | some c ↦ pop_frame t c c.received.frames ]
