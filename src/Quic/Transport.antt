-- ===== src/Quic/Transport.antt =====
-- The class `QuicSecureTransport` of src/quic_secure_transport.cpp: its state, `close` and
-- `reset_for_next_client`. The objects it owns by pointer are fields, `none` for a null pointer;
-- the back pointers in the two contexts go to these objects as long as the contexts are there.
-- The state of the library and of src/msquic_api.cpp is a field too. `msquic_` and `api_open_`
-- change together and are one field. An error is whether the text is not empty.
pub mod Open
pub mod Channel
pub mod Closed
pub mod Shut
pub mod Configured
pub mod Ready
pub mod Delivery
pub mod Send
use secure_tunnel_cpp.Prelude.{
  ℕ, zero, suc, ◌+◌, ◌-◌, ◌*◌, ◌/◌, ◌%◌, ◌^◌, ◌≤◌, ◌<◌, min, max, bit_and, ◌≡◌, refl, sym, ap, ◌∙◌,
  subst, ◌≢◌, ◌↔◌, ◌⊎◌, inl, inr, Bool, true, false, ◌&&◌, ◌||◌, not, Option, none, some, List, [],
  ◌∷◌, ◌++◌, map, append-nil, append_assoc, arith, ltb, leb, ◌==◌, if◌then◌else◌, ltb→lt, lt→ltb,
  leb→le, ltb→le, le→ltb, ==_iff, ==_refl, Bool-cases, Option-cases, length, get_or, take, drop,
  length-append, length-take, length-drop, take-append, drop-append, take_all, take-append_drop,
  take_prefix, drop_prefix, drop-drop, All, All-append, All-take, All-drop, Bytes, IsByte, codes,
  is_empty, text_eq, text_eq_sound, text_eq_refl,
}
use secure_tunnel_cpp.Config.{TunnelConfig, Role, is_server, is_client}
use secure_tunnel_cpp.Quic.Framing.{Received, nothing_received}
use secure_tunnel_cpp.Quic.Api.{MsQuic, MsQuicApi, Credentials, release}

pub record HandshakeState : Type 0 where
  pub connected : Bool
  pub failed : Bool
  pub shutdown_complete : Bool
  pub status : ℕ

abbrev pub no_handshake : HandshakeState
no_handshake = record { connected = false; failed = false; shutdown_complete = false; status = 0 }

-- `stream` is there as long as `msquic` is.
pub record StreamChannel : Type 0 where
  pub received : Received
  pub ready : Bool
  pub send_complete : Bool
  pub stream : Option ℕ

abbrev pub new_channel : StreamChannel
new_channel = record {
  received = nothing_received;
  ready = false;
  send_complete = true;
  stream = none;
}

module _ (q : MsQuic) where
  pub record QuicSecureTransport : Type 0 where
    pub global : MsQuicApi q
    pub config : TunnelConfig
    pub last_error : Bool
    pub api_open : Bool
    pub registration : Option ℕ
    pub configuration : Option ℕ
    pub connection : Option ℕ
    pub listener : Option ℕ
    pub handshake_state : Option HandshakeState
    pub server_context : Option (Option ℕ)
    pub stream_channel : Option StreamChannel
    pub connection_context : Option Role
    pub stored_credentials : Option Credentials
    pub listener_started : Bool
    pub data_channel_open : Bool
    pub closed : Bool

  -- A call of the library that gives nothing back.
  abbrev pub call : (q.State → q.State) → QuicSecureTransport → QuicSecureTransport
  call f t = let g = t.global in record t { global = record g { library = f g.library } }

  -- `SetCallbackHandler(stream, nullptr, nullptr)` and `StreamClose`, where there is a stream.
  abbrev pub close_channel_stream : StreamChannel → QuicSecureTransport → QuicSecureTransport
  close_channel_stream c t = elim (c.stream) [
    | none ↦ t
    | some s ↦ record (call (λ l. q.stream_close (q.set_callback_handler l s) s) t) {
      stream_channel = some (record c { stream = none });
    }
  ]

  unfoldable pub close_stream : QuicSecureTransport → QuicSecureTransport
  close_stream t = elim (t.stream_channel) [
    | none ↦ t
    | some c ↦ if t.api_open then close_channel_stream c t else t
  ]

  -- The connection of `close`; it waits at most 2 s for the shutdown, whose end is not asked for.
  unfoldable pub close_connection : QuicSecureTransport → QuicSecureTransport
  close_connection t = elim (t.connection) [
    | none ↦ t
    | some c ↦
        if not t.api_open
        then t
        else let quiet = call (λ l. q.set_callback_handler l c) t in
          let down : QuicSecureTransport = elim (t.handshake_state) [
            | none ↦ quiet
            | some h ↦ call (λ l. q.connection_shutdown l c) quiet
          ] in
          record (call (λ l. q.connection_close l c) down) { connection = none }
  ]

  unfoldable pub close_listener : QuicSecureTransport → QuicSecureTransport
  close_listener t = elim (t.listener) [
    | none ↦ t
    | some n ↦
        if not t.api_open
        then t
        else record (if t.listener_started then call (λ l. q.listener_close l n) t else t) {
          listener = none;
          listener_started = false;
        }
  ]

  unfoldable pub close_configuration : QuicSecureTransport → QuicSecureTransport
  close_configuration t = elim (t.configuration) [
    | none ↦ t
    | some c ↦
        if not t.api_open
        then t
        else record (call (λ l. q.configuration_close l c) t) { configuration = none }
  ]

  unfoldable pub close_registration : QuicSecureTransport → QuicSecureTransport
  close_registration t = elim (t.registration) [
    | none ↦ t
    | some r ↦
        if not t.api_open
        then t
        else record (call (λ l. q.registration_close l r) t) { registration = none }
  ]

  -- The five `delete`s, and the library's release.
  unfoldable pub delete_all : QuicSecureTransport → QuicSecureTransport
  delete_all t =
      let emptied : QuicSecureTransport = record t {
        handshake_state = none;
        server_context = none;
        connection_context = none;
        stream_channel = none;
        stored_credentials = none;
        last_error = false;
      } in
      if t.api_open
      then record emptied { global = release q t.global; api_open = false }
      else emptied

  unfoldable pub close : QuicSecureTransport → QuicSecureTransport
  close t =
      if t.closed
      then t
      else delete_all (
          close_registration (
            close_configuration (
              close_listener (
                close_connection
                  (close_stream (record t { closed = true; data_channel_open = false }))))))

  -- The channel in `reset_for_next_client`: the queue is cleared, what is left of a frame stays.
  unfoldable pub reset_channel : QuicSecureTransport → QuicSecureTransport
  reset_channel t =
      if not t.api_open
      then t
      else let t' = close_stream t in
        elim (t'.stream_channel) [
          | none ↦ t'
          | some c ↦
              let r = c.received in
              record t' {
                stream_channel = some (record c {
                  received = record r { frames = [] };
                  ready = false;
                  send_complete = true;
                });
              }
        ]

  unfoldable pub reset_connection : QuicSecureTransport → QuicSecureTransport
  reset_connection t = elim (t.connection) [
    | none ↦ t
    | some c ↦
        if not t.api_open
        then t
        else record (call (λ l. q.connection_close (q.set_callback_handler l c) c) t) {
          connection = none;
        }
  ]

  unfoldable pub reset_for_next_client : QuicSecureTransport → QuicSecureTransport
  reset_for_next_client t =
      if t.closed || (not (is_server t.config.role) || not t.listener_started)
      then t
      else let t' = reset_connection (reset_channel (record t { data_channel_open = false })) in
        record t' {
          handshake_state = elim (t'.handshake_state) [ none ↦ none | some h ↦ some no_handshake ];
        }
