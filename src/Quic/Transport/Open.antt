-- ===== src/Quic/Transport/Open.antt =====
-- `connect` and `perform_handshake` of src/quic_secure_transport.cpp. A wait on a condition
-- variable ends in a state that other steps have made: `waited` stands for what the callbacks did
-- to the transport meanwhile.
use secure_tunnel_cpp.Prelude.{
  ℕ, Bool, true, false, ◌||◌, not, Option, none, some, ◌==◌, if◌then◌else◌, length, is_empty,
}
use secure_tunnel_cpp.Config.{TunnelConfig, is_client}
use secure_tunnel_cpp.Quic.Api.{MsQuic, Credentials, acquire}
use secure_tunnel_cpp.Quic.Thumbprint.{decode_hex_buffer}
use secure_tunnel_cpp.Quic.Transport.{QuicSecureTransport, close, no_handshake, new_channel}

module _ (q : MsQuic) where
  abbrev pub set_error : QuicSecureTransport q → QuicSecureTransport q × Bool
  set_error t = (record t { last_error = true }, false)

  -- The library's state after a call.
  abbrev pub with_library : QuicSecureTransport q → q.State → QuicSecureTransport q
  with_library t l = let g = t.global in record t { global = record g { library = l } }

  unfoldable pub ensure_api_open : QuicSecureTransport q → QuicSecureTransport q × Bool
  ensure_api_open t =
      if t.api_open
      then (t, true)
      else let (g, acquired) = acquire q t.global in
        let t' : QuicSecureTransport q = record t { global = g } in
        if not acquired then set_error t' else (record t' { api_open = true }, true)

  unfoldable pub open_registration : QuicSecureTransport q → QuicSecureTransport q × Bool
  open_registration t =
      let (t', opened) = ensure_api_open t in
      if not opened
      then (t', false)
      else let (l, registration) = q.registration_open t'.global.library in
        let t'' : QuicSecureTransport q = with_library t' l in
        elim registration [
          | none ↦ set_error t''
          | some r ↦ (record t'' { registration = some r }, true)
        ]

  -- The credentials; `none` for a thumbprint that is refused.
  unfoldable pub credentials_of : TunnelConfig → Option Credentials
  credentials_of config =
      if is_client config.role
      then some (Credentials.client_credentials config.quic.insecure)
      else if not (is_empty config.quic.cert_hash)
      then elim (decode_hex_buffer config.quic.cert_hash 20) [
        | none ↦ none
        | some hash ↦ if length hash == 20 then some (Credentials.hash_store hash) else none
      ]
      else some (Credentials.certificate_file config.quic.cert_file config.quic.key_file)

  -- `ConfigurationLoadCredential`; a configuration that is not stored stays open in the library.
  unfoldable pub load_credentials : QuicSecureTransport q → ℕ → QuicSecureTransport q × Bool
  load_credentials t configuration = elim (credentials_of t.config) [
    | none ↦ set_error (record t { stored_credentials = some Credentials.no_credentials })
    | some c ↦
        let (l, loaded) = q.configuration_load_credential t.global.library configuration c in
        let t' : QuicSecureTransport q = record (with_library t l) {
          stored_credentials = some c;
        } in
        if not loaded
        then set_error t'
        else (record t' { configuration = some configuration }, true)
  ]

  unfoldable pub load_configuration : QuicSecureTransport q → QuicSecureTransport q × Bool
  load_configuration t = elim (t.registration) [
    | none ↦ set_error t
    | some r ↦
        let (l, configuration) =
          q.configuration_open t.global.library r t.config.role t.config.quic in
        let t' : QuicSecureTransport q = with_library t l in
        elim configuration [ none ↦ set_error t' | some c ↦ load_credentials t' c ]
  ]

  -- The objects that `start_client` and `start_server_listener` make first.
  abbrev pub with_objects : QuicSecureTransport q → QuicSecureTransport q
  with_objects t = record t {
    handshake_state = some no_handshake;
    stream_channel = some new_channel;
    connection_context = some t.config.role;
  }

  unfoldable pub start_client : QuicSecureTransport q → ℕ → QuicSecureTransport q × Bool
  start_client t registration =
      let (l, connection) = q.connection_open t.global.library registration in
      let t' : QuicSecureTransport q = with_library (with_objects t) l in
      elim connection [ none ↦ set_error t' | some c ↦ (record t' { connection = some c }, true) ]

  -- After `ListenerOpen`.
  unfoldable pub start_listener : QuicSecureTransport q → ℕ → QuicSecureTransport q × Bool
  start_listener t listener =
      let (l, started) =
        q.listener_start t.global.library listener t.config.quic.alpn t.config.port in
      if not started
      then set_error (with_library t (q.listener_close l listener))
      else (record (with_library t l) { listener = some listener; listener_started = true }, true)

  unfoldable pub start_server_listener : QuicSecureTransport q → ℕ → QuicSecureTransport q × Bool
  start_server_listener t registration =
      let (l, listener) = q.listener_open t.global.library registration in
      let t' : QuicSecureTransport q = record (with_library (with_objects t) l) {
        server_context = some t.configuration;
      } in
      elim listener [ none ↦ set_error t' | some n ↦ start_listener t' n ]

  -- The role's part of `connect`, on the registration that `open_registration` has stored.
  unfoldable pub connect_role : QuicSecureTransport q → QuicSecureTransport q × Bool
  connect_role t = elim (t.registration) [
    | none ↦ set_error t
    | some r ↦ if is_client t.config.role then start_client t r else start_server_listener t r
  ]

  -- `close(); return false;` where a step has failed.
  abbrev pub or_close :
      QuicSecureTransport q × Bool
      → (QuicSecureTransport q → QuicSecureTransport q × Bool)
      → QuicSecureTransport q × Bool
  or_close (t, true) k = k t
  or_close (t, false) k = (close q t, false)

  unfoldable pub connect : QuicSecureTransport q → TunnelConfig → QuicSecureTransport q × Bool
  connect t config =
      let t' : QuicSecureTransport q = record (close q t) { config = config } in
      if not config.prefer_quic
      then set_error t'
      else or_close (open_registration t') (λ t1.
        or_close (load_configuration t1) (λ t2. or_close (connect_role t2) (λ t3. (t3, true))))

  -- The test after the wait of `wait_for_handshake`.
  unfoldable pub handshake_done : QuicSecureTransport q → QuicSecureTransport q × Bool
  handshake_done t = elim (t.handshake_state) [
    | none ↦ set_error t
    | some h ↦
        if not (h.connected || h.failed)
        then set_error t
        else if h.failed
        then set_error t
        else (t, h.connected)
  ]

  -- `waited` is applied only where there is a handshake to wait for.
  unfoldable pub wait_for_handshake :
      (QuicSecureTransport q → QuicSecureTransport q)
      → QuicSecureTransport q
      → QuicSecureTransport q × Bool
  wait_for_handshake waited t = elim (t.handshake_state) [
    | none ↦ set_error t
    | some h ↦ handshake_done (waited t)
  ]

  unfoldable pub handshake_client :
      (QuicSecureTransport q → QuicSecureTransport q)
      → QuicSecureTransport q
      → ℕ
      → QuicSecureTransport q × Bool
  handshake_client waited t configuration = elim (t.connection) [
    | none ↦ set_error t
    | some c ↦
        let (l, started) =
          q.connection_start t.global.library c configuration t.config.endpoint t.config.port in
        let t' : QuicSecureTransport q = with_library t l in
        if not started then set_error t' else wait_for_handshake waited t'
  ]

  unfoldable pub perform_handshake :
      (QuicSecureTransport q → QuicSecureTransport q)
      → QuicSecureTransport q
      → QuicSecureTransport q × Bool
  perform_handshake waited t = elim (t.registration) [
    | none ↦ set_error t
    | some r ↦ elim (t.configuration) [
      | none ↦ set_error t
      | some c ↦
          if is_client t.config.role
          then handshake_client waited t c
          else if not t.listener_started
          then set_error t
          else (t, true)
    ]
  ]
