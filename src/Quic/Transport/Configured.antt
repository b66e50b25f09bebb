-- ===== src/Quic/Transport/Configured.antt =====
-- The calls of the library behind a successful `connect`.
use secure_tunnel_cpp.Prelude.{
  ℕ, ◌≡◌, sym, ap, ◌∙◌, subst, ◌≢◌, inl, inr, Bool, true, false, Option, none, some, arith,
  Option-cases,
}
use secure_tunnel_cpp.Config.{TunnelConfig, is_client}
use secure_tunnel_cpp.Quic.Api.{MsQuic, Credentials}
use secure_tunnel_cpp.Quic.Transport.{QuicSecureTransport}
use secure_tunnel_cpp.Quic.Transport.Open.{
  with_library, load_configuration, credentials_of, load_credentials, connect_role, start_client,
  start_server_listener, start_listener,
}

abbrev pub is_some : {A : Type 0} → Option A → Bool
is_some none = false
is_some (some a) = true

module _ (q : MsQuic) where
  -- The library has opened this registration, this configuration of it for the role, and has loaded
  -- these credentials of the configuration into it.
  pub record IsConfigured (config : TunnelConfig) (t : QuicSecureTransport q) : Type 0 where
    pub registration : ℕ
    pub configuration : ℕ
    pub credentials : Credentials
    pub registered : t.registration ≡ some registration
    pub configured : t.configuration ≡ some configuration
    pub stored : t.stored_credentials ≡ some credentials
    pub right : credentials_of q config ≡ some credentials
    pub opened :
        (l : q.State) × ((q.configuration_open l registration config.role config.quic).1
          ≡ some configuration)
    pub loaded :
        (l : q.State) × ((q.configuration_load_credential l configuration credentials).1 ≡ true)

  -- The library has opened this connection, or has opened and started this listener.
  abbrev pub IsDialling : QuicSecureTransport q → Type 0
  IsDialling t =
      (r : ℕ) × (c : ℕ) × (l : q.State) × (t.registration ≡ some r)
      × (t.connection ≡ some c)
      × ((q.connection_open l r).1 ≡ some c)

  abbrev pub IsListening : TunnelConfig → QuicSecureTransport q → Type 0
  IsListening config t =
      (r : ℕ) × (n : ℕ) × (l : q.State) × (l' : q.State) × (t.registration ≡ some r)
      × (t.listener ≡ some n)
      × (t.listener_started ≡ true)
      × ((q.listener_open l r).1 ≡ some n)
      × ((q.listener_start l' n config.quic.alpn config.port).1 ≡ true)

  load_credentials-IsConfigured :
      (t : QuicSecureTransport q) (r c : ℕ) (l : q.State)
      → t.registration ≡ some r
      → (q.configuration_open l r t.config.role t.config.quic).1 ≡ some c
      → (load_credentials q t c).1 ≡ true
      → IsConfigured t.config (load_credentials q t c).0
        × ((load_credentials q t c).0.config ≡ t.config)
  unfolding load_credentials
  load_credentials-IsConfigured t r c l registered opened h =
      elim (Option-cases (credentials_of q t.config)) [
        | inl refused ↦ absurd (ground arith)
        | inr (cr, right) ↦ (
          record {
            registration = r;
            configuration = c;
            credentials = cr;
            registered = ground arith;
            configured = ground arith;
            stored = ground arith;
            right = right;
            opened = (l, opened);
            loaded = (t.global.library, ground arith);
          },
          ground arith,
        )
      ]

  load_configuration-unregistered :
      (t : QuicSecureTransport q) → t.registration ≡ none → (load_configuration q t).1 ≢ true
  unfolding load_configuration
  load_configuration-unregistered t e h = ground arith

  load_configuration-unopened :
      (t : QuicSecureTransport q) (r : ℕ)
      → t.registration ≡ some r
      → (q.configuration_open t.global.library r t.config.role t.config.quic).1 ≡ none
      → (load_configuration q t).1 ≢ true
  unfolding load_configuration
  load_configuration-unopened t r e e' h = ground arith

  load_configuration-at :
      (t : QuicSecureTransport q) (r c : ℕ)
      → t.registration ≡ some r
      → (q.configuration_open t.global.library r t.config.role t.config.quic).1 ≡ some c
      → load_configuration q t
        ≡ load_credentials q
            (with_library q t
              (q.configuration_open t.global.library r t.config.role t.config.quic).0)
            c
  unfolding load_configuration
  load_configuration-at t r c e e' = ground arith

  pub load_configuration-prepared :
      (t : QuicSecureTransport q)
      → (load_configuration q t).1 ≡ true
      → IsConfigured t.config (load_configuration q t).0
        × ((load_configuration q t).0.config ≡ t.config)
  load_configuration-prepared t h = elim (Option-cases t.registration) [
    | inl unregistered ↦ absurd (load_configuration-unregistered t unregistered h)
    | inr (r, registered) ↦
        let (l, configuration) =
          q.configuration_open t.global.library r t.config.role t.config.quic in
        elim (Option-cases configuration) [
          | inl unopened ↦ absurd (load_configuration-unopened t r registered unopened h)
          | inr (c, opened) ↦
              let at = load_configuration-at t r c registered opened in
              let loaded = ap (λ x. x.1) (sym at) ∙ h in
              subst
                (λ (x : QuicSecureTransport q × Bool).
                  IsConfigured t.config x.0 × (x.0.config ≡ t.config))
                (sym at)
                (load_credentials-IsConfigured (with_library q t l) r c t.global.library registered
                  opened loaded)
        ]
  ]

  -- The role's part keeps what is configured.
  pub connect_role-keeps :
      (t : QuicSecureTransport q)
      → ((connect_role q t).0.registration ≡ t.registration)
        × ((connect_role q t).0.configuration ≡ t.configuration)
        × ((connect_role q t).0.stored_credentials ≡ t.stored_credentials)
        × ((connect_role q t).0.config ≡ t.config)
  unfolding connect_role start_client start_server_listener start_listener
  connect_role-keeps t = ground arith

  pub connect_role-IsConfigured :
      (t : QuicSecureTransport q)
      → IsConfigured t.config t
      → IsConfigured t.config (connect_role q t).0
  connect_role-IsConfigured t c =
      let (r, n, s, config) = connect_role-keeps t in
      record {
        registration = c.registration;
        configuration = c.configuration;
        credentials = c.credentials;
        registered = r ∙ c.registered;
        configured = n ∙ c.configured;
        stored = s ∙ c.stored;
        right = c.right;
        opened = c.opened;
        loaded = c.loaded;
      }

  -- A client's connection and a server's listener.
  pub connect_role-IsDialling :
      (t : QuicSecureTransport q) (r : ℕ)
      → t.registration ≡ some r
      → is_client t.config.role ≡ true
      → (connect_role q t).1 ≡ true
      → IsDialling (connect_role q t).0
  unfolding connect_role start_client
  connect_role-IsDialling t r registered client h =
      elim (Option-cases (q.connection_open t.global.library r).1) [
        | inl unopened ↦ absurd (ground arith)
        | inr (c, opened) ↦ (r, c, t.global.library, ground arith, ground arith, opened)
      ]

  pub connect_role-IsListening :
      (t : QuicSecureTransport q) (r : ℕ)
      → t.registration ≡ some r
      → is_client t.config.role ≡ false
      → (connect_role q t).1 ≡ true
      → IsListening t.config (connect_role q t).0
  unfolding connect_role start_server_listener start_listener
  connect_role-IsListening t r registered server h =
      elim (Option-cases (q.listener_open t.global.library r).1) [
        | inl unopened ↦ absurd (ground arith)
        | inr (n, opened) ↦ (
          r,
          n,
          t.global.library,
          (q.listener_open t.global.library r).0,
          ground arith,
          ground arith,
          ground arith,
          opened,
          ground arith,
        )
      ]

  pub connect_role-made :
      (t : QuicSecureTransport q)
      → (connect_role q t).1 ≡ true
      → (is_some (connect_role q t).0.handshake_state ≡ true)
        × (is_some (connect_role q t).0.stream_channel ≡ true)
  unfolding connect_role start_client start_server_listener start_listener
  connect_role-made t h = ground arith
