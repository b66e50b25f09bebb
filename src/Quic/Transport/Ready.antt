-- ===== src/Quic/Transport/Ready.antt =====
-- What a successful `connect` prepares.
use secure_tunnel_cpp.Prelude.{
  ◌≡◌, refl, sym, ap, ◌∙◌, subst, ◌⊎◌, inl, inr, Bool, true, false, arith, Bool-cases,
}
use secure_tunnel_cpp.Config.{TunnelConfig, is_client, is_server}
use secure_tunnel_cpp.Quic.Api.{MsQuic}
use secure_tunnel_cpp.Quic.Transport.{QuicSecureTransport, close}
use secure_tunnel_cpp.Quic.Transport.Closed.{second_step, third_step}
use secure_tunnel_cpp.Quic.Transport.Open.{
  connect, perform_handshake, open_registration, ensure_api_open, load_configuration, connect_role,
  or_close,
}
use secure_tunnel_cpp.Quic.Transport.Configured.{
  is_some, IsConfigured, IsDialling, IsListening, load_configuration-prepared, connect_role-keeps,
  connect_role-IsConfigured, connect_role-IsDialling, connect_role-IsListening, connect_role-made,
}

module _ (q : MsQuic) where
  -- The objects of a transport that is ready for the handshake.
  pub record IsPrepared (config : TunnelConfig) (t : QuicSecureTransport q) : Type 0 where
    pub config_is : t.config ≡ config
    pub set_up : IsConfigured q config t
    pub handshake : is_some t.handshake_state ≡ true
    pub channel : is_some t.stream_channel ≡ true
    pub side :
        ((is_client config.role ≡ true) × IsDialling q t)
        ⊎ ((is_client config.role ≡ false) × IsListening q config t)

  open_registration-config :
      (t : QuicSecureTransport q) → (open_registration q t).0.config ≡ t.config
  unfolding open_registration ensure_api_open
  open_registration-config t = ground arith

  connect_role-IsPrepared :
      (t : QuicSecureTransport q)
      → (connect_role q t).1 ≡ true
      → IsConfigured q t.config t
      → IsPrepared t.config (connect_role q t).0
  connect_role-IsPrepared t h c =
      let (handshake, channel) = connect_role-made q t h in
      let (r, n, s, config) = connect_role-keeps q t in
      record {
        config_is = config;
        set_up = connect_role-IsConfigured q t c;
        handshake = handshake;
        channel = channel;
        side = elim (Bool-cases (is_client t.config.role)) [
          | inl client ↦
              inl (client, connect_role-IsDialling q t c.registration c.registered client h)
          | inr server ↦
              inr (server, connect_role-IsListening q t c.registration c.registered server h)
        ];
      }

  -- A step of `connect` that lets it succeed.
  or_close-succeeds :
      (r : QuicSecureTransport q × Bool) (k : QuicSecureTransport q → QuicSecureTransport q × Bool)
      → (or_close q r k).1 ≡ true
      → (r.1 ≡ true) × (or_close q r k ≡ k r.0)
  or_close-succeeds (t, true) k h = (refl, refl)
  or_close-succeeds (t, false) k h = ground arith

  -- The two steps that prepare, from the transport after `open_registration`.
  second_step-IsPrepared :
      (t : QuicSecureTransport q)
      → (second_step q t).1 ≡ true
      → IsPrepared t.config (second_step q t).0
  second_step-IsPrepared t h =
      let (loaded, at) = or_close-succeeds (load_configuration q t) (third_step q) h in
      let u = (load_configuration q t).0 in
      let (done, at') = or_close-succeeds (connect_role q u) (λ x. (x, true)) (rw (← at) h) in
      let (set_up, same) = load_configuration-prepared q t loaded in
      subst (λ x. IsPrepared t.config x) (sym (ap (λ x. x.0) (at ∙ at')))
        (subst (λ x. IsPrepared x (connect_role q u).0) same
          (connect_role-IsPrepared u done (subst (λ x. IsConfigured q x u) (sym same) set_up)))

  first_step-IsPrepared :
      (t : QuicSecureTransport q)
      → (or_close q (open_registration q t) (second_step q)).1 ≡ true
      → IsPrepared t.config (or_close q (open_registration q t) (second_step q)).0
  first_step-IsPrepared t h =
      let (opened, at) = or_close-succeeds (open_registration q t) (second_step q) h in
      subst (λ x. IsPrepared t.config x) (sym (ap (λ x. x.0) at))
        (subst (λ x. IsPrepared x (second_step q (open_registration q t).0).0)
          (open_registration-config t)
          (second_step-IsPrepared (open_registration q t).0 (rw (← at) h)))

  connect_steps :
      (t : QuicSecureTransport q) (config : TunnelConfig)
      → (connect q t config).1 ≡ true
      → connect q t config
        ≡ or_close q (open_registration q (record (close q t) { config = config })) (second_step q)
  unfolding connect
  connect_steps t config h = ground arith

  pub connect-IsPrepared :
      (t : QuicSecureTransport q) (config : TunnelConfig)
      → (connect q t config).1 ≡ true
      → IsPrepared config (connect q t config).0
  connect-IsPrepared t config h =
      let at = connect_steps t config h in
      subst (λ x. IsPrepared config x.0) (sym at)
        (first_step-IsPrepared (record (close q t) { config = config }) (rw (← at) h))

  ready_server :
      (config : TunnelConfig) (t : QuicSecureTransport q)
      (waited : QuicSecureTransport q → QuicSecureTransport q)
      → is_server config.role ≡ true
      → IsPrepared config t
      → perform_handshake q waited t ≡ (t, true)
  unfolding perform_handshake
  ready_server config t waited s p = elim p.side [
    | inl (client, dialling) ↦ absurd (ground arith)
    | inr (server, (r, n, l, l', registered, listens, started, opened, ready)) ↦
        ground (arith, p.config_is, p.set_up.registered, p.set_up.configured)
  ]

  -- After a successful `connect` a server's handshake succeeds at once and changes nothing.
  pub perform_handshake-server :
      (t : QuicSecureTransport q) (config : TunnelConfig)
      (waited : QuicSecureTransport q → QuicSecureTransport q)
      → is_server config.role ≡ true
      → (connect q t config).1 ≡ true
      → perform_handshake q waited (connect q t config).0 ≡ ((connect q t config).0, true)
  perform_handshake-server t config waited s h =
      ready_server config (connect q t config).0 waited s (connect-IsPrepared t config h)
