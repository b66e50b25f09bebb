-- ===== src/Engine/Start.antt =====
-- What `start` establishes, and what it leaves behind when it fails.
use secure_tunnel_cpp.Prelude.{
  ◌+◌, ◌%◌, ◌^◌, ◌≡◌, ◌⊎◌, inl, inr, true, false, some, arith, if◌then◌else◌, Option-cases,
}
use secure_tunnel_cpp.Session.{SessionState, handshaking, established, failed, transition_to}
use secure_tunnel_cpp.Pool.{acquire}
use secure_tunnel_cpp.RelayStats.{reset}
use secure_tunnel_cpp.Config.{is_server}
use secure_tunnel_cpp.Engine.{
  Parts, TunnelEngine, enter, inner_ready, start_handshake, start_connect, start_with, start,
  stopped, start_server, start_created, start_client, start_routing,
}

module _ (w : Parts) where
  -- What a successful start ends with: `established` and a new epoch for a client, `handshaking`
  -- for a server; a ready inner session; no stop request.
  pub record Started (e r : TunnelEngine w) : Type 0 where
    pub state : r.session.state ≡ (if is_server e.config.role then handshaking else established)
    pub epoch :
        r.session.epoch
        ≡ (if is_server e.config.role then e.session.epoch else (e.session.epoch + 1) % 2 ^ 64)
    pub ready : inner_ready w r ≡ true
    pub running : r.data_plane_stop_requested ≡ false

  -- What a failed start leaves: the session is where it was or `failed`, with its epoch.
  abbrev pub NotStarted : TunnelEngine w → TunnelEngine w → Type 0
  NotStarted e r =
      ((r.session.state ≡ e.session.state) ⊎ (r.session.state ≡ failed))
      × (r.session.epoch ≡ e.session.epoch)

  -- The outcome of `start` from the handshake on, where the session is `connecting`.
  start_handshake-outcome :
      (e : TunnelEngine w)
      → e.session.state ≡ SessionState.connecting
      → (((start_handshake w e).1 ≡ true) × Started e (start_handshake w e).0)
        ⊎ (((start_handshake w e).1 ≡ false)
            × ((start_handshake w e).0.session.state ≡ failed)
            × ((start_handshake w e).0.session.epoch ≡ e.session.epoch))
  unfolding start_handshake start_server start_client start_routing transition_to
  start_handshake-outcome e h = ground arith

  start_connect-outcome :
      (e : TunnelEngine w)
      → e.session.state ≡ SessionState.connecting
      → (((start_connect w e).1 ≡ true) × Started e (start_connect w e).0)
        ⊎ (((start_connect w e).1 ≡ false)
            × ((start_connect w e).0.session.state ≡ failed)
            × ((start_connect w e).0.session.epoch ≡ e.session.epoch))
  unfolding start_connect transition_to
  start_connect-outcome e h =
      let v = (w.vif.open' e.virtual_interface e.config.mtu).0 in
      let t = (w.tr.connect e.transport e.config).0 in
      ground (arith, start_handshake-outcome (record e { virtual_interface = v; transport = t }) h)

  start_with-outcome :
      (e : TunnelEngine w)
      → (((start_with w e).1 ≡ true) × (e.session.state ≡ stopped) × Started e (start_with w e).0)
        ⊎ (((start_with w e).1 ≡ false) × NotStarted e (start_with w e).0)
  unfolding start_with transition_to
  start_with-outcome e =
      let (pool, sealed) = acquire e.buffer_pool 0 in
      let (pool', opened) = acquire pool 0 in
      ground (
        arith,
        start_connect-outcome (
            enter w
              (record e {
                relay_stats = reset e.relay_stats;
                buffer_pool = pool';
                scratch_sealed = sealed;
                scratch_opened = opened;
              })
              SessionState.connecting),
      )

  -- `start` on each of its branches. It succeeds only from `stopped`, and then a client's session
  -- is `established` under the next epoch and a server's is `handshaking`, the inner session is
  -- ready and no stop is requested. When it fails, the session is where it was or `failed`, under
  -- the same epoch.
  pub start_outcome :
      (e : TunnelEngine w)
      → (((start w e).1 ≡ true) × (e.session.state ≡ stopped) × Started e (start w e).0)
        ⊎ (((start w e).1 ≡ false) × NotStarted e (start w e).0)
  unfolding start start_created
  start_outcome e = elim (Option-cases (e.inner_session)) [
    | inl none' ↦ elim (Option-cases (w.create_inner_session e.config)) [
      | inl null ↦ ground arith
      | inr (i, made) ↦ ground (arith, start_with-outcome (record e { inner_session = some i }))
    ]
    | inr (i, given) ↦ ground (arith, start_with-outcome (record e { inner_session = some i }))
  ]
