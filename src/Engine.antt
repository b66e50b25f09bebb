-- ===== src/Engine.antt =====
-- include/tunnel/tunnel_engine.hpp and src/tunnel_engine.cpp. The abstract classes are records of
-- operations on a state (`VirtualInterface`, `SecureTransport`, and `InnerSession` of
-- InnerSession/Interface.antt); the engine is written against them. The interface and the
-- transport are never null here, as in both programs that build an engine; the inner session may
-- be. Writing more into a buffer than it holds makes its capacity what is needed.
pub mod Forward
pub mod Loop
pub mod Start
pub mod Ready
pub mod Relay
pub mod Run
pub mod Reset
pub mod StartLife
pub mod RunLife
pub mod Calls
pub mod Interface
use secure_tunnel_cpp.Prelude.{
  ℕ, zero, suc, ◌+◌, ◌-◌, ◌*◌, ◌/◌, ◌%◌, ◌^◌, ◌≤◌, ◌<◌, min, max, bit_and, ◌≡◌, refl, sym, ap, ◌∙◌,
  subst, ◌≢◌, ◌↔◌, ◌⊎◌, inl, inr, Bool, true, false, ◌&&◌, ◌||◌, not, Option, none, some, List, [],
  ◌∷◌, ◌++◌, map, append-nil, append_assoc, arith, ltb, leb, ◌==◌, if◌then◌else◌, ltb→lt, lt→ltb,
  leb→le, ltb→le, le→ltb, ==_iff, ==_refl, Bool-cases, Option-cases, length, get_or, take, drop,
  length-append, length-take, length-drop, take-append, drop-append, take_all, take-append_drop,
  take_prefix, drop_prefix, drop-drop, All, All-append, All-take, All-drop, Bytes, IsByte, codes,
  is_empty, text_eq, text_eq_sound, text_eq_refl,
}
use secure_tunnel_cpp.Session.{
  SessionState, Session, transition_to, reset_to_handshaking, can_send_data, state_eq, stopped,
  connecting, handshaking, established, closing, failed, initial,
}
use secure_tunnel_cpp.InnerSession.Interface.{InnerSession}
use secure_tunnel_cpp.Config.{TunnelConfig, is_server}
use secure_tunnel_cpp.RelayStats.{RelayStats, reset, add_u64}
use secure_tunnel_cpp.Pool.{Buffer, PacketBufferPool, empty_buffer, clear, acquire, release, create}

-- `open'`, `read_packet` and the others return the new state first.
pub record VirtualInterface : Type 1 where
  pub State : Type 0
  pub open' : State → ℕ → State × Bool
  pub read_packet : State → State × Bytes
  pub write_packet : State → Bytes → State × Bool
  pub close : State → State
  pub apply_client_routing : State → TunnelConfig → State × Bool
  pub clear_client_routing : State → State

-- `try_receive_payload` gives `none` for std::nullopt. `reset_for_next_client` is that of
-- `QuicSecureTransport`, and changes nothing in a transport of another class.
pub record SecureTransport : Type 1 where
  pub State : Type 0
  pub connect : State → TunnelConfig → State × Bool
  pub perform_handshake : State → State × Bool
  pub open_data_channel : State → State × Bool
  pub send_payload : State → Bytes → State × Bool
  pub try_receive_payload : State → State × Option Bytes
  pub close : State → State
  pub reset_for_next_client : State → State

-- What the engine is built from: the three classes, the check of the configuration and the
-- factory `create_inner_session`, which gives `none` for a null pointer.
pub record Parts : Type 1 where
  pub vif : VirtualInterface
  pub tr : SecureTransport
  pub inner : InnerSession
  pub is_valid : TunnelConfig → Bool
  pub create_inner_session : TunnelConfig → Option (inner.State)

module _ (w : Parts) where
  pub record TunnelEngine : Type 0 where
    pub config : TunnelConfig
    pub session : Session
    pub virtual_interface : w.vif.State
    pub transport : w.tr.State
    pub inner_session : Option (w.inner.State)
    pub buffer_pool : PacketBufferPool
    pub relay_stats : RelayStats
    pub scratch_sealed : Buffer
    pub scratch_opened : Buffer
    pub data_plane_stop_requested : Bool

  -- A constructed engine; the statistics start at 0.
  unfoldable pub construct :
      TunnelConfig → w.vif.State → w.tr.State → Option (w.inner.State) → TunnelEngine
  construct config vif tr inner = record {
    config = config;
    session = initial;
    virtual_interface = vif;
    transport = tr;
    inner_session = inner;
    buffer_pool =
        create config.data_plane.buffer_pool_capacity config.data_plane.buffer_default_capacity;
    relay_stats = record {
      relay_iterations = 0;
      outbound_packets = 0;
      outbound_bytes = 0;
      inbound_packets = 0;
      inbound_bytes = 0;
      seal_errors = 0;
      open_errors = 0;
      transport_errors = 0;
    };
    scratch_sealed = empty_buffer;
    scratch_opened = empty_buffer;
    data_plane_stop_requested = false;
  }

  -- `session_.transition_to(next)`, its result dropped.
  abbrev pub enter : TunnelEngine → SessionState → TunnelEngine
  enter e next = record e { session = (transition_to e.session next).0 }

  -- `session_.transition_to(SessionState::failed); return false;`
  abbrev pub fail : TunnelEngine → TunnelEngine × Bool
  fail e = (enter e failed, false)

  -- `return session_.transition_to(SessionState::established);`
  abbrev pub establish : TunnelEngine → TunnelEngine × Bool
  establish e = (enter e established, (transition_to e.session established).1)

  abbrev pub inner_ready : TunnelEngine → Bool
  inner_ready e = elim (e.inner_session) [ none ↦ false | some i ↦ w.inner.is_ready i ]

  -- `start` from the routing on, for a client.
  unfoldable pub start_routing : TunnelEngine → TunnelEngine × Bool
  start_routing e =
      let (v, routed) = w.vif.apply_client_routing e.virtual_interface e.config in
      let e' : TunnelEngine = record e { virtual_interface = v } in
      if not routed then fail e' else establish (record e' { data_plane_stop_requested = false })

  unfoldable pub start_client : TunnelEngine → TunnelEngine × Bool
  start_client e =
      let (t, shaken) = w.tr.perform_handshake e.transport in
      let e' : TunnelEngine = record e { transport = t } in
      if not shaken
      then fail e'
      else let (t', opened) = w.tr.open_data_channel t in
        let e'' : TunnelEngine = record e { transport = t' } in
        if not opened
        then fail e''
        else if not (inner_ready e'')
        then fail e''
        else start_routing e''

  unfoldable pub start_server : TunnelEngine → TunnelEngine × Bool
  start_server e =
      let (t, shaken) = w.tr.perform_handshake e.transport in
      let e' : TunnelEngine = record e { transport = t } in
      if not shaken
      then fail e'
      else if not (inner_ready e')
      then fail e'
      else (record e' { data_plane_stop_requested = false }, true)

  -- After `transition_to(SessionState::handshaking)`.
  unfoldable pub start_handshake : TunnelEngine → TunnelEngine × Bool
  start_handshake e =
      if not (transition_to e.session handshaking).1
      then (e, false)
      else let e' = enter e handshaking in
        if is_server e.config.role then start_server e' else start_client e'

  -- `virtual_interface_->open(config_.mtu) && transport_->connect(config_)`
  unfoldable pub start_connect : TunnelEngine → TunnelEngine × Bool
  start_connect e =
      let (v, opened) = w.vif.open' e.virtual_interface e.config.mtu in
      let e' : TunnelEngine = record e { virtual_interface = v } in
      if not opened
      then fail e'
      else let (t, connected) = w.tr.connect e.transport e.config in
        let e'' : TunnelEngine = record e' { transport = t } in
        if not connected then fail e'' else start_handshake e''

  -- After the inner session is there: two buffers are acquired, and the session leaves `stopped`.
  unfoldable pub start_with : TunnelEngine → TunnelEngine × Bool
  start_with e =
      let (pool, sealed) = acquire e.buffer_pool 0 in
      let (pool', opened) = acquire pool 0 in
      let e' : TunnelEngine = record e {
        relay_stats = reset e.relay_stats;
        buffer_pool = pool';
        scratch_sealed = sealed;
        scratch_opened = opened;
      } in
      if not (transition_to e.session connecting).1
      then (e', false)
      else start_connect (enter e' connecting)

  unfoldable pub start_created : TunnelEngine → Option (w.inner.State) → TunnelEngine × Bool
  start_created e none = (e, false)
  start_created e (some i) = start_with (record e { inner_session = some i })

  unfoldable pub start : TunnelEngine → TunnelEngine × Bool
  start e =
      if not (w.is_valid e.config)
      then (e, false)
      else start_created e
          (elim (e.inner_session) [ none ↦ w.create_inner_session e.config | some i ↦ some i ])

  -- After `open_data_channel` succeeded.
  unfoldable pub ensure_routed : TunnelEngine → TunnelEngine × Bool
  ensure_routed e =
      let (v, routed) = w.vif.apply_client_routing e.virtual_interface e.config in
      let e' : TunnelEngine = record e { virtual_interface = v } in
      if not routed then fail e' else establish e'

  abbrev pub has_inner : TunnelEngine → Bool
  has_inner e = elim (e.inner_session) [ none ↦ false | some i ↦ true ]

  unfoldable pub ensure_session_ready : TunnelEngine → TunnelEngine × Bool
  ensure_session_ready e =
      if can_send_data e.session
      then (e, true)
      else if not (is_server e.config.role)
          || (not (state_eq e.session.state handshaking) || not (has_inner e))
      then (e, false)
      else let (t, opened) = w.tr.open_data_channel e.transport in
        let e' : TunnelEngine = record e { transport = t } in
        if not opened then (e', false) else ensure_routed e'
