-- ===== src/Engine/Interface.antt =====
-- What the engine does with its virtual interface: an invariant of the interface's own calls is one
-- of the engine's.
use secure_tunnel_cpp.Prelude.{
  ℕ, zero, suc, ◌+◌, inl, inr, Bool, List, [], ◌∷◌, arith, Option-cases, Bytes,
}
use secure_tunnel_cpp.Config.{TunnelConfig}
use secure_tunnel_cpp.Engine.{
  VirtualInterface, Parts, TunnelEngine, start, start_created, start_with, start_connect,
  start_handshake, start_client, start_server, start_routing, ensure_session_ready, ensure_routed,
}
use secure_tunnel_cpp.Engine.Forward.{
  relay_batch, relay_ready, forward_outbound, forward_inbound_batch, inbound_loop, inbound_round,
}
use secure_tunnel_cpp.Engine.Loop.{
  reset_server_session, stop, run_data_plane, loop_body, wait_or_relay, relay_round, requested,
  Signal, request_data_plane_stop,
}
use secure_tunnel_cpp.Engine.Calls.{
  Call, starts, ensures, relays, runs, requests_stop, resets, stops, step, run,
}

-- Each call of the interface keeps it.
pub record IsInvariant (i : VirtualInterface) (P : i.State → Type 0) : Type 0 where
  pub opens : (v : i.State) (mtu : ℕ) → P v → P (i.open' v mtu).0
  pub reads : (v : i.State) → P v → P (i.read_packet v).0
  pub writes : (v : i.State) (packet : Bytes) → P v → P (i.write_packet v packet).0
  pub closes : (v : i.State) → P v → P (i.close v)
  pub routes : (v : i.State) (config : TunnelConfig) → P v → P (i.apply_client_routing v config).0
  pub clears : (v : i.State) → P v → P (i.clear_client_routing v)

module _ (w : Parts) (P : w.vif.State → Type 0) (keeps : IsInvariant w.vif P) where
  abbrev Has : TunnelEngine w → Type 0
  Has e = P e.virtual_interface

  start_client-Has : (e : TunnelEngine w) → Has e → Has (start_client w e).0
  unfolding start_client start_routing
  start_client-Has e has = grind (arith, keeps.routes)

  start_handshake-Has : (e : TunnelEngine w) → Has e → Has (start_handshake w e).0
  unfolding start_handshake start_server
  start_handshake-Has e has = grind (arith, start_client-Has)

  start_connect-Has : (e : TunnelEngine w) → Has e → Has (start_connect w e).0
  unfolding start_connect
  start_connect-Has e has = grind (arith, keeps.opens, start_handshake-Has)

  start_with-Has : (e : TunnelEngine w) → Has e → Has (start_with w e).0
  unfolding start_with
  start_with-Has e has = grind (arith, start_connect-Has)

  start-Has : (e : TunnelEngine w) → Has e → Has (start w e).0
  unfolding start start_created
  start-Has e has = grind (arith, start_with-Has)

  ensure_session_ready-Has : (e : TunnelEngine w) → Has e → Has (ensure_session_ready w e).0
  unfolding ensure_session_ready ensure_routed
  ensure_session_ready-Has e has = grind (arith, keeps.routes)

  forward_outbound-Has : (e : TunnelEngine w) → Has e → Has (forward_outbound w e).0
  unfolding forward_outbound
  forward_outbound-Has e has = grind (arith, keeps.reads)

  inbound_round-Has : (e : TunnelEngine w) → Has e → Has (inbound_round w e).0
  unfolding inbound_round
  inbound_round-Has e has = elim (Option-cases e.inner_session) [
    | inl at ↦ ground (arith, at, has)
    | inr (i, at) ↦ elim (Option-cases (w.tr.try_receive_payload e.transport).1) [
      | inl at' ↦ ground (arith, at, at', has)
      | inr (c, at') ↦ ground (arith, keeps.writes e.virtual_interface (w.inner.open' i c []).1 has)
    ]
  ]

  inbound_loop-Has : (n : ℕ) (e : TunnelEngine w) (k : ℕ) → Has e → Has (inbound_loop w n e k).0
  unfolding inbound_loop
  inbound_loop-Has zero e k has = has
  inbound_loop-Has (suc n) e k has =
      let has' = inbound_round-Has e has in
      ground (arith, has', inbound_loop-Has n (inbound_round w e).0 (k + 1) has')

  relay_ready-Has : (e : TunnelEngine w) (n : ℕ) → Has e → Has (relay_ready w e n).0
  unfolding relay_ready forward_inbound_batch
  relay_ready-Has e n has = grind (arith, forward_outbound-Has, inbound_loop-Has)

  relay_batch-Has : (e : TunnelEngine w) (n : ℕ) → Has e → Has (relay_batch w e n).0
  unfolding relay_batch
  relay_batch-Has e n has = grind (arith, ensure_session_ready-Has, relay_ready-Has)

  relay_round-Has : (e : TunnelEngine w) (b : Bool) → Has e → Has (relay_round w e b).0
  unfolding relay_round reset_server_session request_data_plane_stop
  relay_round-Has e b has = grind (arith, relay_batch-Has)

  wait_or_relay-Has : (e : TunnelEngine w) (b : Bool) → Has e → Has (wait_or_relay w e b).0
  unfolding wait_or_relay reset_server_session
  wait_or_relay-Has e b has = grind (arith, relay_round-Has)

  loop_body-Has : (e : TunnelEngine w) (b : Bool) → Has e → Has (loop_body w e b).0
  unfolding loop_body
  loop_body-Has e b has =
      grind (arith, relay_round-Has, wait_or_relay-Has, ensure_session_ready-Has)

  requested-Has : (e : TunnelEngine w) (b : Bool) → Has e → Has (requested w b e)
  unfolding request_data_plane_stop
  requested-Has e b has = ground arith

  run_data_plane-Has :
      (signals : List Signal) (e : TunnelEngine w) → Has e → Has (run_data_plane w signals e)
  unfolding run_data_plane
  run_data_plane-Has [] e has = has
  run_data_plane-Has (s ∷ ss) e has =
      let has' = requested-Has e s.before has in
      let has'' = loop_body-Has (requested w s.before e) s.during has' in
      ground (
        arith,
        has',
        has'',
        run_data_plane-Has ss (loop_body w (requested w s.before e) s.during).0 has'',
      )

  stop-Has : (e : TunnelEngine w) → Has e → Has (stop w e)
  unfolding stop
  stop-Has e has = grind (arith, keeps.closes, keeps.clears)

  pub step-Has : (e : TunnelEngine w) (c : Call) → Has e → Has (step w e c)
  unfolding step request_data_plane_stop reset_server_session
  step-Has e starts has = start-Has e has
  step-Has e ensures has = ensure_session_ready-Has e has
  step-Has e (relays n) has = relay_batch-Has e n has
  step-Has e (runs signals) has = run_data_plane-Has signals e has
  step-Has e requests_stop has = has
  step-Has e resets has = ground arith
  step-Has e stops has = stop-Has e has

  pub run-Has : (e : TunnelEngine w) (cs : List Call) → Has e → Has (run w e cs)
  unfolding run
  run-Has e [] has = has
  run-Has e (c ∷ cs) has = run-Has (step w e c) cs (step-Has e c has)
