-- ===== src/Wintun/Balance.antt =====
-- What the calls of src/wintun_virtual_interface.cpp take and give back: `close` and the calls that keep
-- the handles.
use secure_tunnel_cpp.Prelude.{ℕ, ◌≡◌, inl, inr, Bool, List, arith, Option-cases, length, Bytes}
use secure_tunnel_cpp.Config.{TunnelConfig}
use secure_tunnel_cpp.NetConfig.{IpHelper}
use secure_tunnel_cpp.SmartRoute.{Files}
use secure_tunnel_cpp.Wintun.Loader.{Windows}
use secure_tunnel_cpp.Wintun.Adapter.{
  Driver, WintunVirtualInterface, clear_routes, clear_network_config, end_session, close_adapter,
  close, read_packet, write_packet,
}
use secure_tunnel_cpp.Wintun.Routing.{
  apply_client_routing, route_by_mode, route_globally, route_smartly, worker_round,
}
use secure_tunnel_cpp.Wintun.Ledger.{
  DriverLog, LibraryLog, Even, end-Even, close-Even, receive-Even, allocate-Even, send-Even,
}
use secure_tunnel_cpp.Wintun.Freed.{LoaderEven, unload-LoaderEven}

module _ (h : IpHelper) (d : Driver) (w : Windows) (x : ℕ) (log : DriverLog d x)
    (libraries : LibraryLog w x) (s0 : d.State) (w0 : w.State) where
  -- Since the states `s0` and `w0`, the handle `x` has been given back as often as it has been taken, but
  -- for what the interface holds.
  abbrev pub Balanced : WintunVirtualInterface h d w → Type 0
  Balanced v = Even d x log s0 v.driver v.adapter v.session × LoaderEven w x libraries w0 v.loader

  -- The handles, the driver and the library are the same.
  abbrev Same : WintunVirtualInterface h d w → WintunVirtualInterface h d w → Type 0
  Same v r =
      (r.driver ≡ v.driver)
      × (r.adapter ≡ v.adapter)
      × (r.session ≡ v.session)
      × (r.loader ≡ v.loader)

  Same-Balanced : (v r : WintunVirtualInterface h d w) → Same v r → Balanced v → Balanced r
  Same-Balanced v r (same_driver, a, n, l) ((even_a, even_n), library) = ground arith

  clear_routes-Same : (v : WintunVirtualInterface h d w) → Same v (clear_routes h d w v)
  unfolding clear_routes
  clear_routes-Same v = ground arith

  pub clear_routes-Balanced :
      (v : WintunVirtualInterface h d w) → Balanced v → Balanced (clear_routes h d w v)
  clear_routes-Balanced v b = Same-Balanced v (clear_routes h d w v) (clear_routes-Same v) b

  clear_network_config-Same :
      (v : WintunVirtualInterface h d w) → Same v (clear_network_config h d w v)
  unfolding clear_network_config
  clear_network_config-Same v = ground (arith, clear_routes-Same v)

  end_session-Balanced :
      (v : WintunVirtualInterface h d w) → Balanced v → Balanced (end_session h d w v)
  unfolding end_session
  end_session-Balanced v b = elim (Option-cases v.session) [
    | inl at ↦ ground arith
    | inr (n, at) ↦ ground (arith, end-Even d x log s0 v.driver n v.adapter)
  ]

  close_adapter-Balanced :
      (v : WintunVirtualInterface h d w) → Balanced v → Balanced (close_adapter h d w v)
  unfolding close_adapter
  close_adapter-Balanced v b = elim (Option-cases v.adapter) [
    | inl at ↦ ground arith
    | inr (a, at) ↦ ground (arith, close-Even d x log s0 v.driver a v.session)
  ]

  pub close-Balanced : (v : WintunVirtualInterface h d w) → Balanced v → Balanced (close h d w v)
  unfolding close
  close-Balanced v b =
      let cleared = clear_network_config h d w v in
      let released = close_adapter h d w (end_session h d w cleared) in
      let (even, library) =
        close_adapter-Balanced (end_session h d w cleared) (
          end_session-Balanced cleared (Same-Balanced v cleared (clear_network_config-Same v) b)) in
      (even, unload-LoaderEven w x libraries w0 released.loader library)

  route_by_mode-Same :
      (files : Files) (v : WintunVirtualInterface h d w) (c : TunnelConfig)
      → Same v (route_by_mode h d w files v c).0
  unfolding route_by_mode route_globally route_smartly
  route_by_mode-Same files v c = ground arith

  routing-Same :
      (files : Files) (v : WintunVirtualInterface h d w) (c : TunnelConfig)
      → Same v (apply_client_routing h d w files v c).0
  unfolding apply_client_routing
  routing-Same files v c = grind (arith, route_by_mode-Same files)

  pub routing-Balanced :
      (files : Files) (v : WintunVirtualInterface h d w) (c : TunnelConfig)
      → Balanced v
      → Balanced (apply_client_routing h d w files v c).0
  routing-Balanced files v c b =
      Same-Balanced v (apply_client_routing h d w files v c).0 (routing-Same files v c) b

  worker_round-Same :
      (stops : List Bool) (v : WintunVirtualInterface h d w) → Same v (worker_round h d w stops v)
  unfolding worker_round
  worker_round-Same stops v = ground arith

  pub worker_round-Balanced :
      (stops : List Bool) (v : WintunVirtualInterface h d w)
      → Balanced v
      → Balanced (worker_round h d w stops v)
  worker_round-Balanced stops v b =
      Same-Balanced v (worker_round h d w stops v) (worker_round-Same stops v) b

  pub read_packet-Balanced :
      (v : WintunVirtualInterface h d w) → Balanced v → Balanced (read_packet h d w v).0
  unfolding read_packet
  read_packet-Balanced v b = elim (Option-cases v.session) [
    | inl at ↦ ground arith
    | inr (n, at) ↦ ground (arith, receive-Even d x log s0 v.driver n v.adapter v.session)
  ]

  pub write_packet-Balanced :
      (v : WintunVirtualInterface h d w) (packet : Bytes)
      → Balanced v
      → Balanced (write_packet h d w v packet).0
  unfolding write_packet
  write_packet-Balanced v packet b = elim (Option-cases v.session) [
    | inl at ↦ ground arith
    | inr (n, at) ↦
        let allocated = (d.allocate_send_packet v.driver n (length packet)).0 in
        ground (
          arith,
          allocate-Even d x log s0 v.driver n (length packet) v.adapter v.session,
          send-Even d x log s0 allocated n packet v.adapter v.session,
        )
  ]
