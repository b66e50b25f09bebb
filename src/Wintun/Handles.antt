-- ===== src/Wintun/Handles.antt =====
-- What the calls of the Wintun interface keep: the handles, and where nothing is routed.
use secure_tunnel_cpp.Prelude.{◌≡◌, sym, ap, ◌∙◌, subst, Bool, false, List, arith, Bytes}
use secure_tunnel_cpp.Config.{TunnelConfig}
use secure_tunnel_cpp.NetConfig.{IpHelper}
use secure_tunnel_cpp.NetConfig.Keys.{IsRouteless}
use secure_tunnel_cpp.SmartRoute.{Files}
use secure_tunnel_cpp.Wintun.Loader.{Windows, Export, has}
use secure_tunnel_cpp.Wintun.Adapter.{
  Driver, WintunVirtualInterface, clear_routes, read_packet, write_packet,
}
use secure_tunnel_cpp.Wintun.Routing.{
  apply_client_routing, route_by_mode, route_globally, route_smartly, worker_round,
}
use secure_tunnel_cpp.Wintun.Lifecycle.{IsSound}
use secure_tunnel_cpp.Wintun.Clean.{IsClean, IsUnrouted}

module _ (h : IpHelper) (d : Driver) (w : Windows) where
  -- The same handles and the same library.
  abbrev pub SameHandles : WintunVirtualInterface h d w → WintunVirtualInterface h d w → Type 0
  SameHandles v r = (r.session ≡ v.session) × (r.adapter ≡ v.adapter) × (r.loader ≡ v.loader)

  pub SameHandles-IsSound :
      (v r : WintunVirtualInterface h d w) → SameHandles v r → IsSound h d w v → IsSound h d w r
  SameHandles-IsSound v r (s, a, l) sound = (
    λ e. s ∙ sound.0 (ap (λ x. has w x Export.end_session) (sym l) ∙ e),
    λ e. a ∙ sound.1 (ap (λ x. has w x Export.close_adapter) (sym l) ∙ e),
  )

  route_by_mode-SameHandles :
      (files : Files) (v : WintunVirtualInterface h d w) (c : TunnelConfig)
      → SameHandles v (route_by_mode h d w files v c).0
  unfolding route_by_mode route_globally route_smartly
  route_by_mode-SameHandles files v c = ground arith

  pub routing-SameHandles :
      (files : Files) (v : WintunVirtualInterface h d w) (c : TunnelConfig)
      → SameHandles v (apply_client_routing h d w files v c).0
  unfolding apply_client_routing
  routing-SameHandles files v c = grind (arith, route_by_mode-SameHandles files)

  pub clear_routes-SameHandles :
      (v : WintunVirtualInterface h d w) → SameHandles v (clear_routes h d w v)
  unfolding clear_routes
  clear_routes-SameHandles v = ground arith

  -- A packet changes nothing but the driver and the error.
  pub read_packet-keeps :
      (v : WintunVirtualInterface h d w)
      → SameHandles v (read_packet h d w v).0
        × ((read_packet h d w v).0.net_config ≡ v.net_config)
        × ((read_packet h d w v).0.smart_route_manager ≡ v.smart_route_manager)
        × ((read_packet h d w v).0.client_routes_applied ≡ v.client_routes_applied)
  unfolding read_packet
  read_packet-keeps v = ground arith

  pub write_packet-keeps :
      (v : WintunVirtualInterface h d w) (packet : Bytes)
      → SameHandles v (write_packet h d w v packet).0
        × ((write_packet h d w v packet).0.net_config ≡ v.net_config)
        × ((write_packet h d w v packet).0.smart_route_manager ≡ v.smart_route_manager)
        × ((write_packet h d w v packet).0.client_routes_applied ≡ v.client_routes_applied)
  unfolding write_packet
  write_packet-keeps v packet = ground arith

  pub worker_round-SameHandles :
      (stops : List Bool) (v : WintunVirtualInterface h d w)
      → SameHandles v (worker_round h d w stops v)
  unfolding worker_round
  worker_round-SameHandles stops v = ground arith

  worker_round-off :
      (stops : List Bool) (v : WintunVirtualInterface h d w)
      → v.smart_route_manager.worker ≡ false
      → worker_round h d w stops v ≡ v
  unfolding worker_round
  worker_round-off stops v off = ground arith

  worker_round-flag :
      (stops : List Bool) (v : WintunVirtualInterface h d w)
      → (worker_round h d w stops v).client_routes_applied ≡ v.client_routes_applied
  unfolding worker_round
  worker_round-flag stops v = ground arith

  -- The worker runs only while the flag is up.
  pub worker_round-IsClean :
      (stops : List Bool) (v : WintunVirtualInterface h d w)
      → IsClean h d w v
      → IsClean h d w (worker_round h d w stops v)
  worker_round-IsClean stops v clean down =
      let idle = clean (sym (worker_round-flag stops v) ∙ down) in
      subst (IsUnrouted h d w) (sym (worker_round-off stops v idle.0)) idle

  pub same_routing-IsClean :
      (v r : WintunVirtualInterface h d w)
      → r.net_config ≡ v.net_config
      → r.smart_route_manager ≡ v.smart_route_manager
      → r.client_routes_applied ≡ v.client_routes_applied
      → IsClean h d w v
      → IsClean h d w r
  same_routing-IsClean v r n m f clean down =
      let (idle, routeless) = clean (sym f ∙ down) in
      (ap (λ x. x.worker) m ∙ idle, subst (IsRouteless h) (sym n) routeless)
