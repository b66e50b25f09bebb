-- ===== src/Wintun/Clean.antt =====
-- What the calls of the Wintun interface do with the routes and the worker.
use secure_tunnel_cpp.Prelude.{
  ℕ, ◌≡◌, ◌⊎◌, inl, inr, Bool, true, false, ◌&&◌, ◌||◌, not, arith, ◌==◌, if◌then◌else◌, Bool-cases,
  if-both,
}
use secure_tunnel_cpp.Config.{is_none, is_global, is_smart, TunnelConfig}
use secure_tunnel_cpp.NetConfig.{IpHelper}
use secure_tunnel_cpp.NetConfig.Routes.{apply_endpoint_bypass_route, apply_global_default_route}
use secure_tunnel_cpp.NetConfig.Keys.{IsRouteless, clear_client_routes-IsRouteless}
use secure_tunnel_cpp.SmartRoute
use secure_tunnel_cpp.SmartRoute.{Files}
use secure_tunnel_cpp.Wintun.Kept.{
  SameRoutes, apply_ipv4-routes, clear_ipv4-routes, clear_dns-routes, bypass-refused, start-failed,
}
use secure_tunnel_cpp.Wintun.Loader.{Windows}
use secure_tunnel_cpp.Wintun.Adapter.{
  Driver, WintunVirtualInterface, clear_routes, clear_network_config, cleared_address,
  adapter_luid_value, is_open, end_session, close_adapter, close, open', open_adapter, open_session,
  open_network, apply_network_config,
}
use secure_tunnel_cpp.Wintun.Routing.{
  options_of, apply_client_routing, route_by_mode, route_globally, route_smartly,
}

module _ (h : IpHelper) (d : Driver) (w : Windows) where
  -- No worker runs and no route is listed or applied.
  abbrev pub IsUnrouted : WintunVirtualInterface h d w → Type 0
  IsUnrouted v = (v.smart_route_manager.worker ≡ false) × IsRouteless h v.net_config

  -- The flag tells the truth: while it is down, nothing is routed.
  abbrev pub IsClean : WintunVirtualInterface h d w → Type 0
  IsClean v = v.client_routes_applied ≡ false → IsUnrouted v

  pub clear_routes-IsUnrouted :
      (v : WintunVirtualInterface h d w) → IsClean v → IsUnrouted (clear_routes h d w v)
  unfolding clear_routes
  clear_routes-IsUnrouted v clean = ground (arith, clear_client_routes-IsRouteless h v.net_config)

  cleared_address-routes :
      (v : WintunVirtualInterface h d w) → SameRoutes h v.net_config (cleared_address h d w v)
  cleared_address-routes v = grind (arith, clear_ipv4-routes h, clear_dns-routes h)

  clear_network-IsUnrouted :
      (v : WintunVirtualInterface h d w) → IsClean v → IsUnrouted (clear_network_config h d w v)
  unfolding clear_network_config
  clear_network-IsUnrouted v clean =
      ground (arith, clear_routes-IsUnrouted v clean, cleared_address-routes (clear_routes h d w v))

  -- `close` leaves nothing routed.
  pub close-IsUnrouted : (v : WintunVirtualInterface h d w) → IsClean v → IsUnrouted (close h d w v)
  unfolding close close_adapter end_session
  close-IsUnrouted v clean = ground (arith, clear_network-IsUnrouted v clean)

  open_network-IsUnrouted :
      (v : WintunVirtualInterface h d w) (a s : ℕ)
      → IsUnrouted v
      → IsUnrouted (open_network h d w v a s).0
  unfolding open_network apply_network_config
  open_network-IsUnrouted v a s u = grind (arith, apply_ipv4-routes h)

  open_session-IsUnrouted :
      (v : WintunVirtualInterface h d w) (mtu a : ℕ)
      → IsUnrouted v
      → IsUnrouted (open_session h d w v mtu a).0
  unfolding open_session
  open_session-IsUnrouted v mtu a u = grind (arith, open_network-IsUnrouted)

  open_adapter-IsUnrouted :
      (v : WintunVirtualInterface h d w) (mtu : ℕ)
      → IsUnrouted v
      → IsUnrouted (open_adapter h d w v mtu).0
  unfolding open_adapter
  open_adapter-IsUnrouted v mtu u = grind (arith, open_session-IsUnrouted)

  -- `open` closes first, and routes nothing.
  pub open-IsUnrouted :
      (v : WintunVirtualInterface h d w) (mtu : ℕ) → IsClean v → IsUnrouted (open' h d w v mtu).0
  unfolding open'
  open-IsUnrouted v mtu clean = grind (arith, close-IsUnrouted v clean, open_adapter-IsUnrouted)

  -- While the flag is down no worker runs.
  abbrev IsIdle : WintunVirtualInterface h d w → Type 0
  IsIdle v = v.client_routes_applied ≡ false → v.smart_route_manager.worker ≡ false

  route_globally-IsClean :
      (v : WintunVirtualInterface h d w) (c : TunnelConfig)
      → IsIdle v
      → IsClean (route_globally h d w v c).0
  unfolding route_globally
  route_globally-IsClean v c idle down = ground (
    arith,
    clear_client_routes-IsRouteless h
        (apply_global_default_route h v.net_config (adapter_luid_value h d w v)
          c.default_route_gateway).0,
  )

  route_smartly-IsClean :
      (files : Files) (v : WintunVirtualInterface h d w) (c : TunnelConfig)
      → IsIdle v
      → IsClean (route_smartly h d w files v c).0
  unfolding route_smartly
  route_smartly-IsClean files v c idle down =
      let o = options_of c (adapter_luid_value h d w v) in
      ground (
        arith,
        start-failed h files v.smart_route_manager v.net_config o,
        clear_client_routes-IsRouteless h
            (SmartRoute.start h files v.smart_route_manager v.net_config o).1,
      )

  route_by_mode-IsClean :
      (files : Files) (v : WintunVirtualInterface h d w) (c : TunnelConfig)
      → IsIdle v
      → IsClean (route_by_mode h d w files v c).0
  unfolding route_by_mode
  route_by_mode-IsClean files v c idle =
      if-both (λ (r : WintunVirtualInterface h d w × Bool). IsClean r.0)
        (is_global c.client_routing_mode || c.enable_global_default_route)
        (route_globally-IsClean v c idle)
        (if-both (λ (r : WintunVirtualInterface h d w × Bool). IsClean r.0)
          (is_smart c.client_routing_mode) (route_smartly-IsClean files v c idle)
          (λ down. absurd (ground arith)))

  abbrev bypassed :
      Files → WintunVirtualInterface h d w → TunnelConfig → WintunVirtualInterface h d w × Bool
  bypassed files v c =
      let (n, ok) =
        apply_endpoint_bypass_route h v.net_config c.endpoint (adapter_luid_value h d w v) in
      let v' : WintunVirtualInterface h d w = record v { net_config = n } in
      if not ok then (record v' { last_error = true }, false) else route_by_mode h d w files v' c

  -- From the bypass route on.
  bypassed-IsClean :
      (files : Files) (v : WintunVirtualInterface h d w) (c : TunnelConfig)
      → IsClean v
      → ((apply_endpoint_bypass_route h v.net_config c.endpoint (adapter_luid_value h d w v)).1
          ≡ true)
        ⊎ ((apply_endpoint_bypass_route h v.net_config c.endpoint (adapter_luid_value h d w v)).1
            ≡ false)
      → IsClean (bypassed files v c).0
  bypassed-IsClean files v c clean (inl ok) =
      let r = apply_endpoint_bypass_route h v.net_config c.endpoint (adapter_luid_value h d w v) in
      ground (
        arith,
        route_by_mode-IsClean files (record v { net_config = r.0 }) c (λ down. (clean down).0),
      )
  bypassed-IsClean files v c clean (inr refused) =
      ground (arith, bypass-refused h v.net_config c.endpoint (adapter_luid_value h d w v) refused)

  -- The routing either raises the flag or leaves nothing routed.
  pub apply_client_routing-IsClean :
      (files : Files) (v : WintunVirtualInterface h d w) (c : TunnelConfig)
      → IsClean v
      → IsClean (apply_client_routing h d w files v c).0
  unfolding apply_client_routing
  apply_client_routing-IsClean files v c clean =
      let luid = adapter_luid_value h d w v in
      let r = apply_endpoint_bypass_route h v.net_config c.endpoint luid in
      let v' : WintunVirtualInterface h d w = record v { net_config = r.0 } in
      if-both (λ (r : WintunVirtualInterface h d w × Bool). IsClean r.0)
        (is_none c.client_routing_mode && not c.enable_global_default_route) clean
        (if-both (λ (r : WintunVirtualInterface h d w × Bool). IsClean r.0) (not (is_open h d w v))
          clean
          (if-both (λ (r : WintunVirtualInterface h d w × Bool). IsClean r.0) (luid == 0) clean
            (bypassed-IsClean files v c clean (Bool-cases r.1))))
