-- ===== src/Wintun/Routing.antt =====
-- The client's routes in src/wintun_virtual_interface.cpp, and the interface that the engine sees.
use secure_tunnel_cpp.Prelude.{ℕ, Bool, true, false, ◌&&◌, ◌||◌, not, List, ◌==◌, if◌then◌else◌}
use secure_tunnel_cpp.Config.{TunnelConfig, is_none, is_global, is_smart}
use secure_tunnel_cpp.NetConfig.{IpHelper}
use secure_tunnel_cpp.NetConfig.Routes.{
  apply_endpoint_bypass_route, apply_global_default_route, clear_client_routes,
}
use secure_tunnel_cpp.SmartRoute
use secure_tunnel_cpp.SmartRoute.{Files, Options}
use secure_tunnel_cpp.Wintun.Loader.{Windows}
use secure_tunnel_cpp.Wintun.Adapter.{
  Driver, WintunVirtualInterface, fail, is_open, adapter_luid_value, clear_routes, close, open',
  read_packet, write_packet,
}
use secure_tunnel_cpp.Engine.{VirtualInterface}

-- The refresh interval is that of the structure's initialiser.
abbrev pub options_of : TunnelConfig → ℕ → Options
options_of config luid = record {
  tunnel_luid = luid;
  gateway_ipv4 = config.default_route_gateway;
  domain_list_path = config.smart_route_domain_list;
  cidr_list_path = config.smart_route_cidr_list;
  refresh_interval = 300;
}

module _ (h : IpHelper) (d : Driver) (w : Windows) where
  -- `client_routes_applied_ = true; return true;`, and the removal of what has been applied.
  abbrev pub routes_done : WintunVirtualInterface h d w → WintunVirtualInterface h d w × Bool
  routes_done v = (record v { client_routes_applied = true }, true)

  abbrev pub routes_undone : WintunVirtualInterface h d w → WintunVirtualInterface h d w × Bool
  routes_undone v =
      (record v { net_config = clear_client_routes h v.net_config; last_error = true }, false)

  unfoldable pub route_globally :
      WintunVirtualInterface h d w → TunnelConfig → WintunVirtualInterface h d w × Bool
  route_globally v config =
      let (n, applied) =
        apply_global_default_route h v.net_config (adapter_luid_value h d w v)
          config.default_route_gateway in
      let v' : WintunVirtualInterface h d w = record v { net_config = n } in
      if not applied then routes_undone v' else routes_done v'

  unfoldable pub route_smartly :
      Files → WintunVirtualInterface h d w → TunnelConfig → WintunVirtualInterface h d w × Bool
  route_smartly files v config =
      let (m, n, started) =
        SmartRoute.start h files v.smart_route_manager v.net_config
          (options_of config (adapter_luid_value h d w v)) in
      let v' : WintunVirtualInterface h d w = record v {
        smart_route_manager = m;
        net_config = n;
      } in
      if not started then routes_undone v' else routes_done v'

  -- After the bypass route.
  unfoldable pub route_by_mode :
      Files → WintunVirtualInterface h d w → TunnelConfig → WintunVirtualInterface h d w × Bool
  route_by_mode files v config =
      if is_global config.client_routing_mode || config.enable_global_default_route
      then route_globally v config
      else if is_smart config.client_routing_mode
      then route_smartly files v config
      else routes_done v

  unfoldable pub apply_client_routing :
      Files → WintunVirtualInterface h d w → TunnelConfig → WintunVirtualInterface h d w × Bool
  apply_client_routing files v config =
      if is_none config.client_routing_mode && not config.enable_global_default_route
      then (v, true)
      else if not (is_open h d w v)
      then fail h d w v
      else if adapter_luid_value h d w v == 0
      then fail h d w v
      else let (n, bypassed) =
          apply_endpoint_bypass_route h v.net_config config.endpoint (adapter_luid_value h d w v) in
        let v' : WintunVirtualInterface h d w = record v { net_config = n } in
        if not bypassed
        then (record v' { last_error = true }, false)
        else route_by_mode files v' config

  -- A refresh of the smart routes by the worker, which sees a stop as the reads say.
  unfoldable pub worker_round :
      List Bool → WintunVirtualInterface h d w → WintunVirtualInterface h d w
  worker_round reads v =
      if not v.smart_route_manager.worker
      then v
      else let (m, n) = SmartRoute.apply_routes_once h v.smart_route_manager v.net_config reads in
        record v { smart_route_manager = m; net_config = n }

  -- The class as the engine's interface.
  abbrev pub wintun : Files → VirtualInterface
  wintun files = record {
    State = WintunVirtualInterface h d w;
    open' = open' h d w;
    read_packet = read_packet h d w;
    write_packet = write_packet h d w;
    close = close h d w;
    apply_client_routing = apply_client_routing files;
    clear_client_routing = clear_routes h d w;
  }
