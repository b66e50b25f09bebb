-- ===== src/Wintun/Kept.antt =====
-- The steps of src/windows_net_config.cpp that keep the routes, and a failed start of the manager in
-- src/smart_route_manager.cpp.
use secure_tunnel_cpp.Prelude.{ℕ, ◌≡◌, false, arith, Bytes}
use secure_tunnel_cpp.Config.{Ipv4InterfaceConfig}
use secure_tunnel_cpp.NetConfig.{IpHelper, WindowsNetConfigurator}
use secure_tunnel_cpp.NetConfig.Address.{
  apply_ipv4, clear_ipv4, clear_dns, add_address, apply_ipv4_dns, apply_dns, set_dns,
  delete_address, unset_dns,
}
use secure_tunnel_cpp.NetConfig.Routes.{apply_endpoint_bypass_route, bypass_to, add_bypass}
use secure_tunnel_cpp.SmartRoute
use secure_tunnel_cpp.SmartRoute.{
  Files, Options, SmartRouteManager, start_domains, start_cidrs, start_worker,
}

-- The routes of the helper are those of another state of it.
abbrev pub SameRoutes :
    (h : IpHelper) → WindowsNetConfigurator h → WindowsNetConfigurator h → Type 0
SameRoutes h n r =
    (r.selective_routes ≡ n.selective_routes)
    × (r.default_route_applied ≡ n.default_route_applied)
    × (r.bypass_route_applied ≡ n.bypass_route_applied)

apply_dns-routes :
    (h : IpHelper) (n : WindowsNetConfigurator h) (luid : ℕ) (dns : Bytes)
    → SameRoutes h n (apply_dns h n luid dns).0
unfolding apply_dns set_dns
apply_dns-routes h n luid dns = ground arith

add_address-routes :
    (h : IpHelper) (n : WindowsNetConfigurator h) (luid ip : ℕ) (c : Ipv4InterfaceConfig)
    → SameRoutes h n (add_address h n luid ip c).0
unfolding add_address apply_ipv4_dns
add_address-routes h n luid ip c = ground (
  arith,
  apply_dns-routes h
      (record n { system = (h.create_unicast_ip_address_entry n.system luid ip c.prefix_length).0 })
      luid c.dns,
)

pub apply_ipv4-routes :
    (h : IpHelper) (n : WindowsNetConfigurator h) (luid : ℕ) (c : Ipv4InterfaceConfig)
    → SameRoutes h n (apply_ipv4 h n luid c).0
unfolding apply_ipv4
apply_ipv4-routes h n luid c = grind (arith, add_address-routes h)

pub clear_ipv4-routes :
    (h : IpHelper) (n : WindowsNetConfigurator h) (luid : ℕ) (c : Ipv4InterfaceConfig)
    → SameRoutes h n (clear_ipv4 h n luid c).0
unfolding clear_ipv4 delete_address
clear_ipv4-routes h n luid c = ground arith

pub clear_dns-routes :
    (h : IpHelper) (n : WindowsNetConfigurator h) (luid : ℕ) → SameRoutes h n (clear_dns h n luid).0
unfolding clear_dns unset_dns
clear_dns-routes h n luid = ground arith

pub bypass-refused :
    (h : IpHelper) (n : WindowsNetConfigurator h) (endpoint : Bytes) (luid : ℕ)
    → (apply_endpoint_bypass_route h n endpoint luid).1 ≡ false
    → SameRoutes h n (apply_endpoint_bypass_route h n endpoint luid).0
unfolding apply_endpoint_bypass_route bypass_to add_bypass
bypass-refused h n endpoint luid e = ground arith

-- A start that fails has ended the worker.
start_worker-failed :
    (h : IpHelper) (m : SmartRouteManager) (n : WindowsNetConfigurator h)
    → (start_worker h m n).2 ≡ false
    → (start_worker h m n).0.worker ≡ m.worker
unfolding start_worker
start_worker-failed h m n e = ground arith

start_cidrs-failed :
    (h : IpHelper) (files : Files) (m : SmartRouteManager) (n : WindowsNetConfigurator h)
    → (start_cidrs h files m n).2 ≡ false
    → (start_cidrs h files m n).0.worker ≡ m.worker
unfolding start_cidrs
start_cidrs-failed h files m n e = grind (arith, start_worker-failed h)

start_domains-failed :
    (h : IpHelper) (files : Files) (m : SmartRouteManager) (n : WindowsNetConfigurator h)
    → (start_domains h files m n).2 ≡ false
    → (start_domains h files m n).0.worker ≡ m.worker
unfolding start_domains
start_domains-failed h files m n e = grind (arith, start_cidrs-failed h files)

pub start-failed :
    (h : IpHelper) (files : Files) (m : SmartRouteManager) (n : WindowsNetConfigurator h)
    (o : Options)
    → (SmartRoute.start h files m n o).2 ≡ false
    → (SmartRoute.start h files m n o).0.worker ≡ false
unfolding SmartRoute.start
start-failed h files m n o e =
    ground (arith, start_domains-failed h files (record (SmartRoute.stop h m) { options = o }) n)
