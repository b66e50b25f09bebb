-- ===== src/Wintun/Calls.antt =====
-- Any calls of the Wintun interface, from its constructor on.
use secure_tunnel_cpp.Prelude.{
  ℕ, refl, inl, inr, Bool, false, none, List, [], ◌∷◌, arith, Bytes, codes,
}
use secure_tunnel_cpp.Config.{TunnelConfig, Ipv4InterfaceConfig}
use secure_tunnel_cpp.NetConfig.{IpHelper, new_configurator}
use secure_tunnel_cpp.SmartRoute.{Files, SmartRouteManager}
use secure_tunnel_cpp.Wintun.Loader.{Windows}
use secure_tunnel_cpp.Wintun.Adapter.{
  Driver, WintunVirtualInterface, clear_routes, close, open', read_packet, write_packet,
}
use secure_tunnel_cpp.Wintun.Routing.{apply_client_routing, worker_round}
use secure_tunnel_cpp.Wintun.Lifecycle.{IsSound, IsClosed, close-IsClosed}
use secure_tunnel_cpp.Wintun.Opening.{open-Outcome}
use secure_tunnel_cpp.Wintun.Handles.{
  SameHandles-IsSound, routing-SameHandles, clear_routes-SameHandles, read_packet-keeps,
  write_packet-keeps, worker_round-SameHandles, worker_round-IsClean, same_routing-IsClean,
}
use secure_tunnel_cpp.Wintun.Clean.{
  IsClean, IsUnrouted, close-IsUnrouted, open-IsUnrouted, clear_routes-IsUnrouted,
  apply_client_routing-IsClean,
}

-- A constructed manager of smart routes, with the initialisers of its options.
abbrev pub new_manager : SmartRouteManager
new_manager = record {
  options = record {
    tunnel_luid = 0;
    gateway_ipv4 = codes "10.66.66.1";
    domain_list_path = [];
    cidr_list_path = [];
    refresh_interval = 300;
  };
  domains = [];
  cidrs = [];
  stop_requested = false;
  applied_route_count = 0;
  worker = false;
}

module _ (h : IpHelper) (d : Driver) (w : Windows) where
  -- The constructor.
  abbrev pub new_interface :
      ℕ → Ipv4InterfaceConfig → h.State → d.State → w.State → WintunVirtualInterface h d w
  new_interface ring_capacity ipv4_config system driver windows = record {
    ring_capacity = ring_capacity;
    ipv4_config = ipv4_config;
    mtu = 0;
    network_applied = false;
    client_routes_applied = false;
    loader = record { windows = windows; library_module = none; resolved = []; last_error = false };
    net_config = new_configurator h system;
    smart_route_manager = new_manager;
    adapter = none;
    session = none;
    last_error = false;
    driver = driver;
  }

  -- The public calls, and a refresh by the worker between them.
  pub data Call : Type 0 where
    opens : ℕ → Call
    closes : Call
    routes : Files → TunnelConfig → Call
    clears : Call
    reads : Call
    writes : Bytes → Call
    refreshes : List Bool → Call

  unfoldable pub step : WintunVirtualInterface h d w → Call → WintunVirtualInterface h d w
  step v (opens mtu) = (open' h d w v mtu).0
  step v closes = close h d w v
  step v (routes files config) = (apply_client_routing h d w files v config).0
  step v clears = clear_routes h d w v
  step v reads = (read_packet h d w v).0
  step v (writes packet) = (write_packet h d w v packet).0
  step v (refreshes stops) = worker_round h d w stops v

  unfoldable pub run : WintunVirtualInterface h d w → List Call → WintunVirtualInterface h d w
  run v [] = v
  run v (c ∷ cs) = run (step v c) cs

  -- Both invariants.
  abbrev pub IsWell : WintunVirtualInterface h d w → Type 0
  IsWell v = IsSound h d w v × IsClean h d w v

  open-IsSound :
      (v : WintunVirtualInterface h d w) (mtu : ℕ)
      → IsSound h d w v
      → IsSound h d w (open' h d w v mtu).0
  open-IsSound v mtu sound = elim (open-Outcome h d w v mtu sound) [
    | inl (ok, checked, opened) ↦ (
      λ down. absurd (ground (arith, opened.can_end)),
      λ down. absurd (ground (arith, opened.can_close)),
    )
    | inr (bad, released) ↦ (λ down. released.session, λ down. released.adapter)
  ]

  pub step-IsWell : (v : WintunVirtualInterface h d w) (c : Call) → IsWell v → IsWell (step v c)
  unfolding step
  step-IsWell v (opens mtu) (sound, clean) =
      (open-IsSound v mtu sound, λ down. open-IsUnrouted h d w v mtu clean)
  step-IsWell v closes (sound, clean) =
      let closed = close-IsClosed h d w v sound in
      ((λ e. closed.session, λ e. closed.adapter), λ down. close-IsUnrouted h d w v clean)
  step-IsWell v (routes files config) (sound, clean) = (
    SameHandles-IsSound h d w v (apply_client_routing h d w files v config).0
        (routing-SameHandles h d w files v config) sound,
    apply_client_routing-IsClean h d w files v config clean,
  )
  step-IsWell v clears (sound, clean) = (
    SameHandles-IsSound h d w v (clear_routes h d w v) (clear_routes-SameHandles h d w v) sound,
    λ down. clear_routes-IsUnrouted h d w v clean,
  )
  step-IsWell v reads (sound, clean) =
      let (handles, n, m, f) = read_packet-keeps h d w v in
      (
        SameHandles-IsSound h d w v (read_packet h d w v).0 handles sound,
        same_routing-IsClean h d w v (read_packet h d w v).0 n m f clean,
      )
  step-IsWell v (writes packet) (sound, clean) =
      let (handles, n, m, f) = write_packet-keeps h d w v packet in
      (
        SameHandles-IsSound h d w v (write_packet h d w v packet).0 handles sound,
        same_routing-IsClean h d w v (write_packet h d w v packet).0 n m f clean,
      )
  step-IsWell v (refreshes stops) (sound, clean) = (
    SameHandles-IsSound h d w v (worker_round h d w stops v)
        (worker_round-SameHandles h d w stops v) sound,
    worker_round-IsClean h d w stops v clean,
  )

  run_from-IsWell :
      (v : WintunVirtualInterface h d w) (cs : List Call) → IsWell v → IsWell (run v cs)
  unfolding run
  run_from-IsWell v [] well = well
  run_from-IsWell v (c ∷ cs) well = run_from-IsWell (step v c) cs (step-IsWell v c well)

  -- Whatever has been called on a new interface, refused calls and refreshes by the worker among
  -- them, and whatever the driver, the system and the files answer: `close` then leaves no session,
  -- no adapter and no library, no worker, no address flag and no listed or applied route.
  pub close_takes_all_back :
      (ring_capacity : ℕ) (config : Ipv4InterfaceConfig) (system : h.State) (driver : d.State)
      (windows : w.State) (cs : List Call)
      → IsClosed h d w
          (close h d w (run (new_interface ring_capacity config system driver windows) cs))
        × IsUnrouted h d w
            (close h d w (run (new_interface ring_capacity config system driver windows) cs))
  close_takes_all_back ring_capacity config system driver windows cs =
      let new = new_interface ring_capacity config system driver windows in
      let (sound, clean) =
        run_from-IsWell new cs ((λ e. refl, λ e. refl), λ e. (refl, (refl, refl, refl))) in
      let last = run new cs in (close-IsClosed h d w last sound, close-IsUnrouted h d w last clean)
