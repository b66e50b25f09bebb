-- ===== src/Wintun/Adapter.antt =====
-- `WintunVirtualInterface` of src/wintun_virtual_interface.cpp: its state, `open`, the packets and
-- `close`. The driver's functions are the fields of `Driver`; a handle is a number. `has` says whether
-- the loader's pointer of a function is not null. The manager of smart routes and the helper for the
-- network are fields, as in the source.
use secure_tunnel_cpp.Prelude.{
  ℕ, ◌-◌, bit_and, Bool, true, false, ◌||◌, not, Option, none, some, [], ltb, ◌==◌, if◌then◌else◌,
  length, Bytes, is_empty,
}
use secure_tunnel_cpp.Config.{Ipv4InterfaceConfig}
use secure_tunnel_cpp.NetConfig.{IpHelper, WindowsNetConfigurator}
use secure_tunnel_cpp.NetConfig.Address.{apply_ipv4, clear_ipv4, clear_dns}
use secure_tunnel_cpp.NetConfig.Routes.{clear_client_routes}
use secure_tunnel_cpp.SmartRoute.{SmartRouteManager}
use secure_tunnel_cpp.SmartRoute
use secure_tunnel_cpp.Wintun.Loader.{Windows, WintunLoader, Export, has, load, unload}

-- `receive_packet` gives `none` for a null pointer, and `no_more_items` says whether the error is then
-- ERROR_NO_MORE_ITEMS; a received packet is released at once.
pub record Driver : Type 1 where
  pub State : Type 0
  pub open_adapter : State → State × Option ℕ
  pub create_adapter : State → State × Option ℕ
  pub close_adapter : State → ℕ → State
  pub start_session : State → ℕ → ℕ → State × Option ℕ
  pub end_session : State → ℕ → State
  pub adapter_luid : ℕ → ℕ
  pub receive_packet : State → ℕ → State × Option Bytes
  pub no_more_items : State → Bool
  pub allocate_send_packet : State → ℕ → ℕ → State × Bool
  pub send_packet : State → ℕ → Bytes → State

module _ (h : IpHelper) (d : Driver) (w : Windows) where
  pub record WintunVirtualInterface : Type 0 where
    pub ring_capacity : ℕ
    pub ipv4_config : Ipv4InterfaceConfig
    pub mtu : ℕ
    pub network_applied : Bool
    pub client_routes_applied : Bool
    pub loader : WintunLoader w
    pub net_config : WindowsNetConfigurator h
    pub smart_route_manager : SmartRouteManager
    pub adapter : Option ℕ
    pub session : Option ℕ
    pub last_error : Bool
    pub driver : d.State

  abbrev pub fail : WintunVirtualInterface → WintunVirtualInterface × Bool
  fail v = (record v { last_error = true }, false)

  abbrev pub is_open : WintunVirtualInterface → Bool
  is_open v = elim (v.session) [
    | none ↦ false
    | some s ↦ elim (v.adapter) [ none ↦ false | some a ↦ true ]
  ]

  abbrev pub adapter_luid_value : WintunVirtualInterface → ℕ
  adapter_luid_value v = elim (v.adapter) [
    | none ↦ 0
    | some a ↦ if not (has w v.loader Export.get_adapter_luid) then 0 else d.adapter_luid a
  ]

  unfoldable pub apply_network_config : WintunVirtualInterface → WintunVirtualInterface × Bool
  apply_network_config v =
      if not v.ipv4_config.apply_on_open
      then (v, true)
      else if adapter_luid_value v == 0
      then fail v
      else let (n, applied) = apply_ipv4 h v.net_config (adapter_luid_value v) v.ipv4_config in
        let v' : WintunVirtualInterface = record v { net_config = n } in
        if not applied
        then (record v' { last_error = n.last_error }, false)
        else (record v' { network_applied = true }, true)

  -- `clear_client_routing` is this function.
  unfoldable pub clear_routes : WintunVirtualInterface → WintunVirtualInterface
  clear_routes v =
      let v' : WintunVirtualInterface = record v {
        smart_route_manager = SmartRoute.stop h v.smart_route_manager;
      } in
      if not v.client_routes_applied then v' else record v' {
        net_config = clear_client_routes h v.net_config;
        client_routes_applied = false;
      }

  -- The address and the DNS server are taken back where the adapter has a LUID.
  abbrev pub cleared_address : WintunVirtualInterface → WindowsNetConfigurator h
  cleared_address v =
      let luid = adapter_luid_value v in
      if not (luid == 0)
      then (let n = (clear_ipv4 h v.net_config luid v.ipv4_config).0 in
          if not (is_empty v.ipv4_config.dns) then (clear_dns h n luid).0 else n)
      else v.net_config

  unfoldable pub clear_network_config : WintunVirtualInterface → WintunVirtualInterface
  clear_network_config v =
      let v' = clear_routes v in
      if not v'.network_applied
      then v'
      else record v' { net_config = cleared_address v'; network_applied = false }

  unfoldable pub end_session : WintunVirtualInterface → WintunVirtualInterface
  end_session v = elim (v.session) [
    | none ↦ v
    | some s ↦
        if not (has w v.loader Export.end_session)
        then v
        else record v { driver = d.end_session v.driver s; session = none }
  ]

  unfoldable pub close_adapter : WintunVirtualInterface → WintunVirtualInterface
  close_adapter v = elim (v.adapter) [
    | none ↦ v
    | some a ↦
        if not (has w v.loader Export.close_adapter)
        then v
        else record v { driver = d.close_adapter v.driver a; adapter = none }
  ]

  unfoldable pub close : WintunVirtualInterface → WintunVirtualInterface
  close v =
      let v' = close_adapter (end_session (clear_network_config v)) in
      record v' { mtu = 0; loader = unload w v'.loader }

  -- `end_session`, `close_adapter` and `unload` where the network cannot be configured.
  unfoldable pub open_network : WintunVirtualInterface → ℕ → ℕ → WintunVirtualInterface × Bool
  open_network v adapter session =
      let (v', applied) = apply_network_config v in
      if not applied
      then (
        record v' {
          driver = d.close_adapter (d.end_session v'.driver session) adapter;
          session = none;
          adapter = none;
          loader = unload w v'.loader;
        },
        false,
      )
      else (record v' { last_error = false }, true)

  -- From the adapter on.
  unfoldable pub open_session : WintunVirtualInterface → ℕ → ℕ → WintunVirtualInterface × Bool
  open_session v mtu adapter =
      let (s, session) = d.start_session v.driver adapter v.ring_capacity in
      elim session [
        | none ↦ (
          record v {
            driver = d.close_adapter s adapter;
            adapter = none;
            loader = unload w v.loader;
            last_error = true;
          },
          false,
        )
        | some session ↦
            open_network
              (record v { driver = s; adapter = some adapter; session = some session; mtu = mtu })
              adapter session
      ]

  -- An adapter that exists, or else a new one.
  abbrev pub open_or_create : d.State → d.State × Option ℕ
  open_or_create s =
      let (s', opened) = d.open_adapter s in
      elim opened [ none ↦ d.create_adapter s' | some a ↦ (s', some a) ]

  unfoldable pub open_adapter : WintunVirtualInterface → ℕ → WintunVirtualInterface × Bool
  open_adapter v mtu =
      let (s, adapter) = open_or_create v.driver in
      let v' : WintunVirtualInterface = record v { driver = s } in
      elim adapter [
        | none ↦ (record v' { loader = unload w v'.loader; last_error = true }, false)
        | some a ↦ open_session v' mtu a
      ]

  -- `(capacity & (capacity - 1)) != 0` is that the capacity is no power of two.
  abbrev pub ring_is_valid : ℕ → Bool
  ring_is_valid capacity = not (
      ltb capacity 0x20000
      || (ltb 0x4000000 capacity || not (bit_and capacity (capacity - 1) == 0)))

  unfoldable pub open' : WintunVirtualInterface → ℕ → WintunVirtualInterface × Bool
  open' v mtu =
      let v' = close v in
      if ltb mtu 1280 || ltb 1420 mtu
      then fail v'
      else if not (ring_is_valid v'.ring_capacity)
      then fail v'
      else let (l, loaded) = load w v'.loader [] in
        let v'' : WintunVirtualInterface = record v' { loader = l } in
        if not loaded
        then (record v'' { last_error = l.last_error }, false)
        else open_adapter v'' mtu

  -- A failure that is ERROR_NO_MORE_ITEMS is no error.
  unfoldable pub read_packet : WintunVirtualInterface → WintunVirtualInterface × Bytes
  read_packet v = elim (v.session) [
    | none ↦ (v, [])
    | some s ↦
        if not (has w v.loader Export.receive_packet)
        then (v, [])
        else let (st, raw) = d.receive_packet v.driver s in
          let v' : WintunVirtualInterface = record v { driver = st } in
          elim raw [
            | none ↦ ((if d.no_more_items st then v' else record v' { last_error = true }), [])
            | some packet ↦ (v', packet)
          ]
  ]

  unfoldable pub write_packet : WintunVirtualInterface → Bytes → WintunVirtualInterface × Bool
  write_packet v packet = elim (v.session) [
    | none ↦ (v, false)
    | some s ↦
        if not (has w v.loader Export.allocate_send_packet)
          || not (has w v.loader Export.send_packet)
        then (v, false)
        else if is_empty packet || ltb v.mtu (length packet)
        then fail v
        else let (st, allocated) = d.allocate_send_packet v.driver s (length packet) in
          let v' : WintunVirtualInterface = record v { driver = st } in
          if not allocated
          then fail v'
          else (record v' { driver = d.send_packet st s packet }, true)
  ]
