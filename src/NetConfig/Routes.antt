-- ===== src/NetConfig/Routes.antt =====
-- The routes of the client, src/windows_net_config.cpp: the bypass route to the server, the
-- default route and the prefix routes through the tunnel, and their removal.
use secure_tunnel_cpp.Prelude.{
  ℕ, Bool, true, false, ◌&&◌, ◌||◌, not, Option, none, some, List, [], ◌∷◌, ◌++◌, ltb, ◌==◌,
  if◌then◌else◌, length, Bytes, codes,
}
use secure_tunnel_cpp.Config.{is_loopback}
use secure_tunnel_cpp.NetConfig.{
  Row, IpHelper, WindowsNetConfigurator, SelectiveRouteKey, key_eq, fill_ipv4_forward_row, masked,
  parse_ipv4, refuse, clear_error, created,
}

-- A row that can serve as the gateway beside the tunnel.
abbrev pub eligible : ℕ → Row → Bool
eligible tunnel_luid row =
    row.prefix_length == 0
    && (not (row.interface_luid == tunnel_luid) && (row.ipv4 && not (row.next_hop == 0)))

-- The best of the rows so far and an eligible one.
abbrev pub better : Option Row → Row → Row
better none row = row
better (some best) row = if ltb row.metric best.metric then row else best

-- The loop over the table, with the best row so far.
unfoldable pub best_row : ℕ → List Row → Option Row → Option Row
best_row tunnel_luid [] best = best
best_row tunnel_luid (row ∷ rows) best =
    best_row tunnel_luid rows
      (if not (eligible tunnel_luid row) then best else some (better best row))

-- `existing == key` for an existing route.
unfoldable pub contains_key : List SelectiveRouteKey → SelectiveRouteKey → Bool
contains_key [] key = false
contains_key (existing ∷ rest) key = key_eq existing key || contains_key rest key

module _ (h : IpHelper) where
  -- `CreateIpForwardEntry2`: the helper after it, and whether the route is there.
  abbrev pub create_route : WindowsNetConfigurator h → Row → WindowsNetConfigurator h × Bool
  create_route n row =
      let (s, status) = h.create_ip_forward_entry n.system row in
      (record n { system = s }, created status)

  -- `delete_forward_row`, whose result nobody reads.
  abbrev pub delete_forward_row : h.State → ℕ → ℕ → ℕ → ℕ → h.State
  delete_forward_row s luid destination prefix gateway =
      (h.delete_ip_forward_entry s (fill_ipv4_forward_row luid destination prefix gateway)).0

  -- A dotted address, or a text that is kept where it cannot be printed.
  abbrev pub dotted_or : ℕ → Bytes → Bytes
  dotted_or address text = elim (h.inet_ntop address) [ none ↦ text | some t ↦ t ]

  -- From the row of the best gateway on.
  unfoldable pub add_bypass :
      WindowsNetConfigurator h → Bytes → ℕ → Row → WindowsNetConfigurator h × Bool
  add_bypass n endpoint destination best =
      let (n', there) =
        create_route n (fill_ipv4_forward_row best.interface_luid destination 32 best.next_hop) in
      if not there then refuse h n' else (
        record n' {
          bypass_route_applied = true;
          bypass_interface_luid = best.interface_luid;
          bypass_gateway = dotted_or best.next_hop (codes "0.0.0.0");
          bypass_destination = dotted_or destination endpoint;
        },
        true,
      )

  -- From the address of the server on.
  unfoldable pub bypass_to :
      WindowsNetConfigurator h → Bytes → ℕ → ℕ → WindowsNetConfigurator h × Bool
  bypass_to n endpoint tunnel_luid destination = elim (h.get_ip_forward_table n.system) [
    | none ↦ refuse h n
    | some table ↦ elim (best_row tunnel_luid table none) [
      | none ↦ refuse h n
      | some best ↦ add_bypass n endpoint destination best
    ]
  ]

  unfoldable pub apply_endpoint_bypass_route :
      WindowsNetConfigurator h → Bytes → ℕ → WindowsNetConfigurator h × Bool
  apply_endpoint_bypass_route n endpoint tunnel_luid =
      let n' = clear_error h n in
      if is_loopback endpoint
      then (n', true)
      else if not h.wsa_startup
      then refuse h n'
      else elim (h.getaddrinfo n'.system endpoint) [
        | [] ↦ refuse h n'
        | destination ∷ more ↦ bypass_to n' endpoint tunnel_luid destination
      ]

  unfoldable pub add_default :
      WindowsNetConfigurator h → ℕ → Bytes → ℕ → WindowsNetConfigurator h × Bool
  add_default n luid gateway address =
      let (n', there) = create_route n (fill_ipv4_forward_row luid 0 0 address) in
      if not there then refuse h n' else (
        record n' {
          default_route_applied = true;
          default_tunnel_luid = luid;
          default_gateway = gateway;
        },
        true,
      )

  unfoldable pub apply_global_default_route :
      WindowsNetConfigurator h → ℕ → Bytes → WindowsNetConfigurator h × Bool
  apply_global_default_route n luid gateway =
      let n' = clear_error h n in
      if luid == 0 then refuse h n' else elim (parse_ipv4 h gateway) [
        | none ↦ refuse h n'
        | some address ↦ add_default n' luid gateway address
      ]

  -- The row of a key whose gateway has this address.
  abbrev pub row_of : SelectiveRouteKey → ℕ → Row
  row_of key gateway =
      fill_ipv4_forward_row key.tunnel_luid key.destination_host_order key.prefix_length gateway

  -- From the key on.
  unfoldable pub add_key :
      WindowsNetConfigurator h → SelectiveRouteKey → ℕ → WindowsNetConfigurator h × Bool
  add_key n key gateway =
      if contains_key n.selective_routes key
      then (n, true)
      else let (n', there) = create_route n (row_of key gateway) in
        if not there
        then refuse h n'
        else (record n' { selective_routes = n'.selective_routes ++ key ∷ [] }, true)

  abbrev pub key_of : ℕ → ℕ → ℕ → Bytes → SelectiveRouteKey
  key_of luid destination prefix gateway = record {
    tunnel_luid = luid;
    destination_host_order = masked destination prefix;
    prefix_length = prefix;
    gateway = gateway;
  }

  unfoldable pub apply_prefix_route :
      WindowsNetConfigurator h → ℕ → Bytes → ℕ → Bytes → WindowsNetConfigurator h × Bool
  apply_prefix_route n luid destination_ipv4 prefix gateway_ipv4 =
      let n' = clear_error h n in
      if luid == 0
      then refuse h n'
      else if ltb 32 prefix
      then refuse h n'
      else elim (parse_ipv4 h destination_ipv4) [
        | none ↦ refuse h n'
        | some destination ↦ elim (parse_ipv4 h gateway_ipv4) [
          | none ↦ refuse h n'
          | some gateway ↦ add_key n' (key_of luid destination prefix gateway_ipv4) gateway
        ]
      ]

  -- The deletion of one prefix route.
  unfoldable pub delete_key : h.State → SelectiveRouteKey → h.State
  delete_key s key = elim (parse_ipv4 h key.gateway) [
    | none ↦ s
    | some gateway ↦
        delete_forward_row s key.tunnel_luid key.destination_host_order key.prefix_length gateway
  ]

  unfoldable pub delete_keys : h.State → List SelectiveRouteKey → h.State
  delete_keys s [] = s
  delete_keys s (key ∷ keys) = delete_keys (delete_key s key) keys

  unfoldable pub clear_default : WindowsNetConfigurator h → WindowsNetConfigurator h
  clear_default n =
      if n.default_route_applied
      then record n {
        system = elim (parse_ipv4 h n.default_gateway) [
          | none ↦ n.system
          | some gateway ↦ delete_forward_row n.system n.default_tunnel_luid 0 0 gateway
        ];
        default_route_applied = false;
        default_tunnel_luid = 0;
        default_gateway = [];
      }
      else n

  -- The bypass route, where both of its texts are addresses.
  unfoldable pub delete_bypass : WindowsNetConfigurator h → h.State
  delete_bypass n = elim (parse_ipv4 h n.bypass_destination) [
    | none ↦ n.system
    | some destination ↦ elim (parse_ipv4 h n.bypass_gateway) [
      | none ↦ n.system
      | some gateway ↦ delete_forward_row n.system n.bypass_interface_luid destination 32 gateway
    ]
  ]

  unfoldable pub clear_bypass : WindowsNetConfigurator h → WindowsNetConfigurator h
  clear_bypass n =
      if n.bypass_route_applied
      then record n {
        system = delete_bypass n;
        bypass_route_applied = false;
        bypass_destination = [];
        bypass_gateway = [];
        bypass_interface_luid = 0;
      }
      else n

  unfoldable pub clear_client_routes : WindowsNetConfigurator h → WindowsNetConfigurator h
  clear_client_routes n = clear_bypass (
      clear_default
        (record n { system = delete_keys n.system n.selective_routes; selective_routes = [] }))

  abbrev pub selective_route_count : WindowsNetConfigurator h → ℕ
  selective_route_count n = length n.selective_routes
