-- ===== src/Config.antt =====
-- include/tunnel/config.hpp, include/tunnel/routing_mode.hpp and src/config.cpp, as built for
-- Windows; on other systems the check ends after `check_portable`. A std::string is the list of
-- its bytes. The Windows address parser is `parse_ipv4`, an argument: see NetConfig.antt.
pub mod Safety
use secure_tunnel_cpp.Prelude.{
  ℕ, zero, suc, ◌+◌, ◌-◌, ◌*◌, ◌/◌, ◌%◌, ◌^◌, ◌≤◌, ◌<◌, min, max, bit_and, ◌≡◌, refl, sym, ap, ◌∙◌,
  subst, ◌≢◌, ◌↔◌, ◌⊎◌, inl, inr, Bool, true, false, ◌&&◌, ◌||◌, not, Option, none, some, List, [],
  ◌∷◌, ◌++◌, map, append-nil, append_assoc, arith, ltb, leb, ◌==◌, if◌then◌else◌, ltb→lt, lt→ltb,
  leb→le, ltb→le, le→ltb, ==_iff, ==_refl, Bool-cases, Option-cases, length, get_or, take, drop,
  length-append, length-take, length-drop, take-append, drop-append, take_all, take-append_drop,
  take_prefix, drop_prefix, drop-drop, All, All-append, All-take, All-drop, Bytes, IsByte, codes,
  is_empty, text_eq, text_eq_sound, text_eq_refl,
}

pub data Role : Type 0 where
  client server : Role

abbrev pub is_client : Role → Bool
is_client client = true
is_client server = false

abbrev pub is_server : Role → Bool
is_server client = false
is_server server = true

pub data ClientRoutingMode : Type 0 where
  no_routing smart global : ClientRoutingMode

abbrev pub is_none : ClientRoutingMode → Bool
is_none no_routing = true
is_none _ = false

abbrev pub is_smart : ClientRoutingMode → Bool
is_smart smart = true
is_smart _ = false

abbrev pub is_global : ClientRoutingMode → Bool
is_global global = true
is_global _ = false

pub record QuicTransportConfig : Type 0 where
  pub alpn : Bytes
  pub cert_hash : Bytes
  pub cert_file : Bytes
  pub key_file : Bytes
  pub insecure : Bool
  pub idle_timeout_ms : ℕ

pub record DataPlaneConfig : Type 0 where
  pub batch_size : ℕ
  pub idle_sleep_ms : ℕ
  pub buffer_pool_capacity : ℕ
  pub buffer_default_capacity : ℕ

pub record Ipv4InterfaceConfig : Type 0 where
  pub address : Bytes
  pub prefix_length : ℕ
  pub dns : Bytes
  pub apply_on_open : Bool

pub record TunnelConfig : Type 0 where
  pub role : Role
  pub endpoint : Bytes
  pub port : ℕ
  pub mtu : ℕ
  pub prefer_quic : Bool
  pub quic : QuicTransportConfig
  pub psk_hex : Bytes
  pub data_plane : DataPlaneConfig
  pub allow_zero_rtt : Bool
  pub ipv4 : Ipv4InterfaceConfig
  pub enable_global_default_route : Bool
  pub client_routing_mode : ClientRoutingMode
  pub default_route_gateway : Bytes
  pub smart_route_domain_list : Bytes
  pub smart_route_cidr_list : Bytes

-- The default member initialisers, for Windows.
abbrev pub default_config : TunnelConfig
default_config = record {
  role = client;
  endpoint = codes "127.0.0.1";
  port = 443;
  mtu = 1280;
  prefer_quic = false;
  quic = record {
    alpn = codes "sectunnel";
    cert_hash = [];
    cert_file = [];
    key_file = [];
    insecure = false;
    idle_timeout_ms = 30000;
  };
  psk_hex = [];
  data_plane = record {
    batch_size = 8;
    idle_sleep_ms = 1;
    buffer_pool_capacity = 16;
    buffer_default_capacity = 2048;
  };
  allow_zero_rtt = false;
  ipv4 = record {
    address = codes "10.66.66.2";
    prefix_length = 24;
    dns = codes "1.1.1.1";
    apply_on_open = true;
  };
  enable_global_default_route = false;
  client_routing_mode = no_routing;
  default_route_gateway = codes "10.66.66.1";
  smart_route_domain_list = codes "config/smart_route_domains.txt";
  smart_route_cidr_list = codes "config/smart_route_cidrs.txt";
}

-- The messages, in the order of the tests. `bad_address` is what `parse_ipv4` reports.
pub data ConfigError : Type 0 where
  empty_endpoint bad_port bad_mtu zero_rtt_forbidden : ConfigError
  empty_alpn insecure_server insecure_remote missing_certificate : ConfigError
  conflicting_routes routing_needs_client routing_needs_quic : ConfigError
  empty_smart_lists bad_prefix_length : ConfigError
  bad_address : Bytes → ConfigError

-- A check that passes gives `none`; one that fails gives its message and ends the function.
infixr 30 ◌then_check◌
abbrev pub ◌then_check◌ : Option ConfigError → Option ConfigError → Option ConfigError
none then_check next = next
some e then_check next = some e

abbrev pub reject_if : Bool → ConfigError → Option ConfigError
reject_if b e = if b then some e else none

abbrev pub loopback_v4 : Bytes
loopback_v4 = codes "127.0.0.1"

abbrev pub localhost : Bytes
localhost = codes "localhost"

abbrev pub is_loopback : Bytes → Bool
is_loopback host = text_eq host loopback_v4 || text_eq host localhost

-- `if (prefer_quic) { ... }`
unfoldable pub check_quic : TunnelConfig → Option ConfigError
check_quic c =
    reject_if (is_empty c.quic.alpn) empty_alpn
    then_check reject_if (c.quic.insecure && not (is_client c.role)) insecure_server
    then_check reject_if (c.quic.insecure && not (is_loopback c.endpoint)) insecure_remote
    then_check reject_if
        (is_server c.role
          && (is_empty c.quic.cert_hash
              && not (not (is_empty c.quic.cert_file) && not (is_empty c.quic.key_file))))
        missing_certificate

unfoldable pub check_portable : TunnelConfig → Option ConfigError
unfolding check_quic
check_portable c =
    reject_if (is_empty c.endpoint) empty_endpoint
    then_check reject_if (c.port == 0) bad_port
    then_check reject_if (ltb c.mtu 1280 || ltb 1420 c.mtu) bad_mtu
    then_check reject_if c.allow_zero_rtt zero_rtt_forbidden
    then_check (if c.prefer_quic then check_quic c else none)

abbrev pub routing_active : TunnelConfig → Bool
routing_active c =
    c.enable_global_default_route
    || (is_smart c.client_routing_mode || is_global c.client_routing_mode)

module _ (parse_ipv4 : Bytes → Option ℕ) where
  abbrev check_address : Bytes → Option ConfigError
  check_address text = elim (parse_ipv4 text) [ none ↦ some (bad_address text) | some _ ↦ none ]

  unfoldable pub check_windows : TunnelConfig → Option ConfigError
  check_windows c =
      reject_if
        (c.enable_global_default_route
          && (not (is_none c.client_routing_mode) && not (is_global c.client_routing_mode)))
        conflicting_routes
      then_check (if routing_active c
          then reject_if (not (is_client c.role)) routing_needs_client
            then_check reject_if (not c.prefer_quic) routing_needs_quic
            then_check check_address c.default_route_gateway
          else none)
      then_check reject_if
          (is_smart c.client_routing_mode
            && (is_empty c.smart_route_domain_list && is_empty c.smart_route_cidr_list))
          empty_smart_lists
      then_check (if c.ipv4.apply_on_open
          then check_address c.ipv4.address
            then_check reject_if (c.ipv4.prefix_length == 0 || ltb 32 c.ipv4.prefix_length)
                bad_prefix_length
            then_check (if is_empty c.ipv4.dns then none else check_address c.ipv4.dns)
          else none)

  -- `none` stands for `error.clear(); return true`.
  unfoldable pub validate : TunnelConfig → Option ConfigError
  unfolding check_portable check_windows
  validate c = check_portable c then_check check_windows c

  unfoldable pub is_valid : TunnelConfig → Bool
  unfolding validate
  is_valid c = elim (validate c) [ none ↦ true | some _ ↦ false ]
