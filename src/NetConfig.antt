-- ===== src/NetConfig.antt =====
-- src/windows_net_config.cpp: the class `WindowsNetConfigurator`. The calls of Windows are the
-- fields of `IpHelper`; a status is a number, and `none` stands for a failed call. The state of the
-- system is a field of the model's record. An error is whether its text is not empty; the `error`
-- argument of the routes is not empty exactly when they return false.
pub mod Address
pub mod Routes
pub mod Best
pub mod KeyLaws
pub mod Keys
pub mod Again
pub mod Clear
use secure_tunnel_cpp.Prelude.{
  ℕ, zero, suc, ◌+◌, ◌-◌, ◌*◌, ◌/◌, ◌%◌, ◌^◌, ◌≤◌, ◌<◌, min, max, bit_and, ◌≡◌, refl, sym, ap, ◌∙◌,
  subst, ◌≢◌, ◌↔◌, ◌⊎◌, inl, inr, Bool, true, false, ◌&&◌, ◌||◌, not, Option, none, some, List, [],
  ◌∷◌, ◌++◌, map, append-nil, append_assoc, arith, ltb, leb, ◌==◌, if◌then◌else◌, ltb→lt, lt→ltb,
  leb→le, ltb→le, le→ltb, ==_iff, ==_refl, Bool-cases, Option-cases, length, get_or, take, drop,
  length-append, length-take, length-drop, take-append, drop-append, take_all, take-append_drop,
  take_prefix, drop_prefix, drop-drop, All, All-append, All-take, All-drop, Bytes, IsByte, codes,
  is_empty, text_eq, text_eq_sound, text_eq_refl,
}

-- MIB_IPFORWARD_ROW2, with addresses in host order; `ipv4` says that the next hop has one.
pub record Row : Type 0 where
  pub interface_luid : ℕ
  pub destination : ℕ
  pub prefix_length : ℕ
  pub ipv4 : Bool
  pub next_hop : ℕ
  pub metric : ℕ

-- `wsa_startup` is the result of the one call that `ensure_winsock` makes; `getaddrinfo` gives the
-- addresses of a host, none where it fails. An interface's DNS setting is a text.
pub record IpHelper : Type 1 where
  pub State : Type 0
  pub wsa_startup : Bool
  pub inet_pton : Bytes → Option ℕ
  pub inet_ntop : ℕ → Option Bytes
  pub getaddrinfo : State → Bytes → List ℕ
  pub get_ip_forward_table : State → Option (List Row)
  pub create_ip_forward_entry : State → Row → State × ℕ
  pub delete_ip_forward_entry : State → Row → State × ℕ
  pub create_unicast_ip_address_entry : State → ℕ → ℕ → ℕ → State × ℕ
  pub delete_unicast_ip_address_entry : State → ℕ → ℕ → ℕ → State × ℕ
  pub convert_interface_luid_to_guid : ℕ → Option ℕ
  pub get_module_handle : Bool
  pub load_library : Bool
  pub set_interface_dns_settings : Option (State → ℕ → Bytes → State × ℕ)

abbrev pub no_error : ℕ
no_error = 0

abbrev pub error_not_found : ℕ
error_not_found = 1168

abbrev pub error_object_already_exists : ℕ
error_object_already_exists = 5010

-- `status == NO_ERROR || status == ERROR_OBJECT_ALREADY_EXISTS`, and the one for deletions.
abbrev pub created : ℕ → Bool
created status = status == no_error || status == error_object_already_exists

abbrev pub deleted : ℕ → Bool
deleted status = status == no_error || status == error_not_found

pub record SelectiveRouteKey : Type 0 where
  pub tunnel_luid : ℕ
  pub destination_host_order : ℕ
  pub prefix_length : ℕ
  pub gateway : Bytes

-- `operator==`.
abbrev pub key_eq : SelectiveRouteKey → SelectiveRouteKey → Bool
key_eq a b =
    a.tunnel_luid == b.tunnel_luid
    && (a.destination_host_order == b.destination_host_order
        && (a.prefix_length == b.prefix_length && text_eq a.gateway b.gateway))

-- `fill_ipv4_forward_row`.
abbrev pub fill_ipv4_forward_row : ℕ → ℕ → ℕ → ℕ → Row
fill_ipv4_forward_row luid destination prefix gateway = record {
  interface_luid = luid;
  destination = destination;
  prefix_length = prefix;
  ipv4 = true;
  next_hop = gateway;
  metric = 0;
}

-- `address & mask` for a prefix of at most 32 bits; the mask is 0 for the prefix 0.
unfoldable pub masked : ℕ → ℕ → ℕ
masked address prefix =
    if ltb prefix 32
    then if prefix == 0 then 0 else address / 2 ^ (32 - prefix) * 2 ^ (32 - prefix)
    else address

module _ (h : IpHelper) where
  pub record WindowsNetConfigurator : Type 0 where
    pub system : h.State
    pub last_error : Bool
    pub bypass_route_applied : Bool
    pub default_route_applied : Bool
    pub bypass_destination : Bytes
    pub bypass_gateway : Bytes
    pub bypass_interface_luid : ℕ
    pub default_tunnel_luid : ℕ
    pub default_gateway : Bytes
    pub selective_routes : List SelectiveRouteKey

  -- A constructed helper.
  abbrev pub new_configurator : h.State → WindowsNetConfigurator
  new_configurator system = record {
    system = system;
    last_error = false;
    bypass_route_applied = false;
    default_route_applied = false;
    bypass_destination = [];
    bypass_gateway = [];
    bypass_interface_luid = 0;
    default_tunnel_luid = 0;
    default_gateway = [];
    selective_routes = [];
  }

  -- `none` where `parse_ipv4` returns false.
  unfoldable pub parse_ipv4 : Bytes → Option ℕ
  parse_ipv4 text = if not h.wsa_startup then none else h.inet_pton text

  -- `last_error_ = ...; return false;`, and a success after `last_error_.clear()`.
  abbrev pub refuse : WindowsNetConfigurator → WindowsNetConfigurator × Bool
  refuse n = (record n { last_error = true }, false)

  abbrev pub clear_error : WindowsNetConfigurator → WindowsNetConfigurator
  clear_error n = record n { last_error = false }
