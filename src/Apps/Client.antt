-- ===== src/Apps/Client.antt =====
-- apps/client_main.cpp, as built for Windows with MsQuic: the arguments, the checks on them, and the
-- configuration of the engine. `none` stands for a program that ends before it builds an engine:
-- it returns 1, or the exception of `std::stoi` ends it.
use secure_tunnel_cpp.Prelude.{
  ℕ, ◌*◌, Bool, true, false, ◌&&◌, ◌||◌, not, Option, none, some, List, [], ◌∷◌, if◌then◌else◌,
  Bytes, codes, is_empty, text_eq,
}
use secure_tunnel_cpp.Strings.{stoi}
use secure_tunnel_cpp.SmartRoute.{Files}
use secure_tunnel_cpp.Config.{TunnelConfig, default_config, client, smart, global, no_routing}
use secure_tunnel_cpp.Apps.Arguments.{
  value_of, to_port, is_positive, read_trimmed_file, thumbprint_path,
}

-- The locals of `main`; the seconds are a sign and a magnitude.
pub record ClientArguments : Type 0 where
  pub use_wintun : Bool
  pub use_quic : Bool
  pub insecure : Bool
  pub relay : Bool
  pub relay_seconds : Bool × ℕ
  pub global_route : Bool
  pub smart_route : Bool
  pub smart_domain_list : Bytes
  pub smart_cidr_list : Bytes
  pub cert_hash : Bytes
  pub endpoint : Bytes
  pub port : ℕ

abbrev pub no_arguments : ClientArguments
no_arguments = record {
  use_wintun = false;
  use_quic = false;
  insecure = false;
  relay = false;
  relay_seconds = (false, 0);
  global_route = false;
  smart_route = false;
  smart_domain_list = [];
  smart_cidr_list = [];
  cert_hash = [];
  endpoint = codes "127.0.0.1";
  port = 44333;
}

-- From `--endpoint:` on.
unfoldable pub read_address : ClientArguments → Bytes → Option ClientArguments
read_address a arg = elim (value_of (codes "--endpoint:") arg) [
  | some text ↦ some (record a { endpoint = text })
  | none ↦ elim (value_of (codes "--port:") arg) [
    | none ↦ none
    | some text ↦ elim (stoi text) [
      | none ↦ none
      | some number ↦ some (record a { port = to_port number })
    ]
  ]
]

-- From `--smart-domains:` on.
unfoldable pub read_list : ClientArguments → Bytes → Option ClientArguments
read_list a arg = elim (value_of (codes "--smart-domains:") arg) [
  | some text ↦ some (record a { smart_domain_list = text })
  | none ↦ elim (value_of (codes "--smart-cidrs:") arg) [
    | some text ↦ some (record a { smart_cidr_list = text })
    | none ↦ elim (value_of (codes "--cert_hash:") arg) [
      | some text ↦ some (record a { cert_hash = text })
      | none ↦ read_address a arg
    ]
  ]
]

-- From `--relay-seconds:` on.
unfoldable pub read_relay : ClientArguments → Bytes → Option ClientArguments
read_relay a arg = elim (value_of (codes "--relay-seconds:") arg) [
  | some text ↦ elim (stoi text) [
    | none ↦ none
    | some seconds ↦ some (record a { relay = true; relay_seconds = seconds })
  ]
  | none ↦
      if text_eq arg (codes "--global-route")
      then some (record a { global_route = true })
      else if text_eq arg (codes "--smart-route")
      then some (record a { smart_route = true })
      else read_list a arg
]

-- The body of the loop.
unfoldable pub read_argument : ClientArguments → Bytes → Option ClientArguments
read_argument a arg =
    if text_eq arg (codes "--wintun")
    then some (record a { use_wintun = true })
    else if text_eq arg (codes "--quic")
    then some (record a { use_quic = true })
    else if text_eq arg (codes "--insecure")
    then some (record a { insecure = true })
    else if text_eq arg (codes "--relay")
    then some (record a { relay = true })
    else read_relay a arg

unfoldable pub read_arguments : ClientArguments → List Bytes → Option ClientArguments
read_arguments a [] = some a
read_arguments a (arg ∷ args) = elim (read_argument a arg) [
  | none ↦ none
  | some a' ↦ read_arguments a' args
]

-- The five checks and the one for an administrator's rights.
abbrev pub is_refused : Bool → ClientArguments → Bool
is_refused elevated a =
    (a.global_route && a.smart_route)
    || ((a.global_route && not a.use_wintun)
        || ((a.global_route && not a.use_quic)
            || ((a.smart_route && not a.use_wintun)
                || ((a.smart_route && not a.use_quic) || (a.use_wintun && not elevated)))))

-- `if (!list.empty()) config.list = list`.
abbrev pub or_default : Bytes → Bytes → Bytes
or_default text default = if not (is_empty text) then text else default

unfoldable pub config_of : Files → ClientArguments → TunnelConfig
config_of files a =
    let quic = default_config.quic in
    record default_config {
      role = client;
      endpoint = a.endpoint;
      port = a.port;
      mtu = 1280;
      prefer_quic = a.use_quic;
      quic = record quic {
        insecure = a.insecure;
        cert_hash =
            if a.use_quic && is_empty a.cert_hash
            then read_trimmed_file files thumbprint_path
            else a.cert_hash;
      };
      enable_global_default_route = a.global_route;
      client_routing_mode =
          if a.global_route then global else if a.smart_route then smart else no_routing;
      smart_route_domain_list =
          or_default a.smart_domain_list default_config.smart_route_domain_list;
      smart_route_cidr_list = or_default a.smart_cidr_list default_config.smart_route_cidr_list;
    }

-- `main`, as far as the engine.
unfoldable pub client_config : Files → Bool → List Bytes → Option TunnelConfig
client_config files elevated args = elim (read_arguments no_arguments args) [
  | none ↦ none
  | some a ↦ if is_refused elevated a then none else some (config_of files a)
]

-- How long the data plane runs, in seconds, after a start; `none` where it does not run.
unfoldable pub relay_time : ClientArguments → Option ℕ
relay_time a =
    if not (a.relay || (a.global_route || a.smart_route))
    then none
    else if a.global_route || a.smart_route
    then some (24 * 3600)
    else if is_positive a.relay_seconds
    then some (a.relay_seconds.1)
    else some 5
