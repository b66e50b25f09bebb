-- ===== src/Tests/Programs.antt =====
-- Command lines of the programs, at concrete inputs.
use secure_tunnel_cpp.Prelude.{
  ℕ, ◌≡◌, refl, true, false, Option, none, some, List, [], ◌∷◌, Bytes, codes,
}
use secure_tunnel_cpp.Strings.{stoi, skip_spaces, isspace, digits_value}
use secure_tunnel_cpp.SmartRoute.{Files}
use secure_tunnel_cpp.Config.{is_valid, routing_active}
use secure_tunnel_cpp.Apps.Client
use secure_tunnel_cpp.Apps.Client.{
  client_config, config_of, ClientArguments, read_address, read_list, read_relay,
}
use secure_tunnel_cpp.Apps.Server
use secure_tunnel_cpp.Apps.Server.{
  Environment, server_config, quic_config, plain_config, read_certificate,
}
use secure_tunnel_cpp.Apps.Valid.{
  ParsesDefaults, is_usable, client_config-valid, routes_need_administrator, server_config-valid,
}

-- A parser that takes every text for an address.
abbrev any_address : Bytes → Option ℕ
any_address text = some 0

defaults : ParsesDefaults any_address
defaults = record { gateway = (0, refl); address = (0, refl); dns = (0, refl) }

abbrev no_files : Files
no_files path = none

abbrev vpn_line : List Bytes
vpn_line =
    codes "--wintun" ∷ codes "--quic" ∷ codes "--smart-route" ∷ codes "--endpoint:vpn.example" ∷ []

abbrev vpn_arguments : ClientArguments
vpn_arguments = record Client.no_arguments {
  use_wintun = true;
  use_quic = true;
  smart_route = true;
  endpoint = codes "vpn.example";
}

vpn_accepts : client_config no_files true vpn_line ≡ some (config_of no_files vpn_arguments)
unfolding client_config Client.read_arguments Client.read_argument read_relay read_list read_address
vpn_accepts = refl

vpn_routes : routing_active (config_of no_files vpn_arguments) ≡ true
unfolding config_of
vpn_routes = refl

-- A port is taken modulo 2^16.
port_wraps :
    client_config no_files false (codes "--port:65979" ∷ [])
    ≡ some (config_of no_files (record Client.no_arguments { port = 443 }))
unfolding client_config Client.read_arguments Client.read_argument read_relay read_list read_address
    stoi skip_spaces isspace digits_value
port_wraps = refl

routes_need_administrator_example :
    (true ≡ true) × ((config_of no_files vpn_arguments).prefer_quic ≡ true)
routes_need_administrator_example =
    routes_need_administrator no_files true vpn_line (config_of no_files vpn_arguments) vpn_accepts
      vpn_routes

client_config-valid_example :
    is_valid any_address (config_of no_files vpn_arguments)
    ≡ is_usable any_address (config_of no_files vpn_arguments)
client_config-valid_example =
    client_config-valid any_address no_files true vpn_line (config_of no_files vpn_arguments)
      defaults vpn_accepts

abbrev node_line : List Bytes
node_line = codes "--relay" ∷ codes "--tun" ∷ []

abbrev empty_environment : Environment
empty_environment name = []

node_accepts : server_config false empty_environment no_files node_line ≡ some (plain_config false)
unfolding server_config Server.read_arguments Server.read_argument
node_accepts = refl

server_config-valid_example : is_valid any_address (plain_config false) ≡ true
server_config-valid_example =
    server_config-valid any_address false empty_environment no_files node_line (plain_config false)
      defaults node_accepts
