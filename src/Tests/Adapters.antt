-- ===== src/Tests/Adapters.antt =====
-- The development adapters at concrete inputs.
use secure_tunnel_cpp.Prelude.{◌≡◌, refl, true, false, none, some, List, [], ◌∷◌, map, arith, Bytes}
use secure_tunnel_cpp.Config.{TunnelConfig, default_config, Role}
use secure_tunnel_cpp.DevelopmentAdapters.Link.{World, update, empty_world, new_link}
use secure_tunnel_cpp.DevelopmentAdapters.Transport.{
  DevelopmentSecureTransport, send_payload, try_receive_payload,
}
use secure_tunnel_cpp.DevelopmentAdapters.Transport.Delivery.{send_all, receive_n, delivery}
use secure_tunnel_cpp.DevelopmentAdapters.Transport.Dangling.{
  peer_close_dangles, second_end, world_after,
}

abbrev pub server_config : TunnelConfig
server_config = record default_config { role = Role.server }

abbrev pub one_link : World
one_link = record {
  g_links = update (λ _. none) 443 (some 0);
  heap = update (λ _. none) 0 (some new_link);
  next_address = 1;
}

abbrev pub client_end : DevelopmentSecureTransport
client_end = record {
  config = default_config;
  connected = true;
  data_channel_open = true;
  link = some 0;
}

abbrev pub server_end : DevelopmentSecureTransport
server_end = record client_end { config = server_config }

abbrev two_packets : List Bytes
two_packets = (1 ∷ 2 ∷ []) ∷ (3 ∷ []) ∷ []

delivery_example :
    (w' : World) × (w'' : World) × (send_all one_link client_end two_packets ≡ some w')
    × (receive_n 2 w' server_end ≡ some (w'', map some two_packets))
delivery_example =
    delivery 0 client_end server_end refl refl refl refl refl one_link new_link two_packets refl
      refl ((cc), ((cc), tt))

abbrev unconnected : DevelopmentSecureTransport
unconnected = record {
  config = default_config;
  connected = false;
  data_channel_open = false;
  link = none;
}

abbrev left_end : DevelopmentSecureTransport
left_end = second_end empty_world unconnected unconnected default_config server_config

abbrev left_world : World
left_world = world_after empty_world unconnected unconnected default_config server_config

peer_close_dangles_example :
    (left_end.connected ≡ true)
    × (send_payload left_world left_end (1 ∷ []) ≡ none)
    × (try_receive_payload left_world left_end ≡ none)
peer_close_dangles_example =
    peer_close_dangles empty_world unconnected unconnected default_config server_config (1 ∷ [])
      (refl, omega arith) (refl, omega arith) refl refl
