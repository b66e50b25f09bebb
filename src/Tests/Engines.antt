-- ===== src/Tests/Engines.antt =====
-- The engine over the development adapters, at concrete inputs.
use secure_tunnel_cpp.Prelude.{
  ◌+◌, ◌%◌, ◌^◌, ◌≤◌, ◌≡◌, refl, ◌⊎◌, true, false, some, [], ◌∷◌, ◌++◌, arith,
}
use secure_tunnel_cpp.Session.{SessionState, stopped, handshaking, established}
use secure_tunnel_cpp.InnerSession.Development.{fresh}
use secure_tunnel_cpp.Config.{default_config}
use secure_tunnel_cpp.RelayStats.{RelayStats}
use secure_tunnel_cpp.Pool.{empty_buffer}
use secure_tunnel_cpp.DevelopmentAdapters.Parts.{development_parts}
use secure_tunnel_cpp.Tests.Adapters.{one_link, client_end, server_end, server_config}
use secure_tunnel_cpp.Engine.{Parts, TunnelEngine, start}
use secure_tunnel_cpp.Engine.Start.{Started, NotStarted, start_outcome}
use secure_tunnel_cpp.Engine.Forward.{forward_inbound_batch}
use secure_tunnel_cpp.Engine.Loop.{stop, run_data_plane}
use secure_tunnel_cpp.Engine.Relay.{
  Forwarded, forward_outbound_outcome, forward_inbound_batch_counts,
}
use secure_tunnel_cpp.Engine.Run.{quiet, quiet_rounds, IsServing, server_serves_on}
use secure_tunnel_cpp.Engine.Reset.{stopped_server_stays_down}

abbrev parts : Parts
parts = development_parts (λ _. some 0)

abbrev no_stats : RelayStats
no_stats = record {
  relay_iterations = 0;
  outbound_packets = 0;
  outbound_bytes = 0;
  inbound_packets = 0;
  inbound_bytes = 0;
  seal_errors = 0;
  open_errors = 0;
  transport_errors = 0;
}

-- A client in a given state, with one packet in its interface.
abbrev client_in : SessionState → TunnelEngine parts
client_in state = record {
  config = default_config;
  session = record { state = state; epoch = 1 };
  virtual_interface = record { opened = true; packet = 0x45 ∷ 0 ∷ [] };
  transport = some (one_link, client_end);
  inner_session = some fresh;
  buffer_pool = record { pool_capacity = 16; default_capacity = 2048; free_list = [] };
  relay_stats = no_stats;
  scratch_sealed = empty_buffer;
  scratch_opened = empty_buffer;
  data_plane_stop_requested = false;
}

abbrev server_in : SessionState → TunnelEngine parts
server_in state = record (client_in state) {
  config = server_config;
  transport = some (one_link, server_end);
}

start_outcome_example :
    (((start parts (client_in stopped)).1 ≡ true)
      × (stopped ≡ stopped)
      × Started parts (client_in stopped) (start parts (client_in stopped)).0)
    ⊎ (((start parts (client_in stopped)).1 ≡ false)
        × NotStarted parts (client_in stopped) (start parts (client_in stopped)).0)
start_outcome_example = start_outcome parts (client_in stopped)

forward_inbound_batch_counts_example :
    ((forward_inbound_batch parts (client_in established) 8).1 ≤ 8)
    × ((forward_inbound_batch parts (client_in established) 8).0.relay_stats.inbound_packets
        ≡ (0 + (forward_inbound_batch parts (client_in established) 8).1) % 2 ^ 64)
forward_inbound_batch_counts_example =
    forward_inbound_batch_counts parts (client_in established) 8 (omega arith)

stopped_server_stays_down_example : (start parts (stop parts (server_in handshaking))).1 ≡ false
stopped_server_stays_down_example = stopped_server_stays_down parts (server_in handshaking) refl

server_serves_on_example :
    (run_data_plane parts (quiet_rounds 3 ++ quiet ∷ []) (server_in established)
      ≡ run_data_plane parts
          (quiet ∷ [])
          (run_data_plane parts (quiet_rounds 3) (server_in established)))
    × IsServing parts (run_data_plane parts (quiet_rounds 3) (server_in established))
server_serves_on_example =
    server_serves_on parts (server_in established) 3 (quiet ∷ []) (refl, refl)

forward_outbound_outcome_example : Forwarded parts (client_in established) fresh
forward_outbound_outcome_example =
    forward_outbound_outcome parts (client_in established) fresh refl refl
