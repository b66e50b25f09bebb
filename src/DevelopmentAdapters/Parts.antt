-- ===== src/DevelopmentAdapters/Parts.antt =====
-- The development adapters as the interfaces that the engine is built from. A transport that has
-- followed a dangling address is in the state `none`, in which every operation fails.
use secure_tunnel_cpp.Prelude.{ℕ, Bool, false, Option, none, some, if◌then◌else◌, Bytes, is_empty}
use secure_tunnel_cpp.Config.{TunnelConfig, is_valid}
use secure_tunnel_cpp.Engine.{VirtualInterface, SecureTransport, Parts}
use secure_tunnel_cpp.InnerSession.Development.{fresh}
use secure_tunnel_cpp.InnerSession.Development.Replay.{development}
use secure_tunnel_cpp.DevelopmentAdapters.Vif.{DevelopmentVirtualInterface}
use secure_tunnel_cpp.DevelopmentAdapters.Vif
use secure_tunnel_cpp.DevelopmentAdapters.Link.{World}
use secure_tunnel_cpp.DevelopmentAdapters.Transport.{DevelopmentSecureTransport}
use secure_tunnel_cpp.DevelopmentAdapters.Transport

abbrev pub interface : VirtualInterface
interface = record {
  State = DevelopmentVirtualInterface;
  open' = Vif.open';
  read_packet = Vif.read_packet;
  write_packet = Vif.write_packet;
  close = Vif.close;
  apply_client_routing = λ v c. (v, Vif.apply_client_routing c);
  clear_client_routing = λ v. v;
}

abbrev pub End : Type 0
End = Option (World × DevelopmentSecureTransport)

abbrev connect_end : End → TunnelConfig → End × Bool
connect_end none c = (none, false)
connect_end (some (w, t)) c = let (w', t', ok) = Transport.connect w t c in (some (w', t'), ok)

abbrev test_end : (DevelopmentSecureTransport → Bool) → End → End × Bool
test_end f none = (none, false)
test_end f (some (w, t)) = (some (w, t), f t)

abbrev send_end : End → Bytes → End × Bool
send_end none p = (none, false)
send_end (some (w, t)) p = elim (Transport.send_payload w t p) [
  | none ↦ (none, false)
  | some (w', ok) ↦ (some (w', t), ok)
]

abbrev receive_end : End → End × Option Bytes
receive_end none = (none, none)
receive_end (some (w, t)) = elim (Transport.try_receive_payload w t) [
  | none ↦ (none, none)
  | some (w', got) ↦ (some (w', t), got)
]

abbrev close_end : End → End
close_end none = none
close_end (some (w, t)) = some (Transport.close w t)

abbrev pub transport : SecureTransport
transport = record {
  State = End;
  connect = connect_end;
  perform_handshake = test_end Transport.perform_handshake;
  open_data_channel = test_end Transport.open_data_channel;
  send_payload = send_end;
  try_receive_payload = receive_end;
  close = close_end;
  reset_for_next_client = λ t. t;
}

-- An engine over them, with the development session, and with a given address parser.
abbrev pub development_parts : (Bytes → Option ℕ) → Parts
development_parts parse_ipv4 = record {
  vif = interface;
  tr = transport;
  inner = development;
  is_valid = is_valid parse_ipv4;
  create_inner_session = λ c. if is_empty c.psk_hex then some fresh else none;
}
