-- ===== src/DevelopmentAdapters/Transport/Dangling.antt =====
-- The link dies with the first end that closes, while the other end still points at it.
use secure_tunnel_cpp.Prelude.{◌≡◌, ◌≢◌, true, false, none, arith, Bytes, is_empty}
use secure_tunnel_cpp.Config.{TunnelConfig}
use secure_tunnel_cpp.DevelopmentAdapters.Link.{World, link_for_port, reset_link_for_port}
use secure_tunnel_cpp.DevelopmentAdapters.Transport.{
  DevelopmentSecureTransport, connect, send_payload, try_receive_payload, close,
}

-- A configuration with which `connect` succeeds.
abbrev pub IsConnectable : TunnelConfig → Type 0
IsConnectable c = (is_empty c.endpoint ≡ false) × (c.port ≢ 0)

-- The world and the two ends after both have connected, and after the first one has closed.
abbrev pub first_end :
    World → DevelopmentSecureTransport → TunnelConfig → DevelopmentSecureTransport
first_end w t c = (connect w t c).1

abbrev pub second_end :
    World
    → DevelopmentSecureTransport
    → DevelopmentSecureTransport
    → TunnelConfig
    → TunnelConfig
    → DevelopmentSecureTransport
second_end w t u c d = (connect (connect w t c).0 u d).1

abbrev pub world_after :
    World
    → DevelopmentSecureTransport
    → DevelopmentSecureTransport
    → TunnelConfig
    → TunnelConfig
    → World
world_after w t u c d = (close (connect (connect w t c).0 u d).0 (first_end w t c)).0

-- When two ends have connected on one port and the first one closes, the second one still counts
-- as connected, and its next send of a packet, and its next receive, follow the address of a link
-- that has been destroyed.
pub peer_close_dangles :
    (w : World) (t u : DevelopmentSecureTransport) (c d : TunnelConfig) (p : Bytes)
    → IsConnectable c
    → IsConnectable d
    → c.port ≡ d.port
    → is_empty p ≡ false
    → ((second_end w t u c d).connected ≡ true)
      × (send_payload (world_after w t u c d) (second_end w t u c d) p ≡ none)
      × (try_receive_payload (world_after w t u c d) (second_end w t u c d) ≡ none)
unfolding connect close send_payload try_receive_payload link_for_port reset_link_for_port
peer_close_dangles w t u c d p hc hd e hp = ground arith
