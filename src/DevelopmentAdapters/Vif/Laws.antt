-- ===== src/DevelopmentAdapters/Vif/Laws.antt =====
-- The loop-back interface.
use secure_tunnel_cpp.Prelude.{◌≡◌, refl, ◌≢◌, true, [], ◌∷◌, arith, Bytes}
use secure_tunnel_cpp.DevelopmentAdapters.Vif.{
  DevelopmentVirtualInterface, read_packet, write_packet,
}

-- An open interface takes any packet that is not empty and hands it back once: the next read gives
-- it, and the one after that nothing.
pub read_packet-write_packet :
    (v : DevelopmentVirtualInterface) (p : Bytes)
    → p ≢ []
    → v.opened ≡ true
    → ((write_packet v p).1 ≡ true)
      × ((read_packet (write_packet v p).0).1 ≡ p)
      × ((read_packet (read_packet (write_packet v p).0).0).1 ≡ [])
unfolding write_packet read_packet
read_packet-write_packet v [] h o = absurd (h refl)
read_packet-write_packet v (b ∷ p) h o = ground arith
