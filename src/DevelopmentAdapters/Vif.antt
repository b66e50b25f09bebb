-- ===== src/DevelopmentAdapters/Vif.antt =====
-- `DevelopmentVirtualInterface` of src/development_adapters.cpp: a loop-back of one packet.
pub mod Laws
use secure_tunnel_cpp.Config.{TunnelConfig, is_global, is_smart}
use secure_tunnel_cpp.Prelude.{
  ℕ, zero, suc, ◌+◌, ◌-◌, ◌*◌, ◌/◌, ◌%◌, ◌^◌, ◌≤◌, ◌<◌, min, max, bit_and, ◌≡◌, refl, sym, ap, ◌∙◌,
  subst, ◌≢◌, ◌↔◌, ◌⊎◌, inl, inr, Bool, true, false, ◌&&◌, ◌||◌, not, Option, none, some, List, [],
  ◌∷◌, ◌++◌, map, append-nil, append_assoc, arith, ltb, leb, ◌==◌, if◌then◌else◌, ltb→lt, lt→ltb,
  leb→le, ltb→le, le→ltb, ==_iff, ==_refl, Bool-cases, Option-cases, length, get_or, take, drop,
  length-append, length-take, length-drop, take-append, drop-append, take_all, take-append_drop,
  take_prefix, drop_prefix, drop-drop, All, All-append, All-take, All-drop, Bytes, IsByte, codes,
  is_empty, text_eq, text_eq_sound, text_eq_refl,
}

pub record DevelopmentVirtualInterface : Type 0 where
  pub opened : Bool
  pub packet : Bytes

unfoldable pub open' : DevelopmentVirtualInterface → ℕ → DevelopmentVirtualInterface × Bool
open' v mtu = let ok = leb 1280 mtu && leb mtu 1420 in (record v { opened = ok }, ok)

unfoldable pub read_packet : DevelopmentVirtualInterface → DevelopmentVirtualInterface × Bytes
read_packet v = if not v.opened then (v, []) else (record v { packet = [] }, v.packet)

unfoldable pub write_packet :
    DevelopmentVirtualInterface → Bytes → DevelopmentVirtualInterface × Bool
write_packet v packet =
    if not v.opened || is_empty packet then (v, false) else (record v { packet = packet }, true)

unfoldable pub close : DevelopmentVirtualInterface → DevelopmentVirtualInterface
close v = record v { opened = false; packet = [] }

unfoldable pub inject_inbound_packet :
    DevelopmentVirtualInterface → Bytes → DevelopmentVirtualInterface
inject_inbound_packet v packet = record v { packet = packet }

-- The default of the base class `VirtualInterface`, which this interface does not override: no
-- route of the system is ever touched.
unfoldable pub apply_client_routing : TunnelConfig → Bool
apply_client_routing c =
    if is_global c.client_routing_mode || c.enable_global_default_route
    then false
    else not (is_smart c.client_routing_mode)
