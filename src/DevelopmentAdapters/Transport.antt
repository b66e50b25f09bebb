-- ===== src/DevelopmentAdapters/Transport.antt =====
-- `DevelopmentSecureTransport` of src/development_adapters.cpp. A transport keeps the raw address of
-- its link. An operation that follows the address of a link that is gone gives `none`, which is
-- undefined behaviour in the source. The mutexes make each operation one step.
pub mod Delivery
pub mod Dangling
use secure_tunnel_cpp.Prelude.{
  ℕ, zero, suc, ◌+◌, ◌-◌, ◌*◌, ◌/◌, ◌%◌, ◌^◌, ◌≤◌, ◌<◌, min, max, bit_and, ◌≡◌, refl, sym, ap, ◌∙◌,
  subst, ◌≢◌, ◌↔◌, ◌⊎◌, inl, inr, Bool, true, false, ◌&&◌, ◌||◌, not, Option, none, some, List, [],
  ◌∷◌, ◌++◌, map, append-nil, append_assoc, arith, ltb, leb, ◌==◌, if◌then◌else◌, ltb→lt, lt→ltb,
  leb→le, ltb→le, le→ltb, ==_iff, ==_refl, Bool-cases, Option-cases, length, get_or, take, drop,
  length-append, length-take, length-drop, take-append, drop-append, take_all, take-append_drop,
  take_prefix, drop_prefix, drop-drop, All, All-append, All-take, All-drop, Bytes, IsByte, codes,
  is_empty, text_eq, text_eq_sound, text_eq_refl,
}
use secure_tunnel_cpp.Config.{TunnelConfig, Role, is_client}
use secure_tunnel_cpp.DevelopmentAdapters.Link.{
  World, DevelopmentTransportLink, update, link_for_port, reset_link_for_port,
}

pub record DevelopmentSecureTransport : Type 0 where
  pub config : TunnelConfig
  pub connected : Bool
  pub data_channel_open : Bool
  pub link : Option ℕ

unfoldable pub connect :
    World → DevelopmentSecureTransport → TunnelConfig → World × DevelopmentSecureTransport × Bool
connect w t config =
    let (w', a) = link_for_port w config.port in
    let ok = not (is_empty config.endpoint) && not (config.port == 0) in
    (w', record t { config = config; link = some a; connected = ok; data_channel_open = ok }, ok)

unfoldable pub perform_handshake : DevelopmentSecureTransport → Bool
perform_handshake t = t.connected

unfoldable pub open_data_channel : DevelopmentSecureTransport → Bool
open_data_channel t = t.connected

-- The sender's queue: a client's packets go to the server.
abbrev pub push : Role → Bytes → DevelopmentTransportLink → DevelopmentTransportLink
push r p l =
    if is_client r
    then record l { to_server = l.to_server ++ p ∷ [] }
    else record l { to_client = l.to_client ++ p ∷ [] }

unfoldable pub send_payload : World → DevelopmentSecureTransport → Bytes → Option (World × Bool)
send_payload w t payload =
    if not t.connected || is_empty payload then some (w, false) else elim (t.link) [
      | none ↦ some (w, false)
      | some a ↦ elim (w.heap a) [
        | none ↦ none
        | some l ↦
            some (record w { heap = update w.heap a (some (push t.config.role payload l)) }, true)
      ]
    ]

abbrev pub queue_for : Role → DevelopmentTransportLink → List Bytes
queue_for r l = if is_client r then l.to_client else l.to_server

abbrev pub with_queue : Role → List Bytes → DevelopmentTransportLink → DevelopmentTransportLink
with_queue r q l = if is_client r then record l { to_client = q } else record l { to_server = q }

-- An empty queue gives an empty packet; `none` inside is std::nullopt.
unfoldable pub try_receive_payload :
    World → DevelopmentSecureTransport → Option (World × Option Bytes)
try_receive_payload w t = if not t.connected then some (w, none) else elim (t.link) [
  | none ↦ some (w, none)
  | some a ↦ elim (w.heap a) [
    | none ↦ none
    | some l ↦ elim (queue_for t.config.role l) [
      | [] ↦ some (w, some [])
      | p ∷ ps ↦
          some (record w { heap = update w.heap a (some (with_queue t.config.role ps l)) }, some p)
    ]
  ]
]

unfoldable pub close : World → DevelopmentSecureTransport → World × DevelopmentSecureTransport
close w t = (
  if t.connected then reset_link_for_port w t.config.port else w,
  record t { connected = false; data_channel_open = false; link = none },
)
