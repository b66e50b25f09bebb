-- ===== src/DevelopmentAdapters/Transport/Delivery.antt =====
-- Packets reach the other end of a link in order.
use secure_tunnel_cpp.Prelude.{
  ℕ, zero, suc, ◌≡◌, refl, sym, ap, ◌∙◌, ◌≢◌, true, not, Option, none, some, List, [], ◌∷◌, ◌++◌,
  map, append-nil, append_assoc, arith, length, All, Bytes,
}
use secure_tunnel_cpp.Config.{is_client}
use secure_tunnel_cpp.DevelopmentAdapters.Link.{World, DevelopmentTransportLink, update}
use secure_tunnel_cpp.DevelopmentAdapters.Transport.{
  DevelopmentSecureTransport, send_payload, push, try_receive_payload, queue_for, with_queue,
}

-- A packet goes behind those that wait for the other end, and nothing else changes on the link.
pub send_payload_effect :
    (w : World) (t : DevelopmentSecureTransport) (a : ℕ) (l : DevelopmentTransportLink) (p : Bytes)
    → t.connected ≡ true
    → t.link ≡ some a
    → w.heap a ≡ some l
    → p ≢ []
    → send_payload w t p
      ≡ some (record w { heap = update w.heap a (some (push t.config.role p l)) }, true)
unfolding send_payload
send_payload_effect w t a l [] hc hl hh hp = absurd (hp refl)
send_payload_effect w t a l (b ∷ p) hc hl hh hp = ground arith

pub send_all : World → DevelopmentSecureTransport → List Bytes → Option World
send_all w t [] = some w
send_all w t (p ∷ ps) = elim (send_payload w t p) [
  | none ↦ none
  | some (w', sent) ↦ send_all w' t ps
]

-- A number of receives, and the packets that they gave.
pub receive_n : ℕ → World → DevelopmentSecureTransport → Option (World × List (Option Bytes))
receive_n zero w t = some (w, [])
receive_n (suc n) w t = elim (try_receive_payload w t) [
  | none ↦ none
  | some (w', got) ↦ elim (receive_n n w' t) [
    | none ↦ none
    | some (w'', rest) ↦ some (w'', got ∷ rest)
  ]
]

module _ (a : ℕ) (t r : DevelopmentSecureTransport)
    (opposite : is_client t.config.role ≡ not (is_client r.config.role)) (tc : t.connected ≡ true)
    (rc : r.connected ≡ true) (tl : t.link ≡ some a) (rl : r.link ≡ some a) where
  send_step :
      (w : World) (l : DevelopmentTransportLink) (p : Bytes)
      → w.heap a ≡ some l
      → p ≢ []
      → (w' : World) × (l' : DevelopmentTransportLink) × (send_payload w t p ≡ some (w', true))
        × (w'.heap a ≡ some l')
        × (queue_for r.config.role l' ≡ queue_for r.config.role l ++ p ∷ [])
  send_step w l p h hp = (
    record w { heap = update w.heap a (some (push t.config.role p l)) },
    push t.config.role p l,
    send_payload_effect w t a l p tc tl h hp,
    ground arith,
    ground arith,
  )

  send_all_effect :
      (w : World) (l : DevelopmentTransportLink) (ps : List Bytes)
      → w.heap a ≡ some l
      → All (λ p. p ≢ []) ps
      → (w' : World) × (l' : DevelopmentTransportLink) × (send_all w t ps ≡ some w')
        × (w'.heap a ≡ some l')
        × (queue_for r.config.role l' ≡ queue_for r.config.role l ++ ps)
  unfolding send_all
  send_all_effect w l [] h hp = (w, l, refl, h, sym (append-nil _))
  send_all_effect w l (p ∷ ps) h hp =
      let (w1, l1, e1, h1, q1) = send_step w l p h hp.0 in
      let (w2, l2, e2, h2, q2) = send_all_effect w1 l1 ps h1 hp.1 in
      (w2, l2, rw (e1, send_all) e2, h2, q2 ∙ (ap (λ q. q ++ ps) q1 ∙ append_assoc _ (p ∷ []) ps))

  receive_step :
      (w : World) (l : DevelopmentTransportLink) (p : Bytes) (ps : List Bytes)
      → w.heap a ≡ some l
      → queue_for r.config.role l ≡ p ∷ ps
      → try_receive_payload w r
        ≡ some (record w { heap = update w.heap a (some (with_queue r.config.role ps l)) }, some p)
  unfolding try_receive_payload
  receive_step w l p ps h q = ground arith

  receive_all_effect :
      (w : World) (l : DevelopmentTransportLink) (ps : List Bytes)
      → w.heap a ≡ some l
      → queue_for r.config.role l ≡ ps
      → (w' : World) × (receive_n (length ps) w r ≡ some (w', map some ps))
  unfolding receive_n
  receive_all_effect w l [] h q = (w, refl)
  receive_all_effect w l (p ∷ ps) h q =
      let w1 : World = record w { heap = update w.heap a (some (with_queue r.config.role ps l)) } in
      let (w2, e) =
        receive_all_effect w1 (with_queue r.config.role ps l) ps (ground arith) (ground arith) in
      (w2, rw (receive_step w l p ps h q, receive_n) (rw (e, receive_n)))

  -- Between two connected ends of one link, of opposite roles, whatever packets one end sends into
  -- an empty queue the other end receives, all of them, in order, and no operation faults.
  pub delivery :
      (w : World) (l : DevelopmentTransportLink) (ps : List Bytes)
      → w.heap a ≡ some l
      → queue_for r.config.role l ≡ []
      → All (λ p. p ≢ []) ps
      → (w' : World) × (w'' : World) × (send_all w t ps ≡ some w')
        × (receive_n (length ps) w' r ≡ some (w'', map some ps))
  delivery w l ps h q hp =
      let (w1, l1, e1, h1, q1) = send_all_effect w l ps h hp in
      let (w2, e2) = receive_all_effect w1 l1 ps h1 (q1 ∙ ap (λ t'. t' ++ ps) q) in (w1, w2, e1, e2)
