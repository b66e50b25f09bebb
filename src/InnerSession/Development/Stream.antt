-- ===== src/InnerSession/Development/Stream.antt =====
-- A stream of packets from one session to another, over a transport that may lose frames.
use secure_tunnel_cpp.Prelude.{
  ◌+◌, ◌^◌, ◌≤◌, ◌<◌, ◌≡◌, refl, ap, Bool, true, false, List, [], ◌∷◌, arith, if◌then◌else◌, length,
  All, Bytes,
}
use secure_tunnel_cpp.InnerSession.Development.{
  DevelopmentInnerSession, seal, open', inner_max_payload_size,
}
use secure_tunnel_cpp.InnerSession.Development.Frame.{seal_accepts, open'-header, open'-stale}

-- The frames that a sender makes of some packets.
pub send_all : DevelopmentInnerSession → List Bytes → List Bytes
send_all s [] = []
send_all s (p ∷ ps) = (seal s p []).1 ∷ send_all (seal s p []).0 ps

-- The packets that a receiver opens.
pub receive_all : DevelopmentInnerSession → List Bytes → List Bytes
receive_all r [] = []
receive_all r (c ∷ cs) =
    let rest = receive_all (open' r c []).0 cs in
    if (open' r c []).2 then (open' r c []).1 ∷ rest else rest

-- The elements that a list of marks keeps.
pub survivors : List Bool → List Bytes → List Bytes
survivors [] xs = []
survivors (b ∷ bs) [] = []
survivors (b ∷ bs) (x ∷ xs) = if b then x ∷ survivors bs xs else survivors bs xs

-- Of a stream of packets within the limit the receiver gets exactly those whose frames the
-- transport delivers, unchanged and in order, whichever frames are lost.
pub receive_all-send_all :
    (s r : DevelopmentInnerSession) (bs : List Bool) (ps : List Bytes)
    → All (λ p. length p ≤ inner_max_payload_size) ps
    → s.send_sequence + length ps < 2 ^ 64
    → r.last_received_sequence ≤ s.send_sequence
    → receive_all r (survivors bs (send_all s ps)) ≡ survivors bs ps
unfolding send_all survivors receive_all
receive_all-send_all s r [] ps hp hs hr = refl
receive_all-send_all s r (b ∷ bs) [] hp hs hr = refl
receive_all-send_all s r (false ∷ bs) (p ∷ ps) hp hs hr =
    rw (seal_accepts s p [] hp.0 (omega arith)) (
      receive_all-send_all (record s { send_sequence = s.send_sequence + 1 }) r bs ps hp.1
        (omega arith) (omega arith))
receive_all-send_all s r (true ∷ bs) (p ∷ ps) hp hs hr =
    rw
      (
        seal_accepts s p [] hp.0 (omega arith),
        open'-header r (s.send_sequence + 1) p [] hp.0 (omega arith) (omega arith),
      )
      (ap (λ t. p ∷ t)
        (receive_all-send_all (record s { send_sequence = s.send_sequence + 1 })
          (record r { last_received_sequence = s.send_sequence + 1 }) bs ps hp.1 (omega arith)
          (omega arith)))

-- A receiver refuses every frame of a sender that counts below it, and leaves the output as it was:
-- a packet of at most 2048 bytes is sealed, and its frame is not opened.
pub behind_refused :
    (s r : DevelopmentInnerSession) (p old : Bytes)
    → length p ≤ inner_max_payload_size
    → s.send_sequence + 1 < 2 ^ 64
    → s.send_sequence < r.last_received_sequence
    → ((seal s p []).2 ≡ true)
      × ((open' r (seal s p []).1 old).2 ≡ false)
      × ((open' r (seal s p []).1 old).1 ≡ old)
behind_refused s r p old hp hs hr =
    rw (seal_accepts s p [] hp hs, open'-stale r (s.send_sequence + 1) p old hp hs (omega arith))
      (refl, refl, refl)
