-- ===== src/Quic/Framing/Stream.antt =====
-- The frames that one end sends are the frames that the other end queues, however the stream cuts
-- them into events and buffers.
use secure_tunnel_cpp.Prelude.{
  suc, ◌≡◌, refl, sym, ap, ◌∙◌, Option, none, some, List, [], ◌∷◌, ◌++◌, append-nil, append_assoc,
  arith, length, length-append, All, Bytes,
}
use secure_tunnel_cpp.Quic.Framing.{
  Received, drain, append_received_bytes, frame_buffer, insert_buffers, nothing_received,
}
use secure_tunnel_cpp.Quic.Framing.Buffer.{IsSendable, stream, length-frame_buffer}
use secure_tunnel_cpp.Quic.Framing.Drain.{Pending, Drained, drain-stream}

-- The receive events in turn.
unfoldable pub receive_events : Received → List (List Bytes) → Option Received
receive_events c [] = some c
receive_events c (e ∷ es) = elim (append_received_bytes c e) [
  | none ↦ none
  | some d ↦ receive_events d es
]

-- All bytes of some buffers.
abbrev pub join_buffers : List Bytes → Bytes
join_buffers [] = []
join_buffers (b ∷ bs) = b ++ join_buffers bs

insert_buffers_lem : (r : Bytes) (bs : List Bytes) → insert_buffers r bs ≡ r ++ join_buffers bs
insert_buffers_lem r [] = sym (append-nil r)
insert_buffers_lem r (b ∷ bs) =
    rw (insert_buffers_lem (r ++ b) bs) (append_assoc r b (join_buffers bs))

All-right : (xs ys : List Bytes) → All IsSendable (xs ++ ys) → All IsSendable ys
All-right [] ys h = h
All-right (x ∷ xs) ys h = All-right xs ys h.1

append_stream :
    (c : Received) (buffers : List Bytes) (ps : List Bytes) (rest : Bytes)
    → All IsSendable ps
    → c.reassembly ++ (join_buffers buffers ++ rest) ≡ stream ps
    → Drained c ps rest (append_received_bytes c buffers)
unfolding append_received_bytes
append_stream c buffers ps rest hp e = record {
  done = d.done;
  left = d.left;
  waiting = d.waiting;
  result = d.result;
  split = d.split;
  balance = d.balance;
  pending = d.pending;
}
  where
    bytes : Bytes
    bytes = insert_buffers c.reassembly buffers

    d :
        Drained
          (record c { reassembly = bytes })
          ps
          rest
          (drain (suc (length bytes)) (record c { reassembly = bytes }))
    d =
        drain-stream (suc (length bytes)) (record c { reassembly = bytes }) ps rest hp
          (ap (λ t. t ++ rest) (insert_buffers_lem c.reassembly buffers)
            ∙ (append_assoc c.reassembly (join_buffers buffers) rest ∙ e))
          (omega arith)

-- All bytes of some events.
abbrev pub join_events : List (List Bytes) → Bytes
join_events [] = []
join_events (e ∷ es) = join_buffers e ++ join_events es

nothing_left :
    (c : Received) (ps : List Bytes)
    → c.reassembly ++ [] ≡ stream ps
    → Pending c.reassembly ps
    → c ≡ record { frames = c.frames ++ ps; reassembly = [] }
nothing_left c [] e h = rw append-nil (ap (λ t. record { frames = c.frames; reassembly = t }) h)
nothing_left c (p ∷ ps) e h = absurd (
    omega (
      arith,
      ap length e,
      length-append c.reassembly [],
      length-append (frame_buffer p) (stream ps),
      length-frame_buffer p,
    ))

receive_events_from :
    (c : Received) (ps : List Bytes) (es : List (List Bytes))
    → All IsSendable ps
    → c.reassembly ++ join_events es ≡ stream ps
    → Pending c.reassembly ps
    → receive_events c es ≡ some (record { frames = c.frames ++ ps; reassembly = [] })
unfolding receive_events
receive_events_from c ps [] hp e h = ap some (nothing_left c ps e h)
receive_events_from c ps (b ∷ es) hp e h =
    let d = append_stream c b ps (join_events es) hp e in
    let c' : Received = record { frames = c.frames ++ d.done; reassembly = d.waiting } in
    rw (d.result, receive_events)
      (receive_events_from c' d.left es (All-right d.done d.left (rw (← d.split) hp)) d.balance
          d.pending
        ∙ ap (λ t. some (record { frames = t; reassembly = [] }))
            (append_assoc c.frames d.done d.left ∙ ap (λ t. c.frames ++ t) (sym d.split)))

-- Whichever way the framed bytes of payloads of 1 to 65536 bytes are cut into receive events and
-- buffers, a receiver that starts with nothing ends with exactly those payloads queued, in order, and no byte left over.
pub receive_events-stream :
    (ps : List Bytes) (es : List (List Bytes))
    → All IsSendable ps
    → join_events es ≡ stream ps
    → receive_events nothing_received es ≡ some (record { frames = ps; reassembly = [] })
receive_events-stream ps es hp e = receive_events_from nothing_received ps es hp e (start ps)
  where
    start : (qs : List Bytes) → Pending [] qs
    start [] = refl
    start (q ∷ qs) = omega arith
