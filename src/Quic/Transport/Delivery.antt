-- ===== src/Quic/Transport/Delivery.antt =====
-- From the bytes on the stream to the payloads that `try_receive_payload` gives.
use secure_tunnel_cpp.Prelude.{
  ℕ, zero, suc, ◌≡◌, refl, sym, ap, ◌∙◌, subst, ◌≢◌, inl, inr, true, Option, none, some, List, [],
  ◌∷◌, map, arith, Option-cases, length, All, Bytes,
}
use secure_tunnel_cpp.Quic.Framing.{Received, nothing_received, append_received_bytes}
use secure_tunnel_cpp.Quic.Framing.Buffer.{stream, IsSendable}
use secure_tunnel_cpp.Quic.Framing.Stream.{receive_events, receive_events-stream, join_events}
use secure_tunnel_cpp.Quic.Api.{MsQuic}
use secure_tunnel_cpp.Quic.Transport.{QuicSecureTransport, StreamChannel}
use secure_tunnel_cpp.Quic.Transport.Channel.{
  receive, deliver, deliver_all, receive_bytes, try_receive_payload, pop_frame, set_channel,
}

module _ (q : MsQuic) where
  -- The payloads of a number of calls of `try_receive_payload`.
  pub receive_n : ℕ → QuicSecureTransport q → List (Option Bytes)
  receive_n zero t = []
  receive_n (suc n) t = let (t', payload) = try_receive_payload q t in payload ∷ receive_n n t'

  deliver-receive :
      (b : List Bytes) (t : QuicSecureTransport q) (c : StreamChannel) (d : Received)
      → t.stream_channel ≡ some c
      → append_received_bytes c.received b ≡ some d
      → deliver q t (receive b) ≡ set_channel q t (record c { received = d })
  unfolding deliver receive_bytes
  deliver-receive b t c d h e = ground arith

  receive_step :
      (b : List Bytes) (es : List (List Bytes)) (r d : Received)
      → append_received_bytes r b ≡ some d
      → receive_events r (b ∷ es) ≡ receive_events d es
  unfolding receive_events
  receive_step b es r d at = ground arith

  receive_fails :
      (b : List Bytes) (es : List (List Bytes)) (r s : Received)
      → append_received_bytes r b ≡ none
      → receive_events r (b ∷ es) ≢ some s
  unfolding receive_events
  receive_fails b es r s at e = grind arith

  deliver_all-receive :
      (es : List (List Bytes)) (t : QuicSecureTransport q) (c : StreamChannel) (r : Received)
      → t.stream_channel ≡ some c
      → receive_events c.received es ≡ some r
      → deliver_all q (map receive es) t ≡ set_channel q t (record c { received = r })
  unfolding deliver_all receive_events
  deliver_all-receive [] t c r h e = grind arith
  deliver_all-receive (b ∷ es) t c r h e =
      elim (Option-cases (append_received_bytes c.received b)) [
        | inl at ↦ absurd (receive_fails b es c.received r at e)
        | inr (d, at) ↦
            subst
              (λ x. deliver_all q (map receive es) x ≡ set_channel q t (record c { received = r }))
              (sym (deliver-receive b t c d h at))
              (deliver_all-receive es (set_channel q t (record c { received = d }))
                (record c { received = d }) r refl (sym (receive_step b es c.received d at) ∙ e))
      ]

  try_receive-queued :
      (p : Bytes) (ps : List Bytes) (t : QuicSecureTransport q) (c : StreamChannel)
      → t.data_channel_open ≡ true
      → t.stream_channel ≡ some c
      → c.received.frames ≡ p ∷ ps
      → try_receive_payload q t ≡ (
        set_channel q t
            (record c { received = record { frames = ps; reassembly = c.received.reassembly } }),
        some p,
      )
  unfolding try_receive_payload pop_frame
  try_receive-queued p ps t c o h e = grind arith

  receive_queued :
      (ps : List Bytes) (t : QuicSecureTransport q) (c : StreamChannel)
      → t.data_channel_open ≡ true
      → t.stream_channel ≡ some c
      → c.received.frames ≡ ps
      → receive_n (length ps) t ≡ map some ps
  unfolding receive_n
  receive_queued [] t c o h e = refl
  receive_queued (p ∷ ps) t c o h e =
      let c' : StreamChannel = record c {
        received = record { frames = ps; reassembly = c.received.reassembly };
      } in
      rw (try_receive-queued p ps t c o h e)
        (ap (λ x. some p ∷ x) (receive_queued ps (set_channel q t c') c' o refl refl))

  -- Through an open channel whose stream has no byte waiting, whatever payloads of 1 to 65536 bytes
  -- the other end frames, and whichever way the library cuts their bytes into receive events,
  -- `try_receive_payload` then gives exactly these payloads, in order.
  pub payloads_arrive :
      (t : QuicSecureTransport q) (c : StreamChannel) (ps : List Bytes) (es : List (List Bytes))
      → t.data_channel_open ≡ true
      → t.stream_channel ≡ some c
      → c.received ≡ nothing_received
      → All IsSendable ps
      → join_events es ≡ stream ps
      → receive_n (length ps) (deliver_all q (map receive es) t) ≡ map some ps
  payloads_arrive t c ps es o h n hp e =
      let r : Received = record { frames = ps; reassembly = [] } in
      rw (deliver_all-receive es t c r h (rw n (receive_events-stream ps es hp e))) (
        receive_queued ps (set_channel q t (record c { received = r })) (record c { received = r })
          o refl refl)
