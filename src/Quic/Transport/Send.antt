-- ===== src/Quic/Transport/Send.antt =====
-- What a successful `send_payload` has handed to the library.
use secure_tunnel_cpp.Prelude.{
  ℕ, ◌≤◌, ◌<◌, ◌≡◌, sym, ◌∙◌, ◌≢◌, inl, inr, true, false, none, some, List, arith, Option-cases,
  length, Bytes,
}
use secure_tunnel_cpp.Quic.Framing.{frame_buffer}
use secure_tunnel_cpp.Quic.Api.{MsQuic}
use secure_tunnel_cpp.Quic.Transport.{QuicSecureTransport, StreamChannel}
use secure_tunnel_cpp.Quic.Transport.Channel.{
  Event, send_payload, send_buffer, send_on, wait_for_send,
}

module _ (q : MsQuic) where
  -- The library has accepted these bytes on a stream.
  abbrev pub Accepted : Bytes → Type 0
  Accepted b = (l : q.State) × (s : ℕ) × ((q.stream_send l s b).1 ≡ true)

  send_on-sent :
      (es : List Event) (t : QuicSecureTransport q) (s : ℕ) (b : Bytes)
      → (send_on q es t s b).1 ≡ true
      → (q.stream_send t.global.library s b).1 ≡ true
  unfolding send_on
  send_on-sent es t s b h = ground arith

  send_buffer-none :
      (es : List Event) (t : QuicSecureTransport q) (b : Bytes)
      → t.stream_channel ≡ none
      → (send_buffer q es t b).1 ≡ false
  unfolding send_buffer
  send_buffer-none es t b h = ground arith

  send_buffer-null :
      (es : List Event) (t : QuicSecureTransport q) (b : Bytes) (c : StreamChannel)
      → t.stream_channel ≡ some c
      → c.stream ≡ none
      → (send_buffer q es t b).1 ≡ false
  unfolding send_buffer
  send_buffer-null es t b c h e = ground arith

  send_buffer-some :
      (es : List Event) (t : QuicSecureTransport q) (b : Bytes) (c : StreamChannel) (s : ℕ)
      → t.stream_channel ≡ some c
      → c.stream ≡ some s
      → (send_buffer q es t b).1 ≡ (send_on q es t s b).1
  unfolding send_buffer
  send_buffer-some es t b c s h e = ground arith

  send_buffer-sent :
      (es : List Event) (t : QuicSecureTransport q) (b : Bytes)
      → (send_buffer q es t b).1 ≡ true
      → Accepted b
  send_buffer-sent es t b h = elim (Option-cases t.stream_channel) [
    | inl at ↦ absurd (true-false (sym h ∙ send_buffer-none es t b at))
    | inr (c, at) ↦ elim (Option-cases c.stream) [
      | inl at' ↦ absurd (true-false (sym h ∙ send_buffer-null es t b c at at'))
      | inr (s, at') ↦ (
        t.global.library,
        s,
        send_on-sent es t s b (sym (send_buffer-some es t b c s at at') ∙ h),
      )
    ]
  ]
    where
      true-false : true ≢ false
      true-false e = ground arith

  -- The guards that a successful send has passed.
  send_payload-guards :
      (es es' : List Event) (t : QuicSecureTransport q) (p : Bytes)
      → (send_payload q es es' t p).1 ≡ true
      → (t.data_channel_open ≡ true)
        × (0 < length p)
        × (length p ≤ 65536)
        × ((send_buffer q es' (wait_for_send q es t).0 (frame_buffer p)).1 ≡ true)
  unfolding send_payload
  send_payload-guards es es' t p h = ground arith

  -- A send is reported as successful only through an open data channel, for a payload of 1 to 65536
  -- bytes, and when the library has accepted exactly the frame of that payload.
  pub send_payload-Accepted :
      (es es' : List Event) (t : QuicSecureTransport q) (p : Bytes)
      → (send_payload q es es' t p).1 ≡ true
      → (t.data_channel_open ≡ true)
        × (0 < length p)
        × (length p ≤ 65536)
        × Accepted (frame_buffer p)
  send_payload-Accepted es es' t p h =
      let (o, positive, bound, sent) = send_payload-guards es es' t p h in
      (o, positive, bound, send_buffer-sent es' (wait_for_send q es t).0 (frame_buffer p) sent)
