-- ===== src/Quic/Framing.antt =====
-- The length-prefixed frames on a QUIC stream, src/quic_secure_transport.cpp: the header that
-- `send_payload` writes, and `append_received_bytes`. `(a << 24) | ...` of bytes is written as a
-- sum; it is below 2^32.
pub mod Buffer
pub mod Drain
pub mod Stream
pub mod Bounds
use secure_tunnel_cpp.Prelude.{
  ℕ, zero, suc, ◌+◌, ◌-◌, ◌*◌, ◌/◌, ◌%◌, ◌^◌, ◌≤◌, ◌<◌, min, max, bit_and, ◌≡◌, refl, sym, ap, ◌∙◌,
  subst, ◌≢◌, ◌↔◌, ◌⊎◌, inl, inr, Bool, true, false, ◌&&◌, ◌||◌, not, Option, none, some, List, [],
  ◌∷◌, ◌++◌, map, append-nil, append_assoc, arith, ltb, leb, ◌==◌, if◌then◌else◌, ltb→lt, lt→ltb,
  leb→le, ltb→le, le→ltb, ==_iff, ==_refl, Bool-cases, Option-cases, length, get_or, take, drop,
  length-append, length-take, length-drop, take-append, drop-append, take_all, take-append_drop,
  take_prefix, drop_prefix, drop-drop, All, All-append, All-take, All-drop, Bytes, IsByte, codes,
  is_empty, text_eq, text_eq_sound, text_eq_refl,
}

abbrev pub max_frame_size : ℕ
max_frame_size = 65536

-- The part of `StreamChannel` that holds received bytes. `frames` is a queue, oldest first.
pub record Received : Type 0 where
  pub frames : List Bytes
  pub reassembly : Bytes

abbrev pub nothing_received : Received
nothing_received = record { frames = []; reassembly = [] }

-- The buffer that `send_payload` hands to `StreamSend`, for a payload of 1 to 65536 bytes.
unfoldable pub frame_buffer : Bytes → Bytes
frame_buffer payload =
    let size = length payload % 2 ^ 32 in
    (size / 2 ^ 24 % 256) ∷ (size / 2 ^ 16 % 256) ∷ (size / 2 ^ 8 % 256) ∷ (size % 256) ∷ payload

unfoldable pub frame_size_of : Bytes → ℕ
frame_size_of reassembly =
    get_or reassembly 0 0 * 2 ^ 24
    + get_or reassembly 1 0 * 2 ^ 16
    + get_or reassembly 2 0 * 2 ^ 8
    + get_or reassembly 3 0

-- `while (channel->reassembly.size() >= 4)`; `none` means that the fuel ran out.
unfoldable pub drain : ℕ → Received → Option Received
drain zero c = none
drain (suc fuel) c =
    let frame_size = frame_size_of c.reassembly in
    let next = drain fuel (record {
      frames = c.frames ++ take frame_size (drop 4 c.reassembly) ∷ [];
      reassembly = drop (4 + frame_size) c.reassembly;
    }) in
    if ltb (length c.reassembly) 4
    then some c
    else if frame_size == 0 || ltb max_frame_size frame_size
    then some (record c { reassembly = [] })
    else if ltb (length c.reassembly) (4 + frame_size)
    then some c
    else next

-- The buffers of one receive event, put behind what is there.
abbrev pub insert_buffers : Bytes → List Bytes → Bytes
insert_buffers reassembly [] = reassembly
insert_buffers reassembly (b ∷ bs) = insert_buffers (reassembly ++ b) bs

-- A round takes at least five bytes, so the length is fuel enough.
unfoldable pub append_received_bytes : Received → List Bytes → Option Received
append_received_bytes c buffers =
    let bytes = insert_buffers c.reassembly buffers in
    drain (suc (length bytes)) (record c { reassembly = bytes })
