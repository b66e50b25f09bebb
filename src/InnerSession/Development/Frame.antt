-- ===== src/InnerSession/Development/Frame.antt =====
-- One frame: what `seal` writes is what `open` reads.
use secure_tunnel_cpp.Prelude.{
  ℕ, ◌+◌, ◌^◌, ◌≤◌, ◌<◌, ◌≡◌, refl, true, false, [], ◌∷◌, ◌++◌, arith, le→ltb, length, get_or, drop,
  length-append, take_all, Bytes,
}
use native.Mathlib.Nat.{mod-eq_of_lt}
use secure_tunnel_cpp.InnerSession.Codec.{write_u64_be, write_u16_be, read_u64_be, read_u16_be}
use secure_tunnel_cpp.InnerSession.Codec.RoundTrip.{
  read_u64_be-write_u64_be, read_u16_be-write_u16_be, length-write_u64_be, length-write_u16_be,
}
use secure_tunnel_cpp.InnerSession.Development.{
  DevelopmentInnerSession, seal, open', inner_frame_version_dev, inner_max_payload_size, Error,
}

-- The frame that carries `plaintext` under `sequence`.
pub header : ℕ → ℕ → Bytes
header sequence size = write_u16_be (write_u64_be (inner_frame_version_dev ∷ []) sequence) size

pub length-header : (q n : ℕ) → length (header q n) ≡ 11
unfolding header
length-header q n = omega (
  arith,
  length-write_u16_be (write_u64_be (inner_frame_version_dev ∷ []) q) n,
  length-write_u64_be (inner_frame_version_dev ∷ []) q,
)

-- The fields of a frame, with anything behind its header.
pub header_fields :
    (q n : ℕ) (rest : Bytes)
    → q < 2 ^ 64
    → n < 2 ^ 16
    → (get_or (header q n ++ rest) 0 0 ≡ inner_frame_version_dev)
      × (read_u64_be (header q n ++ rest) 1 ≡ q)
      × (read_u16_be (header q n ++ rest) 9 ≡ n)
      × (drop 11 (header q n ++ rest) ≡ rest)
unfolding header write_u64_be write_u16_be
header_fields q n rest hq hn = (
  refl,
  read_u64_be-write_u64_be (inner_frame_version_dev ∷ []) _ q hq,
  read_u16_be-write_u16_be (write_u64_be (inner_frame_version_dev ∷ []) q) rest n hn,
  refl,
)

-- A payload within the limit is sealed: the frame is the header followed by the payload, and only
-- the send counter changes.
pub seal_accepts :
    (s : DevelopmentInnerSession) (p out : Bytes)
    → length p ≤ inner_max_payload_size
    → s.send_sequence + 1 < 2 ^ 64
    → seal s p out ≡ (
      record s { send_sequence = s.send_sequence + 1 },
      header (s.send_sequence + 1) (length p) ++ p,
      true,
    )
unfolding seal header
seal_accepts s p out hp hs =
    rw (le→ltb inner_max_payload_size (length p) hp, mod-eq_of_lt hs, mod-eq_of_lt small)
  where
    small : length p < 2 ^ 16
    small = omega arith

-- A frame with a fresh sequence is opened to its payload.
pub open'-header :
    (r : DevelopmentInnerSession) (q : ℕ) (p old : Bytes)
    → length p ≤ inner_max_payload_size
    → q < 2 ^ 64
    → r.last_received_sequence < q
    → open' r (header q (length p) ++ p) old ≡ (record r { last_received_sequence = q }, p, true)
unfolding open'
open'-header r q p old hp hq hr =
    let (version, sequence, size, payload) = header_fields q (length p) p hq (omega arith) in
    rw (version, sequence, size, payload, total, take_all (length p) p refl) (ground arith)
  where
    total : length (header q (length p) ++ p) ≡ 11 + length p
    total = rw (length-append (header q (length p)) p, length-header q (length p))

-- A frame whose sequence is not fresh is refused, and nothing but the error changes.
pub open'-stale :
    (r : DevelopmentInnerSession) (q : ℕ) (p old : Bytes)
    → length p ≤ inner_max_payload_size
    → q < 2 ^ 64
    → q ≤ r.last_received_sequence
    → open' r (header q (length p) ++ p) old
      ≡ (record r { last_error = Error.replayed_or_reordered }, old, false)
unfolding open'
open'-stale r q p old hp hq hr =
    let (version, sequence, size, payload) = header_fields q (length p) p hq (omega arith) in
    rw (version, sequence, total) (ground arith)
  where
    total : length (header q (length p) ++ p) ≡ 11 + length p
    total = rw (length-append (header q (length p)) p, length-header q (length p))

-- Any payload of at most 2048 bytes survives: the sender's frame is accepted by a receiver that
-- has seen no later frame, the payload comes out unchanged, and the receiver's counter becomes the
-- frame's sequence. The sender's 64-bit counter must not be at its end.
pub open'-seal :
    (sender receiver : DevelopmentInnerSession) (p out old : Bytes)
    → length p ≤ inner_max_payload_size
    → sender.send_sequence + 1 < 2 ^ 64
    → receiver.last_received_sequence ≤ sender.send_sequence
    → ((seal sender p out).2 ≡ true)
      × (open' receiver (seal sender p out).1 old
          ≡ (record receiver { last_received_sequence = sender.send_sequence + 1 }, p, true))
open'-seal sender receiver p out old hp hs hr =
    rw (seal_accepts sender p out hp hs)
      (refl, open'-header receiver (sender.send_sequence + 1) p old hp hs (omega arith))

-- A payload above the limit is refused and the sender's counter and the output stay as they were.
pub seal_refuses :
    (s : DevelopmentInnerSession) (p out : Bytes)
    → inner_max_payload_size < length p
    → seal s p out ≡ (record s { last_error = Error.payload_over_limit }, out, false)
unfolding seal
seal_refuses s p out h = ground arith
