-- ===== src/InnerSession/Aead/Frame.antt =====
-- One AEAD frame: its layout, and that what `seal` writes is what `open` reads.
use secure_tunnel_cpp.Prelude.{
  ℕ, ◌+◌, ◌-◌, ◌%◌, ◌^◌, ◌≤◌, ◌<◌, ◌≡◌, refl, sym, ◌∙◌, true, false, some, List, [], ◌∷◌, ◌++◌,
  arith, le→ltb, length, get_or, drop, length-append, take-append, drop-append, take_all, Bytes,
}
use native.Mathlib.Nat.{mod-eq_of_lt}
use secure_tunnel_cpp.InnerSession.Codec.{write_u64_be, write_u16_be, read_u64_be, read_u16_be}
use secure_tunnel_cpp.InnerSession.Codec.RoundTrip.{
  read_u64_be-write_u64_be, read_u16_be-write_u16_be,
}
use secure_tunnel_cpp.InnerSession.Development.{inner_max_payload_size}
use secure_tunnel_cpp.InnerSession.Interface.{InnerSession, IsGuarded}
use secure_tunnel_cpp.InnerSession.Interface.Replay.{Ascending, accepted, receive}
use secure_tunnel_cpp.InnerSession.Interface.Replay
use secure_tunnel_cpp.InnerSession.Aead.{
  inner_nonce_size, Bcrypt, IsGcm, BcryptInnerSession, seal, open', is_ready, frame_of, nonce_of,
  cipher_of, tag_of, make_nonce, inner_frame_version_aead, inner_tag_size, header_size, buffer_size,
}

length-frame_of :
    (q : ℕ) (cipher tag : Bytes)
    → length tag ≡ inner_tag_size
    → length (frame_of q cipher tag) ≡ header_size + length cipher
unfolding write_u64_be make_nonce
length-frame_of q cipher tag ht = omega (arith, length-append cipher tag)

pub frame_fields :
    (q : ℕ) (cipher tag : Bytes)
    → q < 2 ^ 64
    → length tag ≡ inner_tag_size
    → (get_or (frame_of q cipher tag) 0 0 ≡ inner_frame_version_aead)
      × (read_u64_be (frame_of q cipher tag) 1 ≡ q)
      × (nonce_of (frame_of q cipher tag) ≡ make_nonce q)
      × (cipher_of (frame_of q cipher tag) ≡ cipher)
      × (tag_of (frame_of q cipher tag) ≡ tag)
unfolding write_u64_be make_nonce
frame_fields q cipher tag hq ht = (
  refl,
  read_u64_be-write_u64_be (inner_frame_version_aead ∷ []) (make_nonce q ++ (cipher ++ tag)) q hq,
  refl,
  rw size (take-append cipher tag),
  rw (size, drop-append cipher tag) (take_all inner_tag_size tag (sym ht)),
)
  where
    size : length (frame_of q cipher tag) - header_size ≡ length cipher
    size = omega (arith, length-frame_of q cipher tag ht)

-- What `seal` encrypts.
abbrev plain_frame : Bytes → Bytes
plain_frame p = write_u16_be [] (length p % 2 ^ 16) ++ p

plain_fields :
    (p : Bytes)
    → length p ≤ inner_max_payload_size
    → (read_u16_be (plain_frame p) 0 ≡ length p)
      × (length (plain_frame p) ≡ 2 + length p)
      × (drop 2 (plain_frame p) ≡ p)
unfolding write_u16_be
plain_fields p hp = (
  read_u16_be-write_u16_be [] p (length p % 2 ^ 16) (omega arith) ∙ mod-eq_of_lt small,
  omega arith,
  refl,
)
  where
    small : length p < 2 ^ 16
    small = omega arith

module _ (b : Bcrypt) where
  -- The class as an implementation of the interface.
  abbrev pub aead : InnerSession
  aead = record {
    State = BcryptInnerSession b;
    is_ready = is_ready b;
    seal = seal b;
    open' = open' b;
  }

  -- The received counter guards the session, whatever the library decrypts.
  pub aead-IsGuarded : IsGuarded aead
  unfolding open'
  aead-IsGuarded = record {
    last = λ s. s.last_received_sequence;
    counter = λ s c old. ground arith;
  }

  -- Once the AEAD session has accepted a frame, it refuses the same frame for ever: after any
  -- further frames its replay gives false and leaves the output as it was.
  pub aead_replay_refused :
      (s : BcryptInnerSession b) (c : Bytes) (cs : List Bytes) (old : Bytes)
      → (open' b s c []).2 ≡ true
      → ((open' b (receive aead (open' b s c []).0 cs) c old).2 ≡ false)
        × ((open' b (receive aead (open' b s c []).0 cs) c old).1 ≡ old)
  aead_replay_refused s c cs old h = Replay.replay_refused aead aead-IsGuarded s c cs old h

  aead_seal_accepts :
      (s : BcryptInnerSession b) (k : b.Key) (p out cipher tag : Bytes)
      → s.key_handle ≡ some k
      → length p ≤ inner_max_payload_size
      → s.send_sequence + 1 < 2 ^ 64
      → b.encrypt k (plain_frame p) (make_nonce (s.send_sequence + 1)) buffer_size
        ≡ some (cipher, tag)
      → seal b s p out ≡ (
        record s { send_sequence = s.send_sequence + 1 },
        frame_of (s.send_sequence + 1) cipher tag,
        true,
      )
  unfolding seal
  aead_seal_accepts s k p out cipher tag hk hp hs e =
      ground (arith, mod-eq_of_lt hs, le→ltb inner_max_payload_size (length p) hp)

  aead_open'-frame :
      (r : BcryptInnerSession b) (k : b.Key) (q : ℕ) (p cipher tag old : Bytes)
      → r.key_handle ≡ some k
      → length p ≤ inner_max_payload_size
      → q < 2 ^ 64
      → r.last_received_sequence < q
      → length cipher ≡ length (plain_frame p)
      → length tag ≡ inner_tag_size
      → b.decrypt k cipher (make_nonce q) tag buffer_size ≡ some (plain_frame p)
      → open' b r (frame_of q cipher tag) old ≡ (record r { last_received_sequence = q }, p, true)
  unfolding open'
  aead_open'-frame r k q p cipher tag old hk hp hq hr hc ht e =
      let (version, sequence, nonce, cipher', tag') = frame_fields q cipher tag hq ht in
      let (size, total, payload) = plain_fields p hp in
      ground (arith, length-frame_of q cipher tag ht, take_all (length p) p refl)

  length-make_nonce : (n : ℕ) → length (make_nonce n) ≡ inner_nonce_size
  unfolding make_nonce
  length-make_nonce n = refl

  -- Under the documented behaviour of AES-GCM any payload of at most 2048 bytes survives: a ready
  -- sender's frame is accepted by a receiver with the same key that has seen no later frame, the
  -- payload comes out unchanged, and the receiver's counter becomes the frame's sequence. The
  -- sender's 64-bit counter must not be at its end.
  pub aead_open'-seal :
      (gcm : IsGcm b) (sender receiver : BcryptInnerSession b) (k : b.Key) (p out old : Bytes)
      → sender.key_handle ≡ some k
      → receiver.key_handle ≡ some k
      → length p ≤ inner_max_payload_size
      → sender.send_sequence + 1 < 2 ^ 64
      → receiver.last_received_sequence ≤ sender.send_sequence
      → ((seal b sender p out).2 ≡ true)
        × (open' b receiver (seal b sender p out).1 old
            ≡ (record receiver { last_received_sequence = sender.send_sequence + 1 }, p, true))
  aead_open'-seal gcm sender receiver k p out old hk hk' hp hs hr =
      let (cipher, tag, e, hc, ht, d) =
        gcm.works k (plain_frame p) (make_nonce (sender.send_sequence + 1)) buffer_size
          (omega (arith, (plain_fields p hp).1)) (omega arith)
          (length-make_nonce (sender.send_sequence + 1)) in
      rw (aead_seal_accepts sender k p out cipher tag hk hp hs e) (
        refl,
        aead_open'-frame receiver k (sender.send_sequence + 1) p cipher tag old hk' hp hs
            (omega arith) hc ht d,
      )
