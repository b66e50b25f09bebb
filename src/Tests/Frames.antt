-- ===== src/Tests/Frames.antt =====
-- Sessions that seal and open, and the frames on a stream, at concrete inputs.
use secure_tunnel_cpp.Prelude.{
  ◌+◌, ◌≤◌, ◌<◌, ◌≡◌, refl, ap, ◌↔◌, true, false, none, some, List, [], ◌∷◌, ◌++◌, arith, leb,
  if◌then◌else◌, length, All, Bytes, codes,
}
use secure_tunnel_cpp.InnerSession.Codec.{write_u64_be, write_u16_be}
use secure_tunnel_cpp.InnerSession.Hex.{decode_hex_key}
use secure_tunnel_cpp.InnerSession.Hex.Spec.{
  IsHexDigit, print_key, decode_hex_key-iff-IsHexDigit, decode_hex_key-print_key,
}
use secure_tunnel_cpp.InnerSession.Development.{DevelopmentInnerSession, seal, open', fresh}
use secure_tunnel_cpp.InnerSession.Development.Frame.{open'-seal}
use secure_tunnel_cpp.InnerSession.Development.Replay.{development, development_replay_refused}
use secure_tunnel_cpp.InnerSession.Development.Stream.{
  send_all, receive_all, survivors, receive_all-send_all, behind_refused,
}
use secure_tunnel_cpp.InnerSession.Interface.Replay.{receive}
use secure_tunnel_cpp.InnerSession.Aead.{
  Bcrypt, IsGcm, BcryptInnerSession, constructed, nonce_of, inner_tag_size,
}
use secure_tunnel_cpp.InnerSession.Aead
use secure_tunnel_cpp.InnerSession.Aead.Frame.{aead_open'-seal}
use secure_tunnel_cpp.InnerSession.Aead.Attack.{renumber, header_not_authenticated, nonce_reused}
use secure_tunnel_cpp.InnerSession.Create.{AnySession, create_on_windows, IsKeyed, psk_means_aead}
use secure_tunnel_cpp.Quic.Framing.{
  Received, nothing_received, append_received_bytes, frame_buffer, max_frame_size,
}
use secure_tunnel_cpp.Quic.Framing.Bounds.{append_received_bytes_bounds}
use secure_tunnel_cpp.Quic.Framing.Stream.{receive_events, receive_events-stream}

abbrev packet : Bytes
packet = 0x45 ∷ 0x00 ∷ 0xAB ∷ []

abbrev first_frame : Bytes
first_frame = (seal fresh packet []).1

sealed_packet :
    (seal fresh packet []).1
    ≡ 0xFE ∷ 0 ∷ 0 ∷ 0 ∷ 0 ∷ 0 ∷ 0 ∷ 0 ∷ 1 ∷ 0 ∷ 3 ∷ 0x45 ∷ 0x00 ∷ 0xAB ∷ []
unfolding seal write_u64_be write_u16_be
sealed_packet = refl

first_frame_accepted : (open' fresh first_frame []).2 ≡ true
first_frame_accepted =
    ap (λ r. r.2) (open'-seal fresh fresh packet [] [] (omega arith) (omega arith) (omega arith)).1

development_replay_refused_example :
    ((open' (receive development (open' fresh first_frame []).0 (packet ∷ [])) first_frame []).2
      ≡ false)
    × ((open' (receive development (open' fresh first_frame []).0 (packet ∷ [])) first_frame []).1
        ≡ [])
development_replay_refused_example =
    development_replay_refused fresh first_frame (packet ∷ []) [] first_frame_accepted

abbrev three_packets : List Bytes
three_packets = packet ∷ (1 ∷ []) ∷ (2 ∷ 3 ∷ []) ∷ []

receive_all-send_all_example :
    receive_all fresh (survivors (true ∷ false ∷ true ∷ []) (send_all fresh three_packets))
    ≡ survivors (true ∷ false ∷ true ∷ []) three_packets
receive_all-send_all_example =
    receive_all-send_all fresh fresh (true ∷ false ∷ true ∷ []) three_packets (omega arith)
      (omega arith) (omega arith)

-- A receiver that has served an earlier client.
abbrev seasoned : DevelopmentInnerSession
seasoned = record fresh { last_received_sequence = 7 }

behind_refused_example :
    ((seal fresh packet []).2 ≡ true)
    × ((open' seasoned (seal fresh packet []).1 []).2 ≡ false)
    × ((open' seasoned (seal fresh packet []).1 []).1 ≡ [])
behind_refused_example =
    behind_refused fresh seasoned packet [] (omega arith) (omega arith) (omega arith)

-- A library that hands the plaintext through, with a tag of zeros.
abbrev zero_tag : Bytes
zero_tag = 0 ∷ 0 ∷ 0 ∷ 0 ∷ 0 ∷ 0 ∷ 0 ∷ 0 ∷ 0 ∷ 0 ∷ 0 ∷ 0 ∷ 0 ∷ 0 ∷ 0 ∷ 0 ∷ []

abbrev plain_bcrypt : Bcrypt
plain_bcrypt = record {
  Alg = Unit {0};
  Key = Bytes;
  open_algorithm_provider = some tt;
  set_gcm_mode = λ _. true;
  generate_symmetric_key = λ _ key. some key;
  encrypt = λ k plain nonce capacity.
      if leb (length plain) capacity then some (plain, zero_tag) else none;
  decrypt =
      λ k cipher nonce tag capacity. if leb (length cipher) capacity then some cipher else none;
}

plain_bcrypt-IsGcm : IsGcm plain_bcrypt
plain_bcrypt-IsGcm = record {
  works = λ k plain nonce capacity h bound size.
      (plain, zero_tag, ground arith, refl, refl, ground arith);
}

abbrev keyed : BcryptInnerSession plain_bcrypt
keyed = record (constructed plain_bcrypt (1 ∷ [])) { key_handle = some (1 ∷ []) }

aead_open'-seal_example :
    ((Aead.seal plain_bcrypt keyed packet []).2 ≡ true)
    × (Aead.open' plain_bcrypt keyed (Aead.seal plain_bcrypt keyed packet []).1 []
        ≡ (record keyed { last_received_sequence = 1 }, packet, true))
aead_open'-seal_example =
    aead_open'-seal plain_bcrypt plain_bcrypt-IsGcm keyed keyed (1 ∷ []) packet [] [] refl refl
      (omega arith) (omega arith) (omega arith)

abbrev aead_frame : Bytes
aead_frame = (Aead.seal plain_bcrypt keyed packet []).1

aead_frame_accepted : (Aead.open' plain_bcrypt keyed aead_frame []).2 ≡ true
aead_frame_accepted =
    ap (λ r. r.2)
      (aead_open'-seal plain_bcrypt plain_bcrypt-IsGcm keyed keyed (1 ∷ []) packet [] [] refl refl
        (omega arith) (omega arith) (omega arith)).1

header_not_authenticated_example :
    ((Aead.open' plain_bcrypt
        (record keyed { last_received_sequence = 1 })
        (renumber 99 aead_frame)
        []).2
      ≡ true)
    × ((Aead.open' plain_bcrypt
          (record keyed { last_received_sequence = 1 })
          (renumber 99 aead_frame)
          []).1
        ≡ (Aead.open' plain_bcrypt keyed aead_frame []).1)
header_not_authenticated_example =
    header_not_authenticated plain_bcrypt keyed (record keyed { last_received_sequence = 1 })
      aead_frame [] [] 99 aead_frame_accepted refl (omega arith) (omega arith)

sealed_ok : (p : Bytes) → length p ≤ 2048 → (Aead.seal plain_bcrypt keyed p []).2 ≡ true
sealed_ok p h =
    (aead_open'-seal plain_bcrypt plain_bcrypt-IsGcm keyed keyed (1 ∷ []) p [] [] refl refl h
      (omega arith) (omega arith)).0

nonce_reused_example :
    (nonce_of (Aead.seal plain_bcrypt keyed packet []).1
      ≡ nonce_of (Aead.seal plain_bcrypt keyed (9 ∷ []) []).1)
    ↔ (keyed.send_sequence ≡ keyed.send_sequence)
nonce_reused_example =
    nonce_reused plain_bcrypt keyed keyed packet (9 ∷ []) [] [] (omega arith) (omega arith)
      (sealed_ok packet (omega arith)) (sealed_ok (9 ∷ []) (omega arith))

abbrev zero_key : Bytes
zero_key = zero_tag ++ zero_tag

decode_hex_key-iff-IsHexDigit_example :
    ((k : Bytes) × (decode_hex_key (codes "zz") ≡ some k) × (length k ≡ 32))
    ↔ ((length (codes "zz") ≡ 64) × All IsHexDigit (codes "zz"))
decode_hex_key-iff-IsHexDigit_example = decode_hex_key-iff-IsHexDigit (codes "zz")

-- Two frames, cut inside the first header and inside the second payload.
abbrev two_payloads : List Bytes
two_payloads = packet ∷ (7 ∷ 8 ∷ []) ∷ []

abbrev cut_stream : List (List Bytes)
cut_stream =
    ((0 ∷ 0 ∷ []) ∷ (0 ∷ 3 ∷ 0x45 ∷ []) ∷ [])
    ∷ ((0x00 ∷ 0xAB ∷ 0 ∷ 0 ∷ 0 ∷ 2 ∷ 7 ∷ []) ∷ [])
    ∷ ((8 ∷ []) ∷ [])
    ∷ []

receive_events-stream_example :
    receive_events nothing_received cut_stream
    ≡ some (record { frames = two_payloads; reassembly = [] })
unfolding frame_buffer
receive_events-stream_example = receive_events-stream two_payloads cut_stream (omega arith) refl

append_received_bytes_bounds_example :
    (d : Received) × (append_received_bytes nothing_received ((255 ∷ 255 ∷ 255 ∷ 255 ∷ []) ∷ [])
      ≡ some d)
    × (length d.reassembly < 4 + max_frame_size)
append_received_bytes_bounds_example =
    append_received_bytes_bounds nothing_received ((255 ∷ 255 ∷ 255 ∷ 255 ∷ []) ∷ [])

abbrev created : BcryptInnerSession plain_bcrypt
created = record (constructed plain_bcrypt zero_key) {
  aes_alg = some tt;
  key_handle = some zero_key;
}

bcrypt_created :
    create_on_windows plain_bcrypt (print_key zero_key) ≡ some (AnySession.bcrypt created)
unfolding create_on_windows Aead.initialize
bcrypt_created = rw (decode_hex_key-print_key zero_key refl (omega arith)) refl

psk_means_aead_example : IsKeyed plain_bcrypt (print_key zero_key) (AnySession.bcrypt created)
psk_means_aead_example =
    psk_means_aead plain_bcrypt (print_key zero_key) (AnySession.bcrypt created) refl bcrypt_created
