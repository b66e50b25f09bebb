-- ===== src/InnerSession/Aead.antt =====
-- The class `BcryptInnerSession` of src/inner_session.cpp. The calls of the Windows library bcrypt
-- are the fields of `Bcrypt`: `none` and `false` stand for a status other than 0. The counter is
-- copied into the nonce in memory order, which is little endian on Windows. `tag_`,
-- `cipher_buffer_` and `plain_buffer_` are scratch space that every call writes before it reads,
-- so only their capacity is modelled.
pub mod Frame
pub mod Attack
use secure_tunnel_cpp.Prelude.{
  ℕ, zero, suc, ◌+◌, ◌-◌, ◌*◌, ◌/◌, ◌%◌, ◌^◌, ◌≤◌, ◌<◌, min, max, bit_and, ◌≡◌, refl, sym, ap, ◌∙◌,
  subst, ◌≢◌, ◌↔◌, ◌⊎◌, inl, inr, Bool, true, false, ◌&&◌, ◌||◌, not, Option, none, some, List, [],
  ◌∷◌, ◌++◌, map, append-nil, append_assoc, arith, ltb, leb, ◌==◌, if◌then◌else◌, ltb→lt, lt→ltb,
  leb→le, ltb→le, le→ltb, ==_iff, ==_refl, Bool-cases, Option-cases, length, get_or, take, drop,
  length-append, length-take, length-drop, take-append, drop-append, take_all, take-append_drop,
  take_prefix, drop_prefix, drop-drop, All, All-append, All-take, All-drop, Bytes, IsByte, codes,
  is_empty, text_eq, text_eq_sound, text_eq_refl,
}
use secure_tunnel_cpp.InnerSession.Codec.{write_u64_be, write_u16_be, read_u64_be, read_u16_be}
use secure_tunnel_cpp.InnerSession.Development.{inner_max_payload_size, Error}

abbrev pub inner_frame_version_aead : ℕ
inner_frame_version_aead = 0x01

abbrev pub inner_nonce_size : ℕ
inner_nonce_size = 12

abbrev pub inner_tag_size : ℕ
inner_tag_size = 16

-- `BCryptEncrypt key plain nonce capacity` gives the ciphertext and the tag, and so on.
pub record Bcrypt : Type 1 where
  pub Alg : Type 0
  pub Key : Type 0
  pub open_algorithm_provider : Option Alg
  pub set_gcm_mode : Alg → Bool
  pub generate_symmetric_key : Alg → Bytes → Option Key
  pub encrypt : Key → Bytes → Bytes → ℕ → Option (Bytes × Bytes)
  pub decrypt : Key → Bytes → Bytes → Bytes → ℕ → Option Bytes

-- What the code relies on in AES-GCM, as documented: under a nonce of 12 bytes a plaintext that fits
-- the buffer, which is at most 2050 bytes long, is encrypted to as many bytes and a tag of 16, and is decrypted again under the same key and nonce.
pub record IsGcm (b : Bcrypt) : Type 0 where
  pub works :
      (k : b.Key) (plain nonce : Bytes) (capacity : ℕ)
      → length plain ≤ capacity
      → capacity ≤ inner_max_payload_size + 2
      → length nonce ≡ inner_nonce_size
      → (cipher : Bytes) × (tag : Bytes) × (b.encrypt k plain nonce capacity ≡ some (cipher, tag))
        × (length cipher ≡ length plain)
        × (length tag ≡ inner_tag_size)
        × (b.decrypt k cipher nonce tag capacity ≡ some plain)

-- The little-endian bytes of a counter: `memcpy(nonce.data(), &sequence, sizeof(sequence))`.
abbrev pub le_bytes : ℕ → ℕ → Bytes
le_bytes zero v = []
le_bytes (suc k) v = (v % 256) ∷ le_bytes k (v / 256)

-- The array of 12 bytes, zero but for the counter in its first eight.
unfoldable pub make_nonce : ℕ → Bytes
make_nonce sequence = le_bytes 8 sequence ++ (0 ∷ 0 ∷ 0 ∷ 0 ∷ [])

abbrev pub buffer_size : ℕ
buffer_size = inner_max_payload_size + 2

abbrev pub header_size : ℕ
header_size = 1 + 8 + inner_nonce_size + inner_tag_size

-- The frame: version, counter, nonce, ciphertext, tag.
abbrev pub frame_of : ℕ → Bytes → Bytes → Bytes
frame_of sequence cipher tag =
    write_u64_be (inner_frame_version_aead ∷ []) sequence
    ++ (make_nonce sequence ++ (cipher ++ tag))

-- The nonce, the ciphertext and the tag are read from the frame by position.
abbrev pub nonce_of : Bytes → Bytes
nonce_of frame = take inner_nonce_size (drop 9 frame)

abbrev pub cipher_of : Bytes → Bytes
cipher_of frame = take (length frame - header_size) (drop (9 + inner_nonce_size) frame)

abbrev pub tag_of : Bytes → Bytes
tag_of frame =
    take inner_tag_size (drop (length frame - header_size) (drop (9 + inner_nonce_size) frame))

module _ (b : Bcrypt) where
  pub record BcryptInnerSession : Type 0 where
    pub key : Bytes
    pub aes_alg : Option (b.Alg)
    pub key_handle : Option (b.Key)
    pub send_sequence : ℕ
    pub last_received_sequence : ℕ
    pub last_error : Error

  -- The constructor with a key.
  abbrev pub constructed : Bytes → BcryptInnerSession
  constructed key = record {
    key = key;
    aes_alg = none;
    key_handle = none;
    send_sequence = 0;
    last_received_sequence = 0;
    last_error = Error.no_error;
  }

  with_alg : BcryptInnerSession → b.Alg → BcryptInnerSession × Bool
  with_alg s alg =
      if not (b.set_gcm_mode alg)
      then (record s { aes_alg = some alg; last_error = Error.set_gcm_failed }, false)
      else elim (b.generate_symmetric_key alg s.key) [
        | none ↦ (record s { aes_alg = some alg; last_error = Error.generate_key_failed }, false)
        | some k ↦ (record s { aes_alg = some alg; key_handle = some k }, true)
      ]

  unfoldable pub initialize : BcryptInnerSession → BcryptInnerSession × Bool
  unfolding with_alg
  initialize s = elim (b.open_algorithm_provider) [
    | none ↦ (record s { last_error = Error.open_provider_failed }, false)
    | some alg ↦ with_alg s alg
  ]

  unfoldable pub is_ready : BcryptInnerSession → Bool
  is_ready s = elim (s.key_handle) [ none ↦ false | some k ↦ true ]

  seal_with : BcryptInnerSession → b.Key → Bytes → Bytes → BcryptInnerSession × Bytes × Bool
  seal_with s k plaintext ciphertext =
      let plain_frame = write_u16_be [] (length plaintext % 2 ^ 16) ++ plaintext in
      let sequence = (s.send_sequence + 1) % 2 ^ 64 in
      let s' : BcryptInnerSession = record s { send_sequence = sequence } in
      elim (b.encrypt k plain_frame (make_nonce sequence) buffer_size) [
        | none ↦ (record s' { last_error = Error.encrypt_failed }, ciphertext, false)
        | some (cipher, tag) ↦ (s', frame_of sequence cipher tag, true)
      ]

  unfoldable pub seal : BcryptInnerSession → Bytes → Bytes → BcryptInnerSession × Bytes × Bool
  unfolding seal_with
  seal s plaintext ciphertext = elim (s.key_handle) [
    | none ↦ (record s { last_error = Error.not_initialized }, ciphertext, false)
    | some k ↦
        if ltb inner_max_payload_size (length plaintext)
        then (record s { last_error = Error.payload_over_limit }, ciphertext, false)
        else seal_with s k plaintext ciphertext
  ]

  -- After the decryption.
  opened : BcryptInnerSession → ℕ → Bytes → Bytes → BcryptInnerSession × Bytes × Bool
  opened s sequence plain plaintext =
      if ltb (length plain) 2
      then (record s { last_error = Error.opened_too_short }, plaintext, false)
      else let payload_size = read_u16_be plain 0 in
        if ltb inner_max_payload_size payload_size || ltb (length plain) (2 + payload_size)
        then (record s { last_error = Error.opened_illegal_length }, plaintext, false)
        else (
          record s { last_received_sequence = sequence },
          take payload_size (drop 2 plain),
          true,
        )

  open_with : BcryptInnerSession → b.Key → Bytes → Bytes → BcryptInnerSession × Bytes × Bool
  unfolding opened
  open_with s k ciphertext plaintext =
      let sequence = read_u64_be ciphertext 1 in
      if leb sequence s.last_received_sequence
      then (record s { last_error = Error.replayed_or_reordered }, plaintext, false)
      else elim (b.decrypt k (cipher_of ciphertext) (nonce_of ciphertext) (tag_of ciphertext)
          buffer_size) [
            | none ↦ (record s { last_error = Error.decrypt_failed }, plaintext, false)
            | some plain ↦ opened s sequence plain plaintext
          ]

  unfoldable pub open' : BcryptInnerSession → Bytes → Bytes → BcryptInnerSession × Bytes × Bool
  unfolding open_with
  open' s ciphertext plaintext = elim (s.key_handle) [
    | none ↦ (record s { last_error = Error.not_initialized }, plaintext, false)
    | some k ↦
        if ltb (length ciphertext) (header_size + 2)
        then (record s { last_error = Error.aead_frame_too_short }, plaintext, false)
        else if not (get_or ciphertext 0 0 == inner_frame_version_aead)
        then (record s { last_error = Error.version_mismatch }, plaintext, false)
        else open_with s k ciphertext plaintext
  ]
