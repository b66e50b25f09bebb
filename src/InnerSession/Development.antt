-- ===== src/InnerSession/Development.antt =====
-- The constants and the abstract class of include/tunnel/inner_session.hpp, and the class
-- `DevelopmentInnerSession` of src/inner_session.cpp. The out parameter of `seal` and `open` is an
-- argument and a part of the result. The sequence counters are std::uint64_t and wrap. A message
-- of `last_error_` is a constructor of `Error`.
pub mod Frame
pub mod Replay
pub mod Stream
use secure_tunnel_cpp.Prelude.{
  ℕ, zero, suc, ◌+◌, ◌-◌, ◌*◌, ◌/◌, ◌%◌, ◌^◌, ◌≤◌, ◌<◌, min, max, bit_and, ◌≡◌, refl, sym, ap, ◌∙◌,
  subst, ◌≢◌, ◌↔◌, ◌⊎◌, inl, inr, Bool, true, false, ◌&&◌, ◌||◌, not, Option, none, some, List, [],
  ◌∷◌, ◌++◌, map, append-nil, append_assoc, arith, ltb, leb, ◌==◌, if◌then◌else◌, ltb→lt, lt→ltb,
  leb→le, ltb→le, le→ltb, ==_iff, ==_refl, Bool-cases, Option-cases, length, get_or, take, drop,
  length-append, length-take, length-drop, take-append, drop-append, take_all, take-append_drop,
  take_prefix, drop_prefix, All, All-append, All-take, All-drop, Bytes, IsByte, codes, is_empty,
  text_eq, text_eq_sound, text_eq_refl,
}
use secure_tunnel_cpp.InnerSession.Codec.{write_u64_be, write_u16_be, read_u64_be, read_u16_be}

abbrev pub inner_frame_version_dev : ℕ
inner_frame_version_dev = 0xFE

abbrev pub inner_max_payload_size : ℕ
inner_max_payload_size = 2048

pub data Error : Type 0 where
  no_error : Error
  payload_over_limit : Error
  dev_frame_too_short : Error
  version_mismatch : Error
  replayed_or_reordered : Error
  illegal_frame_length : Error
  not_initialized : Error
  aead_frame_too_short : Error
  encrypt_failed : Error
  decrypt_failed : Error
  opened_too_short : Error
  opened_illegal_length : Error
  open_provider_failed : Error
  set_gcm_failed : Error
  generate_key_failed : Error

pub record DevelopmentInnerSession : Type 0 where
  pub send_sequence : ℕ
  pub last_received_sequence : ℕ
  pub last_error : Error

abbrev pub fresh : DevelopmentInnerSession
fresh = record { send_sequence = 0; last_received_sequence = 0; last_error = no_error }

unfoldable pub seal :
    DevelopmentInnerSession → Bytes → Bytes → DevelopmentInnerSession × Bytes × Bool
seal s plaintext ciphertext =
    if ltb inner_max_payload_size (length plaintext)
    then (record s { last_error = payload_over_limit }, ciphertext, false)
    else let sequence = (s.send_sequence + 1) % 2 ^ 64 in
      (
        record s { send_sequence = sequence },
        write_u16_be (write_u64_be (inner_frame_version_dev ∷ []) sequence)
              (length plaintext % 2 ^ 16)
            ++ plaintext,
        true,
      )

unfoldable pub open' :
    DevelopmentInnerSession → Bytes → Bytes → DevelopmentInnerSession × Bytes × Bool
open' s ciphertext plaintext =
    if ltb (length ciphertext) (1 + 8 + 2)
    then (record s { last_error = dev_frame_too_short }, plaintext, false)
    else if not (get_or ciphertext 0 0 == inner_frame_version_dev)
    then (record s { last_error = version_mismatch }, plaintext, false)
    else let sequence = read_u64_be ciphertext 1 in
      if leb sequence s.last_received_sequence
      then (record s { last_error = replayed_or_reordered }, plaintext, false)
      else let payload_size = read_u16_be ciphertext 9 in
        if ltb inner_max_payload_size payload_size
          || ltb (length ciphertext) (1 + 8 + 2 + payload_size)
        then (record s { last_error = illegal_frame_length }, plaintext, false)
        else (
          record s { last_received_sequence = sequence },
          take payload_size (drop 11 ciphertext),
          true,
        )
