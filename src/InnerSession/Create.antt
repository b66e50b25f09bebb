-- ===== src/InnerSession/Create.antt =====
-- `create_inner_session` of src/inner_session.cpp, in its two builds. `none` is the null pointer.
use secure_tunnel_cpp.Prelude.{
  ◌≡◌, inl, inr, Bool, true, false, not, Option, none, some, arith, if◌then◌else◌, Option-cases,
  Bytes, is_empty,
}
use secure_tunnel_cpp.InnerSession.Hex.{decode_hex_key}
use secure_tunnel_cpp.InnerSession.Development.{Error, DevelopmentInnerSession, fresh}
use secure_tunnel_cpp.InnerSession.Aead.{Bcrypt, BcryptInnerSession, constructed, initialize}

module _ (b : Bcrypt) where
  pub data AnySession : Type 0 where
    development : DevelopmentInnerSession → AnySession
    bcrypt : BcryptInnerSession b → AnySession

  initialized : BcryptInnerSession b × Bool → Option AnySession
  initialized (s, ok) = if not ok then none else some (bcrypt s)

  -- `#ifdef _WIN32`
  unfoldable pub create_on_windows : Bytes → Option AnySession
  unfolding initialized
  create_on_windows psk_hex =
      if is_empty psk_hex then some (development fresh) else elim (decode_hex_key psk_hex) [
        | none ↦ none
        | some key ↦ initialized (initialize b (constructed b key))
      ]

  -- `#else`
  unfoldable pub create_elsewhere : Bytes → Option AnySession
  create_elsewhere psk_hex =
      if is_empty psk_hex
      then some (development fresh)
      else elim (decode_hex_key psk_hex) [ none ↦ none | some key ↦ some (development fresh) ]

  -- What a session for a pre-shared key is: an AEAD session whose key handle was generated from the
  -- decoded key, by an algorithm provider in GCM mode, with both of its counters at 0.
  pub record IsKeyed (psk_hex : Bytes) (s : AnySession) : Type 0 where
    pub key : Bytes
    pub alg : b.Alg
    pub handle : b.Key
    pub decoded : decode_hex_key psk_hex ≡ some key
    pub provider : b.open_algorithm_provider ≡ some alg
    pub gcm : b.set_gcm_mode alg ≡ true
    pub generated : b.generate_symmetric_key alg key ≡ some handle
    pub session :
        s
        ≡ bcrypt (record {
          key = key;
          aes_alg = some alg;
          key_handle = some handle;
          send_sequence = 0;
          last_received_sequence = 0;
          last_error = Error.no_error;
        })

  -- On Windows a pre-shared key that is not empty is the one that is used: if a session comes back, it
  -- is the AEAD session whose key handle was generated from exactly the bytes that the text decodes
  -- to, in GCM mode, with both of its counters at 0.
  pub psk_means_aead :
      (psk_hex : Bytes) (s : AnySession)
      → is_empty psk_hex ≡ false
      → create_on_windows psk_hex ≡ some s
      → IsKeyed psk_hex s
  unfolding create_on_windows initialize
  psk_means_aead psk_hex s h e = elim (Option-cases (decode_hex_key psk_hex)) [
    | inl bad ↦ absurd (ground arith)
    | inr (key, decoded) ↦ elim (Option-cases b.open_algorithm_provider) [
      | inl closed ↦ absurd (ground arith)
      | inr (alg, provider) ↦ elim (Option-cases (b.generate_symmetric_key alg key)) [
        | inl none_made ↦ absurd (ground arith)
        | inr (handle, generated) ↦ record {
          key = key;
          alg = alg;
          handle = handle;
          decoded = decoded;
          provider = provider;
          gcm = ground arith;
          generated = generated;
          session = ground arith;
        }
      ]
    ]
  ]
