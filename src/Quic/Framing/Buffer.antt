-- ===== src/Quic/Framing/Buffer.antt =====
-- The first frame of a stream, read from as many of its bytes as have come.
use secure_tunnel_cpp.Prelude.{
  ◌+◌, ◌≤◌, ◌<◌, ◌≡◌, refl, sym, ap, ◌∙◌, List, [], ◌∷◌, ◌++◌, arith, length, take, drop,
  length-drop, take-append, drop-append, take_prefix, drop_prefix, Bytes,
}
use secure_tunnel_cpp.Quic.Framing.{frame_size_of, frame_buffer, max_frame_size}

-- What `send_payload` lets through.
abbrev pub IsSendable : Bytes → Type 0
IsSendable p = (0 < length p) × (length p ≤ max_frame_size)

-- The bytes of a stream of payloads.
abbrev pub stream : List Bytes → Bytes
stream [] = []
stream (p ∷ ps) = frame_buffer p ++ stream ps

-- The header of a frame, read back with anything behind it.
pub frame_size_of-frame_buffer :
    (p rest : Bytes) → IsSendable p → frame_size_of (frame_buffer p ++ rest) ≡ length p
unfolding frame_size_of frame_buffer
frame_size_of-frame_buffer p rest h = omega arith

frame_size_of-append : (r rest : Bytes) → 4 ≤ length r → frame_size_of (r ++ rest) ≡ frame_size_of r
unfolding frame_size_of
frame_size_of-append [] rest h = absurd (omega arith)
frame_size_of-append (a ∷ []) rest h = absurd (omega arith)
frame_size_of-append (a ∷ b ∷ []) rest h = absurd (omega arith)
frame_size_of-append (a ∷ b ∷ c ∷ []) rest h = absurd (omega arith)
frame_size_of-append (a ∷ b ∷ c ∷ d ∷ r) rest h = refl

pub length-frame_buffer : (p : Bytes) → length (frame_buffer p) ≡ 4 + length p
unfolding frame_buffer
length-frame_buffer p = omega arith

drop-frame_buffer : (p tail : Bytes) → drop 4 (frame_buffer p ++ tail) ≡ p ++ tail
unfolding frame_buffer
drop-frame_buffer p tail = refl

pub append-eq-nil : (xs ys : Bytes) → xs ++ ys ≡ [] → xs ≡ []
append-eq-nil [] ys e = refl
append-eq-nil (x ∷ xs) ys e = cc

-- The first bytes of a stream whose next frame carries `p`.
module _ (r rest p tail : Bytes) (ok : IsSendable p) (e : r ++ rest ≡ frame_buffer p ++ tail) where
  pub first_size : 4 ≤ length r → frame_size_of r ≡ length p
  first_size h =
      sym (frame_size_of-append r rest h)
      ∙ (ap frame_size_of e ∙ frame_size_of-frame_buffer p tail ok)

  pub first_payload : 4 + length p ≤ length r → take (length p) (drop 4 r) ≡ p
  first_payload h =
      sym (take_prefix (length p) (drop 4 r) rest (omega (arith, length-drop 4 r)))
      ∙ (ap (take (length p))
            (sym (drop_prefix 4 r rest (omega arith)) ∙ (ap (drop 4) e ∙ drop-frame_buffer p tail))
          ∙ take-append p tail)

  pub first_rest : 4 + length p ≤ length r → drop (4 + length p) r ++ rest ≡ tail
  first_rest h =
      sym (drop_prefix (4 + length p) r rest h)
      ∙ (ap (drop (4 + length p)) e
          ∙ (ap (λ n. drop n (frame_buffer p ++ tail)) (sym (length-frame_buffer p))
              ∙ drop-append (frame_buffer p) tail))
