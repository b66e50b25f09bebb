-- ===== src/Quic/Thumbprint.antt =====
-- `decode_hex_nibble` and `decode_hex_buffer` of src/quic_secure_transport.cpp, for a
-- certificate's thumbprint. `(high << 4) | low` is `high * 16 + low`.
use secure_tunnel_cpp.Prelude.{
  ℕ, zero, suc, ◌+◌, ◌-◌, ◌*◌, ◌/◌, ◌%◌, ◌≡◌, refl, ap, ◌↔◌, ◌&&◌, ◌||◌, not, Option, none, some,
  [], ◌∷◌, arith, ltb, leb, ◌==◌, if◌then◌else◌, length, get_or, Bytes,
}

unfoldable pub decode_hex_nibble : ℕ → ℕ
decode_hex_nibble c =
    if leb b'0' c && leb c b'9'
    then c - b'0'
    else if leb b'a' c && leb c b'f'
    then 10 + c - b'a'
    else if leb b'A' c && leb c b'F'
    then 10 + c - b'A'
    else 0

-- The bytes from index `i` on, `rounds` of them.
unfoldable pub buffer_loop : ℕ → Bytes → ℕ → Bytes
buffer_loop zero hex i = []
buffer_loop (suc rounds) hex i =
    (decode_hex_nibble (get_or hex (i * 2) 0) * 16 + decode_hex_nibble (get_or hex (i * 2 + 1) 0))
      % 256
    ∷ buffer_loop rounds hex (i + 1)

-- The bytes that are written; `capacity` is `out.size()`.
unfoldable pub decode_hex_buffer : Bytes → ℕ → Option Bytes
decode_hex_buffer hex capacity =
    if not (length hex % 2 == 0) || ltb capacity (length hex / 2)
    then none
    else some (buffer_loop (length hex / 2) hex 0)

length-buffer_loop : (n : ℕ) (hex : Bytes) (i : ℕ) → length (buffer_loop n hex i) ≡ n
unfolding buffer_loop
length-buffer_loop zero hex i = refl
length-buffer_loop (suc n) hex i = ap suc (length-buffer_loop n hex (i + 1))

-- What a success says.
passes : (hex out : Bytes) → decode_hex_buffer hex 20 ≡ some out → length out ≡ 20 → length hex ≡ 40
unfolding decode_hex_buffer
passes hex out e h = grind (arith, length-buffer_loop (length hex / 2) hex 0)

of_forty : (hex : Bytes) → length hex ≡ 40 → decode_hex_buffer hex 20 ≡ some (buffer_loop 20 hex 0)
unfolding decode_hex_buffer
of_forty hex h = rw h refl

-- A thumbprint passes exactly if it has 40 characters: whether they are hexadecimal digits is not
-- asked.
pub thumbprint-iff-length :
    (hex : Bytes)
    → ((out : Bytes) × (decode_hex_buffer hex 20 ≡ some out) × (length out ≡ 20))
      ↔ (length hex ≡ 40)
thumbprint-iff-length hex = (
  λ (out, e, h). passes hex out e h,
  λ h. (buffer_loop 20 hex 0, of_forty hex h, length-buffer_loop 20 hex 0),
)
