-- ===== src/InnerSession/Codec.antt =====
-- The big-endian integers of src/inner_session.cpp. A byte vector is a list of numbers below 256;
-- `x >> k` is `x / 2 ^ k`, `& 0xFF` is `% 256`, and `(x << 8) | b` is `x * 256 + b`, since the low
-- eight bits of the first operand are 0 and `b` is a byte.
pub mod RoundTrip
use secure_tunnel_cpp.Prelude.{
  ℕ, zero, suc, ◌+◌, ◌*◌, ◌/◌, ◌%◌, ◌^◌, List, [], ◌∷◌, ◌++◌, Bytes, get_or,
}

-- `for (shift = 8 * (k - 1); shift >= 0; shift -= 8) out.push_back((value >> shift) & 0xFF)`
unfoldable pub write_be_loop : ℕ → ℕ → Bytes → Bytes
write_be_loop zero value out = out
write_be_loop (suc k) value out = write_be_loop k value (out ++ (value / 2 ^ (8 * k) % 256) ∷ [])

unfoldable pub write_u64_be : Bytes → ℕ → Bytes
unfolding write_be_loop
write_u64_be out value = write_be_loop 8 value out

unfoldable pub write_u16_be : Bytes → ℕ → Bytes
write_u16_be out value = (out ++ (value / 2 ^ 8 % 256) ∷ []) ++ (value % 256) ∷ []

-- `rounds` bytes are still to be read, at `offset`. Callers check the length before they read.
unfoldable pub read_be_loop : ℕ → Bytes → ℕ → ℕ → ℕ
read_be_loop zero data' offset value = value
read_be_loop (suc rounds) data' offset value =
    read_be_loop rounds data' (suc offset) (value * 256 % 2 ^ 64 + get_or data' offset 0)

unfoldable pub read_u64_be : Bytes → ℕ → ℕ
unfolding read_be_loop
read_u64_be data' offset = read_be_loop 8 data' offset 0

unfoldable pub read_u16_be : Bytes → ℕ → ℕ
read_u16_be data' offset = (get_or data' offset 0 * 256 + get_or data' (suc offset) 0) % 2 ^ 16
