-- ===== src/InnerSession/Codec/RoundTrip.antt =====
-- The integers are read back as they were written, behind any bytes and before any bytes.
use secure_tunnel_cpp.InnerSession.Codec.{
  write_u64_be, read_u64_be, write_be_loop, read_be_loop, write_u16_be, read_u16_be,
}
use secure_tunnel_cpp.Prelude.{
  ℕ, zero, suc, ◌+◌, ◌*◌, ◌/◌, ◌%◌, ◌^◌, ◌<◌, ◌≡◌, refl, sym, ◌∙◌, [], ◌∷◌, ◌++◌, append-nil,
  append_assoc, arith, length, get_or, length-append, Bytes,
}

get_or-append : (pre rest : Bytes) (b : ℕ) → get_or (pre ++ b ∷ rest) (length pre) 0 ≡ b
get_or-append [] rest b = refl
get_or-append (a ∷ pre) rest b = get_or-append pre rest b

-- What the loop writes, without the accumulator.
abbrev pub be_bytes : ℕ → ℕ → Bytes
be_bytes zero v = []
be_bytes (suc k) v = (v / 2 ^ (8 * k) % 256) ∷ be_bytes k v

pub write_be_loop_lem : (k v : ℕ) (out : Bytes) → write_be_loop k v out ≡ out ++ be_bytes k v
unfolding write_be_loop
write_be_loop_lem zero v out = sym (append-nil out)
write_be_loop_lem (suc k) v out =
    rw (write_be_loop_lem k v) (append_assoc out ((v / 2 ^ (8 * k) % 256) ∷ []) (be_bytes k v))

read_be_loop-append :
    (k : ℕ) (pre rest : Bytes) (b value : ℕ)
    → read_be_loop (suc k) (pre ++ b ∷ rest) (length pre) value
      ≡ read_be_loop k ((pre ++ b ∷ []) ++ rest) (length (pre ++ b ∷ [])) (value * 256 % 2 ^ 64 + b)
unfolding read_be_loop
read_be_loop-append k pre rest b value =
    rw (get_or-append pre rest b, append_assoc pre (b ∷ []) rest)
      (ground (arith, length-append pre (b ∷ [])))

-- What the reading loop computes from the written digits.
abbrev horner : ℕ → ℕ → ℕ → ℕ
horner zero v value = value
horner (suc k) v value = horner k v (value * 256 % 2 ^ 64 + v / 2 ^ (8 * k) % 256)

read_be_loop-be_bytes :
    (k : ℕ) (pre rest : Bytes) (v value : ℕ)
    → read_be_loop k (pre ++ (be_bytes k v ++ rest)) (length pre) value ≡ horner k v value
read_be_loop-be_bytes zero pre rest v value = unfold read_be_loop in refl
read_be_loop-be_bytes (suc k) pre rest v value =
    read_be_loop-append k pre _ _ value ∙ read_be_loop-be_bytes k (pre ++ _ ∷ []) rest v _

horner_digits : (v : ℕ) → v < 2 ^ 64 → horner 8 v 0 ≡ v
horner_digits v h = omega arith

-- Every 64-bit value is read back where it was written, whatever stands before and after it.
pub read_u64_be-write_u64_be :
    (pre rest : Bytes) (v : ℕ)
    → v < 2 ^ 64
    → read_u64_be (write_u64_be pre v ++ rest) (length pre) ≡ v
unfolding read_u64_be write_u64_be
read_u64_be-write_u64_be pre rest v h =
    rw (write_be_loop_lem 8 v pre, append_assoc pre (be_bytes 8 v) rest)
      (read_be_loop-be_bytes 8 pre rest v 0 ∙ horner_digits v h)

pub length-write_u64_be : (pre : Bytes) (v : ℕ) → length (write_u64_be pre v) ≡ length pre + 8
unfolding write_u64_be
length-write_u64_be pre v = rw (write_be_loop_lem 8 v pre) (length-append pre (be_bytes 8 v))

pub write_u64_be-append : (pre : Bytes) (v : ℕ) → write_u64_be pre v ≡ pre ++ write_u64_be [] v
unfolding write_u64_be
write_u64_be-append pre v = rw (write_be_loop_lem 8 v pre, write_be_loop_lem 8 v []) refl

-- Every 16-bit value is read back where it was written, whatever stands before and after it.
pub read_u16_be-write_u16_be :
    (pre rest : Bytes) (v : ℕ)
    → v < 2 ^ 16
    → read_u16_be (write_u16_be pre v ++ rest) (length pre) ≡ v
unfolding read_u16_be write_u16_be
read_u16_be-write_u16_be [] rest v h = omega arith
read_u16_be-write_u16_be (a ∷ pre) rest v h = read_u16_be-write_u16_be pre rest v h

pub length-write_u16_be : (pre : Bytes) (v : ℕ) → length (write_u16_be pre v) ≡ length pre + 2
unfolding write_u16_be
length-write_u16_be pre v = omega (
  arith,
  length-append (pre ++ _ ∷ []) ((v % 256) ∷ []),
  length-append pre ((v / 2 ^ 8 % 256) ∷ []),
)
