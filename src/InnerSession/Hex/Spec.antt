-- ===== src/InnerSession/Hex/Spec.antt =====
-- `decode_hex_key` accepts exactly the texts of 64 hexadecimal digits, and inverts their printing.
use secure_tunnel_cpp.Prelude.{
  ℕ, zero, suc, ◌+◌, ◌-◌, ◌*◌, ◌/◌, ◌%◌, ◌≤◌, ◌<◌, ◌≡◌, refl, ap, ◌∙◌, ◌≢◌, ◌↔◌, ◌⊎◌, ◌||◌, Option,
  none, some, [], ◌∷◌, ◌++◌, append-nil, append_assoc, arith, ltb, ◌==◌, if◌then◌else◌, length,
  get_or, length-append, All, Bytes, IsByte,
}
use secure_tunnel_cpp.InnerSession.Hex.{hex_nibble, decode_loop, decode_hex_key}

abbrev pub IsHexDigit : ℕ → Type 0
IsHexDigit c = ((b'0' ≤ c) × (c ≤ b'9')) ⊎ (((b'a' ≤ c) × (c ≤ b'f')) ⊎ ((b'A' ≤ c) × (c ≤ b'F')))

-- A nibble is valid exactly on the hexadecimal digits.
hex_nibble-digit : (c : ℕ) → IsHexDigit c → hex_nibble c < 16
unfolding hex_nibble
hex_nibble-digit c h = ground arith

hex_nibble-other : (c : ℕ) → hex_nibble c ≢ 0xFF → IsHexDigit c
unfolding hex_nibble
hex_nibble-other c h = grind arith

-- The decoder as a recursion on the digits, two at a time.
decode_pairs : ℕ → Bytes → Bytes → Option Bytes
decode_pairs zero hex key = some key
decode_pairs (suc n) [] key = none
decode_pairs (suc n) (h ∷ []) key = none
decode_pairs (suc n) (h ∷ l ∷ hex) key =
    let rest = decode_pairs n hex (key ++ (hex_nibble h * 16 + hex_nibble l) % 256 ∷ []) in
    if hex_nibble h == 0xFF || hex_nibble l == 0xFF then none else rest

get_or-prefix :
    (pre : Bytes) (hex : Bytes) (i : ℕ) → get_or (pre ++ hex) (length pre + i) 0 ≡ get_or hex i 0
get_or-prefix [] hex i = ap (λ t. get_or hex t 0) (omega arith)
get_or-prefix (a ∷ pre) hex i =
    let e : suc (length pre) + i ≡ suc (length pre + i) = omega arith in
    ap (λ t. get_or (a ∷ (pre ++ hex)) t 0) e ∙ get_or-prefix pre hex i

decode_loop-pairs :
    (n : ℕ) (pre hex : Bytes) (i : ℕ) (key : Bytes)
    → length pre ≡ i * 2
    → length hex ≡ n * 2
    → decode_loop n (pre ++ hex) i key ≡ decode_pairs n hex key
unfolding decode_loop decode_pairs
decode_loop-pairs zero pre hex i key hp hh = refl
decode_loop-pairs (suc n) pre [] i key hp hh = absurd (omega arith)
decode_loop-pairs (suc n) pre (h ∷ []) i key hp hh = absurd (omega arith)
decode_loop-pairs (suc n) pre (h ∷ l ∷ hex) i key hp hh = ground (
  arith,
  get_or-prefix pre (h ∷ l ∷ hex) 0,
  get_or-prefix pre (h ∷ l ∷ hex) 1,
  append_assoc pre (h ∷ l ∷ []) hex,
  length-append pre (h ∷ l ∷ []),
  decode_loop-pairs n (pre ++ h ∷ l ∷ []) hex (i + 1)
      (key ++ (hex_nibble h * 16 + hex_nibble l) % 256 ∷ []),
)

decode_hex_key-pairs :
    (hex : Bytes) → decode_hex_key hex ≡ (if length hex == 64 then decode_pairs 32 hex [] else none)
unfolding decode_hex_key
decode_hex_key-pairs hex = ground (arith, decode_loop-pairs 32 [] hex 0 [])

decode_pairs_total :
    (n : ℕ) (hex key : Bytes)
    → length hex ≡ n * 2
    → All IsHexDigit hex
    → (k : Bytes) × (decode_pairs n hex key ≡ some k)
unfolding decode_pairs
decode_pairs_total zero hex key h a = (key, refl)
decode_pairs_total (suc n) [] key h a = absurd (omega arith)
decode_pairs_total (suc n) (c ∷ []) key h a = absurd (omega arith)
decode_pairs_total (suc n) (c ∷ d ∷ hex) key h a =
    let (k, e) =
      decode_pairs_total n hex (key ++ (hex_nibble c * 16 + hex_nibble d) % 256 ∷ []) (omega arith)
        a.1.1 in
    (k, ground (arith, hex_nibble-digit c a.0, hex_nibble-digit d a.1.0))

decode_pairs_sound :
    (n : ℕ) (hex key k : Bytes)
    → length hex ≡ n * 2
    → decode_pairs n hex key ≡ some k
    → All IsHexDigit hex × (length k ≡ length key + n)
unfolding decode_pairs
decode_pairs_sound zero [] key k h e = (tt, ground arith)
decode_pairs_sound zero (c ∷ hex) key k h e = absurd (omega arith)
decode_pairs_sound (suc n) [] key k h e = absurd (omega arith)
decode_pairs_sound (suc n) (c ∷ []) key k h e = absurd (omega arith)
decode_pairs_sound (suc n) (c ∷ d ∷ hex) key k h e = ground (
  arith,
  hex_nibble-other c,
  hex_nibble-other d,
  decode_pairs_sound n hex (key ++ (hex_nibble c * 16 + hex_nibble d) % 256 ∷ []) k,
  length-append key (((hex_nibble c * 16 + hex_nibble d) % 256) ∷ []),
)

-- `decode_hex_key` gives a key of 32 bytes exactly on the texts of 64 hexadecimal digits of either
-- case.
pub decode_hex_key-iff-IsHexDigit :
    (hex : Bytes)
    → ((k : Bytes) × (decode_hex_key hex ≡ some k) × (length k ≡ 32))
      ↔ ((length hex ≡ 64) × All IsHexDigit hex)
decode_hex_key-iff-IsHexDigit hex = (decoded, digits)
  where
    decoded :
        ((k : Bytes) × (decode_hex_key hex ≡ some k) × (length k ≡ 32))
        → (length hex ≡ 64) × All IsHexDigit hex
    decoded (k, e, h) = ground (arith, decode_hex_key-pairs hex, decode_pairs_sound 32 hex [] k)

    digits :
        (length hex ≡ 64) × All IsHexDigit hex
        → (k : Bytes) × (decode_hex_key hex ≡ some k) × (length k ≡ 32)
    digits (h, a) =
        let (k, e) = decode_pairs_total 32 hex [] (omega arith) a in
        let (_, n) = decode_pairs_sound 32 hex [] k (omega arith) e in
        (k, ground (arith, decode_hex_key-pairs hex), omega (arith, n))

-- The lower-case print of a key.
abbrev pub hex_digit : ℕ → ℕ
hex_digit n = if ltb n 10 then b'0' + n else b'a' + (n - 10)

abbrev pub print_key : Bytes → Bytes
print_key [] = []
print_key (k ∷ ks) = hex_digit (k / 16) ∷ hex_digit (k % 16) ∷ print_key ks

hex_nibble-hex_digit : (n : ℕ) → n < 16 → hex_nibble (hex_digit n) ≡ n
unfolding hex_nibble
hex_nibble-hex_digit n h = ground arith

length-print_key : (ks : Bytes) → length (print_key ks) ≡ length ks * 2
length-print_key [] = refl
length-print_key (k ∷ ks) = omega (arith, length-print_key ks)

decode_pairs-print_key :
    (ks key : Bytes)
    → All IsByte ks
    → decode_pairs (length ks) (print_key ks) key ≡ some (key ++ ks)
unfolding decode_pairs
decode_pairs-print_key [] key h = rw append-nil
decode_pairs-print_key (k ∷ ks) key h = ground (
  arith,
  hex_nibble-hex_digit (k / 16) (omega arith),
  hex_nibble-hex_digit (k % 16) (omega arith),
  decode_pairs-print_key ks (key ++ k ∷ []) h.1,
  append_assoc key (k ∷ []) ks,
)

-- Every key of 32 bytes is read back from its hexadecimal print.
pub decode_hex_key-print_key :
    (key : Bytes) → length key ≡ 32 → All IsByte key → decode_hex_key (print_key key) ≡ some key
decode_hex_key-print_key key h a =
    rw (decode_hex_key-pairs (print_key key))
      (ground (arith, length-print_key key, decode_pairs-print_key key [] a))
