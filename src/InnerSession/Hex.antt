-- ===== src/InnerSession/Hex.antt =====
-- `hex_nibble` and `decode_hex_key` of src/inner_session.cpp. Characters are their codes;
-- `(high << 4) | low` is `high * 16 + low`, since both are below 16 there. The key array that a
-- failed call leaves half written is dropped by its only caller, so a failure is `none`.
pub mod Spec
use secure_tunnel_cpp.Prelude.{
  ℕ, zero, suc, ◌+◌, ◌-◌, ◌*◌, ◌/◌, ◌%◌, ◌^◌, ◌≤◌, ◌<◌, min, max, bit_and, ◌≡◌, refl, sym, ap, ◌∙◌,
  subst, ◌≢◌, ◌↔◌, ◌⊎◌, inl, inr, Bool, true, false, ◌&&◌, ◌||◌, not, Option, none, some, List, [],
  ◌∷◌, ◌++◌, map, append-nil, append_assoc, arith, ltb, leb, ◌==◌, if◌then◌else◌, ltb→lt, lt→ltb,
  leb→le, ltb→le, le→ltb, ==_iff, ==_refl, Bool-cases, Option-cases, length, get_or, take, drop,
  length-append, length-take, length-drop, take-append, drop-append, take_all, take-append_drop,
  take_prefix, drop_prefix, drop-drop, All, All-append, All-take, All-drop, Bytes, IsByte, codes,
  is_empty, text_eq, text_eq_sound, text_eq_refl,
}

abbrev pub inner_key_size : ℕ
inner_key_size = 32

unfoldable pub hex_nibble : ℕ → ℕ
hex_nibble c =
    if leb b'0' c && leb c b'9'
    then c - b'0'
    else if leb b'a' c && leb c b'f'
    then 10 + c - b'a'
    else if leb b'A' c && leb c b'F'
    then 10 + c - b'A'
    else 0xFF

-- `rounds` key bytes are still to be decoded, from index `i` on.
unfoldable pub decode_loop : ℕ → Bytes → ℕ → Bytes → Option Bytes
decode_loop zero hex i key = some key
decode_loop (suc rounds) hex i key =
    let high = hex_nibble (get_or hex (i * 2) 0) in
    let low = hex_nibble (get_or hex (i * 2 + 1) 0) in
    let rest = decode_loop rounds hex (i + 1) (key ++ (high * 16 + low) % 256 ∷ []) in
    if high == 0xFF || low == 0xFF then none else rest

unfoldable pub decode_hex_key : Bytes → Option Bytes
unfolding decode_loop
decode_hex_key hex =
    if not (length hex == inner_key_size * 2) then none else decode_loop inner_key_size hex 0 []
