-- ===== src/Strings.antt =====
-- What the sources use of the C++ standard library on texts: `std::isspace` of the C locale,
-- `std::getline` over a whole file, `std::stoi`, `find` and the order of `std::string`.
pub mod Lines
pub mod Numbers
use secure_tunnel_cpp.Prelude.{
  ℕ, zero, suc, ◌+◌, ◌-◌, ◌*◌, ◌/◌, ◌%◌, ◌^◌, ◌≤◌, ◌<◌, min, max, bit_and, ◌≡◌, refl, sym, ap, ◌∙◌,
  subst, ◌≢◌, ◌↔◌, ◌⊎◌, inl, inr, Bool, true, false, ◌&&◌, ◌||◌, not, Option, none, some, List, [],
  ◌∷◌, ◌++◌, map, append-nil, append_assoc, arith, ltb, leb, ◌==◌, if◌then◌else◌, ltb→lt, lt→ltb,
  leb→le, ltb→le, le→ltb, ==_iff, ==_refl, Bool-cases, Option-cases, length, get_or, take, drop,
  length-append, length-take, length-drop, take-append, drop-append, take_all, take-append_drop,
  take_prefix, drop_prefix, drop-drop, All, All-append, All-take, All-drop, All-map, Bytes, IsByte,
  codes, is_empty, text_eq, text_eq_sound, text_eq_refl,
}

unfoldable pub isspace : ℕ → Bool
isspace c = (leb 9 c && leb c 13) || c == b' '

-- The lines of a file; a last line that is empty is none.
abbrev pub push : ℕ → List Bytes → List Bytes
push c [] = (c ∷ []) ∷ []
push c (l ∷ ls) = (c ∷ l) ∷ ls

unfoldable pub get_lines : Bytes → List Bytes
get_lines [] = []
get_lines (c ∷ cs) = let rest = get_lines cs in if c == 10 then [] ∷ rest else push c rest

-- `text.substr(0, text.find(c))`, and `text.substr(text.find(c) + 1)`; `none` where it is not found.
unfoldable pub before : ℕ → Bytes → Option Bytes
before c [] = none
before c (x ∷ xs) =
    let rest = before c xs in
    if x == c then some [] else elim rest [ none ↦ none | some ys ↦ some (x ∷ ys) ]

unfoldable pub after : ℕ → Bytes → Bytes
after c [] = []
after c (x ∷ xs) = let rest = after c xs in if x == c then xs else rest

-- `text.rfind(prefix, 0) == 0`.
abbrev pub starts_with : Bytes → Bytes → Bool
starts_with prefix text = text_eq (take (length prefix) text) prefix

-- `a < b`.
unfoldable pub text_lt : Bytes → Bytes → Bool
text_lt a [] = false
text_lt [] (y ∷ ys) = true
text_lt (x ∷ xs) (y ∷ ys) = ltb x y || (x == y && text_lt xs ys)

abbrev pub is_digit : ℕ → Bool
is_digit c = leb b'0' c && leb c b'9'

-- The value of the digits that a text begins with, after `acc`.
unfoldable pub digits_value : Bytes → ℕ → ℕ
digits_value [] acc = acc
digits_value (c ∷ cs) acc = if is_digit c then digits_value cs (acc * 10 + (c - b'0')) else acc

unfoldable pub skip_spaces : Bytes → Bytes
skip_spaces [] = []
skip_spaces (c ∷ cs) = if isspace c then skip_spaces cs else c ∷ cs

-- The sign and the magnitude.
abbrev pub unsigned : Bool → Bytes → Option (Bool × ℕ)
unsigned negative [] = none
unsigned negative (c ∷ cs) =
    if not (is_digit c)
    then none
    else let value = digits_value (c ∷ cs) 0 in
      if ltb (if negative then 2 ^ 31 else 2 ^ 31 - 1) value then none else some (negative, value)

abbrev pub signed : Bytes → Option (Bool × ℕ)
signed [] = none
signed (c ∷ cs) =
    if c == b'-'
    then unsigned true cs
    else if c == b'+'
    then unsigned false cs
    else unsigned false (c ∷ cs)

-- `none` where `std::stoi` throws.
unfoldable pub stoi : Bytes → Option (Bool × ℕ)
stoi text = signed (skip_spaces text)
