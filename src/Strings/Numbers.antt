-- ===== src/Strings/Numbers.antt =====
-- Decimal numbers read back.
use secure_tunnel_cpp.Prelude.{
  ℕ, ◌+◌, ◌*◌, ◌/◌, ◌%◌, ◌<◌, ◌≡◌, refl, ap, ◌∙◌, inl, inr, false, some, [], ◌∷◌, ◌++◌, arith, ltb,
  if◌then◌else◌, ltb→lt, Bool-cases, Bytes,
}
use secure_tunnel_cpp.Strings.{isspace, is_digit, digits_value, skip_spaces, unsigned, stoi}

-- A number below 100 in decimal.
unfoldable pub print_decimal : ℕ → Bytes
print_decimal n = if ltb n 10 then (b'0' + n) ∷ [] else (b'0' + n / 10) ∷ (b'0' + n % 10) ∷ []

-- The text does not begin with a digit.
abbrev pub StopsNumber : Bytes → Type 0
StopsNumber [] = Unit
StopsNumber (c ∷ cs) = is_digit c ≡ false

digits_value-stop : (rest : Bytes) (acc : ℕ) → StopsNumber rest → digits_value rest acc ≡ acc
unfolding digits_value
digits_value-stop [] acc h = refl
digits_value-stop (c ∷ cs) acc h = rw h refl

unsigned_one :
    (d : ℕ) (rest : Bytes)
    → d < 10
    → StopsNumber rest
    → unsigned false ((b'0' + d) ∷ rest) ≡ some (false, d)
unfolding digits_value
unsigned_one d rest h s = ground (arith, digits_value-stop rest d s)

unsigned_two :
    (d e : ℕ) (rest : Bytes)
    → d < 10
    → e < 10
    → StopsNumber rest
    → unsigned false ((b'0' + d) ∷ (b'0' + e) ∷ rest) ≡ some (false, d * 10 + e)
unfolding digits_value
unsigned_two d e rest h k s = ground (arith, digits_value-stop rest (d * 10 + e) s)

signed_digit :
    (d : ℕ) (rest : Bytes) → d < 10 → stoi ((b'0' + d) ∷ rest) ≡ unsigned false ((b'0' + d) ∷ rest)
unfolding stoi skip_spaces isspace
signed_digit d rest h = ground arith

-- `stoi` reads a printed number back, whatever text follows that does not go on with a digit.
pub stoi-print_decimal :
    (n : ℕ) (rest : Bytes)
    → n < 100
    → StopsNumber rest
    → stoi (print_decimal n ++ rest) ≡ some (false, n)
unfolding print_decimal
stoi-print_decimal n rest h s = elim (Bool-cases (ltb n 10)) [
  | inl one ↦ rw one (signed_digit n rest (ltb→lt _ _ one) ∙ unsigned_one n rest (ltb→lt _ _ one) s)
  | inr two ↦
      let whole : n / 10 * 10 + n % 10 ≡ n = omega arith in
      rw two (
        signed_digit (n / 10) ((b'0' + n % 10) ∷ rest) (omega arith)
        ∙ (unsigned_two (n / 10) (n % 10) rest (omega arith) (omega arith) s
            ∙ ap (λ (t : ℕ). some (false, t)) whole))
]
