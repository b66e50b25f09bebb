-- ===== src/Apps/Arguments.antt =====
-- What the programs of apps/ do alike with their arguments and with the file of the thumbprint.
use secure_tunnel_cpp.Prelude.{
  ℕ, ◌-◌, ◌%◌, ◌^◌, Bool, ◌&&◌, ◌||◌, not, Option, none, some, List, [], ◌∷◌, ltb, ◌==◌,
  if◌then◌else◌, length, drop, Bytes, codes, is_empty,
}
use secure_tunnel_cpp.Strings.{get_lines, starts_with}
use secure_tunnel_cpp.SmartRoute.{Files}

-- `arg.rfind(name, 0) == 0`, and the text behind the name.
abbrev pub value_of : Bytes → Bytes → Option Bytes
value_of name arg = if starts_with name arg then some (drop (length name) arg) else none

-- `static_cast<std::uint16_t>` of an `int`, its sign and its magnitude.
abbrev pub to_port : Bool × ℕ → ℕ
to_port (negative, value) = if negative then (2 ^ 16 - value % 2 ^ 16) % 2 ^ 16 else value % 2 ^ 16

abbrev pub is_positive : Bool × ℕ → Bool
is_positive (negative, value) = not negative && ltb 0 value

-- The loop that takes '\r', '\n' and ' ' off the end.
unfoldable pub trim_line : Bytes → Bytes
trim_line [] = []
trim_line (c ∷ cs) =
    let rest = trim_line cs in
    if is_empty rest && (c == 13 || (c == 10 || c == b' ')) then [] else c ∷ rest

abbrev first_line : List Bytes → Bytes
first_line [] = []
first_line (line ∷ lines) = line

unfoldable pub read_trimmed_file : Files → Bytes → Bytes
read_trimmed_file files path = elim (files path) [
  | none ↦ []
  | some content ↦ trim_line (first_line (get_lines content))
]

abbrev pub thumbprint_path : Bytes
thumbprint_path = codes "certs/dev/thumbprint.txt"
