-- ===== src/Strings/Lines.antt =====
-- Lines and searches in texts.
use secure_tunnel_cpp.Prelude.{
  ℕ, ◌≡◌, refl, subst, ◌≢◌, inl, inr, none, some, [], ◌∷◌, ◌++◌, arith, ◌==◌, Bool-cases,
  Option-cases, All, Bytes,
}
use secure_tunnel_cpp.Strings.{get_lines, before, after}

-- The character does not occur.
abbrev pub Lacks : ℕ → Bytes → Type 0
Lacks c = All (λ x. x ≢ c)

pub get_lines-line :
    (line rest : Bytes) → Lacks 10 line → get_lines (line ++ 10 ∷ rest) ≡ line ∷ get_lines rest
unfolding get_lines
get_lines-line [] rest h = refl
get_lines-line (c ∷ cs) rest h = ground (arith, get_lines-line cs rest h.1, h.0)

pub before-none : (c : ℕ) (text : Bytes) → before c text ≡ none → Lacks c text
unfolding before
before-none c [] h = tt
before-none c (x ∷ xs) h = elim (Bool-cases (x == c)) [
  | inl e ↦ absurd (ground arith)
  | inr e ↦ (ground arith, before-none c xs (ground arith))
]

pub before-some : (c : ℕ) (text found : Bytes) → before c text ≡ some found → Lacks c found
unfolding before
before-some c [] found h = absurd (ground arith)
before-some c (x ∷ xs) found h = elim (Bool-cases (x == c)) [
  | inl e ↦ let none_left : [] ≡ found = ground arith in subst (Lacks c) none_left tt
  | inr e ↦ elim (Option-cases (before c xs)) [
    | inl at ↦ absurd (ground arith)
    | inr (ys, at) ↦
        let kept : x ∷ ys ≡ found = ground arith in
        subst (Lacks c) kept (ground arith, before-some c xs ys at)
  ]
]

pub before-Lacks : (c : ℕ) (text : Bytes) → Lacks c text → before c text ≡ none
unfolding before
before-Lacks c [] h = refl
before-Lacks c (x ∷ xs) h = ground (arith, before-Lacks c xs h.1, h.0)

pub before-append :
    (c : ℕ) (text rest : Bytes) → Lacks c text → before c (text ++ c ∷ rest) ≡ some text
unfolding before
before-append c [] rest h = ground arith
before-append c (x ∷ xs) rest h = ground (arith, before-append c xs rest h.1, h.0)

pub after-append : (c : ℕ) (text rest : Bytes) → Lacks c text → after c (text ++ c ∷ rest) ≡ rest
unfolding after
after-append c [] rest h = ground arith
after-append c (x ∷ xs) rest h = ground (arith, after-append c xs rest h.1, h.0)
