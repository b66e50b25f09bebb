-- ===== src/SmartRoute/Entries.antt =====
-- What the list files give.
use secure_tunnel_cpp.Prelude.{
  ℕ, ◌≡◌, refl, ap, ◌∙◌, subst, inl, inr, false, ◌&&◌, ◌||◌, some, List, [], ◌∷◌, ◌++◌, arith, ◌==◌,
  Bool-cases, Option-cases, get_or, All, Bytes, is_empty,
}
use secure_tunnel_cpp.Strings.{isspace, get_lines, before}
use secure_tunnel_cpp.Strings.Lines.{Lacks, get_lines-line, before-none, before-some, before-Lacks}
use secure_tunnel_cpp.SmartRoute.{
  Files, trim_front, trim_back, trim_copy, nonempty, uncommented, entry_of, entries_of,
  load_list_file,
}

-- The first character is no space.
abbrev IsFront : Bytes → Type 0
IsFront [] = Unit
IsFront (c ∷ cs) = isspace c ≡ false

trim_front-IsFront : (s : Bytes) → IsFront (trim_front s)
unfolding trim_front
trim_front-IsFront [] = tt
trim_front-IsFront (c ∷ cs) = elim (Bool-cases (isspace c)) [
  | inl e ↦ rw e (trim_front-IsFront cs)
  | inr e ↦ rw e e
]

trim_front-id : (s : Bytes) → IsFront s → trim_front s ≡ s
unfolding trim_front
trim_front-id [] h = refl
trim_front-id (c ∷ cs) h = rw h refl

trim_back-IsFront : (s : Bytes) → IsFront s → IsFront (trim_back s)
unfolding trim_back
trim_back-IsFront [] h = tt
trim_back-IsFront (c ∷ cs) h = rw h (ground arith)

trim_back_idem : (s : Bytes) → trim_back (trim_back s) ≡ trim_back s
unfolding trim_back
trim_back_idem [] = refl
trim_back_idem (c ∷ cs) = ground (arith, trim_back_idem cs)

-- Trimming twice is trimming once.
pub trim_copy_idem : (s : Bytes) → trim_copy (trim_copy s) ≡ trim_copy s
unfolding trim_copy
trim_copy_idem s =
    ap trim_back (
      trim_front-id (trim_back (trim_front s))
        (trim_back-IsFront (trim_front s) (trim_front-IsFront s)))
    ∙ trim_back_idem (trim_front s)

trim_front-All : (c : ℕ) (s : Bytes) → Lacks c s → Lacks c (trim_front s)
unfolding trim_front
trim_front-All c [] h = tt
trim_front-All c (x ∷ xs) h = elim (Bool-cases (isspace x)) [
  | inl e ↦ rw e (trim_front-All c xs h.1)
  | inr e ↦ rw e h
]

trim_back-All : (c : ℕ) (s : Bytes) → Lacks c s → Lacks c (trim_back s)
unfolding trim_back
trim_back-All c [] h = tt
trim_back-All c (x ∷ xs) h = elim (Bool-cases (is_empty (trim_back xs) && isspace x)) [
  | inl e ↦ rw e tt
  | inr e ↦ rw e (h.0, trim_back-All c xs h.1)
]

trim_copy-All : (c : ℕ) (s : Bytes) → Lacks c s → Lacks c (trim_copy s)
unfolding trim_copy
trim_copy-All c s h = trim_back-All c (trim_front s) (trim_front-All c s h)

-- An entry of a list: not empty, with no comment in it and no space at its ends.
pub record IsEntry (e : Bytes) : Type 0 where
  pub some_text : is_empty e ≡ false
  pub no_comment : Lacks b'#' e
  pub trimmed : trim_copy e ≡ e

clean-IsEntry : (t e : Bytes) → Lacks b'#' t → trim_copy t ≡ t → nonempty t ≡ some e → IsEntry e
clean-IsEntry t e h same at = elim (Bool-cases (is_empty t)) [
  | inl none_left ↦ absurd (ground arith)
  | inr some_left ↦
      let is_e : t ≡ e = ground arith in
      subst IsEntry is_e (record { some_text = some_left; no_comment = h; trimmed = same })
]

uncommented-IsEntry : (t e : Bytes) → trim_copy t ≡ t → uncommented t ≡ some e → IsEntry e
uncommented-IsEntry t e same at = elim (Option-cases (before b'#' t)) [
  | inl no_comment ↦
      clean-IsEntry t e (before-none b'#' t no_comment) same (rw (no_comment, uncommented) at at)
  | inr (text, comment) ↦
      clean-IsEntry (trim_copy text) e (trim_copy-All b'#' text (before-some b'#' t text comment))
        (trim_copy_idem text) (rw (comment, uncommented) at at)
]

entry_of-IsEntry : (raw e : Bytes) → entry_of raw ≡ some e → IsEntry e
unfolding entry_of
entry_of-IsEntry raw e at =
    elim (Bool-cases (is_empty (trim_copy raw) || get_or (trim_copy raw) 0 0 == b'#')) [
      | inl skipped ↦ absurd (ground arith)
      | inr taken ↦ uncommented-IsEntry (trim_copy raw) e (trim_copy_idem raw) (rw taken at at)
    ]

entries_of-All : (lines : List Bytes) → All IsEntry (entries_of lines)
unfolding entries_of
entries_of-All [] = tt
entries_of-All (raw ∷ rest) = elim (Option-cases (entry_of raw)) [
  | inl skipped ↦ rw (skipped, entries_of) (entries_of-All rest)
  | inr (e, at) ↦ rw (at, entries_of) (entry_of-IsEntry raw e at, entries_of-All rest)
]

-- Whatever a list file holds, each entry that is read from it is not empty, has no '#' in it and no
-- space at its ends.
pub load_list_file-All :
    (files : Files) (path : Bytes) (entries : List Bytes)
    → load_list_file files path ≡ some entries
    → All IsEntry entries
unfolding load_list_file
load_list_file-All files path entries at = elim (Option-cases (files path)) [
  | inl missing ↦ absurd (ground arith)
  | inr (content, found) ↦
      let are : entries_of (get_lines content) ≡ entries = ground arith in
      subst (All IsEntry) are (entries_of-All (get_lines content))
]

-- A file with one entry on each line.
unfoldable pub print_list : List Bytes → Bytes
print_list [] = []
print_list (e ∷ es) = e ++ 10 ∷ print_list es

get_lines-print_list : (es : List Bytes) → All (Lacks 10) es → get_lines (print_list es) ≡ es
unfolding print_list get_lines
get_lines-print_list [] h = refl
get_lines-print_list (e ∷ es) h =
    get_lines-line e (print_list es) h.0 ∙ ap (λ t. e ∷ t) (get_lines-print_list es h.1)

entry_of-id : (e : Bytes) → IsEntry e → entry_of e ≡ some e
unfolding entry_of
entry_of-id [] i = absurd (ground (arith, i.some_text))
entry_of-id (c ∷ cs) i =
    rw i.trimmed (ground (arith, i.no_comment, before-Lacks b'#' (c ∷ cs) i.no_comment))

entries_of-id : (es : List Bytes) → All IsEntry es → entries_of es ≡ es
unfolding entries_of
entries_of-id [] h = refl
entries_of-id (e ∷ es) h =
    rw (entry_of-id e h.0, entries_of) (ap (λ t. e ∷ t) (entries_of-id es h.1))

-- A list file that is written with one entry on each line is read back as these entries, if they
-- are entries at all: not empty, without '#', space at the ends or line break.
pub load_list_file-print_list :
    (files : Files) (path : Bytes) (es : List Bytes)
    → All IsEntry es
    → All (Lacks 10) es
    → files path ≡ some (print_list es)
    → load_list_file files path ≡ some es
unfolding load_list_file
load_list_file-print_list files path es h k at =
    rw (at, load_list_file)
      (ap some (ap entries_of (get_lines-print_list es k) ∙ entries_of-id es h))
