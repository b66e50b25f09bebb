-- ===== src/Wintun/Search.antt =====
-- Where the loader of src/wintun_loader.cpp looks for its library.
use secure_tunnel_cpp.Prelude.{
  ℕ, ◌≡◌, refl, ◌≢◌, ◌↔◌, ◌⊎◌, inl, inr, none, some, List, [], ◌∷◌, ◌++◌, arith, Option-cases,
  Bytes, codes,
}
use secure_tunnel_cpp.Wintun.Loader.{load_first, Windows, candidates}

-- The first of the paths that loads: what is asked for before it does not load.
pub FirstLoads : (w : Windows) → w.State → List Bytes → w.State → ℕ → Type 0
FirstLoads w s [] s' m = ⊥
FirstLoads w s (path ∷ paths) s' m =
    (((w.load_library s path).0 ≡ s') × ((w.load_library s path).1 ≡ some m))
    ⊎ (((w.load_library s path).1 ≡ none) × FirstLoads w (w.load_library s path).0 paths s' m)

-- The paths to try: the one that is given, or else the library beside the program, the one in the
-- source tree and the one that Windows finds.
pub IsSearched : Windows → Bytes → List Bytes → Type 0
IsSearched w dll_path paths =
    ((dll_path ≢ []) × (paths ≡ dll_path ∷ []))
    ⊎ ((dll_path ≡ [])
        × (paths
            ≡ (w.exe_directory ++ codes "\\wintun.dll")
              ∷ (w.exe_directory ++ codes "\\..\\..\\third_party\\wintun\\wintun.dll")
              ∷ codes "wintun.dll"
              ∷ []))

pub candidates-IsSearched :
    (w : Windows) (dll_path : Bytes) → IsSearched w dll_path (candidates w dll_path)
unfolding candidates IsSearched
candidates-IsSearched w [] = inr (refl, refl)
candidates-IsSearched w (c ∷ cs) = inl (λ e. cc, refl)

pub load_first_iff :
    (w : Windows) (s s' : w.State) (paths : List Bytes) (m : ℕ)
    → (((load_first w s paths).0 ≡ s') × ((load_first w s paths).1 ≡ some m))
      ↔ FirstLoads w s paths s' m
unfolding load_first FirstLoads
load_first_iff w s s' [] m = (λ e. ground arith, λ f. absurd f)
load_first_iff w s s' (path ∷ paths) m =
    let (to, from) = load_first_iff w (w.load_library s path).0 s' paths m in
    elim (Option-cases (w.load_library s path).1) [
      | inl missing ↦ (
        λ e. inr (missing, to (ground arith)),
        λ f. elim f [
          | inl (s_is, found) ↦ absurd (ground arith)
          | inr (_, rest) ↦ ground (arith, from rest)
        ],
      )
      | inr (n, found) ↦ (
        λ e. inl (ground arith),
        λ f. elim f [
          | inl (s_is, found') ↦ ground arith
          | inr (missing, _) ↦ absurd (ground arith)
        ],
      )
    ]

pub IsSearched-candidates :
    (w : Windows) (dll_path : Bytes) (paths : List Bytes)
    → IsSearched w dll_path paths
    → paths ≡ candidates w dll_path
unfolding candidates IsSearched
IsSearched-candidates w [] paths (inl (given, at)) = absurd (given refl)
IsSearched-candidates w [] paths (inr (_, at)) = at
IsSearched-candidates w (c ∷ cs) paths (inl (_, at)) = at
IsSearched-candidates w (c ∷ cs) paths (inr (empty, at)) = cc
