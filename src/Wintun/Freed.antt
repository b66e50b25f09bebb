-- ===== src/Wintun/Freed.antt =====
-- What src/wintun_loader.cpp gives back of the libraries that it takes.
use secure_tunnel_cpp.Prelude.{
  ℕ, ◌+◌, ◌≡◌, inl, inr, Bool, true, false, Option, none, some, List, [], ◌∷◌, arith, Option-cases,
  Bytes,
}
use secure_tunnel_cpp.Wintun.Loader.{
  Windows, WintunLoader, resolve_module, load_first, candidates, load, unload,
}
use secure_tunnel_cpp.Wintun.Ledger.{LibraryLog, one}

module _ (w : Windows) (x : ℕ) (log : LibraryLog w x) (s0 : w.State) where
  -- Since the state `s0`, the library `x` has been freed as often as it has been loaded, but for the one
  -- that is held.
  abbrev pub LibraryEven : w.State → Option ℕ → Type 0
  LibraryEven s m = log.loaded s + log.freed s0 ≡ log.freed s + log.loaded s0 + one m x

  abbrev pub LoaderEven : WintunLoader w → Type 0
  LoaderEven l = LibraryEven l.windows l.library_module

  free-LibraryEven :
      (s : w.State) (m : ℕ) → LibraryEven s (some m) → LibraryEven (w.free_library s m) none
  free-LibraryEven s m e = let (l, f) = log.frees s m in omega arith

  unload-option :
      (s : w.State) (m : Option ℕ)
      → LibraryEven s m
      → LibraryEven (elim m [ none ↦ s | some n ↦ w.free_library s n ]) none
  unload-option s none e = e
  unload-option s (some m) e = free-LibraryEven s m e

  pub unload-LoaderEven : (l : WintunLoader w) → LoaderEven l → LoaderEven (unload w l)
  unload-LoaderEven l e = unload-option l.windows l.library_module e

  load_first-LibraryEven :
      (s : w.State) (paths : List Bytes)
      → LibraryEven s none
      → LibraryEven (load_first w s paths).0 (load_first w s paths).1
  unfolding load_first
  load_first-LibraryEven s [] e = e
  load_first-LibraryEven s (path ∷ paths) e =
      let (l, f) = log.loads s path in
      elim (Option-cases (w.load_library s path).1) [
        | inl missing ↦ ground (arith, load_first-LibraryEven (w.load_library s path).0 paths)
        | inr (m, found) ↦ ground arith
      ]

  resolve_module-LoaderEven :
      (s : w.State) (m : ℕ) → LibraryEven s (some m) → LoaderEven (resolve_module w s m).0
  unfolding resolve_module
  resolve_module-LoaderEven s m e = let freed = free-LibraryEven s m e in ground arith

  found-LoaderEven :
      (s : w.State) (found : Option ℕ)
      → LibraryEven s found
      → LoaderEven
          (elim found as (λ _. WintunLoader w × Bool) [
            | none ↦ (
              record { windows = s; library_module = none; resolved = []; last_error = true },
              false,
            )
            | some m ↦ resolve_module w s m
          ]).0
  found-LoaderEven s none e = e
  found-LoaderEven s (some m) e = resolve_module-LoaderEven s m e

  pub load-LoaderEven :
      (l : WintunLoader w) (dll_path : Bytes) → LoaderEven l → LoaderEven (load w l dll_path).0
  unfolding load
  load-LoaderEven l dll_path e =
      let tried = load_first w (unload w l).windows (candidates w dll_path) in
      found-LoaderEven tried.0 tried.1 (
        load_first-LibraryEven (unload w l).windows (candidates w dll_path) (unload-LoaderEven l e))
