-- ===== src/Wintun/Resolved.antt =====
-- The functions that the loader of src/wintun_loader.cpp has once it has loaded.
use secure_tunnel_cpp.Prelude.{
  ℕ, ◌≡◌, refl, ap, inl, inr, true, List, [], ◌∷◌, arith, Option-cases, Bytes,
}
use secure_tunnel_cpp.Wintun.Loader.{
  Windows, WintunLoader, Export, all_exports, end_session, close_adapter, resolve_all,
  resolve_module, load_first, candidates, load, unload, has, resolves,
}

onto : List Export → List Export → List Export
onto [] resolved = resolved
onto (e ∷ es) resolved = onto es (e ∷ resolved)

resolve_all-onto :
    (w : Windows) (m : ℕ) (es resolved : List Export)
    → (resolve_all w m es resolved).1 ≡ true
    → (resolve_all w m es resolved).0 ≡ onto es resolved
unfolding resolve_all onto
resolve_all-onto w m [] resolved ok = refl
resolve_all-onto w m (e ∷ es) resolved ok = ground (arith, resolve_all-onto w m es (e ∷ resolved))

load-resolved :
    (w : Windows) (l : WintunLoader w) (dll_path : Bytes)
    → (load w l dll_path).1 ≡ true
    → (load w l dll_path).0.resolved ≡ onto all_exports []
unfolding load resolve_module
load-resolved w l dll_path ok =
    elim (Option-cases (load_first w (unload w l).windows (candidates w dll_path)).1) [
      | inl missing ↦ absurd (ground arith)
      | inr (m, found) ↦ ground (arith, resolve_all-onto w m all_exports [])
    ]

-- A loader that has loaded has the two functions that give handles back.
pub load-has :
    (w : Windows) (l : WintunLoader w) (dll_path : Bytes)
    → (load w l dll_path).1 ≡ true
    → (has w (load w l dll_path).0 end_session ≡ true)
      × (has w (load w l dll_path).0 close_adapter ≡ true)
unfolding resolves onto
load-has w l dll_path ok =
    let at = load-resolved w l dll_path ok in
    (ap (λ r. resolves r end_session) at, ap (λ r. resolves r close_adapter) at)
