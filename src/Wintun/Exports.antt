-- ===== src/Wintun/Exports.antt =====
-- When the loader of src/wintun_loader.cpp loads.
use secure_tunnel_cpp.Prelude.{
  ℕ, ◌≡◌, refl, sym, ap, ◌∙◌, subst, ◌↔◌, inl, inr, true, false, not, none, some, List, [], ◌∷◌,
  arith, Option-cases, All, Bytes,
}
use secure_tunnel_cpp.Wintun.Loader.{
  WintunLoader, load_first, resolve_module, unload, load, is_loaded, Export, all_exports, Windows,
  candidates, resolve_all, create_adapter, close_adapter, open_adapter, get_adapter_luid,
  get_running_driver_version, delete_driver, set_logger, start_session, end_session,
  get_read_wait_event, receive_packet, release_receive_packet, allocate_send_packet, send_packet,
}
use secure_tunnel_cpp.Wintun.Search.{
  FirstLoads, IsSearched, candidates-IsSearched, load_first_iff, IsSearched-candidates,
}

-- The module exports all of these.
abbrev Exports : Windows → ℕ → List Export → Type 0
Exports w m = All (λ e. w.get_proc_address m e ≡ true)

Exports-all :
    (w : Windows) (m : ℕ) → Exports w m all_exports → (e : Export) → w.get_proc_address m e ≡ true
Exports-all w m a create_adapter = a.0
Exports-all w m a close_adapter = a.1.0
Exports-all w m a open_adapter = a.1.1.0
Exports-all w m a get_adapter_luid = a.1.1.1.0
Exports-all w m a get_running_driver_version = a.1.1.1.1.0
Exports-all w m a delete_driver = a.1.1.1.1.1.0
Exports-all w m a set_logger = a.1.1.1.1.1.1.0
Exports-all w m a start_session = a.1.1.1.1.1.1.1.0
Exports-all w m a end_session = a.1.1.1.1.1.1.1.1.0
Exports-all w m a get_read_wait_event = a.1.1.1.1.1.1.1.1.1.0
Exports-all w m a receive_packet = a.1.1.1.1.1.1.1.1.1.1.0
Exports-all w m a release_receive_packet = a.1.1.1.1.1.1.1.1.1.1.1.0
Exports-all w m a allocate_send_packet = a.1.1.1.1.1.1.1.1.1.1.1.1.0
Exports-all w m a send_packet = a.1.1.1.1.1.1.1.1.1.1.1.1.1.0

resolve_all_iff :
    (w : Windows) (m : ℕ) (es resolved : List Export)
    → ((resolve_all w m es resolved).1 ≡ true) ↔ Exports w m es
unfolding resolve_all
resolve_all_iff w m [] resolved = (λ h. tt, λ h. refl)
resolve_all_iff w m (e ∷ es) resolved = ground (arith, resolve_all_iff w m es (e ∷ resolved))

All-every :
    (w : Windows) (m : ℕ) (es : List Export)
    → ((e : Export) → w.get_proc_address m e ≡ true)
    → Exports w m es
All-every w m [] h = tt
All-every w m (e ∷ es) h = (h e, All-every w m es h)

-- Windows with the library freed that the loader held.
abbrev pub freed : (w : Windows) → WintunLoader w → w.State
freed w l = elim (l.library_module) [ none ↦ l.windows | some m ↦ w.free_library l.windows m ]

-- The library `m` is what `load` loads, Windows is then in the state `s`, and the library is complete.
pub record Loads (w : Windows) (l : WintunLoader w) (dll_path : Bytes) (s : w.State) (m : ℕ)
    : Type 0 where
  pub paths : List Bytes
  pub searched : IsSearched w dll_path paths
  pub first : FirstLoads w (freed w l) paths s m
  pub complete : (e : Export) → w.get_proc_address m e ≡ true

resolve_module_iff :
    (w : Windows) (s : w.State) (m : ℕ)
    → (((resolve_module w s m).1 ≡ true) ↔ ((e : Export) → w.get_proc_address m e ≡ true))
unfolding resolve_module
resolve_module_iff w s m =
    let (to, from) = resolve_all_iff w m all_exports [] in
    (
      λ ok. Exports-all w m (to (ground arith)),
      λ every. ground (arith, from (All-every w m all_exports every)),
    )

load-found :
    (w : Windows) (l : WintunLoader w) (dll_path : Bytes) (m : ℕ)
    → (load_first w (unload w l).windows (candidates w dll_path)).1 ≡ some m
    → load w l dll_path
      ≡ resolve_module w (load_first w (unload w l).windows (candidates w dll_path)).0 m
unfolding load
load-found w l dll_path m found = ground arith

load-missing :
    (w : Windows) (l : WintunLoader w) (dll_path : Bytes)
    → (load_first w (unload w l).windows (candidates w dll_path)).1 ≡ none
    → (load w l dll_path).1 ≡ false
unfolding load
load-missing w l dll_path missing = ground arith

-- The candidates are searched, so their first library is the one that `load_first` finds.
Loads-first :
    (w : Windows) (l : WintunLoader w) (dll_path : Bytes) (s : w.State) (m : ℕ)
    → Loads w l dll_path s m
    → ((load_first w (unload w l).windows (candidates w dll_path)).0 ≡ s)
      × ((load_first w (unload w l).windows (candidates w dll_path)).1 ≡ some m)
Loads-first w l dll_path s m loads =
    (load_first_iff w (unload w l).windows s (candidates w dll_path) m).1 (
      subst (λ paths. FirstLoads w (unload w l).windows paths s m)
        (IsSearched-candidates w dll_path loads.paths loads.searched) loads.first)

resolve_module-holds :
    (w : Windows) (s : w.State) (m : ℕ)
    → ((resolve_module w s m).1 ≡ is_loaded w (resolve_module w s m).0)
      × ((resolve_module w s m).0.last_error ≡ not (resolve_module w s m).1)
      × ((resolve_module w s m).1 ≡ true
          → ((resolve_module w s m).0.windows ≡ s)
            × ((resolve_module w s m).0.library_module ≡ some m))
unfolding resolve_module
resolve_module-holds w s m = ground arith

pub load-answers :
    (w : Windows) (l : WintunLoader w) (dll_path : Bytes)
    → ((load w l dll_path).1 ≡ is_loaded w (load w l dll_path).0)
      × ((load w l dll_path).0.last_error ≡ not (load w l dll_path).1)
unfolding load
load-answers w l dll_path = grind (arith, resolve_module-holds w)

load-Loads :
    (w : Windows) (l : WintunLoader w) (dll_path : Bytes)
    → (load w l dll_path).1 ≡ true
    → (s : w.State) × (m : ℕ) × Loads w l dll_path s m
load-Loads w l dll_path ok =
    let (s, found) = load_first w (unload w l).windows (candidates w dll_path) in
    elim (Option-cases found) [
      | inl missing ↦ absurd (ground (arith, load-missing w l dll_path missing))
      | inr (m, at) ↦ (
        s,
        m,
        record {
          paths = candidates w dll_path;
          searched = candidates-IsSearched w dll_path;
          first = (load_first_iff w (unload w l).windows s (candidates w dll_path) m).0 (refl, at);
          complete =
              (resolve_module_iff w s m).0
                (sym (ap (λ r. r.1) (load-found w l dll_path m at)) ∙ ok);
        },
      )
    ]

Loads-load :
    (w : Windows) (l : WintunLoader w) (dll_path : Bytes) (s : w.State) (m : ℕ)
    → Loads w l dll_path s m
    → ((load w l dll_path).1 ≡ true)
      × ((load w l dll_path).0.windows ≡ s)
      × ((load w l dll_path).0.library_module ≡ some m)
Loads-load w l dll_path s m loads =
    let (s_is, at) = Loads-first w l dll_path s m loads in
    let found = load-found w l dll_path m at in
    let s' = (load_first w (unload w l).windows (candidates w dll_path)).0 in
    let ok = (resolve_module_iff w s' m).1 loads.complete in
    let (_, _, holds) = resolve_module-holds w s' m in
    let (in_s, held) = holds ok in
    (
      ap (λ r. r.1) found ∙ ok,
      ap (λ r. r.0.windows) found ∙ in_s ∙ s_is,
      ap (λ r. r.0.library_module) found ∙ held,
    )

-- `load` succeeds exactly if a library can be loaded as `Loads` says: it is the first of the paths to
-- try that Windows loads after the previous library is given back, where the paths are the given one
-- alone, or else the three places; and it exports every function. The loader then holds that library
-- and has left Windows in that state. The answer is whether the loader holds a library, and the error
-- is set exactly if it does not.
pub load-iff-Exports :
    (w : Windows) (l : WintunLoader w) (dll_path : Bytes)
    → (((load w l dll_path).1 ≡ true) ↔ ((s : w.State) × (m : ℕ) × Loads w l dll_path s m))
      × ((s : w.State) (m : ℕ)
          → Loads w l dll_path s m
          → ((load w l dll_path).0.windows ≡ s) × ((load w l dll_path).0.library_module ≡ some m))
      × ((load w l dll_path).1 ≡ is_loaded w (load w l dll_path).0)
      × ((load w l dll_path).0.last_error ≡ not (load w l dll_path).1)
load-iff-Exports w l dll_path = (
  (load-Loads w l dll_path, λ (s, m, loads). (Loads-load w l dll_path s m loads).0),
  λ s m loads. let (_, left, held) = Loads-load w l dll_path s m loads in (left, held),
  (load-answers w l dll_path).0,
  (load-answers w l dll_path).1,
)
