-- ===== src/Wintun/Loader.antt =====
-- `WintunLoader` of src/wintun_loader.cpp. A module is a number; its exports are found by name.
-- `unload` and a failed `load` give the module back by `FreeLibrary`.
-- The function pointers are the list of the exports that are resolved, the last one first.
use secure_tunnel_cpp.Prelude.{
  ℕ, Bool, true, false, ◌||◌, not, Option, none, some, List, [], ◌∷◌, ◌++◌, if◌then◌else◌, Bytes,
  codes, is_empty,
}

pub data Export : Type 0 where
  create_adapter : Export
  close_adapter : Export
  open_adapter : Export
  get_adapter_luid : Export
  get_running_driver_version : Export
  delete_driver : Export
  set_logger : Export
  start_session : Export
  end_session : Export
  get_read_wait_event : Export
  receive_packet : Export
  release_receive_packet : Export
  allocate_send_packet : Export
  send_packet : Export

abbrev export_eq : Export → Export → Bool
export_eq create_adapter create_adapter = true
export_eq close_adapter close_adapter = true
export_eq open_adapter open_adapter = true
export_eq get_adapter_luid get_adapter_luid = true
export_eq get_running_driver_version get_running_driver_version = true
export_eq delete_driver delete_driver = true
export_eq set_logger set_logger = true
export_eq start_session start_session = true
export_eq end_session end_session = true
export_eq get_read_wait_event get_read_wait_event = true
export_eq receive_packet receive_packet = true
export_eq release_receive_packet release_receive_packet = true
export_eq allocate_send_packet allocate_send_packet = true
export_eq send_packet send_packet = true
export_eq _ _ = false

-- The exports in the order in which `load` resolves them.
abbrev pub all_exports : List Export
all_exports =
    create_adapter ∷ close_adapter ∷ open_adapter ∷ get_adapter_luid ∷ get_running_driver_version
    ∷ delete_driver ∷ set_logger ∷ start_session ∷ end_session ∷ get_read_wait_event
    ∷ receive_packet ∷ release_receive_packet ∷ allocate_send_packet ∷ send_packet ∷ []

-- `LoadLibraryW`, `FreeLibrary`, `GetProcAddress` and the directory of the program.
pub record Windows : Type 1 where
  pub State : Type 0
  pub exe_directory : Bytes
  pub load_library : State → Bytes → State × Option ℕ
  pub free_library : State → ℕ → State
  pub get_proc_address : ℕ → Export → Bool

-- Whether the pointer of an export is not null.
unfoldable pub resolves : List Export → Export → Bool
resolves [] e = false
resolves (x ∷ xs) e = export_eq x e || resolves xs e

module _ (w : Windows) where
  pub record WintunLoader : Type 0 where
    pub windows : w.State
    pub library_module : Option ℕ
    pub resolved : List Export
    pub last_error : Bool

  -- The paths that are tried, in order; empty ones are skipped.
  unfoldable pub candidates : Bytes → List Bytes
  candidates dll_path =
      if not (is_empty dll_path)
      then dll_path ∷ []
      else (w.exe_directory ++ codes "\\wintun.dll")
        ∷ (w.exe_directory ++ codes "\\..\\..\\third_party\\wintun\\wintun.dll")
        ∷ codes "wintun.dll"
        ∷ []

  unfoldable pub load_first : w.State → List Bytes → w.State × Option ℕ
  load_first s [] = (s, none)
  load_first s (path ∷ paths) =
      let (s', m) = w.load_library s path in
      elim m [ none ↦ load_first s' paths | some m ↦ (s', some m) ]

  -- The chain of `resolve`: it ends at the first export that is missing.
  unfoldable pub resolve_all : ℕ → List Export → List Export → List Export × Bool
  resolve_all m [] resolved = (resolved, true)
  resolve_all m (e ∷ es) resolved =
      let rest = resolve_all m es (e ∷ resolved) in
      if w.get_proc_address m e then rest else (resolved, false)

  abbrev pub unload : WintunLoader → WintunLoader
  unload l = record l {
    windows = elim (l.library_module) [ none ↦ l.windows | some m ↦ w.free_library l.windows m ];
    library_module = none;
    resolved = [];
  }

  -- From the module that is loaded on.
  unfoldable pub resolve_module : w.State → ℕ → WintunLoader × Bool
  resolve_module s m =
      let (resolved, complete) = resolve_all m all_exports [] in
      if not complete
      then (
        record {
          windows = w.free_library s m;
          library_module = none;
          resolved = resolved;
          last_error = true;
        },
        false,
      )
      else (
        record { windows = s; library_module = some m; resolved = resolved; last_error = false },
        true,
      )

  unfoldable pub load : WintunLoader → Bytes → WintunLoader × Bool
  load l dll_path =
      let (s, found) = load_first (unload l).windows (candidates dll_path) in
      elim found [
        | none ↦
            (record { windows = s; library_module = none; resolved = []; last_error = true }, false)
        | some m ↦ resolve_module s m
      ]

  abbrev pub is_loaded : WintunLoader → Bool
  is_loaded l = elim (l.library_module) [ none ↦ false | some m ↦ true ]

  abbrev pub has : WintunLoader → Export → Bool
  has l e = resolves l.resolved e
