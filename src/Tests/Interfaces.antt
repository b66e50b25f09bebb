-- ===== src/Tests/Interfaces.antt =====
-- The real interfaces and the engine over them, at concrete inputs.
use secure_tunnel_cpp.Prelude.{
  ℕ, ◌+◌, ◌≡◌, refl, ◌↔◌, Bool, true, false, ◌&&◌, ◌||◌, not, none, some, List, [], ◌∷◌, arith,
  ◌==◌, if◌then◌else◌, length, codes, text_eq,
}
use secure_tunnel_cpp.Session.Life.{IsWithin}
use secure_tunnel_cpp.InnerSession.Development.{fresh}
use secure_tunnel_cpp.Config.{default_config}
use secure_tunnel_cpp.Engine.{Parts, TunnelEngine, construct}
use secure_tunnel_cpp.Engine.Loop.{stop}
use secure_tunnel_cpp.Engine.Calls
use secure_tunnel_cpp.Engine.Calls.{most_moves, step-IsWithin, starts, relays, resets}
use secure_tunnel_cpp.DevelopmentAdapters.Parts.{development_parts}
use secure_tunnel_cpp.Wintun.Loader.{Windows, WintunLoader, load, is_loaded}
use secure_tunnel_cpp.Wintun.Exports.{Loads, load-iff-Exports}
use secure_tunnel_cpp.Wintun.Adapter.{Driver, WintunVirtualInterface, close}
use secure_tunnel_cpp.Wintun.Ledger.{DriverLog, LibraryLog, one}
use secure_tunnel_cpp.Wintun.Calls.{new_interface}
use secure_tunnel_cpp.Wintun.Tunnel.{
  parts, after_events, calls, worker, IsGivenBack, stop_frees_all,
}
use secure_tunnel_cpp.LinuxTun
use secure_tunnel_cpp.LinuxTun.{Kernel, LinuxTunVirtualInterface, new_tun}
use secure_tunnel_cpp.LinuxTun.Leaks
use secure_tunnel_cpp.LinuxTun.Descriptors.{IsDescribed, holds_fd}
use secure_tunnel_cpp.LinuxTun.Leaks.{no_descriptor_leaks, opens, reads, writes}
use secure_tunnel_cpp.Tests.Adapters.{one_link, client_end}
use secure_tunnel_cpp.Tests.Networks.{machine, lan, list_files}

-- A machine with the library beside the program, which counts what is loaded and freed.
abbrev windows : Windows
windows = record {
  State = ℕ × ℕ;
  exe_directory = codes "C:";
  load_library = λ s path.
      if text_eq path (codes "C:\\wintun.dll") then ((s.0 + 1, s.1), some 5) else (s, none);
  free_library = λ s m. (s.0, s.1 + one (some m) 5);
  get_proc_address = λ m e. true;
}

windows_log : LibraryLog windows 5
windows_log = record {
  loaded = λ s. s.0;
  freed = λ s. s.1;
  loads = λ s path. ground arith;
  frees = λ s m. (refl, refl);
}

-- A driver that counts the calls for the handle 5, which is its only one.
abbrev driver : Driver
driver = record {
  State = ℕ × ℕ × ℕ × ℕ;
  open_adapter = λ s. (s, none);
  create_adapter = λ s. ((s.0 + 1, s.1, s.2, s.3), some 5);
  close_adapter = λ s a. (s.0, s.1 + one (some a) 5, s.2, s.3);
  start_session = λ s a ring. ((s.0, s.1, s.2 + 1, s.3), some 5);
  end_session = λ s n. (s.0, s.1, s.2, s.3 + one (some n) 5);
  adapter_luid = λ a. 7;
  receive_packet = λ s n. (s, none);
  no_more_items = λ s. true;
  allocate_send_packet = λ s n size. (s, true);
  send_packet = λ s n packet. s;
}

driver_log : DriverLog driver 5
driver_log = record {
  opened = λ s. s.0;
  closed = λ s. s.1;
  started = λ s. s.2;
  ended = λ s. s.3;
  opens = λ s. ground arith;
  creates = λ s. ground arith;
  closes = λ s a. ground arith;
  starts = λ s a ring. ground arith;
  ends = λ s n. ground arith;
  receives = λ s n. ground arith;
  allocates = λ s n size. ground arith;
  sends = λ s n packet. ground arith;
}

abbrev new_loader : WintunLoader windows
new_loader = record { windows = (0, 0); library_module = none; resolved = []; last_error = false }

load-iff-Exports_example :
    (((load windows new_loader []).1 ≡ true)
      ↔ ((s : ℕ × ℕ) × (m : ℕ) × Loads windows new_loader [] s m))
    × ((s : ℕ × ℕ) (m : ℕ)
        → Loads windows new_loader [] s m
        → ((load windows new_loader []).0.windows ≡ s)
          × ((load windows new_loader []).0.library_module ≡ some m))
    × ((load windows new_loader []).1 ≡ is_loaded windows (load windows new_loader []).0)
    × ((load windows new_loader []).0.last_error ≡ not (load windows new_loader []).1)
load-iff-Exports_example = load-iff-Exports windows new_loader []

abbrev new_wintun : WintunVirtualInterface machine driver windows
new_wintun =
    new_interface machine driver windows 0x400000 default_config.ipv4 lan (0, 0, 0, 0) (0, 0)

abbrev base : Parts
base = development_parts (λ _. some 0)

abbrev tunnel : Parts
tunnel = parts machine driver windows list_files base

-- A client that starts, relays and is reset, with two refreshes by the worker in between.
abbrev last : TunnelEngine tunnel
last =
    after_events machine driver windows list_files base
      (construct tunnel default_config new_wintun (some (one_link, client_end)) (some fresh))
      (calls starts ∷ worker [] ∷ calls (relays 8) ∷ worker (false ∷ true ∷ []) ∷ calls resets ∷ [])

stop_frees_all_example :
    IsGivenBack machine driver windows list_files base 5 driver_log windows_log
      (0, 0, 0, 0)
      (0, 0)
      (stop tunnel last).virtual_interface
stop_frees_all_example =
    stop_frees_all machine driver windows list_files base 5 driver_log windows_log (0, 0, 0, 0)
      (0, 0) default_config 0x400000 default_config.ipv4 lan (some (one_link, client_end))
      (some fresh)
      (calls starts ∷ worker [] ∷ calls (relays 8) ∷ worker (false ∷ true ∷ []) ∷ calls resets ∷ [])

-- A new client starts in at most three moves.
abbrev new_client : TunnelEngine tunnel
new_client = construct tunnel default_config new_wintun (some (one_link, client_end)) (some fresh)

step-IsWithin_example :
    IsWithin (most_moves starts) new_client.session (Calls.step tunnel new_client starts).session
step-IsWithin_example = step-IsWithin tunnel new_client starts

-- A kernel that gives the descriptor 3, once.
abbrev contains : List ℕ → ℕ → Bool
contains [] n = false
contains (x ∷ xs) n = n == x || contains xs n

abbrev removed : List ℕ → ℕ → List ℕ
removed [] n = []
removed (x ∷ xs) n = let rest = removed xs n in if x == n then rest else x ∷ rest

abbrev kernel : Kernel
kernel = record {
  State = List ℕ;
  open_tun = λ s. if contains s 3 then (s, none) else (3 ∷ s, some 3);
  set_iff = λ s fd name. (s, some name);
  read = λ s fd n. (s, none);
  again = λ s. true;
  write = λ s fd p. (s, some (length p));
  close_fd = λ s fd. removed s fd;
}

contains-removed :
    (s : List ℕ) (n x : ℕ) → contains (removed s n) x ≡ (contains s x && not (x == n))
contains-removed [] n x = refl
contains-removed (y ∷ ys) n x = ground (arith, contains-removed ys n x)

kernel-IsDescribed : IsDescribed kernel contains
kernel-IsDescribed = record {
  opened = λ s fd x at. ground arith;
  was_closed = λ s fd at. ground arith;
  not_opened = λ s x at. ground arith;
  configured = λ s fd n x. refl;
  was_read = λ s fd n x. refl;
  was_written = λ s fd p x. refl;
  closed = λ s fd x. contains-removed s fd x;
}

abbrev tun_calls : List (Leaks.Call kernel)
tun_calls = opens 1300 ∷ writes (0x45 ∷ []) ∷ opens 9000 ∷ opens 1400 ∷ reads ∷ []

abbrev last_tun : LinuxTunVirtualInterface kernel
last_tun = Leaks.run kernel (new_tun kernel (codes "sectun0") (1 ∷ 2 ∷ [])) tun_calls

no_descriptor_leaks_example :
    ((x : ℕ) → contains last_tun.kernel x ≡ (contains (1 ∷ 2 ∷ []) x || holds_fd last_tun.fd x))
    × ((x : ℕ) → contains (LinuxTun.close kernel last_tun).kernel x ≡ contains (1 ∷ 2 ∷ []) x)
    × ((LinuxTun.close kernel last_tun).fd ≡ none)
no_descriptor_leaks_example =
    no_descriptor_leaks kernel contains kernel-IsDescribed (codes "sectun0") (1 ∷ 2 ∷ []) tun_calls
