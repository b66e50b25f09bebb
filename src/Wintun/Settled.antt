-- ===== src/Wintun/Settled.antt =====
-- The accounts of the calls of src/wintun_virtual_interface.cpp: what `open` ends with, and any calls.
use secure_tunnel_cpp.Prelude.{
  ℕ, ◌+◌, ◌≡◌, ◌⊎◌, inl, inr, Bool, true, false, none, arith, Option-cases,
}
use secure_tunnel_cpp.NetConfig.{IpHelper}
use secure_tunnel_cpp.Wintun.Loader.{Windows, WintunLoader, is_loaded}
use secure_tunnel_cpp.Wintun.Adapter.{Driver, WintunVirtualInterface}
use secure_tunnel_cpp.Wintun.Lifecycle.{IsSound}
use secure_tunnel_cpp.Wintun.Opening.{checks}
use secure_tunnel_cpp.Wintun.Answers.{IsReleased, IsOpened}
use secure_tunnel_cpp.Wintun.Ledger.{DriverLog, LibraryLog}
use secure_tunnel_cpp.Wintun.Balance.{
  Balanced, close-Balanced, clear_routes-Balanced, routing-Balanced, worker_round-Balanced,
  read_packet-Balanced, write_packet-Balanced,
}
use secure_tunnel_cpp.Wintun.Taken.{open-Balanced}
use secure_tunnel_cpp.Wintun.Calls.{
  Call, step, IsWell, step-IsWell, opens, closes, routes, clears, reads, writes, refreshes,
}

pub unloaded-none :
    (w : Windows) (l : WintunLoader w) → is_loaded w l ≡ false → l.library_module ≡ none
unloaded-none w l e = elim (Option-cases l.library_module) [
  | inl at ↦ at
  | inr (m, at) ↦ absurd (ground arith)
]

module _ (h : IpHelper) (d : Driver) (w : Windows) (x : ℕ) (log : DriverLog d x)
    (libraries : LibraryLog w x) (s0 : d.State) (w0 : w.State) where
  -- Since the states `s0` and `w0`, the driver has got as many calls that close the adapter `x` as calls
  -- that took it, and as many that end the session `x` as calls that started it, and Windows has freed
  -- the library `x` as often as it has loaded it.
  pub record IsSettled (v : WintunVirtualInterface h d w) : Type 0 where
    pub adapters : log.opened v.driver + log.closed s0 ≡ log.closed v.driver + log.opened s0
    pub sessions : log.started v.driver + log.ended s0 ≡ log.ended v.driver + log.started s0
    pub library :
        libraries.loaded v.loader.windows + libraries.freed w0
        ≡ libraries.freed v.loader.windows + libraries.loaded w0

  pub released-IsSettled :
      (v : WintunVirtualInterface h d w)
      → v.session ≡ none
      → v.adapter ≡ none
      → v.loader.library_module ≡ none
      → Balanced h d w x log libraries s0 w0 v
      → IsSettled v
  released-IsSettled v none_s none_a none_l ((a, n), l) = record {
    adapters = ground arith;
    sessions = ground arith;
    library = ground arith;
  }

  -- Both invariants of the calls.
  abbrev pub IsAccounted : WintunVirtualInterface h d w → Type 0
  IsAccounted v = IsWell h d w v × Balanced h d w x log libraries s0 w0 v

  step-Balanced :
      (v : WintunVirtualInterface h d w) (c : Call h d w)
      → IsSound h d w v
      → Balanced h d w x log libraries s0 w0 v
      → Balanced h d w x log libraries s0 w0 (step h d w v c)
  unfolding step
  step-Balanced v (opens mtu) sound b = open-Balanced h d w x log libraries s0 w0 v mtu sound b
  step-Balanced v closes sound b = close-Balanced h d w x log libraries s0 w0 v b
  step-Balanced v (routes files c) sound b =
      routing-Balanced h d w x log libraries s0 w0 files v c b
  step-Balanced v clears sound b = clear_routes-Balanced h d w x log libraries s0 w0 v b
  step-Balanced v reads sound b = read_packet-Balanced h d w x log libraries s0 w0 v b
  step-Balanced v (writes packet) sound b =
      write_packet-Balanced h d w x log libraries s0 w0 v packet b
  step-Balanced v (refreshes stops) sound b =
      worker_round-Balanced h d w x log libraries s0 w0 stops v b

  pub step-IsAccounted :
      (v : WintunVirtualInterface h d w) (c : Call h d w)
      → IsAccounted v
      → IsAccounted (step h d w v c)
  step-IsAccounted v c (well, b) = (step-IsWell h d w v c well, step-Balanced v c well.0 b)

  -- What `open` ends with, from the closed interface `c` on.
  abbrev pub Ends : ℕ → WintunVirtualInterface h d w → WintunVirtualInterface h d w × Bool → Type 0
  Ends mtu c r =
      ((r.1 ≡ true)
        × (checks h d w mtu c.ring_capacity ≡ true)
        × IsOpened h d w mtu c.net_config r.0
        × Balanced h d w x log libraries s0 w0 r.0)
      ⊎ ((r.1 ≡ false) × IsReleased h d w r.0 × IsSettled r.0)
