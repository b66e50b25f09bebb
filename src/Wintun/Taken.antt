-- ===== src/Wintun/Taken.antt =====
-- What `open` of src/wintun_virtual_interface.cpp takes and gives back.
use secure_tunnel_cpp.Prelude.{
  ℕ, ◌≡◌, refl, inl, inr, none, some, [], arith, Bool-cases, Option-cases,
}
use secure_tunnel_cpp.NetConfig.{IpHelper}
use secure_tunnel_cpp.Wintun.Loader.{Windows, load}
use secure_tunnel_cpp.Wintun.Adapter.{
  Driver, WintunVirtualInterface, open_or_create, apply_network_config, open_network, open_session,
  open_adapter, open', close,
}
use secure_tunnel_cpp.Wintun.Networked.{apply-keeps}
use secure_tunnel_cpp.Wintun.Lifecycle.{IsSound, close-IsClosed}
use secure_tunnel_cpp.Wintun.Ledger.{
  DriverLog, LibraryLog, Even, open-Even, create-Even, start-Even, end-Even, close-Even,
}
use secure_tunnel_cpp.Wintun.Freed.{LoaderEven, unload-LoaderEven, load-LoaderEven}
use secure_tunnel_cpp.Wintun.Balance.{Balanced, close-Balanced}

module _ (h : IpHelper) (d : Driver) (w : Windows) (x : ℕ) (log : DriverLog d x)
    (libraries : LibraryLog w x) (s0 : d.State) (w0 : w.State) where
  abbrev Held : WintunVirtualInterface h d w → Type 0
  Held v = Balanced h d w x log libraries s0 w0 v

  open_network-Balanced :
      (v : WintunVirtualInterface h d w) (a s : ℕ)
      → v.adapter ≡ some a
      → v.session ≡ some s
      → Held v
      → Held (open_network h d w v a s).0
  unfolding open_network
  open_network-Balanced v a s has_a has_s b =
      let (session, adapter, loader, _, _, driver) = apply-keeps h d w v in
      elim (Bool-cases (apply_network_config h d w v).1) [
        | inl applied ↦ ground arith
        | inr refused ↦ ground (
          arith,
          end-Even d x log s0 v.driver s (some a),
          close-Even d x log s0 (d.end_session v.driver s) a none,
          unload-LoaderEven w x libraries w0 v.loader,
        )
      ]

  open_session-Balanced :
      (v : WintunVirtualInterface h d w) (mtu a : ℕ)
      → v.session ≡ none
      → Even d x log s0 v.driver (some a) none
      → LoaderEven w x libraries w0 v.loader
      → Held (open_session h d w v mtu a).0
  unfolding open_session
  open_session-Balanced v mtu a none_s even library =
      let (s, session) = d.start_session v.driver a v.ring_capacity in
      let started = start-Even d x log s0 v.driver a v.ring_capacity (some a) even in
      elim (Option-cases session) [
        | inl at ↦
            ground
              (arith, close-Even d x log s0 s a none, unload-LoaderEven w x libraries w0 v.loader)
        | inr (n, at) ↦ ground (
          arith,
          open_network-Balanced
              (record v { driver = s; adapter = some a; session = some n; mtu = mtu }) a n refl
              refl,
        )
      ]

  open_or_create-Even :
      (s : d.State)
      → Even d x log s0 s none none
      → Even d x log s0 (open_or_create h d w s).0 (open_or_create h d w s).1 none
  open_or_create-Even s even =
      let opened = open-Even d x log s0 s even in
      elim (Option-cases (d.open_adapter s).1) [
        | inl at ↦ ground (arith, create-Even d x log s0 (d.open_adapter s).0)
        | inr (a, at) ↦ ground arith
      ]

  open_adapter-Balanced :
      (v : WintunVirtualInterface h d w) (mtu : ℕ)
      → v.session ≡ none
      → v.adapter ≡ none
      → Held v
      → Held (open_adapter h d w v mtu).0
  unfolding open_adapter
  open_adapter-Balanced v mtu none_s none_a b =
      let (s, adapter) = open_or_create h d w v.driver in
      let opened = open_or_create-Even v.driver (ground arith) in
      elim (Option-cases adapter) [
        | inl at ↦ ground (arith, unload-LoaderEven w x libraries w0 v.loader)
        | inr (a, at) ↦ ground (arith, open_session-Balanced (record v { driver = s }) mtu a none_s)
      ]

  pub open-Balanced :
      (v : WintunVirtualInterface h d w) (mtu : ℕ)
      → IsSound h d w v
      → Held v
      → Held (open' h d w v mtu).0
  unfolding open'
  open-Balanced v mtu sound b =
      let c = close h d w v in
      let closed = close-IsClosed h d w v sound in
      let held = close-Balanced h d w x log libraries s0 w0 v b in
      ground (
        arith,
        held,
        load-LoaderEven w x libraries w0 c.loader [],
        open_adapter-Balanced (record c { loader = (load w c.loader []).0 }) mtu closed.session
            closed.adapter,
      )
