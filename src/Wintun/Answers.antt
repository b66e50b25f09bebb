-- ===== src/Wintun/Answers.antt =====
-- The two answers of `open` of the Wintun interface, from the adapter on.
use secure_tunnel_cpp.Prelude.{
  ℕ, ◌≡◌, refl, sym, ap, ◌∙◌, subst, inl, inr, Bool, true, false, none, some, arith, Option-cases,
}
use secure_tunnel_cpp.NetConfig.{IpHelper, WindowsNetConfigurator}
use secure_tunnel_cpp.Wintun.Networked.{IsNetworked, open_network-IsNetworked, open_network-keeps}
use secure_tunnel_cpp.Wintun.Loader.{Windows, WintunLoader, Export, has, is_loaded}
use secure_tunnel_cpp.Wintun.Adapter.{
  open_or_create, Driver, WintunVirtualInterface, open_adapter, open_session, open_network,
  apply_network_config,
}
use secure_tunnel_cpp.Wintun.Lifecycle.{is_null}

module _ (h : IpHelper) (d : Driver) (w : Windows) where
  -- No handle and no library is held.
  pub record IsReleased (v : WintunVirtualInterface h d w) : Type 0 where
    pub session : v.session ≡ none
    pub adapter : v.adapter ≡ none
    pub unloaded : is_loaded w v.loader ≡ false

  -- The library is loaded, with the functions that give handles back.
  abbrev pub IsReady : WintunLoader w → Type 0
  IsReady l =
      (is_loaded w l ≡ true)
      × (has w l Export.end_session ≡ true)
      × (has w l Export.close_adapter ≡ true)

  pub released :
      {v : WintunVirtualInterface h d w}
      → v.session ≡ none
      → v.adapter ≡ none
      → is_loaded w v.loader ≡ false
      → IsReleased v
  released s a l = record { session = s; adapter = a; unloaded = l }

  -- The interface is open, with its network configured if it is to be.
  pub record IsOpened (mtu : ℕ) (n : WindowsNetConfigurator h) (v : WintunVirtualInterface h d w)
      : Type 0 where
    pub session : is_null v.session ≡ false
    pub adapter : is_null v.adapter ≡ false
    pub loaded : is_loaded w v.loader ≡ true
    pub can_end : has w v.loader Export.end_session ≡ true
    pub can_close : has w v.loader Export.close_adapter ≡ true
    pub mtu_is : v.mtu ≡ mtu
    pub network : IsNetworked h d w n v
    pub no_routes : v.client_routes_applied ≡ false

  -- The one or the other, as the result says.
  abbrev pub Answers : ℕ → WindowsNetConfigurator h → WintunVirtualInterface h d w × Bool → Type 0
  Answers mtu n r = (r.1 ≡ true → IsOpened mtu n r.0) × (r.1 ≡ false → IsReleased r.0)

  open_network-IsOpened :
      (v : WintunVirtualInterface h d w) (a s : ℕ)
      → v.session ≡ some s
      → v.adapter ≡ some a
      → IsReady v.loader
      → v.network_applied ≡ false
      → v.client_routes_applied ≡ false
      → (open_network h d w v a s).1 ≡ true
      → IsOpened v.mtu v.net_config (open_network h d w v a s).0
  open_network-IsOpened v a s has_s has_a l n r ok =
      let (session, adapter, loader, mtu, routes) = open_network-keeps h d w v a s ok in
      record {
        session = ap is_null session ∙ ap is_null has_s;
        adapter = ap is_null adapter ∙ ap is_null has_a;
        loaded = ap (λ x. is_loaded w x) loader ∙ l.0;
        can_end = ap (λ x. has w x Export.end_session) loader ∙ l.1;
        can_close = ap (λ x. has w x Export.close_adapter) loader ∙ l.2;
        mtu_is = mtu;
        network = open_network-IsNetworked h d w v a s n ok;
        no_routes = routes ∙ r;
      }

  open_network-Answers :
      (v : WintunVirtualInterface h d w) (a s : ℕ)
      → v.session ≡ some s
      → v.adapter ≡ some a
      → IsReady v.loader
      → v.network_applied ≡ false
      → v.client_routes_applied ≡ false
      → Answers v.mtu v.net_config (open_network h d w v a s)
  unfolding open_network apply_network_config
  open_network-Answers v a s has_s has_a l n r =
      (λ ok. open_network-IsOpened v a s has_s has_a l n r ok, λ bad. ground arith)

  -- `open_session` where the driver starts a session, and where it does not.
  open_session-some :
      (v : WintunVirtualInterface h d w) (mtu a s : ℕ)
      → (d.start_session v.driver a v.ring_capacity).1 ≡ some s
      → open_session h d w v mtu a
        ≡ open_network h d w
            (record v {
              driver = (d.start_session v.driver a v.ring_capacity).0;
              adapter = some a;
              session = some s;
              mtu = mtu;
            })
            a
            s
  unfolding open_session
  open_session-some v mtu a s at = ground arith

  open_session-none :
      (v : WintunVirtualInterface h d w) (mtu a : ℕ)
      → (d.start_session v.driver a v.ring_capacity).1 ≡ none
      → v.session ≡ none
      → Answers mtu v.net_config (open_session h d w v mtu a)
  unfolding open_session
  open_session-none v mtu a at none_s = (λ ok. absurd (ground arith), λ bad. ground arith)

  open_session-Answers :
      (v : WintunVirtualInterface h d w) (mtu a : ℕ)
      → v.session ≡ none
      → IsReady v.loader
      → v.network_applied ≡ false
      → v.client_routes_applied ≡ false
      → Answers mtu v.net_config (open_session h d w v mtu a)
  open_session-Answers v mtu a none_s l n r =
      elim (Option-cases (d.start_session v.driver a v.ring_capacity).1) [
        | inl at ↦ open_session-none v mtu a at none_s
        | inr (s, at) ↦
            subst (Answers mtu v.net_config) (sym (open_session-some v mtu a s at))
              (open_network-Answers _ a s refl refl l n r)
      ]

  open_adapter-some :
      (v : WintunVirtualInterface h d w) (mtu a : ℕ)
      → (open_or_create h d w v.driver).1 ≡ some a
      → open_adapter h d w v mtu
        ≡ open_session h d w (record v { driver = (open_or_create h d w v.driver).0 }) mtu a
  unfolding open_adapter
  open_adapter-some v mtu a at = ground arith

  open_adapter-none :
      (v : WintunVirtualInterface h d w) (mtu : ℕ)
      → (open_or_create h d w v.driver).1 ≡ none
      → v.session ≡ none
      → v.adapter ≡ none
      → Answers mtu v.net_config (open_adapter h d w v mtu)
  unfolding open_adapter
  open_adapter-none v mtu at none_s none_a = (λ ok. absurd (ground arith), λ bad. ground arith)

  pub open_adapter-Answers :
      (v : WintunVirtualInterface h d w) (mtu : ℕ)
      → v.session ≡ none
      → v.adapter ≡ none
      → IsReady v.loader
      → v.network_applied ≡ false
      → v.client_routes_applied ≡ false
      → Answers mtu v.net_config (open_adapter h d w v mtu)
  open_adapter-Answers v mtu none_s none_a l n r =
      elim (Option-cases (open_or_create h d w v.driver).1) [
        | inl at ↦ open_adapter-none v mtu at none_s none_a
        | inr (a, at) ↦ subst (Answers mtu v.net_config) (sym (open_adapter-some v mtu a at)) (
            open_session-Answers (record v { driver = (open_or_create h d w v.driver).0 }) mtu a
              none_s l n r)
      ]
