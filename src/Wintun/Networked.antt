-- ===== src/Wintun/Networked.antt =====
-- The network configuration in `open` of src/wintun_virtual_interface.cpp.
use secure_tunnel_cpp.Prelude.{
  ℕ, ◌≡◌, refl, sym, ap, ◌∙◌, subst, ◌⊎◌, inl, inr, true, false, arith, ◌==◌, Bool-cases,
}
use secure_tunnel_cpp.NetConfig.{IpHelper, WindowsNetConfigurator}
use secure_tunnel_cpp.NetConfig.Address.{apply_ipv4}
use secure_tunnel_cpp.Wintun.Loader.{Windows}
use secure_tunnel_cpp.Wintun.Adapter.{
  Driver, WintunVirtualInterface, adapter_luid_value, apply_network_config, open_network,
}

module _ (h : IpHelper) (d : Driver) (w : Windows) where
  -- From the helper in this state on, `apply_ipv4` has been called with success for the adapter that is
  -- open, if the configuration is to be applied, and nothing else has been called.
  pub IsNetworked : WindowsNetConfigurator h → WintunVirtualInterface h d w → Type 0
  IsNetworked n v =
      ((v.ipv4_config.apply_on_open ≡ false) × (v.network_applied ≡ false) × (v.net_config ≡ n))
      ⊎ ((v.ipv4_config.apply_on_open ≡ true)
          × (v.network_applied ≡ true)
          × ((adapter_luid_value h d w v == 0) ≡ false)
          × (v.net_config ≡ (apply_ipv4 h n (adapter_luid_value h d w v) v.ipv4_config).0)
          × ((apply_ipv4 h n (adapter_luid_value h d w v) v.ipv4_config).1 ≡ true))

  apply-off :
      (v : WintunVirtualInterface h d w)
      → v.ipv4_config.apply_on_open ≡ false
      → apply_network_config h d w v ≡ (v, true)
  unfolding apply_network_config
  apply-off v off = ground arith

  apply-on :
      (v : WintunVirtualInterface h d w)
      → v.ipv4_config.apply_on_open ≡ true
      → (apply_network_config h d w v).1 ≡ true
      → (apply_network_config h d w v ≡ (
        record v {
          net_config = (apply_ipv4 h v.net_config (adapter_luid_value h d w v) v.ipv4_config).0;
          network_applied = true;
        },
        true,
      ))
        × ((adapter_luid_value h d w v == 0) ≡ false)
        × ((apply_ipv4 h v.net_config (adapter_luid_value h d w v) v.ipv4_config).1 ≡ true)
  unfolding apply_network_config
  apply-on v on ok = elim (Bool-cases (adapter_luid_value h d w v == 0)) [
    | inl no_luid ↦ absurd (ground arith)
    | inr some_luid ↦
        elim (Bool-cases (apply_ipv4 h v.net_config (adapter_luid_value h d w v) v.ipv4_config).1) [
          | inl applied ↦ (ground arith, some_luid, applied)
          | inr not_applied ↦ absurd (ground arith)
        ]
  ]

  apply-IsNetworked :
      (v : WintunVirtualInterface h d w)
      → v.network_applied ≡ false
      → (apply_network_config h d w v).1 ≡ true
      → IsNetworked v.net_config (apply_network_config h d w v).0
  unfolding IsNetworked
  apply-IsNetworked v n ok = elim (Bool-cases v.ipv4_config.apply_on_open) [
    | inl on ↦
        let (at, luid, applied) = apply-on v on ok in
        subst (λ r. IsNetworked v.net_config r.0) (sym at) (inr (on, refl, luid, refl, applied))
    | inr off ↦
        subst (λ r. IsNetworked v.net_config r.0) (sym (apply-off v off)) (inl (off, n, refl))
  ]

  open_network-ok :
      (v : WintunVirtualInterface h d w) (a s : ℕ)
      → (open_network h d w v a s).1 ≡ true
      → ((apply_network_config h d w v).1 ≡ true)
        × ((open_network h d w v a s).0
            ≡ record (apply_network_config h d w v).0 { last_error = false })
  unfolding open_network
  open_network-ok v a s ok = elim (Bool-cases (apply_network_config h d w v).1) [
    | inl applied ↦ (applied, rw applied refl)
    | inr refused ↦ absurd (ground arith)
  ]

  pub open_network-IsNetworked :
      (v : WintunVirtualInterface h d w) (a s : ℕ)
      → v.network_applied ≡ false
      → (open_network h d w v a s).1 ≡ true
      → IsNetworked v.net_config (open_network h d w v a s).0
  unfolding IsNetworked
  open_network-IsNetworked v a s n ok =
      let (applied, at) = open_network-ok v a s ok in
      subst (IsNetworked v.net_config) (sym at) (apply-IsNetworked v n applied)

  pub apply-keeps :
      (v : WintunVirtualInterface h d w)
      → ((apply_network_config h d w v).0.session ≡ v.session)
        × ((apply_network_config h d w v).0.adapter ≡ v.adapter)
        × ((apply_network_config h d w v).0.loader ≡ v.loader)
        × ((apply_network_config h d w v).0.mtu ≡ v.mtu)
        × ((apply_network_config h d w v).0.client_routes_applied ≡ v.client_routes_applied)
        × ((apply_network_config h d w v).0.driver ≡ v.driver)
  unfolding apply_network_config
  apply-keeps v = ground arith

  -- What configuring the network keeps.
  pub open_network-keeps :
      (v : WintunVirtualInterface h d w) (a s : ℕ)
      → (open_network h d w v a s).1 ≡ true
      → ((open_network h d w v a s).0.session ≡ v.session)
        × ((open_network h d w v a s).0.adapter ≡ v.adapter)
        × ((open_network h d w v a s).0.loader ≡ v.loader)
        × ((open_network h d w v a s).0.mtu ≡ v.mtu)
        × ((open_network h d w v a s).0.client_routes_applied ≡ v.client_routes_applied)
  open_network-keeps v a s ok =
      let (applied, at) = open_network-ok v a s ok in
      let (session, adapter, loader, mtu, routes, _) = apply-keeps v in
      (
        ap (λ x. x.session) at ∙ session,
        ap (λ x. x.adapter) at ∙ adapter,
        ap (λ x. x.loader) at ∙ loader,
        ap (λ x. x.mtu) at ∙ mtu,
        ap (λ x. x.client_routes_applied) at ∙ routes,
      )
