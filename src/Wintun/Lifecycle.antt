-- ===== src/Wintun/Lifecycle.antt =====
-- What `open` and `close` of the Wintun interface leave behind.
use secure_tunnel_cpp.Prelude.{
  ℕ, ◌≡◌, refl, sym, ap, ◌∙◌, Bool, true, false, Option, none, some, arith,
}
use secure_tunnel_cpp.NetConfig.{IpHelper}
use secure_tunnel_cpp.Wintun.Loader.{Windows, Export, has, is_loaded}
use secure_tunnel_cpp.Wintun.Adapter.{
  Driver, WintunVirtualInterface, clear_routes, clear_network_config, end_session, close_adapter,
  close,
}

-- A handle that may be null.
abbrev pub is_null : Option ℕ → Bool
is_null none = true
is_null (some n) = false

module _ (h : IpHelper) (d : Driver) (w : Windows) where
  -- Handles are held only while the functions that give them back are there.
  abbrev pub IsSound : WintunVirtualInterface h d w → Type 0
  IsSound v =
      (has w v.loader Export.end_session ≡ false → v.session ≡ none)
      × (has w v.loader Export.close_adapter ≡ false → v.adapter ≡ none)

  -- Nothing is held.
  pub record IsClosed (v : WintunVirtualInterface h d w) : Type 0 where
    pub session : v.session ≡ none
    pub adapter : v.adapter ≡ none
    pub unloaded : is_loaded w v.loader ≡ false
    pub mtu : v.mtu ≡ 0
    pub network : v.network_applied ≡ false
    pub routes : v.client_routes_applied ≡ false

  clear_routes-keeps :
      (v : WintunVirtualInterface h d w)
      → ((clear_routes h d w v).session ≡ v.session)
        × ((clear_routes h d w v).adapter ≡ v.adapter)
        × ((clear_routes h d w v).loader ≡ v.loader)
        × ((clear_routes h d w v).client_routes_applied ≡ false)
  unfolding clear_routes
  clear_routes-keeps v = ground arith

  clear_network_config-keeps :
      (v : WintunVirtualInterface h d w)
      → ((clear_network_config h d w v).session ≡ v.session)
        × ((clear_network_config h d w v).adapter ≡ v.adapter)
        × ((clear_network_config h d w v).loader ≡ v.loader)
        × ((clear_network_config h d w v).network_applied ≡ false)
        × ((clear_network_config h d w v).client_routes_applied ≡ false)
  unfolding clear_network_config
  clear_network_config-keeps v = ground (arith, clear_routes-keeps v)

  -- Both handles are given back.
  handles_released :
      (v : WintunVirtualInterface h d w)
      → IsSound v
      → ((close_adapter h d w (end_session h d w v)).session ≡ none)
        × ((close_adapter h d w (end_session h d w v)).adapter ≡ none)
        × ((close_adapter h d w (end_session h d w v)).network_applied ≡ v.network_applied)
        × ((close_adapter h d w (end_session h d w v)).client_routes_applied
            ≡ v.client_routes_applied)
  unfolding close_adapter end_session
  handles_released v sound = ground arith

  -- After `close` no session, no adapter and no library is held, and both flags are down.
  pub close-IsClosed : (v : WintunVirtualInterface h d w) → IsSound v → IsClosed (close h d w v)
  unfolding close
  close-IsClosed v sound =
      let (s, a, l, network, routes) = clear_network_config-keeps v in
      let sound' : IsSound (clear_network_config h d w v) = (
        λ e. s ∙ sound.0 (ap (λ x. has w x Export.end_session) (sym l) ∙ e),
        λ e. a ∙ sound.1 (ap (λ x. has w x Export.close_adapter) (sym l) ∙ e),
      ) in
      let (session, adapter, same_network, same_routes) =
        handles_released (clear_network_config h d w v) sound' in
      record {
        session = session;
        adapter = adapter;
        unloaded = refl;
        mtu = refl;
        network = same_network ∙ network;
        routes = same_routes ∙ routes;
      }
