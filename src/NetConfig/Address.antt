-- ===== src/NetConfig/Address.antt =====
-- The address and the DNS server of the adapter, src/windows_net_config.cpp.
use secure_tunnel_cpp.Prelude.{
  ℕ, Bool, true, false, ◌||◌, not, none, some, [], ltb, ◌==◌, if◌then◌else◌, Bytes, is_empty,
}
use secure_tunnel_cpp.Config.{Ipv4InterfaceConfig}
use secure_tunnel_cpp.NetConfig.{
  IpHelper, WindowsNetConfigurator, parse_ipv4, refuse, clear_error, created, deleted, no_error,
}

module _ (h : IpHelper) where
  -- The call of `SetInterfaceDnsSettings` in `apply_dns`.
  unfoldable pub set_dns : WindowsNetConfigurator h → ℕ → Bytes → WindowsNetConfigurator h × Bool
  set_dns n guid server = elim (h.set_interface_dns_settings) [
    | none ↦ refuse h n
    | some set ↦
        let (s, status) = set n.system guid server in
        let n' : WindowsNetConfigurator h = record n { system = s } in
        if not (status == no_error) then refuse h n' else (n', true)
  ]

  unfoldable pub apply_dns : WindowsNetConfigurator h → ℕ → Bytes → WindowsNetConfigurator h × Bool
  apply_dns n luid dns =
      let n' = clear_error h n in
      elim (parse_ipv4 h dns) [
        | none ↦ refuse h n'
        | some ignored ↦ elim (h.convert_interface_luid_to_guid luid) [
          | none ↦ refuse h n'
          | some guid ↦
              if not (h.get_module_handle || h.load_library)
              then refuse h n'
              else set_dns n' guid dns
        ]
      ]

  -- After the address has been added.
  unfoldable pub apply_ipv4_dns :
      WindowsNetConfigurator h → ℕ → Bytes → WindowsNetConfigurator h × Bool
  apply_ipv4_dns n luid dns = if is_empty dns then (n, true) else apply_dns n luid dns

  -- `CreateUnicastIpAddressEntry`, and what follows.
  unfoldable pub add_address :
      WindowsNetConfigurator h → ℕ → ℕ → Ipv4InterfaceConfig → WindowsNetConfigurator h × Bool
  add_address n luid ip config =
      let (s, status) = h.create_unicast_ip_address_entry n.system luid ip config.prefix_length in
      let n' : WindowsNetConfigurator h = record n { system = s } in
      if not (created status) then refuse h n' else apply_ipv4_dns n' luid config.dns

  unfoldable pub apply_ipv4 :
      WindowsNetConfigurator h → ℕ → Ipv4InterfaceConfig → WindowsNetConfigurator h × Bool
  apply_ipv4 n luid config =
      let n' = clear_error h n in
      if luid == 0
      then refuse h n'
      else if config.prefix_length == 0 || ltb 32 config.prefix_length
      then refuse h n'
      else elim (parse_ipv4 h config.address) [
        | none ↦ refuse h n'
        | some ip ↦ add_address n' luid ip config
      ]

  unfoldable pub delete_address :
      WindowsNetConfigurator h → ℕ → ℕ → ℕ → WindowsNetConfigurator h × Bool
  delete_address n luid ip prefix =
      let (s, status) = h.delete_unicast_ip_address_entry n.system luid ip prefix in
      let n' : WindowsNetConfigurator h = record n { system = s } in
      if not (deleted status) then refuse h n' else (n', true)

  unfoldable pub clear_ipv4 :
      WindowsNetConfigurator h → ℕ → Ipv4InterfaceConfig → WindowsNetConfigurator h × Bool
  clear_ipv4 n luid config =
      let n' = clear_error h n in
      if luid == 0 || is_empty config.address
      then (n', true)
      else elim (parse_ipv4 h config.address) [
        | none ↦ refuse h n'
        | some ip ↦ delete_address n' luid ip config.prefix_length
      ]

  -- The call of `clear_dns`, whose failure sets no error.
  unfoldable pub unset_dns : WindowsNetConfigurator h → ℕ → WindowsNetConfigurator h × Bool
  unset_dns n guid = elim (h.set_interface_dns_settings) [
    | none ↦ (n, false)
    | some set ↦
        let (s, status) = set n.system guid [] in (record n { system = s }, status == no_error)
  ]

  unfoldable pub clear_dns : WindowsNetConfigurator h → ℕ → WindowsNetConfigurator h × Bool
  clear_dns n luid =
      let n' = clear_error h n in
      if luid == 0 then (n', true) else elim (h.convert_interface_luid_to_guid luid) [
        | none ↦ (n', false)
        | some guid ↦ if not h.get_module_handle then (n', false) else unset_dns n' guid
      ]
