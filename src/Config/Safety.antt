-- ===== src/Config/Safety.antt =====
-- What a configuration that passes `is_valid` guarantees.
use secure_tunnel_cpp.Prelude.{
  ℕ, ◌≤◌, ◌≡◌, ◌≢◌, ◌⊎◌, inl, inr, true, false, Option, some, [], arith, Bool-cases, Bytes, text_eq,
  text_eq_sound,
}
use secure_tunnel_cpp.Config.{
  TunnelConfig, is_valid, is_loopback, Role, routing_active, loopback_v4, localhost,
}

loopback_cases :
    (host : Bytes) → is_loopback host ≡ true → (host ≡ loopback_v4) ⊎ (host ≡ localhost)
loopback_cases host h = elim (Bool-cases (text_eq host loopback_v4)) [
  | inl e ↦ inl (text_eq_sound host loopback_v4 e)
  | inr e ↦ inr (text_eq_sound host localhost (rw e at h))
]

module _ (parse_ipv4 : Bytes → Option ℕ) (c : TunnelConfig) where
  -- A valid configuration has an endpoint, a port other than 0, an MTU from 1280 to 1420 and no
  -- 0-RTT.
  pub is_valid_limits :
      is_valid parse_ipv4 c ≡ true
      → (c.endpoint ≢ [])
        × (c.port ≢ 0)
        × (1280 ≤ c.mtu)
        × (c.mtu ≤ 1420)
        × (c.allow_zero_rtt ≡ false)
  unfolding is_valid
  is_valid_limits h = ground arith

  client_role :
      is_valid parse_ipv4 c ≡ true
      → c.prefer_quic ≡ true
      → c.quic.insecure ≡ true
      → c.role ≡ Role.client
  unfolding is_valid
  client_role h q i = ground arith

  is_loopback-true :
      is_valid parse_ipv4 c ≡ true
      → c.prefer_quic ≡ true
      → c.quic.insecure ≡ true
      → is_loopback c.endpoint ≡ true
  unfolding is_valid
  is_loopback-true h q i = ground arith

  -- Certificate checks are skipped only towards this machine: a valid configuration that uses QUIC
  -- with `insecure` belongs to a client whose endpoint is 127.0.0.1 or localhost.
  pub insecure_only_loopback :
      is_valid parse_ipv4 c ≡ true
      → c.prefer_quic ≡ true
      → c.quic.insecure ≡ true
      → (c.role ≡ Role.client) × ((c.endpoint ≡ loopback_v4) ⊎ (c.endpoint ≡ localhost))
  insecure_only_loopback h q i = elim (loopback_cases c.endpoint (is_loopback-true h q i)) [
    | inl e ↦ (client_role h q i, inl e)
    | inr e ↦ (client_role h q i, inr e)
  ]

  -- Routing is for a client that uses QUIC: a valid configuration whose routing is active has that
  -- role, uses QUIC, and has a gateway that parses as an address.
  pub routing_only_quic_client :
      is_valid parse_ipv4 c ≡ true
      → routing_active c ≡ true
      → (c.role ≡ Role.client)
        × (c.prefer_quic ≡ true)
        × ((a : ℕ) × (parse_ipv4 c.default_route_gateway ≡ some a))
  unfolding is_valid
  routing_only_quic_client h r = ground arith

  -- A valid server configuration that uses QUIC has a certificate hash, or both a certificate file
  -- and a key file.
  pub server_has_certificate :
      is_valid parse_ipv4 c ≡ true
      → c.prefer_quic ≡ true
      → c.role ≡ Role.server
      → (c.quic.cert_hash ≢ []) ⊎ ((c.quic.cert_file ≢ []) × (c.quic.key_file ≢ []))
  unfolding is_valid
  server_has_certificate h q r = ground arith
