-- ===== src/Apps/Valid.antt =====
-- The configurations that command lines give, and the check that the engine makes of them.
use mathlib.Core.Option.{some-injective}
use secure_tunnel_cpp.Apps.Server.{
  plain_config, quic_config, server_config, Environment, ServerArguments,
}
use secure_tunnel_cpp.Prelude.{
  ℕ, ◌≡◌, sym, ap, ◌∙◌, subst, inl, inr, Bool, true, false, ◌&&◌, ◌||◌, not, Option, some, List,
  arith, ◌==◌, Bool-cases, Option-cases, Bytes, codes, is_empty,
}
use secure_tunnel_cpp.SmartRoute.{Files}
use secure_tunnel_cpp.Config.{TunnelConfig, is_valid, is_loopback, routing_active}
use secure_tunnel_cpp.Apps.Client.{
  ClientArguments, config_of, is_refused, client_config, read_arguments, no_arguments,
}
use secure_tunnel_cpp.Apps.Server

-- The arguments behind a client's configuration.
client_config-accepts :
    (files : Files) (elevated : Bool) (args : List Bytes) (c : TunnelConfig)
    → client_config files elevated args ≡ some c
    → (a : ClientArguments) × (is_refused elevated a ≡ false) × (config_of files a ≡ c)
unfolding client_config
client_config-accepts files elevated args c at =
    elim (Option-cases (read_arguments no_arguments args)) [
      | inl wrong ↦ absurd (ground arith)
      | inr (a, right) ↦ elim (Bool-cases (is_refused elevated a)) [
        | inl refused ↦ absurd (ground arith)
        | inr accepted ↦
            let step : client_config files elevated args ≡ some (config_of files a) =
              ground arith in
            (a, accepted, some-injective _ _ (sym step ∙ at))
      ]
    ]

routed-config_of :
    (files : Files) (elevated : Bool) (a : ClientArguments)
    → is_refused elevated a ≡ false
    → routing_active (config_of files a) ≡ true
    → (elevated ≡ true) × ((config_of files a).prefer_quic ≡ true)
unfolding config_of
routed-config_of files elevated a accepted routed = ground arith

-- A client changes the system's routes only for an administrator and only over QUIC: a command line
-- that gives a configuration with active routing is one of an elevated process, and the configuration
-- uses QUIC.
pub routes_need_administrator :
    (files : Files) (elevated : Bool) (args : List Bytes) (c : TunnelConfig)
    → client_config files elevated args ≡ some c
    → routing_active c ≡ true
    → (elevated ≡ true) × (c.prefer_quic ≡ true)
routes_need_administrator files elevated args c at routed =
    let (a, accepted, same) = client_config-accepts files elevated args c at in
    let routed' = ap routing_active same ∙ routed in
    let (administrator, quic) = routed-config_of files elevated a accepted routed' in
    (administrator, ap (λ x. x.prefer_quic) (sym same) ∙ quic)

module _ (parse_ipv4 : Bytes → Option ℕ) where
  -- The addresses of the default configuration are addresses.
  pub record ParsesDefaults : Type 0 where
    pub gateway : (n : ℕ) × (parse_ipv4 (codes "10.66.66.1") ≡ some n)
    pub address : (n : ℕ) × (parse_ipv4 (codes "10.66.66.2") ≡ some n)
    pub dns : (n : ℕ) × (parse_ipv4 (codes "1.1.1.1") ≡ some n)

  -- What the engine still asks of a client's command line.
  abbrev pub is_usable : TunnelConfig → Bool
  is_usable c =
      not (is_empty c.endpoint)
      && (not (c.port == 0) && (not (c.prefer_quic && c.quic.insecure) || is_loopback c.endpoint))

  config_of-valid :
      (files : Files) (elevated : Bool) (a : ClientArguments)
      → ParsesDefaults
      → is_refused elevated a ≡ false
      → is_valid parse_ipv4 (config_of files a) ≡ is_usable (config_of files a)
  unfolding config_of is_valid
  config_of-valid files elevated a defaults accepted =
      let (g, gateway) = defaults.gateway in
      let (i, address) = defaults.address in let (s, dns) = defaults.dns in ground arith

  -- The engine accepts a client's command line exactly if its endpoint is not empty, its port modulo
  -- 2^16 is not 0, and QUIC without a check of the certificate goes to this machine alone: those are
  -- the demands of `is_valid` that the program's own checks leave open, if the default addresses
  -- parse.
  pub client_config-valid :
      (files : Files) (elevated : Bool) (args : List Bytes) (c : TunnelConfig)
      → ParsesDefaults
      → client_config files elevated args ≡ some c
      → is_valid parse_ipv4 c ≡ is_usable c
  client_config-valid files elevated args c defaults at =
      let (a, accepted, same) = client_config-accepts files elevated args c at in
      subst (λ x. is_valid parse_ipv4 x ≡ is_usable x) same
        (config_of-valid files elevated a defaults accepted)

  plain_config-valid : ParsesDefaults → is_valid parse_ipv4 (plain_config false) ≡ true
  unfolding is_valid
  plain_config-valid defaults =
      let (i, address) = defaults.address in let (s, dns) = defaults.dns in ground arith

  quic_config-valid :
      (on_windows : Bool) (env : Environment) (files : Files) (a : ServerArguments)
      (c : TunnelConfig)
      → ParsesDefaults
      → quic_config on_windows env files a ≡ some c
      → is_valid parse_ipv4 c ≡ true
  unfolding quic_config is_valid
  quic_config-valid on_windows env files a c defaults at =
      let (i, address) = defaults.address in let (s, dns) = defaults.dns in ground arith

  -- The engine accepts every configuration that a server's command line gives: the program refuses
  -- QUIC without a certificate itself, if the default addresses parse.
  pub server_config-valid :
      (on_windows : Bool) (env : Environment) (files : Files) (args : List Bytes) (c : TunnelConfig)
      → ParsesDefaults
      → server_config on_windows env files args ≡ some c
      → is_valid parse_ipv4 c ≡ true
  unfolding server_config
  server_config-valid on_windows env files args c defaults at =
      elim (Option-cases (Server.read_arguments Server.no_arguments args)) [
        | inl wrong ↦ absurd (ground arith)
        | inr (a, right) ↦ elim (Bool-cases a.use_quic) [
          | inl quic ↦
              let step : server_config on_windows env files args
                  ≡ quic_config on_windows env files a =
                ground arith in
              quic_config-valid on_windows env files a c defaults (sym step ∙ at)
          | inr plain ↦
              let step : server_config on_windows env files args ≡ some (plain_config false) =
                ground arith in
              subst (λ x. is_valid parse_ipv4 x ≡ true) (some-injective _ _ (sym step ∙ at))
                (plain_config-valid defaults)
        ]
      ]
