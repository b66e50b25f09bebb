-- ===== src/Apps/Server.antt =====
-- apps/server_main.cpp, as built with MsQuic: the arguments and the configuration of the engine.
-- `none` stands for a program that ends before it builds an engine: it returns 1, or the exception
-- of `std::stoi` ends it.
use secure_tunnel_cpp.Prelude.{
  ℕ, ◌*◌, Bool, true, false, ◌&&◌, not, Option, none, some, List, [], ◌∷◌, if◌then◌else◌, Bytes,
  codes, is_empty, text_eq,
}
use secure_tunnel_cpp.Strings.{stoi}
use secure_tunnel_cpp.SmartRoute.{Files}
use secure_tunnel_cpp.Config.{TunnelConfig, default_config, server}
use secure_tunnel_cpp.Apps.Arguments.{value_of, is_positive, read_trimmed_file, thumbprint_path}

-- The locals of `main`.
pub record ServerArguments : Type 0 where
  pub use_quic : Bool
  pub use_tun : Bool
  pub relay : Bool
  pub relay_seconds : Bool × ℕ
  pub cert_hash : Bytes
  pub cert_file : Bytes
  pub key_file : Bytes

abbrev pub no_arguments : ServerArguments
no_arguments = record {
  use_quic = false;
  use_tun = false;
  relay = false;
  relay_seconds = (false, 0);
  cert_hash = [];
  cert_file = [];
  key_file = [];
}

-- From `--cert_hash:` on.
unfoldable pub read_certificate : ServerArguments → Bytes → Option ServerArguments
read_certificate a arg = elim (value_of (codes "--cert_hash:") arg) [
  | some text ↦ some (record a { cert_hash = text })
  | none ↦ elim (value_of (codes "--cert_file:") arg) [
    | some text ↦ some (record a { cert_file = text })
    | none ↦ elim (value_of (codes "--key_file:") arg) [
      | some text ↦ some (record a { key_file = text })
      | none ↦ none
    ]
  ]
]

-- The body of the loop.
unfoldable pub read_argument : ServerArguments → Bytes → Option ServerArguments
read_argument a arg =
    if text_eq arg (codes "--quic")
    then some (record a { use_quic = true })
    else if text_eq arg (codes "--tun")
    then some (record a { use_tun = true })
    else if text_eq arg (codes "--relay")
    then some (record a { relay = true })
    else elim (value_of (codes "--relay-seconds:") arg) [
      | some text ↦ elim (stoi text) [
        | none ↦ none
        | some seconds ↦ some (record a { relay = true; relay_seconds = seconds })
      ]
      | none ↦ read_certificate a arg
    ]

unfoldable pub read_arguments : ServerArguments → List Bytes → Option ServerArguments
read_arguments a [] = some a
read_arguments a (arg ∷ args) = elim (read_argument a arg) [
  | none ↦ none
  | some a' ↦ read_arguments a' args
]

-- The environment: a name that is not set reads as the empty text.
abbrev pub Environment : Type 0
Environment = Bytes → Bytes

-- `if (text.empty()) text = other`.
abbrev pub or_else : Bytes → Bytes → Bytes
or_else text other = if is_empty text then other else text

-- The configuration without QUIC.
abbrev pub plain_config : Bool → TunnelConfig
plain_config use_quic = record default_config {
  role = server;
  endpoint = codes "0.0.0.0";
  port = 44333;
  prefer_quic = use_quic;
}

-- `if (use_quic) { ... }`; files of a certificate are used on other systems than Windows.
unfoldable pub quic_config : Bool → Environment → Files → ServerArguments → Option TunnelConfig
quic_config on_windows env files a =
    let cert_file = or_else a.cert_file (env (codes "TLS_CERT_FILE")) in
    let key_file = or_else a.key_file (env (codes "TLS_KEY_FILE")) in
    let cert_hash = or_else a.cert_hash (read_trimmed_file files thumbprint_path) in
    let quic = default_config.quic in
    if not on_windows && (not (is_empty cert_file) && not (is_empty key_file))
    then some (record (plain_config true) {
      quic = record quic { cert_file = cert_file; key_file = key_file };
    })
    else if not (is_empty cert_hash)
    then some (record (plain_config true) { quic = record quic { cert_hash = cert_hash } })
    else none

-- `main`, as far as the engine.
unfoldable pub server_config : Bool → Environment → Files → List Bytes → Option TunnelConfig
server_config on_windows env files args = elim (read_arguments no_arguments args) [
  | none ↦ none
  | some a ↦ if a.use_quic then quic_config on_windows env files a else some (plain_config false)
]

-- How long the data plane runs, in seconds, after a start; `none` where it does not run.
unfoldable pub relay_time : ServerArguments → Option ℕ
relay_time a =
    if not a.relay
    then none
    else if is_positive a.relay_seconds
    then some (a.relay_seconds.1)
    else some (24 * 3600)
