-- ===== src/Tests/Sessions.antt =====
-- The session state machine, the buffer pool and the configuration, at concrete inputs.
use secure_tunnel_cpp.Prelude.{
  ℕ, ◌≡◌, refl, ◌⊎◌, true, false, Option, some, List, [], ◌∷◌, Bytes, codes,
}
use secure_tunnel_cpp.Session.{Session, handshaking, established, transition_to, initial}
use secure_tunnel_cpp.Pool.{Buffer, create}
use secure_tunnel_cpp.Pool.Bounds.{IsValid, Call, run-create-IsValid, acquire-release}
use secure_tunnel_cpp.Pool.Bounds
use secure_tunnel_cpp.Config.{TunnelConfig, default_config, Role, is_valid, loopback_v4, localhost}
use secure_tunnel_cpp.Config.Safety.{insecure_only_loopback}

abbrev waiting : Session
waiting = record { state = handshaking; epoch = 4 }

connect_once : (transition_to waiting established).0 ≡ record { state = established; epoch = 5 }
unfolding transition_to
connect_once = refl

no_shortcut : (transition_to initial established).1 ≡ false
unfolding transition_to
no_shortcut = refl

abbrev used_buffer : Buffer
used_buffer = record { contents = 1 ∷ 2 ∷ []; capacity = 64 }

abbrev some_calls : List Call
some_calls = Call.releases used_buffer ∷ Call.acquires 100 ∷ Call.releases used_buffer ∷ []

run-create-IsValid_example : IsValid (Bounds.run (create 0 0) some_calls)
run-create-IsValid_example = run-create-IsValid 0 0 some_calls

-- A parser that takes every text.
abbrev any_address : Bytes → Option ℕ
any_address text = some 0

abbrev quic_config : TunnelConfig
quic_config =
    let q = default_config.quic in
    record default_config { prefer_quic = true; quic = record q { insecure = true } }

insecure_only_loopback_example :
    (quic_config.role ≡ Role.client)
    × ((quic_config.endpoint ≡ loopback_v4) ⊎ (quic_config.endpoint ≡ localhost))
unfolding is_valid
insecure_only_loopback_example = insecure_only_loopback any_address quic_config refl refl refl

abbrev server_config : TunnelConfig
server_config =
    let q = default_config.quic in
    record default_config {
      role = Role.server;
      prefer_quic = true;
      quic = record q { cert_hash = codes "ab" };
    }
