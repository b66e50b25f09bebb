-- ===== src/Tests/Transports.antt =====
-- The transport over a library in which every call succeeds and handles are numbered.
use secure_tunnel_cpp.Prelude.{
  ℕ, ◌+◌, ◌≤◌, ◌<◌, ◌≡◌, refl, Bool, true, false, Option, none, some, List, [], ◌∷◌, arith, ltb,
  if◌then◌else◌,
}
use secure_tunnel_cpp.Config.{TunnelConfig, default_config, Role}
use secure_tunnel_cpp.Quic.Framing.Buffer.{stream}
use secure_tunnel_cpp.Quic.Framing.{frame_buffer}
use secure_tunnel_cpp.Quic.Api.{MsQuic, MsQuicApi}
use secure_tunnel_cpp.Quic.Api
use secure_tunnel_cpp.Quic.Api.Count
use secure_tunnel_cpp.Quic.Api.Count.{run-IsCounted, IsLogged, unused, users}
use secure_tunnel_cpp.Quic.Transport.{
  QuicSecureTransport, new_channel, close, reset_for_next_client,
}
use secure_tunnel_cpp.Quic.Transport.Open.{connect}
use secure_tunnel_cpp.Quic.Transport.Channel.{
  receive, new_connection, connected, peer_stream_started, deliver_all,
}
use secure_tunnel_cpp.Quic.Transport.Shut
use secure_tunnel_cpp.Quic.Transport.Shut.{Operation, never_closed_again}
use secure_tunnel_cpp.Quic.Transport.Send.{Accepted, send_payload-Accepted}
use secure_tunnel_cpp.Quic.Transport.Channel.{
  send_payload, send_buffer, send_on, wait_for_send, deliver, send_complete,
}
use secure_tunnel_cpp.Quic.Transport.Delivery.{receive_n, payloads_arrive}

abbrev numbered : ℕ → ℕ × Option ℕ
numbered n = (n + 1, some n)

abbrev library : MsQuic
library = record {
  State = ℕ;
  open2 = λ n. (n, true);
  close = λ n. n;
  registration_open = numbered;
  registration_close = λ n h. n;
  configuration_open = λ n r role c. numbered n;
  configuration_load_credential = λ n c cr. (n, true);
  configuration_close = λ n h. n;
  connection_open = λ n r. numbered n;
  connection_start = λ n c k e p. (n, true);
  connection_set_configuration = λ n c k. (n, true);
  connection_shutdown = λ n c. n;
  connection_close = λ n c. n;
  listener_open = λ n r. numbered n;
  listener_start = λ n l a p. (n, true);
  listener_close = λ n l. n;
  stream_open = λ n c. numbered n;
  stream_start = λ n s. (n, true);
  stream_send = λ n s b. (n, true);
  stream_close = λ n s. n;
  set_callback_handler = λ n h. n;
}

abbrev no_users : MsQuicApi library
no_users = record { library = 0; api = false; ref_count = 0 }

-- A library that counts its calls of `MsQuicOpen2` and `MsQuicClose` and opens no handle.
abbrev counting : MsQuic
counting = record {
  State = ℕ × ℕ;
  open2 = λ n. ((n.0 + 1, n.1), true);
  close = λ n. (n.0, n.1 + 1);
  registration_open = λ n. (n, none);
  registration_close = λ n h. n;
  configuration_open = λ n r role c. (n, none);
  configuration_load_credential = λ n c cr. (n, true);
  configuration_close = λ n h. n;
  connection_open = λ n r. (n, none);
  connection_start = λ n c k e p. (n, true);
  connection_set_configuration = λ n c k. (n, true);
  connection_shutdown = λ n c. n;
  connection_close = λ n c. n;
  listener_open = λ n r. (n, none);
  listener_start = λ n l a p. (n, true);
  listener_close = λ n l. n;
  stream_open = λ n c. (n, none);
  stream_start = λ n s. (n, true);
  stream_send = λ n s b. (n, true);
  stream_close = λ n s. n;
  set_callback_handler = λ n h. n;
}

counting-IsLogged : IsLogged counting (λ n. n.0) (λ n. n.1)
counting-IsLogged = record {
  opened = λ n e. refl;
  not_opened = λ n e. absurd (ground arith);
  open_closes = λ n. refl;
  closed = λ n. refl;
  close_opens = λ n. refl;
}

abbrev three_calls : List Bool
three_calls = true ∷ true ∷ false ∷ []

abbrev after_three : MsQuicApi counting
after_three = Count.run counting (unused counting (0, 0)) three_calls

run-IsCounted_example :
    (after_three.ref_count ≡ users counting (unused counting (0, 0)) three_calls 0)
    × (ltb 0 (users counting (unused counting (0, 0)) three_calls 0) ≡ after_three.api)
    × (after_three.library.0 + 0
        ≡ after_three.library.1
          + 0
          + (if ltb 0 (users counting (unused counting (0, 0)) three_calls 0) then 1 else 0))
run-IsCounted_example =
    run-IsCounted counting (λ n. n.0) (λ n. n.1) counting-IsLogged (0, 0) three_calls

abbrev new_transport : QuicSecureTransport library
new_transport = record {
  global = no_users;
  config = default_config;
  last_error = false;
  api_open = false;
  registration = none;
  configuration = none;
  connection = none;
  listener = none;
  handshake_state = none;
  server_context = none;
  stream_channel = none;
  connection_context = none;
  stored_credentials = none;
  listener_started = false;
  data_channel_open = false;
  closed = false;
}

abbrev server_config : TunnelConfig
server_config = record default_config { role = Role.server; prefer_quic = true }

abbrev first_client : List (Operation library)
first_client =
    Operation.shakes []
    ∷ Operation.opens (new_connection 9 ∷ connected 9 ∷ []) (peer_stream_started 10 ∷ [])
    ∷ Operation.resets
    ∷ []

abbrev served : QuicSecureTransport library
served = Shut.run library (connect library new_transport server_config).0 first_client

never_closed_again_example :
    (close library served ≡ served) × (reset_for_next_client library served ≡ served)
never_closed_again_example = never_closed_again library new_transport server_config first_client

abbrev open_transport : QuicSecureTransport library
open_transport = record new_transport {
  data_channel_open = true;
  stream_channel = some new_channel;
}

framed : (0 ∷ 0 ∷ 0 ∷ 1 ∷ 7 ∷ []) ≡ stream ((7 ∷ []) ∷ [])
unfolding frame_buffer
framed = refl

payloads_arrive_example :
    receive_n library 1 (
      deliver_all library
        (receive ((0 ∷ 0 ∷ []) ∷ (0 ∷ []) ∷ []) ∷ receive ((1 ∷ 7 ∷ []) ∷ []) ∷ [])
        open_transport)
    ≡ some (7 ∷ []) ∷ []
payloads_arrive_example =
    payloads_arrive library open_transport new_channel ((7 ∷ []) ∷ [])
      (((0 ∷ 0 ∷ []) ∷ (0 ∷ []) ∷ []) ∷ ((1 ∷ 7 ∷ []) ∷ []) ∷ []) refl refl refl
      ((omega arith, omega arith), _) framed

-- A channel with a stream, and the event that ends a send.
abbrev sending : QuicSecureTransport library
sending = record open_transport {
  stream_channel = some (record new_channel { stream = some 5; ready = true });
}

sent : (send_payload library [] (send_complete ∷ []) sending (7 ∷ [])).1 ≡ true
unfolding send_payload send_buffer send_on wait_for_send deliver_all deliver
sent = refl

send_payload-Accepted_example :
    (true ≡ true) × (0 < 1) × (1 ≤ 65536) × Accepted library (frame_buffer (7 ∷ []))
send_payload-Accepted_example =
    send_payload-Accepted library [] (send_complete ∷ []) sending (7 ∷ []) sent
