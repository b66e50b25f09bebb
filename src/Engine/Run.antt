-- ===== src/Engine/Run.antt =====
-- The data-plane loop: a server serves until the deadline, a client until its first failure.
use secure_tunnel_cpp.Prelude.{
  ℕ, zero, suc, ◌≡◌, refl, Bool, true, false, List, [], ◌∷◌, ◌++◌, arith,
}
use secure_tunnel_cpp.Session.{established, failed, transition_to, can_send_data}
use secure_tunnel_cpp.Config.{Role}
use secure_tunnel_cpp.Engine.{Parts, TunnelEngine, ensure_session_ready}
use secure_tunnel_cpp.Engine.Forward.{relay_batch}
use secure_tunnel_cpp.Engine.Ready.{
  relay_batch-keeps, relay_batch-session, ensure_session_ready-keeps,
}
use secure_tunnel_cpp.Engine.Loop.{
  batch_size_of, reset_server_session, loop_body, relay_round, wait_or_relay, run_data_plane,
  Signal, request_data_plane_stop,
}

-- A round during which nobody asks for a stop.
abbrev pub quiet : Signal
quiet = record { before = false; during = false }

abbrev pub quiet_rounds : ℕ → List Signal
quiet_rounds zero = []
quiet_rounds (suc n) = quiet ∷ quiet_rounds n

module _ (w : Parts) where
  -- A server that nobody has asked to stop.
  abbrev pub IsServing : TunnelEngine w → Type 0
  IsServing e = (e.config.role ≡ Role.server) × (e.data_plane_stop_requested ≡ false)

  relay_round-IsServing :
      (e : TunnelEngine w)
      → IsServing e
      → ((relay_round w e false).1 ≡ true) × IsServing (relay_round w e false).0
  unfolding relay_round reset_server_session
  relay_round-IsServing e h = ground (arith, relay_batch-keeps w e (batch_size_of w e))

  wait_or_relay-IsServing :
      (e : TunnelEngine w)
      → IsServing e
      → ((wait_or_relay w e false).1 ≡ true) × IsServing (wait_or_relay w e false).0
  unfolding wait_or_relay reset_server_session
  wait_or_relay-IsServing e h = ground (arith, relay_round-IsServing e)

  loop_body-IsServing :
      (e : TunnelEngine w)
      → IsServing e
      → ((loop_body w e false).1 ≡ true) × IsServing (loop_body w e false).0
  unfolding loop_body
  loop_body-IsServing e h = ground (
    arith,
    relay_round-IsServing e,
    wait_or_relay-IsServing e,
    ensure_session_ready-keeps w e,
    wait_or_relay-IsServing (ensure_session_ready w e).0,
  )

  -- No failure of a client, of the transport or of the interface ends a server's data plane: as long
  -- as nobody asks for a stop, the loop goes on from where it is, and the rounds before the deadline
  -- are all made.
  pub server_serves_on :
      (e : TunnelEngine w) (n : ℕ) (ts : List Signal)
      → IsServing e
      → (run_data_plane w (quiet_rounds n ++ ts) e
          ≡ run_data_plane w ts (run_data_plane w (quiet_rounds n) e))
        × IsServing (run_data_plane w (quiet_rounds n) e)
  unfolding run_data_plane
  server_serves_on e zero ts h = (refl, h)
  server_serves_on e (suc n) ts h =
      ground (arith, loop_body-IsServing e, server_serves_on (loop_body w e false).0 n ts)

  -- A client whose relay fails leaves the loop at once, with its session `failed`.
  pub client_stops_on_failure :
      (e : TunnelEngine w) (ss : List Signal)
      → e.config.role ≡ Role.client
      → e.data_plane_stop_requested ≡ false
      → e.session.state ≡ established
      → (relay_batch w e (batch_size_of w e)).1 ≡ false
      → (run_data_plane w (quiet ∷ ss) e).session.state ≡ failed
  unfolding run_data_plane loop_body relay_round can_send_data transition_to
  client_stops_on_failure e ss r q h f = ground (
    arith,
    relay_batch-keeps w e (batch_size_of w e),
    relay_batch-session w e (batch_size_of w e) h,
  )

  -- A stop that is requested before a round ends the loop before anything is relayed.
  pub stop_ends_loop :
      (e : TunnelEngine w) (during : Bool) (ss : List Signal)
      → run_data_plane w (record { before = true; during = during } ∷ ss) e
        ≡ request_data_plane_stop w e
  unfolding run_data_plane request_data_plane_stop
  stop_ends_loop e during ss = ground arith
