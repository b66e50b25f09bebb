-- ===== src/Engine/Calls.antt =====
-- Any calls of the engine, from its constructor on.
use secure_tunnel_cpp.Prelude.{ℕ, ◌*◌, List, [], ◌∷◌, length}
use secure_tunnel_cpp.Session.Life.{IsWithin, IsWithin-here}
use secure_tunnel_cpp.Engine.{Parts, TunnelEngine, start, ensure_session_ready}
use secure_tunnel_cpp.Engine.Forward.{relay_batch}
use secure_tunnel_cpp.Engine.Loop.{
  reset_server_session, stop, run_data_plane, Signal, request_data_plane_stop,
}
use secure_tunnel_cpp.Engine.StartLife.{start-IsWithin, ensure_session_ready-IsWithin}
use secure_tunnel_cpp.Engine.RunLife.{
  relay_batch-IsWithin, run_data_plane-IsWithin, reset_server_session-IsWithin, stop-IsWithin,
}

-- The public calls.
pub data Call : Type 0 where
  starts : Call
  ensures : Call
  relays : ℕ → Call
  runs : List Signal → Call
  requests_stop : Call
  resets : Call
  stops : Call

-- How many moves a call makes at most; a round of the data plane makes at most six.
pub most_moves : Call → ℕ
most_moves starts = 3
most_moves ensures = 1
most_moves (relays n) = 1
most_moves (runs signals) = 6 * length signals
most_moves requests_stop = 0
most_moves resets = 4
most_moves stops = 2

module _ (w : Parts) where
  unfoldable pub step : TunnelEngine w → Call → TunnelEngine w
  step e starts = (start w e).0
  step e ensures = (ensure_session_ready w e).0
  step e (relays n) = (relay_batch w e n).0
  step e (runs signals) = run_data_plane w signals e
  step e requests_stop = request_data_plane_stop w e
  step e resets = reset_server_session w e
  step e stops = stop w e

  unfoldable pub run : TunnelEngine w → List Call → TunnelEngine w
  run e [] = e
  run e (c ∷ cs) = run (step e c) cs

  -- The engine keeps to the session's legal transitions: whatever state an engine is in and whatever its
  -- parts answer, a call moves its session along their arrows alone, at most three for
  -- `start`, one for `ensure_session_ready` and `relay_batch`, six for each round of the data plane,
  -- four for a reset, two for `stop` and none for a request to stop; the epoch goes up by one (modulo
  -- 2^64) with each arrow into `established` and with no other.
  pub step-IsWithin :
      (e : TunnelEngine w) (c : Call) → IsWithin (most_moves c) e.session (step e c).session
  unfolding step most_moves request_data_plane_stop
  step-IsWithin e starts = start-IsWithin w e
  step-IsWithin e ensures = ensure_session_ready-IsWithin w e
  step-IsWithin e (relays n) = relay_batch-IsWithin w e n
  step-IsWithin e (runs signals) = run_data_plane-IsWithin w signals e
  step-IsWithin e requests_stop = IsWithin-here
  step-IsWithin e resets = reset_server_session-IsWithin w e
  step-IsWithin e stops = stop-IsWithin w e
