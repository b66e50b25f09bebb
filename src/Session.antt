-- ===== src/Session.antt =====
-- include/tunnel/session.hpp and src/session.cpp: the life cycle of one connection.
-- `epoch_` is a std::uint64_t, so its increment wraps.
pub mod Machine
pub mod Reset
pub mod Life
use secure_tunnel_cpp.Prelude.{
  ℕ, ◌+◌, ◌%◌, ◌^◌, ◌≡◌, refl, Bool, true, false, ◌&&◌, ◌||◌, not, if◌then◌else◌,
}

pub data SessionState : Type 0 where
  stopped connecting handshaking established closing failed : SessionState

-- `==` of two states.
abbrev pub state_eq : SessionState → SessionState → Bool
state_eq stopped stopped = true
state_eq connecting connecting = true
state_eq handshaking handshaking = true
state_eq established established = true
state_eq closing closing = true
state_eq failed failed = true
state_eq _ _ = false

pub record Session : Type 0 where
  pub state : SessionState
  pub epoch : ℕ

abbrev pub initial : Session
initial = record { state = stopped; epoch = 0 }

unfoldable pub can_send_data : Session → Bool
can_send_data s = state_eq s.state established

-- The disjunction that `transition_to` computes.
unfoldable pub allowed : SessionState → SessionState → Bool
allowed from next =
    (state_eq from stopped && state_eq next connecting)
    || ((state_eq from connecting && state_eq next handshaking)
        || ((state_eq from handshaking && state_eq next established)
            || ((state_eq from established && state_eq next closing)
                || ((state_eq from closing && state_eq next stopped)
                    || ((not (state_eq from stopped) && state_eq next failed)
                        || (state_eq from failed && state_eq next stopped))))))

unfoldable pub transition_to : Session → SessionState → Session × Bool
unfolding allowed
transition_to s next = if not (allowed s.state next) then (s, false) else (
  record {
    state = next;
    epoch = if state_eq next established then (s.epoch + 1) % 2 ^ 64 else s.epoch;
  },
  true,
)

-- The first `if` of `reset_to_handshaking`, then the second, then the third.
abbrev pub leave_established : Session → Session
leave_established s = if state_eq s.state established then (transition_to s closing).0 else s

abbrev pub leave_closing : Session → Session
leave_closing s =
    if state_eq s.state closing || state_eq s.state failed then (transition_to s stopped).0 else s

abbrev pub leave_stopped : Session → Session
leave_stopped s = if state_eq s.state stopped then (transition_to s connecting).0 else s

unfoldable pub reset_to_handshaking : Session → Session × Bool
unfolding transition_to
reset_to_handshaking s =
    let s' = leave_stopped (leave_closing (leave_established s)) in
    if state_eq s'.state connecting
    then transition_to s' handshaking
    else (s', state_eq s'.state handshaking)
