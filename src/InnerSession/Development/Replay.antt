-- ===== src/InnerSession/Development/Replay.antt =====
-- Replay protection of the development session.
use secure_tunnel_cpp.Prelude.{◌≡◌, true, false, List, [], arith, Bytes}
use secure_tunnel_cpp.InnerSession.Interface.{InnerSession, IsGuarded}
use secure_tunnel_cpp.InnerSession.Interface.Replay.{Ascending, accepted, receive}
use secure_tunnel_cpp.InnerSession.Interface.Replay
use secure_tunnel_cpp.InnerSession.Development.{DevelopmentInnerSession, seal, open'}

-- The class as an implementation of the interface.
abbrev pub development : InnerSession
development = record {
  State = DevelopmentInnerSession;
  is_ready = λ _. true;
  seal = seal;
  open' = open';
}

-- The received counter guards the session.
pub development-IsGuarded : IsGuarded development
unfolding open'
development-IsGuarded = record {
  last = λ s. s.last_received_sequence;
  counter = λ s c old. ground arith;
}

-- Whatever frames arrive, forged, repeated or out of order, the sequences of those that the
-- development session accepts strictly ascend, from above its received counter.
pub development_ascends :
    (s : DevelopmentInnerSession) (cs : List Bytes)
    → Ascending s.last_received_sequence (accepted development s cs)
unfolding development-IsGuarded
development_ascends s cs = Replay.accepted-Ascending development development-IsGuarded s cs

-- Once the development session has accepted a frame, it refuses the same frame for ever: after any
-- further frames its replay gives false and leaves the output as it was.
pub development_replay_refused :
    (s : DevelopmentInnerSession) (c : Bytes) (cs : List Bytes) (old : Bytes)
    → (open' s c []).2 ≡ true
    → ((open' (receive development (open' s c []).0 cs) c old).2 ≡ false)
      × ((open' (receive development (open' s c []).0 cs) c old).1 ≡ old)
development_replay_refused s c cs old h =
    Replay.replay_refused development development-IsGuarded s c cs old h
