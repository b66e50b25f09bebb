-- ===== src/Session/Reset.antt =====
-- `reset_to_handshaking`: what it returns and where it ends, from every state.
use secure_tunnel_cpp.Prelude.{◌≡◌, true, arith}
use secure_tunnel_cpp.Session.{handshaking, Session, reset_to_handshaking}

-- From every state the reset succeeds: it returns true, ends in `handshaking`, and does not touch
-- the epoch.
pub reset_to_handshaking_lem :
    (s : Session)
    → ((reset_to_handshaking s).1 ≡ true)
      × ((reset_to_handshaking s).0.state ≡ handshaking)
      × ((reset_to_handshaking s).0.epoch ≡ s.epoch)
unfolding reset_to_handshaking
reset_to_handshaking_lem s = ground arith
