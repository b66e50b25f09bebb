-- ===== src/Session/Machine.antt =====
-- The transitions that `transition_to` makes, as a relation, and what holds along any run of calls.
use secure_tunnel_cpp.Prelude.{
  ℕ, ◌+◌, ◌%◌, ◌^◌, ◌<◌, ◌≡◌, refl, ◌≢◌, ◌↔◌, ◌⊎◌, inl, inr, true, false, ◌&&◌, List, [], ◌∷◌,
  arith, if◌then◌else◌, Bool-cases,
}
use secure_tunnel_cpp.Session.{
  SessionState, stopped, connecting, handshaking, established, closing, failed, Session, allowed,
  transition_to, state_eq,
}

-- The session's legal transitions: an arrow for each legal change of state.
pub data Legal : SessionState → SessionState → Type 0 where
  begin : Legal stopped connecting
  reached : Legal connecting handshaking
  agreed : Legal handshaking established
  leave : Legal established closing
  left : Legal closing stopped
  broken : {from : SessionState} → from ≢ stopped → Legal from failed
  recovered : Legal failed stopped

Legal-allowed : {a b : SessionState} → Legal a b → allowed a b ≡ true
unfolding allowed
Legal-allowed begin = refl
Legal-allowed reached = refl
Legal-allowed agreed = refl
Legal-allowed leave = refl
Legal-allowed left = refl
Legal-allowed (broken {from = stopped} h) = absurd (h refl)
Legal-allowed (broken {from = connecting} h) = refl
Legal-allowed (broken {from = handshaking} h) = refl
Legal-allowed (broken {from = established} h) = refl
Legal-allowed (broken {from = closing} h) = refl
Legal-allowed (broken {from = failed} h) = refl
Legal-allowed recovered = refl

allowed-Legal : (a b : SessionState) → allowed a b ≡ true → Legal a b
unfolding allowed
allowed-Legal stopped connecting h = begin
allowed-Legal connecting handshaking h = reached
allowed-Legal handshaking established h = agreed
allowed-Legal established closing h = leave
allowed-Legal closing stopped h = left
allowed-Legal failed stopped h = recovered
allowed-Legal connecting failed h = broken (λ e. cc)
allowed-Legal handshaking failed h = broken (λ e. cc)
allowed-Legal established failed h = broken (λ e. cc)
allowed-Legal closing failed h = broken (λ e. cc)
allowed-Legal failed failed h = broken (λ e. cc)
allowed-Legal _ _ h = cc

-- `transition_to` returns true exactly on the arrows of the session's legal transitions.
pub transition_to-iff-Legal :
    (s : Session) (next : SessionState) → ((transition_to s next).1 ≡ true) ↔ Legal s.state next
unfolding transition_to
transition_to-iff-Legal s next =
    (λ h. allowed-Legal s.state next (ground arith), λ l. ground (arith, Legal-allowed l))

-- What a call of `transition_to` does on each of its branches: a refused one changes nothing; an
-- accepted one enters the state asked for, and the epoch goes up by one (modulo 2^64) exactly when
-- that state is `established`.
pub transition_to_effect :
    (s : Session) (next : SessionState)
    → (((transition_to s next).1 ≡ false) × ((transition_to s next).0 ≡ s))
      ⊎ (((transition_to s next).1 ≡ true)
          × ((transition_to s next).0.state ≡ next)
          × ((transition_to s next).0.epoch
              ≡ (if state_eq next established then (s.epoch + 1) % 2 ^ 64 else s.epoch)))
unfolding transition_to
transition_to_effect s next = elim (Bool-cases (allowed s.state next)) [
  | inl e ↦ inr (ground arith, ground arith, ground arith)
  | inr e ↦ inl (ground arith, ground arith)
]

-- A run of calls of `transition_to`, whatever their results.
pub run : Session → List SessionState → Session
run s [] = s
run s (n ∷ ns) = run (transition_to s n).0 ns

-- The number of calls in a run that establish a connection.
abbrev establishes : Session → SessionState → ℕ
establishes s n = if (transition_to s n).1 && state_eq n established then 1 else 0

pub established_count : Session → List SessionState → ℕ
established_count s [] = 0
established_count s (n ∷ ns) = establishes s n + established_count (transition_to s n).0 ns

epoch-transition_to :
    (s : Session) (n : SessionState)
    → s.epoch < 2 ^ 64
    → ((transition_to s n).0.epoch ≡ (s.epoch + establishes s n) % 2 ^ 64)
      × ((transition_to s n).0.epoch < 2 ^ 64)
unfolding transition_to
epoch-transition_to s n h = ground arith

-- Along any run of calls, refused ones among them, the epoch grows by the number of connections that
-- the run established (modulo 2^64).
pub epoch-run :
    (s : Session) (ns : List SessionState)
    → s.epoch < 2 ^ 64
    → (run s ns).epoch ≡ (s.epoch + established_count s ns) % 2 ^ 64
unfolding run established_count
epoch-run s [] h = omega arith
epoch-run s (n ∷ ns) h =
    let (e, b) = epoch-transition_to s n h in omega (arith, epoch-run (transition_to s n).0 ns b)
