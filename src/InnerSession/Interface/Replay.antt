-- ===== src/InnerSession/Interface/Replay.antt =====
-- Replay protection of any session whose receive counter is guarded, against any frames.
use secure_tunnel_cpp.Prelude.{
  ℕ, ◌≤◌, ◌<◌, ◌≡◌, true, false, List, [], ◌∷◌, arith, if◌then◌else◌, Bytes,
}
use secure_tunnel_cpp.InnerSession.Codec.{read_u64_be}
use secure_tunnel_cpp.InnerSession.Interface.{InnerSession, IsGuarded}

-- Every number of the list is above `n` and above the one before it.
abbrev pub Ascending : ℕ → List ℕ → Type 0
Ascending n [] = Unit {0}
Ascending n (q ∷ qs) = (n < q) × Ascending q qs

module _ (i : InnerSession) where
  -- A receiver takes the frames in turn.
  pub receive : i.State → List Bytes → i.State
  receive s [] = s
  receive s (c ∷ cs) = receive (i.open' s c []).0 cs

  -- The sequences of the frames that it accepts.
  pub accepted : i.State → List Bytes → List ℕ
  accepted s [] = []
  accepted s (c ∷ cs) =
      let rest = accepted (i.open' s c []).0 cs in
      if (i.open' s c []).2 then read_u64_be c 1 ∷ rest else rest

module _ (i : InnerSession) (g : IsGuarded i) where
  pub accepted-Ascending : (s : i.State) (cs : List Bytes) → Ascending (g.last s) (accepted i s cs)
  unfolding accepted
  accepted-Ascending s [] = tt
  accepted-Ascending s (c ∷ cs) =
      ground (arith, g.counter s c [], accepted-Ascending (i.open' s c []).0 cs)

  last-le-receive : (s : i.State) (cs : List Bytes) → g.last s ≤ g.last (receive i s cs)
  unfolding receive
  last-le-receive s [] = omega arith
  last-le-receive s (c ∷ cs) =
      ground (arith, g.counter s c [], last-le-receive (i.open' s c []).0 cs)

  pub replay_refused :
      (s : i.State) (c : Bytes) (cs : List Bytes) (old : Bytes)
      → (i.open' s c []).2 ≡ true
      → ((i.open' (receive i (i.open' s c []).0 cs) c old).2 ≡ false)
        × ((i.open' (receive i (i.open' s c []).0 cs) c old).1 ≡ old)
  replay_refused s c cs old h = ground (
    arith,
    g.counter s c [],
    last-le-receive (i.open' s c []).0 cs,
    g.counter (receive i (i.open' s c []).0 cs) c old,
  )
