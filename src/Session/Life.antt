-- ===== src/Session/Life.antt =====
-- The life of a session as an abstract machine.
use secure_tunnel_cpp.Prelude.{
  ℕ, ◌+◌, ◌%◌, ◌^◌, ◌≤◌, ◌≡◌, sym, subst, ◌≢◌, inl, inr, Bool, true, false, ◌||◌, arith,
  if◌then◌else◌, Bool-cases, if-both,
}
use secure_tunnel_cpp.Session.{
  SessionState, leave_established, leave_closing, leave_stopped, allowed, established, closing,
  failed, stopped, connecting, handshaking, Session, transition_to, reset_to_handshaking, state_eq,
}
use secure_tunnel_cpp.Session.Machine.{Legal, transition_to-iff-Legal}

-- Moves along the arrows of the session's legal transitions; only the one into `established` changes the
-- epoch, which it takes to the next number of 64 bits.
pub data Life : Session → Session → Type 0 where
  here : {s : Session} → Life s s
  moves :
      {s t : Session} {n : SessionState}
      → Legal s.state n
      → n ≢ established
      → Life (record { state = n; epoch = s.epoch }) t
      → Life s t
  connects :
      {s t : Session}
      → Legal s.state established
      → Life (record { state = established; epoch = (s.epoch + 1) % 2 ^ 64 }) t
      → Life s t

pub Life-trans : {s t u : Session} → Life s t → Life t u → Life s u
Life-trans here q = q
Life-trans (moves l other p) q = moves l other (Life-trans p q)
Life-trans (connects l p) q = connects l (Life-trans p q)

-- The number of moves.
pub count : {s t : Session} → Life s t → ℕ
count here = 0
count (moves l other p) = 1 + count p
count (connects l p) = 1 + count p

count-Life-trans :
    {s t u : Session} (p : Life s t) (q : Life t u) → count (Life-trans p q) ≡ count p + count q
unfolding Life-trans count
count-Life-trans here q = omega arith
count-Life-trans (moves l other p) q = omega (arith, count-Life-trans p q)
count-Life-trans (connects l p) q = omega (arith, count-Life-trans p q)

-- In at most so many moves.
abbrev pub IsWithin : ℕ → Session → Session → Type 0
IsWithin n s t = (p : Life s t) × (count p ≤ n)

pub IsWithin-here : {n : ℕ} {s : Session} → IsWithin n s s
unfolding count
IsWithin-here = (here, omega arith)

pub IsWithin-trans :
    {s t u : Session} (m n k : ℕ) → m + n ≤ k → IsWithin m s t → IsWithin n t u → IsWithin k s u
IsWithin-trans m n k h (p, a) (q, b) = (Life-trans p q, omega (arith, count-Life-trans p q))

pub IsWithin-le : {s t : Session} (m n : ℕ) → m ≤ n → IsWithin m s t → IsWithin n s t
IsWithin-le m n h (p, a) = (p, omega arith)

-- An accepted move.
Legal-IsWithin :
    (s : Session) (n : SessionState)
    → Legal s.state n
    → IsWithin 1 s (record {
      state = n;
      epoch = if state_eq n established then (s.epoch + 1) % 2 ^ 64 else s.epoch;
    })
unfolding count
Legal-IsWithin s stopped l = (moves l (λ e. cc) here, omega arith)
Legal-IsWithin s connecting l = (moves l (λ e. cc) here, omega arith)
Legal-IsWithin s handshaking l = (moves l (λ e. cc) here, omega arith)
Legal-IsWithin s established l = (connects l here, omega arith)
Legal-IsWithin s closing l = (moves l (λ e. cc) here, omega arith)
Legal-IsWithin s failed l = (moves l (λ e. cc) here, omega arith)

pub transition_to-IsWithin : (s : Session) (n : SessionState) → IsWithin 1 s (transition_to s n).0
unfolding transition_to
transition_to-IsWithin s n = elim (Bool-cases (allowed s.state n)) [
  | inl ok ↦
      subst (IsWithin 1 s) (sym (accepted ok))
        (Legal-IsWithin s n ((transition_to-iff-Legal s n).0 (ground arith)))
  | inr bad ↦ subst (IsWithin 1 s) (sym (refused bad)) IsWithin-here
]
  where
    accepted :
        allowed s.state n ≡ true
        → (transition_to s n).0 ≡ record {
          state = n;
          epoch = if state_eq n established then (s.epoch + 1) % 2 ^ 64 else s.epoch;
        }
    accepted ok = ground arith

    refused : allowed s.state n ≡ false → (transition_to s n).0 ≡ s
    refused bad = ground arith

pub leave_established-IsWithin : (s : Session) → IsWithin 1 s (leave_established s)
leave_established-IsWithin s =
    if-both (IsWithin 1 s) (state_eq s.state established) (transition_to-IsWithin s closing)
      IsWithin-here

pub leave_closing-IsWithin : (s : Session) → IsWithin 1 s (leave_closing s)
leave_closing-IsWithin s =
    if-both (IsWithin 1 s) (state_eq s.state closing || state_eq s.state failed)
      (transition_to-IsWithin s stopped) IsWithin-here

pub reset_to_handshaking-IsWithin : (s : Session) → IsWithin 4 s (reset_to_handshaking s).0
unfolding reset_to_handshaking
reset_to_handshaking-IsWithin s =
    let s1 = leave_established s in
    let s2 = leave_closing s1 in
    let s3 = leave_stopped s2 in
    let to3 : IsWithin 1 s2 s3 =
      if-both (IsWithin 1 s2) (state_eq s2.state stopped) (transition_to-IsWithin s2 connecting)
        IsWithin-here in
    IsWithin-trans 1 3 4 (omega arith) (leave_established-IsWithin s) (
      IsWithin-trans 1 2 3 (omega arith) (leave_closing-IsWithin s1) (
        IsWithin-trans 1 1 2 (omega arith) to3 (
          if-both (λ (r : Session × Bool). IsWithin 1 s3 r.0) (state_eq s3.state connecting)
            (transition_to-IsWithin s3 handshaking) IsWithin-here)))
