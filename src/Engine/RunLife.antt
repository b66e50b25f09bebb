-- ===== src/Engine/RunLife.antt =====
-- The data plane and `stop` as moves of the abstract machine of Session/Life.antt.
use secure_tunnel_cpp.Prelude.{
  ℕ, ◌*◌, ◌≡◌, sym, subst, ◌⊎◌, inl, inr, Bool, ◌&&◌, not, List, [], ◌∷◌, arith, if-both, length,
}
use secure_tunnel_cpp.Session.{
  failed, transition_to, reset_to_handshaking, can_send_data, leave_established, leave_closing,
}
use secure_tunnel_cpp.Session.Life.{
  IsWithin, IsWithin-here, IsWithin-trans, IsWithin-le, transition_to-IsWithin,
  reset_to_handshaking-IsWithin, leave_established-IsWithin, leave_closing-IsWithin,
}
use secure_tunnel_cpp.Config.{is_server}
use secure_tunnel_cpp.Engine.{Parts, TunnelEngine, ensure_session_ready}
use secure_tunnel_cpp.Engine.Forward.{relay_batch}
use secure_tunnel_cpp.Engine.Loop.{
  reset_server_session, stop, relay_round, wait_or_relay, loop_body, requested, run_data_plane,
  Signal, batch_size_of, request_data_plane_stop,
}
use secure_tunnel_cpp.Engine.Ready.{relay_ready-Keeps}
use secure_tunnel_cpp.Engine.StartLife.{ensure_session_ready-IsWithin}

module _ (w : Parts) where
  abbrev Lives : TunnelEngine w → TunnelEngine w × Bool → Type 0
  Lives e r = IsWithin 6 e.session r.0.session

  relay_batch-ends :
      (e : TunnelEngine w) (n : ℕ)
      → ((relay_batch w e n).0.session ≡ e.session)
        ⊎ ((relay_batch w e n).0.session ≡ (ensure_session_ready w e).0.session)
  unfolding relay_batch
  relay_batch-ends e n =
      ground (arith, relay_ready-Keeps w e n, relay_ready-Keeps w (ensure_session_ready w e).0 n)

  pub relay_batch-IsWithin :
      (e : TunnelEngine w) (n : ℕ) → IsWithin 1 e.session (relay_batch w e n).0.session
  relay_batch-IsWithin e n = elim (relay_batch-ends e n) [
    | inl same ↦ subst (IsWithin 1 e.session) (sym same) IsWithin-here
    | inr on ↦ subst (IsWithin 1 e.session) (sym on) (ensure_session_ready-IsWithin w e)
  ]

  pub reset_server_session-IsWithin :
      (e : TunnelEngine w) → IsWithin 4 e.session (reset_server_session w e).session
  unfolding reset_server_session
  reset_server_session-IsWithin e =
      if-both (λ (r : TunnelEngine w). IsWithin 4 e.session r.session)
        (not (is_server e.config.role)) IsWithin-here (reset_to_handshaking-IsWithin e.session)

  -- A round keeps what the batch leaves, or ends it.
  relay_round-ends :
      (e : TunnelEngine w) (b : Bool)
      → ((relay_round w e b).0.session ≡ (relay_batch w e (batch_size_of w e)).0.session)
        ⊎ (((relay_round w e b).0.session
              ≡ (reset_to_handshaking (relay_batch w e (batch_size_of w e)).0.session).0)
            ⊎ ((relay_round w e b).0.session
                ≡ (transition_to (relay_batch w e (batch_size_of w e)).0.session failed).0))
  unfolding relay_round reset_server_session request_data_plane_stop
  relay_round-ends e b = ground arith

  relay_round-IsWithin :
      (e : TunnelEngine w) (b : Bool) → IsWithin 5 e.session (relay_round w e b).0.session
  relay_round-IsWithin e b =
      let s = (relay_batch w e (batch_size_of w e)).0.session in
      IsWithin-trans 1 4 5 (omega arith) (relay_batch-IsWithin e (batch_size_of w e))
        (elim (relay_round-ends e b) [
          | inl same ↦ subst (IsWithin 4 s) (sym same) IsWithin-here
          | inr (inl again) ↦ subst (IsWithin 4 s) (sym again) (reset_to_handshaking-IsWithin s)
          | inr (inr lost) ↦
              subst (IsWithin 4 s) (sym lost)
                (IsWithin-le 1 4 (omega arith) (transition_to-IsWithin s failed))
        ])

  wait_or_relay-IsWithin :
      (e : TunnelEngine w) (b : Bool) → IsWithin 5 e.session (wait_or_relay w e b).0.session
  unfolding wait_or_relay
  wait_or_relay-IsWithin e b =
      if-both (λ (r : TunnelEngine w × Bool). IsWithin 5 e.session r.0.session)
        (can_send_data e.session) (relay_round-IsWithin e b)
        (if-both (λ (r : TunnelEngine w × Bool). IsWithin 5 e.session r.0.session)
          (is_server e.config.role && not e.data_plane_stop_requested)
          (IsWithin-le 4 5 (omega arith) (reset_server_session-IsWithin e)) IsWithin-here)

  loop_body-ends :
      (e : TunnelEngine w) (b : Bool)
      → (loop_body w e b ≡ relay_round w e b)
        ⊎ ((loop_body w e b ≡ wait_or_relay w e b)
            ⊎ (((loop_body w e b).0.session ≡ (ensure_session_ready w e).0.session)
                ⊎ (loop_body w e b ≡ wait_or_relay w (ensure_session_ready w e).0 b)))
  unfolding loop_body
  loop_body-ends e b = ground arith

  loop_body-IsWithin :
      (e : TunnelEngine w) (b : Bool) → IsWithin 6 e.session (loop_body w e b).0.session
  loop_body-IsWithin e b = elim (loop_body-ends e b) [
    | inl at ↦ subst (Lives e) (sym at) (IsWithin-le 5 6 (omega arith) (relay_round-IsWithin e b))
    | inr (inl at) ↦
        subst (Lives e) (sym at) (IsWithin-le 5 6 (omega arith) (wait_or_relay-IsWithin e b))
    | inr (inr (inl at)) ↦
        subst (IsWithin 6 e.session) (sym at)
          (IsWithin-le 1 6 (omega arith) (ensure_session_ready-IsWithin w e))
    | inr (inr (inr at)) ↦ subst (Lives e) (sym at) (
        IsWithin-trans 1 5 6 (omega arith) (ensure_session_ready-IsWithin w e)
          (wait_or_relay-IsWithin (ensure_session_ready w e).0 b))
  ]

  -- Asking for a stop does not touch the session.
  requested-session : (e : TunnelEngine w) (b : Bool) → (requested w b e).session ≡ e.session
  unfolding request_data_plane_stop
  requested-session e b = ground arith

  pub run_data_plane-IsWithin :
      (signals : List Signal) (e : TunnelEngine w)
      → IsWithin (6 * length signals) e.session (run_data_plane w signals e).session
  unfolding run_data_plane
  run_data_plane-IsWithin [] e = IsWithin-here
  run_data_plane-IsWithin (s ∷ ss) e =
      let e' = requested w s.before e in
      let r = loop_body w e' s.during in
      let rest = run_data_plane-IsWithin ss r.0 in
      subst (λ x. IsWithin (6 * length (s ∷ ss)) x (run_data_plane w (s ∷ ss) e).session)
        (requested-session e s.before)
        (if-both (λ (x : TunnelEngine w). IsWithin (6 * length (s ∷ ss)) e'.session x.session)
          e'.data_plane_stop_requested IsWithin-here
          (if-both (λ (x : TunnelEngine w). IsWithin (6 * length (s ∷ ss)) e'.session x.session) r.1
            (IsWithin-trans 6 (6 * length ss) (6 * length (s ∷ ss)) (omega arith)
              (loop_body-IsWithin e' s.during) rest)
            (IsWithin-le 6 (6 * length (s ∷ ss)) (omega arith) (loop_body-IsWithin e' s.during))))

  -- `stop` leaves `established`, and then `closing` or `failed`.
  stop-session :
      (e : TunnelEngine w) → (stop w e).session ≡ leave_closing (leave_established e.session)
  unfolding stop
  stop-session e = ground arith

  pub stop-IsWithin : (e : TunnelEngine w) → IsWithin 2 e.session (stop w e).session
  stop-IsWithin e = subst (IsWithin 2 e.session) (sym (stop-session e)) (
      IsWithin-trans 1 1 2 (omega arith) (leave_established-IsWithin e.session)
        (leave_closing-IsWithin (leave_established e.session)))
