-- ===== src/Engine/Ready.antt =====
-- The engine's invariant: an established session has an inner session to seal and open with.
use secure_tunnel_cpp.Prelude.{
  ℕ, zero, suc, ◌+◌, ◌%◌, ◌^◌, ◌≡◌, refl, ◌⊎◌, true, false, arith, ltb, if◌then◌else◌,
}
use secure_tunnel_cpp.Engine.{Parts, TunnelEngine, has_inner, ensure_session_ready, ensure_routed}
use secure_tunnel_cpp.Session.{handshaking, established, failed, transition_to, can_send_data}
use secure_tunnel_cpp.Engine.Forward.{
  forward_outbound, forward_inbound_batch, inbound_loop, inbound_round, relay_ready, relay_batch,
}

module _ (w : Parts) where
  -- What an operation of the data path keeps: the session, the configuration, and that there is an
  -- inner session.
  abbrev pub Keeps : TunnelEngine w → TunnelEngine w → Type 0
  Keeps e r =
      (r.session ≡ e.session)
      × (r.config ≡ e.config)
      × (has_inner w r ≡ has_inner w e)
      × (r.data_plane_stop_requested ≡ e.data_plane_stop_requested)

  pub forward_outbound-Keeps : (e : TunnelEngine w) → Keeps e (forward_outbound w e).0
  unfolding forward_outbound
  forward_outbound-Keeps e = ground arith

  pub inbound_round-Keeps : (e : TunnelEngine w) → Keeps e (inbound_round w e).0
  unfolding inbound_round
  inbound_round-Keeps e = ground arith

  inbound_loop-Keeps : (n : ℕ) (e : TunnelEngine w) (k : ℕ) → Keeps e (inbound_loop w n e k).0
  unfolding inbound_loop
  inbound_loop-Keeps zero e k = (refl, refl, refl, refl)
  inbound_loop-Keeps (suc n) e k =
      ground (arith, inbound_round-Keeps e, inbound_loop-Keeps n (inbound_round w e).0 (k + 1))

  forward_inbound_batch-Keeps :
      (e : TunnelEngine w) (n : ℕ) → Keeps e (forward_inbound_batch w e n).0
  unfolding forward_inbound_batch
  forward_inbound_batch-Keeps e n = ground (arith, inbound_loop-Keeps n e 0)

  -- What `ensure_session_ready` may do: nothing to an established session; else, for a server that
  -- waits, it establishes, waits on, or fails.
  pub relay_ready-Keeps : (e : TunnelEngine w) (n : ℕ) → Keeps e (relay_ready w e n).0
  unfolding relay_ready
  relay_ready-Keeps e n =
      let s = e.relay_stats in
      let e1 : TunnelEngine w = record e {
        relay_stats = record s { relay_iterations = (s.relay_iterations + 1) % 2 ^ 64 };
      } in
      ground (
        arith,
        forward_outbound-Keeps e1,
        forward_inbound_batch-Keeps (forward_outbound w e1).0 (if ltb 0 n then n else 1),
      )

  -- `ensure_session_ready` on each of its branches: it returns true on an established session,
  -- which it leaves alone, and where it establishes one, under the next epoch; it returns false
  -- where the session stays as it is and where it fails.
  pub ensure_session_ready_outcome :
      (e : TunnelEngine w)
      → (((ensure_session_ready w e).1 ≡ true)
          × (e.session.state ≡ established)
          × (ensure_session_ready w e ≡ (e, true)))
        ⊎ ((((ensure_session_ready w e).1 ≡ true)
              × (e.session.state ≡ handshaking)
              × ((ensure_session_ready w e).0.session.state ≡ established)
              × ((ensure_session_ready w e).0.session.epoch ≡ (e.session.epoch + 1) % 2 ^ 64)
              × (has_inner w e ≡ true))
            ⊎ (((ensure_session_ready w e).1 ≡ false)
                × (((ensure_session_ready w e).0.session ≡ e.session)
                    ⊎ ((ensure_session_ready w e).0.session.state ≡ failed))
                × (can_send_data (ensure_session_ready w e).0.session ≡ false)))
  unfolding ensure_session_ready ensure_routed transition_to can_send_data
  ensure_session_ready_outcome e = ground arith

  -- What it never changes.
  pub ensure_session_ready-keeps :
      (e : TunnelEngine w)
      → ((ensure_session_ready w e).0.config ≡ e.config)
        × ((ensure_session_ready w e).0.inner_session ≡ e.inner_session)
        × ((ensure_session_ready w e).0.data_plane_stop_requested ≡ e.data_plane_stop_requested)
        × ((ensure_session_ready w e).0.relay_stats ≡ e.relay_stats)
  unfolding ensure_session_ready ensure_routed
  ensure_session_ready-keeps e = ground arith

  pub relay_batch-keeps :
      (e : TunnelEngine w) (n : ℕ)
      → ((relay_batch w e n).0.config ≡ e.config)
        × ((relay_batch w e n).0.data_plane_stop_requested ≡ e.data_plane_stop_requested)
  unfolding relay_batch
  relay_batch-keeps e n = ground (
    arith,
    relay_ready-Keeps e n,
    ensure_session_ready-keeps e,
    relay_ready-Keeps (ensure_session_ready w e).0 n,
  )

  -- An established session stays as it is while packets are relayed.
  pub relay_batch-session :
      (e : TunnelEngine w) (n : ℕ)
      → e.session.state ≡ established
      → (relay_batch w e n).0.session ≡ e.session
  unfolding relay_batch can_send_data
  relay_batch-session e n h = ground (arith, relay_ready-Keeps e n)

  -- An established session has an inner session.
  abbrev pub IsLive : TunnelEngine w → Type 0
  IsLive e = (can_send_data e.session ≡ false) ⊎ (has_inner w e ≡ true)

  -- Relaying keeps the invariant that an established session has an inner session.
  pub relay_batch-IsLive : (e : TunnelEngine w) (n : ℕ) → IsLive e → IsLive (relay_batch w e n).0
  unfolding relay_batch
  relay_batch-IsLive e n live = ground (
    arith,
    relay_ready-Keeps e n,
    ensure_session_ready_outcome e,
    ensure_session_ready-keeps e,
    relay_ready-Keeps (ensure_session_ready w e).0 n,
  )
