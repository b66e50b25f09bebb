-- ===== src/Quic/Framing/Bounds.antt =====
-- The receive loop ends, and bounds what it keeps.
use secure_tunnel_cpp.Prelude.{
  ℕ, zero, suc, ◌+◌, ◌<◌, ◌≡◌, inl, inr, ◌||◌, some, List, [], ◌∷◌, ◌++◌, arith, ltb, ◌==◌,
  Bool-cases, length, take, drop, length-drop, Bytes,
}
use secure_tunnel_cpp.Quic.Framing.{
  Received, drain, append_received_bytes, frame_size_of, max_frame_size,
}

-- The loop ends, and leaves less than one frame of the largest size behind.
drain_bounds :
    (fuel : ℕ) (c : Received)
    → length c.reassembly < fuel
    → (d : Received) × (drain fuel c ≡ some d) × (length d.reassembly < 4 + max_frame_size)
unfolding drain
drain_bounds zero c h = absurd (omega arith)
drain_bounds (suc fuel) c h =
    let size = frame_size_of c.reassembly in
    elim (Bool-cases (ltb (length c.reassembly) 4)) [
      | inl short ↦ (c, ground arith, ground arith)
      | inr long ↦ elim (Bool-cases (size == 0 || ltb max_frame_size size)) [
        | inl bad ↦ (record c { reassembly = [] }, ground arith, omega arith)
        | inr good ↦ elim (Bool-cases (ltb (length c.reassembly) (4 + size))) [
          | inl part ↦ (c, ground arith, ground arith)
          | inr whole ↦
              let rest : Received = record {
                frames = c.frames ++ take size (drop 4 c.reassembly) ∷ [];
                reassembly = drop (4 + size) c.reassembly;
              } in
              let (d, e, b) =
                drain_bounds fuel rest (ground (arith, length-drop (4 + size) c.reassembly)) in
              (d, ground (arith, e), b)
        ]
      ]
    ]

-- Whatever bytes a peer sends, in whatever buffers, a receive event is handled to its end, and
-- afterwards fewer than 65540 bytes wait for the rest of their frame.
pub append_received_bytes_bounds :
    (c : Received) (buffers : List Bytes)
    → (d : Received) × (append_received_bytes c buffers ≡ some d)
      × (length d.reassembly < 4 + max_frame_size)
unfolding append_received_bytes
append_received_bytes_bounds c buffers = drain_bounds _ _ (omega arith)
