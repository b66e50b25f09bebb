-- ===== src/Quic/Framing/Drain.antt =====
-- The loop of `append_received_bytes` on the first bytes of a stream of frames.
use secure_tunnel_cpp.Prelude.{
  ℕ, zero, suc, ◌+◌, ◌≤◌, ◌<◌, ◌≡◌, refl, ap, ◌∙◌, inl, inr, Option, some, List, [], ◌∷◌, ◌++◌,
  append-nil, append_assoc, arith, ltb, ltb→lt, ltb→le, Bool-cases, length, drop, length-drop, All,
  Bytes,
}
use secure_tunnel_cpp.Quic.Framing.{Received, drain, frame_buffer}
use secure_tunnel_cpp.Quic.Framing.Buffer.{
  IsSendable, stream, append-eq-nil, first_size, first_payload, first_rest,
}

-- `r` holds no whole frame of the payloads still to come.
abbrev pub Pending : Bytes → List Bytes → Type 0
Pending r [] = r ≡ []
Pending r (p ∷ ps) = length r < 4 + length p

-- What the loop makes of the first bytes of a stream.
pub record Drained (c : Received) (ps : List Bytes) (rest : Bytes) (d : Option Received)
    : Type 0 where
  pub done : List Bytes
  pub left : List Bytes
  pub waiting : Bytes
  pub result : d ≡ some (record { frames = c.frames ++ done; reassembly = waiting })
  pub split : ps ≡ done ++ left
  pub balance : waiting ++ rest ≡ stream left
  pub pending : Pending waiting left

record_nil : (c : Received) → c ≡ record { frames = c.frames ++ []; reassembly = c.reassembly }
record_nil c = rw append-nil refl

record_append :
    (c : Received) (p : Bytes) (done : List Bytes) (waiting : Bytes)
    → ◌≡◌ {A = Received}
        (record { frames = (c.frames ++ p ∷ []) ++ done; reassembly = waiting })
        (record { frames = c.frames ++ p ∷ done; reassembly = waiting })
record_append c p done waiting =
    ap (λ t. record { frames = t; reassembly = waiting }) (append_assoc c.frames (p ∷ []) done)

drain_short : (fuel : ℕ) (c : Received) → length c.reassembly < 4 → drain (suc fuel) c ≡ some c
unfolding drain
drain_short fuel c h = ground arith

module _ (fuel : ℕ) (c : Received) (p rest tail : Bytes) (ok : IsSendable p)
    (e : c.reassembly ++ rest ≡ frame_buffer p ++ tail) where
  drain_part : length c.reassembly < 4 + length p → drain (suc fuel) c ≡ some c
  unfolding drain
  drain_part h = elim (Bool-cases (ltb (length c.reassembly) 4)) [
    | inl short ↦ drain_short fuel c (ltb→lt _ _ short)
    | inr long ↦ ground (arith, first_size c.reassembly rest p tail ok e (ltb→le _ _ long))
  ]

  drain_whole :
      4 + length p ≤ length c.reassembly
      → drain (suc fuel) c
        ≡ drain fuel
            (record { frames = c.frames ++ p ∷ []; reassembly = drop (4 + length p) c.reassembly })
  unfolding drain
  drain_whole h = ground (
    arith,
    first_size c.reassembly rest p tail ok e (omega arith),
    first_payload c.reassembly rest p tail ok e h,
  )

pub drain-stream :
    (fuel : ℕ) (c : Received) (ps : List Bytes) (rest : Bytes)
    → All IsSendable ps
    → c.reassembly ++ rest ≡ stream ps
    → length c.reassembly < fuel
    → Drained c ps rest (drain fuel c)
drain-stream zero c ps rest hp e h = absurd (omega arith)
drain-stream (suc fuel) c [] rest hp e h =
    let empty = append-eq-nil c.reassembly rest e in
    record {
      done = [];
      left = [];
      waiting = c.reassembly;
      result = drain_short fuel c (omega (arith, ap length empty)) ∙ ap some (record_nil c);
      split = refl;
      balance = e;
      pending = empty;
    }
drain-stream (suc fuel) c (p ∷ ps) rest hp e h =
    elim (Bool-cases (ltb (length c.reassembly) (4 + length p))) [
      | inl part ↦ record {
        done = [];
        left = p ∷ ps;
        waiting = c.reassembly;
        result =
            drain_part fuel c p rest (stream ps) hp.0 e (ltb→lt _ _ part) ∙ ap some (record_nil c);
        split = refl;
        balance = e;
        pending = ltb→lt _ _ part;
      }
      | inr whole ↦
          let enough : 4 + length p ≤ length c.reassembly = ltb→le _ _ whole in
          let next : Received = record {
            frames = c.frames ++ p ∷ [];
            reassembly = drop (4 + length p) c.reassembly;
          } in
          let ih : Drained next ps rest (drain fuel next) =
            drain-stream fuel next ps rest hp.1
              (first_rest c.reassembly rest p (stream ps) hp.0 e enough)
              (omega (arith, length-drop (4 + length p) c.reassembly)) in
          record {
            done = p ∷ ih.done;
            left = ih.left;
            waiting = ih.waiting;
            result =
                drain_whole fuel c p rest (stream ps) hp.0 e enough
                ∙ (ih.result ∙ ap some (record_append c p ih.done ih.waiting));
            split = ap (λ t. p ∷ t) ih.split;
            balance = ih.balance;
            pending = ih.pending;
          }
    ]
