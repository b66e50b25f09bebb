-- ===== src/InnerSession/Interface.antt =====
-- The abstract class `InnerSession` of include/tunnel/inner_session.hpp: what the engine uses of a
-- session, and the law of its receive counter, which both implementations are shown to meet.
pub mod Replay
use secure_tunnel_cpp.Prelude.{
  ℕ, zero, suc, ◌+◌, ◌-◌, ◌*◌, ◌/◌, ◌%◌, ◌^◌, ◌≤◌, ◌<◌, min, max, bit_and, ◌≡◌, refl, sym, ap, ◌∙◌,
  subst, ◌≢◌, ◌↔◌, ◌⊎◌, inl, inr, Bool, true, false, ◌&&◌, ◌||◌, not, Option, none, some, List, [],
  ◌∷◌, ◌++◌, map, append-nil, append_assoc, arith, ltb, leb, ◌==◌, if◌then◌else◌, ltb→lt, lt→ltb,
  leb→le, ltb→le, le→ltb, ==_iff, ==_refl, Bool-cases, Option-cases, length, get_or, take, drop,
  length-append, length-take, length-drop, take-append, drop-append, take_all, take-append_drop,
  take_prefix, drop_prefix, drop-drop, All, All-append, All-take, All-drop, Bytes, IsByte, codes,
  is_empty, text_eq, text_eq_sound, text_eq_refl,
}
use secure_tunnel_cpp.InnerSession.Codec.{read_u64_be}

-- The object is a state that `seal` and `open'` return anew, with the out parameter and the result.
pub record InnerSession : Type 1 where
  pub State : Type 0
  pub is_ready : State → Bool
  pub seal : State → Bytes → Bytes → State × Bytes × Bool
  pub open' : State → Bytes → Bytes → State × Bytes × Bool

-- An accepted frame's sequence was above the counter, and is the counter now; a refused frame
-- leaves the counter and the output as they were.
pub record IsGuarded (i : InnerSession) : Type 0 where
  pub last : i.State → ℕ
  pub counter :
      (s : i.State) (c old : Bytes)
      → (((i.open' s c old).2 ≡ true)
          × (last (i.open' s c old).0 ≡ read_u64_be c 1)
          × (last s < read_u64_be c 1))
        ⊎ (((i.open' s c old).2 ≡ false)
            × (last (i.open' s c old).0 ≡ last s)
            × ((i.open' s c old).1 ≡ old))
