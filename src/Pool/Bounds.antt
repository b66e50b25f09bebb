-- ===== src/Pool/Bounds.antt =====
-- The pool never holds more than its capacity, and hands out empty buffers that are large enough.
use secure_tunnel_cpp.Prelude.{
  ℕ, ◌≤◌, ◌<◌, max, ◌≡◌, refl, ap, subst, List, [], ◌∷◌, arith, length, All,
}
use secure_tunnel_cpp.Pool.{
  Buffer, PacketBufferPool, create, acquire, release, available, acquire_from,
}

-- The free list fits the pool, every buffer in it is empty, and both limits are positive.
pub record IsValid (p : PacketBufferPool) : Type 0 where
  pub fits : length p.free_list ≤ p.pool_capacity
  pub room : 0 < p.pool_capacity
  pub sized : 0 < p.default_capacity
  pub cleared : All (λ b. b.contents ≡ []) p.free_list

-- What the engine does with a pool.
pub data Call : Type 0 where
  acquires : ℕ → Call
  releases : Buffer → Call

pub step : PacketBufferPool → Call → PacketBufferPool
step p (acquires n) = (acquire p n).0
step p (releases b) = release p b

pub run : PacketBufferPool → List Call → PacketBufferPool
run p [] = p
run p (c ∷ cs) = run (step p c) cs

acquire_from-IsValid :
    (p : PacketBufferPool) (bs : List Buffer) (n : ℕ)
    → p.free_list ≡ bs
    → IsValid p
    → IsValid (acquire_from p bs n).0
unfolding acquire_from
acquire_from-IsValid p [] n e v = v
acquire_from-IsValid p (b ∷ bs) n e v = record {
  fits = omega (arith, v.fits, ap length e);
  room = v.room;
  sized = v.sized;
  cleared = (subst (All (λ c. c.contents ≡ [])) e v.cleared).1;
}

step-IsValid : (p : PacketBufferPool) (c : Call) → IsValid p → IsValid (step p c)
unfolding step acquire release
step-IsValid p (acquires n) v = acquire_from-IsValid p p.free_list _ refl v
step-IsValid p (releases b) v = ground arith

run-IsValid : (p : PacketBufferPool) (cs : List Call) → IsValid p → IsValid (run p cs)
unfolding run
run-IsValid p [] v = v
run-IsValid p (c ∷ cs) v = run-IsValid (step p c) cs (step-IsValid p c v)

create-IsValid : (m n : ℕ) → IsValid (create m n)
unfolding create
create-IsValid m n = record {
  fits = ground arith;
  room = ground arith;
  sized = ground arith;
  cleared = tt;
}

-- From its constructor on, with any arguments and after any calls, the pool holds at most
-- `pool_capacity` buffers, all of them empty, and both of its limits are positive.
pub run-create-IsValid : (m n : ℕ) (cs : List Call) → IsValid (run (create m n) cs)
run-create-IsValid m n cs = run-IsValid (create m n) cs (create-IsValid m n)

-- Every acquired buffer is empty, and has at least the capacity asked for and the default one.
pub acquire_large :
    (p : PacketBufferPool) (n : ℕ)
    → ((acquire p n).1.contents ≡ [])
      × (n ≤ (acquire p n).1.capacity)
      × (p.default_capacity ≤ (acquire p n).1.capacity)
unfolding acquire
acquire_large p n = ground arith

-- A released buffer is the next one acquired, emptied and grown where it has to be, and the pool
-- is then as it was before; unless the pool was full, when the release does nothing.
pub acquire-release :
    (p : PacketBufferPool) (b : Buffer) (n : ℕ)
    → available p < p.pool_capacity
    → ((acquire (release p b) n).0 ≡ p)
      × ((acquire (release p b) n).1.contents ≡ [])
      × ((acquire (release p b) n).1.capacity ≡ max b.capacity (max n p.default_capacity))
unfolding available release acquire
acquire-release p b n h = ground arith
