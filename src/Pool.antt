-- ===== src/Pool.antt =====
-- include/tunnel/packet_buffer_pool.hpp and src/packet_buffer_pool.cpp. A vector is its contents
-- and its capacity; `reserve(n)` makes the capacity at least `n`, here exactly the larger of both.
-- The head of `free_list` is the back of the vector.
pub mod Bounds
use secure_tunnel_cpp.Prelude.{
  ℕ, zero, suc, ◌+◌, ◌-◌, ◌*◌, ◌/◌, ◌%◌, ◌^◌, ◌≤◌, ◌<◌, min, max, bit_and, ◌≡◌, refl, sym, ap, ◌∙◌,
  subst, ◌≢◌, ◌↔◌, ◌⊎◌, inl, inr, Bool, true, false, ◌&&◌, ◌||◌, not, Option, none, some, List, [],
  ◌∷◌, ◌++◌, map, append-nil, append_assoc, arith, ltb, leb, ◌==◌, if◌then◌else◌, ltb→lt, lt→ltb,
  leb→le, ltb→le, le→ltb, ==_iff, ==_refl, Bool-cases, Option-cases, length, get_or, take, drop,
  length-append, length-take, length-drop, take-append, drop-append, take_all, take-append_drop,
  take_prefix, drop_prefix, drop-drop, All, All-append, All-take, All-drop, Bytes, IsByte, codes,
  is_empty, text_eq, text_eq_sound, text_eq_refl,
}

pub record Buffer : Type 0 where
  pub contents : Bytes
  pub capacity : ℕ

-- What a move leaves behind, and what a default constructor makes.
abbrev pub empty_buffer : Buffer
empty_buffer = record { contents = []; capacity = 0 }

abbrev pub clear : Buffer → Buffer
clear b = record b { contents = [] }

abbrev pub reserve : ℕ → Buffer → Buffer
reserve n b = record b { capacity = max b.capacity n }

pub record PacketBufferPool : Type 0 where
  pub pool_capacity : ℕ
  pub default_capacity : ℕ
  pub free_list : List Buffer

unfoldable pub create : ℕ → ℕ → PacketBufferPool
create pool_capacity default_capacity = record {
  pool_capacity = if ltb 0 pool_capacity then pool_capacity else 16;
  default_capacity = if ltb 0 default_capacity then default_capacity else 2048;
  free_list = [];
}

acquire_from : PacketBufferPool → List Buffer → ℕ → PacketBufferPool × Buffer
acquire_from p [] target = (p, reserve target empty_buffer)
acquire_from p (b ∷ bs) target =
    (record p { free_list = bs }, clear (if ltb b.capacity target then reserve target b else b))

unfoldable pub acquire : PacketBufferPool → ℕ → PacketBufferPool × Buffer
unfolding acquire_from
acquire p minimum_capacity = acquire_from p p.free_list (max minimum_capacity p.default_capacity)

unfoldable pub release : PacketBufferPool → Buffer → PacketBufferPool
release p b =
    if leb p.pool_capacity (length p.free_list)
    then p
    else record p { free_list = clear b ∷ p.free_list }

unfoldable pub available : PacketBufferPool → ℕ
available p = length p.free_list
