-- ===== src/InnerSession/Aead/Attack.antt =====
-- What the AEAD frame leaves open: its counter is not authenticated, and both ends of a tunnel
-- count from the same number under the same key.
use secure_tunnel_cpp.Prelude.{
  ℕ, zero, suc, ◌+◌, ◌*◌, ◌%◌, ◌^◌, ◌≤◌, ◌<◌, ◌≡◌, refl, sym, ap, ◌∙◌, ◌↔◌, true, [], ◌∷◌, ◌++◌,
  arith, length, get_or, drop, length-append, length-drop, drop-drop, Bytes,
}
use secure_tunnel_cpp.InnerSession.Codec.{write_u64_be, read_u64_be}
use secure_tunnel_cpp.InnerSession.Codec.RoundTrip.{read_u64_be-write_u64_be, length-write_u64_be}
use secure_tunnel_cpp.InnerSession.Aead.{
  Bcrypt, BcryptInnerSession, seal, open', nonce_of, make_nonce, header_size,
}

-- The frame with another counter written into its header.
pub renumber : ℕ → Bytes → Bytes
renumber q c = write_u64_be (get_or c 0 0 ∷ []) q ++ drop 9 c

length-renumber : (q : ℕ) (c : Bytes) → 9 ≤ length c → length (renumber q c) ≡ length c
unfolding renumber
length-renumber q c h = omega (
  arith,
  length-append (write_u64_be (get_or c 0 0 ∷ []) q) (drop 9 c),
  length-write_u64_be (get_or c 0 0 ∷ []) q,
  length-drop 9 c,
)

renumber_fields :
    (q : ℕ) (c : Bytes)
    → q < 2 ^ 64
    → (get_or (renumber q c) 0 0 ≡ get_or c 0 0)
      × (read_u64_be (renumber q c) 1 ≡ q)
      × (drop 9 (renumber q c) ≡ drop 9 c)
      × (drop 21 (renumber q c) ≡ drop 21 c)
unfolding renumber write_u64_be
renumber_fields q c hq =
    (refl, read_u64_be-write_u64_be (get_or c 0 0 ∷ []) (drop 9 c) q hq, refl, drop-drop 12 9 c)

-- The number that bytes give, the lowest one first.
le_value : Bytes → ℕ → ℕ
le_value bs zero = 0
le_value [] (suc k) = 0
le_value (x ∷ xs) (suc k) = x + 256 * le_value xs k

le_value-make_nonce : (v : ℕ) → v < 2 ^ 64 → le_value (make_nonce v) 8 ≡ v
unfolding le_value make_nonce
le_value-make_nonce v h = omega arith

make_nonce-injective : (v w : ℕ) → v < 2 ^ 64 → w < 2 ^ 64 → make_nonce v ≡ make_nonce w → v ≡ w
make_nonce-injective v w h h' e =
    sym (le_value-make_nonce v h) ∙ (ap (λ n. le_value n 8) e ∙ le_value-make_nonce w h')

module _ (b : Bcrypt) where
  accepted_long :
      (s : BcryptInnerSession b) (c old : Bytes)
      → (open' b s c old).2 ≡ true
      → header_size + 2 ≤ length c
  unfolding open'
  accepted_long s c old h = ground arith

  -- The replay guard can be walked around: from any frame that a session accepts, whoever writes a
  -- higher counter into the header gets a frame that every session with the same key and a lower
  -- counter accepts, with the same payload.
  pub header_not_authenticated :
      (s t : BcryptInnerSession b) (c old old' : Bytes) (q : ℕ)
      → (open' b s c old).2 ≡ true
      → t.key_handle ≡ s.key_handle
      → t.last_received_sequence < q
      → q < 2 ^ 64
      → ((open' b t (renumber q c) old').2 ≡ true)
        × ((open' b t (renumber q c) old').1 ≡ (open' b s c old).1)
  unfolding open'
  header_not_authenticated s t c old old' q h hk hq hq' =
      let (version, sequence, after9, after21) = renumber_fields q c hq' in
      ground (arith, accepted_long s c old h, length-renumber q c)

  nonce_of-seal :
      (s : BcryptInnerSession b) (p out : Bytes)
      → (seal b s p out).2 ≡ true
      → nonce_of (seal b s p out).1 ≡ make_nonce ((s.send_sequence + 1) % 2 ^ 64)
  unfolding seal write_u64_be make_nonce
  nonce_of-seal s p out h = ground arith

  -- The nonce is the counter and nothing else: for two sessions whose counters are below 2^64 - 1,
  -- the frames that they seal next, from whichever packets and under whichever keys, carry the same
  -- nonce exactly if the counters agree.
  pub nonce_reused :
      (s t : BcryptInnerSession b) (p p' out out' : Bytes)
      → s.send_sequence + 1 < 2 ^ 64
      → t.send_sequence + 1 < 2 ^ 64
      → (seal b s p out).2 ≡ true
      → (seal b t p' out').2 ≡ true
      → (nonce_of (seal b s p out).1 ≡ nonce_of (seal b t p' out').1)
        ↔ (s.send_sequence ≡ t.send_sequence)
  nonce_reused s t p p' out out' small small' h h' =
      let at = nonce_of-seal s p out h in
      let at' = nonce_of-seal t p' out' h' in
      (
        λ same. omega (
          arith,
          make_nonce-injective ((s.send_sequence + 1) % 2 ^ 64) ((t.send_sequence + 1) % 2 ^ 64)
              (omega arith) (omega arith) (sym at ∙ (same ∙ at')),
        ),
        λ e. at ∙ (ap (λ n. make_nonce ((n + 1) % 2 ^ 64)) e ∙ sym at'),
      )
