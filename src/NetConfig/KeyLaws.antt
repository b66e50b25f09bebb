-- ===== src/NetConfig/KeyLaws.antt =====
-- Keys of prefix routes: their equality, lists without double entries, and masked addresses.
use secure_tunnel_cpp.Prelude.{
  ℕ, ◌-◌, ◌*◌, ◌/◌, ◌^◌, ◌<◌, ◌≡◌, refl, ap, true, false, ◌||◌, List, [], ◌∷◌, ◌++◌, arith, Bytes,
  text_eq, text_eq_sound, text_eq_refl,
}
use native.Mathlib.Nat.{one-le-pow, mul-div_cancel}
use secure_tunnel_cpp.NetConfig.{SelectiveRouteKey, key_eq, masked}
use secure_tunnel_cpp.NetConfig.Routes.{contains_key}

pub key_eq_sound : (a b : SelectiveRouteKey) → key_eq a b ≡ true → a ≡ b
key_eq_sound a b h = ground (arith, text_eq_sound a.gateway b.gateway)

pub key_eq_refl : (a : SelectiveRouteKey) → key_eq a a ≡ true
key_eq_refl a = ground (arith, text_eq_refl a.gateway)

text_eq_comm : (s t : Bytes) → text_eq s t ≡ text_eq t s
text_eq_comm [] [] = refl
text_eq_comm [] (b ∷ bs) = refl
text_eq_comm (a ∷ as') [] = refl
text_eq_comm (a ∷ as') (b ∷ bs) = ground (arith, text_eq_comm as' bs)

key_eq_comm : (a b : SelectiveRouteKey) → key_eq a b ≡ key_eq b a
key_eq_comm a b = ground (arith, text_eq_comm a.gateway b.gateway)

-- No key stands in the list twice.
abbrev pub IsDistinct : List SelectiveRouteKey → Type 0
IsDistinct [] = Unit
IsDistinct (k ∷ ks) = (contains_key ks k ≡ false) × IsDistinct ks

contains_key-append :
    (ks : List SelectiveRouteKey) (k j : SelectiveRouteKey)
    → contains_key (ks ++ k ∷ []) j ≡ (contains_key ks j || key_eq k j)
unfolding contains_key
contains_key-append [] k j = ground arith
contains_key-append (i ∷ ks) k j = ground (arith, contains_key-append ks k j)

pub contains_key-last :
    (ks : List SelectiveRouteKey) (k : SelectiveRouteKey) → contains_key (ks ++ k ∷ []) k ≡ true
contains_key-last ks k = rw (contains_key-append ks k k, key_eq_refl k) (ground arith)

pub IsDistinct-append :
    (ks : List SelectiveRouteKey) (k : SelectiveRouteKey)
    → IsDistinct ks
    → contains_key ks k ≡ false
    → IsDistinct (ks ++ k ∷ [])
unfolding contains_key
IsDistinct-append [] k d h = ground arith
IsDistinct-append (i ∷ ks) k d h =
    ground (arith, contains_key-append ks k i, key_eq_comm i k, IsDistinct-append ks k d.1)

two_pow_pos : (k : ℕ) → 0 < 2 ^ k
two_pow_pos k = one-le-pow k 2 (omega arith)

-- Masking an address that is masked already changes nothing.
pub masked_idem : (a p : ℕ) → masked (masked a p) p ≡ masked a p
unfolding masked
masked_idem a p = ground (
  arith,
  ap (λ (t : ℕ). t * 2 ^ (32 - p)) (mul-div_cancel (a / 2 ^ (32 - p)) (two_pow_pos (32 - p))),
)
