-- ===== src/SmartRoute/Cidr.antt =====
-- `parse_cidr_prefix` on well-formed entries, and what follows them.
use secure_tunnel_cpp.Prelude.{
  ℕ, ◌≤◌, ◌<◌, ◌≡◌, refl, ap, ◌∙◌, false, some, [], ◌∷◌, ◌++◌, arith, All, All-append, Bytes,
  is_empty,
}
use secure_tunnel_cpp.Strings.{isspace}
use secure_tunnel_cpp.Strings.Lines.{Lacks, before-append, after-append}
use secure_tunnel_cpp.Strings.Numbers.{print_decimal, StopsNumber, stoi-print_decimal}
use secure_tunnel_cpp.NetConfig.{IpHelper, parse_ipv4, masked}
use secure_tunnel_cpp.SmartRoute.{
  trim_front, trim_back, trim_copy, prefix_of, split_cidr, parse_cidr_prefix,
}

-- No character is a space.
abbrev pub IsSolid : Bytes → Type 0
IsSolid = All (λ c. isspace c ≡ false)

trim_front-IsSolid : (s : Bytes) → IsSolid s → trim_front s ≡ s
unfolding trim_front
trim_front-IsSolid [] h = refl
trim_front-IsSolid (c ∷ cs) h = rw h.0 refl

trim_back-IsSolid : (s : Bytes) → IsSolid s → trim_back s ≡ s
unfolding trim_back
trim_back-IsSolid [] h = refl
trim_back-IsSolid (c ∷ cs) h = ground (arith, h.0, trim_back-IsSolid cs h.1)

trim_copy-IsSolid : (s : Bytes) → IsSolid s → trim_copy s ≡ s
unfolding trim_copy
trim_copy-IsSolid s h = ap trim_back (trim_front-IsSolid s h) ∙ trim_back-IsSolid s h

print_decimal-IsSolid : (n : ℕ) → n < 100 → IsSolid (print_decimal n)
unfolding print_decimal isspace
print_decimal-IsSolid n h = ground arith

prefix_of-print_decimal :
    (p : ℕ) (rest : Bytes)
    → p ≤ 32
    → StopsNumber rest
    → prefix_of (print_decimal p ++ rest) ≡ some p
unfolding prefix_of
prefix_of-print_decimal p rest h s =
    rw (stoi-print_decimal p rest (omega arith) s, prefix_of) (ground arith)

split_cidr-append :
    (host rest : Bytes) (p : ℕ)
    → IsSolid host
    → Lacks b'/' host
    → p ≤ 32
    → StopsNumber rest
    → split_cidr (host ++ b'/' ∷ (print_decimal p ++ rest)) ≡ some (host, p)
unfolding split_cidr
split_cidr-append host rest p solid lacks short stops =
    let tail = print_decimal p ++ rest in
    rw
      (
        split_cidr,
        before-append b'/' host tail lacks,
        after-append b'/' host tail lacks,
        prefix_of-print_decimal p rest short stops,
        trim_copy-IsSolid host solid,
      )
      refl

slash_solid : isspace b'/' ≡ false
unfolding isspace
slash_solid = refl

-- An entry `host/prefix` is read as its prefix and its network, the address with the bits behind the
-- prefix set to 0, whatever text without spaces stands behind the number, if it does not go on with
-- a digit: `10.0.0.0/8` and `10.0.0.0/8x/24` are read alike. The host is an address in a text
-- without '/' and spaces, the prefix at most 32, and the network has a printed form.
pub parse_cidr_prefix-print :
    (h : IpHelper) (host rest network : Bytes) (address p : ℕ)
    → IsSolid host
    → Lacks b'/' host
    → p ≤ 32
    → IsSolid rest
    → StopsNumber rest
    → parse_ipv4 h host ≡ some address
    → h.inet_ntop (masked address p) ≡ some network
    → is_empty network ≡ false
    → parse_cidr_prefix h (host ++ b'/' ∷ (print_decimal p ++ rest)) ≡ some (network, p)
unfolding parse_cidr_prefix
parse_cidr_prefix-print h host rest network address p solid lacks short solid' stops is_host printed
      some_text =
    let tail_solid =
      All-append _ (print_decimal p) rest (print_decimal-IsSolid p (omega arith)) solid' in
    rw
      (
        trim_copy-IsSolid (host ++ b'/' ∷ (print_decimal p ++ rest))
            (All-append _ host (b'/' ∷ (print_decimal p ++ rest)) solid (slash_solid, tail_solid)),
        split_cidr-append host rest p solid lacks short stops,
        parse_cidr_prefix,
        is_host,
        printed,
        some_text,
      )
      refl
