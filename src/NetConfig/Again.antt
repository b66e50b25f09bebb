-- ===== src/NetConfig/Again.antt =====
-- A prefix route that is listed already.
use secure_tunnel_cpp.Prelude.{
  ℕ, ◌≡◌, refl, sym, ap, ◌∙◌, inl, inr, true, false, some, arith, Bytes,
}
use secure_tunnel_cpp.NetConfig.{
  IpHelper, WindowsNetConfigurator, SelectiveRouteKey, parse_ipv4, clear_error,
}
use secure_tunnel_cpp.NetConfig.KeyLaws.{contains_key-last}
use secure_tunnel_cpp.NetConfig.Keys.{prefix_route_cases, prefix_route_accepts}
use secure_tunnel_cpp.NetConfig.Routes.{contains_key, add_key, key_of, apply_prefix_route}

module _ (h : IpHelper) where
  add_key_again :
      (n : WindowsNetConfigurator h) (k : SelectiveRouteKey) (g : ℕ)
      → (add_key h n k g).1 ≡ true
      → n.last_error ≡ false
      → (contains_key (add_key h n k g).0.selective_routes k ≡ true)
        × ((add_key h n k g).0.last_error ≡ false)
  unfolding add_key
  add_key_again n k g ok clean = ground (arith, contains_key-last n.selective_routes k)

  add_key_known :
      (n : WindowsNetConfigurator h) (k : SelectiveRouteKey) (g : ℕ)
      → contains_key n.selective_routes k ≡ true
      → add_key h n k g ≡ (n, true)
  unfolding add_key
  add_key_known n k g known = rw known refl

  -- A successful call leaves its key in the list.
  pub apply_prefix_route-known :
      (n : WindowsNetConfigurator h) (luid : ℕ) (dest : Bytes) (prefix : ℕ) (gateway : Bytes)
      (d : ℕ)
      → parse_ipv4 h dest ≡ some d
      → (apply_prefix_route h n luid dest prefix gateway).1 ≡ true
      → contains_key
          (apply_prefix_route h n luid dest prefix gateway).0.selective_routes
          (key_of h luid d prefix gateway)
        ≡ true
  apply_prefix_route-known n luid dest prefix gateway d is_d ok =
      elim (prefix_route_cases h n luid dest prefix gateway) [
        | inl (same, refused) ↦ absurd (ground (arith, sym ok ∙ refused))
        | inr (d', g, real, short, has_gateway, has_dest, at) ↦
            let accepted =
              prefix_route_accepts h n luid dest prefix gateway d g real short is_d has_gateway in
            rw accepted
              (add_key_again (clear_error h n) (key_of h luid d prefix gateway) g
                (ap (λ x. x.1) (sym accepted) ∙ ok) refl).0
      ]

  clear_error_lem : (n : WindowsNetConfigurator h) → n.last_error ≡ false → clear_error h n ≡ n
  clear_error_lem n e = ap (λ b. record n { last_error = b }) (sym e)

  -- A route that is listed already is not asked for again: after a successful `apply_prefix_route`
  -- the same call succeeds and changes neither the helper nor the system.
  pub apply_prefix_route_twice :
      (n : WindowsNetConfigurator h) (luid : ℕ) (dest : Bytes) (prefix : ℕ) (gateway : Bytes)
      → (apply_prefix_route h n luid dest prefix gateway).1 ≡ true
      → apply_prefix_route h
          (apply_prefix_route h n luid dest prefix gateway).0
          luid
          dest
          prefix
          gateway
        ≡ ((apply_prefix_route h n luid dest prefix gateway).0, true)
  apply_prefix_route_twice n luid dest prefix gateway ok =
      elim (prefix_route_cases h n luid dest prefix gateway) [
        | inl (same, refused) ↦ absurd (ground (arith, sym ok ∙ refused))
        | inr (d, g, real, short, has_gateway, has_dest, at) ↦
            let k = key_of h luid d prefix gateway in
            let (known, clean) =
              add_key_again (clear_error h n) k g (ap (λ x. x.1) (sym at) ∙ ok) refl in
            rw at (
              prefix_route_accepts h (add_key h (clear_error h n) k g).0 luid dest prefix gateway d
                g real short has_dest has_gateway
              ∙ (ap (λ x. add_key h x k g)
                    (clear_error_lem (add_key h (clear_error h n) k g).0 clean)
                  ∙ add_key_known (add_key h (clear_error h n) k g).0 k g known))
      ]
