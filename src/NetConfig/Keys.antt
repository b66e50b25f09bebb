-- ===== src/NetConfig/Keys.antt =====
-- The list of prefix routes that `WindowsNetConfigurator` keeps.
use secure_tunnel_cpp.Prelude.{
  ℕ, ◌≤◌, ◌<◌, ◌≡◌, refl, ◌⊎◌, inl, inr, false, some, List, [], ◌∷◌, arith, ltb, ◌==◌, Bool-cases,
  Option-cases, All, All-append, Bytes,
}
use secure_tunnel_cpp.NetConfig.{
  IpHelper, WindowsNetConfigurator, new_configurator, SelectiveRouteKey, masked, parse_ipv4,
  clear_error,
}
use secure_tunnel_cpp.NetConfig.KeyLaws.{IsDistinct, IsDistinct-append, masked_idem}
use secure_tunnel_cpp.NetConfig.Routes.{
  contains_key, add_key, key_of, apply_prefix_route, apply_endpoint_bypass_route,
  apply_global_default_route, clear_client_routes, bypass_to, add_bypass, add_default, clear_bypass,
  clear_default,
}

-- What each key satisfies: a tunnel, a prefix of at most 32 bits, a destination with no bit behind
-- the prefix, and a gateway that is an address.
pub record IsKey (h : IpHelper) (k : SelectiveRouteKey) : Type 0 where
  pub tunnel : 0 < k.tunnel_luid
  pub short : k.prefix_length ≤ 32
  pub normal : masked k.destination_host_order k.prefix_length ≡ k.destination_host_order
  pub reachable : (g : ℕ) × (parse_ipv4 h k.gateway ≡ some g)

module _ (h : IpHelper) where
  abbrev pub IsKept : WindowsNetConfigurator h → Type 0
  IsKept n = IsDistinct n.selective_routes × All (IsKey h) n.selective_routes

  -- The calls that change routes.
  pub data Call : Type 0 where
    bypass : Bytes → ℕ → Call
    default_route : ℕ → Bytes → Call
    prefix_route : ℕ → Bytes → ℕ → Bytes → Call
    clear : Call

  pub step : WindowsNetConfigurator h → Call → WindowsNetConfigurator h
  step n (bypass endpoint luid) = (apply_endpoint_bypass_route h n endpoint luid).0
  step n (default_route luid gateway) = (apply_global_default_route h n luid gateway).0
  step n (prefix_route luid destination prefix gateway) =
      (apply_prefix_route h n luid destination prefix gateway).0
  step n clear = clear_client_routes h n

  pub run : WindowsNetConfigurator h → List Call → WindowsNetConfigurator h
  run n [] = n
  run n (c ∷ cs) = run (step n c) cs

  add_key-IsKept :
      (n : WindowsNetConfigurator h) (k : SelectiveRouteKey) (g : ℕ)
      → IsKey h k
      → IsKept n
      → IsKept (add_key h n k g).0
  unfolding add_key
  add_key-IsKept n k g i (d, a) = elim (Bool-cases (contains_key n.selective_routes k)) [
    | inl old ↦ rw old (d, a)
    | inr new ↦ ground (
      arith,
      IsDistinct-append n.selective_routes k d new,
      All-append (IsKey h) n.selective_routes (k ∷ []) a (i, tt),
    )
  ]

  routes_of_bypass :
      (n : WindowsNetConfigurator h) (endpoint : Bytes) (luid : ℕ)
      → (apply_endpoint_bypass_route h n endpoint luid).0.selective_routes ≡ n.selective_routes
  unfolding apply_endpoint_bypass_route bypass_to add_bypass
  routes_of_bypass n endpoint luid = ground arith

  routes_of_default :
      (n : WindowsNetConfigurator h) (luid : ℕ) (gateway : Bytes)
      → (apply_global_default_route h n luid gateway).0.selective_routes ≡ n.selective_routes
  unfolding apply_global_default_route add_default
  routes_of_default n luid gateway = ground arith

  -- No route is listed or applied.
  abbrev pub IsRouteless : WindowsNetConfigurator h → Type 0
  IsRouteless n =
      (n.selective_routes ≡ [])
      × (n.default_route_applied ≡ false)
      × (n.bypass_route_applied ≡ false)

  -- `clear_client_routes` forgets every route.
  pub clear_client_routes-IsRouteless :
      (n : WindowsNetConfigurator h) → IsRouteless (clear_client_routes h n)
  unfolding clear_client_routes clear_bypass clear_default
  clear_client_routes-IsRouteless n = ground arith

  pub prefix_route_accepts :
      (n : WindowsNetConfigurator h) (luid : ℕ) (dest : Bytes) (prefix : ℕ) (gateway : Bytes)
      (d g : ℕ)
      → 0 < luid
      → prefix ≤ 32
      → parse_ipv4 h dest ≡ some d
      → parse_ipv4 h gateway ≡ some g
      → apply_prefix_route h n luid dest prefix gateway
        ≡ add_key h (clear_error h n) (key_of h luid d prefix gateway) g
  unfolding apply_prefix_route
  prefix_route_accepts n luid dest prefix gateway d g real short has_dest has_gateway = ground arith

  -- A call of `apply_prefix_route` is refused and keeps the list, or it comes to `add_key`.
  pub prefix_route_cases :
      (n : WindowsNetConfigurator h) (luid : ℕ) (dest : Bytes) (prefix : ℕ) (gateway : Bytes)
      → (((apply_prefix_route h n luid dest prefix gateway).0.selective_routes ≡ n.selective_routes)
          × ((apply_prefix_route h n luid dest prefix gateway).1 ≡ false))
        ⊎ ((d : ℕ) × (g : ℕ) × (0 < luid)
            × (prefix ≤ 32)
            × (parse_ipv4 h gateway ≡ some g)
            × (parse_ipv4 h dest ≡ some d)
            × (apply_prefix_route h n luid dest prefix gateway
                ≡ add_key h (clear_error h n) (key_of h luid d prefix gateway) g))
  unfolding apply_prefix_route
  prefix_route_cases n luid dest prefix gateway = elim (Bool-cases (luid == 0)) [
    | inl zero_luid ↦ inl (rw zero_luid (refl, refl))
    | inr real ↦ elim (Bool-cases (ltb 32 prefix)) [
      | inl long ↦ inl (rw (real, long) (refl, refl))
      | inr short ↦ elim (Option-cases (parse_ipv4 h dest)) [
        | inl no_dest ↦ inl (rw (real, short, no_dest) (refl, refl))
        | inr (d, has_dest) ↦ elim (Option-cases (parse_ipv4 h gateway)) [
          | inl no_gateway ↦ inl (rw (real, short, has_dest, no_gateway) (refl, refl))
          | inr (g, has_gateway) ↦ inr (
            d,
            g,
            ground arith,
            ground arith,
            has_gateway,
            has_dest,
            rw (real, short, has_dest, has_gateway) refl,
          )
        ]
      ]
    ]
  ]

  -- A prefix route keeps the invariant.
  pub apply_prefix_route-IsKept :
      (n : WindowsNetConfigurator h) (luid : ℕ) (dest : Bytes) (prefix : ℕ) (gateway : Bytes)
      → IsKept n
      → IsKept (apply_prefix_route h n luid dest prefix gateway).0
  apply_prefix_route-IsKept n luid dest prefix gateway kept =
      elim (prefix_route_cases n luid dest prefix gateway) [
        | inl (same, refused) ↦ rw same kept
        | inr (d, g, real, short, has_gateway, has_dest, at) ↦ rw at (
            add_key-IsKept (clear_error h n) (key_of h luid d prefix gateway) g
              (record {
                tunnel = real;
                short = short;
                normal = masked_idem d prefix;
                reachable = (g, has_gateway);
              })
              kept)
      ]

  step-IsKept : (n : WindowsNetConfigurator h) (c : Call) → IsKept n → IsKept (step n c)
  unfolding step
  step-IsKept n (bypass endpoint luid) kept = rw (routes_of_bypass n endpoint luid) kept
  step-IsKept n (default_route luid gateway) kept = rw (routes_of_default n luid gateway) kept
  step-IsKept n (prefix_route luid dest prefix gateway) kept =
      apply_prefix_route-IsKept n luid dest prefix gateway kept
  step-IsKept n clear kept = rw (clear_client_routes-IsRouteless n).0 (tt, tt)

  run_from-IsKept : (n : WindowsNetConfigurator h) (cs : List Call) → IsKept n → IsKept (run n cs)
  unfolding run
  run_from-IsKept n [] kept = kept
  run_from-IsKept n (c ∷ cs) kept = run_from-IsKept (step n c) cs (step-IsKept n c kept)

  -- After any calls on a new helper, whatever the system answers, no prefix route is listed twice,
  -- and each listed one has a tunnel, a prefix of at most 32 bits, a destination with no bit behind
  -- the prefix, and a gateway that is an address.
  pub run-IsKept : (system : h.State) (cs : List Call) → IsKept (run (new_configurator h system) cs)
  run-IsKept system cs = run_from-IsKept (new_configurator h system) cs (tt, tt)
