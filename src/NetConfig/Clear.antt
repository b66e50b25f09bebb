-- ===== src/NetConfig/Clear.antt =====
-- What `clear_client_routes` leaves in the system's table.
use secure_tunnel_cpp.Prelude.{ℕ, ◌≡◌, Bool, true, false, some, List, [], ◌∷◌, arith, All, All-map}
use secure_tunnel_cpp.NetConfig.{
  Row, IpHelper, WindowsNetConfigurator, SelectiveRouteKey, parse_ipv4, deleted,
  fill_ipv4_forward_row,
}
use secure_tunnel_cpp.NetConfig.Routes.{
  row_of, delete_key, delete_keys, clear_default, delete_bypass, clear_bypass, clear_client_routes,
}

-- The documented behaviour of `DeleteIpForwardEntry2` on the table, `has` saying which routes are
-- there: a route that it has deleted or not found is not there, and no other one appears.
pub record IsTable (h : IpHelper) (has : h.State → Row → Bool) : Type 0 where
  pub gone :
      (s : h.State) (r : Row)
      → deleted (h.delete_ip_forward_entry s r).1 ≡ true
      → has (h.delete_ip_forward_entry s r).0 r ≡ false
  pub no_other :
      (s : h.State) (r r' : Row)
      → has s r' ≡ false
      → has (h.delete_ip_forward_entry s r).0 r' ≡ false

-- Every deletion succeeds or finds nothing to delete.
abbrev pub CanDelete : IpHelper → Type 0
CanDelete h = (s : h.State) (r : Row) → deleted (h.delete_ip_forward_entry s r).1 ≡ true

module _ (h : IpHelper) (has : h.State → Row → Bool) (table : IsTable h has)
    (can : CanDelete h) where
  delete_key-absent :
      (s : h.State) (k : SelectiveRouteKey) (r : Row)
      → has s r ≡ false
      → has (delete_key h s k) r ≡ false
  unfolding delete_key
  delete_key-absent s k r a = grind (arith, table.no_other)

  delete_keys-absent :
      (s : h.State) (ks : List SelectiveRouteKey) (r : Row)
      → has s r ≡ false
      → has (delete_keys h s ks) r ≡ false
  unfolding delete_keys
  delete_keys-absent s [] r a = a
  delete_keys-absent s (k ∷ ks) r a =
      delete_keys-absent (delete_key h s k) ks r (delete_key-absent s k r a)

  delete_key-gone :
      (s : h.State) (k : SelectiveRouteKey) (g : ℕ)
      → parse_ipv4 h k.gateway ≡ some g
      → has (delete_key h s k) (row_of h k g) ≡ false
  unfolding delete_key
  delete_key-gone s k g at =
      rw (at, delete_key) (table.gone s (row_of h k g) (can s (row_of h k g)))

  -- The route of a key is not in the system's table.
  abbrev pub IsAbsent : h.State → SelectiveRouteKey → Type 0
  IsAbsent s k = (g : ℕ) → parse_ipv4 h k.gateway ≡ some g → has s (row_of h k g) ≡ false

  delete_keys-All :
      (s : h.State) (ks : List SelectiveRouteKey) → All (IsAbsent (delete_keys h s ks)) ks
  unfolding delete_keys
  delete_keys-All s [] = tt
  delete_keys-All s (k ∷ ks) = (
    λ g at. delete_keys-absent (delete_key h s k) ks (row_of h k g) (delete_key-gone s k g at),
    delete_keys-All (delete_key h s k) ks,
  )

  clear_default-absent :
      (n : WindowsNetConfigurator h) (r : Row)
      → has n.system r ≡ false
      → has (clear_default h n).system r ≡ false
  unfolding clear_default
  clear_default-absent n r a = grind (arith, table.no_other)

  clear_bypass-absent :
      (n : WindowsNetConfigurator h) (r : Row)
      → has n.system r ≡ false
      → has (clear_bypass h n).system r ≡ false
  unfolding clear_bypass delete_bypass
  clear_bypass-absent n r a = grind (arith, table.no_other)

  cleared_flags :
      (n : WindowsNetConfigurator h)
      → ((clear_bypass h (clear_default h n)).selective_routes ≡ n.selective_routes)
        × ((clear_bypass h (clear_default h n)).default_route_applied ≡ false)
        × ((clear_bypass h (clear_default h n)).bypass_route_applied ≡ false)
  unfolding clear_bypass clear_default
  cleared_flags n = ground arith

  clear_default-gone :
      (n : WindowsNetConfigurator h) (g : ℕ)
      → n.default_route_applied ≡ true
      → parse_ipv4 h n.default_gateway ≡ some g
      → has (clear_default h n).system (fill_ipv4_forward_row n.default_tunnel_luid 0 0 g) ≡ false
  unfolding clear_default
  clear_default-gone n g applied at =
      rw (applied, at, clear_default)
        (table.gone n.system (fill_ipv4_forward_row n.default_tunnel_luid 0 0 g)
          (can n.system (fill_ipv4_forward_row n.default_tunnel_luid 0 0 g)))

  -- `clear_client_routes` takes back what the helper has added: if every deletion succeeds or finds
  -- nothing, the system's table then holds none of the listed prefix routes and not the default route
  -- that was applied, and the helper lists no prefix, default or bypass route any more.
  pub clear_client_routes-All :
      (n : WindowsNetConfigurator h)
      → All (IsAbsent (clear_client_routes h n).system) n.selective_routes
        × ((g : ℕ)
            → n.default_route_applied ≡ true
            → parse_ipv4 h n.default_gateway ≡ some g
            → has
                (clear_client_routes h n).system
                (fill_ipv4_forward_row n.default_tunnel_luid 0 0 g)
              ≡ false)
        × ((clear_client_routes h n).selective_routes ≡ [])
        × ((clear_client_routes h n).default_route_applied ≡ false)
        × ((clear_client_routes h n).bypass_route_applied ≡ false)
  unfolding clear_client_routes
  clear_client_routes-All n =
      let n1 : WindowsNetConfigurator h = record n {
        system = delete_keys h n.system n.selective_routes;
        selective_routes = [];
      } in
      let (routes, default, bypass) = cleared_flags n1 in
      (
        All-map
            (λ k absent g at.
              clear_bypass-absent (clear_default h n1) (row_of h k g)
                (clear_default-absent n1 (row_of h k g) (absent g at)))
            n.selective_routes (delete_keys-All n.system n.selective_routes),
        λ g applied at.
            clear_bypass-absent (clear_default h n1) _ (clear_default-gone n1 g applied at),
        routes,
        default,
        bypass,
      )
