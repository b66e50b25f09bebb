-- ===== src/SmartRoute/Start.antt =====
-- The routes that `SmartRouteManager::start` and its worker install.
use secure_tunnel_cpp.Prelude.{
  ℕ, ◌≡◌, refl, Bool, true, false, ◌&&◌, not, List, [], ◌∷◌, arith, if◌then◌else◌, if-both, length,
  Bytes, is_empty,
}
use secure_tunnel_cpp.NetConfig.{IpHelper, WindowsNetConfigurator}
use secure_tunnel_cpp.NetConfig.Keys.{IsKept, apply_prefix_route-IsKept}
use secure_tunnel_cpp.SmartRoute.{
  Options, SmartRouteManager, apply_cidr_route, apply_address, apply_addresses, apply_hosts,
  resolve_domain_and_apply, hosts_of, apply_each, apply_domains, apply_routes_once, start_worker,
}

module _ (h : IpHelper) where
  apply_each-end :
      (f : WindowsNetConfigurator h → Bytes → WindowsNetConfigurator h) (xs : List Bytes)
      (n : WindowsNetConfigurator h)
      → ((apply_each h f xs [] n).1 ≡ []) × ((apply_each h f xs [] n).2 ≡ true)
  unfolding apply_each
  apply_each-end f [] n = (refl, refl)
  apply_each-end f (x ∷ xs) n = apply_each-end f xs (f n x)

  apply_each-IsKept :
      (f : WindowsNetConfigurator h → Bytes → WindowsNetConfigurator h)
      → ((n : WindowsNetConfigurator h) (x : Bytes) → IsKept h n → IsKept h (f n x))
      → (xs : List Bytes) (reads : List Bool) (n : WindowsNetConfigurator h) → IsKept h n
      → IsKept h (apply_each h f xs reads n).0
  unfolding apply_each
  apply_each-IsKept f keep [] reads n kept = kept
  apply_each-IsKept f keep (x ∷ xs) [] n kept =
      apply_each-IsKept f keep xs [] (f n x) (keep n x kept)
  apply_each-IsKept f keep (x ∷ xs) (true ∷ reads) n kept = kept
  apply_each-IsKept f keep (x ∷ xs) (false ∷ reads) n kept =
      apply_each-IsKept f keep xs reads (f n x) (keep n x kept)

  apply_cidr_route-IsKept :
      (o : Options) (n : WindowsNetConfigurator h) (cidr : Bytes)
      → IsKept h n
      → IsKept h (apply_cidr_route h o n cidr)
  unfolding apply_cidr_route
  apply_cidr_route-IsKept o n cidr kept = grind (arith, apply_prefix_route-IsKept h)

  apply_address-IsKept :
      (o : Options) (n : WindowsNetConfigurator h) (address : ℕ)
      → IsKept h n
      → IsKept h (apply_address h o n address)
  apply_address-IsKept o n address kept = grind (arith, apply_prefix_route-IsKept h)

  apply_addresses-IsKept :
      (o : Options) (n : WindowsNetConfigurator h) (as' : List ℕ)
      → IsKept h n
      → IsKept h (apply_addresses h o n as')
  unfolding apply_addresses
  apply_addresses-IsKept o n [] kept = kept
  apply_addresses-IsKept o n (a ∷ as') kept =
      apply_addresses-IsKept o (apply_address h o n a) as' (apply_address-IsKept o n a kept)

  apply_hosts-IsKept :
      (o : Options) (n : WindowsNetConfigurator h) (hosts : List Bytes)
      → IsKept h n
      → IsKept h (apply_hosts h o n hosts)
  unfolding apply_hosts
  apply_hosts-IsKept o n [] kept = kept
  apply_hosts-IsKept o n (host ∷ hosts) kept =
      apply_hosts-IsKept o (apply_addresses h o n (h.getaddrinfo n.system host)) hosts
        (apply_addresses-IsKept o n (h.getaddrinfo n.system host) kept)

  resolve-IsKept :
      (o : Options) (n : WindowsNetConfigurator h) (domain : Bytes)
      → IsKept h n
      → IsKept h (resolve_domain_and_apply h o n domain)
  unfolding resolve_domain_and_apply
  resolve-IsKept o n domain kept =
      if-both (IsKept h) (not h.wsa_startup) kept (apply_hosts-IsKept o n (hosts_of domain) kept)

  apply_domains-IsKept :
      (m : SmartRouteManager) (r : WindowsNetConfigurator h × List Bool × Bool)
      → IsKept h r.0
      → IsKept h (apply_domains h m r).1
  unfolding apply_domains
  apply_domains-IsKept m (n, reads, false) kept = kept
  apply_domains-IsKept m (n, reads, true) kept =
      apply_each-IsKept (resolve_domain_and_apply h m.options) (resolve-IsKept m.options) m.domains
        reads n kept

  pair-IsKept :
      (b : Bool) (r r' : SmartRouteManager × WindowsNetConfigurator h)
      → IsKept h r.1
      → IsKept h r'.1
      → IsKept h (if b then r else r').1
  pair-IsKept true r r' kept kept' = kept
  pair-IsKept false r r' kept kept' = kept'

  -- The rounds of the CIDR list.
  abbrev cidr_rounds :
      SmartRouteManager
      → WindowsNetConfigurator h
      → List Bool
      → WindowsNetConfigurator h × List Bool × Bool
  cidr_rounds m n reads = apply_each h (apply_cidr_route h m.options) m.cidrs reads n

  apply_routes_once-cases :
      (m : SmartRouteManager) (n : WindowsNetConfigurator h) (reads : List Bool)
      → apply_routes_once h m n reads
        ≡ (if m.stop_requested then (m, n) else apply_domains h m (cidr_rounds m n reads))
  unfolding apply_routes_once
  apply_routes_once-cases m n reads = refl

  -- Whenever the worker or `start` installs the routes, whatever the lists hold, whatever the name
  -- service answers and whenever a stop is seen, the helper's list of prefix routes stays without
  -- double entries and with well-formed keys.
  pub apply_routes_once-IsKept :
      (m : SmartRouteManager) (n : WindowsNetConfigurator h) (reads : List Bool)
      → IsKept h n
      → IsKept h (apply_routes_once h m n reads).1
  apply_routes_once-IsKept m n reads kept = rw (apply_routes_once-cases m n reads) (
      pair-IsKept m.stop_requested (m, n) (apply_domains h m (cidr_rounds m n reads)) kept
        (apply_domains-IsKept m (cidr_rounds m n reads) (
          apply_each-IsKept (apply_cidr_route h m.options) (apply_cidr_route-IsKept m.options)
            m.cidrs reads n kept)))

  -- The rounds change nothing of the manager but the count.
  record SameLists (m r : SmartRouteManager) : Type 0 where
    pub options : r.options ≡ m.options
    pub domains : r.domains ≡ m.domains
    pub cidrs : r.cidrs ≡ m.cidrs
    pub stop_requested : r.stop_requested ≡ m.stop_requested

  apply_domains-lists :
      (m : SmartRouteManager) (r : WindowsNetConfigurator h × List Bool × Bool)
      → SameLists m (apply_domains h m r).0
  unfolding apply_domains
  apply_domains-lists m (n, reads, false) = ground arith
  apply_domains-lists m (n, reads, true) = ground arith

  if-lists :
      (m : SmartRouteManager) (b : Bool) (r r' : SmartRouteManager × WindowsNetConfigurator h)
      → SameLists m r.0
      → SameLists m r'.0
      → SameLists m (if b then r else r').0
  if-lists m true r r' same same' = same
  if-lists m false r r' same same' = same'

  apply_routes_once-lists :
      (m : SmartRouteManager) (n : WindowsNetConfigurator h) (reads : List Bool)
      → SameLists m (apply_routes_once h m n reads).0
  apply_routes_once-lists m n reads = rw (apply_routes_once-cases m n reads) (
      if-lists m m.stop_requested (m, n) (apply_domains h m (cidr_rounds m n reads)) (ground arith)
        (apply_domains-lists m (cidr_rounds m n reads)))

  apply_domains-count :
      (m : SmartRouteManager) (r : WindowsNetConfigurator h × List Bool × Bool)
      → r.1 ≡ []
      → r.2 ≡ true
      → (apply_domains h m r).0.applied_route_count
        ≡ length (apply_domains h m r).1.selective_routes
  unfolding apply_domains
  apply_domains-count m (n, reads, false) e ended = absurd (ground arith)
  apply_domains-count m (n, [], true) e ended =
      ground (arith, apply_each-end (resolve_domain_and_apply h m.options) m.domains n)
  apply_domains-count m (n, x ∷ reads, true) e ended = absurd (ground arith)

  going_rounds :
      (m : SmartRouteManager) (n : WindowsNetConfigurator h)
      → m.stop_requested ≡ false
      → apply_routes_once h m n [] ≡ apply_domains h m (cidr_rounds m n [])
  going_rounds m n going = ground (arith, apply_routes_once-cases m n [])

  apply_routes_once-count :
      (m : SmartRouteManager) (n : WindowsNetConfigurator h)
      → m.stop_requested ≡ false
      → (apply_routes_once h m n []).0.applied_route_count
        ≡ length (apply_routes_once h m n []).1.selective_routes
  apply_routes_once-count m n going =
      let (drained, ended) = apply_each-end (apply_cidr_route h m.options) m.cidrs n in
      rw (going_rounds m n going) (apply_domains-count m (cidr_rounds m n []) drained ended)

  -- What the last part of `start` leaves, where it succeeds.
  pub start_worker-lem :
      (m : SmartRouteManager) (n : WindowsNetConfigurator h)
      → (start_worker h m n).2 ≡ true
      → ((start_worker h m n).0.worker ≡ true)
        × ((start_worker h m n).0.options ≡ m.options)
        × ((start_worker h m n).0.stop_requested ≡ false)
        × ((start_worker h m n).0.domains ≡ m.domains)
        × ((start_worker h m n).0.cidrs ≡ m.cidrs)
        × ((is_empty m.domains && is_empty m.cidrs) ≡ false)
        × ((start_worker h m n).0.applied_route_count
            ≡ length (start_worker h m n).1.selective_routes)
  unfolding start_worker
  start_worker-lem m n ok = ground (
    arith,
    apply_routes_once-count (record m { stop_requested = false }) n refl,
    apply_routes_once-lists (record m { stop_requested = false }) n [],
  )
