-- ===== src/SmartRoute.antt =====
-- src/smart_route_manager.cpp: the list files, the CIDR entries, and `SmartRouteManager`, which
-- installs a prefix route for each entry. The file system is a function from a path to the content
-- of the file. The helper that the manager refers to is passed along with it.
pub mod Entries
pub mod Cidr
pub mod Start
pub mod Outcome
use secure_tunnel_cpp.Prelude.{
  ℕ, zero, suc, ◌+◌, ◌-◌, ◌*◌, ◌/◌, ◌%◌, ◌^◌, ◌≤◌, ◌<◌, min, max, bit_and, ◌≡◌, refl, sym, ap, ◌∙◌,
  subst, ◌≢◌, ◌↔◌, ◌⊎◌, inl, inr, Bool, true, false, ◌&&◌, ◌||◌, not, Option, none, some, List, [],
  ◌∷◌, ◌++◌, map, append-nil, append_assoc, arith, ltb, leb, ◌==◌, if◌then◌else◌, ltb→lt, lt→ltb,
  leb→le, ltb→le, le→ltb, ==_iff, ==_refl, Bool-cases, Option-cases, length, get_or, take, drop,
  length-append, length-take, length-drop, take-append, drop-append, take_all, take-append_drop,
  take_prefix, drop_prefix, drop-drop, All, All-append, All-take, All-drop, All-map, Bytes, IsByte,
  codes, is_empty, text_eq, text_eq_sound, text_eq_refl,
}
use secure_tunnel_cpp.Strings.{isspace, get_lines, before, after, starts_with, text_lt, stoi}
use secure_tunnel_cpp.NetConfig.{IpHelper, WindowsNetConfigurator, parse_ipv4, masked}
use secure_tunnel_cpp.NetConfig.Routes.{apply_prefix_route, selective_route_count}

-- The two loops of `trim_copy`; the second one goes from the last character on.
unfoldable pub trim_front : Bytes → Bytes
trim_front [] = []
trim_front (c ∷ cs) = let rest = trim_front cs in if isspace c then rest else c ∷ cs

unfoldable pub trim_back : Bytes → Bytes
trim_back [] = []
trim_back (c ∷ cs) = let rest = trim_back cs in if is_empty rest && isspace c then [] else c ∷ rest

unfoldable pub trim_copy : Bytes → Bytes
trim_copy text = trim_back (trim_front text)

-- `some` for a text that is not empty.
abbrev pub nonempty : Bytes → Option Bytes
nonempty text = if is_empty text then none else some text

-- The entry of a line that is not empty and does not begin with '#'.
abbrev pub uncommented : Bytes → Option Bytes
uncommented line = elim (before b'#' line) [
  | none ↦ nonempty line
  | some text ↦ nonempty (trim_copy text)
]

-- The body of the loop of `load_list_file`.
unfoldable pub entry_of : Bytes → Option Bytes
entry_of raw =
    let line = trim_copy raw in
    if is_empty line || get_or line 0 0 == b'#' then none else uncommented line

unfoldable pub entries_of : List Bytes → List Bytes
entries_of [] = []
entries_of (raw ∷ rest) = elim (entry_of raw) [
  | none ↦ entries_of rest
  | some entry ↦ entry ∷ entries_of rest
]

-- `none` where the file cannot be opened; both `load_route_domain_list` and `load_route_cidr_list`.
abbrev pub Files : Type 0
Files = Bytes → Option Bytes

unfoldable pub load_list_file : Files → Bytes → Option (List Bytes)
load_list_file files path = elim (files path) [
  | none ↦ none
  | some content ↦ some (entries_of (get_lines content))
]

-- The text behind the slash; `none` for a prefix that is refused.
unfoldable pub prefix_of : Bytes → Option ℕ
prefix_of text = elim (stoi text) [
  | none ↦ none
  | some (negative, value) ↦ if (negative && ltb 0 value) || ltb 32 value then none else some value
]

-- The host and the prefix of a trimmed text.
unfoldable pub split_cidr : Bytes → Option (Bytes × ℕ)
split_cidr trimmed = elim (before b'/' trimmed) [
  | none ↦ some (trimmed, 32)
  | some host ↦ elim (prefix_of (after b'/' trimmed)) [
    | none ↦ none
    | some prefix ↦ some (trim_copy host, prefix)
  ]
]

pub record Options : Type 0 where
  pub tunnel_luid : ℕ
  pub gateway_ipv4 : Bytes
  pub domain_list_path : Bytes
  pub cidr_list_path : Bytes
  pub refresh_interval : ℕ

pub record SmartRouteManager : Type 0 where
  pub options : Options
  pub domains : List Bytes
  pub cidrs : List Bytes
  pub stop_requested : Bool
  pub applied_route_count : ℕ
  pub worker : Bool

-- The two hosts of a domain, in the order of `std::set`.
abbrev pub hosts_of : Bytes → List Bytes
hosts_of domain =
    let other = if starts_with (codes "*.") domain then drop 2 domain else codes "www." ++ domain in
    if text_lt domain other then domain ∷ other ∷ [] else other ∷ domain ∷ []

module _ (h : IpHelper) where
  -- The network's text; an address that cannot be printed is refused.
  unfoldable pub parse_cidr_prefix : Bytes → Option (Bytes × ℕ)
  parse_cidr_prefix text = elim (split_cidr (trim_copy text)) [
    | none ↦ none
    | some (host, prefix) ↦ elim (parse_ipv4 h host) [
      | none ↦ none
      | some address ↦ elim (h.inet_ntop (masked address prefix)) [
        | none ↦ none
        | some network ↦ if is_empty network then none else some (network, prefix)
      ]
    ]
  ]

  unfoldable pub apply_cidr_route :
      Options → WindowsNetConfigurator h → Bytes → WindowsNetConfigurator h
  apply_cidr_route options n cidr = elim (parse_cidr_prefix cidr) [
    | none ↦ n
    | some (network, prefix) ↦
        (apply_prefix_route h n options.tunnel_luid network prefix options.gateway_ipv4).0
  ]

  -- The route of one address that a host has.
  abbrev pub apply_address : Options → WindowsNetConfigurator h → ℕ → WindowsNetConfigurator h
  apply_address options n address = elim (h.inet_ntop address) [
    | none ↦ n
    | some dotted ↦
        if is_empty dotted
        then n
        else (apply_prefix_route h n options.tunnel_luid dotted 32 options.gateway_ipv4).0
  ]

  unfoldable pub apply_addresses :
      Options → WindowsNetConfigurator h → List ℕ → WindowsNetConfigurator h
  apply_addresses options n [] = n
  apply_addresses options n (a ∷ as') = apply_addresses options (apply_address options n a) as'

  unfoldable pub apply_hosts :
      Options → WindowsNetConfigurator h → List Bytes → WindowsNetConfigurator h
  apply_hosts options n [] = n
  apply_hosts options n (host ∷ hosts) =
      apply_hosts options (apply_addresses options n (h.getaddrinfo n.system host)) hosts

  unfoldable pub resolve_domain_and_apply :
      Options → WindowsNetConfigurator h → Bytes → WindowsNetConfigurator h
  resolve_domain_and_apply options n domain =
      if not h.wsa_startup then n else apply_hosts options n (hosts_of domain)

  -- A loop of `apply_routes_once`. The reads of `stop_requested_` are a list, one for each round,
  -- false where it ends; the Boolean says that the loop has come to its end.
  unfoldable pub apply_each :
      (WindowsNetConfigurator h → Bytes → WindowsNetConfigurator h)
      → List Bytes
      → List Bool
      → WindowsNetConfigurator h
      → WindowsNetConfigurator h × List Bool × Bool
  apply_each f [] reads n = (n, reads, true)
  apply_each f (x ∷ xs) [] n = apply_each f xs [] (f n x)
  apply_each f (x ∷ xs) (true ∷ reads) n = (n, reads, false)
  apply_each f (x ∷ xs) (false ∷ reads) n = apply_each f xs reads (f n x)

  -- The domains, after the CIDRs.
  unfoldable pub apply_domains :
      SmartRouteManager
      → WindowsNetConfigurator h × List Bool × Bool
      → SmartRouteManager × WindowsNetConfigurator h
  apply_domains m (n, reads, false) = (m, n)
  apply_domains m (n, reads, true) =
      let (n', reads', ended) = apply_each (resolve_domain_and_apply m.options) m.domains reads n in
      ((if ended then record m { applied_route_count = selective_route_count h n' } else m), n')

  unfoldable pub apply_routes_once :
      SmartRouteManager
      → WindowsNetConfigurator h
      → List Bool
      → SmartRouteManager × WindowsNetConfigurator h
  apply_routes_once m n reads =
      if m.stop_requested
      then (m, n)
      else apply_domains m (apply_each (apply_cidr_route m.options) m.cidrs reads n)

  -- `stop`: the worker is joined.
  abbrev pub stop : SmartRouteManager → SmartRouteManager
  stop m = record m { stop_requested = true; worker = false }

  -- From the test of the two lists on; the owner's thread runs it, so nobody asks for a stop.
  unfoldable pub start_worker :
      SmartRouteManager
      → WindowsNetConfigurator h
      → SmartRouteManager × WindowsNetConfigurator h × Bool
  start_worker m n =
      if is_empty m.domains && is_empty m.cidrs
      then (m, n, false)
      else let (m', n') = apply_routes_once (record m { stop_requested = false }) n [] in
        (record m' { worker = true }, n', true)

  unfoldable pub start_cidrs :
      Files
      → SmartRouteManager
      → WindowsNetConfigurator h
      → SmartRouteManager × WindowsNetConfigurator h × Bool
  start_cidrs files m n =
      if is_empty m.options.cidr_list_path
      then start_worker m n
      else elim (load_list_file files m.options.cidr_list_path) [
        | none ↦ (record m { cidrs = [] }, n, false)
        | some cidrs ↦ start_worker (record m { cidrs = cidrs }) n
      ]

  unfoldable pub start_domains :
      Files
      → SmartRouteManager
      → WindowsNetConfigurator h
      → SmartRouteManager × WindowsNetConfigurator h × Bool
  start_domains files m n =
      if is_empty m.options.domain_list_path
      then start_cidrs files m n
      else elim (load_list_file files m.options.domain_list_path) [
        | none ↦ (record m { domains = [] }, n, false)
        | some domains ↦ start_cidrs files (record m { domains = domains }) n
      ]

  unfoldable pub start :
      Files
      → SmartRouteManager
      → WindowsNetConfigurator h
      → Options
      → SmartRouteManager × WindowsNetConfigurator h × Bool
  start files m n options =
      if options.tunnel_luid == 0
      then (stop m, n, false)
      else start_domains files (record (stop m) { options = options }) n
