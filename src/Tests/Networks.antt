-- ===== src/Tests/Networks.antt =====
-- The routes of the system and the smart routes, at concrete inputs.
use secure_tunnel_cpp.Prelude.{
  ℕ, ◌<◌, ◌≡◌, refl, Bool, true, false, ◌&&◌, ◌||◌, none, some, List, [], ◌∷◌, ◌++◌, arith, ◌==◌,
  if◌then◌else◌, All, Bytes, codes, text_eq,
}
use secure_tunnel_cpp.Strings.Lines.{Lacks}
use secure_tunnel_cpp.Strings.{isspace}
use secure_tunnel_cpp.Strings.Numbers.{print_decimal}
use secure_tunnel_cpp.NetConfig.{
  Row, IpHelper, WindowsNetConfigurator, new_configurator, masked, parse_ipv4,
  fill_ipv4_forward_row,
}
use secure_tunnel_cpp.NetConfig.Routes.{best_row, eligible, apply_prefix_route, clear_client_routes}
use secure_tunnel_cpp.NetConfig.Best.{AtMost, IsChosen, best_row-IsBest}
use secure_tunnel_cpp.NetConfig.Keys
use secure_tunnel_cpp.NetConfig.Keys.{IsKept, run-IsKept, bypass, prefix_route}
use secure_tunnel_cpp.NetConfig.Clear.{IsTable, CanDelete, IsAbsent, clear_client_routes-All}
use secure_tunnel_cpp.SmartRoute
use secure_tunnel_cpp.SmartRoute.{
  Files, Options, SmartRouteManager, load_list_file, trim_copy, trim_front, trim_back,
  parse_cidr_prefix, start_domains, start_cidrs, start_worker,
}
use secure_tunnel_cpp.SmartRoute.Entries.{IsEntry, print_list, load_list_file-print_list}
use secure_tunnel_cpp.SmartRoute.Cidr.{IsSolid, parse_cidr_prefix-print}
use secure_tunnel_cpp.SmartRoute.Outcome.{Started, start-Started}
use secure_tunnel_cpp.Wintun.Calls.{new_manager}

-- A system whose table is a list of rows.
abbrev row_eq : Row → Row → Bool
row_eq a b =
    a.interface_luid == b.interface_luid
    && (a.destination == b.destination
        && (a.prefix_length == b.prefix_length
            && (a.next_hop == b.next_hop && a.metric == b.metric)))

unfoldable pub has_row : List Row → Row → Bool
has_row [] r = false
has_row (x ∷ xs) r = row_eq x r || has_row xs r

unfoldable pub without : List Row → Row → List Row
without [] r = []
without (x ∷ xs) r = let rest = without xs r in if row_eq x r then rest else x ∷ rest

abbrev pub gateway : Bytes
gateway = codes "10.66.66.1"

abbrev pub network : Bytes
network = codes "10.0.0.0"

abbrev pub machine : IpHelper
machine = record {
  State = List Row;
  wsa_startup = true;
  inet_pton = λ text.
      if text_eq text gateway
      then some 0x0a424201
      else if text_eq text network
      then some 0x0a000000
      else none;
  inet_ntop =
      λ n. if n == 0x0a424201 then some gateway else if n == 0x0a000000 then some network else none;
  getaddrinfo = λ s host. 0x08080808 ∷ [];
  get_ip_forward_table = λ s. some s;
  create_ip_forward_entry = λ s r. if has_row s r then (s, 5010) else (r ∷ s, 0);
  delete_ip_forward_entry = λ s r. (without s r, 0);
  create_unicast_ip_address_entry = λ s luid ip prefix. (s, 0);
  delete_unicast_ip_address_entry = λ s luid ip prefix. (s, 0);
  convert_interface_luid_to_guid = λ luid. some luid;
  get_module_handle = true;
  load_library = true;
  set_interface_dns_settings = some (λ s guid dns. (s, 0));
}

-- A machine with one default route, through interface 3.
abbrev pub lan : List Row
lan =
    record {
      interface_luid = 3;
      destination = 0;
      prefix_length = 0;
      ipv4 = true;
      next_hop = 0xc0a80001;
      metric = 25;
    }
    ∷ []

abbrev pub fresh_helper : WindowsNetConfigurator machine
fresh_helper = new_configurator machine lan

without-gone : (s : List Row) (r : Row) → has_row (without s r) r ≡ false
unfolding has_row without
without-gone [] r = refl
without-gone (x ∷ xs) r = ground (arith, without-gone xs r)

without-other :
    (s : List Row) (r r' : Row) → has_row s r' ≡ false → has_row (without s r) r' ≡ false
unfolding has_row without
without-other [] r r' h = refl
without-other (x ∷ xs) r r' h = ground (arith, without-other xs r r')

machine-IsTable : IsTable machine has_row
machine-IsTable = record { gone = λ s r _. without-gone s r; no_other = without-other }

machine-CanDelete : CanDelete machine
machine-CanDelete s r = refl

best_row-IsBest_example :
    All (λ r. eligible 7 r ≡ true → AtMost (best_row 7 lan none) r.metric) lan
    × ((b : Row) → best_row 7 lan none ≡ some b → IsChosen 7 b lan)
best_row-IsBest_example = best_row-IsBest 7 lan

abbrev two_calls : List (Keys.Call machine)
two_calls = bypass (codes "vpn.example") 7 ∷ prefix_route 7 network 8 gateway ∷ []

run-IsKept_example : IsKept machine (Keys.run machine (new_configurator machine lan) two_calls)
run-IsKept_example = run-IsKept machine lan two_calls

-- The helper with one prefix route.
abbrev routed : WindowsNetConfigurator machine
routed = (apply_prefix_route machine fresh_helper 7 network 8 gateway).0

clear_client_routes-All_example :
    All
      (IsAbsent machine has_row machine-IsTable machine-CanDelete
        (clear_client_routes machine routed).system)
      routed.selective_routes
    × ((g : ℕ)
        → routed.default_route_applied ≡ true
        → parse_ipv4 machine routed.default_gateway ≡ some g
        → has_row
            (clear_client_routes machine routed).system
            (fill_ipv4_forward_row routed.default_tunnel_luid 0 0 g)
          ≡ false)
    × ((clear_client_routes machine routed).selective_routes ≡ [])
    × ((clear_client_routes machine routed).default_route_applied ≡ false)
    × ((clear_client_routes machine routed).bypass_route_applied ≡ false)
clear_client_routes-All_example =
    clear_client_routes-All machine has_row machine-IsTable machine-CanDelete routed

abbrev list_path : Bytes
list_path = codes "cidrs.txt"

abbrev block : Bytes
block = codes "10.0.0.0/8"

abbrev pub list_files : Files
list_files path = if text_eq path list_path then some (block ++ 10 ∷ []) else none

block-IsEntry : IsEntry block
unfolding trim_copy trim_front trim_back isspace
block-IsEntry = record { some_text = refl; no_comment = ground arith; trimmed = refl }

block_is_one_line : Lacks 10 block
block_is_one_line = ground arith

load_list_file-print_list_example : load_list_file list_files list_path ≡ some (block ∷ [])
unfolding print_list
load_list_file-print_list_example =
    load_list_file-print_list list_files list_path (block ∷ []) (block-IsEntry, tt)
      (block_is_one_line, tt) refl

network-IsSolid : IsSolid network
unfolding isspace
network-IsSolid = ground arith

network_has_no_slash : Lacks b'/' network
network_has_no_slash = ground arith

-- `10.0.0.0/8x` is read as `10.0.0.0/8`.
parse_cidr_prefix-print_example :
    parse_cidr_prefix machine (codes "10.0.0.0/8x") ≡ some (network, 8)
unfolding isspace masked parse_ipv4 print_decimal
parse_cidr_prefix-print_example =
    parse_cidr_prefix-print machine network (codes "x") network 0x0a000000 8 network-IsSolid
      network_has_no_slash (omega arith) (refl, tt) refl refl refl refl

abbrev smart_options : Options
smart_options = record {
  tunnel_luid = 7;
  gateway_ipv4 = gateway;
  domain_list_path = [];
  cidr_list_path = list_path;
  refresh_interval = 300;
}

smart_starts : (SmartRoute.start machine list_files new_manager fresh_helper smart_options).2 ≡ true
unfolding SmartRoute.start start_domains start_cidrs start_worker
smart_starts = rw (load_list_file-print_list_example, start_worker) refl

start-Started_example :
    (0 < 7)
    × Started machine list_files new_manager smart_options
        (SmartRoute.start machine list_files new_manager fresh_helper smart_options).0
        (SmartRoute.start machine list_files new_manager fresh_helper smart_options).1
start-Started_example =
    start-Started machine list_files new_manager fresh_helper smart_options smart_starts
