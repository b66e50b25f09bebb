-- ===== src/RelayStats.antt =====
-- include/tunnel/relay_stats.hpp and src/relay_stats.cpp. The counters are std::uint64_t.
use secure_tunnel_cpp.Prelude.{ℕ, ◌+◌, ◌%◌, ◌^◌}

pub record RelayStats : Type 0 where
  pub relay_iterations : ℕ
  pub outbound_packets : ℕ
  pub outbound_bytes : ℕ
  pub inbound_packets : ℕ
  pub inbound_bytes : ℕ
  pub seal_errors : ℕ
  pub open_errors : ℕ
  pub transport_errors : ℕ

-- `n += k` on a std::uint64_t.
abbrev pub add_u64 : ℕ → ℕ → ℕ
add_u64 n k = (n + k) % 2 ^ 64

-- `reset` sets every counter, so its result does not depend on the old ones.
abbrev pub reset : RelayStats → RelayStats
reset s = record {
  relay_iterations = 0;
  outbound_packets = 0;
  outbound_bytes = 0;
  inbound_packets = 0;
  inbound_bytes = 0;
  seal_errors = 0;
  open_errors = 0;
  transport_errors = 0;
}
