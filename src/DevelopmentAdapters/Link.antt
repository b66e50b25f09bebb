-- ===== src/DevelopmentAdapters/Link.antt =====
-- The links between the two ends of a development transport, src/development_adapters.cpp, on an
-- explicit heap: `g_links` holds the only owner of each link.
use secure_tunnel_cpp.Prelude.{ℕ, ◌+◌, Option, none, some, List, [], ◌==◌, if◌then◌else◌, Bytes}

-- The queues hold their oldest packet first.
pub record DevelopmentTransportLink : Type 0 where
  pub to_server : List Bytes
  pub to_client : List Bytes

abbrev pub new_link : DevelopmentTransportLink
new_link = record { to_server = []; to_client = [] }

-- `g_links` by port, and the links by address. Addresses from `next_address` on are unused.
pub record World : Type 0 where
  pub g_links : ℕ → Option ℕ
  pub heap : ℕ → Option DevelopmentTransportLink
  pub next_address : ℕ

abbrev pub update {ℓ} : {A : Type ℓ} → (ℕ → A) → ℕ → A → ℕ → A
update f k v j = if k == j then v else f j

abbrev pub empty_world : World
empty_world = record { g_links = λ _. none; heap = λ _. none; next_address = 0 }

unfoldable pub link_for_port : World → ℕ → World × ℕ
link_for_port w port = elim (w.g_links port) [
  | some a ↦ (w, a)
  | none ↦ (
    record {
      g_links = update w.g_links port (some w.next_address);
      heap = update w.heap w.next_address (some new_link);
      next_address = w.next_address + 1;
    },
    w.next_address,
  )
]

-- Erasing the entry destroys the link.
unfoldable pub reset_link_for_port : World → ℕ → World
reset_link_for_port w port = elim (w.g_links port) [
  | none ↦ w
  | some a ↦ record w { g_links = update w.g_links port none; heap = update w.heap a none }
]
