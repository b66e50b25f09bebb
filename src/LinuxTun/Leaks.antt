-- ===== src/LinuxTun/Leaks.antt =====
-- Any calls of the Linux interface, from its constructor on.
use secure_tunnel_cpp.Prelude.{ℕ, ◌≡◌, Bool, ◌||◌, none, List, [], ◌∷◌, arith, Bytes}
use secure_tunnel_cpp.LinuxTun.{
  Kernel, LinuxTunVirtualInterface, new_tun, close, open', read_packet, write_packet,
}
use secure_tunnel_cpp.LinuxTun.Descriptors.{
  IsDescribed, holds_fd, Holds, close-fd, close-open_in, close-Holds, open-Holds, read-Holds,
  write-Holds,
}

module _ (k : Kernel) where
  -- The public calls.
  pub data Call : Type 0 where
    opens : ℕ → Call
    reads : Call
    writes : Bytes → Call
    closes : Call

  pub step : LinuxTunVirtualInterface k → Call → LinuxTunVirtualInterface k
  step v (opens mtu) = (open' k v mtu).0
  step v reads = (read_packet k v).0
  step v (writes packet) = (write_packet k v packet).0
  step v closes = close k v

  pub run : LinuxTunVirtualInterface k → List Call → LinuxTunVirtualInterface k
  run v [] = v
  run v (c ∷ cs) = run (step v c) cs

  module _ (open_in : k.State → ℕ → Bool) (described : IsDescribed k open_in) where
    step-Holds :
        (before : ℕ → Bool) (v : LinuxTunVirtualInterface k) (c : Call)
        → Holds k open_in described before v
        → Holds k open_in described before (step v c)
    unfolding step
    step-Holds before v (opens mtu) holds = open-Holds k open_in described before v mtu holds
    step-Holds before v reads holds = read-Holds k open_in described before v holds
    step-Holds before v (writes packet) holds =
        write-Holds k open_in described before v packet holds
    step-Holds before v closes holds = close-Holds k open_in described before v holds

    run-Holds :
        (before : ℕ → Bool) (v : LinuxTunVirtualInterface k) (cs : List Call)
        → Holds k open_in described before v
        → Holds k open_in described before (run v cs)
    unfolding run
    run-Holds before v [] holds = holds
    run-Holds before v (c ∷ cs) holds = run-Holds before (step v c) cs (step-Holds before v c holds)

    -- No descriptor leaks: whatever has been called on a new interface, failed calls among them, and
    -- whatever the kernel answers, the open descriptors are those from before the first call and the
    -- one that the interface holds; after `close` they are those from before, and it holds none.
    pub no_descriptor_leaks :
        (name : Bytes) (s : k.State) (cs : List Call)
        → ((x : ℕ)
            → open_in (run (new_tun k name s) cs).kernel x
              ≡ (open_in s x || holds_fd (run (new_tun k name s) cs).fd x))
          × ((x : ℕ) → open_in (close k (run (new_tun k name s) cs)).kernel x ≡ open_in s x)
          × ((close k (run (new_tun k name s) cs)).fd ≡ none)
    no_descriptor_leaks name s cs =
        let v = run (new_tun k name s) cs in
        let holds =
          run-Holds (open_in s) (new_tun k name s) cs
            (λ x. ground arith, λ fd held. absurd (ground arith)) in
        (holds.0, close-open_in k open_in described (open_in s) v holds, close-fd k v)
