-- ===== src/Wintun/Ledger.antt =====
-- The calls of the driver and of Windows that take a handle and that give it back, in
-- src/wintun_virtual_interface.cpp and src/wintun_loader.cpp.
use secure_tunnel_cpp.Prelude.{ℕ, ◌+◌, ◌≡◌, Option, none, some, arith, ◌==◌, if◌then◌else◌, Bytes}
use secure_tunnel_cpp.Wintun.Loader.{Windows}
use secure_tunnel_cpp.Wintun.Adapter.{Driver}

-- How often the handle `x` is in the answer of a call.
abbrev pub one : Option ℕ → ℕ → ℕ
one none x = 0
one (some a) x = if a == x then 1 else 0

-- The calls for the handle `x` that a driver has got: its adapters opened or created and closed, its
-- sessions started and ended. Each call adds to the count that names it and to no other.
pub record DriverLog (d : Driver) (x : ℕ) : Type 0 where
  pub opened : d.State → ℕ
  pub closed : d.State → ℕ
  pub started : d.State → ℕ
  pub ended : d.State → ℕ
  pub opens :
      (s : d.State)
      → (opened (d.open_adapter s).0 ≡ opened s + one (d.open_adapter s).1 x)
        × (closed (d.open_adapter s).0 ≡ closed s)
        × (started (d.open_adapter s).0 ≡ started s)
        × (ended (d.open_adapter s).0 ≡ ended s)
  pub creates :
      (s : d.State)
      → (opened (d.create_adapter s).0 ≡ opened s + one (d.create_adapter s).1 x)
        × (closed (d.create_adapter s).0 ≡ closed s)
        × (started (d.create_adapter s).0 ≡ started s)
        × (ended (d.create_adapter s).0 ≡ ended s)
  pub closes :
      (s : d.State) (a : ℕ)
      → (opened (d.close_adapter s a) ≡ opened s)
        × (closed (d.close_adapter s a) ≡ closed s + one (some a) x)
        × (started (d.close_adapter s a) ≡ started s)
        × (ended (d.close_adapter s a) ≡ ended s)
  pub starts :
      (s : d.State) (a ring : ℕ)
      → (opened (d.start_session s a ring).0 ≡ opened s)
        × (closed (d.start_session s a ring).0 ≡ closed s)
        × (started (d.start_session s a ring).0 ≡ started s + one (d.start_session s a ring).1 x)
        × (ended (d.start_session s a ring).0 ≡ ended s)
  pub ends :
      (s : d.State) (n : ℕ)
      → (opened (d.end_session s n) ≡ opened s)
        × (closed (d.end_session s n) ≡ closed s)
        × (started (d.end_session s n) ≡ started s)
        × (ended (d.end_session s n) ≡ ended s + one (some n) x)
  pub receives :
      (s : d.State) (n : ℕ)
      → (opened (d.receive_packet s n).0 ≡ opened s)
        × (closed (d.receive_packet s n).0 ≡ closed s)
        × (started (d.receive_packet s n).0 ≡ started s)
        × (ended (d.receive_packet s n).0 ≡ ended s)
  pub allocates :
      (s : d.State) (n size : ℕ)
      → (opened (d.allocate_send_packet s n size).0 ≡ opened s)
        × (closed (d.allocate_send_packet s n size).0 ≡ closed s)
        × (started (d.allocate_send_packet s n size).0 ≡ started s)
        × (ended (d.allocate_send_packet s n size).0 ≡ ended s)
  pub sends :
      (s : d.State) (n : ℕ) (packet : Bytes)
      → (opened (d.send_packet s n packet) ≡ opened s)
        × (closed (d.send_packet s n packet) ≡ closed s)
        × (started (d.send_packet s n packet) ≡ started s)
        × (ended (d.send_packet s n packet) ≡ ended s)

-- The calls for the module `x` that Windows has got.
pub record LibraryLog (w : Windows) (x : ℕ) : Type 0 where
  pub loaded : w.State → ℕ
  pub freed : w.State → ℕ
  pub loads :
      (s : w.State) (path : Bytes)
      → (loaded (w.load_library s path).0 ≡ loaded s + one (w.load_library s path).1 x)
        × (freed (w.load_library s path).0 ≡ freed s)
  pub frees :
      (s : w.State) (m : ℕ)
      → (loaded (w.free_library s m) ≡ loaded s)
        × (freed (w.free_library s m) ≡ freed s + one (some m) x)

module _ (d : Driver) (x : ℕ) (log : DriverLog d x) (s0 : d.State) where
  -- Since the state `s0`, the adapter `x` has been closed as often as it has been taken, but for the one
  -- that is held.
  abbrev pub AdapterEven : d.State → Option ℕ → Type 0
  AdapterEven s a = log.opened s + log.closed s0 ≡ log.closed s + log.opened s0 + one a x

  -- The same of sessions.
  abbrev pub SessionEven : d.State → Option ℕ → Type 0
  SessionEven s n = log.started s + log.ended s0 ≡ log.ended s + log.started s0 + one n x

  abbrev pub Even : d.State → Option ℕ → Option ℕ → Type 0
  Even s a n = AdapterEven s a × SessionEven s n

  pub open-Even :
      (s : d.State) → Even s none none → Even (d.open_adapter s).0 (d.open_adapter s).1 none
  open-Even s (a, n) = let (o, c, t, e) = log.opens s in (omega arith, omega arith)

  pub create-Even :
      (s : d.State) → Even s none none → Even (d.create_adapter s).0 (d.create_adapter s).1 none
  create-Even s (a, n) = let (o, c, t, e) = log.creates s in (omega arith, omega arith)

  pub start-Even :
      (s : d.State) (b ring : ℕ) (adapter : Option ℕ)
      → Even s adapter none
      → Even (d.start_session s b ring).0 adapter (d.start_session s b ring).1
  start-Even s b ring adapter (a, n) =
      let (o, c, t, e) = log.starts s b ring in (omega arith, omega arith)

  pub close-Even :
      (s : d.State) (b : ℕ) (session : Option ℕ)
      → Even s (some b) session
      → Even (d.close_adapter s b) none session
  close-Even s b session (a, n) = let (o, c, t, e) = log.closes s b in (omega arith, omega arith)

  pub end-Even :
      (s : d.State) (b : ℕ) (adapter : Option ℕ)
      → Even s adapter (some b)
      → Even (d.end_session s b) adapter none
  end-Even s b adapter (a, n) = let (o, c, t, e) = log.ends s b in (omega arith, omega arith)

  pub receive-Even :
      (s : d.State) (b : ℕ) (adapter session : Option ℕ)
      → Even s adapter session
      → Even (d.receive_packet s b).0 adapter session
  receive-Even s b adapter session (a, n) =
      let (o, c, t, e) = log.receives s b in (omega arith, omega arith)

  pub allocate-Even :
      (s : d.State) (b size : ℕ) (adapter session : Option ℕ)
      → Even s adapter session
      → Even (d.allocate_send_packet s b size).0 adapter session
  allocate-Even s b size adapter session (a, n) =
      let (o, c, t, e) = log.allocates s b size in (omega arith, omega arith)

  pub send-Even :
      (s : d.State) (b : ℕ) (packet : Bytes) (adapter session : Option ℕ)
      → Even s adapter session
      → Even (d.send_packet s b packet) adapter session
  send-Even s b packet adapter session (a, n) =
      let (o, c, t, e) = log.sends s b packet in (omega arith, omega arith)
