-- ===== src/LinuxTun.antt =====
-- `LinuxTunVirtualInterface` of src/linux_tun_virtual_interface.cpp. The calls of the kernel are the
-- fields of `Kernel`; a file descriptor is a number, `none` the -1 of the source. An error is
-- whether its text is not empty. The two routing functions are those of the base class in
-- include/tunnel/tunnel_engine.hpp.
pub mod Descriptors
pub mod Leaks
use secure_tunnel_cpp.Prelude.{
  ℕ, zero, suc, ◌+◌, ◌-◌, ◌*◌, ◌/◌, ◌%◌, ◌^◌, ◌≤◌, ◌<◌, min, max, bit_and, ◌≡◌, refl, sym, ap, ◌∙◌,
  subst, ◌≢◌, ◌↔◌, ◌⊎◌, inl, inr, Bool, true, false, ◌&&◌, ◌||◌, not, Option, none, some, List, [],
  ◌∷◌, ◌++◌, map, append-nil, append_assoc, arith, ltb, leb, ◌==◌, if◌then◌else◌, ltb→lt, lt→ltb,
  leb→le, ltb→le, le→ltb, ==_iff, ==_refl, Bool-cases, Option-cases, length, get_or, take, drop,
  length-append, length-take, length-drop, take-append, drop-append, take_all, take-append_drop,
  take_prefix, drop_prefix, drop-drop, All, All-append, All-take, All-drop, All-map, Bytes, IsByte,
  codes, is_empty, text_eq, text_eq_sound, text_eq_refl,
}
use secure_tunnel_cpp.Engine.{VirtualInterface}

-- `open` of /dev/net/tun, TUNSETIFF with the name that the kernel chose, `read` of at most so many
-- bytes (`none` for -1), `write` with the number of bytes written, `close`. `again` says whether
-- errno is EAGAIN or EWOULDBLOCK.
pub record Kernel : Type 1 where
  pub State : Type 0
  pub open_tun : State → State × Option ℕ
  pub set_iff : State → ℕ → Bytes → State × Option Bytes
  pub read : State → ℕ → ℕ → State × Option Bytes
  pub again : State → Bool
  pub write : State → ℕ → Bytes → State × Option ℕ
  pub close_fd : State → ℕ → State

module _ (k : Kernel) where
  pub record LinuxTunVirtualInterface : Type 0 where
    pub interface_name : Bytes
    pub last_error : Bool
    pub fd : Option ℕ
    pub mtu : ℕ
    pub kernel : k.State

  -- The constructor.
  abbrev pub new_tun : Bytes → k.State → LinuxTunVirtualInterface
  new_tun interface_name kernel = record {
    interface_name = interface_name;
    last_error = false;
    fd = none;
    mtu = 1280;
    kernel = kernel;
  }

  unfoldable pub close : LinuxTunVirtualInterface → LinuxTunVirtualInterface
  close v = elim (v.fd) [
    | none ↦ v
    | some fd ↦ record v { kernel = k.close_fd v.kernel fd; fd = none }
  ]

  -- `last_error_ = ...; close(); return false;`
  abbrev abandon : LinuxTunVirtualInterface → LinuxTunVirtualInterface × Bool
  abandon v = (close (record v { last_error = true }), false)

  -- From the name on; IFNAMSIZ is 16.
  unfoldable pub configure : LinuxTunVirtualInterface → ℕ → ℕ → LinuxTunVirtualInterface × Bool
  configure v fd mtu =
      if leb 16 (length v.interface_name)
      then abandon v
      else let (s, name) = k.set_iff v.kernel fd v.interface_name in
        let v' : LinuxTunVirtualInterface = record v { kernel = s } in
        elim name [
          | none ↦ abandon v'
          | some name ↦ (record v' { interface_name = name; mtu = mtu; last_error = false }, true)
        ]

  unfoldable pub open' : LinuxTunVirtualInterface → ℕ → LinuxTunVirtualInterface × Bool
  open' v mtu =
      let v' = close v in
      if ltb mtu 1280 || ltb 1420 mtu
      then (record v' { last_error = true }, false)
      else let (s, opened) = k.open_tun v'.kernel in
        let v'' : LinuxTunVirtualInterface = record v' { kernel = s; fd = opened } in
        elim opened [
          | none ↦ (record v'' { last_error = true }, false)
          | some fd ↦ configure v'' fd mtu
        ]

  -- No bytes and an error, and bytes; `read` gives at most as many as the buffer holds.
  unfoldable pub read_packet : LinuxTunVirtualInterface → LinuxTunVirtualInterface × Bytes
  read_packet v = elim (v.fd) [
    | none ↦ (v, [])
    | some fd ↦
        let (s, bytes_read) = k.read v.kernel fd v.mtu in
        let v' : LinuxTunVirtualInterface = record v { kernel = s } in
        let failed' : LinuxTunVirtualInterface =
          if k.again s then v' else record v' { last_error = true } in
        elim bytes_read [
          | none ↦ (failed', [])
          | some bytes ↦ if is_empty bytes then (failed', []) else (v', bytes)
        ]
  ]

  unfoldable pub write_packet : LinuxTunVirtualInterface → Bytes → LinuxTunVirtualInterface × Bool
  write_packet v packet = elim (v.fd) [
    | none ↦ (v, false)
    | some fd ↦
        if is_empty packet
        then (v, false)
        else let (s, bytes_written) = k.write v.kernel fd packet in
          let v' : LinuxTunVirtualInterface = record v { kernel = s } in
          elim bytes_written [
            | none ↦ (record v' { last_error = true }, false)
            | some n ↦
                if n == length packet then (v', true) else (record v' { last_error = true }, false)
          ]
  ]

  -- The class as the engine's interface.
  abbrev pub linux_tun : VirtualInterface
  linux_tun = record {
    State = LinuxTunVirtualInterface;
    open' = open';
    read_packet = read_packet;
    write_packet = write_packet;
    close = close;
    apply_client_routing = λ v config. (v, true);
    clear_client_routing = λ v. v;
  }
