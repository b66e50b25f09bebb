-- ===== src/LinuxTun/Descriptors.antt =====
-- The file descriptor of the Linux interface.
use secure_tunnel_cpp.Prelude.{
  ℕ, ◌≤◌, ◌≡◌, refl, sym, ap, ◌∙◌, subst, ◌⊎◌, inl, inr, Bool, true, false, ◌&&◌, ◌||◌, not, Option,
  none, some, arith, ltb, ◌==◌, Bool-cases, Option-cases, Bytes,
}
use secure_tunnel_cpp.LinuxTun.{
  Kernel, LinuxTunVirtualInterface, close, configure, open', read_packet, write_packet,
}

-- The documented behaviour of the calls on the open descriptors, `open_in` saying which are open:
-- a new descriptor was not open before, and only `close` closes one, the one that it names.
pub record IsDescribed (k : Kernel) (open_in : k.State → ℕ → Bool) : Type 0 where
  pub opened :
      (s : k.State) (fd x : ℕ)
      → (k.open_tun s).1 ≡ some fd
      → open_in (k.open_tun s).0 x ≡ (open_in s x || x == fd)
  pub was_closed : (s : k.State) (fd : ℕ) → (k.open_tun s).1 ≡ some fd → open_in s fd ≡ false
  pub not_opened :
      (s : k.State) (x : ℕ) → (k.open_tun s).1 ≡ none → open_in (k.open_tun s).0 x ≡ open_in s x
  pub configured :
      (s : k.State) (fd : ℕ) (n : Bytes) (x : ℕ) → open_in (k.set_iff s fd n).0 x ≡ open_in s x
  pub was_read : (s : k.State) (fd n x : ℕ) → open_in (k.read s fd n).0 x ≡ open_in s x
  pub was_written :
      (s : k.State) (fd : ℕ) (p : Bytes) (x : ℕ) → open_in (k.write s fd p).0 x ≡ open_in s x
  pub closed :
      (s : k.State) (fd x : ℕ) → open_in (k.close_fd s fd) x ≡ (open_in s x && not (x == fd))

-- Whether an interface holds a descriptor.
abbrev pub holds_fd : Option ℕ → ℕ → Bool
holds_fd none x = false
holds_fd (some fd) x = x == fd

module _ (k : Kernel) where
  pub close-fd : (v : LinuxTunVirtualInterface k) → (close k v).fd ≡ none
  unfolding close
  close-fd v = ground arith

  configure-fd :
      (v : LinuxTunVirtualInterface k) (fd mtu : ℕ)
      → v.fd ≡ some fd
      → (((configure k v fd mtu).1 ≡ true)
          × ((configure k v fd mtu).0.fd ≡ some fd)
          × ((configure k v fd mtu).0.mtu ≡ mtu))
        ⊎ (((configure k v fd mtu).1 ≡ false) × ((configure k v fd mtu).0.fd ≡ none))
  unfolding configure
  configure-fd v fd mtu at = grind (arith, close-fd)

  -- `open` on each branch: it succeeds only with an MTU from 1280 to 1420, and then the interface
  -- holds a descriptor and has that MTU; where it fails, it holds none.
  pub open_outcome :
      (v : LinuxTunVirtualInterface k) (mtu : ℕ)
      → (((open' k v mtu).1 ≡ true)
          × (1280 ≤ mtu)
          × (mtu ≤ 1420)
          × ((fd : ℕ) × ((open' k v mtu).0.fd ≡ some fd))
          × ((open' k v mtu).0.mtu ≡ mtu))
        ⊎ (((open' k v mtu).1 ≡ false) × ((open' k v mtu).0.fd ≡ none))
  unfolding open'
  open_outcome v mtu = grind (arith, close-fd, configure-fd)

  module _ (open_in : k.State → ℕ → Bool) (described : IsDescribed k open_in) where
    -- The open descriptors are those that were open before and the interface's own, a new one.
    abbrev pub Holds : (ℕ → Bool) → LinuxTunVirtualInterface k → Type 0
    Holds before v =
        ((x : ℕ) → open_in v.kernel x ≡ (before x || holds_fd v.fd x))
        × ((fd : ℕ) → v.fd ≡ some fd → before fd ≡ false)

    -- After `close` they are those from before.
    pub close-open_in :
        (before : ℕ → Bool) (v : LinuxTunVirtualInterface k)
        → Holds before v
        → (x : ℕ) → open_in (close k v).kernel x ≡ before x
    unfolding close
    close-open_in before v (all, mine) x = elim (Option-cases v.fd) [
      | inl none_held ↦ ground (arith, all x)
      | inr (fd, held) ↦
          let owned : before fd ≡ false = mine fd held in
          ground (arith, all x, described.closed v.kernel fd x, ap before)
    ]

    pub close-Holds :
        (before : ℕ → Bool) (v : LinuxTunVirtualInterface k)
        → Holds before v
        → Holds before (close k v)
    close-Holds before v holds =
        let none_held = close-fd v in
        (
          λ x. ground (arith, none_held, close-open_in before v holds x),
          λ fd held. absurd (ground (arith, none_held)),
        )

    -- The same descriptors, in the kernel and in the interface.
    same-Holds :
        (before : ℕ → Bool) (v r : LinuxTunVirtualInterface k)
        → ((x : ℕ) → open_in r.kernel x ≡ open_in v.kernel x)
        → r.fd ≡ v.fd
        → Holds before v
        → Holds before r
    same-Holds before v r same fd (all, mine) = (
      λ x. same x ∙ (all x ∙ ap (λ f. before x || holds_fd f x) (sym fd)),
      λ n held. mine n (sym fd ∙ held),
    )

    -- The interface after `ioctl`.
    abbrev asked : LinuxTunVirtualInterface k → ℕ → LinuxTunVirtualInterface k
    asked v fd = record v { kernel = (k.set_iff v.kernel fd v.interface_name).0 }

    abbrev abandoned : LinuxTunVirtualInterface k → LinuxTunVirtualInterface k
    abandoned v = close k (record v { last_error = true })

    configure-cases :
        (v : LinuxTunVirtualInterface k) (fd mtu : ℕ)
        → ((configure k v fd mtu).0 ≡ abandoned v)
          ⊎ (((configure k v fd mtu).0 ≡ abandoned (asked v fd))
              ⊎ (((configure k v fd mtu).0.kernel ≡ (asked v fd).kernel)
                  × ((configure k v fd mtu).0.fd ≡ v.fd)))
    unfolding configure
    configure-cases v fd mtu = ground arith

    configure-Holds :
        (before : ℕ → Bool) (v : LinuxTunVirtualInterface k) (fd mtu : ℕ)
        → Holds before v
        → Holds before (configure k v fd mtu).0
    configure-Holds before v fd mtu holds =
        let same : (x : ℕ) → open_in (asked v fd).kernel x ≡ open_in v.kernel x =
          described.configured v.kernel fd v.interface_name in
        let holds' : Holds before (asked v fd) = same-Holds before v (asked v fd) same refl holds in
        elim (configure-cases v fd mtu) [
          | inl at ↦
              subst (Holds before) (sym at)
                (close-Holds before (record v { last_error = true }) holds)
          | inr (inl at) ↦
              subst (Holds before) (sym at)
                (close-Holds before (record (asked v fd) { last_error = true }) holds')
          | inr (inr (kernel, same_fd)) ↦
              same-Holds before (asked v fd) (configure k v fd mtu).0
                (λ x. ap (λ s. open_in s x) kernel) same_fd holds'
        ]

    -- The interface after `open` of /dev/net/tun.
    abbrev entered : LinuxTunVirtualInterface k → LinuxTunVirtualInterface k
    entered v = record v { kernel = (k.open_tun v.kernel).0; fd = (k.open_tun v.kernel).1 }

    entered-Holds :
        (before : ℕ → Bool) (v : LinuxTunVirtualInterface k)
        → v.fd ≡ none
        → Holds before v
        → Holds before (entered v)
    entered-Holds before v none_held (all, mine) = elim (Option-cases (k.open_tun v.kernel).1) [
      | inl refused ↦ (
        λ x. ground (arith, all x, described.not_opened v.kernel x refused),
        λ n held. absurd (ground arith),
      )
      | inr (fd, new) ↦ (
        λ x. ground (arith, all x, described.opened v.kernel fd x new),
        λ n held. ground (arith, all n, described.was_closed v.kernel n held),
      )
    ]

    open-cases :
        (v : LinuxTunVirtualInterface k) (mtu : ℕ)
        → ((open' k v mtu).0 ≡ record (close k v) { last_error = true })
          ⊎ (((open' k v mtu).0 ≡ record (entered (close k v)) { last_error = true })
              ⊎ ((fd : ℕ) × ((open' k v mtu).0 ≡ (configure k (entered (close k v)) fd mtu).0)))
    unfolding open'
    open-cases v mtu = elim (Option-cases (k.open_tun (close k v).kernel).1) [
      | inl refused ↦ ground arith
      | inr (fd, new) ↦ elim (Bool-cases (ltb mtu 1280 || ltb 1420 mtu)) [
        | inl bad ↦ inl (ground arith)
        | inr good ↦ inr (inr (fd, ground arith))
      ]
    ]

    pub open-Holds :
        (before : ℕ → Bool) (v : LinuxTunVirtualInterface k) (mtu : ℕ)
        → Holds before v
        → Holds before (open' k v mtu).0
    open-Holds before v mtu holds =
        let holds' = close-Holds before v holds in
        let holds'' = entered-Holds before (close k v) (close-fd v) holds' in
        elim (open-cases v mtu) [
          | inl at ↦ subst (Holds before) (sym at) holds'
          | inr (inl at) ↦ subst (Holds before) (sym at) holds''
          | inr (inr (fd, at)) ↦
              subst (Holds before) (sym at)
                (configure-Holds before (entered (close k v)) fd mtu holds'')
        ]

    pub read-Holds :
        (before : ℕ → Bool) (v : LinuxTunVirtualInterface k)
        → Holds before v
        → Holds before (read_packet k v).0
    unfolding read_packet
    read-Holds before v =
        same-Holds before v (read_packet k v).0 (λ x. grind (arith, described.was_read))
          (ground arith)

    pub write-Holds :
        (before : ℕ → Bool) (v : LinuxTunVirtualInterface k) (p : Bytes)
        → Holds before v
        → Holds before (write_packet k v p).0
    unfolding write_packet
    write-Holds before v p =
        same-Holds before v (write_packet k v p).0 (λ x. grind (arith, described.was_written))
          (ground arith)
