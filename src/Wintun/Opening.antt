-- ===== src/Wintun/Opening.antt =====
-- What `open` of the Wintun interface ends with.
use secure_tunnel_cpp.Prelude.{
  ℕ, ◌≡◌, refl, sym, ◌∙◌, subst, ◌⊎◌, inl, inr, Bool, true, false, ◌&&◌, ◌||◌, not, [], arith, ltb,
  if◌then◌else◌, Bool-cases,
}
use secure_tunnel_cpp.NetConfig.{IpHelper, WindowsNetConfigurator}
use secure_tunnel_cpp.Wintun.Loader.{Windows, load}
use secure_tunnel_cpp.Wintun.Exports.{load-answers}
use secure_tunnel_cpp.Wintun.Resolved.{load-has}
use secure_tunnel_cpp.Wintun.Adapter.{
  ring_is_valid, fail, Driver, WintunVirtualInterface, close, open', open_adapter,
}
use secure_tunnel_cpp.Wintun.Lifecycle.{IsSound, close-IsClosed}
use secure_tunnel_cpp.Wintun.Answers.{
  IsReleased, IsReady, released, IsOpened, Answers, open_adapter-Answers,
}

module _ (h : IpHelper) (d : Driver) (w : Windows) where
  -- What `open` checks first.
  abbrev pub checks : ℕ → ℕ → Bool
  checks mtu ring = not (ltb mtu 1280 || ltb 1420 mtu) && ring_is_valid h d w ring

  abbrev reloaded : WintunVirtualInterface h d w → WintunVirtualInterface h d w
  reloaded v = record v { loader = (load w v.loader []).0 }

  open-cases :
      (v : WintunVirtualInterface h d w) (mtu : ℕ)
      → open' h d w v mtu ≡ (
          if not (checks mtu (close h d w v).ring_capacity)
          then fail h d w (close h d w v)
          else if not (load w (close h d w v).loader []).1
          then (
            record (reloaded (close h d w v)) {
              last_error = (load w (close h d w v).loader []).0.last_error;
            },
            false,
          )
          else open_adapter h d w (reloaded (close h d w v)) mtu)
  unfolding open'
  open-cases v mtu = ground arith

  if-Answers :
      (mtu : ℕ) (n : WindowsNetConfigurator h) (b : Bool)
      (r r' : WintunVirtualInterface h d w × Bool)
      → (b ≡ true → Answers h d w mtu n r)
      → (b ≡ false → Answers h d w mtu n r')
      → Answers h d w mtu n (if b then r else r')
  if-Answers mtu n true r r' o o' = o refl
  if-Answers mtu n false r r' o o' = o' refl

  refused-Answers :
      (mtu : ℕ) (n : WindowsNetConfigurator h) (v : WintunVirtualInterface h d w)
      → IsReleased h d w v
      → Answers h d w mtu n (v, false)
  refused-Answers mtu n v released = (λ ok. absurd (ground arith), λ bad. released)

  -- Both answers of `open`.
  open-Answers :
      (v : WintunVirtualInterface h d w) (mtu : ℕ)
      → IsSound h d w v
      → Answers h d w mtu (close h d w v).net_config (open' h d w v mtu)
        × ((open' h d w v mtu).1 ≡ true → checks mtu (close h d w v).ring_capacity ≡ true)
  open-Answers v mtu sound =
      let c = close h d w v in
      let closed = close-IsClosed h d w v sound in
      let (loads, error) = load-answers w c.loader [] in
      let ready : (load w c.loader []).1 ≡ true → IsReady h d w (load w c.loader []).0 = λ ok.
        let (can_end, can_close) = load-has w c.loader [] ok in
        (sym loads ∙ ok, can_end, can_close) in
      (
        subst (Answers h d w mtu c.net_config) (sym (open-cases v mtu)) (
            if-Answers mtu _ (not (checks mtu c.ring_capacity)) _ _
              (λ e.
                refused-Answers mtu _ _
                  (released h d w closed.session closed.adapter closed.unloaded))
              (λ e.
                if-Answers mtu _ (not (load w c.loader []).1) _ _
                  (λ e'.
                    refused-Answers mtu _ _
                      (released h d w closed.session closed.adapter (ground (arith, loads))))
                  (λ e'.
                    open_adapter-Answers h d w (reloaded c) mtu closed.session closed.adapter
                      (ready (ground arith)) closed.network closed.routes))),
        λ ok. ground (arith, open-cases v mtu),
      )

  -- What `open` ends with, from the closed interface on.
  abbrev pub Outcome :
      ℕ → WintunVirtualInterface h d w → WintunVirtualInterface h d w × Bool → Type 0
  Outcome mtu c r =
      ((r.1 ≡ true) × (checks mtu c.ring_capacity ≡ true) × IsOpened h d w mtu c.net_config r.0)
      ⊎ ((r.1 ≡ false) × IsReleased h d w r.0)

  -- `open` on each branch, for an interface that holds handles only with the library loaded. It
  -- succeeds only with an MTU from 1280 to 1420 and a valid ring; then it holds a session and an
  -- adapter with the library loaded, has that MTU, has called `apply_ipv4` exactly if it is to,
  -- and has no routes. Where it fails, it holds no session, no adapter and no library.
  pub open-Outcome :
      (v : WintunVirtualInterface h d w) (mtu : ℕ)
      → IsSound h d w v
      → Outcome mtu (close h d w v) (open' h d w v mtu)
  open-Outcome v mtu sound =
      let ((opened, released'), checked) = open-Answers v mtu sound in
      elim (Bool-cases (open' h d w v mtu).1) [
        | inl ok ↦ inl (ok, checked ok, opened ok)
        | inr bad ↦ inr (bad, released' bad)
      ]
