-- ===== src/Wintun/Tunnel.antt =====
-- The tunnel engine of src/tunnel_engine.cpp over the Wintun interface, as the client's program on
-- Windows builds it, with the worker of the smart routes between the engine's calls.
use secure_tunnel_cpp.Prelude.{ℕ, ◌≡◌, refl, sym, subst, Bool, Option, List, [], ◌∷◌, arith}
use secure_tunnel_cpp.Config.{TunnelConfig, Ipv4InterfaceConfig}
use secure_tunnel_cpp.NetConfig.{IpHelper}
use secure_tunnel_cpp.SmartRoute.{Files}
use secure_tunnel_cpp.Engine.{Parts, TunnelEngine, construct}
use secure_tunnel_cpp.Engine.Loop.{stop}
use secure_tunnel_cpp.Engine.Calls
use secure_tunnel_cpp.Engine.Interface.{IsInvariant, step-Has}
use secure_tunnel_cpp.Wintun.Loader.{Windows}
use secure_tunnel_cpp.Wintun.Adapter.{Driver, WintunVirtualInterface, clear_routes, close}
use secure_tunnel_cpp.Wintun.Routing.{wintun, worker_round}
use secure_tunnel_cpp.Wintun.Lifecycle.{IsClosed, close-IsClosed}
use secure_tunnel_cpp.Wintun.Clean.{IsUnrouted, close-IsUnrouted}
use secure_tunnel_cpp.Wintun.Ledger.{DriverLog, LibraryLog}
use secure_tunnel_cpp.Wintun.Balance.{close-Balanced}
use secure_tunnel_cpp.Wintun.Settled.{
  IsAccounted, IsSettled, step-IsAccounted, released-IsSettled, unloaded-none,
}
use secure_tunnel_cpp.Wintun.Calls.{
  Call, step, new_interface, opens, closes, routes, clears, reads, writes, refreshes,
}

module _ (h : IpHelper) (d : Driver) (win : Windows) (files : Files) (p : Parts) where
  -- The engine's parts, with this interface.
  abbrev pub parts : Parts
  parts = record p { vif = wintun h d win files }

  -- A call of the engine, or a refresh by the worker.
  pub data Event : Type 0 where
    calls : Calls.Call → Event
    worker : List Bool → Event

  pub after_event : TunnelEngine parts → Event → TunnelEngine parts
  after_event e (calls c) = Calls.step parts e c
  after_event e (worker stops) = record e {
    virtual_interface = worker_round h d win stops e.virtual_interface;
  }

  pub after_events : TunnelEngine parts → List Event → TunnelEngine parts
  after_events e [] = e
  after_events e (x ∷ xs) = after_events (after_event e x) xs

  stop-vif :
      (e : TunnelEngine parts)
      → (stop parts e).virtual_interface ≡ close h d win (clear_routes h d win e.virtual_interface)
  unfolding stop
  stop-vif e = ground arith

  module _ (x : ℕ) (log : DriverLog d x) (libraries : LibraryLog win x) (driver : d.State)
      (windows : win.State) where
    abbrev Accounted : WintunVirtualInterface h d win → Type 0
    Accounted v = IsAccounted h d win x log libraries driver windows v

    step-Accounted :
        (v : WintunVirtualInterface h d win) (c : Call h d win)
        → Accounted v
        → Accounted (step h d win v c)
    step-Accounted v c a = step-IsAccounted h d win x log libraries driver windows v c a

    wintun-IsInvariant : IsInvariant (wintun h d win files) Accounted
    unfolding step
    wintun-IsInvariant = record {
      opens = λ v mtu. step-Accounted v (opens mtu);
      reads = λ v. step-Accounted v reads;
      writes = λ v packet. step-Accounted v (writes packet);
      closes = λ v. step-Accounted v closes;
      routes = λ v config. step-Accounted v (routes files config);
      clears = λ v. step-Accounted v clears;
    }

    abbrev Holds : TunnelEngine parts → Type 0
    Holds e = Accounted e.virtual_interface

    after_event-Holds : (e : TunnelEngine parts) (y : Event) → Holds e → Holds (after_event e y)
    unfolding after_event step
    after_event-Holds e (calls c) a = step-Has parts Accounted wintun-IsInvariant e c a
    after_event-Holds e (worker stops) a = step-Accounted e.virtual_interface (refreshes stops) a

    after_events-Holds :
        (e : TunnelEngine parts) (ys : List Event) → Holds e → Holds (after_events e ys)
    unfolding after_events
    after_events-Holds e [] a = a
    after_events-Holds e (y ∷ ys) a =
        after_events-Holds (after_event e y) ys (after_event-Holds e y a)

    -- A closed interface, with its calls in balance.
    pub record IsGivenBack (v : WintunVirtualInterface h d win) : Type 0 where
      pub closed : IsClosed h d win v
      pub unrouted : IsUnrouted h d win v
      pub settled : IsSettled h d win x log libraries driver windows v

    close-IsGivenBack :
        (v : WintunVirtualInterface h d win) → Accounted v → IsGivenBack (close h d win v)
    close-IsGivenBack v ((sound, clean), b) =
        let shut = close-IsClosed h d win v sound in
        record {
          closed = shut;
          unrouted = close-IsUnrouted h d win v clean;
          settled =
              released-IsSettled h d win x log libraries driver windows (close h d win v)
                shut.session shut.adapter (unloaded-none win (close h d win v).loader shut.unloaded)
                (close-Balanced h d win x log libraries driver windows v b);
        }

    -- Stopping the engine, whatever has been called on a new engine over a new Wintun interface, with
    -- refreshes by the worker in between, and whatever the driver, the system and the other parts
    -- answer, where the driver and Windows record their calls for the handle `x`: after `stop` the
    -- driver has got, since the construction, as many calls that close the adapter `x` as calls that
    -- took it, as many that end the session `x` as calls that started it, and Windows has freed the
    -- library `x` as often as it has loaded it. The interface holds no session, no adapter and no
    -- library, no worker runs, and its helper lists no route and has none marked as applied. Whether
    -- the system has let go of the address and of the routes is not spoken of.
    pub stop_frees_all :
        (config : TunnelConfig) (ring_capacity : ℕ) (ipv4 : Ipv4InterfaceConfig) (system : h.State)
        (tr : parts.tr.State) (inner : Option (parts.inner.State)) (ys : List Event)
        → IsGivenBack
            (stop parts (
              after_events
                (construct parts config
                  (new_interface h d win ring_capacity ipv4 system driver windows)
                  tr
                  inner)
                ys)).virtual_interface
    unfolding construct step
    stop_frees_all config ring_capacity ipv4 system tr inner ys =
        let e =
          construct parts config (new_interface h d win ring_capacity ipv4 system driver windows) tr
            inner in
        let last = after_events e ys in
        let accounted = after_events-Holds e ys (
          ((λ _. refl, λ _. refl), λ _. (refl, (refl, refl, refl))),
          ((omega arith, omega arith), omega arith),
        ) in
        let cleared = step-Accounted last.virtual_interface clears accounted in
        subst IsGivenBack (sym (stop-vif last))
          (close-IsGivenBack (clear_routes h d win last.virtual_interface) cleared)
