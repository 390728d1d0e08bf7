-- ===== src/App/New.antt =====
-- `NetMuxApp::new` as a whole: the state that the window and the threads start with.
use netmux.Prelude.{
  ℕ, ◌≡◌, refl, List, [], Bool, Option, arith, All, IsBytes, Run, done, panic, ◌>>=◌, Ensures,
  Ensures-bind,
}
use netmux.Prelude.HashMap
use netmux.Prelude.HashMap.{HashMap, Order}
use netmux.Text.{Text}
use netmux.Text.Utf8.{IsAscii}
use netmux.Float.{Float}
use netmux.Ipv4.{Ipv4Addr}
use netmux.Error.{Result, ok, err}
use netmux.System.{answers, Kernel, Process}
use netmux.Tun.{tunsetiff, siocgifflags}
use netmux.Sysfs.{SysEntry}
use netmux.Policy.{default_config, validate, validate_weights}
use netmux.Aggregator.{Mode, tunnelling, simulation, Aggregator, refresh_candidates}
use netmux.Aggregator
use netmux.Generator.{default_generator}
use netmux.NatTable
use netmux.NatTable.{Session, FlowKey}
use netmux.App.{NetMuxApp, dashboard, system}
use netmux.App.Actions.{IsSound}
use netmux.App.Sockets.{Started, open_egress}
use netmux.App.Startup.{IsStarted, open_egress-IsStarted}
use netmux.App.Launch.{Obtained, obtain, Launched, obtain-Launched}

-- `expect`
abbrev pub expect : {A : Type 0} → Result A → Run A
expect (ok a) = done a
expect (err e) = panic

abbrev pub no_sockets : Process → Started
no_sockets p = record { egress = []; iface_ips = []; captures = []; process = p }

module _ (F : Type 0) ⦃fl : Float F⦄ (kernel : Kernel) (entries : Option (List SysEntry)) (now : ℕ)
    (ipv4 : HashMap Text Ipv4Addr) (order : Order FlowKey Session) where
  -- The data plane is started when the program tunnels.
  abbrev pub start : Mode → Aggregator F → Process → Run Started
  start tunnelling agg p = open_egress kernel ipv4 agg.candidates (no_sockets p)
  start simulation agg p = done (no_sockets p)

  abbrev pub app_with : Aggregator F → Option Text → NetMuxApp F
  app_with agg banner = record {
    plane = record {
      aggregator = agg;
      nat = NatTable.new order;
      tx_packets = 0;
      tx_bytes = 0;
      nat_rx_packets = 0;
    };
    generator = default_generator fl;
    tab = dashboard;
    banner = banner;
    last_summary = now;
    theme_mode = system;
  }

  unfoldable pub launch : Obtained × Process → Run (NetMuxApp F × Started)
  launch ((mode, banner, tun), p) = do
    agg ← expect (Aggregator.new default_config mode now)
    let agg = refresh_candidates entries agg
    started ← start mode agg p
    done (app_with agg banner, started)

  unfoldable pub new : Bool → Process → Run (NetMuxApp F × Started)
  unfolding launch obtain
  new requested p = do obtained ← obtain kernel requested p; launch obtained

  -- The engine is as configured by default, the session table is empty, and the sockets are those
  -- of the engine's candidates.
  abbrev pub IsNew : NetMuxApp F × Started → Type 0
  IsNew (app, started) =
      IsSound app.plane.aggregator.config
      × (app.plane.nat ≡ NatTable.new order)
      × IsStarted kernel ipv4 app.plane.aggregator.candidates started

  IsStarted-start :
      (mode : Mode) (agg : Aggregator F) (p : Process)
      → Ensures (IsStarted kernel ipv4 agg.candidates) (start mode agg p)
  IsStarted-start tunnelling agg p = open_egress-IsStarted kernel ipv4 agg.candidates p
  IsStarted-start simulation agg p = record {
    paired = λ name. unfold HashMap.get in tt;
    captured = tt;
  }

  launch-IsNew : (o : Obtained) (p : Process) → Ensures IsNew (launch (o, p))
  unfolding launch Aggregator.new validate validate_weights refresh_candidates
  launch-IsNew (mode, banner, tun) p =
      Ensures-bind _ IsNew (start mode _ p) _ (IsStarted-start mode _ p)
        (λ started h. (record { tuned = tt; checked = omega arith }, refl, h))

  -- When the kernel names devices in ASCII and answers requests for flags with bytes, the start as
  -- a whole returns. The configuration is sound and the session table empty; the sockets that are
  -- open are those of enabled and healthy candidates of the engine, each with the address of its
  -- interface, and every capture has a socket to send through.
  pub new-IsNew :
      ((fd : ℕ) (ifr written : List ℕ)
        → kernel.ioctl fd tunsetiff ifr ≡ answers written
        → All IsAscii written)
      → ((fd : ℕ) (ifr read : List ℕ)
          → kernel.ioctl fd siocgifflags ifr ≡ answers read
          → IsBytes read)
      → (requested : Bool) (p : Process) → Ensures IsNew (new requested p)
  new-IsNew names replies requested p =
      unfold new in
      Ensures-bind (Launched kernel requested p) IsNew (obtain kernel requested p) _
        (obtain-Launched kernel names replies requested p) (λ (o, q) h. launch-IsNew o q)
