-- ===== src/App.antt =====
-- `NetMuxApp` of crates/netmux-app/src/main.rs without its rendering: the start, the timer tick and
-- the actions of the controls.
pub mod Actions
pub mod Sockets
pub mod Startup
pub mod Launch
pub mod New
pub mod Simulated
pub mod Progress
use netmux.Prelude.{
  ℕ, zero, suc, ◌+◌, ◌-◌, ◌*◌, ◌%◌, min, max, List, [], ◌∷◌, ◌++◌, Bool, true, false, not, ◌&&◌,
  leb, if◌then◌else◌, Option, none, some, u64, Run, done, ◌>>=◌,
}
use netmux.Prelude.Ints.{ℤ, i32, add_i32, clamp}
use netmux.Prelude.HashMap
use netmux.Prelude.HashMap.{HashMap}
use netmux.Text.{Text, utf8, Text-discrete}
use netmux.Float.{Float}
use netmux.Ipv4.{Ipv4Addr}
use netmux.Sysfs.{SysEntry}
use netmux.Interface.{InterfaceKind, ethernet, wifi, cellular}
use netmux.Policy.{InterfacePolicy, AggregatorConfig, Strategy, BalanceAlgorithm, CandidateIface}
use netmux.Aggregator.{
  Mode, tunnelling, simulation, ForwardDecision, Aggregator, configured, route,
  inject_sim_candidates,
}
use netmux.Aggregator
use netmux.Generator.{PcapGenerator, next_packet, per_tick}
use netmux.Egress.{RawEgress}
use netmux.DataPlane.{DataPlane}

pub data ThemeMode : Type 0 where
  dark light system : ThemeMode

-- `ThemeMode::cycle`
abbrev pub cycle : ThemeMode → ThemeMode
cycle dark = light
cycle light = system
cycle system = dark

pub data Tab : Type 0 where
  dashboard interfaces policy statistics : Tab

pub data IfaceAction : Type 0 where
  enable : Text → Bool → IfaceAction
  priority : Text → ℤ → IfaceAction
  weight : Text → ℤ → IfaceAction

pub record NetMuxApp (F : Type 0) : Type 0 where
  pub plane : DataPlane F
  pub generator : PcapGenerator F
  pub tab : Tab
  pub banner : Option Text
  -- In nanoseconds.
  pub last_summary : ℕ
  pub theme_mode : ThemeMode

-- The policy under a name, or the default, replaced.
abbrev pub update : Text → InterfacePolicy → AggregatorConfig → AggregatorConfig
update name p cfg = record cfg { interfaces = HashMap.insert Text-discrete name p cfg.interfaces }

-- `iface_action`, on the configuration.
unfoldable pub act : IfaceAction → AggregatorConfig → Run AggregatorConfig
act (enable name on) cfg = done (update name (record (configured cfg name) { enabled = on }) cfg)
act (priority name delta) cfg = do
  p ← add_i32 (i32 (configured cfg name).priority) delta
  done (update name (record (configured cfg name) { priority = clamp p 1 99 }) cfg)
act (weight name delta) cfg = do
  w ← add_i32 (i32 (configured cfg name).weight) delta
  done (update name (record (configured cfg name) { weight = clamp w 1 100 }) cfg)

module _ {F : Type 0} where
  unfoldable pub iface_action : IfaceAction → Aggregator F → Run (Aggregator F)
  iface_action action agg = do cfg ← act action agg.config; done (record agg { config = cfg })

  unfoldable pub toggle_enabled : Aggregator F → Aggregator F
  toggle_enabled agg = record agg {
    config = record agg.config { enabled = not agg.config.enabled };
  }

  unfoldable pub set_strategy : Strategy → Aggregator F → Aggregator F
  set_strategy s agg = record agg { config = record agg.config { strategy = s } }

  unfoldable pub set_algorithm : BalanceAlgorithm → Aggregator F → Aggregator F
  set_algorithm a agg = record agg { config = record agg.config { algorithm = a } }

  unfoldable pub cycle_theme : NetMuxApp F → NetMuxApp F
  cycle_theme app = record app { theme_mode = cycle app.theme_mode }

-- The links of the demo, when there are no candidates.
abbrev pub sim_links : List (Text × InterfaceKind × ℕ × ℕ)
sim_links =
    (utf8 "eth0 (模拟)", ethernet, 30, 3)
    ∷ (utf8 "wlan0 (模拟)", wifi, 20, 2)
    ∷ (utf8 "wwan0 (模拟)", cellular, 25, 1)
    ∷ []

module _ {F : Type 0} ⦃fl : Float F⦄ where
  abbrev pub with_links : List (CandidateIface F) → Aggregator F → Aggregator F
  with_links [] agg = inject_sim_candidates sim_links agg
  with_links (c ∷ rest) agg = agg

  -- One packet of the simulation: whether the loop goes on, and the state.
  abbrev pub count_packet :
      Option ForwardDecision × Aggregator F → PcapGenerator F → NetMuxApp F → Bool × NetMuxApp F
  count_packet (none, agg) g app =
      (false, record app { plane = record app.plane { aggregator = agg }; generator = g })
  count_packet (some d, agg) g app = (
    true,
    record app {
      plane = elim d.interface [
        | none ↦ record app.plane { aggregator = agg }
        | some name ↦ record app.plane {
          aggregator = agg;
          tx_packets = u64 (app.plane.tx_packets + 1);
          tx_bytes = u64 (app.plane.tx_bytes + 150);
        }
      ];
      generator = g;
    },
  )

  unfoldable pub sim_packet : NetMuxApp F → Run (Bool × NetMuxApp F)
  sim_packet app = do
    (pkt, g) ← next_packet (96 + app.plane.tx_packets % 5 * 64) app.generator
    routed ← route pkt app.plane.aggregator
    done (count_packet routed g app)

  -- The loop over at most `n` packets, which stops at the first that is not routed.
  unfoldable pub sim_packets : ℕ → NetMuxApp F → Run (NetMuxApp F)
  sim_packets zero app = done app
  sim_packets (suc n) app = do
    (more, app) ← sim_packet app
    elim more [ true ↦ sim_packets n app | false ↦ done app ]

  -- Ten seconds after the last summary there is another; it only logs.
  abbrev pub summarize : ℕ → NetMuxApp F → NetMuxApp F
  summarize now app =
      if leb 10000000000 (now - app.last_summary) then record app { last_summary = now } else app

  -- `tick`: `read`, `again` and the two times are what the statistics, the candidates and the
  -- summary are computed from when the mode is tunnelling.
  unfoldable pub tick :
      Option (List SysEntry) → ℕ → Option (List SysEntry) → ℕ → NetMuxApp F → Run (NetMuxApp F)
  tick read at again now app = elim app.plane.aggregator.mode [
    | simulation ↦ (do
      let agg = with_links app.plane.aggregator.candidates app.plane.aggregator
      let secs =
          fl.mul (fl.of_u64 (max agg.config.health_check_interval_secs 1))
            (fl.div (fl.of_u64 16) (fl.of_u64 1000))
      let n = per_tick (fl.nanos_of_secs secs) app.generator
      sim_packets (min n 2000) (record app { plane = record app.plane { aggregator = agg } }))
    | tunnelling ↦
        let agg = Aggregator.tick read at again app.plane.aggregator in
        done (summarize now (record app { plane = record app.plane { aggregator = agg } }))
  ]
