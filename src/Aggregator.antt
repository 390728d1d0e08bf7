-- ===== src/Aggregator.antt =====
-- `Aggregator` of crates/netmux-core/src/aggregator.rs: candidates, routing and the health tick. What
-- is read from /sys/class/net is an argument of the operations that read it.
pub mod Candidates
pub mod Routing
use netmux.Prelude.{
  ℕ, List, [], ◌∷◌, Bool, true, false, if◌then◌else◌, Option, none, some, max, map, Run, done,
  ◌>>=◌,
}
use netmux.Prelude.HashMap
use netmux.Prelude.HashMap.{HashMap}
use netmux.Text.{Text, text_le, Text-discrete}
use netmux.Float.{Float}
use netmux.Error.{Result, ok, err}
use netmux.Sysfs.{SysEntry, text_eq}
use netmux.Interface.{
  InterfaceKind, ethernet, wifi, cellular, loopback, virtual, other, Interface, enumerate,
}
use netmux.Stats.{IfaceSample, StatsCollector, default_collector, refresh}
use netmux.Packet.{Flow, key, parse}
use netmux.Policy.{
  InterfacePolicy, default_policy, with_priority, AggregatorConfig, validate, CandidateIface, load,
  select_interface,
}

pub data Mode : Type 0 where
  tunnelling simulation : Mode

pub record ForwardDecision : Type 0 where
  pub flow : Flow
  pub interface : Option Text

pub record Aggregator (F : Type 0) : Type 0 where
  pub config : AggregatorConfig
  pub mode : Mode
  pub stats : StatsCollector F
  pub candidates : List (CandidateIface F)
  pub rr_counter : ℕ
  pub flow_table : HashMap Text Text

-- `Aggregator::new` at a time, from which the statistics count.
unfoldable pub new : {F : Type 0} → AggregatorConfig → Mode → ℕ → Result (Aggregator F)
new config mode now = elim (validate config) [
  | ok u ↦ ok (record {
    config = config;
    mode = mode;
    stats = default_collector now;
    candidates = [];
    rr_counter = 0;
    flow_table = [];
  })
  | err e ↦ err e
]

abbrev pub set_mode : {F : Type 0} → Mode → Aggregator F → Aggregator F
set_mode mode agg = record agg { mode = mode }

-- `matches!(i.kind, Loopback | Virtual)`
abbrev pub is_skipped : InterfaceKind → Bool
is_skipped loopback = true
is_skipped virtual = true
is_skipped ethernet = false
is_skipped wifi = false
is_skipped cellular = false
is_skipped other = false

abbrev pub base_priority : InterfaceKind → ℕ
base_priority ethernet = 30
base_priority cellular = 20
base_priority wifi = 10
base_priority loopback = 5
base_priority virtual = 5
base_priority other = 5

-- `.get(name).copied().unwrap_or_else(default)`
abbrev pub policy_or_default : Option InterfacePolicy → InterfacePolicy
policy_or_default none = default_policy
policy_or_default (some p) = p

abbrev pub configured : AggregatorConfig → Text → InterfacePolicy
configured cfg name = policy_or_default (HashMap.get Text-discrete name cfg.interfaces)

-- `enumerate().unwrap_or_default()`
abbrev pub interfaces_or_none : Result (List Interface) → List Interface
interfaces_or_none (ok l) = l
interfaces_or_none (err e) = []

module _ {F : Type 0} ⦃fl : Float F⦄ where
  abbrev pub tx_or_zero : Option (IfaceSample F) → F
  tx_or_zero none = fl.of_u64 0
  tx_or_zero (some s) = s.tx_bytes_per_sec

  abbrev pub rx_or_zero : Option (IfaceSample F) → F
  rx_or_zero none = fl.of_u64 0
  rx_or_zero (some s) = s.rx_bytes_per_sec

  unfoldable pub candidate_of :
      AggregatorConfig → HashMap Text (IfaceSample F) → Interface → CandidateIface F
  candidate_of cfg samples i = record {
    name = i.name;
    kind = i.kind;
    policy = with_priority (configured cfg i.name) (max (base_priority i.kind) 0);
    tx_bps = tx_or_zero (HashMap.get Text-discrete i.name samples);
    rx_bps = rx_or_zero (HashMap.get Text-discrete i.name samples);
    healthy = elim i.carrier [ true ↦ i.is_up | false ↦ false ];
  }

  -- The loop of `refresh_candidates`.
  unfoldable pub candidates_of :
      AggregatorConfig → HashMap Text (IfaceSample F) → List Interface → List (CandidateIface F)
  candidates_of cfg samples [] = []
  candidates_of cfg samples (i ∷ rest) =
      let next = candidates_of cfg samples rest in
      if is_skipped i.kind then next else candidate_of cfg samples i ∷ next

  unfoldable pub refresh_candidates : Option (List SysEntry) → Aggregator F → Aggregator F
  unfolding candidates_of candidate_of
  refresh_candidates entries agg =
      let ifaces = interfaces_or_none (enumerate entries) in
      record agg { candidates = candidates_of agg.config agg.stats.samples ifaces }

  abbrev pub with_rates : CandidateIface F → Option (IfaceSample F) → CandidateIface F
  with_rates c none = c
  with_rates c (some s) = record c { tx_bps = s.tx_bytes_per_sec; rx_bps = s.rx_bytes_per_sec }

  -- The loop of `tick` over the candidates.
  abbrev pub update_rates :
      HashMap Text (IfaceSample F) → List (CandidateIface F) → List (CandidateIface F)
  update_rates samples cs = map (λ c. with_rates c (HashMap.get Text-discrete c.name samples)) cs

  -- The directory is read twice, for the statistics at `now` and for the candidates.
  unfoldable pub tick :
      Option (List SysEntry) → ℕ → Option (List SysEntry) → Aggregator F → Aggregator F
  tick read now read_again agg =
      let agg = record agg { stats = refresh read now agg.stats } in
      let agg = record agg { candidates = update_rates agg.stats.samples agg.candidates } in
      refresh_candidates read_again agg

  -- `inject_sim_candidates`, over entries of a name, a kind, a priority and a weight.
  unfoldable pub sim_candidate : Text × InterfaceKind × ℕ × ℕ → CandidateIface F
  sim_candidate (name, kind, priority, weight) = record {
    name = name;
    kind = kind;
    policy = record {
      priority = InterfacePolicy.priority (with_priority default_policy priority);
      weight = weight;
      enabled = true;
    };
    tx_bps = fl.of_u64 0;
    rx_bps = fl.of_u64 0;
    healthy = true;
  }

  unfoldable pub inject_sim_candidates :
      List (Text × InterfaceKind × ℕ × ℕ) → Aggregator F → Aggregator F
  unfolding sim_candidate
  inject_sim_candidates entries agg = record agg { candidates = map sim_candidate entries }

  -- What `select` does with the pick: it records it for the flow.
  abbrev pub remember : Text → Option Text × ℕ → Aggregator F → Option Text × Aggregator F
  remember flow_key (none, rr) agg = (none, record agg { rr_counter = rr })
  remember flow_key (some pick, rr) agg = (
    some pick,
    record agg {
      rr_counter = rr;
      flow_table = HashMap.insert Text-discrete flow_key pick agg.flow_table;
    },
  )

  unfoldable pub select : Text → Aggregator F → Run (Option Text × Aggregator F)
  select flow_key agg = do
    picked ← select_interface agg.config agg.candidates flow_key agg.rr_counter
    done (remember flow_key picked agg)

  -- `decision.map(|d| ForwardDecision { flow, interface: Some(d) })`
  abbrev pub decide : Flow → Option Text × Aggregator F → Option ForwardDecision × Aggregator F
  decide flow (none, agg) = (none, agg)
  decide flow (some d, agg) = (some (record { flow = flow; interface = some d }), agg)

  unfoldable pub route_flow :
      Option Flow → Aggregator F → Run (Option ForwardDecision × Aggregator F)
  route_flow none agg = done (none, agg)
  route_flow (some flow) agg = do selected ← select (key flow) agg; done (decide flow selected)

  unfoldable pub route : List ℕ → Aggregator F → Run (Option ForwardDecision × Aggregator F)
  unfolding route_flow select
  route pkt agg =
      if agg.config.enabled then (do flow ← parse pkt; route_flow flow agg) else done (none, agg)

  -- `iter().find(|c| c.name == name)`, and its load or zero.
  unfoldable pub load_in : Text → List (CandidateIface F) → F
  load_in name [] = fl.of_u64 0
  load_in name (c ∷ rest) =
      let later = load_in name rest in if text_eq c.name name then load c else later

  unfoldable pub load_of : Text → Aggregator F → F
  unfolding load_in
  load_of name agg = load_in name agg.candidates
