-- ===== src/Tests/Choices.antt =====
-- The choice of an interface, the candidates and the routing.
use netmux.Prelude.{
  inr, ℕ, ◌*◌, ◌-◌, ◌/◌, max, ◌||◌, ◌≡◌, refl, List, [], ◌∷◌, Bool, true, false, Option, none, some,
  replicate, All, done, Ensures, arith,
}
use netmux.Prelude.Sorting.{filter, count}
use netmux.Prelude.HashMap
use netmux.Text.{Text, text, Text-discrete}
use netmux.Sysfs.{SysEntry, read_u64, read_bool, trim, text_eq, unwrap_or}
use netmux.Interface.{ethernet, wifi}
use netmux.Policy.{
  failover, round_robin, least_loaded, AggregatorConfig, default_config, CandidateIface, is_usable,
  select_interface,
}
use netmux.Policy.Pool.{weight_share}
use netmux.Policy.Liveness.{IsFound, select_interface-IsFound}
use netmux.Policy.Choice.{NamesUsable, select_interface-NamesUsable}
use netmux.Policy.Order.{select_interface-failover, select_interface-least_loaded}
use netmux.Policy.RoundRobin.{select_all, select_all-fair}
use netmux.Stats.Samples.{refresh-refresh}
use netmux.Stats.{default_collector, refresh}
use netmux.Aggregator.{simulation, Aggregator, refresh_candidates, route}
use netmux.Aggregator.Candidates.{Scheduled, refresh_candidates-Scheduled}
use netmux.Aggregator.Routing.{Decides, route-Decides}
use netmux.Tests.{whole, packet}

abbrev pub wired : CandidateIface ℕ
wired = record {
  name = text "eth0";
  kind = ethernet;
  policy = record { priority = 30; weight = 3; enabled = true };
  tx_bps = 900;
  rx_bps = 100;
  healthy = true;
}

abbrev pub wireless : CandidateIface ℕ
wireless = record {
  name = text "wlan0";
  kind = wifi;
  policy = record { priority = 10; weight = 1; enabled = true };
  tx_bps = 10;
  rx_bps = 10;
  healthy = true;
}

-- Weight 3, and the carrier is lost.
abbrev broken : CandidateIface ℕ
broken = record wired { name = text "eth1"; healthy = false }

abbrev all : List (CandidateIface ℕ)
all = broken ∷ wireless ∷ wired ∷ []

abbrev with_failover : AggregatorConfig
with_failover = record default_config { strategy = failover }

abbrev with_least_loaded : AggregatorConfig
with_least_loaded = record default_config { algorithm = least_loaded }

abbrev with_round_robin : AggregatorConfig
with_round_robin = record default_config { algorithm = round_robin }

all_usable : filter is_usable all ≡ wireless ∷ wired ∷ []
unfolding filter
all_usable = refl

is_wired : CandidateIface ℕ → Bool
is_wired c = elim c.kind [
  | ethernet ↦ true
  | wifi ↦ false
  | netmux.Interface.cellular ↦ false
  | netmux.Interface.loopback ↦ false
  | netmux.Interface.virtual ↦ false
  | netmux.Interface.other ↦ false
]

select_interface-NamesUsable_example :
    Ensures
      (NamesUsable ⦃fl = whole⦄ all)
      (select_interface ⦃fl = whole⦄ default_config all (text "flow") 0)
select_interface-NamesUsable_example =
    select_interface-NamesUsable ⦃fl = whole⦄ default_config all (text "flow") 0

select_interface-failover_example :
    select_interface ⦃fl = whole⦄ with_failover all (text "flow") 5 ≡ done (some (text "eth0"), 5)
select_interface-failover_example =
    select_interface-failover ⦃fl = whole⦄ with_failover all (text "flow") 5 wired (wireless ∷ [])
      [] all_usable refl (omega arith, tt) tt

select_interface-least_loaded_example :
    select_interface ⦃fl = whole⦄ with_least_loaded all (text "flow") 5
    ≡ done (some (text "wlan0"), 5)
select_interface-least_loaded_example =
    select_interface-least_loaded ⦃fl = whole⦄ with_least_loaded all (text "flow") 5 wireless []
      (wired ∷ []) all_usable refl refl refl tt (refl, tt)

is_named : Option Text → Bool
is_named none = false
is_named (some name) = true

select_all-fair_example :
    Ensures
      (λ (r : List (Option Text) × ℕ).
        count is_named r.0
        ≡ 4
          * weight_share (λ (d : CandidateIface ℕ). is_named (some d.name)) (wireless ∷ wired ∷ []))
      (select_all ⦃fl = whole⦄ with_round_robin all (replicate 16 (text "flow")) 7)
select_all-fair_example =
    select_all-fair ⦃fl = whole⦄ with_round_robin all wireless (wired ∷ []) all_usable refl refl
      is_named (replicate 16 (text "flow")) 7 (omega arith) refl (omega arith)

abbrev pub agg : Aggregator ℕ
agg = record {
  config = default_config;
  mode = simulation;
  stats = default_collector 0;
  candidates = all;
  rr_counter = 0;
  flow_table = [];
}

-- One wired interface that is up.
abbrev pub entry : SysEntry
entry = record {
  name = some (text "eth0");
  operstate = some (text "up");
  flags = some (text "0x1003");
  address = none;
  carrier = some (text "1");
  rx_bytes = some (text "100");
  tx_bytes = some (text "50");
  rx_packets = some (text "2");
  tx_packets = some (text "1");
}

route-Decides_example : Ensures (Decides ⦃fl = whole⦄ agg packet) (route ⦃fl = whole⦄ packet agg)
route-Decides_example = route-Decides ⦃fl = whole⦄ packet agg

refresh_candidates-Scheduled_example :
    All
      (Scheduled default_config)
      (refresh_candidates ⦃fl = whole⦄ (some (entry ∷ [])) agg).candidates
refresh_candidates-Scheduled_example =
    refresh_candidates-Scheduled ⦃fl = whole⦄ (some (entry ∷ [])) agg

select_interface-IsFound_example :
    Ensures IsFound (select_interface ⦃fl = whole⦄ with_round_robin all (text "flow") 5)
select_interface-IsFound_example =
    select_interface-IsFound ⦃fl = whole⦄ with_round_robin all wireless (wired ∷ []) (text "flow") 5
      all_usable (inr (λ e. cc))

-- A second later it has received 1000 bytes more.
abbrev later_entry : SysEntry
later_entry = record entry { rx_bytes = some (text "1100") }

refresh-refresh_example :
    HashMap.get Text-discrete
      (text "eth0")
      (refresh ⦃fl = whole⦄
        (some (later_entry ∷ []))
        2000000000
        (refresh ⦃fl = whole⦄ (some (entry ∷ [])) 1000000000 agg.stats)).samples
    ≡ some (record {
      rx_bytes_per_sec =
          (read_u64 later_entry.rx_bytes - read_u64 entry.rx_bytes)
          / (max (1000000000 / 1000000000) (1 / 1000));
      tx_bytes_per_sec =
          (read_u64 later_entry.tx_bytes - read_u64 entry.tx_bytes)
          / (max (1000000000 / 1000000000) (1 / 1000));
      rx_pkt_per_sec =
          (read_u64 later_entry.rx_packets - read_u64 entry.rx_packets)
          / (max (1000000000 / 1000000000) (1 / 1000));
      tx_pkt_per_sec =
          (read_u64 later_entry.tx_packets - read_u64 entry.tx_packets)
          / (max (1000000000 / 1000000000) (1 / 1000));
      is_up =
          read_bool later_entry.carrier
          || text_eq (trim (unwrap_or later_entry.operstate [])) (text "up");
    })
refresh-refresh_example =
    refresh-refresh ⦃fl = whole⦄ [] [] entry [] [] later_entry (text "eth0") 1000000000 2000000000
      agg.stats refl tt refl tt
