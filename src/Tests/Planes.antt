-- ===== src/Tests/Planes.antt =====
-- The data plane, the controls and the simulation.
use netmux.Prelude.{
  inl, ℕ, ◌+◌, ◌≡◌, ◌≢◌, refl, List, [], ◌∷◌, true, Option, none, some, index, copy_at, slice_to,
  slice_from, store, Run, done, panic, Ensures, u64, arith, ℕ_discrete,
}
use netmux.Prelude.Ints.{pos, add_i32}
use netmux.Prelude.Sorting.{filter, sort_by, insert_sorted}
use netmux.Prelude.HashMap
use netmux.Prelude.HashMap.{HashMap}
use netmux.Text.{Text, text, decimal, starts_with, Text-discrete}
use netmux.Ipv4.{Ipv4Addr, dotted, read_number, parse_ip}
use netmux.Packet.{Flow, key, read_ports, read_dotted, parse_v4, parse}
use netmux.Rewrite.{
  rewrite_ipv4_source, guarded, source_body, fix_header, fix_transport, read_address,
}
use netmux.Packet.V4.{ip_at, flow_v4}
use netmux.Rewrite.Closed.{IsIpv4}
use netmux.NatTable.{register}
use netmux.NatTable.Valid.{new-IsValid, outbound, returning}
use netmux.Sysfs.{read_bool, from_str_radix, trim_0x}
use netmux.Interface.{classify, read_is_up, read_interface, read_interfaces, enumerate}
use netmux.Policy.{
  is_usable, failover, AggregatorConfig, default_config, pick, pick_failover, select_interface,
}
use netmux.Stats.{default_collector}
use netmux.Aggregator.{
  simulation, ForwardDecision, Aggregator, select, route_flow, route, candidate_of, candidates_of,
  refresh_candidates,
}
use netmux.Aggregator.Routing.{route-ne-netmux}
use netmux.Egress.{RawEgress}
use netmux.DataPlane.{
  DataPlane, Sent, reply_key, send, forward, forward_by, egress_flow, egress_step, capture_step,
}
use netmux.DataPlane.Outbound.{Egressed, egress_step-Egressed}
use netmux.DataPlane.Inbound.{Captured, capture_step-Captured}
use netmux.DataPlane.RoundTrip.{reversed, client_key, always, capture_step-egress_step}
use netmux.Generator.{default_generator}
use netmux.App.{priority, act, iface_action, dashboard, system, NetMuxApp, sim_packets}
use netmux.App.Actions.{IsSound, refresh_candidates-iface_action}
use netmux.App.Progress.{IsRunning, CountsAll, sim_packets-CountsAll}
use netmux.Tests.Sessions.{order, vacant}
use netmux.Tests.{whole, packet, packet-IsBytes, packet-IsIpv4, egress_ip, egress_ip-IsOctets}
use netmux.Tests.Choices.{wired, wireless, entry}

abbrev failover_config : AggregatorConfig
failover_config = record default_config { strategy = failover }

abbrev pub engine : Aggregator ℕ
engine = record {
  config = failover_config;
  mode = simulation;
  stats = default_collector 0;
  candidates = wired ∷ wireless ∷ [];
  rr_counter = 0;
  flow_table = [];
}

abbrev pub plane : DataPlane ℕ
plane = record {
  aggregator = engine;
  nat = vacant;
  tx_packets = 0;
  tx_bytes = 0;
  nat_rx_packets = 0;
}

abbrev sock : RawEgress
sock = record { fd = 5; ifname = text "eth0" }

abbrev pub egress : HashMap Text RawEgress
egress = (text "eth0", sock) ∷ []

abbrev pub addresses : HashMap Text Ipv4Addr
addresses = (text "eth0", egress_ip) ∷ []

-- What the round sends and leaves.
abbrev pub result : Run (Option Sent × DataPlane ℕ) → Sent × DataPlane ℕ
result (done (some sent, after)) = (sent, after)
result (done (none, after)) = (record { sock = sock; packet = []; dst = egress_ip }, after)
result panic = (record { sock = sock; packet = []; dst = egress_ip }, plane)

abbrev pub round : Run (Option Sent × DataPlane ℕ)
round = egress_step ⦃fl = whole⦄ always egress addresses packet plane

-- The flow of the packet that is sent.
abbrev sent_flow : Flow
sent_flow = record {
  src = text "192.168.1.7";
  dst = text "8.8.8.8";
  proto = 6;
  sport = 1000;
  dport = 443;
}

pub round_sends :
    (round ≡ done (some (result round).0, (result round).1))
    × (parse (result round).0.packet ≡ done (some sent_flow))
unfolding egress_step egress_flow forward forward_by send parse parse_v4 read_dotted read_ports
    index route route_flow select key select_interface pick filter pick_failover sort_by
    insert_sorted HashMap.get HashMap.insert Text-discrete ℕ_discrete parse_ip read_number dotted
    decimal register rewrite_ipv4_source guarded source_body fix_header fix_transport read_address
    copy_at slice_to slice_from store
round_sends = (refl, refl)

egress_step-Egressed_example :
    Ensures
      (Egressed ⦃fl = whole⦄ always egress addresses packet plane)
      (egress_step ⦃fl = whole⦄ always egress addresses packet plane)
egress_step-Egressed_example =
    egress_step-Egressed ⦃fl = whole⦄ always egress addresses packet plane (new-IsValid order)

capture_step-Captured_example :
    Ensures (Captured always packet plane) (capture_step always packet plane)
capture_step-Captured_example = capture_step-Captured always packet plane

-- The answer: from 8.8.8.8 port 443 to 192.168.1.7 port 1000.
abbrev reply : List ℕ
reply =
    0x45 ∷ 0 ∷ 0 ∷ 40 ∷ 0 ∷ 0 ∷ 0 ∷ 0 ∷ 60 ∷ 6 ∷ 0 ∷ 0 ∷ 8 ∷ 8 ∷ 8 ∷ 8 ∷ 192 ∷ 168 ∷ 1 ∷ 7 ∷ 1 ∷ 187
    ∷ 3 ∷ 232 ∷ 0 ∷ 0 ∷ 0 ∷ 1 ∷ 0 ∷ 0 ∷ 0 ∷ 2 ∷ 80 ∷ 18 ∷ 250 ∷ 240 ∷ 0 ∷ 0 ∷ 0 ∷ 0 ∷ []

reply-IsIpv4 : IsIpv4 reply
reply-IsIpv4 = record { version = refl; shortest = omega arith; whole = omega arith }

reply_parses : parse reply ≡ done (some (reversed sent_flow))
unfolding parse parse_v4 read_dotted read_ports index dotted decimal
reply_parses = refl

egress_ip_parses : parse_ip (text "192.168.1.7") ≡ some egress_ip
unfolding parse_ip read_number
egress_ip_parses = refl

no_session : outbound (client_key packet) vacant ≡ none
unfolding HashMap.get
no_session = refl

no_reply_key : returning (reply_key (reversed sent_flow) (ip_at packet 16) egress_ip) vacant ≡ none
unfolding HashMap.get
no_reply_key = refl

capture_step-egress_step_example :
    (out : List ℕ) × (capture_step always reply (result round).1
      ≡ done (
        some out,
        record (result round).1 { nat_rx_packets = u64 ((result round).1.nat_rx_packets + 1) },
      ))
    × (parse out ≡ done (some (reversed (flow_v4 packet))))
capture_step-egress_step_example =
    capture_step-egress_step ⦃fl = whole⦄ always egress addresses packet packet-IsBytes
      packet-IsIpv4 (egress_ip-IsOctets, tt) plane (result round).1 (result round).0 sent_flow
      egress_ip reply (new-IsValid order) round_sends.0 round_sends.1 egress_ip_parses no_session
      no_reply_key reply-IsIpv4 reply_parses

abbrev pub app : NetMuxApp ℕ
app = record {
  plane = plane;
  generator = default_generator whole;
  tab = dashboard;
  banner = none;
  last_summary = 0;
  theme_mode = system;
}

pub default_config-IsSound : IsSound default_config
default_config-IsSound = record { tuned = tt; checked = omega arith }

-- The engine after the priority of eth0 is raised by five.
abbrev acted : Run (Aggregator ℕ) → Aggregator ℕ
acted (done after) = after
acted panic = engine

raises :
    iface_action (priority (text "eth0") (pos 5)) engine
    ≡ done (acted (iface_action (priority (text "eth0") (pos 5)) engine))
unfolding iface_action act add_i32 HashMap.get
raises = refl

refresh_candidates-iface_action_example :
    (refresh_candidates ⦃fl = whole⦄
      (some (entry ∷ []))
      (acted (iface_action (priority (text "eth0") (pos 5)) engine))).candidates
    ≡ (refresh_candidates ⦃fl = whole⦄ (some (entry ∷ [])) engine).candidates
refresh_candidates-iface_action_example =
    refresh_candidates-iface_action ⦃fl = whole⦄ (text "eth0") (pos 5) (some (entry ∷ [])) engine
      (acted (iface_action (priority (text "eth0") (pos 5)) engine)) raises

-- The decision for the packet after a refresh.
abbrev ready : Run (Option ForwardDecision × Aggregator ℕ)
ready = route ⦃fl = whole⦄ packet (refresh_candidates ⦃fl = whole⦄ (some (entry ∷ [])) engine)

abbrev decided : Run (Option ForwardDecision × Aggregator ℕ) → ForwardDecision × Aggregator ℕ
decided (done (some d, after)) = (d, after)
decided (done (none, after)) = (record { flow = sent_flow; interface = none }, after)
decided panic = (record { flow = sent_flow; interface = none }, engine)

ready_decides :
    (ready ≡ done (some (decided ready).0, (decided ready).1))
    × ((decided ready).0.interface ≡ some (text "eth0"))
unfolding parse parse_v4 read_dotted read_ports index route route_flow select key select_interface
    pick filter pick_failover sort_by insert_sorted HashMap.get HashMap.insert Text-discrete
    ℕ_discrete dotted decimal refresh_candidates candidates_of candidate_of enumerate
    read_interfaces read_interface read_is_up classify starts_with read_bool from_str_radix trim_0x
ready_decides = (refl, refl)

route-ne-netmux_example : starts_with (text "eth0") (text "netmux") ≢ true
route-ne-netmux_example =
    route-ne-netmux ⦃fl = whole⦄ (some (entry ∷ [])) engine (decided ready).1 packet
      (decided ready).0 (text "eth0") ready_decides.0 ready_decides.1

engine_usable : filter is_usable (wired ∷ wireless ∷ []) ≡ wired ∷ wireless ∷ []
unfolding filter
engine_usable = refl

app-IsRunning : IsRunning ⦃fl = whole⦄ app
app-IsRunning = record {
  ready = record { seeds = refl; packets = omega arith; bytes = omega arith };
  routable = record {
    on = refl;
    some_usable = (wired, wireless ∷ [], engine_usable);
    decisive = inl refl;
  };
}

sim_packets-CountsAll_example :
    Ensures (CountsAll ⦃fl = whole⦄ 50 app) (sim_packets ⦃fl = whole⦄ 50 app)
sim_packets-CountsAll_example = sim_packets-CountsAll ⦃fl = whole⦄ 50 app app-IsRunning
