-- ===== src/Tests/Threads.antt =====
-- Interleaved threads and the session table over time.
use netmux.Prelude.HashMap
use netmux.Prelude.{ℕ, ◌≡◌, refl, sym, ◌∙◌, if_pos, if_neg, none, [], ◌∷◌, List, some, arith, done}
use netmux.Prelude.Ints.{negsuc}
use netmux.Text.{text}
use netmux.Ipv4.{dotted}
use netmux.Packet.{parse}
use netmux.Packet.V4.{flow_v4}
use netmux.NatTable.{Session, FlowKey, FlowKey-discrete, out_key, ret_key, lookup_return}
use netmux.NatTable.Valid.{outbound}
use netmux.NatTable.Refinement.{
  Registration, sessions_after, table_after, Answers, table_after-sessions_after,
}
use netmux.Aggregator.{Aggregator}
use netmux.DataPlane.RoundTrip.{always}
use netmux.DataPlane.{DataPlane, capture_step}
use netmux.App.{weight, toggle_enabled, iface_action}
use netmux.App.Actions.{IsSound}
use netmux.Threads.{
  Network, World, reading, receiving, looking_up, writing, CaptureMove, toggle, window, Steps, here,
  later, initial,
}
use netmux.Threads.Invariant.{Inv, Steps-Inv}
use netmux.Threads.Replies.{writing-Steps, answered-Steps}
use netmux.Threads.Progress.{EgressGoesOn, CaptureGoesOn, Steps-go_on}
use netmux.Threads.Schedules.{Steps-egress_step}
use netmux.Threads.Rounds.{
  Rounds, no_round, packet_round, reply_round, window_round, ReachesIdle, Rounds-Steps,
}
use netmux.Tests.{whole, packet, packet-IsIpv4, egress_ip}
use netmux.Tests.Sessions.{order, flow, session, table, table-IsValid, found}
use netmux.Tests.Planes.{engine, plane, egress, addresses, result, round, round_sends}

abbrev net : Network
net = record { egress = egress; iface_ips = addresses }

abbrev world : DataPlane ℕ → World ℕ
world dp = record { plane = dp; out = reading; back = λ i. receiving }

engine-IsSound : IsSound engine.config
engine-IsSound = record { tuned = tt; checked = omega arith }

-- One packet goes out.
one_packet : Steps ⦃fl = whole⦄ net 1 (initial order engine) (world (result round).1)
one_packet =
    Steps-egress_step ⦃fl = whole⦄ always net 1 packet (λ i. receiving) plane (result round).1
      (some (result round).0) round_sends.0

Steps-Inv_example : Inv net (world (result round).1)
Steps-Inv_example = Steps-Inv ⦃fl = whole⦄ engine-IsSound one_packet

Steps-go_on_example :
    EgressGoesOn ⦃fl = whole⦄ net (result round).1 packet reading
    × CaptureGoesOn ⦃fl = whole⦄ net (result round).1 packet receiving
    × ((after : Aggregator ℕ) × (iface_action
            (weight (text "eth0") (negsuc 0))
            (result round).1.aggregator
          ≡ done after))
Steps-go_on_example =
    Steps-go_on ⦃fl = whole⦄ engine-IsSound one_packet packet 0 (weight (text "eth0") (negsuc 0))
      (omega arith)

abbrev replies : DataPlane ℕ → World ℕ
replies dp = record { plane = dp; out = reading; back = λ i. looking_up packet (ret_key session) }

-- The engine is switched off while a session is open.
abbrev busy : DataPlane ℕ
busy = record plane { nat = table }

session_alone :
    (j : FlowKey) (r : Session)
    → outbound j table ≡ some r
    → ret_key r ≡ ret_key session
    → r ≡ session
unfolding HashMap.get
session_alone j r there same = elim (FlowKey-discrete (out_key session) j) [
  | yes e ↦
      let own = if_pos (FlowKey-discrete (out_key session) j) e (some session) none in
      let both : some session ≡ some r = sym own ∙ there in cc
  | no ne ↦
      let other = if_neg (FlowKey-discrete (out_key session) j) ne (some session) none in
      let both : none ≡ some r = sym other ∙ there in absurd (cc)
]

writing-Steps_example :
    (out : List ℕ) × CaptureMove
      (record busy { aggregator = toggle_enabled engine })
      (looking_up packet (ret_key session))
      (record busy { aggregator = toggle_enabled engine })
      (writing out)
    × (parse out ≡ done (some (record (flow_v4 packet) { dst = dotted session.client_ip })))
writing-Steps_example =
    writing-Steps ⦃fl = whole⦄ {net = net} {n = 1} {w = replies busy}
      {v = replies (record busy { aggregator = toggle_enabled engine })}
      (later here (window toggle)) session table-IsValid found session_alone packet 0 packet-IsIpv4
      refl

answered-Steps_example :
    (r : Session) × (lookup_return table (ret_key session) ≡ some r)
    × (outbound (out_key r) table ≡ some r)
    × (ret_key r ≡ ret_key session)
answered-Steps_example =
    answered-Steps ⦃fl = whole⦄ {net = net} {n = 1} {w = world busy}
      {v = world (record busy { aggregator = toggle_enabled engine })} (later here (window toggle))
      (ret_key session) session table-IsValid found

-- A packet goes out, the engine is switched off, and a datagram that is too short comes in.
too_short : (dp : DataPlane ℕ) → capture_step always [] dp ≡ done (none, dp)
unfolding capture_step
too_short dp = refl

abbrev switched_off : DataPlane ℕ
switched_off = record (result round).1 { aggregator = toggle_enabled (result round).1.aggregator }

schedule : Rounds ⦃fl = whole⦄ net plane switched_off
schedule =
    reply_round [] always (window_round (packet_round packet always no_round round_sends.0) toggle)
      (too_short switched_off)

Rounds-Steps_example : ReachesIdle ⦃fl = whole⦄ net 1 (world plane) switched_off
Rounds-Steps_example =
    Rounds-Steps ⦃fl = whole⦄ net 1 (omega arith) schedule (world plane) (refl, refl, λ i. refl)

abbrev registrations : List Registration
registrations = record { flow = flow; iface = text "eth0"; ip = egress_ip } ∷ []

table_after-sessions_after_example :
    (outbound (out_key session) (table_after order registrations)
      ≡ sessions_after registrations (out_key session))
    × Answers
        (sessions_after registrations)
        (ret_key session)
        (lookup_return (table_after order registrations) (ret_key session))
table_after-sessions_after_example =
    table_after-sessions_after order registrations (out_key session) (ret_key session)
