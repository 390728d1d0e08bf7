-- ===== src/Threads.antt =====
-- The threads of crates/netmux-app/src/main.rs while the program tunnels, interleaved in any order:
-- `egress_loop`, any number of `capture_loop`, the timer and the controls. A step is what a thread
-- does under one lock, in one system call or in one atomic addition.
pub mod Established
pub mod Holds
pub mod Sound
pub mod Invariant
pub mod Progress
pub mod Schedules
pub mod Replies
pub mod Rounds
use netmux.Prelude.{
  ltb, shr, get_or, ℕ, ◌+◌, ◌≡◌, ◌≢◌, ◌==◌, ◌<◌, List, Option, none, some, true, false,
  if◌then◌else◌, length, u64, done,
}
use netmux.Prelude.HashMap
use netmux.Prelude.HashMap.{HashMap, Order}
use netmux.Text.{Text, Text-discrete}
use netmux.Float.{Float}
use netmux.Ipv4.{Ipv4Addr, parse_ip}
use netmux.Packet.{Flow, parse}
use netmux.Rewrite.{rewrite_ipv4_source, rewrite_ipv4_dest}
use netmux.Egress.{RawEgress}
use netmux.NatTable.{Session, FlowKey, new, register, lookup_return}
use netmux.Sysfs.{SysEntry}
use netmux.Policy.{AggregatorConfig, Strategy, BalanceAlgorithm}
use netmux.Aggregator.{ForwardDecision, Aggregator, route}
use netmux.Aggregator
use netmux.DataPlane.{DataPlane, interface_of, reply_key}
use netmux.App.Actions.{IsSmallAction}
use netmux.App.{IfaceAction, iface_action, toggle_enabled, set_strategy, set_algorithm}

-- What the egress thread is given when it starts.
pub record Network : Type 0 where
  pub egress : HashMap Text RawEgress
  pub iface_ips : HashMap Text Ipv4Addr

-- Where a packet goes: the interface, its address, its socket and the destination.
pub record Target : Type 0 where
  pub iface : Text
  pub ip : Ipv4Addr
  pub sock : RawEgress
  pub dst : Ipv4Addr

abbrev pub target_at : Text → Option Ipv4Addr → Option RawEgress → Option Ipv4Addr → Option Target
target_at iface none sock dst = none
target_at iface (some ip) none dst = none
target_at iface (some ip) (some sock) none = none
target_at iface (some ip) (some sock) (some dst) =
    some (record { iface = iface; ip = ip; sock = sock; dst = dst })

-- The tests of `egress_loop` between the routing and the registration.
abbrev pub target : Network → Flow → Option Text → Option Target
target net flow none = none
target net flow (some iface) =
    target_at iface (HashMap.get Text-discrete iface net.iface_ips)
      (HashMap.get Text-discrete iface net.egress) (parse_ip flow.dst)

-- Where the egress thread stands, with the variables that are live there.
pub data EgressPc : Type 0 where
  reading : EgressPc
  routing : (buf : List ℕ) (flow : Flow) → EgressPc
  registering : (buf : List ℕ) (flow : Flow) (to : Target) → EgressPc
  sending : (out : List ℕ) (to : Target) → EgressPc
  counting : (out : List ℕ) → EgressPc
  counting_bytes : (out : List ℕ) → EgressPc

pub data CapturePc : Type 0 where
  receiving : CapturePc
  looking_up : (buf : List ℕ) (k : FlowKey) → CapturePc
  writing : (out : List ℕ) → CapturePc
  counting_reply : CapturePc

-- One step of `egress_loop`. What is read, and whether a packet can be sent, is left open.
pub data EgressMove {F : Type 0} ⦃fl : Float F⦄ (net : Network) (dp : DataPlane F)
    : EgressPc → DataPlane F → EgressPc → Type 0 where
  skip : (buf : List ℕ) → parse buf ≡ done none → EgressMove net dp reading dp reading
  read :
      {buf : List ℕ} {flow : Flow}
      → parse buf ≡ done (some flow)
      → EgressMove net dp reading dp (routing buf flow)
  unrouted :
      {buf : List ℕ} {flow : Flow} {d : Option ForwardDecision} {agg : Aggregator F}
      → route buf dp.aggregator ≡ done (d, agg)
      → target net flow (interface_of d) ≡ none
      → EgressMove net dp (routing buf flow) (record dp { aggregator = agg }) reading
  routed :
      {buf : List ℕ} {flow : Flow} {d : Option ForwardDecision} {agg : Aggregator F} {to : Target}
      → route buf dp.aggregator ≡ done (d, agg)
      → target net flow (interface_of d) ≡ some to
      → EgressMove net dp
          (routing buf flow)
          (record dp { aggregator = agg })
          (registering buf flow to)
  refused :
      {buf : List ℕ} {flow : Flow} {to : Target}
      → (register dp.nat flow to.iface to.ip).1 ≡ none
      → EgressMove net dp
          (registering buf flow to)
          (record dp { nat = (register dp.nat flow to.iface to.ip).0 })
          reading
  unwritten :
      {buf out : List ℕ} {flow : Flow} {to : Target} {s : Session}
      → (register dp.nat flow to.iface to.ip).1 ≡ some s
      → rewrite_ipv4_source buf to.ip ≡ done (out, false)
      → EgressMove net dp
          (registering buf flow to)
          (record dp { nat = (register dp.nat flow to.iface to.ip).0 })
          reading
  registered :
      {buf out : List ℕ} {flow : Flow} {to : Target} {s : Session}
      → (register dp.nat flow to.iface to.ip).1 ≡ some s
      → rewrite_ipv4_source buf to.ip ≡ done (out, true)
      → EgressMove net dp
          (registering buf flow to)
          (record dp { nat = (register dp.nat flow to.iface to.ip).0 })
          (sending out to)
  unsent : {out : List ℕ} {to : Target} → EgressMove net dp (sending out to) dp reading
  sent : {out : List ℕ} {to : Target} → EgressMove net dp (sending out to) dp (counting out)
  count :
      {out : List ℕ}
      → EgressMove net dp
          (counting out)
          (record dp { tx_packets = u64 (dp.tx_packets + 1) })
          (counting_bytes out)
  count_bytes :
      {out : List ℕ}
      → EgressMove net dp
          (counting_bytes out)
          (record dp { tx_bytes = u64 (dp.tx_bytes + length out) })
          reading

-- One step of a `capture_loop`.
pub data CaptureMove {F : Type 0} (dp : DataPlane F)
    : CapturePc → DataPlane F → CapturePc → Type 0 where
  ignore : CaptureMove dp receiving dp receiving
  receive :
      {buf : List ℕ} {flow : Flow} {src dst : Ipv4Addr}
      → ltb (length buf) 20 ≡ false
      → shr (get_or buf 0 0) 4 ≡ 4
      → parse buf ≡ done (some flow)
      → parse_ip flow.src ≡ some src
      → parse_ip flow.dst ≡ some dst
      → CaptureMove dp receiving dp (looking_up buf (reply_key flow src dst))
  unknown :
      {buf : List ℕ} {k : FlowKey}
      → lookup_return dp.nat k ≡ none
      → CaptureMove dp (looking_up buf k) dp receiving
  unchanged :
      {buf out : List ℕ} {k : FlowKey} {s : Session}
      → lookup_return dp.nat k ≡ some s
      → rewrite_ipv4_dest buf s.client_ip ≡ done (out, false)
      → CaptureMove dp (looking_up buf k) dp receiving
  found :
      {buf out : List ℕ} {k : FlowKey} {s : Session}
      → lookup_return dp.nat k ≡ some s
      → rewrite_ipv4_dest buf s.client_ip ≡ done (out, true)
      → CaptureMove dp (looking_up buf k) dp (writing out)
  unaccepted : {out : List ℕ} → CaptureMove dp (writing out) dp receiving
  written : {out : List ℕ} → CaptureMove dp (writing out) dp counting_reply
  count_reply :
      CaptureMove dp counting_reply
        (record dp { nat_rx_packets = u64 (dp.nat_rx_packets + 1) })
        receiving

-- What the window's thread does to the engine: the tick with what it reads, and the controls.
pub data WindowMove {F : Type 0} ⦃fl : Float F⦄ (agg : Aggregator F) : Aggregator F → Type 0 where
  timer :
      (entries : Option (List SysEntry)) (at : ℕ) (again : Option (List SysEntry))
      → WindowMove agg (Aggregator.tick entries at again agg)
  toggle : WindowMove agg (toggle_enabled agg)
  strategy : (s : Strategy) → WindowMove agg (set_strategy s agg)
  algorithm : (a : BalanceAlgorithm) → WindowMove agg (set_algorithm a agg)
  control :
      {after : Aggregator F} (action : IfaceAction)
      → IsSmallAction action
      → iface_action action agg ≡ done after
      → WindowMove agg after

-- The shared state and where every thread stands; a number from `n` on names no capture thread.
pub record World (F : Type 0) : Type 0 where
  pub plane : DataPlane F
  pub out : EgressPc
  pub back : ℕ → CapturePc

abbrev pub moved : (ℕ → CapturePc) → ℕ → CapturePc → ℕ → CapturePc
moved pcs i pc j = if i == j then pc else pcs j

pub data Step {F : Type 0} ⦃fl : Float F⦄ (net : Network) (n : ℕ) (w : World F)
    : World F → Type 0 where
  egress_thread :
      {dp : DataPlane F} {pc : EgressPc}
      → EgressMove net w.plane w.out dp pc
      → Step net n w (record w { plane = dp; out = pc })
  capture_thread :
      (i : ℕ) {dp : DataPlane F} {pc : CapturePc}
      → i < n
      → CaptureMove w.plane (w.back i) dp pc
      → Step net n w (record w { plane = dp; back = moved w.back i pc })
  window :
      {agg : Aggregator F}
      → WindowMove w.plane.aggregator agg
      → Step net n w (record w { plane = record w.plane { aggregator = agg } })

-- Any number of steps.
pub data Steps {F : Type 0} ⦃fl : Float F⦄ (net : Network) (n : ℕ) (w : World F)
    : World F → Type 0 where
  here : Steps net n w w
  later : {v u : World F} → Steps net n w v → Step net n v u → Steps net n w u

-- The program starts with an empty session table, and every thread at the head of its loop.
abbrev pub initial : {F : Type 0} → Order FlowKey Session → Aggregator F → World F
initial order agg = record {
  plane = record {
    aggregator = agg;
    nat = new order;
    tx_packets = 0;
    tx_bytes = 0;
    nat_rx_packets = 0;
  };
  out = reading;
  back = λ i. receiving;
}
