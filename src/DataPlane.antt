-- ===== src/DataPlane.antt =====
-- `egress_loop` and `capture_loop` of crates/netmux-app/src/main.rs: one round of each, on the state
-- that the threads share. What a socket or the device answers to a packet is an argument.
pub mod Outbound
pub mod Inbound
pub mod RoundTrip
pub mod Rounds
use netmux.Prelude.{
  ℕ, ◌+◌, ◌==◌, List, [], ◌∷◌, Bool, true, false, not, ◌||◌, ltb, if◌then◌else◌, Option, none, some,
  length, shr, u64, Run, done, ◌>>=◌, index,
}
use netmux.Prelude.HashMap
use netmux.Prelude.HashMap.{HashMap}
use netmux.Text.{Text, Text-discrete}
use netmux.Float.{Float}
use netmux.Ipv4.{Ipv4Addr, parse_ip}
use netmux.Packet.{Flow, parse}
use netmux.Rewrite.{rewrite_ipv4_source, rewrite_ipv4_dest}
use netmux.Egress.{RawEgress}
use netmux.NatTable.{Session, FlowKey, NatTable, register, lookup_return}
use netmux.Aggregator.{ForwardDecision, Aggregator, route}

-- The engine and the NAT table behind their locks, and the atomic counters.
pub record DataPlane (F : Type 0) : Type 0 where
  pub aggregator : Aggregator F
  pub nat : NatTable
  pub tx_packets : ℕ
  pub tx_bytes : ℕ
  pub nat_rx_packets : ℕ

-- A packet handed to a socket, for a destination.
pub record Sent : Type 0 where
  pub sock : RawEgress
  pub packet : List ℕ
  pub dst : Ipv4Addr

-- What the closure of `and_then(|d| d.interface)` gives.
abbrev pub interface_of : Option ForwardDecision → Option Text
interface_of none = none
interface_of (some d) = d.interface

-- `Some(_session)` or `continue`
abbrev pub is_there : {A : Type 0} → Option A → Bool
is_there none = false
is_there (some a) = true

-- `lookup_return(flow.proto, src_ip, flow.sport, dst_ip, flow.dport)`
abbrev pub reply_key : Flow → Ipv4Addr → Ipv4Addr → FlowKey
reply_key flow src dst = record {
  proto = flow.proto;
  near_ip = src;
  near_port = flow.sport;
  far_ip = dst;
  far_port = flow.dport;
}

module _ {F : Type 0} where
  -- The last match: `accepted` says whether `sock.send` succeeds. The packet that is sent, if any.
  unfoldable pub send :
      (Sent → Bool) → RawEgress → Ipv4Addr → List ℕ × Bool → DataPlane F → Option Sent × DataPlane F
  send accepted sock dst (out, false) dp = (none, dp)
  send accepted sock dst (out, true) dp =
      let sent : Sent = record { sock = sock; packet = out; dst = dst } in
      if accepted sent
      then (
        some sent,
        record dp {
          tx_packets = u64 (dp.tx_packets + 1);
          tx_bytes = u64 (dp.tx_bytes + length out);
        },
      )
      else (none, dp)

  -- From the registration on, with the egress address, the socket and the destination at hand.
  unfoldable pub forward :
      (Sent → Bool)
      → List ℕ
      → Flow
      → Text
      → Option Ipv4Addr
      → Option RawEgress
      → Option Ipv4Addr
      → DataPlane F
      → Run (Option Sent × DataPlane F)
  unfolding send
  forward accepted buf flow iface none sock dst dp = done (none, dp)
  forward accepted buf flow iface (some ip) none dst dp = done (none, dp)
  forward accepted buf flow iface (some ip) (some sock) none dp = done (none, dp)
  forward accepted buf flow iface (some ip) (some sock) (some dst) dp =
      let (table, session) = register dp.nat flow iface ip in
      let dp : DataPlane F = record dp { nat = table } in
      if is_there session
      then (do out ← rewrite_ipv4_source buf ip; done (send accepted sock dst out dp))
      else done (none, dp)

  -- The interface that was picked, or `continue`.
  unfoldable pub forward_by :
      (Sent → Bool)
      → HashMap Text RawEgress
      → HashMap Text Ipv4Addr
      → List ℕ
      → Flow
      → Option Text
      → DataPlane F
      → Run (Option Sent × DataPlane F)
  unfolding forward
  forward_by accepted egress iface_ips buf flow none dp = done (none, dp)
  forward_by accepted egress iface_ips buf flow (some iface) dp =
      forward accepted buf flow iface (HashMap.get Text-discrete iface iface_ips)
        (HashMap.get Text-discrete iface egress) (parse_ip flow.dst) dp

  -- The write of the rewritten packet to the TUN device. The packet that is written, if any.
  unfoldable pub inject :
      (List ℕ → Bool) → List ℕ × Bool → DataPlane F → Option (List ℕ) × DataPlane F
  inject accepted (out, false) dp = (none, dp)
  inject accepted (out, true) dp =
      if accepted out
      then (some out, record dp { nat_rx_packets = u64 (dp.nat_rx_packets + 1) })
      else (none, dp)

  unfoldable pub deliver :
      (List ℕ → Bool) → List ℕ → Option Session → DataPlane F → Run (Option (List ℕ) × DataPlane F)
  unfolding inject
  deliver accepted buf none dp = done (none, dp)
  deliver accepted buf (some session) dp = do
    out ← rewrite_ipv4_dest buf session.client_ip
    done (inject accepted out dp)

  unfoldable pub deliver_to :
      (List ℕ → Bool)
      → List ℕ
      → Flow
      → Option Ipv4Addr
      → Option Ipv4Addr
      → DataPlane F
      → Run (Option (List ℕ) × DataPlane F)
  unfolding deliver
  deliver_to accepted buf flow none dst dp = done (none, dp)
  deliver_to accepted buf flow (some src) none dp = done (none, dp)
  deliver_to accepted buf flow (some src) (some dst) dp =
      deliver accepted buf (lookup_return dp.nat (reply_key flow src dst)) dp

  unfoldable pub deliver_flow :
      (List ℕ → Bool) → List ℕ → Option Flow → DataPlane F → Run (Option (List ℕ) × DataPlane F)
  unfolding deliver_to
  deliver_flow accepted buf none dp = done (none, dp)
  deliver_flow accepted buf (some flow) dp =
      deliver_to accepted buf flow (parse_ip flow.src) (parse_ip flow.dst) dp

  -- One round of `capture_loop` on a packet that was received.
  unfoldable pub capture_step :
      (List ℕ → Bool) → List ℕ → DataPlane F → Run (Option (List ℕ) × DataPlane F)
  unfolding deliver_flow
  capture_step accepted buf dp = if ltb (length buf) 20 then done (none, dp) else do
    b0 ← index buf 0
    if not (shr b0 4 == 4)
        then done (none, dp)
        else do flow ← parse buf; deliver_flow accepted buf flow dp

module _ {F : Type 0} ⦃fl : Float F⦄ where
  unfoldable pub egress_flow :
      (Sent → Bool)
      → HashMap Text RawEgress
      → HashMap Text Ipv4Addr
      → List ℕ
      → Option Flow
      → DataPlane F
      → Run (Option Sent × DataPlane F)
  unfolding forward_by
  egress_flow accepted egress iface_ips buf none dp = done (none, dp)
  egress_flow accepted egress iface_ips buf (some flow) dp = do
    (decision, agg) ← route buf dp.aggregator
    forward_by accepted egress iface_ips buf flow (interface_of decision)
        (record dp { aggregator = agg })

  -- One round of `egress_loop` on a packet that was read from the TUN device.
  unfoldable pub egress_step :
      (Sent → Bool)
      → HashMap Text RawEgress
      → HashMap Text Ipv4Addr
      → List ℕ
      → DataPlane F
      → Run (Option Sent × DataPlane F)
  unfolding egress_flow
  egress_step accepted egress iface_ips buf dp = do
    flow ← parse buf
    egress_flow accepted egress iface_ips buf flow dp
