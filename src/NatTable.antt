-- ===== src/NatTable.antt =====
-- crates/netmux-core/src/nat.rs: the NAT session table. The two maps are lists of entries; `order`
-- is the order in which the hasher of the outbound map has its values iterated, of which nothing is
-- known: where several sessions match a reply, any of them is found, and another after each change.
pub mod Find
pub mod Valid
pub mod Register
pub mod Stable
pub mod Distinct
pub mod Refinement
use netmux.Prelude.{
  ℕ, ◌+◌, ◌≡◌, List, [], ◌∷◌, Bool, true, false, ◌&&◌, ◌==◌, if◌then◌else◌, Option, none, some,
  length, u64, ℕ_discrete, map,
}
use netmux.Prelude.HashMap
use netmux.Prelude.HashMap.{HashMap, Order}
use netmux.Text.{Text}
use netmux.Ipv4.{Ipv4Addr, parse_ip}
use netmux.Packet.{Flow}

pub record Session : Type 0 where
  pub client_ip : Ipv4Addr
  pub client_port : ℕ
  pub server_ip : Ipv4Addr
  pub server_port : ℕ
  pub proto : ℕ
  pub egress_iface : Text
  pub egress_ip : Ipv4Addr
  pub tx_packets : ℕ
  pub rx_packets : ℕ

-- `OutKey` is (proto, client, sport, server, dport) and `RetKey` (proto, server, sport, egress_ip,
-- client_port): one type of tuples, as a record.
pub record FlowKey : Type 0 where
  pub proto : ℕ
  pub near_ip : Ipv4Addr
  pub near_port : ℕ
  pub far_ip : Ipv4Addr
  pub far_port : ℕ

unfoldable pub FlowKey-discrete : Discrete FlowKey
FlowKey-discrete = hlevel ℕ_discrete

pub record NatTable : Type 0 where
  pub by_outbound : HashMap FlowKey Session
  pub by_return : HashMap FlowKey ℕ
  pub index : ℕ
  pub order : Order FlowKey Session

abbrev pub new : Order FlowKey Session → NatTable
new order = record { by_outbound = []; by_return = []; index = 0; order = order }

pub sessions : NatTable → ℕ
sessions t = length t.by_outbound

-- The keys of a session.
abbrev pub out_key : Session → FlowKey
out_key s = record {
  proto = s.proto;
  near_ip = s.client_ip;
  near_port = s.client_port;
  far_ip = s.server_ip;
  far_port = s.server_port;
}

abbrev pub ret_key : Session → FlowKey
ret_key s = record {
  proto = s.proto;
  near_ip = s.server_ip;
  near_port = s.server_port;
  far_ip = s.egress_ip;
  far_port = s.client_port;
}

-- The session that an outbound flow opens.
abbrev pub new_session : Flow → Text → Ipv4Addr → Ipv4Addr → Ipv4Addr → Session
new_session flow egress_iface egress_ip client_ip server_ip = record {
  client_ip = client_ip;
  client_port = flow.sport;
  server_ip = server_ip;
  server_port = flow.dport;
  proto = flow.proto;
  egress_iface = egress_iface;
  egress_ip = egress_ip;
  tx_packets = 0;
  rx_packets = 0;
}

-- `register`, once both addresses are parsed and the outbound map has been asked.
pub register_session : NatTable → Session → Option Session → NatTable × Option Session
register_session t s (some old) = (t, some old)
register_session t s none = (
  record {
    by_outbound = HashMap.insert FlowKey-discrete (out_key s) s t.by_outbound;
    by_return = HashMap.insert FlowKey-discrete (ret_key s) t.index t.by_return;
    index = u64 (t.index + 1);
    order = t.order;
  },
  some s,
)

pub register_parsed :
    NatTable
    → Flow
    → Text
    → Ipv4Addr
    → Option Ipv4Addr
    → Option Ipv4Addr
    → NatTable × Option Session
register_parsed t flow iface ip none server = (t, none)
register_parsed t flow iface ip (some client) none = (t, none)
register_parsed t flow iface ip (some client) (some server) =
    let s = new_session flow iface ip client server in
    register_session t s (HashMap.get FlowKey-discrete (out_key s) t.by_outbound)

unfoldable pub register : NatTable → Flow → Text → Ipv4Addr → NatTable × Option Session
unfolding register_session register_parsed
register t flow egress_iface egress_ip =
    register_parsed t flow egress_iface egress_ip (parse_ip flow.src) (parse_ip flow.dst)

abbrev pub same_ip : Ipv4Addr → Ipv4Addr → Bool
same_ip x y = x.a == y.a && (x.b == y.b && (x.c == y.c && x.d == y.d))

-- The closure of `find` in `lookup_return`.
abbrev pub matches : FlowKey → Session → Bool
matches k s =
    s.proto == k.proto
    && (same_ip s.server_ip k.near_ip
        && (s.server_port == k.near_port
            && (same_ip s.egress_ip k.far_ip && s.client_port == k.far_port)))

-- `values().find(..)`, on the entries in the order of the iteration.
pub find_session : FlowKey → HashMap FlowKey Session → Option Session
find_session k [] = none
find_session k ((j, s) ∷ m) = if matches k s then some s else find_session k m

abbrev pub find_if : Option ℕ → Option Session → Option Session
find_if none found = none
find_if (some i) found = found

unfoldable pub lookup_return : NatTable → FlowKey → Option Session
unfolding find_session
lookup_return t k =
    find_if (HashMap.get FlowKey-discrete k t.by_return)
      (find_session k (t.order.iter t.by_outbound))
