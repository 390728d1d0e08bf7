-- ===== src/Threads/Holds.antt =====
-- What holds of a thread where it stands, and that its own moves keep it.
use netmux.Prelude.{ℕ, ◌≡◌, refl, sym, ◌∙◌, List, Option, some, none, true, done}
use netmux.Prelude.HashMap
use netmux.Text.{Text, Text-discrete}
use netmux.Float.{Float}
use netmux.Ipv4.{Ipv4Addr, parse_ip}
use netmux.Packet.{Flow, parse}
use netmux.Rewrite.{rewrite_ipv4_source, rewrite_ipv4_dest}
use netmux.Egress.{RawEgress}
use netmux.NatTable.{Session, FlowKey, out_key, ret_key, NatTable, register}
use netmux.NatTable.Valid.{IsValid, outbound}
use netmux.NatTable.Register.{outbound-lookup_return, ret_key-lookup_return}
use netmux.NatTable.Stable.{outbound-stable, outbound-register, flow_key}
use netmux.DataPlane.{DataPlane, reply_key, interface_of}
use netmux.Threads.{
  Network, Target, target, target_at, EgressPc, reading, routing, registering, sending, counting,
  counting_bytes, CapturePc, receiving, looking_up, writing, counting_reply, EgressMove, skip, read,
  unrouted, routed, refused, unwritten, registered, unsent, sent, count, count_bytes, CaptureMove,
  ignore, receive, unknown, unchanged, found, unaccepted, written, count_reply,
}

-- The interface has the address and the socket, and the destination is the flow's.
pub record IsTarget (net : Network) (flow : Flow) (to : Target) : Type 0 where
  pub address : HashMap.get Text-discrete to.iface net.iface_ips ≡ some to.ip
  pub socket : HashMap.get Text-discrete to.iface net.egress ≡ some to.sock
  pub aimed : parse_ip flow.dst ≡ some to.dst

-- The packet about to be sent is the source rewrite, to the address of the interface, of a packet
-- whose flow has a session.
pub record IsOutgoing (net : Network) (t : NatTable) (out : List ℕ) (to : Target) : Type 0 where
  pub buf : List ℕ
  pub flow : Flow
  pub client : Ipv4Addr
  pub session : Session
  pub parsed : parse buf ≡ done (some flow)
  pub aim : IsTarget net flow to
  pub source : parse_ip flow.src ≡ some client
  pub stored : outbound (flow_key flow client to.dst) t ≡ some session
  pub rewritten : rewrite_ipv4_source buf to.ip ≡ done (out, true)

abbrev pub EgressHolds : Network → NatTable → EgressPc → Type 0
EgressHolds net t reading = Unit
EgressHolds net t (routing buf flow) = parse buf ≡ done (some flow)
EgressHolds net t (registering buf flow to) = (parse buf ≡ done (some flow)) × IsTarget net flow to
EgressHolds net t (sending out to) = IsOutgoing net t out to
EgressHolds net t (counting out) = Unit
EgressHolds net t (counting_bytes out) = Unit

-- A packet received with the key of its flow.
abbrev pub IsReply : List ℕ → FlowKey → Type 0
IsReply buf k =
    (flow : Flow) × (src : Ipv4Addr) × (dst : Ipv4Addr) × (parse buf ≡ done (some flow))
    × (parse_ip flow.src ≡ some src)
    × (parse_ip flow.dst ≡ some dst)
    × (k ≡ reply_key flow src dst)

-- The packet about to be written is the destination rewrite of a reply to the client of a session
-- that stands in the table, and whose replies have the key of this one.
pub record IsIncoming (t : NatTable) (out : List ℕ) : Type 0 where
  pub buf : List ℕ
  pub k : FlowKey
  pub session : Session
  pub reply : IsReply buf k
  pub stands : outbound (out_key session) t ≡ some session
  pub answered : ret_key session ≡ k
  pub rewritten : rewrite_ipv4_dest buf session.client_ip ≡ done (out, true)

abbrev pub CaptureHolds : NatTable → CapturePc → Type 0
CaptureHolds t receiving = Unit
CaptureHolds t (looking_up buf k) = IsReply buf k
CaptureHolds t (writing out) = IsIncoming t out
CaptureHolds t counting_reply = Unit

IsTarget-target :
    (net : Network) (flow : Flow) (o : Option Text) (to : Target)
    → target net flow o ≡ some to
    → IsTarget net flow to
IsTarget-target net flow none to h = absurd (cc)
IsTarget-target net flow (some iface) to h =
    at (HashMap.get Text-discrete iface net.iface_ips) (HashMap.get Text-discrete iface net.egress)
      (parse_ip flow.dst) refl refl refl h
  where
    at :
        (ip : Option Ipv4Addr) (sock : Option RawEgress) (dst : Option Ipv4Addr)
        → HashMap.get Text-discrete iface net.iface_ips ≡ ip
        → HashMap.get Text-discrete iface net.egress ≡ sock
        → parse_ip flow.dst ≡ dst
        → target_at iface ip sock dst ≡ some to
        → IsTarget net flow to
    at none sock dst a b c e = absurd (cc)
    at (some ip) none dst a b c e = absurd (cc)
    at (some ip) (some sock) none a b c e = absurd (cc)
    at (some ip) (some sock) (some dst) a b c e =
        let same : record { iface = iface; ip = ip; sock = sock; dst = dst } ≡ to = cc in
        rw⁻¹ same (record { address = a; socket = b; aimed = c })

module _ {F : Type 0} ⦃fl : Float F⦄ (net : Network) where
  pub EgressMove-holds :
      {dp dq : DataPlane F} {pc qc : EgressPc}
      → EgressMove net dp pc dq qc
      → EgressHolds net dp.nat pc
      → EgressHolds net dq.nat qc
  EgressMove-holds (skip buf p) h = tt
  EgressMove-holds (read p) h = p
  EgressMove-holds (unrouted p q) h = tt
  EgressMove-holds (routed {flow = flow} {d = d} {to = to} p q) h =
      (h, IsTarget-target net flow (interface_of d) to q)
  EgressMove-holds (refused p) h = tt
  EgressMove-holds (unwritten p q) h = tt
  EgressMove-holds {dp = dp} (registered {buf = buf} {flow = flow} {to = to} {s = s} p q)
        (parsed, aim) =
      let (client, server, from, towards, stored) =
        outbound-register dp.nat flow to.iface to.ip s p in
      let same : server ≡ to.dst =
        (let both : some server ≡ some to.dst = sym towards ∙ aim.aimed in cc) in
      record {
        buf = buf;
        flow = flow;
        client = client;
        session = s;
        parsed = parsed;
        aim = aim;
        source = from;
        stored = rw (← same) stored;
        rewritten = q;
      }
  EgressMove-holds unsent h = tt
  EgressMove-holds sent h = tt
  EgressMove-holds count h = tt
  EgressMove-holds count_bytes h = tt

  pub CaptureMove-holds :
      {dp dq : DataPlane F} {pc qc : CapturePc}
      → CaptureMove dp pc dq qc
      → IsValid dp.nat
      → CaptureHolds dp.nat pc
      → CaptureHolds dq.nat qc
  CaptureMove-holds ignore v h = tt
  CaptureMove-holds (receive {flow = flow} {src = src} {dst = dst} a b p q r) v h =
      (flow, src, dst, p, q, r, refl)
  CaptureMove-holds (unknown p) v h = tt
  CaptureMove-holds (unchanged p q) v h = tt
  CaptureMove-holds {dp = dp} (found {buf = buf} {k = k} {s = s} p q) v h = record {
    buf = buf;
    k = k;
    session = s;
    reply = h;
    stands = outbound-lookup_return dp.nat k s v p;
    answered = ret_key-lookup_return dp.nat k s p;
    rewritten = q;
  }
  CaptureMove-holds unaccepted v h = tt
  CaptureMove-holds written v h = tt
  CaptureMove-holds count_reply v h = tt

-- What holds of a capture thread holds after every registration.
pub CaptureHolds-register :
    (t : NatTable) (flow : Flow) (iface : Text) (ip : Ipv4Addr) (pc : CapturePc)
    → CaptureHolds t pc
    → CaptureHolds (register t flow iface ip).0 pc
CaptureHolds-register t flow iface ip receiving h = tt
CaptureHolds-register t flow iface ip (looking_up buf k) h = h
CaptureHolds-register t flow iface ip (writing out) h = record {
  buf = h.buf;
  k = h.k;
  session = h.session;
  reply = h.reply;
  stands = outbound-stable t flow iface ip (out_key h.session) h.session h.stands;
  answered = h.answered;
  rewritten = h.rewritten;
}
CaptureHolds-register t flow iface ip counting_reply h = tt
