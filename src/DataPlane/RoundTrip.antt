-- ===== src/DataPlane/RoundTrip.antt =====
-- A packet out through an interface and the answer back to the client.
use netmux.Prelude.{
  ap, sym, ℕ, ◌≡◌, refl, ◌∙◌, ◌+◌, List, Bool, true, Option, none, some, length, u64, arith, Run,
  done, panic, All, IsBytes, le→ltb,
}
use netmux.Prelude.HashMap.{HashMap, All-get}
use netmux.Text.{Text, Text-discrete}
use netmux.Float.{Float}
use netmux.Ipv4.{Ipv4Addr, IsOctets, dotted, parse_ip}
use netmux.Ipv4.RoundTrip.{parse_ip-dotted}
use netmux.Packet.{Flow, parse}
use netmux.Packet.V4.{ip_at, flow_v4, parse-IsIpv4, parse_ip-flow_v4}
use netmux.Packet.Rewritten.{parse-rewrite_ipv4_source, parse-rewrite_ipv4_dest}
use netmux.Rewrite.Closed.{IsIpv4}
use netmux.NatTable.{Session, FlowKey, lookup_return, register, new_session}
use netmux.NatTable.Valid.{IsValid, outbound, returning}
use netmux.NatTable.Register.{lookup_return-register}
use netmux.Egress.{RawEgress}
use netmux.DataPlane.{
  DataPlane, Sent, reply_key, deliver_flow, deliver_to, deliver, inject, egress_step, capture_step,
}
use netmux.DataPlane.Outbound.{IsForwarded, egress_step-Egressed, flow_or}
use netmux.DataPlane.Inbound.{capture_step-deliver_flow}

-- The flow of the answers to a flow.
abbrev pub reversed : Flow → Flow
reversed f = record { src = f.dst; dst = f.src; proto = f.proto; sport = f.dport; dport = f.sport }

-- The key under which the client's flow is registered.
abbrev pub client_key : List ℕ → FlowKey
client_key buf = record {
  proto = (flow_v4 buf).proto;
  near_ip = ip_at buf 12;
  near_port = (flow_v4 buf).sport;
  far_ip = ip_at buf 16;
  far_port = (flow_v4 buf).dport;
}

abbrev pub always : {A : Type 0} → A → Bool
always a = true

abbrev ip_or : Ipv4Addr → Option Ipv4Addr → Ipv4Addr
ip_or d none = d
ip_or d (some ip) = ip

abbrev packet_or : List ℕ → Run (List ℕ × Bool) → List ℕ
packet_or d (done r) = r.0
packet_or d panic = d

module _ {F : Type 0} where
  -- A packet whose source and destination parse and whose session is found is delivered.
  capture_step-delivered :
      (reply : List ℕ) (v4 : IsIpv4 reply) (f : Flow) (src dst : Ipv4Addr) (s : Session)
      (dp : DataPlane F)
      → parse reply ≡ done (some f)
      → parse_ip f.src ≡ some src
      → parse_ip f.dst ≡ some dst
      → lookup_return dp.nat (reply_key f src dst) ≡ some s
      → (out : List ℕ) × (capture_step always reply dp
          ≡ done (some out, record dp { nat_rx_packets = u64 (dp.nat_rx_packets + 1) }))
        × (parse out ≡ done (some (record f { dst = dotted s.client_ip })))
  capture_step-delivered reply v4 f src dst s dp p from to found =
      let (out, w, q) = parse-rewrite_ipv4_dest reply s.client_ip v4 in
      let same : done (some (flow_v4 reply)) ≡ done (some f) = sym (parse-IsIpv4 reply v4) ∙ p in
      let flow : flow_v4 reply ≡ f = ap (flow_or f) same in
      (
        out,
        capture_step-deliver_flow always reply dp
              (le→ltb (length reply) 20 (omega (arith, v4.shortest, v4.whole))) v4.version
            ∙ (unfold deliver_flow deliver_to deliver inject in rw (p, from, to, found, w) refl),
        q ∙ ap (λ (g : Flow). done (some (record g { dst = dotted s.client_ip }))) flow,
      )

module _ {F : Type 0} ⦃fl : Float F⦄ (accepted : Sent → Bool) (egress : HashMap Text RawEgress)
    (iface_ips : HashMap Text Ipv4Addr) (buf : List ℕ) (bytes : IsBytes buf) (v4 : IsIpv4 buf)
    (addresses : All (λ (e : Text × Ipv4Addr). IsOctets e.1) iface_ips) where
  -- What the reply to a forwarded packet finds, if the flow was new and its reply key free.
  forwarded-found :
      (dp after : DataPlane F) (sent : Sent) (g : Flow) (ip : Ipv4Addr)
      → IsForwarded accepted egress iface_ips buf dp sent after
      → IsValid dp.nat
      → parse sent.packet ≡ done (some g)
      → parse_ip g.src ≡ some ip
      → outbound (client_key buf) dp.nat ≡ none
      → returning (reply_key (reversed g) (ip_at buf 16) ip) dp.nat ≡ none
      → (s : Session) × (s.client_ip ≡ ip_at buf 12)
        × (g ≡ record (flow_v4 buf) { src = dotted ip })
        × (lookup_return after.nat (reply_key (reversed g) (ip_at buf 16) ip) ≡ some s)
  forwarded-found dp after sent g ip fwd valid p from fresh free =
      let (out, w, q) = parse-rewrite_ipv4_source buf fwd.ip v4 in
      let (src_ok, dst_ok) = parse_ip-flow_v4 buf bytes in
      let sent_out : out ≡ sent.packet = ap (packet_or out) (sym w ∙ fwd.rewritten) in
      let flows : g ≡ record (flow_v4 buf) { src = dotted fwd.ip } =
        ap (flow_or g) (sym p ∙ ap parse (sym sent_out) ∙ q) in
      let octets_ok : IsOctets fwd.ip =
        All-get Text-discrete IsOctets fwd.iface fwd.ip iface_ips addresses fwd.address in
      let same_ip : fwd.ip ≡ ip = ap (ip_or ip) (
        sym (parse_ip-dotted fwd.ip octets_ok)
        ∙ ap (λ (f : Flow). parse_ip f.src) (sym flows)
        ∙ from) in
      let flow : fwd.flow ≡ flow_v4 buf =
        ap (flow_or fwd.flow) (sym fwd.parsed ∙ parse-IsIpv4 buf v4) in
      let keys : reply_key (reversed g) (ip_at buf 16) ip
          ≡ reply_key (reversed (flow_v4 buf)) (ip_at buf 16) ip =
        ap (λ (f : Flow). reply_key (reversed f) (ip_at buf 16) ip) flows in
      let (opens, found) =
        lookup_return-register dp.nat (flow_v4 buf) fwd.iface ip (ip_at buf 12) (ip_at buf 16)
          src_ok dst_ok valid fresh (ap (λ k. returning k dp.nat) (sym keys) ∙ free) in
      let table : after.nat ≡ (register dp.nat (flow_v4 buf) fwd.iface ip).0 =
        fwd.registered ∙ rw (flow, same_ip) refl in
      (
        new_session (flow_v4 buf) fwd.iface ip (ip_at buf 12) (ip_at buf 16),
        refl,
        flows ∙ rw same_ip refl,
        rw (table, keys) found,
      )

  -- Let the interfaces have IPv4 addresses of octets, the session table be valid, and a round of the
  -- egress loop send a packet for an IPv4 packet of bytes whose flow has no session yet and whose
  -- reply key is not in the return map. Then a reply, an IPv4 packet whose flow is the reverse of
  -- the sent packet's, is written to the TUN device if it takes it, as a packet whose flow is the
  -- reverse of the client's own flow.
  pub capture_step-egress_step :
      (dp after : DataPlane F) (sent : Sent) (g : Flow) (ip : Ipv4Addr) (reply : List ℕ)
      → IsValid dp.nat
      → egress_step accepted egress iface_ips buf dp ≡ done (some sent, after)
      → parse sent.packet ≡ done (some g)
      → parse_ip g.src ≡ some ip
      → outbound (client_key buf) dp.nat ≡ none
      → returning (reply_key (reversed g) (ip_at buf 16) ip) dp.nat ≡ none
      → IsIpv4 reply
      → parse reply ≡ done (some (reversed g))
      → (out : List ℕ) × (capture_step always reply after
          ≡ done (some out, record after { nat_rx_packets = u64 (after.nat_rx_packets + 1) }))
        × (parse out ≡ done (some (reversed (flow_v4 buf))))
  capture_step-egress_step dp after sent g ip reply valid step p from fresh free v4_reply answers =
      let (kept, t, b, a, fwd) =
        rw step at (egress_step-Egressed accepted egress iface_ips buf dp valid) in
      let (s, client, flows, found) =
        forwarded-found dp after sent g ip fwd valid p from fresh free in
      let (src_ok, dst_ok) = parse_ip-flow_v4 buf bytes in
      let server : parse_ip g.dst ≡ some (ip_at buf 16) =
        ap (λ (f : Flow). parse_ip f.dst) flows ∙ dst_ok in
      let (out, run, q) =
        capture_step-delivered reply v4_reply (reversed g) (ip_at buf 16) ip s after answers server
          from found in
      (
        out,
        run,
        q
            ∙ ap (λ (f : Flow). done (some (record (reversed f) { dst = dotted s.client_ip })))
                flows
            ∙ rw client refl,
      )
