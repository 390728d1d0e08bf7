-- ===== src/DataPlane/Outbound.antt =====
-- What a round of `egress_loop` sends and what it leaves behind.
use netmux.Prelude.{
  ap, ℕ, ◌≡◌, ◌≢◌, refl, ◌+◌, List, Bool, true, false, if◌then◌else◌, Option, none, some, length,
  u64, Bool-cases, inl, inr, Run, done, panic, ◌>>=◌, Ensures, Returns,
}
use netmux.Prelude.HashMap
use netmux.Prelude.HashMap.{HashMap}
use netmux.Text.{Text, Text-discrete}
use netmux.Float.{Float}
use netmux.Ipv4.{Ipv4Addr, parse_ip}
use netmux.Packet.{Flow, key, parse}
use netmux.Packet.Total.{parse-ne-panic}
use netmux.Rewrite.{rewrite_ipv4_source}
use netmux.Rewrite.Closed.{rewrite_ipv4_source-done}
use netmux.NatTable.{register}
use netmux.NatTable.Valid.{IsValid}
use netmux.NatTable.Register.{register-IsValid}
use netmux.Aggregator.{Aggregator, ForwardDecision, route}
use netmux.Aggregator.Routing.{Decides, route-Decides}
use netmux.Egress.{RawEgress}
use netmux.DataPlane.{
  DataPlane, Sent, interface_of, is_there, send, forward, forward_by, egress_flow, egress_step,
}

-- The flow that a run returned.
abbrev pub flow_or : Flow → Run (Option Flow) → Flow
flow_or d (done (some f)) = f
flow_or d (done none) = d
flow_or d panic = d

module _ {F : Type 0} ⦃fl : Float F⦄ (accepted : Sent → Bool) (egress : HashMap Text RawEgress)
    (iface_ips : HashMap Text Ipv4Addr) (buf : List ℕ) where
  -- The packet sent is the source rewrite of the one read to the address of the interface, which
  -- is the flow's in the flow table; it goes to the socket of that interface, for the flow's
  -- destination, after the flow was registered with that interface and address.
  pub record IsForwarded (dp : DataPlane F) (sent : Sent) (after : DataPlane F) : Type 0 where
    pub flow : Flow
    pub iface : Text
    pub ip : Ipv4Addr
    pub parsed : parse buf ≡ done (some flow)
    pub routed : HashMap.get Text-discrete (key flow) after.aggregator.flow_table ≡ some iface
    pub address : HashMap.get Text-discrete iface iface_ips ≡ some ip
    pub socket : HashMap.get Text-discrete iface egress ≡ some sent.sock
    pub target : parse_ip flow.dst ≡ some sent.dst
    pub registered : after.nat ≡ (register dp.nat flow iface ip).0
    pub session : is_there (register dp.nat flow iface ip).1 ≡ true
    pub rewritten : rewrite_ipv4_source buf ip ≡ done (sent.packet, true)

  abbrev pub Egressed : DataPlane F → Option Sent × DataPlane F → Type 0
  Egressed dp (none, after) =
      IsValid after.nat × (after.tx_packets ≡ dp.tx_packets) × (after.tx_bytes ≡ dp.tx_bytes)
  Egressed dp (some sent, after) =
      IsValid after.nat
      × (after.tx_packets ≡ u64 (dp.tx_packets + 1))
      × (after.tx_bytes ≡ u64 (dp.tx_bytes + length sent.packet))
      × (accepted sent ≡ true)
      × IsForwarded dp sent after

  Egressed-forward_by :
      (flow : Flow) (o : Option Text) (dp : DataPlane F) (agg : Aggregator F)
      → IsValid dp.nat
      → parse buf ≡ done (some flow)
      → ((iface : Text)
          → o ≡ some iface
          → HashMap.get Text-discrete (key flow) agg.flow_table ≡ some iface)
      → Ensures
          (Egressed dp)
          (forward_by accepted egress iface_ips buf flow o (record dp { aggregator = agg }))
  unfolding forward_by forward
  Egressed-forward_by flow none dp agg v p r = (v, refl, refl)
  Egressed-forward_by flow (some iface) dp agg v p r =
      found (HashMap.get Text-discrete iface iface_ips) (HashMap.get Text-discrete iface egress)
        (parse_ip flow.dst) refl refl refl
    where
      sends :
          (ip : Ipv4Addr) (sock : RawEgress) (dst : Ipv4Addr) (m : Run (List ℕ × Bool))
          → HashMap.get Text-discrete iface iface_ips ≡ some ip
          → HashMap.get Text-discrete iface egress ≡ some sock
          → parse_ip flow.dst ≡ some dst
          → is_there (register dp.nat flow iface ip).1 ≡ true
          → rewrite_ipv4_source buf ip ≡ m
          → Returns m
          → Ensures (Egressed dp) (
              m >>= (λ out. done (
                send accepted sock dst out
                  (record dp { aggregator = agg; nat = (register dp.nat flow iface ip).0 }))))
      sends ip sock dst panic a s t there w ret = ret
      sends ip sock dst (done (out, false)) a s t there w ret =
          unfold send in (register-IsValid dp.nat flow iface ip v, refl, refl)
      sends ip sock dst (done (out, true)) a s t there w ret =
          let sent : Sent = record { sock = sock; packet = out; dst = dst } in
          unfold send in
          elim (Bool-cases (accepted sent)) [
            | inr refused ↦ rw refused (register-IsValid dp.nat flow iface ip v, refl, refl)
            | inl took ↦ rw took (
              register-IsValid dp.nat flow iface ip v,
              refl,
              refl,
              took,
              record {
                flow = flow;
                iface = iface;
                ip = ip;
                parsed = p;
                routed = r iface refl;
                address = a;
                socket = s;
                target = t;
                registered = refl;
                session = there;
                rewritten = w;
              },
            )
          ]

      opens :
          (ip : Ipv4Addr) (sock : RawEgress) (dst : Ipv4Addr) (b : Bool)
          → HashMap.get Text-discrete iface iface_ips ≡ some ip
          → HashMap.get Text-discrete iface egress ≡ some sock
          → parse_ip flow.dst ≡ some dst
          → is_there (register dp.nat flow iface ip).1 ≡ b
          → Ensures (Egressed dp) (
              if b
              then (rewrite_ipv4_source buf ip >>= (λ out. done (
                  send accepted sock dst out
                    (record dp { aggregator = agg; nat = (register dp.nat flow iface ip).0 }))))
              else done
                  (none, record dp { aggregator = agg; nat = (register dp.nat flow iface ip).0 }))
      opens ip sock dst false a s t there = (register-IsValid dp.nat flow iface ip v, refl, refl)
      opens ip sock dst true a s t there =
          sends ip sock dst (rewrite_ipv4_source buf ip) a s t there refl
            (rw rewrite_ipv4_source-done tt)

      found :
          (ip : Option Ipv4Addr) (sock : Option RawEgress) (dst : Option Ipv4Addr)
          → HashMap.get Text-discrete iface iface_ips ≡ ip
          → HashMap.get Text-discrete iface egress ≡ sock
          → parse_ip flow.dst ≡ dst
          → Ensures
              (Egressed dp)
              (forward accepted buf flow iface ip sock dst (record dp { aggregator = agg }))
      found none sock dst a s t = (v, refl, refl)
      found (some ip) none dst a s t = (v, refl, refl)
      found (some ip) (some sock) none a s t = (v, refl, refl)
      found (some ip) (some sock) (some dst) a s t = opens ip sock dst _ a s t refl

  Egressed-egress_flow :
      (o : Option Flow) (dp : DataPlane F)
      → IsValid dp.nat
      → parse buf ≡ done o
      → Ensures (Egressed dp) (egress_flow accepted egress iface_ips buf o dp)
  unfolding egress_flow
  Egressed-egress_flow none dp v p = (v, refl, refl)
  Egressed-egress_flow (some flow) dp v p =
      decided (route buf dp.aggregator) (route-Decides buf dp.aggregator)
    where
      routed :
          (o : Option ForwardDecision) (agg : Aggregator F)
          → Decides dp.aggregator buf (o, agg)
          → (iface : Text) → interface_of o ≡ some iface
          → HashMap.get Text-discrete (key flow) agg.flow_table ≡ some iface
      routed none agg h iface e = absurd (cc)
      routed (some d) agg (on, q, (name, i, (usable, entry, others, rest))) iface e =
          let same : done (some flow) ≡ done (some d.flow) = cc in
          let f : flow ≡ d.flow = ap (flow_or flow) same in
          let n : name ≡ iface = cc in rw (f, ← n) entry

      decided :
          (m : Run (Option ForwardDecision × Aggregator F))
          → Ensures (Decides dp.aggregator buf) m
          → Ensures (Egressed dp) (
              m >>= (λ (decision, agg).
                forward_by accepted egress iface_ips buf flow
                  (interface_of decision)
                  (record dp { aggregator = agg })))
      decided panic h = h
      decided (done (o, agg)) h =
          Egressed-forward_by flow (interface_of o) dp agg v p (routed o agg h)

  -- From a state with a valid session table a round of the egress loop returns without a panic
  -- and leaves the table valid. Either no packet is sent and the counters stay, or one is sent and
  -- counted, and then it is the packet that was read, forwarded as `IsForwarded` says.
  pub egress_step-Egressed :
      (dp : DataPlane F)
      → IsValid dp.nat
      → Ensures (Egressed dp) (egress_step accepted egress iface_ips buf dp)
  egress_step-Egressed dp v = unfold egress_step in parsed (parse buf) (parse-ne-panic buf) refl
    where
      parsed :
          (m : Run (Option Flow))
          → m ≢ panic
          → parse buf ≡ m
          → Ensures (Egressed dp) (m >>= (λ o. egress_flow accepted egress iface_ips buf o dp))
      parsed panic ne e = absurd (ne refl)
      parsed (done o) ne e = Egressed-egress_flow o dp v e
