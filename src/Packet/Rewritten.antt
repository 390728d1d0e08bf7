-- ===== src/Packet/Rewritten.antt =====
-- The flow of a rewritten packet: one address is new, and all else is as it was.
use netmux.Prelude.{
  ℕ, ◌+◌, ◌≤◌, ◌<◌, ◌≡◌, ◌≢◌, ◌⊎◌, refl, ◌∙◌, List, true, some, length, done, arith, inl, inr,
}
use netmux.Ipv4.{Ipv4Addr, octets, dotted}
use netmux.Rewrite.{rewrite_ipv4_source, rewrite_ipv4_dest}
use netmux.Rewrite.Closed.{
  byte, address_at, IsIpv4, readdressed, transport_fixed, length-readdressed, source_rewritten,
  dest_rewritten, rewrite_ipv4_source-done, rewrite_ipv4_dest-done,
}
use netmux.Rewrite.Frame.{byte-transport_fixed, length-transport_fixed}
use netmux.Rewrite.Verifies.{
  ihl_of, byte-readdressed, address_at-readdressed, address_at-transport_fixed, accepted_of_IsIpv4,
}
use netmux.Packet.{parse}
use netmux.Packet.V4.{ip_at, ports_at, flow_v4, parse-IsIpv4}

module _ (pkt : List ℕ) (ip : Ipv4Addr) (v4 : IsIpv4 pkt) (at : ℕ) (far : 12 ≤ at) (near : at ≤ 16)
    (src dst : List ℕ) where
  abbrev out : List ℕ
  out = transport_fixed (ihl_of pkt) src dst (readdressed at ip (ihl_of pkt) pkt)

  -- Bytes away from the header checksum, the address and the transport checksum stay.
  byte-out :
      (j : ℕ)
      → (j < at) ⊎ (at + 4 ≤ j)
      → j ≢ 10
      → j ≢ 11
      → j ≢ ihl_of pkt + 16
      → j ≢ ihl_of pkt + 17
      → byte out j ≡ byte pkt j
  byte-out j side n m k l =
      byte-transport_fixed (ihl_of pkt) j src dst (readdressed at ip (ihl_of pkt) pkt) k l
      ∙ byte-readdressed at ip (ihl_of pkt) j pkt side n m

  byte-out_low :
      (j : ℕ) → (j < at) ⊎ (at + 4 ≤ j) → j < 20 → j ≢ 10 → j ≢ 11 → byte out j ≡ byte pkt j
  byte-out_low j side h n m =
      byte-out j side n m (λ e. absurd (omega (arith, e, v4.shortest)))
        (λ e. absurd (omega (arith, e, v4.shortest)))

  length-out : length out ≡ length pkt
  length-out =
      length-transport_fixed (ihl_of pkt) src dst (readdressed at ip (ihl_of pkt) pkt)
      ∙ length-readdressed at ip (ihl_of pkt) pkt

  first_byte : byte out 0 ≡ byte pkt 0
  first_byte = byte-out_low 0 (inl (omega arith)) (omega arith) (omega arith) (omega arith)

  proto_byte : byte out 9 ≡ byte pkt 9
  proto_byte = byte-out_low 9 (inl (omega arith)) (omega arith) (omega arith) (omega arith)

  out-IsIpv4 : IsIpv4 out
  out-IsIpv4 = record {
    version = rw first_byte v4.version;
    shortest = rw first_byte v4.shortest;
    whole = rw (first_byte, length-out) v4.whole;
  }

  port_byte : (i : ℕ) → i < 4 → byte out (ihl_of pkt + i) ≡ byte pkt (ihl_of pkt + i)
  port_byte i h =
      byte-out (ihl_of pkt + i) (inr (omega (arith, v4.shortest)))
        (λ e. absurd (omega (arith, e, v4.shortest))) (λ e. absurd (omega (arith, e, v4.shortest)))
        (omega arith) (omega arith)

  first_port_byte : byte out (ihl_of pkt) ≡ byte pkt (ihl_of pkt)
  first_port_byte =
      byte-out (ihl_of pkt) (inr (omega (arith, v4.shortest)))
        (λ e. absurd (omega (arith, e, v4.shortest))) (λ e. absurd (omega (arith, e, v4.shortest)))
        (omega arith) (omega arith)

  ports_out : ports_at out (byte out 9) (ihl_of out) ≡ ports_at pkt (byte pkt 9) (ihl_of pkt)
  ports_out =
      rw
        (
          first_byte,
          proto_byte,
          length-out,
          first_port_byte,
          port_byte 1 (omega arith),
          port_byte 2 (omega arith),
          port_byte 3 (omega arith),
        )
        refl

  new_address : ip_at out at ≡ ip
  new_address =
      let e =
        address_at-transport_fixed (ihl_of pkt) at src dst (readdressed at ip (ihl_of pkt) pkt) near
          v4.shortest
        ∙ address_at-readdressed at ip (ihl_of pkt) pkt far
            (omega (arith, v4.shortest, v4.whole)) in
      ground (arith, e)

  other_address :
      (i : ℕ) → (i + 4 ≤ at) ⊎ (at + 4 ≤ i) → 12 ≤ i → i ≤ 16 → ip_at out i ≡ ip_at pkt i
  other_address i side h k =
      rw
        (
          byte-out_low i (omega (arith, side)) (omega arith) (omega arith) (omega arith),
          byte-out_low (i + 1) (omega (arith, side)) (omega arith) (omega arith) (omega arith),
          byte-out_low (i + 2) (omega (arith, side)) (omega arith) (omega arith) (omega arith),
          byte-out_low (i + 3) (omega (arith, side)) (omega arith) (omega arith) (omega arith),
        )
        refl

  -- The flow of the rewritten packet, once its two addresses are known.
  flow_out :
      (s d : Ipv4Addr)
      → ip_at out 12 ≡ s
      → ip_at out 16 ≡ d
      → done (some (flow_v4 out))
        ≡ done (some (record (flow_v4 pkt) { src = dotted s; dst = dotted d }))
  flow_out s d es ed = rw (es, ed, ports_out, proto_byte) refl

module _ (pkt : List ℕ) (ip : Ipv4Addr) (v4 : IsIpv4 pkt) where
  -- A source rewrite of an IPv4 packet returns `true` and a packet that parses to the flow of the
  -- original with the new source address; destination, protocol and ports are the same.
  pub parse-rewrite_ipv4_source :
      (out : List ℕ) × (rewrite_ipv4_source pkt ip ≡ done (out, true))
      × (parse out ≡ done (some (record (flow_v4 pkt) { src = dotted ip })))
  parse-rewrite_ipv4_source =
      let q = readdressed 12 ip (ihl_of pkt) pkt in
      let h : 12 ≤ 12 = omega arith in
      let k : 12 ≤ 16 = omega arith in
      (
        source_rewritten pkt (ihl_of pkt) ip,
        rw (rewrite_ipv4_source-done, accepted_of_IsIpv4 pkt v4),
        parse-IsIpv4 _ (out-IsIpv4 pkt ip v4 12 h k (octets ip) (address_at q 16))
            ∙ flow_out pkt ip v4 12 h k (octets ip) (address_at q 16) ip (ip_at pkt 16)
                (new_address pkt ip v4 12 h k (octets ip) (address_at q 16))
                (other_address pkt ip v4 12 h k (octets ip) (address_at q 16) 16 (inr (omega arith))
                  (omega arith) (omega arith)),
      )

  -- A destination rewrite of an IPv4 packet, of version 4 with a header of 20 bytes or more that fits
  -- it, returns `true` and a packet that parses to the flow of the original with the new destination
  -- address; source, protocol and ports are the same.
  pub parse-rewrite_ipv4_dest :
      (out : List ℕ) × (rewrite_ipv4_dest pkt ip ≡ done (out, true))
      × (parse out ≡ done (some (record (flow_v4 pkt) { dst = dotted ip })))
  parse-rewrite_ipv4_dest =
      let q = readdressed 16 ip (ihl_of pkt) pkt in
      let h : 12 ≤ 16 = omega arith in
      let k : 16 ≤ 16 = omega arith in
      (
        dest_rewritten pkt (ihl_of pkt) ip,
        rw (rewrite_ipv4_dest-done, accepted_of_IsIpv4 pkt v4),
        parse-IsIpv4 _ (out-IsIpv4 pkt ip v4 16 h k (address_at q 12) (octets ip))
            ∙ flow_out pkt ip v4 16 h k (address_at q 12) (octets ip) (ip_at pkt 12) ip
                (other_address pkt ip v4 16 h k (address_at q 12) (octets ip) 12 (inl (omega arith))
                  (omega arith) (omega arith))
                (new_address pkt ip v4 16 h k (address_at q 12) (octets ip)),
      )
