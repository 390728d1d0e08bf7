-- ===== src/Tests/Packets.antt =====
-- Checksums, addresses, rewrites and parsing.
use netmux.Prelude.{
  Ensures, from_be_bytes, ℕ, ◌≡◌, refl, List, [], ◌∷◌, true, none, some, length, take, drop, done,
  index, ◌≢◌, arith, if◌then◌else◌,
}
use netmux.Text.{text, decimal}
use netmux.Ipv4.{octets, dotted, read_number, parse_ip}
use netmux.Checksum.{sum_words, checksum, transport_checksum, fold_carries}
use netmux.Rewrite.{rewrite_ipv4_source, rewrite_ipv4_dest}
use netmux.Rewrite.Closed.{byte, address_at}
use netmux.Rewrite.Verifies.{rewrite_ipv4_source-verifies, rewrite_ipv4_dest-verifies}
use netmux.Rewrite.Segment.{
  SegmentVerifies, rewrite_ipv4_source-SegmentVerifies, rewrite_ipv4_dest-SegmentVerifies,
}
use netmux.Packet.{read_ports, read_dotted, parse_v4, parse}
use netmux.Rewrite.Udp.{rewrite_ipv4_source-udp}
use netmux.Ip6.{ip6_words}
use netmux.Ip6.Collisions.{ip6_words_collide}
use netmux.Packet.Typed.{IsTypedOption, parse-IsTyped}
use netmux.Packet.V4.{flow_v4, header_there, parse-flow_v4}
use netmux.Packet.Rewritten.{parse-rewrite_ipv4_source, parse-rewrite_ipv4_dest}
use netmux.Tests.{packet, egress_ip, packet-IsBytes, packet-IsIpv4, egress_ip-IsOctets}

-- The header of a well-known example, whose checksum is 0xb861.
abbrev header : List ℕ
header =
    0x45 ∷ 0 ∷ 0 ∷ 0x73 ∷ 0 ∷ 0 ∷ 0x40 ∷ 0 ∷ 0x40 ∷ 0x11 ∷ 0 ∷ 0 ∷ 0xc0 ∷ 0xa8 ∷ 0 ∷ 1 ∷ 0xc0 ∷ 0xa8
    ∷ 0 ∷ 0xc7 ∷ []

checksum_vector : checksum header ≡ 0xb861
unfolding checksum sum_words fold_carries
checksum_vector = refl

parse_ip_leading_zero : parse_ip (text "10.0.0.02") ≡ none
unfolding parse_ip read_number
parse_ip_leading_zero = refl

rewrite_ipv4_source-verifies_example :
    (out : List ℕ) × (rewrite_ipv4_source packet egress_ip ≡ done (out, true))
    × (checksum (take 20 out) ≡ 0)
    × (address_at out 12 ≡ octets egress_ip)
    × (length out ≡ 40)
rewrite_ipv4_source-verifies_example =
    rewrite_ipv4_source-verifies packet egress_ip packet-IsBytes egress_ip-IsOctets packet-IsIpv4
      (omega arith)

rewrite_ipv4_dest-verifies_example :
    (out : List ℕ) × (rewrite_ipv4_dest packet egress_ip ≡ done (out, true))
    × (checksum (take 20 out) ≡ 0)
    × (address_at out 16 ≡ octets egress_ip)
    × (length out ≡ 40)
rewrite_ipv4_dest-verifies_example =
    rewrite_ipv4_dest-verifies packet egress_ip packet-IsBytes egress_ip-IsOctets packet-IsIpv4
      (omega arith)

rewrite_ipv4_source-SegmentVerifies_example :
    (out : List ℕ) × (rewrite_ipv4_source packet egress_ip ≡ done (out, true))
    × SegmentVerifies 20 out
rewrite_ipv4_source-SegmentVerifies_example =
    rewrite_ipv4_source-SegmentVerifies packet egress_ip packet-IsBytes egress_ip-IsOctets
      packet-IsIpv4 (omega arith) refl (omega arith)

rewrite_ipv4_dest-SegmentVerifies_example :
    (out : List ℕ) × (rewrite_ipv4_dest packet egress_ip ≡ done (out, true))
    × SegmentVerifies 20 out
rewrite_ipv4_dest-SegmentVerifies_example =
    rewrite_ipv4_dest-SegmentVerifies packet egress_ip packet-IsBytes egress_ip-IsOctets
      packet-IsIpv4 (omega arith) refl (omega arith)

parse-flow_v4_example :
    parse packet ≡ done (if header_there packet then some (flow_v4 packet) else none)
parse-flow_v4_example = parse-flow_v4 packet refl

parse-rewrite_ipv4_source_example :
    (out : List ℕ) × (rewrite_ipv4_source packet egress_ip ≡ done (out, true))
    × (parse out ≡ done (some (record (flow_v4 packet) { src = dotted egress_ip })))
parse-rewrite_ipv4_source_example = parse-rewrite_ipv4_source packet egress_ip packet-IsIpv4

parse-rewrite_ipv4_dest_example :
    (out : List ℕ) × (rewrite_ipv4_dest packet egress_ip ≡ done (out, true))
    × (parse out ≡ done (some (record (flow_v4 packet) { dst = dotted egress_ip })))
parse-rewrite_ipv4_dest_example = parse-rewrite_ipv4_dest packet egress_ip packet-IsIpv4

parse_packet :
    parse packet
    ≡ done (
        some (record {
          src = text "10.0.0.2";
          dst = text "8.8.8.8";
          proto = 6;
          sport = 1000;
          dport = 443;
        }))
unfolding parse parse_v4 read_dotted read_ports index dotted decimal
parse_packet = refl

-- A UDP datagram with ten bytes of payload.
abbrev datagram : List ℕ
datagram =
    0x45 ∷ 0 ∷ 0 ∷ 38 ∷ 0 ∷ 0 ∷ 0 ∷ 0 ∷ 64 ∷ 17 ∷ 0 ∷ 0 ∷ 10 ∷ 0 ∷ 0 ∷ 2 ∷ 8 ∷ 8 ∷ 8 ∷ 8 ∷ 3 ∷ 232
    ∷ 0 ∷ 53 ∷ 0 ∷ 18 ∷ 1 ∷ 2 ∷ 11 ∷ 12 ∷ 13 ∷ 14 ∷ 15 ∷ 16 ∷ 17 ∷ 18 ∷ 19 ∷ 20 ∷ []

rewrite_ipv4_source-udp_example :
    (out : List ℕ) × (rewrite_ipv4_source datagram egress_ip ≡ done (out, true))
    × (byte out 26 ≡ 1)
    × (byte out 27 ≡ 2)
    × (from_be_bytes (byte out 36) (byte out 37)
        ≡ transport_checksum (octets egress_ip) (address_at datagram 16) 17 (drop 20 datagram))
rewrite_ipv4_source-udp_example =
    rewrite_ipv4_source-udp datagram egress_ip
      (record { version = refl; shortest = omega arith; whole = omega arith }) refl (omega arith)

-- The words of 2001:db8::1 and of 2001::db8:1.
abbrev late_run : List ℕ
late_run = 0x2001 ∷ 0xdb8 ∷ 0 ∷ 0 ∷ 0 ∷ 0 ∷ 0 ∷ 1 ∷ []

abbrev early_run : List ℕ
early_run = 0x2001 ∷ 0 ∷ 0 ∷ 0 ∷ 0 ∷ 0 ∷ 0xdb8 ∷ 1 ∷ []

ip6_words_collide_example : (late_run ≢ early_run) × (ip6_words late_run ≡ ip6_words early_run)
ip6_words_collide_example =
    ip6_words_collide 0x2001 0xdb8 1 (omega arith) (omega arith) (omega arith)

parse-IsTyped_example : Ensures IsTypedOption (parse packet)
parse-IsTyped_example = parse-IsTyped packet packet-IsBytes
