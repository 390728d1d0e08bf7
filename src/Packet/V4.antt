-- ===== src/Packet/V4.antt =====
-- What `parse` returns on IPv4 packets, and on packets that were rewritten.
use netmux.Prelude.{
  ℕ, ◌+◌, ◌≤◌, ◌≡◌, refl, List, [], ◌∷◌, Bool, true, ◌&&◌, leb, if◌then◌else◌, none, some, length,
  shr, done, arith, index-get_or, le→ltb, Bool-cases, inl, inr, from_be_bytes, IsBytes, All-get_or,
  IsByte,
}
use netmux.Ipv4.{Ipv4Addr, IsOctets, dotted, parse_ip}
use netmux.Ipv4.RoundTrip.{parse_ip-dotted}
use netmux.Rewrite.{has_ports, header_length}
use netmux.Rewrite.Closed.{byte, IsIpv4}
use netmux.Packet.{Flow, read_ports, read_dotted, parse_v4, parse}

-- The address whose octets stand at an index.
abbrev pub ip_at : List ℕ → ℕ → Ipv4Addr
ip_at pkt i = record {
  a = byte pkt i;
  b = byte pkt (i + 1);
  c = byte pkt (i + 2);
  d = byte pkt (i + 3);
}

abbrev pub ports_at : List ℕ → ℕ → ℕ → ℕ × ℕ
ports_at pkt proto offset =
    if has_ports proto && leb (offset + 4) (length pkt)
    then (
      from_be_bytes (byte pkt offset) (byte pkt (offset + 1)),
      from_be_bytes (byte pkt (offset + 2)) (byte pkt (offset + 3)),
    )
    else (0, 0)

-- The flow that an IPv4 packet belongs to.
abbrev pub flow_v4 : List ℕ → Flow
flow_v4 pkt = record {
  src = dotted (ip_at pkt 12);
  dst = dotted (ip_at pkt 16);
  proto = byte pkt 9;
  sport = (ports_at pkt (byte pkt 9) (header_length (byte pkt 0))).0;
  dport = (ports_at pkt (byte pkt 9) (header_length (byte pkt 0))).1;
}

read_ports_lem :
    (pkt : List ℕ) (proto offset : ℕ)
    → read_ports pkt proto offset ≡ done (ports_at pkt proto offset)
unfolding read_ports
read_ports_lem pkt proto offset =
    elim (Bool-cases (has_ports proto && leb (offset + 4) (length pkt))) [
      | inl e ↦
          rw
            (
              e,
              index-get_or pkt offset 0 (ground arith),
              index-get_or pkt (offset + 1) 0 (ground arith),
              index-get_or pkt (offset + 2) 0 (ground arith),
              index-get_or pkt (offset + 3) 0 (ground arith),
            )
            refl
      | inr e ↦ rw e refl
    ]

read_dotted_lem :
    (pkt : List ℕ) (i : ℕ) → i + 4 ≤ length pkt → read_dotted pkt i ≡ done (dotted (ip_at pkt i))
unfolding read_dotted
read_dotted_lem pkt i h =
    rw
      (
        index-get_or pkt i 0 (omega arith),
        index-get_or pkt (i + 1) 0 (omega arith),
        index-get_or pkt (i + 2) 0 (omega arith),
        index-get_or pkt (i + 3) 0 (omega arith),
      )
      refl

-- The header is not shorter than 20 bytes and there in full.
abbrev pub header_there : List ℕ → Bool
header_there pkt =
    leb 20 (header_length (byte pkt 0)) && leb (header_length (byte pkt 0)) (length pkt)

parse_v4_lem :
    (pkt : List ℕ) → parse_v4 pkt ≡ done (if header_there pkt then some (flow_v4 pkt) else none)
unfolding parse_v4
parse_v4_lem pkt = elim (Bool-cases (header_there pkt)) [
  | inl e ↦
      rw
        (
          e,
          le→ltb (length pkt) 20 (ground arith),
          index-get_or pkt 0 0 (ground arith),
          le→ltb (header_length (byte pkt 0)) 20 (ground arith),
          le→ltb (length pkt) (header_length (byte pkt 0)) (ground arith),
          index-get_or pkt 9 0 (ground arith),
          read_dotted_lem pkt 12 (ground arith),
          read_dotted_lem pkt 16 (ground arith),
          read_ports_lem pkt (byte pkt 9) (header_length (byte pkt 0)),
        )
        refl
  | inr e ↦ ground (arith, index-get_or pkt 0 0)
]

-- On a packet of version 4, `parse` returns the flow of its addresses, protocol and ports if the
-- header length is at least 20 and within the packet, and nothing otherwise.
pub parse-flow_v4 :
    (pkt : List ℕ)
    → shr (byte pkt 0) 4 ≡ 4
    → parse pkt ≡ done (if header_there pkt then some (flow_v4 pkt) else none)
unfolding parse
parse-flow_v4 [] v = absurd (omega arith)
parse-flow_v4 (b ∷ rest) v = rw v (parse_v4_lem (b ∷ rest))

pub parse-IsIpv4 : (pkt : List ℕ) → IsIpv4 pkt → parse pkt ≡ done (some (flow_v4 pkt))
parse-IsIpv4 pkt h =
    let e : header_there pkt ≡ true = ground arith in rw e at (parse-flow_v4 pkt h.version)

pub ip_at-IsOctets : (pkt : List ℕ) (i : ℕ) → IsBytes pkt → IsOctets (ip_at pkt i)
ip_at-IsOctets pkt i b =
    let get = λ (j : ℕ). All-get_or IsByte pkt j 0 (omega arith) b in
    (get i, get (i + 1), get (i + 2), get (i + 3))

-- The texts of the two addresses in the IPv4 flow of a list of bytes parse back to the addresses
-- that stand at bytes 12 and 16.
pub parse_ip-flow_v4 :
    (pkt : List ℕ)
    → IsBytes pkt
    → (parse_ip (flow_v4 pkt).src ≡ some (ip_at pkt 12))
      × (parse_ip (flow_v4 pkt).dst ≡ some (ip_at pkt 16))
parse_ip-flow_v4 pkt b = (
  parse_ip-dotted (ip_at pkt 12) (ip_at-IsOctets pkt 12 b),
  parse_ip-dotted (ip_at pkt 16) (ip_at-IsOctets pkt 16 b),
)
