-- ===== src/Packet.antt =====
-- `Flow`, `Flow::key`, `parse`, `parse_v4` and `parse_v6` of crates/netmux-core/src/packet.rs.
pub mod Total
pub mod Typed
pub mod V4
pub mod Rewritten
use netmux.Prelude.{
  ℕ, zero, suc, ◌+◌, ◌*◌, List, [], ◌∷◌, ◌++◌, Bool, true, false, ◌&&◌, ◌||◌, ltb, leb, ◌==◌,
  if◌then◌else◌, Option, none, some, length, shr, from_be_bytes, Run, done, ◌>>=◌, index, slice,
}
use netmux.Text.{Text, text, decimal}
use netmux.Ipv4.{Ipv4Addr, dotted}
use netmux.Ip6.{ip6}
use netmux.Rewrite.{header_length, has_ports, read_address}

pub record Flow : Type 0 where
  pub src : Text
  pub dst : Text
  pub proto : ℕ
  pub sport : ℕ
  pub dport : ℕ

-- `format!("{}:{}->{}:{}", ..)`
unfoldable pub key : Flow → Text
key f =
    f.src
    ++ (text ":" ++ (decimal f.sport ++ (text "->" ++ (f.dst ++ (text ":" ++ decimal f.dport)))))

-- The ports at `offset`, where the protocol has ports and the packet holds them; else zeros.
unfoldable pub read_ports : List ℕ → ℕ → ℕ → Run (ℕ × ℕ)
read_ports pkt proto offset =
    if has_ports proto && leb (offset + 4) (length pkt)
    then (do
      a ← index pkt offset
      b ← index pkt (offset + 1)
      c ← index pkt (offset + 2)
      d ← index pkt (offset + 3)
      done (from_be_bytes a b, from_be_bytes c d))
    else done (0, 0)

-- The four octets at `i` in dotted form.
unfoldable pub read_dotted : List ℕ → ℕ → Run Text
read_dotted pkt i = do
  a ← index pkt i
  b ← index pkt (i + 1)
  c ← index pkt (i + 2)
  d ← index pkt (i + 3)
  done (dotted (record { a = a; b = b; c = c; d = d }))

unfoldable pub parse_v4 : List ℕ → Run (Option Flow)
parse_v4 pkt = if ltb (length pkt) 20 then done none else do
  b0 ← index pkt 0
  let ihl = header_length b0
  if ltb ihl 20 || ltb (length pkt) ihl then done none else do
    proto ← index pkt 9
    src ← read_dotted pkt 12
    dst ← read_dotted pkt 16
    (sport, dport) ← read_ports pkt proto ihl
    done (some (record { src = src; dst = dst; proto = proto; sport = sport; dport = dport }))

-- Hop-by-hop, routing, destination options, mobility.
abbrev pub is_extension : ℕ → Bool
is_extension h = h == 0 || (h == 43 || (h == 60 || h == 135))

-- The walk over at most `rounds` extension headers: the last header's type and offset, or `none`
-- where the packet ends inside a header.
unfoldable pub walk_extensions : ℕ → List ℕ → ℕ → ℕ → Run (Option (ℕ × ℕ))
walk_extensions zero pkt next_header offset = done (some (next_header, offset))
walk_extensions (suc rounds) pkt next_header offset =
    if has_ports next_header
    then done (some (next_header, offset))
    else if is_extension next_header
    then (if ltb (length pkt) (offset + 2) then done none else do
      len ← index pkt (offset + 1)
      next ← index pkt offset
      walk_extensions rounds pkt next (offset + (len + 1) * 8))
    else done (some (next_header, offset))

unfoldable pub v6_flow : List ℕ → Text → Text → Option (ℕ × ℕ) → Run (Option Flow)
v6_flow pkt src dst none = done none
v6_flow pkt src dst (some (next_header, offset)) = do
  (sport, dport) ← read_ports pkt next_header offset
  done (some (record { src = src; dst = dst; proto = next_header; sport = sport; dport = dport }))

unfoldable pub parse_v6 : List ℕ → Run (Option Flow)
parse_v6 pkt = if ltb (length pkt) 40 then done none else do
  src ← slice pkt 8 24
  dst ← slice pkt 24 40
  next_header ← index pkt 6
  last ← walk_extensions 8 pkt next_header 40
  v6_flow pkt (ip6 src) (ip6 dst) last

unfoldable pub parse : List ℕ → Run (Option Flow)
parse [] = done none
parse (b ∷ rest) =
    if shr b 4 == 4
    then parse_v4 (b ∷ rest)
    else if shr b 4 == 6
    then parse_v6 (b ∷ rest)
    else done none
