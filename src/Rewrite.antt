-- ===== src/Rewrite.antt =====
-- `rewrite_ipv4_source` and `rewrite_ipv4_dest` of crates/netmux-core/src/packet.rs: a packet in
-- place, and whether it was rewritten. Indexing and slicing panic out of range.
pub mod Closed
pub mod Frame
pub mod Verifies
pub mod Segment
pub mod Udp
use netmux.Prelude.{
  ℕ, ◌+◌, ◌*◌, List, [], ◌∷◌, Bool, true, false, not, ◌&&◌, ◌||◌, ltb, leb, ◌==◌, if◌then◌else◌,
  length, shr, low_bits, to_be_bytes, Run, done, ◌>>=◌, index, slice_to, slice_from, copy_at, store,
}
use netmux.Checksum.{checksum, transport_checksum}
use netmux.Ipv4.{Ipv4Addr, octets}

-- `((pkt[0] & 0x0f) as usize) * 4`
abbrev pub header_length : ℕ → ℕ
header_length b0 = low_bits b0 4 * 4

-- `matches!(proto, 6 | 17)`: TCP or UDP.
abbrev pub has_ports : ℕ → Bool
has_ports proto = proto == 6 || proto == 17

-- The IP checksum recomputed over the header with the field at 10 zeroed.
unfoldable pub fix_header : ℕ → List ℕ → Run (List ℕ)
fix_header ihl pkt = do
  pkt ← store 10 0 pkt
  pkt ← store 11 0 pkt
  header ← slice_to pkt ihl
  copy_at 10 (to_be_bytes (checksum header)) pkt

-- The transport checksum recomputed and stored at byte 16 of the segment.
unfoldable pub fix_transport : ℕ → ℕ → List ℕ → List ℕ → List ℕ → Run (List ℕ)
fix_transport ihl proto src dst pkt = do
  l4 ← slice_from pkt ihl
  copy_at (ihl + 16) (to_be_bytes (transport_checksum src dst proto l4)) pkt

-- Four bytes of the packet from index `i` on.
unfoldable pub read_address : List ℕ → ℕ → Run (List ℕ)
read_address pkt i = do
  a ← index pkt i
  b ← index pkt (i + 1)
  c ← index pkt (i + 2)
  d ← index pkt (i + 3)
  done (a ∷ b ∷ c ∷ d ∷ [])

-- The body behind the guards of the source rewrite.
unfoldable pub source_body : List ℕ → ℕ → Ipv4Addr → Run (List ℕ × Bool)
source_body pkt ihl new_src = do
  pkt ← copy_at 12 (octets new_src) pkt
  pkt ← fix_header ihl pkt
  proto ← index pkt 9
  if has_ports proto && leb (ihl + 18) (length pkt)
      then (do
        dst ← read_address pkt 16
        pkt ← fix_transport ihl proto (octets new_src) dst pkt
        done (pkt, true))
      else done (pkt, true)

unfoldable pub dest_body : List ℕ → ℕ → Ipv4Addr → Run (List ℕ × Bool)
dest_body pkt ihl new_dst = do
  pkt ← copy_at 16 (octets new_dst) pkt
  pkt ← fix_header ihl pkt
  proto ← index pkt 9
  if has_ports proto && leb (ihl + 18) (length pkt)
      then (do
        src ← read_address pkt 12
        pkt ← fix_transport ihl proto src (octets new_dst) pkt
        done (pkt, true))
      else done (pkt, true)

-- The guards: at least 20 bytes, version 4, the whole header there.
unfoldable pub guarded : List ℕ → (ℕ → Run (List ℕ × Bool)) → Run (List ℕ × Bool)
guarded pkt body = if ltb (length pkt) 20 then done (pkt, false) else do
  b0 ← index pkt 0
  if not (shr b0 4 == 4)
      then done (pkt, false)
      else if ltb (length pkt) (header_length b0)
      then done (pkt, false)
      else body (header_length b0)

unfoldable pub rewrite_ipv4_source : List ℕ → Ipv4Addr → Run (List ℕ × Bool)
unfolding source_body guarded
rewrite_ipv4_source pkt new_src = guarded pkt (λ ihl. source_body pkt ihl new_src)

unfoldable pub rewrite_ipv4_dest : List ℕ → Ipv4Addr → Run (List ℕ × Bool)
unfolding dest_body guarded
rewrite_ipv4_dest pkt new_dst = guarded pkt (λ ihl. dest_body pkt ihl new_dst)
