-- ===== src/Rewrite/Segment.antt =====
-- The transport checksum of a packet after a rewrite.
use netmux.Prelude.{
  ℕ, suc, ◌+◌, ◌/◌, ◌%◌, ◌≤◌, ◌^◌, ◌≡◌, inl, refl, ◌∙◌, ap, List, ◌++◌, true, ◌&&◌, leb, length,
  arith, set, drop, length-drop, IsByte, IsBytes, All-drop, All-get_or, done, drop-set,
}
use netmux.Checksum.{checksum, transport_checksum, pseudo_header}
use netmux.Checksum.Verify.{put_word}
use netmux.Checksum.Transport.{transport_verifies}
use netmux.Ipv4.{Ipv4Addr, IsOctets}
use netmux.Rewrite.{has_ports, rewrite_ipv4_source, rewrite_ipv4_dest}
use netmux.Rewrite.Closed.{
  byte, address_at, transport_fixed, readdressed, source_rewritten, dest_rewritten, IsIpv4,
  length-readdressed, rewrite_ipv4_source-done, rewrite_ipv4_dest-done,
}
use netmux.Rewrite.Frame.{byte-transport_fixed}
use netmux.Rewrite.Verifies.{
  accepted_of_IsIpv4, readdressed-IsBytes, byte-readdressed, address_at-transport_fixed,
  address_at-readdressed, ihl_of,
}

drop-put_word : (n c : ℕ) (q : List ℕ) → drop n (put_word (n + 16) c q) ≡ put_word 16 c (drop n q)
drop-put_word n c q =
    drop-set n _ 17 (suc (n + 16)) (c % 256) (omega arith)
    ∙ ap (λ (r : List ℕ). set r 17 (c % 256)) (drop-set n q 16 (n + 16) (c / 256) refl)

-- The segment of `out` verifies behind the pseudo-header of its addresses and protocol.
abbrev pub SegmentVerifies : ℕ → List ℕ → Type 0
SegmentVerifies n out =
    checksum (
      pseudo_header (address_at out 12) (address_at out 16) (byte out 9) (drop n out) ++ drop n out)
    ≡ 0

segment_verifies :
    (n : ℕ) (q : List ℕ)
    → 20 ≤ n
    → IsBytes q
    → length q ≤ 2 ^ 16
    → has_ports (byte q 9) ≡ true
    → n + 18 ≤ length q
    → SegmentVerifies n (transport_fixed n (address_at q 12) (address_at q 16) q)
segment_verifies n q h b fits ports long =
    let src = address_at q 12 in
    let dst = address_at q 16 in
    let c = transport_checksum src dst (byte q 9) (drop n q) in
    let g : (has_ports (byte q 9) && leb (n + 18) (length q)) ≡ true = ground arith in
    let byte_ok = λ (j : ℕ). All-get_or IsByte q j 0 (omega arith) b in
    rw
      (
        address_at-transport_fixed n 12 src dst q (omega arith) h,
        address_at-transport_fixed n 16 src dst q (omega arith) h,
        byte-transport_fixed n 9 src dst q (λ e. absurd (omega (arith, e)))
            (λ e. absurd (omega (arith, e))),
      )
      (rw g (
        transport_verifies (byte q 12) (byte q 13) (byte q 14) (byte q 15) (byte q 16) (byte q 17)
          (byte q 18) (byte q 19) (byte q 9) (drop n q) (drop n (put_word (n + 16) c q))
          (drop-put_word n c q) (byte_ok 12, (byte_ok 13, (byte_ok 14, (byte_ok 15, tt))))
          (byte_ok 16, (byte_ok 17, (byte_ok 18, (byte_ok 19, tt)))) (byte_ok 9)
          (All-drop IsByte n q b) (omega (arith, length-drop n q))
          (omega (arith, length-drop n q))))

module _ (pkt : List ℕ) (ip : Ipv4Addr) (bytes : IsBytes pkt) (ok : IsOctets ip) (v4 : IsIpv4 pkt)
    (fits : length pkt ≤ 2 ^ 16) (ports : has_ports (byte pkt 9) ≡ true)
    (long : ihl_of pkt + 18 ≤ length pkt) where
  readdressed_verifies :
      (at : ℕ)
      → 12 ≤ at
      → let q = readdressed at ip (ihl_of pkt) pkt in
        SegmentVerifies
          (ihl_of pkt)
          (transport_fixed (ihl_of pkt) (address_at q 12) (address_at q 16) q)
  readdressed_verifies at h =
      let n = length-readdressed at ip (ihl_of pkt) pkt in
      let e =
        byte-readdressed at ip (ihl_of pkt) 9 pkt (inl (omega arith)) (omega arith) (omega arith) in
      segment_verifies (ihl_of pkt) (readdressed at ip (ihl_of pkt) pkt) v4.shortest
        (readdressed-IsBytes at ip (ihl_of pkt) pkt bytes ok) (omega (arith, n)) (rw e ports)
        (omega (arith, n))

  -- A source rewrite, to an address of octets, of an IPv4 packet of at most 64 KiB of bytes with TCP or UDP as its protocol and
  -- 18 or more bytes of segment returns `true` and a packet whose segment sums to 0xffff with the
  -- pseudo-header of its new addresses.
  pub rewrite_ipv4_source-SegmentVerifies :
      (out : List ℕ) × (rewrite_ipv4_source pkt ip ≡ done (out, true))
      × SegmentVerifies (ihl_of pkt) out
  rewrite_ipv4_source-SegmentVerifies = (
    source_rewritten pkt (ihl_of pkt) ip,
    rw (rewrite_ipv4_source-done, accepted_of_IsIpv4 pkt v4),
    rw (address_at-readdressed 12 ip (ihl_of pkt) pkt (omega arith) (omega (arith, long))) at
        (readdressed_verifies 12 (omega arith)),
  )

  -- A destination rewrite, to an address of octets, of an IPv4 packet of at most 64 KiB of bytes with TCP or UDP as its protocol
  -- and 18 or more bytes of segment returns `true` and a packet whose segment sums to 0xffff with
  -- the pseudo-header of its new addresses.
  pub rewrite_ipv4_dest-SegmentVerifies :
      (out : List ℕ) × (rewrite_ipv4_dest pkt ip ≡ done (out, true))
      × SegmentVerifies (ihl_of pkt) out
  rewrite_ipv4_dest-SegmentVerifies = (
    dest_rewritten pkt (ihl_of pkt) ip,
    rw (rewrite_ipv4_dest-done, accepted_of_IsIpv4 pkt v4),
    rw (address_at-readdressed 16 ip (ihl_of pkt) pkt (omega arith) (omega (arith, long))) at
        (readdressed_verifies 16 (omega arith)),
  )
