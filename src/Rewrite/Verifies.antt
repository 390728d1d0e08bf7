-- ===== src/Rewrite/Verifies.antt =====
-- The packets that the rewrites leave carry the new address and a header checksum that verifies.
use netmux.Prelude.{
  ℕ, ◌+◌, ◌≤◌, ◌<◌, ◌^◌, ◌≡◌, ◌≢◌, ◌⊎◌, inl, inr, ◌∙◌, List, true, length, arith, set, take,
  overwrite, length-overwrite, IsByte, IsBytes, All-set, done,
}
use netmux.Checksum.{checksum}
use netmux.Checksum.Verify.{put_word-IsBytes, checksum-lt}
use netmux.Ipv4.{Ipv4Addr, octets, IsOctets}
use netmux.Rewrite.{header_length, rewrite_ipv4_source, rewrite_ipv4_dest}
use netmux.Rewrite.Closed.{
  byte, address_at, blank, header_fixed, transport_fixed, readdressed, source_rewritten,
  dest_rewritten, accepted, IsIpv4, length-readdressed, rewrite_ipv4_source-done,
  rewrite_ipv4_dest-done,
}
use netmux.Rewrite.Frame.{
  checksum-header_fixed, take-transport_fixed, overwrite-IsBytes, byte-overwrite_outside,
  byte-overwrite_above, byte-header_fixed, byte-transport_fixed, address_at-overwrite,
  length-transport_fixed,
}

pub accepted_of_IsIpv4 : (pkt : List ℕ) → IsIpv4 pkt → accepted pkt ≡ true
accepted_of_IsIpv4 pkt h = ground arith

octets-IsBytes : (ip : Ipv4Addr) → IsOctets ip → IsBytes (octets ip)
octets-IsBytes ip h = (h.0, (h.1, (h.2, (h.3, tt))))

header_fixed-IsBytes : (ihl : ℕ) (p : List ℕ) → IsBytes p → IsBytes (header_fixed ihl p)
header_fixed-IsBytes ihl p b =
    put_word-IsBytes 10 (checksum (take ihl (blank p))) (blank p) (checksum-lt _)
      (All-set IsByte (set p 10 0) 11 0 (omega arith) (All-set IsByte p 10 0 (omega arith) b))

pub readdressed-IsBytes :
    (at : ℕ) (ip : Ipv4Addr) (ihl : ℕ) (pkt : List ℕ)
    → IsBytes pkt
    → IsOctets ip
    → IsBytes (readdressed at ip ihl pkt)
readdressed-IsBytes at ip ihl pkt b o =
    header_fixed-IsBytes ihl (overwrite at (octets ip) pkt)
      (overwrite-IsBytes at (octets ip) pkt (octets-IsBytes ip o) b)

pub byte-readdressed :
    (at : ℕ) (ip : Ipv4Addr) (ihl j : ℕ) (pkt : List ℕ)
    → (j < at) ⊎ (at + 4 ≤ j)
    → j ≢ 10
    → j ≢ 11
    → byte (readdressed at ip ihl pkt) j ≡ byte pkt j
byte-readdressed at ip ihl j pkt (inl h) n m =
    byte-header_fixed ihl j _ n m ∙ byte-overwrite_outside at j (octets ip) pkt h
byte-readdressed at ip ihl j pkt (inr h) n m =
    byte-header_fixed ihl j _ n m ∙ byte-overwrite_above at j (octets ip) pkt h

-- Four bytes that a change leaves alone.
address_at-eq :
    (p q : List ℕ) (i : ℕ)
    → byte p i ≡ byte q i
    → byte p (i + 1) ≡ byte q (i + 1)
    → byte p (i + 2) ≡ byte q (i + 2)
    → byte p (i + 3) ≡ byte q (i + 3)
    → address_at p i ≡ address_at q i
address_at-eq p q i a b c d = cc

address_at-header_fixed :
    (ihl i : ℕ) (p : List ℕ) → 12 ≤ i → address_at (header_fixed ihl p) i ≡ address_at p i
address_at-header_fixed ihl i p h =
    address_at-eq _ _ i
      (byte-header_fixed ihl i p (λ e. absurd (omega (arith, e))) (λ e. absurd (omega (arith, e))))
      (byte-header_fixed ihl (i + 1) p (λ e. absurd (omega (arith, e)))
        (λ e. absurd (omega (arith, e))))
      (byte-header_fixed ihl (i + 2) p (λ e. absurd (omega (arith, e)))
        (λ e. absurd (omega (arith, e))))
      (byte-header_fixed ihl (i + 3) p (λ e. absurd (omega (arith, e)))
        (λ e. absurd (omega (arith, e))))

pub address_at-transport_fixed :
    (ihl i : ℕ) (src dst p : List ℕ)
    → i ≤ 16
    → 20 ≤ ihl
    → address_at (transport_fixed ihl src dst p) i ≡ address_at p i
address_at-transport_fixed ihl i src dst p h k =
    address_at-eq _ _ i
      (byte-transport_fixed ihl i src dst p (λ e. absurd (omega (arith, e)))
        (λ e. absurd (omega (arith, e))))
      (byte-transport_fixed ihl (i + 1) src dst p (λ e. absurd (omega (arith, e)))
        (λ e. absurd (omega (arith, e))))
      (byte-transport_fixed ihl (i + 2) src dst p (λ e. absurd (omega (arith, e)))
        (λ e. absurd (omega (arith, e))))
      (byte-transport_fixed ihl (i + 3) src dst p (λ e. absurd (omega (arith, e)))
        (λ e. absurd (omega (arith, e))))

pub address_at-readdressed :
    (at : ℕ) (ip : Ipv4Addr) (ihl : ℕ) (pkt : List ℕ)
    → 12 ≤ at
    → at + 4 ≤ length pkt
    → address_at (readdressed at ip ihl pkt) at ≡ octets ip
address_at-readdressed at ip ihl pkt h k =
    address_at-header_fixed ihl at _ h ∙ address_at-overwrite at ip pkt k

abbrev pub ihl_of : List ℕ → ℕ
ihl_of pkt = header_length (byte pkt 0)

module _ (pkt : List ℕ) (ip : Ipv4Addr) (bytes : IsBytes pkt) (ok : IsOctets ip) (v4 : IsIpv4 pkt)
    (fits : length pkt ≤ 2 ^ 16) where
  header_verifies :
      (at : ℕ) (src dst : List ℕ)
      → checksum (
          take
            (ihl_of pkt)
            (transport_fixed (ihl_of pkt) src dst (readdressed at ip (ihl_of pkt) pkt)))
        ≡ 0
  header_verifies at src dst =
      let w = overwrite at (octets ip) pkt in
      let n = length-overwrite at (octets ip) pkt in
      rw (take-transport_fixed (ihl_of pkt) src dst (header_fixed (ihl_of pkt) w)) (
        checksum-header_fixed (ihl_of pkt) w
          (overwrite-IsBytes at (octets ip) pkt (octets-IsBytes ip ok) bytes) v4.shortest
          (omega (arith, n, v4.whole)) (omega (arith, n)))

  length-rewritten :
      (at : ℕ) (src dst : List ℕ)
      → length (transport_fixed (ihl_of pkt) src dst (readdressed at ip (ihl_of pkt) pkt))
        ≡ length pkt
  length-rewritten at src dst =
      length-transport_fixed (ihl_of pkt) src dst (readdressed at ip (ihl_of pkt) pkt)
      ∙ length-readdressed at ip (ihl_of pkt) pkt

  address_at-rewritten :
      (at : ℕ) (src dst : List ℕ)
      → 12 ≤ at
      → at ≤ 16
      → address_at (transport_fixed (ihl_of pkt) src dst (readdressed at ip (ihl_of pkt) pkt)) at
        ≡ octets ip
  address_at-rewritten at src dst h k =
      address_at-transport_fixed (ihl_of pkt) at src dst _ k v4.shortest
      ∙ address_at-readdressed at ip (ihl_of pkt) pkt h (omega (arith, v4.shortest, v4.whole))

  -- A source rewrite, to an address of octets, of an IPv4 packet of at most 64 KiB of bytes returns
  -- `true` and a packet of the same length whose source address is the new one and whose header
  -- checksum verifies.
  pub rewrite_ipv4_source-verifies :
      (out : List ℕ) × (rewrite_ipv4_source pkt ip ≡ done (out, true))
      × (checksum (take (ihl_of pkt) out) ≡ 0)
      × (address_at out 12 ≡ octets ip)
      × (length out ≡ length pkt)
  rewrite_ipv4_source-verifies = (
    source_rewritten pkt (ihl_of pkt) ip,
    rw (rewrite_ipv4_source-done, accepted_of_IsIpv4 pkt v4),
    header_verifies 12 _ _,
    address_at-rewritten 12 _ _ (omega arith) (omega arith),
    length-rewritten 12 _ _,
  )

  -- A destination rewrite, to an address of octets, of an IPv4 packet of at most 64 KiB of bytes
  -- returns `true` and a packet of the same length whose destination address is the new one and
  -- whose header checksum verifies.
  pub rewrite_ipv4_dest-verifies :
      (out : List ℕ) × (rewrite_ipv4_dest pkt ip ≡ done (out, true))
      × (checksum (take (ihl_of pkt) out) ≡ 0)
      × (address_at out 16 ≡ octets ip)
      × (length out ≡ length pkt)
  rewrite_ipv4_dest-verifies = (
    dest_rewritten pkt (ihl_of pkt) ip,
    rw (rewrite_ipv4_dest-done, accepted_of_IsIpv4 pkt v4),
    header_verifies 16 _ _,
    address_at-rewritten 16 _ _ (omega arith) (omega arith),
    length-rewritten 16 _ _,
  )
