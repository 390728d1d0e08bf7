-- ===== src/Rewrite/Udp.antt =====
-- What the rewrites do to a UDP datagram, whose checksum field is at bytes 6 and 7 of the segment.
use netmux.Prelude.{
  ℕ, zero, suc, ◌+◌, ◌≤◌, ◌<◌, ◌≡◌, refl, ap, ◌∙◌, List, true, leb, length, set, drop, overwrite,
  done, arith, inl, inr, from_be_bytes, get_or-set_self, get_or-set_ne, length-set, [], ◌∷◌, ◌/◌,
  ◌%◌, le→leb,
}
use netmux.Ipv4.{Ipv4Addr, octets}
use netmux.Checksum.{transport_checksum}
use netmux.Checksum.Verify.{put_word}
use netmux.Rewrite.{rewrite_ipv4_source}
use netmux.Rewrite.Closed.{
  byte, address_at, IsIpv4, readdressed, source_rewritten, rewrite_ipv4_source-done,
  length-readdressed,
}
use netmux.Rewrite.Frame.{byte-put_word}
use netmux.Rewrite.Verifies.{ihl_of, byte-readdressed, accepted_of_IsIpv4}

-- A write in front of where a list is cut.
drop-set_below : (n i : ℕ) (xs : List ℕ) (v : ℕ) → i < n → drop n (set xs i v) ≡ drop n xs
drop-set_below zero i xs v h = absurd (omega arith)
drop-set_below (suc n) i [] v h = refl
drop-set_below (suc n) zero (x ∷ xs) v h = refl
drop-set_below (suc n) (suc i) (x ∷ xs) v h = drop-set_below n i xs v (omega arith)

drop-overwrite_below :
    (n i : ℕ) (src xs : List ℕ) → i + length src ≤ n → drop n (overwrite i src xs) ≡ drop n xs
drop-overwrite_below n i [] xs h = refl
drop-overwrite_below n i (v ∷ src) xs h =
    drop-overwrite_below n (suc i) src (set xs i v) (omega arith)
    ∙ drop-set_below n i xs v (omega arith)

drop-readdressed :
    (n : ℕ) (ip : Ipv4Addr) (ihl : ℕ) (pkt : List ℕ)
    → 20 ≤ n
    → drop n (readdressed 12 ip ihl pkt) ≡ drop n pkt
drop-readdressed n ip ihl pkt h =
    drop-set_below n 11 _ _ (omega arith)
    ∙ drop-set_below n 10 _ _ (omega arith)
    ∙ drop-set_below n 11 _ _ (omega arith)
    ∙ drop-set_below n 10 _ _ (omega arith)
    ∙ drop-overwrite_below n 12 (octets ip) pkt (omega arith)

word-put_word :
    (i c : ℕ) (p : List ℕ)
    → suc i < length p
    → from_be_bytes (byte (put_word i c p) i) (byte (put_word i c p) (suc i)) ≡ c
word-put_word i c p h = omega (
  arith,
  get_or-set_ne (set p i (c / 256)) (suc i) i (c % 256) 0 (omega arith),
  get_or-set_self p i (c / 256) 0 (omega arith),
  get_or-set_self (set p i (c / 256)) (suc i) (c % 256) 0 (omega (arith, length-set p i (c / 256))),
)

module _ (pkt : List ℕ) (ip : Ipv4Addr) (v4 : IsIpv4 pkt) (udp : byte pkt 9 ≡ 17)
    (long : ihl_of pkt + 18 ≤ length pkt) where
  kept : (j : ℕ) → 16 ≤ j → byte (readdressed 12 ip (ihl_of pkt) pkt) j ≡ byte pkt j
  kept j h = byte-readdressed 12 ip (ihl_of pkt) j pkt (inr h) (omega arith) (omega arith)

  far_address : address_at (readdressed 12 ip (ihl_of pkt) pkt) 16 ≡ address_at pkt 16
  far_address =
      rw
        (kept 16 (omega arith), kept 17 (omega arith), kept 18 (omega arith), kept 19 (omega arith))
        refl

  fixed :
      source_rewritten pkt (ihl_of pkt) ip
      ≡ put_word
          (ihl_of pkt + 16)
          (transport_checksum (octets ip) (address_at pkt 16) 17 (drop (ihl_of pkt) pkt))
          (readdressed 12 ip (ihl_of pkt) pkt)
  fixed =
      let q = readdressed 12 ip (ihl_of pkt) pkt in
      let p9 : byte q 9 ≡ 17 =
        byte-readdressed 12 ip (ihl_of pkt) 9 pkt (inl (omega arith)) (omega arith) (omega arith)
        ∙ udp in
      let room : leb (ihl_of pkt + 18) (length q) ≡ true =
        le→leb _ _ (omega (arith, length-readdressed 12 ip (ihl_of pkt) pkt)) in
      rw (p9, room, far_address, drop-readdressed (ihl_of pkt) ip (ihl_of pkt) pkt v4.shortest) refl

  -- A source rewrite of an IPv4 packet with a UDP segment of 18 or more bytes leaves the checksum
  -- field of the datagram, bytes 6 and 7 of the segment, as it was, and stores the new checksum
  -- over bytes 16 and 17, which are payload.
  pub rewrite_ipv4_source-udp :
      (out : List ℕ) × (rewrite_ipv4_source pkt ip ≡ done (out, true))
      × (byte out (ihl_of pkt + 6) ≡ byte pkt (ihl_of pkt + 6))
      × (byte out (ihl_of pkt + 7) ≡ byte pkt (ihl_of pkt + 7))
      × (from_be_bytes (byte out (ihl_of pkt + 16)) (byte out (ihl_of pkt + 17))
          ≡ transport_checksum (octets ip) (address_at pkt 16) 17 (drop (ihl_of pkt) pkt))
  rewrite_ipv4_source-udp =
      let n = ihl_of pkt in
      let q = readdressed 12 ip n pkt in
      let c = transport_checksum (octets ip) (address_at pkt 16) 17 (drop n pkt) in
      let s : n + 17 ≡ suc (n + 16) = omega arith in
      (
        source_rewritten pkt n ip,
        rw (rewrite_ipv4_source-done, accepted_of_IsIpv4 pkt v4),
        rw fixed (
            byte-put_word (n + 16) c (n + 6) q (omega arith) (omega arith)
            ∙ kept (n + 6) (omega (arith, v4.shortest))),
        rw fixed (
            byte-put_word (n + 16) c (n + 7) q (omega arith) (omega arith)
            ∙ kept (n + 7) (omega (arith, v4.shortest))),
        rw fixed (
            ap
              (λ (j : ℕ).
                from_be_bytes (byte (put_word (n + 16) c q) (n + 16))
                  (byte (put_word (n + 16) c q) j))
              s
            ∙ word-put_word (n + 16) c q (omega (arith, length-readdressed 12 ip n pkt))),
      )
