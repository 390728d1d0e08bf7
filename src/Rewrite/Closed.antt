-- ===== src/Rewrite/Closed.antt =====
-- What the rewrites compute, with the bounds checks gone.
use netmux.Prelude.{
  ℕ, ◌+◌, ◌≤◌, ◌<◌, ◌≡◌, refl, List, [], ◌∷◌, Bool, true, false, ◌&&◌, leb, ◌==◌, if◌then◌else◌,
  length, shr, to_be_bytes, Run, done, ◌>>=◌, arith, le→ltb, set, Bool-cases, inl, inr, get_or,
  take, drop, overwrite, length-set, length-overwrite, store_in_range, slice_to_in_range,
  slice_from_in_range, copy_at_in_range, index-get_or,
}
use netmux.Checksum.{checksum, transport_checksum}
use netmux.Checksum.Verify.{put_word, length-put_word}
use netmux.Ipv4.{Ipv4Addr, octets}
use netmux.Rewrite.{
  header_length, has_ports, fix_header, fix_transport, read_address, guarded, source_body,
  dest_body, rewrite_ipv4_source, rewrite_ipv4_dest,
}

-- The byte at an index; outside the packet it is not read.
abbrev pub byte : List ℕ → ℕ → ℕ
byte pkt i = get_or pkt i 0

abbrev pub address_at : List ℕ → ℕ → List ℕ
address_at pkt i = byte pkt i ∷ byte pkt (i + 1) ∷ byte pkt (i + 2) ∷ byte pkt (i + 3) ∷ []

-- An IPv4 packet whose header is there in full and not shorter than 20 bytes.
pub record IsIpv4 (pkt : List ℕ) : Type 0 where
  pub version : shr (byte pkt 0) 4 ≡ 4
  pub shortest : 20 ≤ header_length (byte pkt 0)
  pub whole : header_length (byte pkt 0) ≤ length pkt

abbrev pub blank : List ℕ → List ℕ
blank pkt = set (set pkt 10 0) 11 0

abbrev pub header_fixed : ℕ → List ℕ → List ℕ
header_fixed ihl pkt = put_word 10 (checksum (take ihl (blank pkt))) (blank pkt)

abbrev pub transport_fixed : ℕ → List ℕ → List ℕ → List ℕ → List ℕ
transport_fixed ihl src dst pkt =
    if has_ports (byte pkt 9) && leb (ihl + 18) (length pkt)
    then put_word (ihl + 16) (transport_checksum src dst (byte pkt 9) (drop ihl pkt)) pkt
    else pkt

length-blank : (pkt : List ℕ) → length (blank pkt) ≡ length pkt
length-blank pkt = omega (arith, length-set (set pkt 10 0) 11 0, length-set pkt 10 0)

pub length-header_fixed : (ihl : ℕ) (pkt : List ℕ) → length (header_fixed ihl pkt) ≡ length pkt
length-header_fixed ihl pkt =
    omega
      (arith, length-put_word 10 (checksum (take ihl (blank pkt))) (blank pkt), length-blank pkt)

fix_header-header_fixed :
    (ihl : ℕ) (pkt : List ℕ)
    → 20 ≤ length pkt
    → ihl ≤ length pkt
    → fix_header ihl pkt ≡ done (header_fixed ihl pkt)
unfolding fix_header
fix_header-header_fixed ihl pkt h k =
    rw
      (
        store_in_range 10 0 pkt (omega arith),
        store_in_range 11 0 (set pkt 10 0) (omega (arith, length-set pkt 10 0)),
        slice_to_in_range (blank pkt) ihl (omega (arith, length-blank pkt)),
      )
      (copy_at_in_range 10 (to_be_bytes (checksum (take ihl (blank pkt)))) (blank pkt)
        (omega (arith, length-blank pkt)))

fix_transport_lem :
    (ihl proto : ℕ) (src dst pkt : List ℕ)
    → ihl + 18 ≤ length pkt
    → fix_transport ihl proto src dst pkt
      ≡ done (put_word (ihl + 16) (transport_checksum src dst proto (drop ihl pkt)) pkt)
unfolding fix_transport
fix_transport_lem ihl proto src dst pkt h = rw (slice_from_in_range pkt ihl (omega arith)) (
    copy_at_in_range (ihl + 16) (to_be_bytes (transport_checksum src dst proto (drop ihl pkt))) pkt
      (omega arith))

read_address_lem :
    (pkt : List ℕ) (i : ℕ) → i + 4 ≤ length pkt → read_address pkt i ≡ done (address_at pkt i)
unfolding read_address
read_address_lem pkt i h = rw (
  index-get_or pkt i 0 (omega arith),
  index-get_or pkt (i + 1) 0 (omega arith),
  index-get_or pkt (i + 2) 0 (omega arith),
  index-get_or pkt (i + 3) 0 (omega arith),
)

abbrev pub readdressed : ℕ → Ipv4Addr → ℕ → List ℕ → List ℕ
readdressed at ip ihl pkt = header_fixed ihl (overwrite at (octets ip) pkt)

-- The packets that the two rewrites leave.
abbrev pub source_rewritten : List ℕ → ℕ → Ipv4Addr → List ℕ
source_rewritten pkt ihl ip =
    let q = readdressed 12 ip ihl pkt in transport_fixed ihl (octets ip) (address_at q 16) q

abbrev pub dest_rewritten : List ℕ → ℕ → Ipv4Addr → List ℕ
dest_rewritten pkt ihl ip =
    let q = readdressed 16 ip ihl pkt in transport_fixed ihl (address_at q 12) (octets ip) q

pub length-readdressed :
    (at : ℕ) (ip : Ipv4Addr) (ihl : ℕ) (pkt : List ℕ)
    → length (readdressed at ip ihl pkt) ≡ length pkt
length-readdressed at ip ihl pkt = omega (
  arith,
  length-header_fixed ihl (overwrite at (octets ip) pkt),
  length-overwrite at (octets ip) pkt,
)

-- The block under `if matches!(proto, 6 | 17) && pkt.len() >= ihl + 18`, once the far address
-- has been read by `addresses`.
transport_block :
    (ihl : ℕ) (q : List ℕ) (i : ℕ) (segment : List ℕ → Run (List ℕ × Bool)) (fixed : List ℕ)
    → 20 ≤ length q
    → i ≤ 16
    → (ihl + 18 ≤ length q → segment (address_at q i) ≡ done (fixed, true))
    → (if has_ports (byte q 9) && leb (ihl + 18) (length q)
        then (read_address q i >>= segment)
        else done (q, true))
      ≡ done ((if has_ports (byte q 9) && leb (ihl + 18) (length q) then fixed else q), true)
transport_block ihl q i segment fixed h k run =
    elim (Bool-cases (has_ports (byte q 9) && leb (ihl + 18) (length q))) [
      | inl p ↦ rw (p, read_address_lem q i (omega arith), run (ground arith)) refl
      | inr p ↦ rw p refl
    ]

module _ (pkt : List ℕ) (ihl : ℕ) (ip : Ipv4Addr) (long : 20 ≤ length pkt)
    (there : ihl ≤ length pkt) where
  source_body_lem : source_body pkt ihl ip ≡ done (source_rewritten pkt ihl ip, true)
  unfolding source_body
  source_body_lem =
      let n = length-overwrite 12 (octets ip) pkt in
      let m = length-readdressed 12 ip ihl pkt in
      let q = readdressed 12 ip ihl pkt in
      rw
        (
          copy_at_in_range 12 (octets ip) pkt (omega arith),
          fix_header-header_fixed ihl (overwrite 12 (octets ip) pkt) (omega (arith, n))
              (omega (arith, n)),
          index-get_or q 9 0 (omega (arith, m)),
        )
        (transport_block ihl q 16
          (λ far. do out ← fix_transport ihl (byte q 9) (octets ip) far q; done (out, true)) _
          (omega (arith, m)) (omega arith)
          (λ k. rw (fix_transport_lem ihl (byte q 9) (octets ip) (address_at q 16) q k)))

  dest_body_lem : dest_body pkt ihl ip ≡ done (dest_rewritten pkt ihl ip, true)
  unfolding dest_body
  dest_body_lem =
      let n = length-overwrite 16 (octets ip) pkt in
      let m = length-readdressed 16 ip ihl pkt in
      let q = readdressed 16 ip ihl pkt in
      rw
        (
          copy_at_in_range 16 (octets ip) pkt (omega arith),
          fix_header-header_fixed ihl (overwrite 16 (octets ip) pkt) (omega (arith, n))
              (omega (arith, n)),
          index-get_or q 9 0 (omega (arith, m)),
        )
        (transport_block ihl q 12
          (λ near. do out ← fix_transport ihl (byte q 9) near (octets ip) q; done (out, true)) _
          (omega (arith, m)) (omega arith)
          (λ k. rw (fix_transport_lem ihl (byte q 9) (address_at q 12) (octets ip) q k)))

-- Behind the guards a rewrite is its body.
guarded_lem :
    (pkt : List ℕ) (body : ℕ → Run (List ℕ × Bool))
    → 20 ≤ length pkt
    → shr (byte pkt 0) 4 ≡ 4
    → header_length (byte pkt 0) ≤ length pkt
    → guarded pkt body ≡ body (header_length (byte pkt 0))
unfolding guarded
guarded_lem pkt body h v k = rw (le→ltb _ _ h, index-get_or pkt 0 0 (omega arith), v, le→ltb _ _ k)

guarded_out :
    (pkt : List ℕ) (body : ℕ → Run (List ℕ × Bool))
    → (20 ≤ length pkt → shr (byte pkt 0) 4 ≡ 4 → length pkt < header_length (byte pkt 0))
    → guarded pkt body ≡ done (pkt, false)
unfolding guarded
guarded_out pkt body out = ground (arith, index-get_or pkt 0 0)

-- The guards of both rewrites.
abbrev pub accepted : List ℕ → Bool
accepted pkt =
    leb 20 (length pkt)
    && (shr (byte pkt 0) 4 == 4 && leb (header_length (byte pkt 0)) (length pkt))

-- Both rewrites return on every input, without a panic.
module _ (pkt : List ℕ) (ip : Ipv4Addr) where
  pub rewrite_ipv4_source-done :
      rewrite_ipv4_source pkt ip
      ≡ done (
          if accepted pkt
          then (source_rewritten pkt (header_length (byte pkt 0)) ip, true)
          else (pkt, false))
  unfolding rewrite_ipv4_source
  rewrite_ipv4_source-done = ground (
    arith,
    guarded_lem pkt (λ ihl. source_body pkt ihl ip),
    guarded_out pkt (λ ihl. source_body pkt ihl ip),
    source_body_lem pkt (header_length (byte pkt 0)) ip,
  )

  pub rewrite_ipv4_dest-done :
      rewrite_ipv4_dest pkt ip
      ≡ done (
          if accepted pkt
          then (dest_rewritten pkt (header_length (byte pkt 0)) ip, true)
          else (pkt, false))
  unfolding rewrite_ipv4_dest
  rewrite_ipv4_dest-done = ground (
    arith,
    guarded_lem pkt (λ ihl. dest_body pkt ihl ip),
    guarded_out pkt (λ ihl. dest_body pkt ihl ip),
    dest_body_lem pkt (header_length (byte pkt 0)) ip,
  )
