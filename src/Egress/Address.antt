-- ===== src/Egress/Address.antt =====
-- The destination address that the kernel sees.
use netmux.Prelude.{
  ◌+◌, ◌*◌, ◌/◌, ◌%◌, ◌^◌, ◌<◌, ℕ, ◌≡◌, refl, ◌↔◌, ◌⊎◌, inl, ◌∷◌, [], Bool, true, false, arith,
}
use netmux.Ipv4.{Ipv4Addr, IsOctets}
use netmux.Egress.{octets, sin_addr}

-- The four bytes of a word, lowest first.
bytes_of_word :
    (x y z t : ℕ)
    → x < 256
    → y < 256
    → z < 256
    → t < 256
    → ((x + y * 2 ^ 8 + z * 2 ^ 16 + t * 2 ^ 24) % 2 ^ 8 ≡ x)
      × ((x + y * 2 ^ 8 + z * 2 ^ 16 + t * 2 ^ 24) / 2 ^ 8 % 2 ^ 8 ≡ y)
      × ((x + y * 2 ^ 8 + z * 2 ^ 16 + t * 2 ^ 24) / 2 ^ 16 % 2 ^ 8 ≡ z)
      × ((x + y * 2 ^ 8 + z * 2 ^ 16 + t * 2 ^ 24) / 2 ^ 24 % 2 ^ 8 ≡ t)
bytes_of_word x y z t hx hy hz ht = (omega arith, omega arith, omega arith, omega arith)

sin_addr_big : (dst : Ipv4Addr) → IsOctets dst → sin_addr false dst ≡ octets dst
unfolding sin_addr
sin_addr_big dst (ha, hb, hc, hd) =
    let (e0, e1, e2, e3) = bytes_of_word dst.d dst.c dst.b dst.a hd hc hb ha in
    rw (e0, e1, e2, e3) refl

-- On a little-endian machine the address is reversed.
sin_addr_little :
    (dst : Ipv4Addr) → IsOctets dst → sin_addr true dst ≡ dst.d ∷ dst.c ∷ dst.b ∷ dst.a ∷ []
unfolding sin_addr
sin_addr_little dst (ha, hb, hc, hd) =
    let (e0, e1, e2, e3) = bytes_of_word dst.a dst.b dst.c dst.d ha hb hc hd in
    let (f0, f1, f2, f3) = bytes_of_word dst.d dst.c dst.b dst.a hd hc hb ha in
    let turned : dst.a * 2 ^ 24 + dst.b * 2 ^ 16 + dst.c * 2 ^ 8 + dst.d
        ≡ dst.d + dst.c * 2 ^ 8 + dst.b * 2 ^ 16 + dst.a * 2 ^ 24 =
      omega arith in
    rw (e0, e1, e2, e3, turned, f0, f1, f2, f3) refl

-- The address that `send` hands to the kernel, as bytes of memory, is the destination exactly when
-- the machine is big-endian or the address reads the same from both ends.
pub sin_addr-octets :
    (little : Bool) (dst : Ipv4Addr)
    → IsOctets dst
    → (sin_addr little dst ≡ octets dst) ↔ ((little ≡ false) ⊎ ((dst.a ≡ dst.d) × (dst.b ≡ dst.c)))
sin_addr-octets true dst h = rw (sin_addr_little dst h) (ground arith)
sin_addr-octets false dst h = (λ e. inl refl, λ e. sin_addr_big dst h)
