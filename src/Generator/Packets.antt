-- ===== src/Generator/Packets.antt =====
-- Every synthetic packet is a TCP packet that parses.
use netmux.Prelude.{
  ℕ, zero, suc, ◌+◌, ◌-◌, ◌%◌, ◌/◌, ◌≤◌, ◌<◌, ◌≡◌, refl, ap, max, List, ◌∷◌, ◌++◌, replicate, set,
  get_or, length, u8, u16, u64, shr, Run, done, ◌>>=◌, store, copy_at, index-get_or, arith, some,
  overwrite, length-set, length-replicate, leb, true, store_in_range, copy_at_in_range, le→leb,
  Ensures,
}
use netmux.Packet.{Flow, parse}
use netmux.Packet.V4.{flow_v4, parse-IsIpv4}
use netmux.Rewrite.Closed.{IsIpv4}
use netmux.Generator.{PcapGenerator, packet_of, next_packet, next_seed}

replicate-add : (n k m v : ℕ) → m ≡ n + k → replicate m v ≡ replicate n v ++ replicate k v
replicate-add zero k m v e = ap (λ (j : ℕ). replicate j v) (omega arith)
replicate-add (suc n) k zero v e = absurd (omega arith)
replicate-add (suc n) k (suc m) v e = ap (◌∷◌ v) (replicate-add n k m v (omega arith))

-- A byte written in range, and what is done then.
store-then :
    (i v : ℕ) (xs : List ℕ) (f : List ℕ → Run (List ℕ)) (r : Run (List ℕ))
    → i < length xs
    → f (set xs i v) ≡ r
    → (store i v xs >>= f) ≡ r
store-then i v xs f r h e = rw (store_in_range i v xs h) e

copy_at-then :
    (i : ℕ) (src xs : List ℕ) (f : List ℕ → Run (List ℕ)) (r : Run (List ℕ))
    → i + length src ≤ length xs
    → f (overwrite i src xs) ≡ r
    → (copy_at i src xs >>= f) ≡ r
copy_at-then i src xs f r h e = rw (copy_at_in_range i src xs h) e

-- The forty bytes of headers that `next_packet` writes.
abbrev pub header_of : ℕ → List ℕ
header_of rnd =
    0x45
    ∷ 0
    ∷ 0
    ∷ 0
    ∷ 0
    ∷ 0
    ∷ 0
    ∷ 0
    ∷ 0
    ∷ 6
    ∷ 0
    ∷ 0
    ∷ u8 (shr rnd 16)
    ∷ u8 (shr rnd 8)
    ∷ 1
    ∷ u8 (shr rnd 24)
    ∷ 8
    ∷ 8
    ∷ (4 + u8 (rnd % 4))
    ∷ 8
    ∷ (u16 (rnd % 60000) + 1024) / 256
    ∷ (u16 (rnd % 60000) + 1024) % 256
    ∷ 443 / 256
    ∷ 443 % 256
    ∷ replicate 16 0

packet_of-header_of :
    (rnd len : ℕ) → packet_of rnd len ≡ done (header_of rnd ++ replicate (len - 40) 0)
unfolding packet_of
packet_of-header_of rnd len = rw (replicate-add 40 (len - 40) (max 40 len) 0 (omega arith)) (
    store-then _ _ _ _ _ (omega arith) (
      store-then _ _ _ _ _ (omega arith) (
        store-then _ _ _ _ _ (omega arith) (
          store-then _ _ _ _ _ (omega arith) (
            store-then _ _ _ _ _ (omega arith) (
              store-then _ _ _ _ _ (omega arith) (
                store-then _ _ _ _ _ (omega arith) (
                  store-then _ _ _ _ _ (omega arith) (
                    store-then _ _ _ _ _ (omega arith) (
                      store-then _ _ _ _ _ (omega arith) (
                        copy_at-then _ _ _ _ _ (omega arith)
                          (copy_at_in_range 22 _ _ (omega arith)))))))))))))

-- A TCP packet of the length asked for, at least 40, to port 443 from a port of 1024 or more, that
-- parses; the generator still has its eight seeds.
abbrev pub IsTcp : {F : Type 0} → ℕ → List ℕ × PcapGenerator F → Type 0
IsTcp len (pkt, g) =
    (length pkt ≡ max 40 len)
    × (length g.seeds ≡ 8)
    × ((flow : Flow) × (parse pkt ≡ done (some flow))
        × (flow.proto ≡ 6)
        × (flow.dport ≡ 443)
        × (1024 ≤ flow.sport)
        × (flow.sport < 61024))

header_of-IsIpv4 : (rnd : ℕ) (rest : List ℕ) → IsIpv4 (header_of rnd ++ rest)
header_of-IsIpv4 rnd rest = record { version = refl; shortest = omega arith; whole = omega arith }

length-packet : (rnd len : ℕ) → length (header_of rnd ++ replicate (len - 40) 0) ≡ max 40 len
length-packet rnd len = omega (arith, length-replicate {A = ℕ} (len - 40) 0)

-- From eight seeds `next_packet` returns, for every length, a TCP packet that parses.
pub next_packet-IsTcp :
    {F : Type 0} (len : ℕ) (g : PcapGenerator F)
    → length g.seeds ≡ 8
    → Ensures (IsTcp len) (next_packet len g)
unfolding next_packet
next_packet-IsTcp len g eight =
    let i = u64 (g.tick + 1) % 8 in
    let rnd = next_seed (get_or g.seeds i 0) in
    let pkt = header_of rnd ++ replicate (len - 40) 0 in
    let room : leb 24 (length pkt) ≡ true = le→leb 24 (length pkt) (omega arith) in
    rw (index-get_or g.seeds i 0 (omega arith), packet_of-header_of rnd len)
      (
        length-packet rnd len,
        omega (arith, length-set g.seeds i rnd),
        (
          flow_v4 pkt,
          parse-IsIpv4 pkt (header_of-IsIpv4 rnd (replicate (len - 40) 0)),
          refl,
          rw room refl,
          rw room (omega arith),
          rw room (omega arith),
        ),
      )
