-- ===== src/Generator.antt =====
-- `PcapGenerator` of crates/netmux-core/src/aggregator.rs: the synthetic packets of the simulation.
pub mod Packets
use netmux.Prelude.{
  ℕ, ◌+◌, ◌*◌, ◌%◌, ◌^◌, max, List, [], ◌∷◌, replicate, set, get_or, length, u8, u16, u32, u64, shr,
  to_be_bytes, Run, done, ◌>>=◌, store, copy_at, index,
}
use netmux.Float.{Float}

pub record PcapGenerator (F : Type 0) : Type 0 where
  pub rate_per_sec : F
  pub tick : ℕ
  pub seeds : List ℕ

abbrev pub default_generator : {F : Type 0} → Float F → PcapGenerator F
default_generator fl = record {
  rate_per_sec = fl.of_u64 50;
  tick = 0;
  seeds = 7 ∷ 13 ∷ 29 ∷ 41 ∷ 53 ∷ 67 ∷ 79 ∷ 97 ∷ [];
}

-- `s.wrapping_mul(1664525).wrapping_add(1013904223)`
abbrev pub next_seed : ℕ → ℕ
next_seed s = u32 (u32 (s * 1664525) + 1013904223)

-- The packet of a length, from a random word.
unfoldable pub packet_of : ℕ → ℕ → Run (List ℕ)
packet_of rnd len = do
  pkt ← store 0 0x45 (replicate (max 40 len) 0)
  pkt ← store 9 6 pkt
  pkt ← store 12 (u8 (shr rnd 16)) pkt
  pkt ← store 13 (u8 (shr rnd 8)) pkt
  pkt ← store 14 1 pkt
  pkt ← store 15 (u8 (shr rnd 24)) pkt
  pkt ← store 16 8 pkt
  pkt ← store 17 8 pkt
  pkt ← store 18 (4 + u8 (rnd % 4)) pkt
  pkt ← store 19 8 pkt
  pkt ← copy_at 20 (to_be_bytes (u16 (rnd % 60000) + 1024)) pkt
  copy_at 22 (to_be_bytes 443) pkt

unfoldable pub next_packet : {F : Type 0} → ℕ → PcapGenerator F → Run (List ℕ × PcapGenerator F)
unfolding packet_of
next_packet len g = do
  let tick = u64 (g.tick + 1)
  s ← index g.seeds (tick % 8)
  let rnd = next_seed s
  pkt ← packet_of rnd len
  done (pkt, record g { tick = tick; seeds = set g.seeds (tick % 8) rnd })

module _ {F : Type 0} ⦃fl : Float F⦄ where
  -- `per_tick` of a duration in nanoseconds.
  unfoldable pub per_tick : ℕ → PcapGenerator F → ℕ
  per_tick dt g =
      fl.to_usize (fl.larger (fl.mul g.rate_per_sec (fl.secs_of_nanos dt)) (fl.of_u64 1))
