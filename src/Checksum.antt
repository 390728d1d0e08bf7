-- ===== src/Checksum.antt =====
-- `checksum` and `transport_checksum` of crates/netmux-core/src/packet.rs.
-- A `u32` accumulator wraps at 2 ^ 32; the theorems on totals show where it does not.
pub mod Fold
pub mod WordSum
pub mod Verify
pub mod Transport
use netmux.Prelude.{
  ℕ, zero, suc, ◌+◌, ◌-◌, ◌*◌, ◌/◌, ◌%◌, ◌^◌, List, [], ◌∷◌, ◌++◌, length, u16, u32, shr, low_bits,
  from_be_bytes, to_be_bytes, ◌==◌, if◌then◌else◌,
}

-- The summing loop over 16-bit words from accumulator `sum`; an odd last byte is a high byte.
unfoldable pub sum_words : ℕ → List ℕ → ℕ
sum_words sum [] = sum
sum_words sum (a ∷ []) = u32 (sum + u32 (a * 2 ^ 8))
sum_words sum (a ∷ b ∷ rest) = sum_words (u32 (sum + from_be_bytes a b)) rest

-- `while sum >> 16 != 0 { sum = (sum & 0xffff) + (sum >> 16) }`
unfoldable pub fold_carries : ℕ → ℕ → ℕ
fold_carries zero sum = sum
fold_carries (suc fuel) sum =
    let rest = fold_carries fuel (u32 (low_bits sum 16 + shr sum 16)) in
    if shr sum 16 == 0 then sum else rest

-- A `u32` is folded to 16 bits in at most three rounds.
abbrev pub fold_fuel : ℕ
fold_fuel = 3

-- `!(sum as u16)`
abbrev pub complement : ℕ → ℕ
complement sum = 65535 - u16 sum

unfoldable pub checksum : List ℕ → ℕ
checksum bytes = complement (fold_carries fold_fuel (sum_words 0 bytes))

-- The 12-byte pseudo-header: src(4) dst(4) zero(1) proto(1) len(2).
pub pseudo_header : List ℕ → List ℕ → ℕ → List ℕ → List ℕ
pseudo_header src dst proto l4 = src ++ (dst ++ (0 ∷ proto ∷ to_be_bytes (u16 (length l4))))

-- The loop over the segment at index `i`, with the word at index 16 read as zero.
pub sum_segment : ℕ → ℕ → List ℕ → ℕ
sum_segment i sum [] = sum
sum_segment i sum (a ∷ []) = u32 (sum + u32 (a * 2 ^ 8))
sum_segment i sum (a ∷ b ∷ rest) =
    sum_segment (i + 2) (u32 (sum + (if i == 16 then from_be_bytes 0 0 else from_be_bytes a b)))
      rest

pub transport_checksum : List ℕ → List ℕ → ℕ → List ℕ → ℕ
transport_checksum src dst proto l4 =
    complement
      (fold_carries fold_fuel (sum_segment 0 (sum_words 0 (pseudo_header src dst proto l4)) l4))
