-- ===== src/Checksum/Fold.antt =====
-- The carry loop of the checksums computes a residue modulo 2 ^ 16 - 1.
use netmux.Prelude.{
  ℕ, zero, suc, ◌+◌, ◌-◌, ◌/◌, ◌%◌, ◌^◌, ◌≤◌, ◌<◌, ◌≡◌, arith, ◌==◌, if◌then◌else◌,
}
use netmux.Checksum.{fold_carries}

-- The end-around sum of a total: 0 for 0, and otherwise the residue in 1..65535.
abbrev pub residue : ℕ → ℕ
residue s = if s == 0 then 0 else (s - 1) % 65535 + 1

pub residue-lt : (s : ℕ) → residue s < 2 ^ 16
residue-lt s = ground arith

residue-step : (s : ℕ) → residue (s % 65536 + s / 65536) ≡ residue s
residue-step s = ground arith

fold_of_lt : (f s : ℕ) → s < 65536 → fold_carries f s ≡ residue s
unfolding fold_carries
fold_of_lt zero s h = ground arith
fold_of_lt (suc f) s h = ground arith

fold-step :
    (f s : ℕ)
    → 65536 ≤ s
    → s < 2 ^ 32
    → fold_carries (suc f) s ≡ fold_carries f (s % 65536 + s / 65536)
unfolding fold_carries
fold-step f s h k = ground arith

fold_once : (f s : ℕ) → s ≤ 131070 → fold_carries (suc f) s ≡ residue s
fold_once f s h = ground (
  arith,
  fold_of_lt (suc f) s,
  fold-step f s,
  fold_of_lt f (s % 65536 + s / 65536),
  residue-step s,
)

-- Two rounds are enough for a `u32`, and the loop ends with the end-around sum.
pub fold_carries-residue : (f s : ℕ) → s < 2 ^ 32 → fold_carries (suc (suc f)) s ≡ residue s
fold_carries-residue f s h = ground (
  arith,
  fold_of_lt (suc (suc f)) s,
  fold-step (suc f) s,
  fold_once f (s % 65536 + s / 65536),
  residue-step s,
)
