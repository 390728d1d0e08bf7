-- ===== src/Float/Rounded.antt =====
-- Whole numbers in `f64`, which keeps 53 binary digits: `as f64`, `*` and `+` on them round to the
-- nearest such number, and to the even one of two that are as near.
use netmux.Prelude.{
  ℕ, zero, suc, ◌+◌, ◌*◌, ◌/◌, ◌%◌, ◌^◌, ◌<◌, ◌≡◌, refl, true, ◌&&◌, ◌||◌, ◌==◌, ltb, if◌then◌else◌,
  arith,
}

-- The digits of a number beyond the first 53, if they are no more than the fuel.
unfoldable excess : ℕ → ℕ → ℕ
excess zero n = 0
excess (suc fuel) n = let rest = excess fuel (n / 2) in if ltb n (2 ^ 53) then 0 else suc rest

-- The multiple of the unit that is nearest.
abbrev nearest : ℕ → ℕ → ℕ
nearest n unit =
    let q = n / unit in
    let r = n % unit in
    if ltb unit (2 * r) || (2 * r == unit && q % 2 == 1) then (q + 1) * unit else q * unit

-- For numbers below 2 ^ 181.
unfoldable pub to_f64 : ℕ → ℕ
unfolding excess
to_f64 n = if excess 128 n == 0 then n else nearest n (2 ^ excess 128 n)

-- A number of at most 53 digits is exact.
pub to_f64_exact : (n : ℕ) → n < 2 ^ 53 → to_f64 n ≡ n
unfolding to_f64 excess
to_f64_exact n h = let small : ltb n (2 ^ 53) ≡ true = ground arith in rw small refl
