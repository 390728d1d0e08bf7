-- ===== src/Float.antt =====
-- `f64`, whose arithmetic is not modelled: a type with the operations that the program calls. Byte
-- rates and loads are such numbers.
pub mod Rounded
use netmux.Prelude.{ℕ, Bool}

pub record Float (F : Type 0) : Type 0 where
  pub of_u64 : ℕ → F
  -- `Duration::as_secs_f64` of a number of nanoseconds.
  pub secs_of_nanos : ℕ → F
  -- `Duration::from_secs_f64`, in nanoseconds.
  pub nanos_of_secs : F → ℕ
  pub infinity : F
  pub add : F → F → F
  pub mul : F → F → F
  pub div : F → F → F
  -- `f64::max`
  pub larger : F → F → F
  -- `a < b`; false where an operand is not a number.
  pub lt : F → F → Bool
  -- `x as usize`, which truncates and saturates.
  pub to_usize : F → ℕ
