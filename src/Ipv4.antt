-- ===== src/Ipv4.antt =====
-- `std::net::Ipv4Addr`: its octets, the dotted text that packet.rs writes, and the parser of
-- `str::parse`, which nat.rs calls as `parse_ip`.
pub mod RoundTrip
use netmux.Prelude.{
  ℕ, zero, suc, ◌+◌, ◌-◌, ◌*◌, ◌<◌, List, [], ◌∷◌, ◌++◌, Bool, true, false, ◌&&◌, ltb, leb, ◌==◌,
  if◌then◌else◌, Option, none, some, length, ℕ_discrete,
}
use netmux.Prelude.Options.{◌>>=◌}
use netmux.Text.{Text, decimal}

pub record Ipv4Addr : Type 0 where
  pub a : ℕ
  pub b : ℕ
  pub c : ℕ
  pub d : ℕ

abbrev pub octets : Ipv4Addr → List ℕ
octets ip = ip.a ∷ ip.b ∷ ip.c ∷ ip.d ∷ []

abbrev pub IsOctets : Ipv4Addr → Type 0
IsOctets ip = (ip.a < 256) × (ip.b < 256) × (ip.c < 256) × (ip.d < 256)

unfoldable pub Ipv4Addr-discrete : Discrete Ipv4Addr
Ipv4Addr-discrete = hlevel ℕ_discrete

-- `format!("{}.{}.{}.{}", ..)`
unfoldable pub dotted : Ipv4Addr → Text
dotted ip = decimal ip.a ++ b'.' ∷ (decimal ip.b ++ b'.' ∷ (decimal ip.c ++ b'.' ∷ decimal ip.d))

abbrev pub is_digit : ℕ → Bool
is_digit c = leb b'0' c && leb c b'9'

-- The digits at the front, at most three: their value, their number and the text behind them.
unfoldable pub read_digits : ℕ → ℕ → Text → Option (ℕ × ℕ × Text)
read_digits count n [] = some (n, count, [])
read_digits count n (c ∷ s) =
    if is_digit c
    then (if ltb 3 (count + 1) then none else read_digits (count + 1) (n * 10 + (c - b'0')) s)
    else some (n, count, c ∷ s)

abbrev pub has_leading_zero : Text → Bool
has_leading_zero [] = false
has_leading_zero (c ∷ s) = c == b'0'

-- One octet: no empty number, no leading zero, at most 255.
unfoldable pub read_number : Text → Option (ℕ × Text)
unfolding read_digits
read_number s = do
  (n, count, rest) ← read_digits 0 0 s
  if count == 0
      then none
      else if has_leading_zero s && ltb 1 count
      then none
      else if ltb 255 n
      then none
      else some (n, rest)

unfoldable pub read_dot : Text → Option Text
read_dot [] = none
read_dot (c ∷ s) = if c == b'.' then some s else none

-- The whole text must be read.
unfoldable pub finish : Ipv4Addr → Text → Option Ipv4Addr
finish ip [] = some ip
finish ip (c ∷ s) = none

-- `s.parse::<Ipv4Addr>().ok()`
unfoldable pub parse_ip : Text → Option Ipv4Addr
unfolding read_dot finish
parse_ip s = if ltb 15 (length s) then none else do
  (a, s) ← read_number s
  s ← read_dot s
  (b, s) ← read_number s
  s ← read_dot s
  (c, s) ← read_number s
  s ← read_dot s
  (d, s) ← read_number s
  finish (record { a = a; b = b; c = c; d = d }) s
