-- ===== src/Sysfs.antt =====
-- Reading /sys/class/net: `read_u64` and `read_bool` of crates/netmux-core/src/interface.rs, with
-- the standard library's `trim`, `str::parse::<u64>` and `u64::from_str_radix` on ASCII text.
use netmux.Prelude.{
  ℕ, ◌+◌, ◌-◌, ◌*◌, ◌^◌, [], ◌∷◌, Bool, true, false, ◌&&◌, ◌||◌, ltb, leb, ◌==◌, if◌then◌else◌,
  Option, none, some,
}
use mathlib.Core.List.{reverse}
use netmux.Text.{Text, text}

-- One directory of /sys/class/net: its name (`none` if it is not UTF-8) and the contents of its
-- files (`none` where reading fails).
pub record SysEntry : Type 0 where
  pub name : Option Text
  pub operstate : Option Text
  pub flags : Option Text
  pub address : Option Text
  pub carrier : Option Text
  pub rx_bytes : Option Text
  pub tx_bytes : Option Text
  pub rx_packets : Option Text
  pub tx_packets : Option Text

abbrev pub is_space : ℕ → Bool
is_space c = c == 32 || leb 9 c && leb c 13

unfoldable pub trim_start : Text → Text
trim_start [] = []
trim_start (c ∷ s) = let rest = trim_start s in if is_space c then rest else c ∷ s

unfoldable pub trim : Text → Text
unfolding trim_start
trim s = reverse (trim_start (reverse (trim_start s)))

-- `trim_start_matches("0x")`: the prefix as often as it stands there.
unfoldable pub trim_0x : Text → Text
trim_0x [] = []
trim_0x (c ∷ []) = c ∷ []
trim_0x (c ∷ d ∷ s) = let rest = trim_0x s in if c == b'0' && d == b'x' then rest else c ∷ d ∷ s

-- The value of a digit in a base up to 16.
unfoldable pub digit_value : ℕ → ℕ → Option ℕ
digit_value base c =
    let v =
      if leb b'0' c && leb c b'9'
      then c - b'0'
      else if leb b'a' c && leb c b'f'
      then c - b'a' + 10
      else if leb b'A' c && leb c b'F'
      then c - b'A' + 10
      else base in
    if ltb v base then some v else none

-- Digits to the end of the text, without overflow of a `u64`.
unfoldable pub read_digits : ℕ → ℕ → Text → Option ℕ
unfolding digit_value
read_digits base n [] = some n
read_digits base n (c ∷ s) = elim (digit_value base c) [
  | none ↦ none
  | some d ↦
      let rest = read_digits base (n * base + d) s in
      if ltb (n * base + d) (2 ^ 64) then rest else none
]

-- `u64::from_str_radix`; `parse` is the same in base 10. A `+` may stand first.
unfoldable pub from_str_radix : ℕ → Text → Option ℕ
unfolding read_digits
from_str_radix base [] = none
from_str_radix base (c ∷ []) = read_digits base 0 (c ∷ [])
from_str_radix base (c ∷ d ∷ s) =
    if c == b'+' then read_digits base 0 (d ∷ s) else read_digits base 0 (c ∷ d ∷ s)

abbrev pub unwrap_or {ℓ} : {A : Type ℓ} → Option A → A → A
unwrap_or none d = d
unwrap_or (some a) d = a

abbrev pub parse_file : (Text → Option ℕ) → Option Text → ℕ
parse_file parse none = 0
parse_file parse (some s) = unwrap_or (parse s) 0

unfoldable pub read_u64 : Option Text → ℕ
unfolding trim from_str_radix
read_u64 file = parse_file (λ s. from_str_radix 10 (trim s)) file

-- `s == t` of texts.
unfoldable pub text_eq : Text → Text → Bool
text_eq [] [] = true
text_eq [] (d ∷ t) = false
text_eq (c ∷ s) [] = false
text_eq (c ∷ s) (d ∷ t) = c == d && text_eq s t

unfoldable pub read_bool : Option Text → Bool
unfolding trim text_eq
read_bool none = false
read_bool (some s) = text_eq (trim s) (text "1")
