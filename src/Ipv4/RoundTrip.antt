-- ===== src/Ipv4/RoundTrip.antt =====
-- The text of an address parses back to the address.
use netmux.Prelude.{
  ℕ, zero, suc, ◌+◌, ◌*◌, ◌/◌, ◌%◌, ◌<◌, ◌≤◌, ◌≡◌, refl, ◌∙◌, ap, [], ◌∷◌, ◌++◌, false, some,
  length, arith, length-append, le→ltb,
}
use mathlib.Core.List.{append-nil}
use native.Mathlib.Decide.{dec_lt}
use netmux.Text.{Text, decimal, digits}
use netmux.Ipv4.{Ipv4Addr, IsOctets, dotted, read_digits, read_number, parse_ip, is_digit}

digits_stop : (f n : ℕ) (acc : Text) → n < 10 → digits 10 (suc f) n acc ≡ (b'0' + n) ∷ acc
unfolding decimal
digits_stop f n acc h = ground arith

digits_more :
    (f n : ℕ) (acc : Text)
    → 10 ≤ n
    → digits 10 (suc f) n acc ≡ digits 10 f (n / 10) ((b'0' + n % 10) ∷ acc)
unfolding decimal
digits_more f n acc h = ground arith

decimal_one : (n : ℕ) → n < 10 → decimal n ≡ (b'0' + n) ∷ []
unfolding decimal
decimal_one n h = digits_stop n n [] h

decimal_two : (n : ℕ) → 10 ≤ n → n < 100 → decimal n ≡ (b'0' + n / 10) ∷ (b'0' + n % 10) ∷ []
unfolding decimal
decimal_two zero h k = absurd (omega arith)
decimal_two (suc n) h k =
    digits_more (suc n) (suc n) [] h ∙ digits_stop n (suc n / 10) _ (omega arith)

decimal_three :
    (n : ℕ)
    → 100 ≤ n
    → n < 1000
    → decimal n ≡ (b'0' + n / 10 / 10) ∷ (b'0' + n / 10 % 10) ∷ (b'0' + n % 10) ∷ []
unfolding decimal
decimal_three zero h k = absurd (omega arith)
decimal_three (suc zero) h k = absurd (omega arith)
decimal_three (suc (suc n)) h k =
    digits_more (suc (suc n)) (suc (suc n)) [] (omega arith)
    ∙ digits_more (suc n) (suc (suc n) / 10) _ (omega arith)
    ∙ digits_stop n (suc (suc n) / 10 / 10) _ (omega arith)

-- A number ends where no further digit follows.
abbrev pub Ends : Text → Type 0
Ends [] = Unit {0}
Ends (c ∷ s) = is_digit c ≡ false

read_digits_end :
    (count n : ℕ) (rest : Text) → Ends rest → read_digits count n rest ≡ some (n, count, rest)
unfolding read_digits
read_digits_end count n [] h = refl
read_digits_end count n (c ∷ s) h = rw h

read_digits_more :
    (count n d : ℕ) (s : Text)
    → count < 3
    → d < 10
    → read_digits count n ((b'0' + d) ∷ s) ≡ read_digits (count + 1) (n * 10 + d) s
unfolding read_digits
read_digits_more count n d s h k = ground arith

read_one :
    (n : ℕ) (rest : Text) → n < 10 → Ends rest → read_number ((b'0' + n) ∷ rest) ≡ some (n, rest)
unfolding read_number
read_one n rest h e =
    rw (read_digits_more 0 0 n rest (omega arith) h, read_digits_end 1 (0 * 10 + n) rest e)
      (ground arith)

read_two :
    (m n : ℕ) (rest : Text)
    → 0 < m
    → m < 10
    → n < 10
    → Ends rest
    → read_number ((b'0' + m) ∷ (b'0' + n) ∷ rest) ≡ some (m * 10 + n, rest)
unfolding read_number
read_two m n rest p h k e = ground (
  arith,
  read_digits_more 0 0 m ((b'0' + n) ∷ rest),
  read_digits_more 1 m n rest,
  read_digits_end 2 (m * 10 + n) rest,
)

read_three :
    (l m n : ℕ) (rest : Text)
    → 0 < l
    → l < 10
    → m < 10
    → n < 10
    → l * 100 + m * 10 + n < 256
    → Ends rest
    → read_number ((b'0' + l) ∷ (b'0' + m) ∷ (b'0' + n) ∷ rest) ≡ some (l * 100 + m * 10 + n, rest)
unfolding read_number
read_three l m n rest p h k b e = ground (
  arith,
  read_digits_more 0 0 l ((b'0' + m) ∷ (b'0' + n) ∷ rest),
  read_digits_more 1 l m ((b'0' + n) ∷ rest),
  read_digits_more 2 (l * 10 + m) n rest,
  read_digits_end 3 (l * 100 + m * 10 + n) rest,
)

read_number-decimal :
    (n : ℕ) (rest : Text) → n < 256 → Ends rest → read_number (decimal n ++ rest) ≡ some (n, rest)
read_number-decimal n rest h e = elim (dec_lt n 10) [
  | yes p ↦ rw (decimal_one n p) (read_one n rest p e)
  | no p ↦ elim (dec_lt n 100) [
    | yes q ↦ rw (decimal_two n (omega arith) q) (
        read_two (n / 10) (n % 10) rest (omega arith) (omega arith) (omega arith) e
        ∙ ap (λ (k : ℕ). some (k, rest)) (omega arith))
    | no q ↦ rw (decimal_three n (omega arith) (omega arith)) (
        read_three (n / 10 / 10) (n / 10 % 10) (n % 10) rest (omega arith) (omega arith)
          (omega arith) (omega arith) (omega arith) e
        ∙ ap (λ (k : ℕ). some (k, rest)) (omega arith))
  ]
]

length-decimal : (n : ℕ) → n < 256 → length (decimal n) ≤ 3
length-decimal n h = elim (dec_lt n 10) [
  | yes p ↦ rw (decimal_one n p) (omega arith)
  | no p ↦ elim (dec_lt n 100) [
    | yes q ↦ rw (decimal_two n (omega arith) q) (omega arith)
    | no q ↦ rw (decimal_three n (omega arith) (omega arith)) (omega arith)
  ]
]

length-dotted : (ip : Ipv4Addr) → IsOctets ip → length (dotted ip) ≤ 15
unfolding dotted
length-dotted ip h = omega (
  arith,
  length-append (decimal ip.a)
      (b'.' ∷ (decimal ip.b ++ b'.' ∷ (decimal ip.c ++ b'.' ∷ decimal ip.d))),
  length-append (decimal ip.b) (b'.' ∷ (decimal ip.c ++ b'.' ∷ decimal ip.d)),
  length-append (decimal ip.c) (b'.' ∷ decimal ip.d),
  length-decimal ip.a h.0,
  length-decimal ip.b h.1,
  length-decimal ip.c h.2,
  length-decimal ip.d h.3,
)

read_number-last : (n : ℕ) → n < 256 → read_number (decimal n) ≡ some (n, [])
read_number-last n h = rw append-nil at (read_number-decimal n [] h tt)

-- The dotted form of four octets parses back to them.
pub parse_ip-dotted : (ip : Ipv4Addr) → IsOctets ip → parse_ip (dotted ip) ≡ some ip
unfolding parse_ip
parse_ip-dotted ip h = rw (le→ltb 15 (length (dotted ip)) (length-dotted ip h)) (
    unfold dotted in
    rw (
      read_number-decimal ip.a _ h.0 refl,
      read_number-decimal ip.b _ h.1 refl,
      read_number-decimal ip.c _ h.2 refl,
      read_number-last ip.d h.3,
    ))
