-- ===== src/Text/Utf8.antt =====
-- `String::from_utf8_lossy`: every maximal part of an ill-formed sequence becomes U+FFFD.
use netmux.Prelude.{
  ℕ, ◌≡◌, refl, ap, ◌<◌, List, [], ◌∷◌, ◌++◌, ◌&&◌, ltb, leb, lt→ltb, if◌then◌else◌, All,
}
use netmux.Text.{Text}

-- Between two bytes: the bytes of a character begun, and the ranges of those that may follow.
abbrev pub Decoder : Type 0
Decoder = List ℕ × List (ℕ × ℕ)

abbrev pub idle : Decoder
idle = ([], [])

abbrev replacement : Text
replacement = 0xef ∷ 0xbf ∷ 0xbd ∷ []

abbrev tail_byte : ℕ × ℕ
tail_byte = (0x80, 0xbf)

-- The ranges after a first byte of more than one; none after a byte that begins no character.
abbrev pub follows : ℕ → List (ℕ × ℕ)
follows b =
    if ltb b 0xc2
    then []
    else if ltb b 0xe0
    then tail_byte ∷ []
    else if ltb b 0xe1
    then (0xa0, 0xbf) ∷ tail_byte ∷ []
    else if ltb b 0xed
    then tail_byte ∷ tail_byte ∷ []
    else if ltb b 0xee
    then (0x80, 0x9f) ∷ tail_byte ∷ []
    else if ltb b 0xf0
    then tail_byte ∷ tail_byte ∷ []
    else if ltb b 0xf1
    then (0x90, 0xbf) ∷ tail_byte ∷ tail_byte ∷ []
    else if ltb b 0xf4
    then tail_byte ∷ tail_byte ∷ tail_byte ∷ []
    else if ltb b 0xf5
    then (0x80, 0x8f) ∷ tail_byte ∷ tail_byte ∷ []
    else []

abbrev begin_with : ℕ → List (ℕ × ℕ) → Text × Decoder
begin_with b [] = (replacement, idle)
begin_with b (r ∷ rs) = ([], (b ∷ [], r ∷ rs))

-- A byte where a character begins: what is written and what is awaited.
abbrev pub first_byte : ℕ → Text × Decoder
first_byte b = if ltb b 0x80 then (b ∷ [], idle) else begin_with b (follows b)

abbrev complete : List ℕ → List (ℕ × ℕ) → Text × Decoder
complete begun [] = (begun, idle)
complete begun (r ∷ rs) = ([], (begun, r ∷ rs))

abbrev restart : Text × Decoder → Text × Decoder
restart (out, d) = (replacement ++ out, d)

abbrev pub next_byte : ℕ → Decoder → Text × Decoder
next_byte b (begun, []) = first_byte b
next_byte b (begun, (lo, hi) ∷ rs) =
    if leb lo b && leb b hi then complete (begun ++ b ∷ []) rs else restart (first_byte b)

abbrev at_end : List (ℕ × ℕ) → Text
at_end [] = []
at_end (r ∷ rs) = replacement

abbrev pub lossy_from : Decoder → List ℕ → Text
lossy_from d [] = at_end d.1
lossy_from d (b ∷ bytes) = let (out, next) = next_byte b d in out ++ lossy_from next bytes

unfoldable pub from_utf8_lossy : List ℕ → Text
from_utf8_lossy bytes = lossy_from idle bytes

abbrev pub IsAscii : ℕ → Type 0
IsAscii b = b < 0x80

-- ASCII is kept.
pub from_utf8_lossy-ascii : (bytes : List ℕ) → All IsAscii bytes → from_utf8_lossy bytes ≡ bytes
unfolding from_utf8_lossy
from_utf8_lossy-ascii [] h = refl
from_utf8_lossy-ascii (b ∷ bytes) (small, h) =
    rw (lt→ltb b 0x80 small) (ap (◌∷◌ b) (from_utf8_lossy-ascii bytes h))

-- é, a stray continuation byte, and a character cut short before an A.
lossy_runs :
    from_utf8_lossy (0xc3 ∷ 0xa9 ∷ 0x80 ∷ 0xe2 ∷ 0x82 ∷ 0x41 ∷ [])
    ≡ 0xc3 ∷ 0xa9 ∷ 0xef ∷ 0xbf ∷ 0xbd ∷ 0xef ∷ 0xbf ∷ 0xbd ∷ 0x41 ∷ []
unfolding from_utf8_lossy
lossy_runs = refl
