-- ===== src/Text.antt =====
-- Texts as their UTF-8 bytes, and the number formats of `format!`: `{}` and `{:x}`.
pub mod Utf8
use Prim.Native.Char.{code}
use Prim.Native.String.{String}
use netmux.Prelude.{
  ℕ, ℕ_discrete, zero, suc, ◌+◌, ◌-◌, ◌/◌, ◌%◌, List, [], ◌∷◌, ◌++◌, Bool, true, false, ◌&&◌, ltb,
  ◌==◌, if◌then◌else◌,
}

abbrev pub Text : Type 0
Text = List ℕ

-- The bytes of an ASCII literal.
abbrev pub text : String → Text
text String.[] = []
text (String.◌∷◌ c s) = code c ∷ text s

-- The UTF-8 bytes of a character and of a literal.
abbrev encode : ℕ → Text
encode c =
    if ltb c 0x80
    then c ∷ []
    else if ltb c 0x800
    then (0xc0 + c / 64) ∷ (0x80 + c % 64) ∷ []
    else if ltb c 0x10000
    then (0xe0 + c / 4096) ∷ (0x80 + c / 64 % 64) ∷ (0x80 + c % 64) ∷ []
    else (0xf0 + c / 262144) ∷ (0x80 + c / 4096 % 64) ∷ (0x80 + c / 64 % 64) ∷ (0x80 + c % 64) ∷ []

abbrev pub utf8 : String → Text
utf8 String.[] = []
utf8 (String.◌∷◌ c s) = encode (code c) ++ utf8 s

-- One digit in base 10 or 16.
unfoldable pub digit : ℕ → ℕ
digit d = if ltb d 10 then b'0' + d else b'a' + (d - 10)

-- The digits of `n` in base `base` before `acc`. Fuel `n + 1` is more than the digits there are.
unfoldable pub digits : ℕ → ℕ → ℕ → Text → Text
digits base zero n acc = acc
digits base (suc fuel) n acc =
    let rest = digits base fuel (n / base) (digit (n % base) ∷ acc) in
    if ltb n base then digit n ∷ acc else rest

-- `format!("{n}")`
unfoldable pub decimal : ℕ → Text
unfolding digit digits
decimal n = digits 10 (suc n) n []

-- `format!("{n:x}")`
unfoldable pub hexadecimal : ℕ → Text
unfolding digit digits
hexadecimal n = digits 16 (suc n) n []

-- `s.starts_with(p)`
unfoldable pub starts_with : Text → Text → Bool
starts_with s [] = true
starts_with [] (c ∷ p) = false
starts_with (d ∷ s) (c ∷ p) = d == c && starts_with s p

-- `s.ends_with(c)` for an ASCII character
unfoldable pub ends_with : Text → ℕ → Bool
ends_with [] c = false
ends_with (d ∷ []) c = d == c
ends_with (d ∷ d' ∷ s) c = ends_with (d' ∷ s) c

-- Equality of texts, for maps with text keys.
unfoldable pub Text-discrete : Discrete Text
Text-discrete = hlevel ℕ_discrete

-- `a <= b` of strings: bytes in lexicographic order.
unfoldable pub text_le : Text → Text → Bool
text_le [] t = true
text_le (c ∷ s) [] = false
text_le (c ∷ s) (d ∷ t) = if ltb c d then true else if ltb d c then false else text_le s t
