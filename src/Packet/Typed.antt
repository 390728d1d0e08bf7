-- ===== src/Packet/Typed.antt =====
-- The fields of a parsed flow are in the ranges of their types: `u8` and `u16` in the source.
use netmux.Prelude.{
  ℕ, zero, suc, ◌+◌, ◌*◌, ◌^◌, ◌<◌, List, [], ◌∷◌, ◌&&◌, ◌||◌, ltb, leb, ◌==◌, Option, none, some,
  length, shr, Bool-cases, inl, inr, arith, IsByte, IsBytes, Run, done, panic, ◌>>=◌, Ensures,
  Returns, index, slice,
}
use netmux.Text.{Text}
use netmux.Ip6.{ip6}
use netmux.Rewrite.{has_ports, header_length}
use netmux.Packet.{
  Flow, read_ports, read_dotted, parse_v4, walk_extensions, v6_flow, parse_v6, parse, is_extension,
}
use netmux.Packet.Total.{parse-Returns}

-- A value that is returned, if any, has the property.
abbrev Allows {ℓ} : {A : Type ℓ} → (A → Type 0) → Run A → Type 0
Allows P (done a) = P a
Allows P panic = Unit

Allows-bind {ℓ κ} :
    {A : Type ℓ} {B : Type κ} (P : A → Type 0) (Q : B → Type 0) (m : Run A) (f : A → Run B)
    → Allows P m
    → ((a : A) → P a → Allows Q (f a))
    → Allows Q (m >>= f)
Allows-bind P Q (done a) f h k = k a h
Allows-bind P Q panic f h k = tt

Ensures-Allows {ℓ} :
    {A : Type ℓ} (P : A → Type 0) (m : Run A) → Returns m → Allows P m → Ensures P m
Ensures-Allows P (done a) r h = h
Ensures-Allows P panic r h = r

index-Allows : (xs : List ℕ) (i : ℕ) → IsBytes xs → Allows IsByte (index xs i)
unfolding index
index-Allows [] i h = tt
index-Allows (x ∷ xs) zero (p, h) = p
index-Allows (x ∷ xs) (suc i) (p, h) = index-Allows xs i h

abbrev pub IsPort : ℕ → Type 0
IsPort p = p < 2 ^ 16

abbrev pub IsTyped : Flow → Type 0
IsTyped f = IsByte f.proto × IsPort f.sport × IsPort f.dport

abbrev pub IsTypedOption : Option Flow → Type 0
IsTypedOption none = Unit
IsTypedOption (some f) = IsTyped f

abbrev IsTypedHeader : Option (ℕ × ℕ) → Type 0
IsTypedHeader none = Unit
IsTypedHeader (some (h, offset)) = IsByte h

abbrev ArePorts : ℕ × ℕ → Type 0
ArePorts (a, b) = IsPort a × IsPort b

anything : {A : Type 0} (m : Run A) → Allows (λ a. Unit {0}) m
anything (done a) = tt
anything panic = tt

module _ (pkt : List ℕ) (bytes : IsBytes pkt) where
  read_ports-ArePorts : (proto offset : ℕ) → Allows ArePorts (read_ports pkt proto offset)
  unfolding read_ports
  read_ports-ArePorts proto offset =
      elim (Bool-cases (has_ports proto && leb (offset + 4) (length pkt))) [
        | inr e ↦ rw e (omega arith, omega arith)
        | inl e ↦ rw e (
            Allows-bind IsByte ArePorts (index pkt offset) _ (index-Allows pkt offset bytes)
              (λ a ha.
                Allows-bind IsByte ArePorts (index pkt (offset + 1)) _
                  (index-Allows pkt (offset + 1) bytes)
                  (λ b hb.
                    Allows-bind IsByte ArePorts (index pkt (offset + 2)) _
                      (index-Allows pkt (offset + 2) bytes)
                      (λ c hc.
                        Allows-bind IsByte ArePorts (index pkt (offset + 3)) _
                          (index-Allows pkt (offset + 3) bytes)
                          (λ d hd. (omega arith, omega arith))))))
      ]

  parse_v4-IsTyped : Allows IsTypedOption (parse_v4 pkt)
  unfolding parse_v4
  parse_v4-IsTyped = elim (Bool-cases (ltb (length pkt) 20)) [
    | inl e ↦ rw e tt
    | inr e ↦ rw e (
        Allows-bind IsByte IsTypedOption (index pkt 0) _ (index-Allows pkt 0 bytes) (λ b0 h0.
          elim (Bool-cases (ltb (header_length b0) 20 || ltb (length pkt) (header_length b0))) [
            | inl f ↦ rw f tt
            | inr f ↦ rw f (
                Allows-bind IsByte IsTypedOption (index pkt 9) _ (index-Allows pkt 9 bytes)
                  (λ proto hp.
                    Allows-bind _ IsTypedOption (read_dotted pkt 12) _
                      (anything (read_dotted pkt 12))
                      (λ src u.
                        Allows-bind _ IsTypedOption (read_dotted pkt 16) _
                          (anything (read_dotted pkt 16))
                          (λ dst u.
                            Allows-bind ArePorts IsTypedOption
                              (read_ports pkt proto (header_length b0)) _
                              (read_ports-ArePorts proto (header_length b0))
                              (λ ports (s, d). (hp, s, d))))))
          ]))
  ]

  walk_extensions-IsTyped :
      (rounds h offset : ℕ) → IsByte h → Allows IsTypedHeader (walk_extensions rounds pkt h offset)
  unfolding walk_extensions
  walk_extensions-IsTyped zero h offset small = small
  walk_extensions-IsTyped (suc rounds) h offset small = elim (Bool-cases (has_ports h)) [
    | inl e ↦ rw e small
    | inr e ↦ elim (Bool-cases (is_extension h)) [
      | inr f ↦ rw (e, f) small
      | inl f ↦ elim (Bool-cases (ltb (length pkt) (offset + 2))) [
        | inl g ↦ rw (e, f, g) tt
        | inr g ↦
            rw (e, f, g)
              (Allows-bind _ IsTypedHeader (index pkt (offset + 1)) _
                (anything (index pkt (offset + 1)))
                (λ len u.
                  Allows-bind IsByte IsTypedHeader (index pkt offset) _
                    (index-Allows pkt offset bytes)
                    (λ next hn. walk_extensions-IsTyped rounds next (offset + (len + 1) * 8) hn)))
      ]
    ]
  ]

  v6_flow-IsTyped :
      (src dst : Text) (o : Option (ℕ × ℕ))
      → IsTypedHeader o
      → Allows IsTypedOption (v6_flow pkt src dst o)
  unfolding v6_flow
  v6_flow-IsTyped src dst none h = tt
  v6_flow-IsTyped src dst (some (next, offset)) h =
      Allows-bind ArePorts IsTypedOption (read_ports pkt next offset) _
        (read_ports-ArePorts next offset) (λ ports (s, d). (h, s, d))

  parse_v6-IsTyped : Allows IsTypedOption (parse_v6 pkt)
  unfolding parse_v6
  parse_v6-IsTyped = elim (Bool-cases (ltb (length pkt) 40)) [
    | inl e ↦ rw e tt
    | inr e ↦ rw e (
        Allows-bind _ IsTypedOption (slice pkt 8 24) _ (anything (slice pkt 8 24)) (λ src u.
          Allows-bind _ IsTypedOption (slice pkt 24 40) _ (anything (slice pkt 24 40)) (λ dst u.
            Allows-bind IsByte IsTypedOption (index pkt 6) _ (index-Allows pkt 6 bytes) (λ next hn.
              Allows-bind IsTypedHeader IsTypedOption (walk_extensions 8 pkt next 40) _
                (walk_extensions-IsTyped 8 next 40 hn)
                (λ last h. v6_flow-IsTyped (ip6 src) (ip6 dst) last h)))))
  ]

parse-Allows : (pkt : List ℕ) → IsBytes pkt → Allows IsTypedOption (parse pkt)
unfolding parse
parse-Allows [] bytes = tt
parse-Allows (b ∷ rest) bytes = elim (Bool-cases (shr b 4 == 4)) [
  | inl e ↦ rw e (parse_v4-IsTyped (b ∷ rest) bytes)
  | inr e ↦ elim (Bool-cases (shr b 4 == 6)) [
    | inl f ↦ rw (e, f) (parse_v6-IsTyped (b ∷ rest) bytes)
    | inr f ↦ rw (e, f) tt
  ]
]

-- On any bytes, IPv4, IPv6 or neither, parsing returns without a panic, and a flow that it returns
-- is well typed: its protocol is a byte and its ports are 16-bit numbers.
pub parse-IsTyped : (pkt : List ℕ) → IsBytes pkt → Ensures IsTypedOption (parse pkt)
parse-IsTyped pkt bytes =
    Ensures-Allows IsTypedOption (parse pkt) (parse-Returns pkt) (parse-Allows pkt bytes)
