-- ===== src/Packet/Total.antt =====
-- `parse` never panics.
use netmux.Prelude.{
  ℕ, zero, suc, ◌+◌, ◌*◌, ◌≤◌, List, [], ◌∷◌, ◌&&◌, ◌||◌, ltb, leb, ◌==◌, Option, none, some,
  length, shr, Returns, Returns-bind, Returns-ne-panic, panic, ◌≢◌, arith, index-get_or,
  slice_in_range, Bool-cases, inl, inr,
}
use netmux.Text.{Text}
use netmux.Rewrite.{has_ports, header_length}
use netmux.Rewrite.Closed.{byte}
use netmux.Packet.{
  read_ports, read_dotted, parse_v4, walk_extensions, v6_flow, parse_v6, parse, is_extension,
}

read_ports-Returns : (pkt : List ℕ) (proto offset : ℕ) → Returns (read_ports pkt proto offset)
unfolding read_ports
read_ports-Returns pkt proto offset =
    elim (Bool-cases (has_ports proto && leb (offset + 4) (length pkt))) [
      | inl e ↦
          rw
            (
              e,
              index-get_or pkt offset 0 (ground arith),
              index-get_or pkt (offset + 1) 0 (ground arith),
              index-get_or pkt (offset + 2) 0 (ground arith),
              index-get_or pkt (offset + 3) 0 (ground arith),
            )
            tt
      | inr e ↦ rw e tt
    ]

read_dotted-Returns : (pkt : List ℕ) (i : ℕ) → i + 4 ≤ length pkt → Returns (read_dotted pkt i)
unfolding read_dotted
read_dotted-Returns pkt i h =
    rw
      (
        index-get_or pkt i 0 (omega arith),
        index-get_or pkt (i + 1) 0 (omega arith),
        index-get_or pkt (i + 2) 0 (omega arith),
        index-get_or pkt (i + 3) 0 (omega arith),
      )
      tt

walk_extensions-Returns :
    (rounds : ℕ) (pkt : List ℕ) (h offset : ℕ) → Returns (walk_extensions rounds pkt h offset)
unfolding walk_extensions
walk_extensions-Returns zero pkt h offset = tt
walk_extensions-Returns (suc rounds) pkt h offset = elim (Bool-cases (has_ports h)) [
  | inl e ↦ rw e tt
  | inr e ↦ elim (Bool-cases (is_extension h)) [
    | inr f ↦ rw (e, f) tt
    | inl f ↦ elim (Bool-cases (ltb (length pkt) (offset + 2))) [
      | inl g ↦ rw (e, f, g) tt
      | inr g ↦
          rw
            (
              e,
              f,
              g,
              index-get_or pkt (offset + 1) 0 (ground arith),
              index-get_or pkt offset 0 (ground arith),
            )
            (walk_extensions-Returns rounds pkt (byte pkt offset)
              (offset + (byte pkt (offset + 1) + 1) * 8))
    ]
  ]
]

v6_flow-Returns :
    (pkt : List ℕ) (src dst : Text) (o : Option (ℕ × ℕ)) → Returns (v6_flow pkt src dst o)
unfolding v6_flow
v6_flow-Returns pkt src dst none = tt
v6_flow-Returns pkt src dst (some (h, offset)) =
    Returns-bind (read_ports pkt h offset) _ (read_ports-Returns pkt h offset) (λ ports. tt)

parse_v4-Returns : (pkt : List ℕ) → Returns (parse_v4 pkt)
unfolding parse_v4
parse_v4-Returns pkt = elim (Bool-cases (ltb (length pkt) 20)) [
  | inl e ↦ rw e tt
  | inr e ↦
      rw (e, index-get_or pkt 0 0 (ground arith))
        (elim (Bool-cases
          (ltb (header_length (byte pkt 0)) 20 || ltb (length pkt) (header_length (byte pkt 0)))) [
            | inl f ↦ rw f tt
            | inr f ↦
                rw (f, index-get_or pkt 9 0 (ground arith))
                  (Returns-bind (read_dotted pkt 12) _ (read_dotted-Returns pkt 12 (ground arith))
                    (λ src.
                      Returns-bind (read_dotted pkt 16) _
                        (read_dotted-Returns pkt 16 (ground arith))
                        (λ dst.
                          Returns-bind (read_ports pkt (byte pkt 9) (header_length (byte pkt 0))) _
                            (read_ports-Returns pkt (byte pkt 9) (header_length (byte pkt 0)))
                            (λ ports. tt))))
          ])
]

parse_v6-Returns : (pkt : List ℕ) → Returns (parse_v6 pkt)
unfolding parse_v6
parse_v6-Returns pkt = elim (Bool-cases (ltb (length pkt) 40)) [
  | inl e ↦ rw e tt
  | inr e ↦
      rw
        (
          e,
          slice_in_range pkt 8 24 (omega arith) (ground arith),
          slice_in_range pkt 24 40 (omega arith) (ground arith),
          index-get_or pkt 6 0 (ground arith),
        )
        (Returns-bind (walk_extensions 8 pkt (byte pkt 6) 40) _
          (walk_extensions-Returns 8 pkt (byte pkt 6) 40) (λ last. v6_flow-Returns pkt _ _ last))
]

pub parse-Returns : (pkt : List ℕ) → Returns (parse pkt)
unfolding parse
parse-Returns [] = tt
parse-Returns (b ∷ rest) = elim (Bool-cases (shr b 4 == 4)) [
  | inl e ↦ rw e (parse_v4-Returns (b ∷ rest))
  | inr e ↦ elim (Bool-cases (shr b 4 == 6)) [
    | inl f ↦ rw (e, f) (parse_v6-Returns (b ∷ rest))
    | inr f ↦ rw (e, f) tt
  ]
]

-- Whatever the bytes, `parse` returns: no index or slice of it is out of range.
pub parse-ne-panic : (pkt : List ℕ) → parse pkt ≢ panic
parse-ne-panic pkt = Returns-ne-panic (parse pkt) (parse-Returns pkt)
