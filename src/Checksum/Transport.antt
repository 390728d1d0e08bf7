-- ===== src/Checksum/Transport.antt =====
-- `transport_checksum` against the plain checksum, as the test of packet.rs claims of one input.
use netmux.Prelude.{
  ℕ, zero, suc, ◌+◌, ◌/◌, ◌%◌, ◌^◌, ◌≤◌, ◌<◌, ◌≡◌, ◌≢◌, refl, ap, ◌∙◌, arith, List, [], ◌∷◌, ◌++◌,
  length, false, get_or, set, IsBytes, length-set, get_or-set_ne, get_or-set_self, set-set,
  set_comm, ◌==◌,
}
use netmux.Checksum.{sum_words, sum_segment, pseudo_header, checksum, transport_checksum}
use netmux.Checksum.WordSum.{double}
use netmux.Checksum.Verify.{put_word, length-put_word, put_word-IsBytes, checksum-put_word}

sum_segment_after : (i s : ℕ) (l : List ℕ) → 16 < i → sum_segment i s l ≡ sum_words s l
unfolding sum_segment sum_words
sum_segment_after i s [] h = refl
sum_segment_after i s (a ∷ []) h = refl
sum_segment_after i s (a ∷ b ∷ rest) h =
    let e : (i == 16) ≡ false = ground arith in
    rw e (sum_segment_after (i + 2) _ rest (omega arith))

sum_segment_before :
    (k i s : ℕ) (l : List ℕ)
    → i + double k ≡ 16
    → length l ≢ suc (double k)
    → sum_segment i s l ≡ sum_words s (put_word (double k) 0 l)
unfolding sum_segment sum_words
sum_segment_before k i s [] e h = refl
sum_segment_before zero i s (a ∷ []) e h = absurd (h refl)
sum_segment_before zero i s (a ∷ b ∷ rest) e h =
    let t : i ≡ 16 = omega arith in rw t (sum_segment_after 18 _ rest (omega arith))
sum_segment_before (suc k) i s (a ∷ []) e h = refl
sum_segment_before (suc k) i s (a ∷ b ∷ rest) e h =
    let t : (i == 16) ≡ false = ground arith in
    rw t (sum_segment_before k (i + 2) _ rest (omega arith) (λ q. h (omega (arith, q))))

-- The segment with the two bytes at index 16 zeroed.
abbrev pub zeroed : List ℕ → List ℕ
zeroed l4 = put_word 16 0 l4

-- Zeroing a word before it is overwritten makes no difference.
zeroed-put_word : (c : ℕ) (l : List ℕ) → put_word 16 c (zeroed l) ≡ put_word 16 c l
zeroed-put_word c l =
    ap (λ (q : List ℕ). set q 17 (c % 256))
      (set_comm (set l 16 0) 17 16 0 (c / 256) (omega arith)
        ∙ ap (λ (q : List ℕ). set q 17 0) (set-set l 16 0 (c / 256)))
    ∙ set-set (set l 16 (c / 256)) 17 0 (c % 256)

zeroed_zero :
    (l : List ℕ) → 18 ≤ length l → (get_or (zeroed l) 16 0 ≡ 0) × (get_or (zeroed l) 17 0 ≡ 0)
zeroed_zero l h = (
  get_or-set_ne (set l 16 0) 17 16 0 0 (omega arith) ∙ get_or-set_self l 16 0 0 (omega arith),
  get_or-set_self (set l 16 0) 17 0 0 (omega (arith, length-set l 16 0)),
)

module _ (a b c d e f g h : ℕ) where
  abbrev pub src_octets : List ℕ
  src_octets = a ∷ b ∷ c ∷ d ∷ []

  abbrev pub dst_octets : List ℕ
  dst_octets = e ∷ f ∷ g ∷ h ∷ []

  pub transport_checksum-checksum :
      (proto : ℕ) (l4 : List ℕ)
      → length l4 ≢ 17
      → transport_checksum src_octets dst_octets proto l4
        ≡ checksum (pseudo_header src_octets dst_octets proto l4 ++ zeroed l4)
  unfolding transport_checksum checksum pseudo_header sum_words
  transport_checksum-checksum proto l4 h = rw (sum_segment_before 8 0 _ l4 refl h)

  transport_verifies_before :
      (proto : ℕ) (l4 : List ℕ)
      → IsBytes src_octets
      → IsBytes dst_octets
      → proto < 256
      → IsBytes l4
      → 18 ≤ length l4
      → length l4 ≤ 2 ^ 16
      → checksum (
          pseudo_header src_octets dst_octets proto l4
          ++ put_word 16 (transport_checksum src_octets dst_octets proto l4) l4)
        ≡ 0
  unfolding pseudo_header
  transport_verifies_before proto l4 bs bd bp bytes long fits =
      let z = zeroed l4 in
      let ph = pseudo_header src_octets dst_octets proto l4 in
      let n : length z ≡ length l4 = length-put_word 16 0 l4 in
      let zb : IsBytes z = put_word-IsBytes 16 0 l4 (omega arith) bytes in
      let zs = zeroed_zero l4 long in
      let all : IsBytes (ph ++ z) = (
        bs.0,
        (
          bs.1.0,
          (
            bs.1.1.0,
            (
              bs.1.1.1.0,
              (
                bd.0,
                (
                  bd.1.0,
                  (bd.1.1.0, (bd.1.1.1.0, (omega arith, (bp, (omega arith, (omega arith, zb)))))),
                ),
              ),
            ),
          ),
        ),
      ) in
      rw
        (
          transport_checksum-checksum proto l4 (λ q. absurd (omega (arith, q))),
          ← zeroed-put_word (checksum (ph ++ z)) l4,
        )
        (checksum-put_word 14 (ph ++ z) all (omega (arith, n)) (omega (arith, n)) zs.0 zs.1)

  pseudo_header-put_word :
      (proto i c : ℕ) (l4 : List ℕ)
      → pseudo_header src_octets dst_octets proto (put_word i c l4)
        ≡ pseudo_header src_octets dst_octets proto l4
  unfolding pseudo_header
  pseudo_header-put_word proto i c l4 = rw (length-put_word i c l4)

  -- A segment with its transport checksum at byte 16 verifies behind its pseudo-header.
  pub transport_verifies :
      (proto : ℕ) (l4 filled : List ℕ)
      → filled ≡ put_word 16 (transport_checksum src_octets dst_octets proto l4) l4
      → IsBytes src_octets
      → IsBytes dst_octets
      → proto < 256
      → IsBytes l4
      → 18 ≤ length l4
      → length l4 ≤ 2 ^ 16
      → checksum (pseudo_header src_octets dst_octets proto filled ++ filled) ≡ 0
  transport_verifies proto l4 filled e bs bd bp bytes long fits =
      rw (e, pseudo_header-put_word) (transport_verifies_before proto l4 bs bd bp bytes long fits)
