-- ===== src/Rewrite/Frame.antt =====
-- Which bytes a rewrite changes, and what it stores there.
use netmux.Prelude.{
  ℕ, zero, suc, ◌%◌, ◌+◌, ◌≤◌, ◌<◌, ◌^◌, ◌≡◌, ◌≢◌, refl, ◌∙◌, ap, List, [], ◌∷◌, ◌&&◌, leb, length,
  arith, set, take, overwrite, length-set, length-take, IsByte, IsBytes, All-set, All-take,
  Bool-cases, inl, inr, get_or-set_ne, get_or-set_self, take-set, take-set_above, get_or-take,
}
use netmux.Checksum.{checksum}
use netmux.Checksum.Verify.{put_word, length-put_word, checksum-put_word}
use netmux.Ipv4.{Ipv4Addr, octets}
use netmux.Rewrite.{has_ports}
use netmux.Rewrite.Closed.{byte, address_at, blank, header_fixed, transport_fixed}

pub byte-put_word :
    (i c j : ℕ) (p : List ℕ) → j ≢ i → j ≢ suc i → byte (put_word i c p) j ≡ byte p j
byte-put_word i c j p n m =
    get_or-set_ne _ (suc i) j _ 0 (λ e. m (omega arith))
    ∙ get_or-set_ne p i j _ 0 (λ e. n (omega arith))

pub byte-overwrite_outside :
    (i j : ℕ) (src p : List ℕ) → (j < i) → byte (overwrite i src p) j ≡ byte p j
byte-overwrite_outside i j [] p h = refl
byte-overwrite_outside i j (x ∷ src) p h =
    byte-overwrite_outside (suc i) j src (set p i x) (omega arith)
    ∙ get_or-set_ne p i j x 0 (omega arith)

pub byte-overwrite_above :
    (i j : ℕ) (src p : List ℕ) → i + length src ≤ j → byte (overwrite i src p) j ≡ byte p j
byte-overwrite_above i j [] p h = refl
byte-overwrite_above i j (x ∷ src) p h =
    byte-overwrite_above (suc i) j src (set p i x) (omega arith)
    ∙ get_or-set_ne p i j x 0 (omega arith)

pub byte-overwrite_inside :
    (i j : ℕ) (src p : List ℕ)
    → j < length src
    → i + length src ≤ length p
    → byte (overwrite i src p) (i + j) ≡ byte src j
byte-overwrite_inside i j [] p h k = absurd (omega arith)
byte-overwrite_inside i zero (x ∷ src) p h k =
    let e : i + 0 ≡ i = omega arith in
    rw e (
      byte-overwrite_outside (suc i) i src (set p i x) (omega arith)
      ∙ get_or-set_self p i x 0 (omega arith))
byte-overwrite_inside i (suc j) (x ∷ src) p h k =
    let e : i + suc j ≡ suc i + j = omega arith in
    rw e (
      byte-overwrite_inside (suc i) j src (set p i x) (omega arith)
        (omega (arith, length-set p i x)))

pub overwrite-IsBytes :
    (i : ℕ) (src p : List ℕ) → IsBytes src → IsBytes p → IsBytes (overwrite i src p)
overwrite-IsBytes i [] p h k = k
overwrite-IsBytes i (x ∷ src) p h k =
    overwrite-IsBytes (suc i) src (set p i x) h.1 (All-set IsByte p i x h.0 k)

-- The four bytes that were just written.
pub address_at-overwrite :
    (i : ℕ) (ip : Ipv4Addr) (p : List ℕ)
    → i + 4 ≤ length p
    → address_at (overwrite i (octets ip) p) i ≡ octets ip
address_at-overwrite i ip p h =
    let w = overwrite i (octets ip) p in
    let e : byte w i ≡ ip.a =
      ap (λ (k : ℕ). byte w k) (omega arith)
      ∙ byte-overwrite_inside i 0 (octets ip) p (omega arith) h in
    ground (
      arith,
      e,
      byte-overwrite_inside i 1 (octets ip) p,
      byte-overwrite_inside i 2 (octets ip) p,
      byte-overwrite_inside i 3 (octets ip) p,
    )

pub byte-header_fixed :
    (ihl j : ℕ) (p : List ℕ) → j ≢ 10 → j ≢ 11 → byte (header_fixed ihl p) j ≡ byte p j
byte-header_fixed ihl j p n m =
    byte-put_word 10 _ j (blank p) n m
    ∙ get_or-set_ne (set p 10 0) 11 j 0 0 (λ e. m (omega arith))
    ∙ get_or-set_ne p 10 j 0 0 (λ e. n (omega arith))

pub byte-transport_fixed :
    (ihl j : ℕ) (src dst p : List ℕ)
    → j ≢ ihl + 16
    → j ≢ ihl + 17
    → byte (transport_fixed ihl src dst p) j ≡ byte p j
byte-transport_fixed ihl j src dst p n m =
    elim (Bool-cases (has_ports (byte p 9) && leb (ihl + 18) (length p))) [
      | inl e ↦ rw e (byte-put_word (ihl + 16) _ j p n (λ q. m (omega arith)))
      | inr e ↦ rw e refl
    ]

pub length-transport_fixed :
    (ihl : ℕ) (src dst p : List ℕ) → length (transport_fixed ihl src dst p) ≡ length p
length-transport_fixed ihl src dst p =
    elim (Bool-cases (has_ports (byte p 9) && leb (ihl + 18) (length p))) [
      | inl e ↦ rw e (length-put_word (ihl + 16) _ p)
      | inr e ↦ rw e refl
    ]

pub take-transport_fixed :
    (ihl : ℕ) (src dst p : List ℕ) → take ihl (transport_fixed ihl src dst p) ≡ take ihl p
take-transport_fixed ihl src dst p =
    elim (Bool-cases (has_ports (byte p 9) && leb (ihl + 18) (length p))) [
      | inl e ↦ rw e (
          take-set_above ihl _ (suc (ihl + 16)) _ (omega arith)
          ∙ take-set_above ihl p (ihl + 16) _ (omega arith))
      | inr e ↦ rw e refl
    ]

take-put_word : (n i c : ℕ) (p : List ℕ) → take n (put_word i c p) ≡ put_word i c (take n p)
take-put_word n i c p =
    take-set n _ (suc i) _ ∙ ap (λ (q : List ℕ). set q (suc i) (c % 256)) (take-set n p i _)

blank-IsBytes : (p : List ℕ) → IsBytes p → IsBytes (blank p)
blank-IsBytes p b =
    All-set IsByte (set p 10 0) 11 0 (omega arith) (All-set IsByte p 10 0 (omega arith) b)

length-take_below : (n : ℕ) (p : List ℕ) → n ≤ length p → length (take n p) ≡ n
length-take_below n p h = omega (arith, length-take n p)

byte-blank :
    (ihl : ℕ) (p : List ℕ)
    → 20 ≤ ihl
    → 20 ≤ length p
    → (byte (take ihl (blank p)) 10 ≡ 0) × (byte (take ihl (blank p)) 11 ≡ 0)
byte-blank ihl p h k = (
  get_or-take ihl (blank p) 10 0 (omega arith)
      ∙ get_or-set_ne (set p 10 0) 11 10 0 0 (omega arith)
      ∙ get_or-set_self p 10 0 0 (omega arith),
  get_or-take ihl (blank p) 11 0 (omega arith)
      ∙ get_or-set_self (set p 10 0) 11 0 0 (omega (arith, length-set p 10 0)),
)

-- The header of a fixed packet verifies, and the transport checksum leaves it alone.
pub checksum-header_fixed :
    (ihl : ℕ) (p : List ℕ)
    → IsBytes p
    → 20 ≤ ihl
    → ihl ≤ length p
    → length p ≤ 2 ^ 16
    → checksum (take ihl (header_fixed ihl p)) ≡ 0
checksum-header_fixed ihl p b h k fits =
    let t = take ihl (blank p) in
    let n : length t ≡ ihl =
      length-take_below ihl (blank p)
        (omega (arith, length-set (set p 10 0) 11 0, length-set p 10 0)) in
    let z = byte-blank ihl p h (omega arith) in
    rw (take-put_word ihl 10 (checksum t) (blank p)) (
      checksum-put_word 5 t (All-take IsByte ihl (blank p) (blank-IsBytes p b)) (omega (arith, n))
        (omega (arith, n)) z.0 z.1)
