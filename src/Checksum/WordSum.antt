-- ===== src/Checksum/WordSum.antt =====
-- The total of the 16-bit words of a buffer, without wrap, and what storing bytes does to it.
use netmux.Prelude.{
  ℕ, zero, suc, ◌+◌, ◌-◌, ◌*◌, ◌%◌, ◌^◌, ◌≤◌, ◌<◌, ◌≡◌, refl, ◌∙◌, arith, List, [], ◌∷◌, length,
  get_or, set, IsBytes,
}
use netmux.Checksum.{sum_words, checksum}
use netmux.Checksum.Fold.{residue, fold_carries-residue}

-- The big-endian words of a buffer added up; an odd last byte counts as a high byte.
abbrev pub word_sum : List ℕ → ℕ
word_sum [] = 0
word_sum (a ∷ []) = a * 256
word_sum (a ∷ b ∷ rest) = a * 256 + b + word_sum rest

pub word_sum_bound : (l : List ℕ) → IsBytes l → 2 * word_sum l ≤ 65535 * (length l + 1)
word_sum_bound [] h = omega arith
word_sum_bound (a ∷ []) h = omega arith
word_sum_bound (a ∷ b ∷ rest) h = omega (arith, word_sum_bound rest h.1.1)

pub sum_words-word_sum :
    (s : ℕ) (l : List ℕ) → IsBytes l → s + word_sum l < 2 ^ 32 → sum_words s l ≡ s + word_sum l
unfolding sum_words
sum_words-word_sum s [] h b = omega arith
sum_words-word_sum s (x ∷ []) h b = omega arith
sum_words-word_sum s (x ∷ y ∷ rest) h b =
    let e : (s + (x * 256 + y)) % 2 ^ 32 ≡ s + (x * 256 + y) = omega arith in
    rw e (sum_words-word_sum (s + (x * 256 + y)) rest h.1.1 (omega arith) ∙ omega arith)

-- Over at most 2 ^ 16 + 12 bytes the accumulator does not wrap, and the checksum is the complement
-- of the end-around sum of the 16-bit words.
pub checksum-residue :
    (l : List ℕ) → IsBytes l → length l ≤ 2 ^ 16 + 12 → checksum l ≡ 65535 - residue (word_sum l)
unfolding checksum
checksum-residue l h b =
    let fits : 0 + word_sum l < 2 ^ 32 = omega (arith, word_sum_bound l h) in
    let e : sum_words 0 l ≡ word_sum l = sum_words-word_sum 0 l h fits ∙ omega arith in
    rw e (ground (arith, fold_carries-residue 1 (word_sum l)))

-- Index `double k` holds the high byte of word `k`.
abbrev pub double : ℕ → ℕ
double zero = 0
double (suc k) = suc (suc (double k))

pub double_lem : (k : ℕ) → double k ≡ 2 * k
double_lem zero = refl
double_lem (suc k) = omega (arith, double_lem k)

pub word_sum-set_high :
    (k : ℕ) (l : List ℕ) (v : ℕ)
    → double k < length l
    → word_sum (set l (double k) v) + get_or l (double k) 0 * 256 ≡ word_sum l + v * 256
word_sum-set_high k [] v h = absurd (omega arith)
word_sum-set_high zero (a ∷ []) v h = omega arith
word_sum-set_high zero (a ∷ b ∷ rest) v h = omega arith
word_sum-set_high (suc k) (a ∷ []) v h = absurd (omega arith)
word_sum-set_high (suc k) (a ∷ b ∷ rest) v h =
    omega (arith, word_sum-set_high k rest v (omega arith))

pub word_sum-set_low :
    (k : ℕ) (l : List ℕ) (v : ℕ)
    → suc (double k) < length l
    → word_sum (set l (suc (double k)) v) + get_or l (suc (double k)) 0 ≡ word_sum l + v
word_sum-set_low k [] v h = absurd (omega arith)
word_sum-set_low zero (a ∷ []) v h = absurd (omega arith)
word_sum-set_low zero (a ∷ b ∷ rest) v h = omega arith
word_sum-set_low (suc k) (a ∷ []) v h = absurd (omega arith)
word_sum-set_low (suc k) (a ∷ b ∷ rest) v h = omega (arith, word_sum-set_low k rest v (omega arith))
