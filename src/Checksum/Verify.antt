-- ===== src/Checksum/Verify.antt =====
-- A buffer with its checksum stored in a field that held zero sums to 0xffff: it verifies.
use netmux.Prelude.{
  ℕ, suc, ◌+◌, ◌-◌, ◌*◌, ◌/◌, ◌%◌, ◌^◌, ◌≤◌, ◌<◌, ◌≡◌, ◌∙◌, arith, List, length, get_or, set,
  IsByte, IsBytes, length-set, All-set, get_or-set_ne,
}
use netmux.Checksum.{checksum}
use netmux.Checksum.Fold.{residue}
use netmux.Checksum.WordSum.{
  word_sum, checksum-residue, double, word_sum-set_high, word_sum-set_low,
}

-- The word `k` of a buffer overwritten by `c`, in network byte order.
abbrev pub put_word : ℕ → ℕ → List ℕ → List ℕ
put_word i c l = set (set l i (c / 256)) (suc i) (c % 256)

pub length-put_word : (i c : ℕ) (l : List ℕ) → length (put_word i c l) ≡ length l
length-put_word i c l =
    omega (arith, length-set (set l i (c / 256)) (suc i) (c % 256), length-set l i (c / 256))

pub put_word-IsBytes : (i c : ℕ) (l : List ℕ) → c < 2 ^ 16 → IsBytes l → IsBytes (put_word i c l)
put_word-IsBytes i c l h b =
    All-set IsByte _ (suc i) _ (omega arith) (All-set IsByte l i _ (omega arith) b)

pub word_sum-put_word :
    (k c : ℕ) (l : List ℕ)
    → suc (double k) < length l
    → word_sum (put_word (double k) c l) + get_or l (double k) 0 * 256 + get_or l (suc (double k)) 0
      ≡ word_sum l + c
word_sum-put_word k c l h = omega (
  arith,
  word_sum-set_high k l (c / 256) (omega arith),
  word_sum-set_low k (set l (double k) (c / 256)) (c % 256)
      (omega (arith, length-set l (double k) (c / 256))),
  get_or-set_ne l (double k) (suc (double k)) (c / 256) 0 (omega arith),
)

pub checksum-lt : (l : List ℕ) → checksum l < 2 ^ 16
unfolding checksum
checksum-lt l = omega arith

residue_complement : (s : ℕ) → residue (s + (65535 - residue s)) ≡ 65535
residue_complement s = ground arith

-- Bytes, at most 64 KiB and 12 of them, with their checksum stored in a word that held zero sum to
-- 0xffff: their checksum is then zero.
pub checksum-put_word :
    (k : ℕ) (l : List ℕ)
    → IsBytes l
    → length l ≤ 2 ^ 16 + 12
    → suc (double k) < length l
    → get_or l (double k) 0 ≡ 0
    → get_or l (suc (double k)) 0 ≡ 0
    → checksum (put_word (double k) (checksum l) l) ≡ 0
checksum-put_word k l b fits inside high low =
    let c = checksum l in
    let e : word_sum (put_word (double k) c l) ≡ word_sum l + (65535 - residue (word_sum l)) =
      omega (arith, word_sum-put_word k c l inside, checksum-residue l b fits) in
    let r : residue (word_sum (put_word (double k) c l)) ≡ 65535 =
      rw e (residue_complement (word_sum l)) in
    checksum-residue (put_word (double k) c l) (put_word-IsBytes (double k) c l (checksum-lt l) b)
      (omega (arith, length-put_word (double k) c l))
    ∙ omega (arith, r)
