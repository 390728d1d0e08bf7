-- ===== src/Prelude/Buffers.antt =====
-- A buffer that a call fills from its start, and the part of it that was filled.
use Prim.Native.Nat.{ℕ, zero, suc, ◌+◌, ◌-◌, ◌≤◌}
use mathlib.Core.Path.{◌≡◌, refl, ap, ◌∙◌}
use mathlib.Core.Bool.{◌&&◌}
use mathlib.Core.List.{List, [], ◌∷◌, ◌++◌, append_assoc}
use native.Mathlib.Omega.{arith}
use netmux.Prelude.Tests.{leb, if◌then◌else◌, le→leb}
use netmux.Prelude.Lists.{All, All-set, replicate, length, set, take, drop, length-append}
use netmux.Prelude.Panics.{Run, done, panic, overwrite, slice_to, length-overwrite}

module _ {ℓ} {A : Type ℓ} where
  -- `buf.copy_within(a..b, 0)`
  unfoldable pub copy_within : ℕ → ℕ → List A → Run (List A)
  copy_within a b buf =
      if leb a b && leb b (length buf)
      then done (overwrite 0 (take (b - a) (drop a buf)) buf)
      else panic

  overwrite-suc :
      (i : ℕ) (x : A) (src dst : List A) → overwrite (suc i) src (x ∷ dst) ≡ x ∷ overwrite i src dst
  overwrite-suc i x [] dst = refl
  overwrite-suc i x (y ∷ src) dst = overwrite-suc (suc i) x src (set dst i y)

  -- Writing at the start replaces as many elements as are written.
  pub overwrite_zero :
      (src dst : List A)
      → length src ≤ length dst
      → overwrite 0 src dst ≡ src ++ drop (length src) dst
  overwrite_zero [] dst h = refl
  overwrite_zero (x ∷ src) [] h = absurd (omega arith)
  overwrite_zero (x ∷ src) (y ∷ dst) h =
      overwrite-suc 0 x src dst ∙ ap (◌∷◌ x) (overwrite_zero src dst (omega arith))

  pub take-append : (xs ys : List A) → take (length xs) (xs ++ ys) ≡ xs
  take-append [] ys = refl
  take-append (x ∷ xs) ys = ap (◌∷◌ x) (take-append xs ys)

  pub take-append_short : (n : ℕ) (xs ys : List A) → n ≤ length xs → take n (xs ++ ys) ≡ take n xs
  take-append_short zero xs ys h = refl
  take-append_short (suc n) [] ys h = absurd (omega arith)
  take-append_short (suc n) (x ∷ xs) ys h = ap (◌∷◌ x) (take-append_short n xs ys (omega arith))

  pub drop-append : (xs ys : List A) → drop (length xs) (xs ++ ys) ≡ ys
  drop-append [] ys = refl
  drop-append (x ∷ xs) ys = drop-append xs ys

  -- What was written is what a slice of that length holds.
  pub slice_to-overwrite :
      (src dst : List A)
      → length src ≤ length dst
      → slice_to (overwrite 0 src dst) (length src) ≡ done src
  unfolding slice_to
  slice_to-overwrite src dst h =
      rw
        (
          overwrite_zero src dst h,
          le→leb (length src) (length (src ++ drop (length src) dst))
              (omega (arith, length-append src (drop (length src) dst))),
          take-append,
        )
        refl

  pub drop_all : (n : ℕ) (xs : List A) → length xs ≤ n → drop n xs ≡ []
  drop_all zero [] h = refl
  drop_all (suc n) [] h = refl
  drop_all zero (x ∷ xs) h = absurd (omega arith)
  drop_all (suc n) (x ∷ xs) h = drop_all n xs (omega arith)

  -- Moving the tail of what was written to the start leaves that tail there.
  pub slice_to-copy_within :
      (head tail dst : List A)
      → length (head ++ tail) ≤ length dst
      → (buf : List A) × (copy_within
            (length head)
            (length (head ++ tail))
            (overwrite 0 (head ++ tail) dst)
          ≡ done buf)
        × (length buf ≡ length dst)
        × (slice_to buf (length tail) ≡ done tail)
  unfolding copy_within
  slice_to-copy_within head tail dst h =
      let n = length (head ++ tail) in
      let sum : n ≡ length head + length tail = length-append head tail in
      let whole : length (overwrite 0 (head ++ tail) dst) ≡ length dst =
        length-overwrite 0 (head ++ tail) dst in
      let moved : take (n - length head) (drop (length head) (overwrite 0 (head ++ tail) dst))
          ≡ tail =
        rw
          (
            overwrite_zero (head ++ tail) dst h,
            append_assoc head tail (drop n dst),
            drop-append head (tail ++ drop n dst),
          )
          (ap (λ (k : ℕ). take k (tail ++ drop n dst)) (omega arith)
            ∙ take-append tail (drop n dst)) in
      (
        overwrite 0 tail (overwrite 0 (head ++ tail) dst),
        rw
            (
              le→leb (length head) n (omega arith),
              le→leb n (length (overwrite 0 (head ++ tail) dst)) (omega arith),
              moved,
            )
            refl,
        length-overwrite 0 tail (overwrite 0 (head ++ tail) dst) ∙ whole,
        slice_to-overwrite tail (overwrite 0 (head ++ tail) dst) (omega arith),
      )

  pub All-overwrite {κ} :
      (P : A → Type κ) (i : ℕ) (src dst : List A)
      → All P src
      → All P dst
      → All P (overwrite i src dst)
  All-overwrite P i [] dst h k = k
  All-overwrite P i (x ∷ src) dst (p, h) k =
      All-overwrite P (suc i) src (set dst i x) h (All-set P dst i x p k)

  pub All-replicate {κ} : (P : A → Type κ) (n : ℕ) (a : A) → P a → All P (replicate n a)
  All-replicate P zero a p = tt
  All-replicate P (suc n) a p = (p, All-replicate P n a p)
