-- ===== src/Prelude/Panics.antt =====
-- Code that may panic: indexing, slicing and copying into a slice, with Rust's bounds checks.
use Prim.Native.Nat.{ℕ, zero, suc, ◌+◌, ◌-◌, ◌≤◌, ◌<◌}
use mathlib.Core.Path.{◌≡◌, refl}
use mathlib.Core.Logic.{◌≢◌}
use mathlib.Core.Bool.{◌&&◌}
use mathlib.Core.List.{List, [], ◌∷◌}
use native.Mathlib.Omega.{arith}
use netmux.Prelude.Tests.{ltb, leb, if◌then◌else◌, lt→ltb, le→leb}
use netmux.Prelude.Lists.{length, get_or, set, take, drop, length-set}

pub data Run {ℓ} (A : Type ℓ) : Type ℓ where
  done : A → Run A
  panic : Run A

infixl 5 ◌>>=◌
abbrev pub ◌>>=◌ {ℓ κ} : {A : Type ℓ} {B : Type κ} → Run A → (A → Run B) → Run B
done a >>= f = f a
panic >>= f = panic

-- The run returns a value.
abbrev pub Returns {ℓ} : {A : Type ℓ} → Run A → Type 0
Returns (done a) = Unit
Returns panic = ⊥

pub Returns-bind {ℓ κ} :
    {A : Type ℓ} {B : Type κ} (m : Run A) (f : A → Run B)
    → Returns m
    → ((a : A) → Returns (f a))
    → Returns (m >>= f)
Returns-bind (done a) f h k = k a
Returns-bind panic f h k = h

pub Returns-ne-panic {ℓ} : {A : Type ℓ} (m : Run A) → Returns m → m ≢ panic
Returns-ne-panic (done a) h = λ e. cc
Returns-ne-panic panic h = absurd h

-- The run returns a value with the property.
abbrev pub Ensures {ℓ} : {A : Type ℓ} → (A → Type 0) → Run A → Type 0
Ensures P (done a) = P a
Ensures P panic = ⊥

pub Ensures-bind {ℓ κ} :
    {A : Type ℓ} {B : Type κ} (P : A → Type 0) (Q : B → Type 0) (m : Run A) (f : A → Run B)
    → Ensures P m
    → ((a : A) → P a → Ensures Q (f a))
    → Ensures Q (m >>= f)
Ensures-bind P Q (done a) f h k = k a h
Ensures-bind P Q panic f h k = h

pub Ensures-both {ℓ} :
    {A : Type ℓ} (P Q : A → Type 0) (m : Run A)
    → Ensures P m
    → Ensures Q m
    → Ensures (λ a. P a × Q a) m
Ensures-both P Q (done a) h k = (h, k)
Ensures-both P Q panic h k = h

module _ {ℓ} {A : Type ℓ} where
  -- `xs[i]`
  unfoldable pub index : List A → ℕ → Run A
  index [] i = panic
  index (x ∷ xs) zero = done x
  index (x ∷ xs) (suc i) = index xs i

  -- `&xs[a..b]`
  unfoldable pub slice : List A → ℕ → ℕ → Run (List A)
  slice xs a b = if leb a b && leb b (length xs) then done (take (b - a) (drop a xs)) else panic

  -- `&xs[..b]` and `&xs[a..]`
  unfoldable pub slice_to : List A → ℕ → Run (List A)
  slice_to xs b = if leb b (length xs) then done (take b xs) else panic

  unfoldable pub slice_from : List A → ℕ → Run (List A)
  slice_from xs a = if leb a (length xs) then done (drop a xs) else panic

  -- The elements of `src` written into `dst` from index `i` on.
  abbrev pub overwrite : ℕ → List A → List A → List A
  overwrite i [] dst = dst
  overwrite i (x ∷ src) dst = overwrite (suc i) src (set dst i x)

  -- `dst[i..i + src.len()].copy_from_slice(src)`
  unfoldable pub copy_at : ℕ → List A → List A → Run (List A)
  copy_at i src dst =
      if leb (i + length src) (length dst) then done (overwrite i src dst) else panic

  -- `dst[i] = v`
  unfoldable pub store : ℕ → A → List A → Run (List A)
  store i v dst = if ltb i (length dst) then done (set dst i v) else panic

  pub index-get_or :
      (xs : List A) (i : ℕ) (d : A) → i < length xs → index xs i ≡ done (get_or xs i d)
  unfolding index
  index-get_or [] i d h = absurd (omega arith)
  index-get_or (x ∷ xs) zero d h = refl
  index-get_or (x ∷ xs) (suc i) d h = index-get_or xs i d (omega arith)

  pub slice_in_range :
      (xs : List A) (a b : ℕ)
      → a ≤ b
      → b ≤ length xs
      → slice xs a b ≡ done (take (b - a) (drop a xs))
  unfolding slice
  slice_in_range xs a b h k = rw (le→leb _ _ h, le→leb _ _ k)

  pub slice_to_in_range : (xs : List A) (b : ℕ) → b ≤ length xs → slice_to xs b ≡ done (take b xs)
  unfolding slice_to
  slice_to_in_range xs b h = rw (le→leb _ _ h)

  pub slice_from_in_range :
      (xs : List A) (a : ℕ) → a ≤ length xs → slice_from xs a ≡ done (drop a xs)
  unfolding slice_from
  slice_from_in_range xs a h = rw (le→leb _ _ h)

  pub copy_at_in_range :
      (i : ℕ) (src dst : List A)
      → i + length src ≤ length dst
      → copy_at i src dst ≡ done (overwrite i src dst)
  unfolding copy_at
  copy_at_in_range i src dst h = rw (le→leb _ _ h)

  pub store_in_range :
      (i : ℕ) (v : A) (dst : List A) → i < length dst → store i v dst ≡ done (set dst i v)
  unfolding store
  store_in_range i v dst h = rw (lt→ltb _ _ h)

  pub length-overwrite : (i : ℕ) (src dst : List A) → length (overwrite i src dst) ≡ length dst
  length-overwrite i [] dst = refl
  length-overwrite i (x ∷ src) dst =
      omega (arith, length-overwrite (suc i) src (set dst i x), length-set dst i x)
