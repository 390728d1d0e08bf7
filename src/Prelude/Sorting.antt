-- ===== src/Prelude/Sorting.antt =====
-- Filtering by a Boolean test, membership, counting, and the stable sort of `slice::sort_by`.
use Prim.Native.Nat.{ℕ, suc, ◌+◌}
use mathlib.Core.Path.{◌≡◌, refl, ap, ◌∙◌}
use mathlib.Core.Logic.{◌⊎◌, inl, inr}
use mathlib.Core.Bool.{Bool, true}
use mathlib.Core.Option.{Option, none, some}
use mathlib.Core.List.{List, [], ◌∷◌, ◌++◌}
use native.Mathlib.Omega.{arith}
use netmux.Prelude.Tests.{if◌then◌else◌}
use netmux.Prelude.Lists.{length}

module _ {A : Type 0} where
  -- `x` is one of the elements.
  abbrev pub In : A → List A → Type 0
  In x [] = ⊥
  In x (y ∷ ys) = (x ≡ y) ⊎ In x ys

  abbrev pub first : List A → Option A
  first [] = none
  first (x ∷ xs) = some x

  -- How many elements pass the test.
  abbrev pub count : (A → Bool) → List A → ℕ
  count p [] = 0
  count p (x ∷ xs) = (if p x then 1 else 0) + count p xs

  -- `iter().filter(p).collect()`
  unfoldable pub filter : (A → Bool) → List A → List A
  filter p [] = []
  filter p (x ∷ xs) = let rest = filter p xs in if p x then x ∷ rest else rest

  pub In-filter : (p : A → Bool) (a : A) (xs : List A) → In a (filter p xs) → In a xs × (p a ≡ true)
  unfolding filter
  In-filter p a [] h = absurd h
  In-filter p a (x ∷ xs) h = ground (arith, In-filter p a xs)

  pub In-filter_of_In :
      (p : A → Bool) (a : A) (xs : List A) → In a xs → p a ≡ true → In a (filter p xs)
  unfolding filter
  In-filter_of_In p a [] h k = absurd h
  In-filter_of_In p a (x ∷ xs) h k = ground (arith, In-filter_of_In p a xs)

  pub In-append : (a : A) (xs ys : List A) → In a (xs ++ ys) → In a xs ⊎ In a ys
  In-append a [] ys h = inr h
  In-append a (x ∷ xs) ys (inl e) = inl (inl e)
  In-append a (x ∷ xs) ys (inr h) = ground (arith, In-append a xs ys h)

  pub count-append : (p : A → Bool) (xs ys : List A) → count p (xs ++ ys) ≡ count p xs + count p ys
  count-append p [] ys = omega arith
  count-append p (x ∷ xs) ys = omega (arith, count-append p xs ys)

module _ {A : Type 0} (le : A → A → Bool) where
  -- `x` stands before the elements that it is not above, so equal elements keep their order.
  unfoldable pub insert_sorted : A → List A → List A
  insert_sorted x [] = x ∷ []
  insert_sorted x (y ∷ ys) =
      let rest = insert_sorted x ys in if le x y then x ∷ y ∷ ys else y ∷ rest

  unfoldable pub sort_by : List A → List A
  unfolding insert_sorted
  sort_by [] = []
  sort_by (x ∷ xs) = insert_sorted x (sort_by xs)

  In-insert_sorted : (a x : A) (ys : List A) → In a (insert_sorted x ys) → (a ≡ x) ⊎ In a ys
  unfolding insert_sorted
  In-insert_sorted a x [] h = h
  In-insert_sorted a x (y ∷ ys) h = ground (arith, In-insert_sorted a x ys)

  -- Sorting adds no element.
  pub In-sort_by : (a : A) (xs : List A) → In a (sort_by xs) → In a xs
  In-sort_by a [] h = unfold sort_by in h
  In-sort_by a (x ∷ xs) h =
      ground (arith, In-insert_sorted a x (sort_by xs) (unfold sort_by in h), In-sort_by a xs)

  count-insert_sorted :
      (p : A → Bool) (x : A) (ys : List A) → count p (insert_sorted x ys) ≡ count p (x ∷ ys)
  unfolding insert_sorted
  count-insert_sorted p x [] = refl
  count-insert_sorted p x (y ∷ ys) = ground (arith, count-insert_sorted p x ys)

  -- Sorting keeps every element as often as it was there.
  pub count-sort_by : (p : A → Bool) (xs : List A) → count p (sort_by xs) ≡ count p xs
  unfolding sort_by
  count-sort_by p [] = refl
  count-sort_by p (x ∷ xs) = omega (arith, count-insert_sorted p x (sort_by xs), count-sort_by p xs)

  length-insert_sorted : (x : A) (ys : List A) → length (insert_sorted x ys) ≡ suc (length ys)
  unfolding insert_sorted
  length-insert_sorted x [] = refl
  length-insert_sorted x (y ∷ ys) = ground (arith, length-insert_sorted x ys)

  pub length-sort_by : (xs : List A) → length (sort_by xs) ≡ length xs
  unfolding sort_by
  length-sort_by [] = refl
  length-sort_by (x ∷ xs) = length-insert_sorted x (sort_by xs) ∙ ap suc (length-sort_by xs)

  -- The first of two, by the order, a tie going to the one on the left.
  abbrev pub better : A → Option A → Option A
  better x none = some x
  better x (some y) = if le x y then some x else some y

  first-insert_sorted : (x : A) (ys : List A) → first (insert_sorted x ys) ≡ better x (first ys)
  unfolding insert_sorted
  first-insert_sorted x [] = refl
  first-insert_sorted x (y ∷ ys) = ground arith

  pub first-sort_by :
      (x : A) (xs : List A) → first (sort_by (x ∷ xs)) ≡ better x (first (sort_by xs))
  unfolding sort_by
  first-sort_by x xs = first-insert_sorted x (sort_by xs)
