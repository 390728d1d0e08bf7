-- ===== src/Policy/Pool.antt =====
-- The weighted pool: it holds only the candidates it was made of, each in proportion to its weight.
use netmux.Prelude.{
  ℕ, zero, suc, ◌+◌, ◌*◌, ◌^◌, ◌≤◌, ◌<◌, ◌≡◌, refl, ◌∙◌, inl, inr, List, [], ◌∷◌, Bool,
  if◌then◌else◌, replicate, arith,
}
use netmux.Prelude.Sorting.{In, count, In-sort_by, count-sort_by, In-append, count-append}
use netmux.Float.Rounded.{to_f64_exact}
use netmux.Policy.{
  CandidateIface, weight_of, total_weight, copies, fill_pool, by_name, weighted_pool,
}

factor_lt : (a b c : ℕ) → a * b < c → 0 < b → a < c
factor_lt a zero c h k = absurd (omega arith)
factor_lt a (suc b) c h k = let e : a * suc b ≡ a + a * b = grind arith in omega (arith, e)

-- Below 2 ^ 52 the product and the half that is added are exact.
copies-mul : (total w : ℕ) → 0 < total → 0 < w → total * w < 2 ^ 52 → copies total w ≡ total * w
unfolding copies
copies-mul total w h k small =
    let first : total < 2 ^ 52 = factor_lt total w (2 ^ 52) small k in
    let e : w * total ≡ total * w = grind arith in
    let second : w < 2 ^ 52 = factor_lt w total (2 ^ 52) (omega (arith, e)) h in
    let some_one : 0 < total * w = grind arith in
    rw
      (
        to_f64_exact total (omega arith),
        to_f64_exact w (omega arith),
        to_f64_exact (total * w) (omega arith),
        to_f64_exact (2 * (total * w) + 1) (omega arith),
      )
      (grind arith)

share_lt : (total w sum : ℕ) → w ≤ sum → total * sum < 2 ^ 52 → total * w < 2 ^ 52
share_lt total w sum le h = let m : total * w ≤ total * sum = grind arith in omega arith

module _ {F : Type 0} where
  In-replicate : (n : ℕ) (a c : CandidateIface F) → In a (replicate n c) → a ≡ c
  In-replicate zero a c h = absurd h
  In-replicate (suc n) a c (inl e) = e
  In-replicate (suc n) a c (inr h) = In-replicate n a c h

  In-fill_pool :
      (total : ℕ) (a : CandidateIface F) (l : List (CandidateIface F))
      → In a (fill_pool total l)
      → In a l
  unfolding fill_pool
  In-fill_pool total a [] h = h
  In-fill_pool total a (c ∷ rest) h = ground (
    arith,
    In-append a (replicate (copies total (weight_of c)) c) (fill_pool total rest) h,
    In-replicate (copies total (weight_of c)) a c,
    In-fill_pool total a rest,
  )

  -- Every candidate of the pool is one of the list.
  pub In-weighted_pool :
      (a : CandidateIface F) (l : List (CandidateIface F)) → In a (weighted_pool l) → In a l
  In-weighted_pool a l h =
      In-fill_pool (total_weight l) a l
        (In-sort_by by_name a (fill_pool (total_weight l) l) (unfold weighted_pool in h))

  -- The weights added up without wrap, and those of the candidates that pass a test.
  abbrev pub weight_sum : List (CandidateIface F) → ℕ
  weight_sum [] = 0
  weight_sum (c ∷ rest) = weight_of c + weight_sum rest

  abbrev pub weight_share : (CandidateIface F → Bool) → List (CandidateIface F) → ℕ
  weight_share p [] = 0
  weight_share p (c ∷ rest) = (if p c then weight_of c else 0) + weight_share p rest

  pub total_weight-weight_sum :
      (l : List (CandidateIface F)) → weight_sum l < 2 ^ 64 → total_weight l ≡ weight_sum l
  unfolding total_weight
  total_weight-weight_sum [] h = refl
  total_weight-weight_sum (c ∷ rest) h = omega (arith, total_weight-weight_sum rest)

  count-replicate :
      (p : CandidateIface F → Bool) (n : ℕ) (c : CandidateIface F)
      → count p (replicate n c) ≡ (if p c then n else 0)
  count-replicate p zero c = ground arith
  count-replicate p (suc n) c = ground (arith, count-replicate p n c)

  count-fill_pool :
      (p : CandidateIface F → Bool) (total : ℕ) (l : List (CandidateIface F))
      → 0 < total
      → total * weight_sum l < 2 ^ 52
      → count p (fill_pool total l) ≡ total * weight_share p l
  unfolding fill_pool
  count-fill_pool p total [] h k = omega arith
  count-fill_pool p total (c ∷ rest) h k = ground (
    arith,
    count-append p (replicate (copies total (weight_of c)) c) (fill_pool total rest),
    count-replicate p (copies total (weight_of c)) c,
    copies-mul total (weight_of c) h (omega arith)
        (share_lt total (weight_of c) (weight_sum (c ∷ rest)) (omega arith) k),
    count-fill_pool p total rest h
        (share_lt total (weight_sum rest) (weight_sum (c ∷ rest)) (omega arith) k),
  )

  -- If the square of the summed weights is below 2 ^ 52, the pool of one or more candidates holds
  -- those that pass any test `total * share` times, where `share` is the sum of their weights: each
  -- stands in it in exact proportion to its weight.
  pub count-weighted_pool :
      (p : CandidateIface F → Bool) (c : CandidateIface F) (l : List (CandidateIface F))
      → weight_sum (c ∷ l) * weight_sum (c ∷ l) < 2 ^ 52
      → count p (weighted_pool (c ∷ l)) ≡ weight_sum (c ∷ l) * weight_share p (c ∷ l)
  unfolding weighted_pool
  count-weighted_pool p c l h =
      let small : weight_sum (c ∷ l) < 2 ^ 52 =
        factor_lt (weight_sum (c ∷ l)) (weight_sum (c ∷ l)) (2 ^ 52) h (omega arith) in
      count-sort_by by_name p (fill_pool (total_weight (c ∷ l)) (c ∷ l))
      ∙ rw (total_weight-weight_sum (c ∷ l) (omega arith))
          (count-fill_pool p (weight_sum (c ∷ l)) (c ∷ l) (omega arith) h)
