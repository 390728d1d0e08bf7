-- ===== src/Policy/Liveness.antt =====
-- When `select_interface` finds an interface.
use netmux.Prelude.{
  ℕ, ◌%◌, ◌<◌, ◌≡◌, ◌≢◌, refl, ◌⊎◌, inl, inr, List, [], ◌∷◌, ◌++◌, Option, none, some, length,
  replicate, done, index-get_or, length-append, length-replicate, Ensures, Ensures-bind, arith,
}
use netmux.Prelude.Sorting.{filter, first, sort_by, length-sort_by}
use netmux.Text.{Text}
use netmux.Float.{Float}
use netmux.Policy.{
  CandidateIface, AggregatorConfig, Strategy, failover, load_balance, BalanceAlgorithm, round_robin,
  hash, least_loaded, is_usable, copies, weight_of, total_weight, fill_pool, by_name, by_priority,
  weighted_pool, name_of, pick_failover, pick_at, pick_balanced, pick, fnv1a, select_interface,
}

-- An interface is named.
abbrev pub IsNamed : Option Text → Type 0
IsNamed none = ⊥
IsNamed (some name) = Unit

abbrev pub IsFound : Option Text × ℕ → Type 0
IsFound r = IsNamed r.0

-- Failover, or a balancing that does not compare loads.
abbrev pub IsDecisive : AggregatorConfig → Type 0
IsDecisive cfg = (cfg.strategy ≡ failover) ⊎ (cfg.algorithm ≢ least_loaded)

module _ {F : Type 0} where
  length-weighted_pool :
      (c : CandidateIface F) (l : List (CandidateIface F)) → 0 < length (weighted_pool (c ∷ l))
  unfolding weighted_pool fill_pool
  length-weighted_pool c l =
      let n = copies (total_weight (c ∷ l)) (weight_of c) in
      let rest = fill_pool (total_weight (c ∷ l)) l in
      omega (
        arith,
        length-sort_by by_name (replicate n c ++ rest),
        length-append (replicate n c) rest,
        length-replicate n c,
      )

  IsNamed-first : (l : List (CandidateIface F)) → 0 < length l → IsNamed (name_of (first l))
  IsNamed-first [] h = absurd (omega arith)
  IsNamed-first (c ∷ l) h = tt

  IsNamed-pick_failover :
      (c : CandidateIface F) (l : List (CandidateIface F)) → IsNamed (pick_failover (c ∷ l))
  unfolding pick_failover
  IsNamed-pick_failover c l =
      IsNamed-first (sort_by by_priority (c ∷ l))
        (omega (arith, length-sort_by by_priority (c ∷ l)))

  IsNamed-pick_at :
      (l : List (CandidateIface F)) (i : ℕ) → 0 < length l → Ensures IsNamed (pick_at l i)
  unfolding pick_at
  IsNamed-pick_at [] i h = absurd (omega arith)
  IsNamed-pick_at (c ∷ l) i h =
      let k : i % length (c ∷ l) < length (c ∷ l) = grind arith in
      rw (index-get_or (c ∷ l) (i % length (c ∷ l)) c k) tt

module _ {F : Type 0} ⦃fl : Float F⦄ where
  IsFound-pick_balanced :
      (a : BalanceAlgorithm) (c : CandidateIface F) (l : List (CandidateIface F)) (key : Text)
      (rr : ℕ)
      → a ≢ least_loaded
      → Ensures IsFound (pick_balanced a (c ∷ l) key rr)
  unfolding pick_balanced
  IsFound-pick_balanced round_robin c l key rr h =
      Ensures-bind IsNamed IsFound (pick_at (weighted_pool (c ∷ l)) rr) _
        (IsNamed-pick_at (weighted_pool (c ∷ l)) rr (length-weighted_pool c l)) (λ o n. n)
  IsFound-pick_balanced hash c l key rr h =
      Ensures-bind IsNamed IsFound (pick_at (weighted_pool (c ∷ l)) (fnv1a key)) _
        (IsNamed-pick_at (weighted_pool (c ∷ l)) (fnv1a key) (length-weighted_pool c l)) (λ o n. n)
  IsFound-pick_balanced least_loaded c l key rr h = absurd (h refl)

  IsFound-pick :
      (cfg : AggregatorConfig) (c : CandidateIface F) (l : List (CandidateIface F)) (key : Text)
      (rr : ℕ)
      → IsDecisive cfg
      → Ensures IsFound (pick cfg (c ∷ l) key rr)
  unfolding pick
  IsFound-pick cfg c l key rr d = by_strategy cfg.strategy refl
    where
      by_strategy :
          (s : Strategy)
          → cfg.strategy ≡ s
          → Ensures IsFound (elim s [
            | failover ↦ done (pick_failover (c ∷ l), rr)
            | load_balance ↦ pick_balanced cfg.algorithm (c ∷ l) key rr
          ])
      by_strategy failover e = IsNamed-pick_failover c l
      by_strategy load_balance e = IsFound-pick_balanced cfg.algorithm c l key rr (balances d)
        where
          balances : IsDecisive cfg → cfg.algorithm ≢ least_loaded
          balances (inl f) = absurd (cc)
          balances (inr h) = h

  -- If some candidate is enabled and healthy, then `select_interface` names an interface, unless
  -- the strategy is to balance by load.
  pub select_interface-IsFound :
      (cfg : AggregatorConfig) (candidates : List (CandidateIface F)) (c : CandidateIface F)
      (usable : List (CandidateIface F)) (key : Text) (rr : ℕ)
      → filter is_usable candidates ≡ c ∷ usable
      → IsDecisive cfg
      → Ensures IsFound (select_interface cfg candidates key rr)
  unfolding select_interface
  select_interface-IsFound cfg candidates c usable key rr there d =
      rw there (IsFound-pick cfg c usable key rr d)
