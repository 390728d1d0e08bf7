-- ===== src/Policy/Choice.antt =====
-- What `select_interface` chooses, by strategy and algorithm.
use netmux.Prelude.{
  ℕ, zero, suc, ◌%◌, ◌<◌, ◌≡◌, refl, inl, inr, List, [], ◌∷◌, true, length, Option, none, some,
  arith, Bool-cases, Run, done, panic, Ensures, Ensures-bind, get_or, index-get_or,
}
use netmux.Prelude.Sorting.{In, filter, first, sort_by, In-filter, In-sort_by}
use netmux.Text.{Text}
use netmux.Float.{Float}
use netmux.Policy.{
  CandidateIface, AggregatorConfig, BalanceAlgorithm, round_robin, hash, least_loaded, Strategy,
  failover, load_balance, is_usable, by_priority, name_of, pick_failover, pick_at, load,
  least_loaded_from, pick_balanced, pick, select_interface, weighted_pool, fnv1a,
}
use netmux.Policy.Pool.{In-weighted_pool}

module _ {F : Type 0} where
  -- A chosen name is the name of one of the candidates.
  abbrev pub Chosen : List (CandidateIface F) → Option Text → Type 0
  Chosen l none = Unit {0}
  Chosen l (some name) = (c : CandidateIface F) × In c l × (c.name ≡ name)

  Chosen-name_of :
      (l : List (CandidateIface F)) (o : Option (CandidateIface F))
      → ((c : CandidateIface F) → o ≡ some c → In c l)
      → Chosen l (name_of o)
  Chosen-name_of l none h = tt
  Chosen-name_of l (some c) h = (c, h c refl, refl)

  In-of_first : (l : List (CandidateIface F)) (c : CandidateIface F) → first l ≡ some c → In c l
  In-of_first [] c h = absurd (cc)
  In-of_first (d ∷ l) c h = inl (ground arith)

  Chosen-failover : (l : List (CandidateIface F)) → Chosen l (pick_failover l)
  unfolding pick_failover
  Chosen-failover l =
      Chosen-name_of l (first (sort_by by_priority l))
        (λ c h. In-sort_by by_priority c l (In-of_first (sort_by by_priority l) c h))

  In-get_or :
      (l : List (CandidateIface F)) (i : ℕ) (d : CandidateIface F)
      → i < length l
      → In (get_or l i d) l
  In-get_or [] i d h = absurd (omega arith)
  In-get_or (c ∷ l) zero d h = inl refl
  In-get_or (c ∷ l) (suc i) d h = inr (In-get_or l i d (omega arith))

  Chosen-pick_at : (l : List (CandidateIface F)) (i : ℕ) → Ensures (Chosen l) (pick_at l i)
  unfolding pick_at
  Chosen-pick_at [] i = tt
  Chosen-pick_at (c ∷ l) i =
      let j = i % length (c ∷ l) in
      let h : j < length (c ∷ l) = grind arith in
      rw (index-get_or (c ∷ l) j c h) (get_or (c ∷ l) j c, In-get_or (c ∷ l) j c h, refl)

  Chosen-mono :
      (l m : List (CandidateIface F)) (o : Option Text)
      → ((c : CandidateIface F) → In c l → In c m)
      → Chosen l o
      → Chosen m o
  Chosen-mono l m none h c = tt
  Chosen-mono l m (some name) h (c, i, e) = (c, h c i, e)

  Ensures-mono :
      (l m : List (CandidateIface F)) (r : Run (Option Text))
      → ((c : CandidateIface F) → In c l → In c m)
      → Ensures (Chosen l) r
      → Ensures (Chosen m) r
  Ensures-mono l m (done o) h c = Chosen-mono l m o h c
  Ensures-mono l m panic h c = c

module _ {F : Type 0} ⦃fl : Float F⦄ where
  In-least_loaded :
      (best : Option (CandidateIface F)) (b : F) (l m : List (CandidateIface F))
      (c : CandidateIface F)
      → ((d : CandidateIface F) → best ≡ some d → In d m)
      → ((d : CandidateIface F) → In d l → In d m)
      → least_loaded_from best b l ≡ some c
      → In c m
  unfolding least_loaded_from
  In-least_loaded best b [] m c h k e = h c e
  In-least_loaded best b (d ∷ l) m c h k e = elim (Bool-cases (fl.lt (load d) b)) [
    | inl p ↦
        In-least_loaded (some d) (load d) l m c (λ x q. k x (inl (ground arith)))
          (λ x i. k x (inr i)) (rw p at e)
    | inr p ↦ In-least_loaded best b l m c h (λ x i. k x (inr i)) (rw p at e)
  ]

  abbrev pub ChosenFrom : List (CandidateIface F) → Option Text × ℕ → Type 0
  ChosenFrom l r = Chosen l r.0

  Chosen-pick_balanced :
      (a : BalanceAlgorithm) (l : List (CandidateIface F)) (key : Text) (rr : ℕ)
      → Ensures (ChosenFrom l) (pick_balanced a l key rr)
  unfolding pick_balanced
  Chosen-pick_balanced round_robin l key rr =
      Ensures-bind (Chosen l) (ChosenFrom l) (pick_at (weighted_pool l) rr) _
        (Ensures-mono (weighted_pool l) l _ (λ c. In-weighted_pool c l)
          (Chosen-pick_at (weighted_pool l) rr))
        (λ o h. h)
  Chosen-pick_balanced hash l key rr =
      Ensures-bind (Chosen l) (ChosenFrom l) (pick_at (weighted_pool l) (fnv1a key)) _
        (Ensures-mono (weighted_pool l) l _ (λ c. In-weighted_pool c l)
          (Chosen-pick_at (weighted_pool l) (fnv1a key)))
        (λ o h. h)
  Chosen-pick_balanced least_loaded l key rr =
      Chosen-name_of l (least_loaded_from none fl.infinity l)
        (λ c h. In-least_loaded none fl.infinity l l c (λ d e. cc) (λ d i. i) h)

  Chosen-pick :
      (cfg : AggregatorConfig) (l : List (CandidateIface F)) (key : Text) (rr : ℕ)
      → Ensures (ChosenFrom l) (pick cfg l key rr)
  unfolding pick
  Chosen-pick cfg [] key rr = tt
  Chosen-pick cfg (c ∷ l) key rr = by_strategy cfg.strategy
    where
      by_strategy :
          (s : Strategy)
          → Ensures (ChosenFrom (c ∷ l)) (elim s [
            | failover ↦ done (pick_failover (c ∷ l), rr)
            | load_balance ↦ pick_balanced cfg.algorithm (c ∷ l) key rr
          ])
      by_strategy failover = Chosen-failover (c ∷ l)
      by_strategy load_balance = Chosen-pick_balanced cfg.algorithm (c ∷ l) key rr

  -- The result names a candidate that is enabled and healthy, if it names one.
  abbrev pub NamesUsable : List (CandidateIface F) → Option Text × ℕ → Type 0
  NamesUsable l (none, rr) = Unit {0}
  NamesUsable l (some name, rr) =
      (c : CandidateIface F) × In c l × (is_usable c ≡ true) × (c.name ≡ name)

  NamesUsable-of_ChosenFrom :
      (l : List (CandidateIface F)) (r : Option Text × ℕ)
      → ChosenFrom (filter is_usable l) r
      → NamesUsable l r
  NamesUsable-of_ChosenFrom l (none, rr) h = tt
  NamesUsable-of_ChosenFrom l (some name, rr) (c, i, e) =
      let (j, u) = In-filter is_usable c l i in (c, j, u, e)

  -- For every configuration, `select_interface` returns without a panic, and an interface that it
  -- returns is the name of a candidate that is enabled and healthy.
  pub select_interface-NamesUsable :
      (cfg : AggregatorConfig) (candidates : List (CandidateIface F)) (flow_key : Text) (rr : ℕ)
      → Ensures (NamesUsable candidates) (select_interface cfg candidates flow_key rr)
  unfolding select_interface
  select_interface-NamesUsable cfg candidates flow_key rr =
      lift (pick cfg (filter is_usable candidates) flow_key rr)
        (Chosen-pick cfg (filter is_usable candidates) flow_key rr)
    where
      lift :
          (m : Run (Option Text × ℕ))
          → Ensures (ChosenFrom (filter is_usable candidates)) m
          → Ensures (NamesUsable candidates) m
      lift (done r) h = NamesUsable-of_ChosenFrom candidates r h
      lift panic h = h
