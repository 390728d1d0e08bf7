-- ===== src/Policy/Order.antt =====
-- Which of the usable candidates failover and least-loaded balancing choose.
use netmux.Prelude.{
  ℕ, ◌≤◌, ◌<◌, ◌≡◌, refl, ◌∙◌, ◌⊎◌, inl, inr, List, [], ◌∷◌, ◌++◌, true, false, Option, none, some,
  arith, Bool-cases, All, done,
}
use netmux.Prelude.Sorting.{filter, first, sort_by, first-sort_by}
use netmux.Text.{Text}
use netmux.Float.{Float}
use netmux.Policy.{
  CandidateIface, AggregatorConfig, least_loaded, failover, load_balance, is_usable, by_priority,
  pick_failover, load, least_loaded_from, pick_balanced, pick, select_interface,
}

module _ {F : Type 0} where
  -- No candidate above, and none of the list that has the same priority before it.
  top_after :
      (c : CandidateIface F) (l : List (CandidateIface F))
      → All (λ (d : CandidateIface F). d.policy.priority ≤ c.policy.priority) l
      → (first (sort_by by_priority l) ≡ none)
        ⊎ ((d : CandidateIface F) × (first (sort_by by_priority l) ≡ some d)
            × (d.policy.priority ≤ c.policy.priority))
  top_after c [] h = inl (unfold sort_by in refl)
  top_after c (x ∷ l) h = elim (top_after c l h.1) [
    | inl e ↦ inr (x, first-sort_by by_priority x l ∙ rw e refl, h.0)
    | inr (d, e, k) ↦ elim (Bool-cases (by_priority x d)) [
      | inl b ↦ inr (x, first-sort_by by_priority x l ∙ rw (e, b) refl, h.0)
      | inr b ↦ inr (d, first-sort_by by_priority x l ∙ rw (e, b) refl, k)
    ]
  ]

  top_here :
      (c : CandidateIface F) (after : List (CandidateIface F))
      → All (λ (d : CandidateIface F). d.policy.priority ≤ c.policy.priority) after
      → first (sort_by by_priority (c ∷ after)) ≡ some c
  top_here c after h = elim (top_after c after h) [
    | inl e ↦ first-sort_by by_priority c after ∙ rw e refl
    | inr (d, e, k) ↦ first-sort_by by_priority c after ∙ rw e (ground arith)
  ]

  top_behind :
      (c : CandidateIface F) (before after : List (CandidateIface F))
      → All (λ (d : CandidateIface F). d.policy.priority < c.policy.priority) before
      → All (λ (d : CandidateIface F). d.policy.priority ≤ c.policy.priority) after
      → first (sort_by by_priority (before ++ c ∷ after)) ≡ some c
  top_behind c [] after h k = top_here c after k
  top_behind c (x ∷ before) after h k =
      first-sort_by by_priority x (before ++ c ∷ after)
      ∙ rw (top_behind c before after h.1 k) (ground arith)

module _ {F : Type 0} ⦃fl : Float F⦄ where
  least_after :
      (c : CandidateIface F) (after : List (CandidateIface F))
      → All (λ (d : CandidateIface F). fl.lt (load d) (load c) ≡ false) after
      → least_loaded_from (some c) (load c) after ≡ some c
  unfolding least_loaded_from
  least_after c [] h = refl
  least_after c (d ∷ after) h = rw h.0 (least_after c after h.1)

  least_behind :
      (c : CandidateIface F) (best : Option (CandidateIface F)) (b : F)
      (before after : List (CandidateIface F))
      → fl.lt (load c) b ≡ true
      → All (λ (d : CandidateIface F). fl.lt (load c) (load d) ≡ true) before
      → All (λ (d : CandidateIface F). fl.lt (load d) (load c) ≡ false) after
      → least_loaded_from best b (before ++ c ∷ after) ≡ some c
  unfolding least_loaded_from
  least_behind c best b [] after p h k = rw p (least_after c after k)
  least_behind c best b (d ∷ before) after p h k = elim (Bool-cases (fl.lt (load d) b)) [
    | inl e ↦ rw e (least_behind c (some d) (load d) before after h.0 h.1 k)
    | inr e ↦ rw e (least_behind c best b before after p h.1 k)
  ]

  pub pick-pick_failover :
      (cfg : AggregatorConfig) (c : CandidateIface F) (before after : List (CandidateIface F))
      (key : Text) (rr : ℕ)
      → cfg.strategy ≡ failover
      → pick cfg (before ++ c ∷ after) key rr ≡ done (pick_failover (before ++ c ∷ after), rr)
  unfolding pick
  pick-pick_failover cfg c [] after key rr s = ground arith
  pick-pick_failover cfg c (x ∷ before) after key rr s = ground arith

  pub pick-pick_balanced :
      (cfg : AggregatorConfig) (c : CandidateIface F) (before after : List (CandidateIface F))
      (key : Text) (rr : ℕ)
      → cfg.strategy ≡ load_balance
      → pick cfg (before ++ c ∷ after) key rr
        ≡ pick_balanced cfg.algorithm (before ++ c ∷ after) key rr
  unfolding pick
  pick-pick_balanced cfg c [] after key rr s = ground arith
  pick-pick_balanced cfg c (x ∷ before) after key rr s = ground arith

  module _ (cfg : AggregatorConfig) (candidates : List (CandidateIface F)) (flow_key : Text)
      (rr : ℕ) (c : CandidateIface F) (before after : List (CandidateIface F))
      (usable : filter is_usable candidates ≡ before ++ c ∷ after) where
    -- Failover chooses the usable candidate of the highest priority, the first of several such, and
    -- leaves the round-robin counter alone.
    pub select_interface-failover :
        cfg.strategy ≡ failover
        → All (λ (d : CandidateIface F). d.policy.priority < c.policy.priority) before
        → All (λ (d : CandidateIface F). d.policy.priority ≤ c.policy.priority) after
        → select_interface cfg candidates flow_key rr ≡ done (some c.name, rr)
    select_interface-failover s h k =
        unfold select_interface in
        rw (usable, pick-pick_failover cfg c before after flow_key rr s)
          (unfold pick_failover in rw (top_behind c before after h k) refl)

    -- Least-loaded balancing chooses the usable candidate with the least load, the sum of its rates
    -- sent and received, if that load is below infinity, and of several such the first in the list.
    pub select_interface-least_loaded :
        cfg.strategy ≡ load_balance
        → cfg.algorithm ≡ least_loaded
        → fl.lt (load c) fl.infinity ≡ true
        → All (λ (d : CandidateIface F). fl.lt (load c) (load d) ≡ true) before
        → All (λ (d : CandidateIface F). fl.lt (load d) (load c) ≡ false) after
        → select_interface cfg candidates flow_key rr ≡ done (some c.name, rr)
    select_interface-least_loaded s a fin h k =
        unfold select_interface in
        rw (usable, pick-pick_balanced cfg c before after flow_key rr s, a)
          (unfold pick_balanced in rw (least_behind c none fl.infinity before after fin h k) refl)
