-- ===== src/Policy/RoundRobin.antt =====
-- Round-robin balancing over a whole cycle of the pool.
use netmux.Prelude.{
  ℕ, zero, suc, ◌+◌, ◌-◌, ◌*◌, ◌/◌, ◌%◌, ◌^◌, ◌≤◌, ◌<◌, ◌≡◌, refl, sym, ap, ◌∙◌, List, [], ◌∷◌,
  ◌++◌, map, Bool, true, length, take, drop, get_or, Option, some, arith, u64, Run, done, ◌>>=◌,
  Ensures, index-get_or, length-drop, length-take, take_of_length-le, take-append-drop,
}
use mathlib.Core.List.{append-nil}
use native.Mathlib.Nat.{div-add-mod'}
use netmux.Prelude.Sorting.{filter, count, count-append}
use netmux.Text.{Text}
use netmux.Float.{Float}
use netmux.Policy.{
  CandidateIface, AggregatorConfig, round_robin, load_balance, is_usable, pick_at, pick_balanced,
  select_interface, weighted_pool,
}
use netmux.Policy.Order.{pick-pick_balanced}
use netmux.Policy.Pool.{weight_sum, weight_share, count-weighted_pool}

drop-get_or {ℓ} :
    {A : Type ℓ} (i : ℕ) (xs : List A) (d : A)
    → i < length xs
    → drop i xs ≡ get_or xs i d ∷ drop (suc i) xs
drop-get_or i [] d h = absurd (omega arith)
drop-get_or zero (x ∷ xs) d h = refl
drop-get_or (suc i) (x ∷ xs) d h = drop-get_or i xs d (omega arith)

count-map :
    {A B : Type 0} (f : A → B) (p : B → Bool) (xs : List A)
    → count p (map f xs) ≡ count (λ x. p (f x)) xs
count-map f p [] = refl
count-map f p (x ∷ xs) = omega (arith, count-map f p xs)

mod_offset : (q n i : ℕ) → i < n → (q * n + i) % n ≡ i
mod_offset q n i h = grind arith

module _ {F : Type 0} where
  count_all : (l : List (CandidateIface F)) → count (λ d. true) l ≡ length l
  count_all [] = refl
  count_all (d ∷ l) = omega (arith, count_all l)

  weight_share_all : (l : List (CandidateIface F)) → weight_share (λ d. true) l ≡ weight_sum l
  weight_share_all [] = refl
  weight_share_all (d ∷ l) = omega (arith, weight_share_all l)

module _ {F : Type 0} ⦃fl : Float F⦄ (cfg : AggregatorConfig)
    (candidates : List (CandidateIface F)) where
  -- The choices for flows that arrive one after the other, and the counter after them.
  pub select_all : List Text → ℕ → Run (List (Option Text) × ℕ)
  select_all [] rr = done ([], rr)
  select_all (key ∷ keys) rr = do
    (o, rr) ← select_interface cfg candidates key rr
    (os, rr) ← select_all keys rr
    done (o ∷ os, rr)

  module _ (c : CandidateIface F) (usable : List (CandidateIface F))
      (there : filter is_usable candidates ≡ c ∷ usable) (balanced : cfg.strategy ≡ load_balance)
      (round : cfg.algorithm ≡ round_robin) where
    abbrev pool : List (CandidateIface F)
    pool = weighted_pool (c ∷ usable)

    abbrev size : ℕ
    size = length pool

    pick_at-get_or :
        (l : List (CandidateIface F)) (i : ℕ)
        → 0 < length l
        → pick_at l i ≡ done (some (get_or l (i % length l) c).name)
    unfolding pick_at
    pick_at-get_or [] i h = absurd (omega arith)
    pick_at-get_or (d ∷ l) i h = rw (index-get_or (d ∷ l) (i % length (d ∷ l)) c (grind arith)) refl

    -- One choice takes the candidate at the counter and moves the counter on.
    select_next :
        (key : Text) (q i : ℕ)
        → i < size
        → q * size + i + 1 < 2 ^ 64
        → select_interface cfg candidates key (q * size + i)
          ≡ done (some (get_or pool i c).name, q * size + i + 1)
    select_next key q i h k =
        let rr = q * size + i in
        let n : u64 (rr + 1) ≡ rr + 1 = omega arith in
        unfold select_interface in
        rw (there, pick-pick_balanced cfg c [] usable key rr balanced, round)
          (unfold pick_balanced in
            rw (pick_at-get_or pool rr (omega arith), mod_offset q size i h, n) refl)

    abbrev names : List (CandidateIface F) → List (Option Text)
    names = map (λ d. some d.name)

    -- A stretch of the cycle from offset `i` on that does not pass its end, before later flows.
    select_stretch :
        (keys late : List Text) (q i : ℕ) (ps : List (Option Text)) (u : ℕ)
        → i + length keys ≤ size
        → q * size + i + length keys < 2 ^ 64
        → select_all late (q * size + i + length keys) ≡ done (ps, u)
        → select_all (keys ++ late) (q * size + i)
          ≡ done (names (take (length keys) (drop i pool)) ++ ps, u)
    unfolding select_all
    select_stretch [] late q i ps u h k after =
        ap (λ (n : ℕ). select_all late n) (omega arith) ∙ after
    select_stretch (key ∷ keys) late q i ps u h k after =
        let e : q * size + i + 1 ≡ q * size + (i + 1) = omega arith in
        let e' : q * size + (i + 1) + length keys ≡ q * size + i + suc (length keys) =
          omega arith in
        let s : suc i ≡ i + 1 = omega arith in
        rw
          (
            select_next key q i (omega arith) (omega arith),
            e,
            select_stretch keys late q (i + 1) ps u (omega arith) (omega arith) (rw e' after),
            drop-get_or i pool c (omega arith),
            s,
          )
          refl

    -- From offset `i`, a whole cycle goes to the end of the pool and then up to `i`.
    select_cycle :
        (early late : List Text) (q i : ℕ)
        → i + length early ≡ size
        → length late ≡ i
        → 0 < size
        → q * size + i + size < 2 ^ 64
        → select_all (early ++ late) (q * size + i)
          ≡ done (names (drop i pool) ++ names (take i pool), q * size + i + size)
    unfolding select_all
    select_cycle early late q i h k z b =
        let e : take (length early) (drop i pool) ≡ drop i pool =
          take_of_length-le (length early) (drop i pool) (omega (arith, length-drop i pool)) in
        let m : (q + 1) * size ≡ q * size + size = grind arith in
        let end : (q + 1) * size + 0 + length late ≡ q * size + i + size = omega (arith, m) in
        let turn : q * size + i + length early ≡ (q + 1) * size + 0 = omega (arith, m) in
        let second : select_all late ((q + 1) * size + 0)
            ≡ done (names (take i pool), q * size + i + size) =
          rw (append-nil, append-nil, k) at
            (select_stretch late [] (q + 1) 0 [] (q * size + i + size) (omega arith)
              (omega (arith, end)) (ap (λ (n : ℕ). done ([], n)) end)) in
        rw e at (
          select_stretch early late q i (names (take i pool)) (q * size + i + size) (omega arith)
            (omega arith) (rw turn second))

    -- The pool's size is the square of the summed weights.
    size-weight_sum :
        weight_sum (c ∷ usable) * weight_sum (c ∷ usable) < 2 ^ 52
        → size ≡ weight_sum (c ∷ usable) * weight_sum (c ∷ usable)
    size-weight_sum h =
        sym (count_all pool)
        ∙ count-weighted_pool (λ d. true) c usable h
        ∙ ap (λ (n : ℕ). weight_sum (c ∷ usable) * n) (weight_share_all (c ∷ usable))

    cycle_fair :
        (p : Option Text → Bool) (keys : List Text) (rr : ℕ)
        → length keys ≡ size
        → 0 < size
        → rr + size < 2 ^ 64
        → Ensures
            (λ (r : List (Option Text) × ℕ). count p r.0 ≡ count (λ d. p (some d.name)) pool)
            (select_all keys rr)
    cycle_fair p keys rr h z b =
        let i = rr % size in
        let q = rr / size in
        let e : q * size + i ≡ rr = div-add-mod' rr size in
        let lt : i < size = grind arith in
        let k : length (take (size - i) keys) ≡ size - i =
          omega (arith, length-take (size - i) keys) in
        let run =
          select_cycle (take (size - i) keys) (drop (size - i) keys) q i (omega arith)
            (omega (arith, length-drop (size - i) keys)) z (omega arith) in
        let run' : select_all keys rr
            ≡ done (names (drop i pool) ++ names (take i pool), rr + size) =
          rw (take-append-drop (size - i) keys, e) at run in
        rw run' (
          omega (
            arith,
            count-append p (names (drop i pool)) (names (take i pool)),
            count-map (λ (d : CandidateIface F). some d.name) p (drop i pool),
            count-map (λ (d : CandidateIface F). some d.name) p (take i pool),
            count-append (λ (d : CandidateIface F). p (some d.name)) (take i pool) (drop i pool),
            ap (count (λ (d : CandidateIface F). p (some d.name))) (take-append-drop i pool),
          ))

    -- Weighted round robin with a usable candidate is fair: while the candidates stay as they are, W * W
    -- is below 2 ^ 52 and the counter does not wrap, any W * W flows in a row, where W is the sum of
    -- the usable candidates' weights, are given to the interfaces with a name
    -- that passes any test exactly W * w times, where w is the sum of those interfaces' weights.
    pub select_all-fair :
        (p : Option Text → Bool) (keys : List Text) (rr : ℕ)
        → weight_sum (c ∷ usable) * weight_sum (c ∷ usable) < 2 ^ 52
        → length keys ≡ weight_sum (c ∷ usable) * weight_sum (c ∷ usable)
        → rr + weight_sum (c ∷ usable) * weight_sum (c ∷ usable) < 2 ^ 64
        → Ensures
            (λ (r : List (Option Text) × ℕ).
              count p r.0
              ≡ weight_sum (c ∷ usable)
                * weight_share (λ (d : CandidateIface F). p (some d.name)) (c ∷ usable))
            (select_all keys rr)
    select_all-fair p keys rr h k b =
        let s = size-weight_sum h in
        rw (count-weighted_pool (λ (d : CandidateIface F). p (some d.name)) c usable h) at
          (cycle_fair p keys rr (k ∙ sym s) (grind (arith, s)) (omega (arith, s)))
