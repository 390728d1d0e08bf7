-- ===== src/Policy.antt =====
-- crates/netmux-core/src/policy.rs: the configuration of the aggregation and the choice of an
-- egress interface.
pub mod Pool
pub mod Choice
pub mod Order
pub mod RoundRobin
pub mod Liveness
use netmux.Prelude.{
  ℕ, zero, suc, ◌+◌, ◌-◌, ◌*◌, ◌/◌, ◌%◌, ◌^◌, min, max, List, [], ◌∷◌, ◌++◌, Bool, true, false,
  ◌&&◌, ltb, leb, ◌==◌, if◌then◌else◌, Option, none, some, length, replicate, u32, u64, Run, done,
  ◌>>=◌, index,
}
use Prim.Native.Nat.{bit_xor}
use netmux.Prelude.Sorting.{filter, sort_by, first}
use netmux.Prelude.HashMap.{HashMap}
use netmux.Text.{Text, text, text_le}
use netmux.Float.{Float}
use netmux.Float.Rounded.{to_f64}
use netmux.Error.{Result, ok, err, config}
use netmux.Interface.{InterfaceKind}

pub data Strategy : Type 0 where
  load_balance failover : Strategy

pub data BalanceAlgorithm : Type 0 where
  round_robin hash least_loaded : BalanceAlgorithm

pub record InterfacePolicy : Type 0 where
  pub priority : ℕ
  pub weight : ℕ
  pub enabled : Bool

abbrev pub default_policy : InterfacePolicy
default_policy = record { priority = 10; weight = 1; enabled = true }

abbrev pub with_priority : InterfacePolicy → ℕ → InterfacePolicy
with_priority policy p = record policy { priority = p }

pub record AggregatorConfig : Type 0 where
  pub strategy : Strategy
  pub algorithm : BalanceAlgorithm
  pub interfaces : HashMap Text InterfacePolicy
  pub health_check_interval_secs : ℕ
  pub enabled : Bool

abbrev pub default_config : AggregatorConfig
default_config = record {
  strategy = load_balance;
  algorithm = hash;
  interfaces = [];
  health_check_interval_secs = 5;
  enabled = true;
}

-- The loop of `validate` over the interface policies.
unfoldable pub validate_weights : HashMap Text InterfacePolicy → Result (Unit {0})
validate_weights [] = ok tt
validate_weights ((name, p) ∷ rest) =
    if p.weight == 0
    then err (
        config (text "weight of " ++ (name ++ text " must be >= 1 (use enabled=false to disable)")))
    else validate_weights rest

unfoldable pub validate : AggregatorConfig → Result (Unit {0})
unfolding validate_weights
validate cfg =
    if cfg.health_check_interval_secs == 0
    then err (config (text "health_check_interval_secs must be >= 1"))
    else validate_weights cfg.interfaces

pub record CandidateIface (F : Type 0) : Type 0 where
  pub name : Text
  pub kind : InterfaceKind
  pub policy : InterfacePolicy
  pub tx_bps : F
  pub rx_bps : F
  pub healthy : Bool

-- FNV-1a over the bytes of the flow key.
abbrev pub fnv_step : ℕ → ℕ → ℕ
fnv_step h b = u32 (bit_xor h b * 0x01000193)

unfoldable pub fnv_from : ℕ → List ℕ → ℕ
fnv_from h [] = h
fnv_from h (b ∷ bytes) = fnv_from (fnv_step h b) bytes

unfoldable pub fnv1a : List ℕ → ℕ
unfolding fnv_from
fnv1a bytes = fnv_from 0x811c9dc5 bytes

-- `((total as f64 * w as f64 + 0.5) as u64).max(1)`. The sum is rounded in halves, where it is a
-- whole number, and cut back to ones; the cast stops at the largest u64.
unfoldable pub copies : ℕ → ℕ → ℕ
copies total w =
    let product = to_f64 (to_f64 total * to_f64 w) in
    max (min (to_f64 (2 * product + 1) / 2) (2 ^ 64 - 1)) 1

module _ {F : Type 0} where
  abbrev pub is_usable : CandidateIface F → Bool
  is_usable c = c.policy.enabled && c.healthy

  abbrev pub weight_of : CandidateIface F → ℕ
  weight_of c = max c.policy.weight 1

  -- `list.iter().map(|c| c.policy.weight.max(1) as u64).sum()`
  unfoldable pub total_weight : List (CandidateIface F) → ℕ
  total_weight [] = 0
  total_weight (c ∷ rest) = u64 (weight_of c + total_weight rest)

  -- The pool before it is sorted.
  unfoldable pub fill_pool : ℕ → List (CandidateIface F) → List (CandidateIface F)
  unfolding copies
  fill_pool total [] = []
  fill_pool total (c ∷ rest) = replicate (copies total (weight_of c)) c ++ fill_pool total rest

  abbrev pub by_name : CandidateIface F → CandidateIface F → Bool
  by_name a b = text_le a.name b.name

  unfoldable pub weighted_pool : List (CandidateIface F) → List (CandidateIface F)
  weighted_pool list = sort_by by_name (fill_pool (total_weight list) list)

  -- `b.policy.priority.cmp(&a.policy.priority)`: higher priorities first.
  abbrev pub by_priority : CandidateIface F → CandidateIface F → Bool
  by_priority a b = leb b.policy.priority a.policy.priority

  abbrev pub name_of : Option (CandidateIface F) → Option Text
  name_of none = none
  name_of (some c) = some c.name

  unfoldable pub pick_failover : List (CandidateIface F) → Option Text
  pick_failover usable = name_of (first (sort_by by_priority usable))

  -- `pool[i].name`, on a pool that may be empty.
  unfoldable pub pick_at : List (CandidateIface F) → ℕ → Run (Option Text)
  pick_at [] i = done none
  pick_at (c ∷ pool) i = do d ← index (c ∷ pool) (i % length (c ∷ pool)); done (some d.name)

module _ {F : Type 0} ⦃fl : Float F⦄ where
  abbrev pub load : CandidateIface F → F
  load c = fl.add c.tx_bps c.rx_bps

  -- The loop of `LeastLoaded` with the best candidate and load so far.
  unfoldable pub least_loaded_from :
      Option (CandidateIface F) → F → List (CandidateIface F) → Option (CandidateIface F)
  least_loaded_from best best_load [] = best
  least_loaded_from best best_load (c ∷ rest) =
      let better = least_loaded_from (some c) (load c) rest in
      let same = least_loaded_from best best_load rest in
      if fl.lt (load c) best_load then better else same

  unfoldable pub pick_balanced :
      BalanceAlgorithm → List (CandidateIface F) → Text → ℕ → Run (Option Text × ℕ)
  pick_balanced round_robin usable flow_key rr = do
    picked ← pick_at (weighted_pool usable) rr
    done (picked, (elim picked [ none ↦ rr | some name ↦ u64 (rr + 1) ]))
  pick_balanced hash usable flow_key rr = do
    picked ← pick_at (weighted_pool usable) (fnv1a flow_key)
    done (picked, rr)
  pick_balanced least_loaded usable flow_key rr =
      done (name_of (least_loaded_from none fl.infinity usable), rr)

  unfoldable pub pick :
      AggregatorConfig → List (CandidateIface F) → Text → ℕ → Run (Option Text × ℕ)
  pick cfg [] flow_key rr = done (none, rr)
  pick cfg (c ∷ usable) flow_key rr = elim cfg.strategy [
    | failover ↦ done (pick_failover (c ∷ usable), rr)
    | load_balance ↦ pick_balanced cfg.algorithm (c ∷ usable) flow_key rr
  ]

  -- The choice, and the round-robin counter after it.
  unfoldable pub select_interface :
      AggregatorConfig → List (CandidateIface F) → Text → ℕ → Run (Option Text × ℕ)
  select_interface cfg candidates flow_key rr = pick cfg (filter is_usable candidates) flow_key rr
