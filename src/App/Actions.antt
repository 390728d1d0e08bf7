-- ===== src/App/Actions.antt =====
-- What the controls do to the configuration, and to the candidates.
use netmux.Prelude.{
  ℕ, ◌^◌, ◌≤◌, ◌≡◌, refl, ap, ◌∙◌, max, List, [], ◌∷◌, Option, none, some, All, Run, done, panic,
  ◌>>=◌, Ensures, arith, if_pos, if_neg,
}
use netmux.Prelude.Ints.{ℤ, pos, negsuc, ◌+ℤ◌, i32, add_i32, clamp}
use netmux.Prelude.HashMap
use netmux.Prelude.HashMap.{HashMap, All-get, get-insert}
use netmux.Text.{Text, Text-discrete}
use netmux.Float.{Float}
use netmux.Error.{ok}
use netmux.Sysfs.{SysEntry}
use netmux.Interface.{Interface, enumerate}
use netmux.Stats.{IfaceSample}
use netmux.Policy.{InterfacePolicy, AggregatorConfig, validate, validate_weights, with_priority}
use netmux.Aggregator.{
  Aggregator, policy_or_default, configured, base_priority, interfaces_or_none, candidate_of,
  candidates_of, refresh_candidates,
}
use netmux.App.{IfaceAction, enable, priority, weight, update, act, iface_action}

abbrev pub IsTuned : InterfacePolicy → Type 0
IsTuned p = (1 ≤ p.priority) × (p.priority ≤ 99) × (1 ≤ p.weight) × (p.weight ≤ 100)

-- Every policy is tuned and the health check has an interval.
pub record IsSound (cfg : AggregatorConfig) : Type 0 where
  pub tuned : All (λ (e : Text × InterfacePolicy). IsTuned e.1) cfg.interfaces
  pub checked : 1 ≤ cfg.health_check_interval_secs

-- A step of a control is small against an `i32`.
abbrev pub IsSmall : ℤ → Type 0
IsSmall (pos n) = n ≤ 2 ^ 30
IsSmall (negsuc n) = n ≤ 2 ^ 30

abbrev pub IsSmallAction : IfaceAction → Type 0
IsSmallAction (enable name on) = Unit {0}
IsSmallAction (priority name delta) = IsSmall delta
IsSmallAction (weight name delta) = IsSmall delta

-- A sum with a small step does not overflow.
add_i32-done :
    (n : ℕ) (delta : ℤ) → n ≤ 100 → IsSmall delta → add_i32 (i32 n) delta ≡ done (pos n +ℤ delta)
unfolding add_i32
add_i32-done n (pos d) h k = ground arith
add_i32-done n (negsuc d) h k = ground arith

clamp-bounds : (z : ℤ) (lo hi : ℕ) → lo ≤ hi → (lo ≤ clamp z lo hi) × (clamp z lo hi ≤ hi)
clamp-bounds (pos n) lo hi h = (omega arith, omega arith)
clamp-bounds (negsuc n) lo hi h = (omega arith, omega arith)

All-insert :
    (P : InterfacePolicy → Type 0) (name : Text) (p : InterfacePolicy)
    (m : HashMap Text InterfacePolicy)
    → P p
    → All (λ (e : Text × InterfacePolicy). P e.1) m
    → All (λ (e : Text × InterfacePolicy). P e.1) (HashMap.insert Text-discrete name p m)
unfolding HashMap.insert
All-insert P name p [] h k = (h, tt)
All-insert P name p ((j, w) ∷ m) h (q, k) = elim (Text-discrete j name) [
  | yes e ↦ rw (if_pos (Text-discrete j name) e) (h, k)
  | no e ↦ rw (if_neg (Text-discrete j name) e) (q, All-insert P name p m h k)
]

configured-IsTuned :
    (cfg : AggregatorConfig) (name : Text) → IsSound cfg → IsTuned (configured cfg name)
configured-IsTuned cfg name sound = by_entry (HashMap.get Text-discrete name cfg.interfaces) refl
  where
    by_entry :
        (o : Option InterfacePolicy)
        → HashMap.get Text-discrete name cfg.interfaces ≡ o
        → IsTuned (policy_or_default o)
    by_entry none e = (omega arith, omega arith, omega arith, omega arith)
    by_entry (some p) e = All-get Text-discrete IsTuned name p cfg.interfaces sound.tuned e

update-IsSound :
    (cfg : AggregatorConfig) (name : Text) (p : InterfacePolicy)
    → IsSound cfg
    → IsTuned p
    → IsSound (update name p cfg)
update-IsSound cfg name p sound h = record {
  tuned = All-insert IsTuned name p cfg.interfaces h sound.tuned;
  checked = sound.checked;
}

act-IsSound :
    (action : IfaceAction) (cfg : AggregatorConfig)
    → IsSmallAction action
    → IsSound cfg
    → Ensures IsSound (act action cfg)
unfolding act
act-IsSound (enable name on) cfg small sound =
    update-IsSound cfg name _ sound (configured-IsTuned cfg name sound)
act-IsSound (priority name delta) cfg small sound =
    let (a, b, c, d) = configured-IsTuned cfg name sound in
    let z = pos (configured cfg name).priority +ℤ delta in
    let (lo, hi) = clamp-bounds z 1 99 (omega arith) in
    rw (add_i32-done (configured cfg name).priority delta (omega arith) small) (
      update-IsSound cfg name (record (configured cfg name) { priority = clamp z 1 99 }) sound
        (lo, hi, c, d))
act-IsSound (weight name delta) cfg small sound =
    let (a, b, c, d) = configured-IsTuned cfg name sound in
    let z = pos (configured cfg name).weight +ℤ delta in
    let (lo, hi) = clamp-bounds z 1 100 (omega arith) in
    rw (add_i32-done (configured cfg name).weight delta (omega arith) small) (
      update-IsSound cfg name (record (configured cfg name) { weight = clamp z 1 100 }) sound
        (a, b, lo, hi))

validate_weights-ok :
    (m : HashMap Text InterfacePolicy)
    → All (λ (e : Text × InterfacePolicy). IsTuned e.1) m
    → validate_weights m ≡ ok tt
unfolding validate_weights
validate_weights-ok [] h = refl
validate_weights-ok ((name, p) ∷ m) ((a, b, c, d), h) = ground (arith, validate_weights-ok m h)

-- A sound configuration validates.
validate-ok : (cfg : AggregatorConfig) → IsSound cfg → validate cfg ≡ ok tt
unfolding validate
validate-ok cfg sound =
    ground (arith, sound.checked, validate_weights-ok cfg.interfaces sound.tuned)

abbrev pub IsAccepted : AggregatorConfig → Type 0
IsAccepted cfg = IsSound cfg × (validate cfg ≡ ok tt)

-- On a sound configuration an action of a control, with a step of at most 2 ^ 30 either way, does
-- not overflow, and leaves a configuration that is sound, with priorities in 1..99 and weights in
-- 1..100, and that validates.
pub act-IsAccepted :
    (action : IfaceAction) (cfg : AggregatorConfig)
    → IsSmallAction action
    → IsSound cfg
    → Ensures IsAccepted (act action cfg)
act-IsAccepted action cfg small sound =
    accepted (act action cfg) (act-IsSound action cfg small sound)
  where
    accepted : (m : Run AggregatorConfig) → Ensures IsSound m → Ensures IsAccepted m
    accepted (done c) h = (h, validate-ok c h)
    accepted panic h = h

with_priority-configured :
    (cfg : AggregatorConfig) (name other : Text) (p q : ℕ)
    → with_priority
        (configured (update name (record (configured cfg name) { priority = p }) cfg) other)
        q
      ≡ with_priority (configured cfg other) q
with_priority-configured cfg name other p q =
    let found =
      get-insert Text-discrete name other (record (configured cfg name) { priority = p })
        cfg.interfaces in
    ap (λ (o : Option InterfacePolicy). with_priority (policy_or_default o) q) found
    ∙ (elim (Text-discrete name other) [
      | yes e ↦
          ap (λ (o : Option InterfacePolicy). with_priority (policy_or_default o) q)
            (if_pos (Text-discrete name other) e _ _)
          ∙ ap (λ (n : Text). with_priority (configured cfg n) q) e
      | no e ↦
          ap (λ (o : Option InterfacePolicy). with_priority (policy_or_default o) q)
            (if_neg (Text-discrete name other) e _ _)
    ])

module _ {F : Type 0} ⦃fl : Float F⦄ where
  candidates_of-priority :
      (cfg : AggregatorConfig) (name : Text) (p : ℕ) (samples : HashMap Text (IfaceSample F))
      (l : List Interface)
      → candidates_of (update name (record (configured cfg name) { priority = p }) cfg) samples l
        ≡ candidates_of cfg samples l
  unfolding candidates_of candidate_of
  candidates_of-priority cfg name p samples [] = refl
  candidates_of-priority cfg name p samples (i ∷ l) =
      rw
        (
          candidates_of-priority cfg name p samples l,
          with_priority-configured cfg name i.name p (max (base_priority i.kind) 0),
        )
        refl

  -- The priority control has no effect: the candidates of the next refresh are those that a
  -- refresh without the action gives, whatever the interface and the step, unless the action
  -- panics.
  pub refresh_candidates-iface_action :
      (name : Text) (delta : ℤ) (entries : Option (List SysEntry)) (agg after : Aggregator F)
      → iface_action (priority name delta) agg ≡ done after
      → (refresh_candidates entries after).candidates ≡ (refresh_candidates entries agg).candidates
  unfolding refresh_candidates iface_action act
  refresh_candidates-iface_action name delta entries agg after e =
      by_sum (add_i32 (i32 (configured agg.config name).priority) delta) e
    where
      by_sum :
          (m : Run ℤ)
          → ((m >>= (λ p. done (
                update name
                  (record (configured agg.config name) { priority = clamp p 1 99 })
                  agg.config)))
              >>= (λ cfg. done (record agg { config = cfg })))
            ≡ done after
          → candidates_of after.config after.stats.samples (interfaces_or_none (enumerate entries))
            ≡ candidates_of agg.config agg.stats.samples (interfaces_or_none (enumerate entries))
      by_sum panic h = absurd (cc)
      by_sum (done z) h =
          let same : record agg {
            config =
                update name (record (configured agg.config name) { priority = clamp z 1 99 })
                  agg.config;
          }
              ≡ after =
            cc in
          rw⁻¹ same (
            candidates_of-priority agg.config name (clamp z 1 99) agg.stats.samples
              (interfaces_or_none (enumerate entries)))
