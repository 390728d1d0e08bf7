-- ===== src/Threads/Sound.antt =====
-- The configuration under the moves of the threads.
use netmux.Prelude.{ℕ, ◌≡◌, ap, List, Option, some, none, done, Run, panic, Ensures, ◌>>=◌}
use netmux.Float.{Float}
use netmux.Policy.{AggregatorConfig}
use netmux.Aggregator
use netmux.Aggregator.{Aggregator, ForwardDecision, route, refresh_candidates}
use netmux.Aggregator.Routing.{route-Decides}
use netmux.DataPlane.{DataPlane}
use netmux.App.{act, iface_action, toggle_enabled, set_strategy, set_algorithm}
use netmux.App.Actions.{IsSound, IsAccepted, act-IsAccepted}
use netmux.Threads.{
  Network, EgressPc, EgressMove, skip, read, unrouted, routed, refused, unwritten, registered,
  unsent, sent, count, count_bytes, WindowMove, timer, toggle, strategy, algorithm, control,
}

module _ {F : Type 0} ⦃fl : Float F⦄ where
  -- Routing keeps the configuration.
  pub config-route :
      (pkt : List ℕ) (agg after : Aggregator F) (d : Option ForwardDecision)
      → route pkt agg ≡ done (d, after)
      → after.config ≡ agg.config
  config-route pkt agg after none e =
      ap (λ (a : Aggregator F). a.config) (rw e at (route-Decides pkt agg))
  config-route pkt agg after (some d) e =
      let (on, parsed, (name, i, (usable, entry, others, rest))) =
        rw e at (route-Decides pkt agg) in
      ap (λ (a : Aggregator F). a.config) rest

  pub EgressMove-IsSound :
      {net : Network} {dp dq : DataPlane F} {pc qc : EgressPc}
      → EgressMove net dp pc dq qc
      → IsSound dp.aggregator.config
      → IsSound dq.aggregator.config
  EgressMove-IsSound (skip buf p) h = h
  EgressMove-IsSound (read p) h = h
  EgressMove-IsSound {dp = dp} (unrouted {buf = buf} {d = d} {agg = agg} p q) h =
      rw (config-route buf dp.aggregator agg d p) h
  EgressMove-IsSound {dp = dp} (routed {buf = buf} {d = d} {agg = agg} p q) h =
      rw (config-route buf dp.aggregator agg d p) h
  EgressMove-IsSound (refused p) h = h
  EgressMove-IsSound (unwritten p q) h = h
  EgressMove-IsSound (registered p q) h = h
  EgressMove-IsSound unsent h = h
  EgressMove-IsSound sent h = h
  EgressMove-IsSound count h = h
  EgressMove-IsSound count_bytes h = h

  pub WindowMove-IsSound :
      {agg after : Aggregator F} → WindowMove agg after → IsSound agg.config → IsSound after.config
  unfolding Aggregator.tick refresh_candidates toggle_enabled set_strategy set_algorithm
      iface_action
  WindowMove-IsSound (timer entries at again) h = h
  WindowMove-IsSound toggle h = record { tuned = h.tuned; checked = h.checked }
  WindowMove-IsSound (strategy s) h = record { tuned = h.tuned; checked = h.checked }
  WindowMove-IsSound (algorithm a) h = record { tuned = h.tuned; checked = h.checked }
  WindowMove-IsSound {agg = agg} {after = after} (control action small e) h =
      accepted (act action agg.config) (act-IsAccepted action agg.config small h) e
    where
      accepted :
          (m : Run AggregatorConfig)
          → Ensures IsAccepted m
          → (m >>= (λ cfg. done (record agg { config = cfg }))) ≡ done after
          → IsSound after.config
      accepted panic k e = absurd k
      accepted (done cfg) k e = let same : record agg { config = cfg } ≡ after = cc in rw⁻¹ same k.0
