-- ===== src/Aggregator/Routing.antt =====
-- What `route` decides and what it leaves in the flow table.
use netmux.Prelude.{
  ℕ, ◌≡◌, ◌≢◌, refl, ap, List, [], ◌∷◌, Bool, true, false, if◌then◌else◌, Option, none, some, inl,
  inr, Run, done, panic, ◌>>=◌, Ensures, All,
}
use netmux.Prelude.HashMap
use netmux.Prelude.HashMap.{HashMap, get-insert_self, get-insert_ne}
use netmux.Prelude.Sorting.{In, filter}
use netmux.Text.{Text, text, starts_with, Text-discrete}
use netmux.Float.{Float}
use netmux.Sysfs.{SysEntry}
use netmux.Packet.{Flow, key, parse}
use netmux.Packet.Total.{parse-ne-panic}
use netmux.Policy.{CandidateIface, is_usable, select_interface}
use netmux.Policy.Liveness.{IsFound, IsDecisive, select_interface-IsFound}
use netmux.Policy.Choice.{NamesUsable, select_interface-NamesUsable}
use netmux.Aggregator.{
  ForwardDecision, Aggregator, remember, decide, select, route_flow, route, refresh_candidates,
}
use netmux.Aggregator.Candidates.{Scheduled, refresh_candidates-Scheduled, Scheduled-ne-netmux}

module _ {F : Type 0} ⦃fl : Float F⦄ where
  -- The interface of the decision is an enabled and healthy candidate's and the one the flow table
  -- now has under the flow's key; all else but the counter is as before.
  abbrev pub Routed : Aggregator F → Flow → Text → Aggregator F → Type 0
  Routed agg flow name after =
      (NamesUsable agg.candidates (some name, 0))
      × (HashMap.get Text-discrete (key flow) after.flow_table ≡ some name)
      × ((k : Text)
          → key flow ≢ k
          → HashMap.get Text-discrete k after.flow_table
            ≡ HashMap.get Text-discrete k agg.flow_table)
      × (record after { rr_counter = agg.rr_counter; flow_table = agg.flow_table } ≡ agg)

  -- With no decision the engine is as before, but for the counter.
  abbrev pub Decides : Aggregator F → List ℕ → Option ForwardDecision × Aggregator F → Type 0
  Decides agg pkt (none, after) = record after { rr_counter = agg.rr_counter } ≡ agg
  Decides agg pkt (some d, after) =
      (agg.config.enabled ≡ true)
      × (parse pkt ≡ done (some d.flow))
      × ((name : Text) × (d.interface ≡ some name) × Routed agg d.flow name after)

  Decides-remember :
      (agg : Aggregator F) (pkt : List ℕ) (flow : Flow) (picked : Option Text × ℕ)
      → agg.config.enabled ≡ true
      → parse pkt ≡ done (some flow)
      → NamesUsable agg.candidates picked
      → Decides agg pkt (decide flow (remember (key flow) picked agg))
  Decides-remember agg pkt flow (none, rr) on p h = refl
  Decides-remember agg pkt flow (some name, rr) on p h = (
    on,
    p,
    (
      name,
      refl,
      (
        h,
        get-insert_self Text-discrete (key flow) name agg.flow_table,
        (λ k ne. get-insert_ne Text-discrete (key flow) k name agg.flow_table ne),
        refl,
      ),
    ),
  )

  Decides-route_flow :
      (agg : Aggregator F) (pkt : List ℕ) (o : Option Flow)
      → agg.config.enabled ≡ true
      → parse pkt ≡ done o
      → Ensures (Decides agg pkt) (route_flow o agg)
  unfolding route_flow select
  Decides-route_flow agg pkt none on p = refl
  Decides-route_flow agg pkt (some flow) on p =
      picked (select_interface agg.config agg.candidates (key flow) agg.rr_counter)
        (select_interface-NamesUsable agg.config agg.candidates (key flow) agg.rr_counter)
    where
      picked :
          (m : Run (Option Text × ℕ))
          → Ensures (NamesUsable agg.candidates) m
          → Ensures
              (Decides agg pkt)
              ((m >>= (λ r. done (remember (key flow) r agg))) >>= (λ r. done (decide flow r)))
      picked (done r) h = Decides-remember agg pkt flow r on p h
      picked panic h = h

  -- On every packet `route` returns without a panic. A decision comes from an enabled engine, its
  -- flow is the packet's, its interface is an enabled and healthy candidate and is what the flow
  -- table has for the flow from then on, other flows' entries and all else but the round-robin
  -- counter staying; with no decision nothing but that counter may change.
  pub route-Decides :
      (pkt : List ℕ) (agg : Aggregator F) → Ensures (Decides agg pkt) (route pkt agg)
  route-Decides pkt agg = unfold route in gate agg.config.enabled refl
    where
      parsed :
          (m : Run (Option Flow))
          → m ≢ panic
          → parse pkt ≡ m
          → agg.config.enabled ≡ true
          → Ensures (Decides agg pkt) (m >>= (λ o. route_flow o agg))
      parsed (done o) ne e on = Decides-route_flow agg pkt o on e
      parsed panic ne e on = absurd (ne refl)

      gate :
          (b : Bool)
          → agg.config.enabled ≡ b
          → Ensures
              (Decides agg pkt)
              (if b then parse pkt >>= (λ o. route_flow o agg) else done (none, agg))
      gate true on = parsed (parse pkt) (parse-ne-panic pkt) refl on
      gate false off = refl

  in_of_All :
      (P : CandidateIface F → Type 0) (l : List (CandidateIface F)) (c : CandidateIface F)
      → All P l
      → In c l
      → P c
  in_of_All P [] c h i = absurd i
  in_of_All P (d ∷ l) c (p, h) (inl e) = rw (← e) at p
  in_of_All P (d ∷ l) c (p, h) (inr i) = in_of_All P l c h i

  -- After a refresh of the candidates, a decision's interface is never one whose name starts with
  -- "netmux": no packet from the TUN device is sent back into it.
  pub route-ne-netmux :
      (entries : Option (List SysEntry)) (agg after : Aggregator F) (pkt : List ℕ)
      (d : ForwardDecision) (name : Text)
      → route pkt (refresh_candidates entries agg) ≡ done (some d, after)
      → d.interface ≡ some name
      → starts_with name (text "netmux") ≢ true
  unfolding refresh_candidates
  route-ne-netmux entries agg after pkt d name e f h =
      let ready = refresh_candidates entries agg in
      let (on, p, (other, g, ((c, i, u, n), q, r, w))) = rw e at (route-Decides pkt ready) in
      let s =
        in_of_All (Scheduled agg.config) ready.candidates c
          (refresh_candidates-Scheduled entries agg) i in
      let same : c.name ≡ name = cc in Scheduled-ne-netmux agg.config c s (rw same h)

  -- The engine is on, a candidate is usable and the strategy does not compare loads.
  pub record IsRoutable (agg : Aggregator F) : Type 0 where
    pub on : agg.config.enabled ≡ true
    pub some_usable :
        (c : CandidateIface F) × (rest : List (CandidateIface F)) × (filter is_usable agg.candidates
          ≡ c ∷ rest)
    pub decisive : IsDecisive agg.config

  abbrev pub IsDecided : Option ForwardDecision × Aggregator F → Type 0
  IsDecided (none, after) = ⊥
  IsDecided (some d, after) = Unit

  -- A packet that parses is routed by an engine that is routable.
  pub route-IsDecided :
      (pkt : List ℕ) (agg : Aggregator F) (flow : Flow)
      → parse pkt ≡ done (some flow)
      → IsRoutable agg
      → Ensures IsDecided (route pkt agg)
  unfolding route route_flow select
  route-IsDecided pkt agg flow p r = gate agg.config.enabled r.on (parse pkt) p
    where
      found :
          (m : Run (Option Text × ℕ))
          → Ensures IsFound m
          → Ensures IsDecided (
              (m >>= (λ picked. done (remember (key flow) picked agg)))
              >>= (λ selected. done (decide flow selected)))
      found (done (some name, rr)) h = tt
      found (done (none, rr)) h = h
      found panic h = h

      gate :
          (b : Bool)
          → b ≡ true
          → (m : Run (Option Flow)) → m ≡ done (some flow)
          → Ensures IsDecided (if b then m >>= (λ o. route_flow o agg) else done (none, agg))
      gate false e m q = absurd (cc)
      gate true e m q =
          let (c, rest, there) = r.some_usable in
          rw q (
            found (select_interface agg.config agg.candidates (key flow) agg.rr_counter) (
              select_interface-IsFound agg.config agg.candidates c rest (key flow) agg.rr_counter
                there r.decisive))

  -- A decision leaves a routable engine routable.
  pub Decides-IsRoutable :
      (pkt : List ℕ) (agg after : Aggregator F) (d : ForwardDecision)
      → Decides agg pkt (some d, after)
      → IsRoutable agg
      → IsRoutable after
  Decides-IsRoutable pkt agg after d (on, p, (name, i, (u, e, o, same))) r =
      let cfg : after.config ≡ agg.config = ap (λ (a : Aggregator F). a.config) same in
      let cs : after.candidates ≡ agg.candidates = ap (λ (a : Aggregator F). a.candidates) same in
      record { on = rw cfg r.on; some_usable = rw cs r.some_usable; decisive = rw cfg r.decisive }
