-- ===== src/App/Simulated.antt =====
-- The simulation's tick.
use netmux.Prelude.{
  ℕ, zero, suc, ◌+◌, ◌*◌, ◌%◌, ◌^◌, ◌≤◌, ◌<◌, ◌≡◌, refl, List, Bool, true, false, Option, none,
  some, length, u64, Run, done, panic, Ensures, Ensures-bind, arith,
}
use netmux.Float.{Float}
use netmux.Generator.{PcapGenerator, next_packet}
use netmux.Generator.Packets.{IsTcp, next_packet-IsTcp}
use netmux.Aggregator.{ForwardDecision, Aggregator, route}
use netmux.Aggregator.Routing.{Decides, route-Decides}
use netmux.App.{NetMuxApp, count_packet, sim_packet, sim_packets}

module _ {F : Type 0} where
  -- The generator has its seeds and the counters are 64-bit numbers.
  pub record IsReady (app : NetMuxApp F) : Type 0 where
    pub seeds : length app.generator.seeds ≡ 8
    pub packets : app.plane.tx_packets < 2 ^ 64
    pub bytes : app.plane.tx_bytes < 2 ^ 64

  -- At most `n` packets were counted, each as 150 bytes.
  abbrev pub Counted : ℕ → NetMuxApp F → NetMuxApp F → Type 0
  Counted n app after =
      (k : ℕ) × (k ≤ n)
      × (after.plane.tx_packets ≡ u64 (app.plane.tx_packets + k))
      × (after.plane.tx_bytes ≡ u64 (app.plane.tx_bytes + 150 * k))

  Counted-trans :
      (n : ℕ) (a b c : NetMuxApp F) → Counted 1 a b → Counted n b c → Counted (suc n) a c
  Counted-trans n a b c (k, h, p, q) (j, i, r, s) =
      (k + j, omega arith, omega (arith, p, r), omega (arith, q, s))

  Counted-mono : (a b : NetMuxApp F) (n : ℕ) → Counted 1 a b → Counted (suc n) a b
  Counted-mono a b n (k, h, p, q) = (k, omega arith, p, q)

  abbrev Step : NetMuxApp F → Bool × NetMuxApp F → Type 0
  Step app (more, after) = IsReady after × Counted 1 app after

module _ {F : Type 0} ⦃fl : Float F⦄ where
  Step-count_packet :
      (app : NetMuxApp F) (pkt : List ℕ) (g : PcapGenerator F)
      (r : Option ForwardDecision × Aggregator F)
      → IsReady app
      → length g.seeds ≡ 8
      → Decides app.plane.aggregator pkt r
      → Step app (count_packet r g app)
  Step-count_packet app pkt g (none, agg) ready eight d = (
    record { seeds = eight; packets = ready.packets; bytes = ready.bytes },
    (0, omega arith, omega (arith, ready.packets), omega (arith, ready.bytes)),
  )
  Step-count_packet app pkt g (some d, agg) ready eight (on, p, (name, e, r)) = rw e (
    record { seeds = eight; packets = omega arith; bytes = omega arith },
    (1, omega arith, refl, refl),
  )

  Step-sim_packet : (app : NetMuxApp F) → IsReady app → Ensures (Step app) (sim_packet app)
  Step-sim_packet app ready =
      unfold sim_packet in
      Ensures-bind (IsTcp (96 + app.plane.tx_packets % 5 * 64)) (Step app)
        (next_packet (96 + app.plane.tx_packets % 5 * 64) app.generator) _
        (next_packet-IsTcp (96 + app.plane.tx_packets % 5 * 64) app.generator ready.seeds)
        (λ (pkt, g) (len, eight, flow).
          Ensures-bind (Decides app.plane.aggregator pkt) (Step app)
            (route pkt app.plane.aggregator) _ (route-Decides pkt app.plane.aggregator)
            (λ r d. Step-count_packet app pkt g r ready eight d))

  abbrev Simulated : ℕ → NetMuxApp F → NetMuxApp F → Type 0
  Simulated n app after = IsReady after × Counted n app after

  Simulated-trans :
      (n : ℕ) (app mid : NetMuxApp F) (m : Run (NetMuxApp F))
      → Counted 1 app mid
      → Ensures (Simulated n mid) m
      → Ensures (Simulated (suc n) app) m
  Simulated-trans n app mid panic c h = h
  Simulated-trans n app mid (done after) c (ready, h) = (ready, Counted-trans n app mid after c h)

  goes_on :
      (n : ℕ) (app : NetMuxApp F) (r : Bool × NetMuxApp F)
      → Step app r
      → (IsReady r.1 → Ensures (Simulated n r.1) (sim_packets n r.1))
      → Ensures (Simulated (suc n) app) (elim r.0 [ true ↦ sim_packets n r.1 | false ↦ done r.1 ])
  goes_on n app (true, mid) (ready, c) later =
      Simulated-trans n app mid (sim_packets n mid) c (later ready)
  goes_on n app (false, mid) (ready, c) later = (ready, Counted-mono app mid n c)

  -- From a ready state the simulation's loop over at most `n` packets returns without a panic and
  -- leaves the state ready, having counted some number of packets, at most `n`, and 150 bytes for
  -- each.
  pub sim_packets-Counted :
      (n : ℕ) (app : NetMuxApp F)
      → IsReady app
      → Ensures (λ after. IsReady after × Counted n app after) (sim_packets n app)
  unfolding sim_packets
  sim_packets-Counted zero app ready =
      (ready, (0, omega arith, omega (arith, ready.packets), omega (arith, ready.bytes)))
  sim_packets-Counted (suc n) app ready =
      Ensures-bind (Step app) (Simulated (suc n) app) (sim_packet app) _ (Step-sim_packet app ready)
        (λ r h. goes_on n app r h (sim_packets-Counted n r.1))
