-- ===== src/App/Progress.antt =====
-- When the simulation counts every packet.
use netmux.Prelude.{
  ℕ, zero, suc, ◌+◌, ◌*◌, ◌%◌, ◌≡◌, refl, List, Bool, true, false, Option, none, some, length, u64,
  Run, done, panic, Ensures, Ensures-bind, Ensures-both, arith,
}
use netmux.Float.{Float}
use netmux.Generator.{PcapGenerator, next_packet}
use netmux.Generator.Packets.{IsTcp, next_packet-IsTcp}
use netmux.Aggregator.{ForwardDecision, Aggregator, route}
use netmux.Aggregator.Routing.{
  Decides, route-Decides, IsRoutable, IsDecided, route-IsDecided, Decides-IsRoutable,
}
use netmux.App.{NetMuxApp, count_packet, sim_packet, sim_packets}
use netmux.App.Simulated.{IsReady}

module _ {F : Type 0} ⦃fl : Float F⦄ where
  -- A ready state whose engine is routable.
  pub record IsRunning (app : NetMuxApp F) : Type 0 where
    pub ready : IsReady app
    pub routable : IsRoutable app.plane.aggregator

  -- Exactly `n` packets were counted, each as 150 bytes.
  abbrev pub CountsAll : ℕ → NetMuxApp F → NetMuxApp F → Type 0
  CountsAll n app after =
      (after.plane.tx_packets ≡ u64 (app.plane.tx_packets + n))
      × (after.plane.tx_bytes ≡ u64 (app.plane.tx_bytes + 150 * n))

  -- The loop goes on, with one packet more.
  abbrev GoesOn : NetMuxApp F → Bool × NetMuxApp F → Type 0
  GoesOn app (more, after) = (more ≡ true) × IsRunning after × CountsAll 1 app after

  GoesOn-count_packet :
      (app : NetMuxApp F) (pkt : List ℕ) (g : PcapGenerator F)
      (r : Option ForwardDecision × Aggregator F)
      → IsRunning app
      → length g.seeds ≡ 8
      → IsDecided r
      → Decides app.plane.aggregator pkt r
      → GoesOn app (count_packet r g app)
  GoesOn-count_packet app pkt g (none, agg) running eight h d = absurd h
  GoesOn-count_packet app pkt g (some d, agg) running eight h (on, p, (name, e, r)) =
      let routable =
        Decides-IsRoutable pkt app.plane.aggregator agg d (on, p, (name, e, r)) running.routable in
      rw e (
        refl,
        record {
          ready = record { seeds = eight; packets = omega arith; bytes = omega arith };
          routable = routable;
        },
        (refl, refl),
      )

  GoesOn-sim_packet : (app : NetMuxApp F) → IsRunning app → Ensures (GoesOn app) (sim_packet app)
  GoesOn-sim_packet app running =
      unfold sim_packet in
      Ensures-bind (IsTcp (96 + app.plane.tx_packets % 5 * 64)) (GoesOn app)
        (next_packet (96 + app.plane.tx_packets % 5 * 64) app.generator) _
        (next_packet-IsTcp (96 + app.plane.tx_packets % 5 * 64) app.generator running.ready.seeds)
        (λ (pkt, g) (len, eight, (flow, p, _, _, _, _)).
          Ensures-bind (λ r. IsDecided r × Decides app.plane.aggregator pkt r) (GoesOn app)
            (route pkt app.plane.aggregator) _
            (Ensures-both IsDecided (Decides app.plane.aggregator pkt)
              (route pkt app.plane.aggregator)
              (route-IsDecided pkt app.plane.aggregator flow p running.routable)
              (route-Decides pkt app.plane.aggregator))
            (λ r d. GoesOn-count_packet app pkt g r running eight d.0 d.1))

  CountsAll-trans :
      (n : ℕ) (app mid : NetMuxApp F) (m : Run (NetMuxApp F))
      → CountsAll 1 app mid
      → Ensures (CountsAll n mid) m
      → Ensures (CountsAll (suc n) app) m
  CountsAll-trans n app mid panic c h = h
  CountsAll-trans n app mid (done after) (p, q) (r, s) = (omega (arith, p, r), omega (arith, q, s))

  goes_on :
      (n : ℕ) (app : NetMuxApp F) (r : Bool × NetMuxApp F)
      → GoesOn app r
      → (IsRunning r.1 → Ensures (CountsAll n r.1) (sim_packets n r.1))
      → Ensures (CountsAll (suc n) app) (elim r.0 [ true ↦ sim_packets n r.1 | false ↦ done r.1 ])
  goes_on n app (true, mid) (e, running, c) later =
      CountsAll-trans n app mid (sim_packets n mid) c (later running)
  goes_on n app (false, mid) (e, running, c) later = absurd (cc)

  -- In a ready state whose engine is on, has an enabled and healthy candidate and does not balance
  -- by load, the simulation's loop over `n` packets counts all of them, and 150 bytes for each.
  pub sim_packets-CountsAll :
      (n : ℕ) (app : NetMuxApp F) → IsRunning app → Ensures (CountsAll n app) (sim_packets n app)
  unfolding sim_packets
  sim_packets-CountsAll zero app running =
      (omega (arith, running.ready.packets), omega (arith, running.ready.bytes))
  sim_packets-CountsAll (suc n) app running =
      Ensures-bind (GoesOn app) (CountsAll (suc n) app) (sim_packet app) _
        (GoesOn-sim_packet app running) (λ r h. goes_on n app r h (sim_packets-CountsAll n r.1))
