-- ===== src/Threads/Invariant.antt =====
-- What holds in every reachable world.
use netmux.Prelude.{ℕ, ◌≡◌, refl, Bool-cases, inl, inr, ◌==◌}
use netmux.Prelude.HashMap.{Order}
use netmux.Float.{Float}
use netmux.NatTable.{Session, FlowKey, NatTable}
use netmux.NatTable.Valid.{IsValid, new-IsValid}
use netmux.NatTable.Register.{register-IsValid}
use netmux.Aggregator.{Aggregator}
use netmux.DataPlane.{DataPlane}
use netmux.App.Actions.{IsSound}
use netmux.Threads.{
  Network, CapturePc, CaptureMove, ignore, receive, unknown, unchanged, found, unaccepted, written,
  count_reply, World, moved, Step, egress_thread, capture_thread, window, Steps, here, later,
  initial,
}
use netmux.Threads.Established.{EgressMove-nat}
use netmux.Threads.Holds.{
  EgressHolds, CaptureHolds, EgressMove-holds, CaptureMove-holds, CaptureHolds-register,
}
use netmux.Threads.Sound.{EgressMove-IsSound, WindowMove-IsSound}

pub record Inv {F : Type 0} (net : Network) (w : World F) : Type 0 where
  pub valid : IsValid w.plane.nat
  pub sound : IsSound w.plane.aggregator.config
  pub outgoing : EgressHolds net w.plane.nat w.out
  pub incoming : (i : ℕ) → CaptureHolds w.plane.nat (w.back i)

CaptureHolds-moved :
    (t : NatTable) (pcs : ℕ → CapturePc) (i j : ℕ) (pc : CapturePc)
    → CaptureHolds t pc
    → CaptureHolds t (pcs j)
    → CaptureHolds t (moved pcs i pc j)
CaptureHolds-moved t pcs i j pc h k = elim (Bool-cases (i == j)) [
  | inl same ↦ rw same h
  | inr other ↦ rw other k
]

-- A capture thread never changes the session table or the configuration.
CaptureMove-same :
    {F : Type 0} {dp dq : DataPlane F} {pc qc : CapturePc}
    → CaptureMove dp pc dq qc
    → (dq.nat ≡ dp.nat) × (dq.aggregator ≡ dp.aggregator)
CaptureMove-same ignore = (refl, refl)
CaptureMove-same (receive a b p q r) = (refl, refl)
CaptureMove-same (unknown p) = (refl, refl)
CaptureMove-same (unchanged p q) = (refl, refl)
CaptureMove-same (found p q) = (refl, refl)
CaptureMove-same unaccepted = (refl, refl)
CaptureMove-same written = (refl, refl)
CaptureMove-same count_reply = (refl, refl)

module _ {F : Type 0} ⦃fl : Float F⦄ where
  Step-Inv : {net : Network} {n : ℕ} {w v : World F} → Step net n w v → Inv net w → Inv net v
  Step-Inv {net = net} {w = w} (egress_thread {dp = dp} mv) inv = record {
    valid = EgressMove-nat IsValid register-IsValid mv inv.valid;
    sound = EgressMove-IsSound mv inv.sound;
    outgoing = EgressMove-holds net mv inv.outgoing;
    incoming = λ i.
        EgressMove-nat (λ t. CaptureHolds t (w.back i))
          (λ t flow iface ip h. CaptureHolds-register t flow iface ip (w.back i) h) mv
          (inv.incoming i);
  }
  Step-Inv {net = net} {w = w} (capture_thread i {dp = dp} {pc = pc} lt mv) inv =
      let (nat, agg) = CaptureMove-same mv in
      record {
        valid = rw nat inv.valid;
        sound = rw agg inv.sound;
        outgoing = rw nat inv.outgoing;
        incoming = λ j.
            CaptureHolds-moved dp.nat w.back i j pc
              (CaptureMove-holds net mv inv.valid (inv.incoming i)) (rw nat (inv.incoming j));
      }
  Step-Inv (window mv) inv = record {
    valid = inv.valid;
    sound = WindowMove-IsSound mv inv.sound;
    outgoing = inv.outgoing;
    incoming = inv.incoming;
  }

  pub Inv-initial :
      (net : Network) (order : Order FlowKey Session) (agg : Aggregator F)
      → IsSound agg.config
      → Inv net (initial order agg)
  Inv-initial net order agg sound = record {
    valid = new-IsValid order;
    sound = sound;
    outgoing = tt;
    incoming = λ i. tt;
  }

  -- In every world that the threads reach, in any order of their steps, from the start with a
  -- sound configuration: the session table is valid and the configuration sound; a packet about to
  -- be sent is the source rewrite of a packet to the address of an interface, towards the flow's
  -- destination and through the interface's socket, and its flow has a session; a packet about to
  -- be written is the destination rewrite of a reply to the client of a session in the table whose
  -- replies have the key of this one.
  pub Steps-Inv :
      {net : Network} {n : ℕ} {order : Order FlowKey Session} {agg : Aggregator F} {w : World F}
      → IsSound agg.config
      → Steps net n (initial order agg) w
      → Inv net w
  Steps-Inv {net = net} {order = order} {agg = agg} sound here = Inv-initial net order agg sound
  Steps-Inv sound (later steps st) = Step-Inv st (Steps-Inv sound steps)
