-- ===== src/Threads/Established.antt =====
-- Sessions under every interleaving.
use netmux.Prelude.{ℕ, ◌≡◌, some}
use netmux.Float.{Float}
use netmux.Text.{Text}
use netmux.Ipv4.{Ipv4Addr}
use netmux.Packet.{Flow}
use netmux.NatTable.{Session, FlowKey, NatTable, register}
use netmux.NatTable.Valid.{outbound}
use netmux.NatTable.Stable.{outbound-stable}
use netmux.DataPlane.{DataPlane}
use netmux.Threads.{
  Network, EgressPc, CapturePc, EgressMove, skip, read, unrouted, routed, refused, unwritten,
  registered, unsent, sent, count, count_bytes, CaptureMove, ignore, receive, unknown, unchanged,
  found, unaccepted, written, count_reply, World, Step, egress_thread, capture_thread, window,
  Steps, here, later,
}

-- What every registration keeps.
abbrev pub IsClosed : (NatTable → Type 0) → Type 0
IsClosed P =
    (t : NatTable) (flow : Flow) (iface : Text) (ip : Ipv4Addr)
    → P t
    → P (register t flow iface ip).0

module _ {F : Type 0} ⦃fl : Float F⦄ (P : NatTable → Type 0) (closed : IsClosed P) where
  pub EgressMove-nat :
      {net : Network} {dp dq : DataPlane F} {pc qc : EgressPc}
      → EgressMove net dp pc dq qc
      → P dp.nat
      → P dq.nat
  EgressMove-nat (skip buf p) h = h
  EgressMove-nat (read p) h = h
  EgressMove-nat (unrouted p q) h = h
  EgressMove-nat (routed p q) h = h
  EgressMove-nat (refused p) h = closed _ _ _ _ h
  EgressMove-nat (unwritten p q) h = closed _ _ _ _ h
  EgressMove-nat (registered p q) h = closed _ _ _ _ h
  EgressMove-nat unsent h = h
  EgressMove-nat sent h = h
  EgressMove-nat count h = h
  EgressMove-nat count_bytes h = h

  pub CaptureMove-nat :
      {dp dq : DataPlane F} {pc qc : CapturePc} → CaptureMove dp pc dq qc → P dp.nat → P dq.nat
  CaptureMove-nat ignore h = h
  CaptureMove-nat (receive a b p q r) h = h
  CaptureMove-nat (unknown p) h = h
  CaptureMove-nat (unchanged p q) h = h
  CaptureMove-nat (found p q) h = h
  CaptureMove-nat unaccepted h = h
  CaptureMove-nat written h = h
  CaptureMove-nat count_reply h = h

  Step-nat :
      {net : Network} {n : ℕ} {w v : World F} → Step net n w v → P w.plane.nat → P v.plane.nat
  Step-nat (egress_thread mv) h = EgressMove-nat mv h
  Step-nat (capture_thread i lt mv) h = CaptureMove-nat mv h
  Step-nat (window mv) h = h

  pub Steps-nat :
      {net : Network} {n : ℕ} {w v : World F} → Steps net n w v → P w.plane.nat → P v.plane.nat
  Steps-nat here h = h
  Steps-nat (later steps st) h = Step-nat st (Steps-nat steps h)

module _ {F : Type 0} ⦃fl : Float F⦄ where
  -- However the threads interleave, a session stays where it stands in the table.
  pub outbound-Steps :
      {net : Network} {n : ℕ} {w v : World F}
      → Steps net n w v
      → (k : FlowKey) (s : Session) → outbound k w.plane.nat ≡ some s
      → outbound k v.plane.nat ≡ some s
  outbound-Steps steps k s =
      Steps-nat (λ t. outbound k t ≡ some s)
        (λ t flow iface ip h. outbound-stable t flow iface ip k s h) steps
