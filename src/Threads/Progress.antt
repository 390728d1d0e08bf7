-- ===== src/Threads/Progress.antt =====
-- No thread panics or is stuck.
use netmux.Prelude.{
  ℕ, ◌≡◌, ◌≢◌, refl, List, Bool, true, false, Option, none, some, Option-cases, inl, inr, Run, done,
  panic, ◌>>=◌, Ensures, Returns, length, ltb, shr, get_or, ◌==◌, ==_iff,
}
use netmux.Prelude.HashMap.{Order}
use netmux.Float.{Float}
use netmux.Ipv4.{Ipv4Addr, parse_ip}
use netmux.Packet.{Flow, parse}
use netmux.Packet.Total.{parse-ne-panic}
use netmux.Rewrite.{rewrite_ipv4_source, rewrite_ipv4_dest}
use netmux.Rewrite.Closed.{rewrite_ipv4_source-done, rewrite_ipv4_dest-done}
use netmux.NatTable.{Session, FlowKey, register, lookup_return}
use netmux.Policy.{AggregatorConfig}
use netmux.Aggregator.{Aggregator, ForwardDecision, route}
use netmux.Aggregator.Routing.{Decides, route-Decides}
use netmux.DataPlane.{DataPlane, interface_of, reply_key}
use netmux.App.{IfaceAction, act, iface_action}
use netmux.App.Actions.{IsSound, IsAccepted, IsSmallAction, act-IsAccepted}
use netmux.Threads.{
  Network, target, EgressPc, reading, routing, registering, sending, counting, counting_bytes,
  CapturePc, receiving, looking_up, writing, counting_reply, EgressMove, skip, read, unrouted,
  routed, refused, unwritten, registered, sent, count, count_bytes, CaptureMove, ignore, receive,
  unknown, unchanged, found, written, count_reply, World, Steps, initial,
}
use netmux.Threads.Invariant.{Steps-Inv}

module _ {F : Type 0} ⦃fl : Float F⦄ (net : Network) (dp : DataPlane F) where
  -- Where the egress thread stands after it has parsed what it read.
  abbrev pub after_read : List ℕ → Option Flow → EgressPc
  after_read buf none = reading
  after_read buf (some flow) = routing buf flow

  -- At the head of its loop the egress thread parses the packet without a panic and goes on by what
  -- it parsed; elsewhere it has a next step.
  abbrev pub EgressGoesOn : List ℕ → EgressPc → Type 0
  EgressGoesOn buf reading =
      Ensures (λ o. EgressMove net dp reading dp (after_read buf o)) (parse buf)
  EgressGoesOn buf pc = (dq : DataPlane F) × (qc : EgressPc) × EgressMove net dp pc dq qc

  abbrev pub looks_up : List ℕ → Flow → Option Ipv4Addr → Option Ipv4Addr → CapturePc
  looks_up buf flow none dst = receiving
  looks_up buf flow (some src) none = receiving
  looks_up buf flow (some src) (some dst) = looking_up buf (reply_key flow src dst)

  -- Where a capture thread stands after it has parsed what it received.
  abbrev pub after_receive : List ℕ → Option Flow → CapturePc
  after_receive buf none = receiving
  after_receive buf (some flow) = looks_up buf flow (parse_ip flow.src) (parse_ip flow.dst)

  -- A packet that is too short, or is not of version 4, is left alone.
  abbrev pub Receives : List ℕ → Bool → Bool → Type 0
  Receives buf true four = CaptureMove dp receiving dp receiving
  Receives buf false false = CaptureMove dp receiving dp receiving
  Receives buf false true =
      Ensures (λ o. CaptureMove dp receiving dp (after_receive buf o)) (parse buf)

  abbrev pub CaptureGoesOn : List ℕ → CapturePc → Type 0
  CaptureGoesOn buf receiving = Receives buf (ltb (length buf) 20) (shr (get_or buf 0 0) 4 == 4)
  CaptureGoesOn buf pc = (dq : DataPlane F) × (qc : CapturePc) × CaptureMove dp pc dq qc

  egress_goes_on : (buf : List ℕ) (pc : EgressPc) → EgressGoesOn buf pc
  egress_goes_on buf reading = by_parse (parse buf) (parse-ne-panic buf) refl
    where
      by_parse :
          (m : Run (Option Flow))
          → m ≢ panic
          → parse buf ≡ m
          → Ensures (λ o. EgressMove net dp reading dp (after_read buf o)) m
      by_parse panic ne e = absurd (ne refl)
      by_parse (done none) ne e = skip buf e
      by_parse (done (some flow)) ne e = read e
  egress_goes_on other (routing buf flow) =
      by_route (route buf dp.aggregator) (route-Decides buf dp.aggregator) refl
    where
      by_route :
          (m : Run (Option ForwardDecision × Aggregator F))
          → Ensures (Decides dp.aggregator buf) m
          → route buf dp.aggregator ≡ m
          → EgressGoesOn other (routing buf flow)
      by_route panic h e = absurd h
      by_route (done (d, agg)) h e = elim (Option-cases (target net flow (interface_of d))) [
        | inl none_there ↦ (record dp { aggregator = agg }, reading, unrouted e none_there)
        | inr (to, there) ↦
            (record dp { aggregator = agg }, registering buf flow to, routed e there)
      ]
  egress_goes_on other (registering buf flow to) =
      elim (Option-cases (register dp.nat flow to.iface to.ip).1) [
        | inl e ↦ (record dp { nat = (register dp.nat flow to.iface to.ip).0 }, reading, refused e)
        | inr (s, e) ↦
            by_rewrite s e (rewrite_ipv4_source buf to.ip) (rw rewrite_ipv4_source-done tt) refl
      ]
    where
      by_rewrite :
          (s : Session)
          → (register dp.nat flow to.iface to.ip).1 ≡ some s
          → (m : Run (List ℕ × Bool)) → Returns m
          → rewrite_ipv4_source buf to.ip ≡ m
          → EgressGoesOn other (registering buf flow to)
      by_rewrite s e panic h f = absurd h
      by_rewrite s e (done (out, false)) h f =
          (record dp { nat = (register dp.nat flow to.iface to.ip).0 }, reading, unwritten e f)
      by_rewrite s e (done (out, true)) h f = (
        record dp { nat = (register dp.nat flow to.iface to.ip).0 },
        sending out to,
        registered e f,
      )
  egress_goes_on other (sending out to) = (dp, counting out, sent)
  egress_goes_on other (counting out) = (_, counting_bytes out, count)
  egress_goes_on other (counting_bytes out) = (_, reading, count_bytes)

  capture_goes_on : (buf : List ℕ) (pc : CapturePc) → CaptureGoesOn buf pc
  capture_goes_on buf receiving =
      by_guards (ltb (length buf) 20) (shr (get_or buf 0 0) 4 == 4) refl refl
    where
      by_addresses :
          (flow : Flow) (src dst : Option Ipv4Addr)
          → ltb (length buf) 20 ≡ false
          → shr (get_or buf 0 0) 4 ≡ 4
          → parse buf ≡ done (some flow)
          → parse_ip flow.src ≡ src
          → parse_ip flow.dst ≡ dst
          → CaptureMove dp receiving dp (looks_up buf flow src dst)
      by_addresses flow none dst l v e a b = ignore
      by_addresses flow (some src) none l v e a b = ignore
      by_addresses flow (some src) (some dst) l v e a b = receive l v e a b

      by_parse :
          (m : Run (Option Flow))
          → m ≢ panic
          → ltb (length buf) 20 ≡ false
          → shr (get_or buf 0 0) 4 ≡ 4
          → parse buf ≡ m
          → Ensures (λ o. CaptureMove dp receiving dp (after_receive buf o)) m
      by_parse panic ne l v e = absurd (ne refl)
      by_parse (done none) ne l v e = ignore
      by_parse (done (some flow)) ne l v e =
          by_addresses flow (parse_ip flow.src) (parse_ip flow.dst) l v e refl refl

      by_guards :
          (short four : Bool)
          → ltb (length buf) 20 ≡ short
          → (shr (get_or buf 0 0) 4 == 4) ≡ four
          → Receives buf short four
      by_guards true four l v = ignore
      by_guards false false l v = ignore
      by_guards false true l v =
          by_parse (parse buf) (parse-ne-panic buf) l ((==_iff (shr (get_or buf 0 0) 4) 4).0 v) refl
  capture_goes_on other (looking_up buf k) = elim (Option-cases (lookup_return dp.nat k)) [
    | inl e ↦ (dp, receiving, unknown e)
    | inr (s, e) ↦
        by_rewrite s e (rewrite_ipv4_dest buf s.client_ip) (rw rewrite_ipv4_dest-done tt) refl
  ]
    where
      by_rewrite :
          (s : Session)
          → lookup_return dp.nat k ≡ some s
          → (m : Run (List ℕ × Bool)) → Returns m
          → rewrite_ipv4_dest buf s.client_ip ≡ m
          → CaptureGoesOn other (looking_up buf k)
      by_rewrite s e panic h f = absurd h
      by_rewrite s e (done (out, false)) h f = (dp, receiving, unchanged e f)
      by_rewrite s e (done (out, true)) h f = (dp, writing out, found e f)
  capture_goes_on other (writing out) = (dp, counting_reply, written)
  capture_goes_on other counting_reply = (_, receiving, count_reply)

module _ {F : Type 0} ⦃fl : Float F⦄ where
  control_goes_on :
      (agg : Aggregator F) (action : IfaceAction)
      → IsSmallAction action
      → IsSound agg.config
      → (after : Aggregator F) × (iface_action action agg ≡ done after)
  unfolding iface_action
  control_goes_on agg action small sound =
      accepted (act action agg.config) (act-IsAccepted action agg.config small sound)
    where
      accepted :
          (m : Run AggregatorConfig)
          → Ensures IsAccepted m
          → (after : Aggregator F) × ((m >>= (λ cfg. done (record agg { config = cfg })))
              ≡ done after)
      accepted panic h = absurd h
      accepted (done cfg) h = (record agg { config = cfg }, refl)

  -- In every world that the threads reach from the start with a sound configuration, no thread
  -- panics or is stuck. At the head of its loop a thread parses any packet without a panic and goes
  -- on by what it parsed: the egress thread routes the flow, if there is one, and a capture thread
  -- looks up the reply, if the packet is of version 4 with 20 bytes or more and of a flow between
  -- IPv4 addresses. Elsewhere the thread has a next step. And each action of a control, with a step
  -- of at most 2 ^ 30 either way, takes effect.
  pub Steps-go_on :
      {net : Network} {n : ℕ} {order : Order FlowKey Session} {agg : Aggregator F} {w : World F}
      → IsSound agg.config
      → Steps net n (initial order agg) w
      → (buf : List ℕ) (i : ℕ) (action : IfaceAction) → IsSmallAction action
      → EgressGoesOn net w.plane buf w.out
        × CaptureGoesOn net w.plane buf (w.back i)
        × ((after : Aggregator F) × (iface_action action w.plane.aggregator ≡ done after))
  Steps-go_on {net = net} {w = w} sound steps buf i action small = (
    egress_goes_on net w.plane buf w.out,
    capture_goes_on net w.plane buf (w.back i),
    control_goes_on w.plane.aggregator action small (Steps-Inv sound steps).sound,
  )
