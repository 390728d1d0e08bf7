-- ===== src/Threads/Schedules.antt =====
-- A whole round of a loop is one way in which the threads can move: a refinement of the rounds of
-- DataPlane by the steps of the threads.
use netmux.Prelude.{
  ℕ, ◌≡◌, refl, sym, ap, ◌∙◌, List, Bool, true, false, Option, none, some, Bool-cases, inl, inr,
  Run, done, panic, ◌>>=◌, if◌then◌else◌,
}
use netmux.Prelude.HashMap
use netmux.Text.{Text, Text-discrete}
use netmux.Float.{Float}
use netmux.Ipv4.{Ipv4Addr, parse_ip}
use netmux.Packet.{Flow, parse}
use netmux.Rewrite.{rewrite_ipv4_source}
use netmux.Egress.{RawEgress}
use netmux.NatTable.{Session, register}
use netmux.Aggregator.{Aggregator, ForwardDecision, route}
use netmux.DataPlane.{
  DataPlane, Sent, interface_of, is_there, send, forward, forward_by, egress_flow, egress_step,
}
use netmux.Threads.{
  Network, Target, target, target_at, EgressPc, reading, registering, sending, CapturePc,
  EgressMove, skip, read, unrouted, routed, refused, unwritten, registered, unsent, sent, count,
  count_bytes, World, egress_thread, Steps, here, later,
}

-- The state that a run leaves.
abbrev left_by : {A B : Type 0} → B → Run (A × B) → B
left_by b (done (a, c)) = c
left_by b panic = b

module _ {F : Type 0} (accepted : Sent → Bool) (net : Network) (buf : List ℕ) (flow : Flow) where
  -- `forward`, from the registration on.
  abbrev pub forward_to : Option Target → DataPlane F → Run (Option Sent × DataPlane F)
  forward_to none dp = done (none, dp)
  forward_to (some to) dp =
      forward accepted buf flow to.iface (some to.ip) (some to.sock) (some to.dst) dp

  forward_by-forward_to :
      (o : Option Text) (dp : DataPlane F)
      → forward_by accepted net.egress net.iface_ips buf flow o dp
        ≡ forward_to (target net flow o) dp
  unfolding forward_by
  forward_by-forward_to none dp = refl
  forward_by-forward_to (some iface) dp =
      at (HashMap.get Text-discrete iface net.iface_ips)
        (HashMap.get Text-discrete iface net.egress) (parse_ip flow.dst)
    where
      at :
          (ip : Option Ipv4Addr) (sock : Option RawEgress) (dst : Option Ipv4Addr)
          → forward accepted buf flow iface ip sock dst dp
            ≡ forward_to (target_at iface ip sock dst) dp
      at none sock dst = unfold forward in refl
      at (some ip) none dst = unfold forward in refl
      at (some ip) (some sock) none = unfold forward in refl
      at (some ip) (some sock) (some dst) = refl

module _ {F : Type 0} ⦃fl : Float F⦄ (accepted : Sent → Bool) (net : Network) (n : ℕ) (buf : List ℕ)
    (back : ℕ → CapturePc) where
  abbrev at : DataPlane F → EgressPc → World F
  at dp pc = record { plane = dp; out = pc; back = back }

  -- One more step of the egress thread.
  abbrev then_move :
      {w : World F} {dp dq : DataPlane F} {pc qc : EgressPc}
      → Steps net n w (at dp pc)
      → EgressMove net dp pc dq qc
      → Steps net n w (at dq qc)
  then_move steps mv = later steps (egress_thread mv)

  module _ (w : World F) (flow : Flow) (to : Target) where
    Steps-send :
        (out : List ℕ) (dp : DataPlane F)
        → Steps net n w (at dp (sending out to))
        → Steps net n w (at (send accepted to.sock to.dst (out, true) dp).1 reading)
    unfolding send
    Steps-send out dp steps =
        elim (Bool-cases (accepted (record { sock = to.sock; packet = out; dst = to.dst }))) [
          | inl took ↦ rw took (then_move (then_move (then_move steps sent) count) count_bytes)
          | inr lost ↦ rw lost (then_move steps unsent)
        ]

    Steps-forward :
        (dp after : DataPlane F) (r : Option Sent)
        → Steps net n w (at dp (registering buf flow to))
        → forward accepted buf flow to.iface (some to.ip) (some to.sock) (some to.dst) dp
          ≡ done (r, after)
        → Steps net n w (at after reading)
    unfolding forward send
    Steps-forward dp after r steps e = by_session (register dp.nat flow to.iface to.ip).1 refl e
      where
        table : DataPlane F
        table = record dp { nat = (register dp.nat flow to.iface to.ip).0 }

        by_rewrite :
            (s : Session) (m : Run (List ℕ × Bool))
            → (register dp.nat flow to.iface to.ip).1 ≡ some s
            → rewrite_ipv4_source buf to.ip ≡ m
            → (m >>= (λ out. done (send accepted to.sock to.dst out table))) ≡ done (r, after)
            → Steps net n w (at after reading)
        by_rewrite s panic a b f = absurd (cc)
        by_rewrite s (done (out, false)) a b f =
            let same : table ≡ after = ap (left_by table) f in
            rw⁻¹ same (then_move steps (unwritten a b))
        by_rewrite s (done (out, true)) a b f =
            let same : (send accepted to.sock to.dst (out, true) table).1 ≡ after =
              ap (left_by table) f in
            rw⁻¹ same (Steps-send out table (then_move steps (registered a b)))

        by_session :
            (o : Option Session)
            → (register dp.nat flow to.iface to.ip).1 ≡ o
            → (if is_there o
                then (rewrite_ipv4_source buf to.ip
                    >>= (λ out. done (send accepted to.sock to.dst out table)))
                else done (none, table))
              ≡ done (r, after)
            → Steps net n w (at after reading)
        by_session none a f =
            let same : table ≡ after = ap (left_by table) f in
            rw⁻¹ same (then_move steps (refused a))
        by_session (some s) a f = by_rewrite s (rewrite_ipv4_source buf to.ip) a refl f

  Steps-egress_flow :
      (flow : Flow) (dp after : DataPlane F) (r : Option Sent)
      → parse buf ≡ done (some flow)
      → egress_flow accepted net.egress net.iface_ips buf (some flow) dp ≡ done (r, after)
      → Steps net n (at dp reading) (at after reading)
  unfolding egress_flow
  Steps-egress_flow flow dp after r p e = by_route (route buf dp.aggregator) refl e
    where
      by_target :
          (d : Option ForwardDecision) (agg : Aggregator F) (o : Option Target)
          → route buf dp.aggregator ≡ done (d, agg)
          → target net flow (interface_of d) ≡ o
          → forward_to accepted net buf flow o (record dp { aggregator = agg }) ≡ done (r, after)
          → Steps net n (at dp reading) (at after reading)
      by_target d agg none a b f =
          let same : record dp { aggregator = agg } ≡ after = ap (left_by after) f in
          rw⁻¹ same (then_move (then_move here (read p)) (unrouted a b))
      by_target d agg (some to) a b f =
          Steps-forward (at dp reading) flow to (record dp { aggregator = agg }) after r
            (then_move (then_move here (read p)) (routed a b)) f

      by_route :
          (m : Run (Option ForwardDecision × Aggregator F))
          → route buf dp.aggregator ≡ m
          → (m >>= (λ (decision, agg).
              forward_by accepted net.egress net.iface_ips buf flow
                (interface_of decision)
                (record dp { aggregator = agg })))
            ≡ done (r, after)
          → Steps net n (at dp reading) (at after reading)
      by_route panic a f = absurd (cc)
      by_route (done (d, agg)) a f = by_target d agg (target net flow (interface_of d)) a refl (
          sym (
            forward_by-forward_to accepted net buf flow (interface_of d)
              (record dp { aggregator = agg }))
          ∙ f)

  -- What a round of the egress loop does to the shared state, the threads can do: the round is the
  -- steps of the egress thread from the head of its loop back to it, with no other thread in
  -- between, whether the packet is sent, lost or refused on the way.
  pub Steps-egress_step :
      (dp after : DataPlane F) (r : Option Sent)
      → egress_step accepted net.egress net.iface_ips buf dp ≡ done (r, after)
      → Steps net n (at dp reading) (at after reading)
  unfolding egress_step egress_flow
  Steps-egress_step dp after r e = by_parse (parse buf) refl e
    where
      by_parse :
          (m : Run (Option Flow))
          → parse buf ≡ m
          → (m >>= (λ o. egress_flow accepted net.egress net.iface_ips buf o dp)) ≡ done (r, after)
          → Steps net n (at dp reading) (at after reading)
      by_parse panic a f = absurd (cc)
      by_parse (done none) a f =
          let same : dp ≡ after = ap (left_by dp) f in rw⁻¹ same (then_move here (skip buf a))
      by_parse (done (some flow)) a f = Steps-egress_flow flow dp after r a f
