-- ===== src/Threads/Rounds.antt =====
-- Whole rounds of the loops, and what the window does to the engine, one after the other.
use netmux.Prelude.{
  ℕ, ◌<◌, ◌≡◌, ◌≢◌, refl, sym, ◌∙◌, ◌==◌, ==_iff, List, Bool, false, Option, none, some, length,
  ltb, shr, get_or, Bool-cases, inl, inr, Run, done, index-get_or, arith,
}
use netmux.Float.{Float}
use netmux.NatTable.{FlowKey}
use netmux.Aggregator.{Aggregator}
use netmux.DataPlane.{DataPlane, Sent, reply_key, egress_step, capture_step}
use netmux.DataPlane.Inbound.{capture_step-Captured}
use netmux.Threads.{
  Network, reading, CapturePc, receiving, looking_up, writing, counting_reply, CaptureMove, receive,
  found, written, count_reply, WindowMove, World, moved, capture_thread, window, Steps, here, later,
}
use netmux.Threads.Schedules.{Steps-egress_step}

moved_self : (pcs : ℕ → CapturePc) (i : ℕ) (pc : CapturePc) → moved pcs i pc i ≡ pc
moved_self pcs i pc = rw ((==_iff i i).1 refl) refl

moved_other : (pcs : ℕ → CapturePc) (i j : ℕ) (pc : CapturePc) → i ≢ j → moved pcs i pc j ≡ pcs j
moved_other pcs i j pc ne = let differ : (i == j) ≡ false = ground arith in rw differ refl

module _ {F : Type 0} ⦃fl : Float F⦄ where
  wrote_nothing :
      (out : List ℕ) (dp after : DataPlane F)
      → ◌≢◌ {A = Run (Option (List ℕ) × DataPlane F)} (done (none, dp)) (done (some out, after))
  wrote_nothing out dp after e = cc

  -- A round that writes a packet has passed both tests on what it received.
  capture_step-guards :
      (accepted : List ℕ → Bool) (buf : List ℕ) (dp : DataPlane F) (out : List ℕ)
      (after : DataPlane F)
      → capture_step accepted buf dp ≡ done (some out, after)
      → (ltb (length buf) 20 ≡ false) × (shr (get_or buf 0 0) 4 ≡ 4)
  unfolding capture_step
  capture_step-guards accepted buf dp out after e = elim (Bool-cases (ltb (length buf) 20)) [
    | inl short ↦ absurd (wrote_nothing out dp after (rw short at e))
    | inr long ↦ elim (Bool-cases (shr (get_or buf 0 0) 4 == 4)) [
      | inl v ↦ (long, (==_iff (shr (get_or buf 0 0) 4) 4).0 v)
      | inr v ↦
          absurd
            (wrote_nothing out dp after (rw (long, index-get_or buf 0 0 (ground arith), v) at e))
    ]
  ]

module _ {F : Type 0} ⦃fl : Float F⦄ (net : Network) (n i : ℕ) (lt : i < n) where
  -- The worlds that a capture thread reaches with the rest as it was.
  abbrev Reaches : World F → DataPlane F → CapturePc → Type 0
  Reaches w dp pc =
      (v : World F) × Steps net n w v
      × (v.plane ≡ dp)
      × (v.out ≡ w.out)
      × (v.back i ≡ pc)
      × ((j : ℕ) → i ≢ j → v.back j ≡ w.back j)

  Reaches-move :
      (w : World F) (dp dq : DataPlane F) (pc qc : CapturePc)
      → Reaches w dp pc
      → CaptureMove dp pc dq qc
      → Reaches w dq qc
  Reaches-move w dp dq pc qc (v, steps, plane, out, back, others) mv = (
    record v { plane = dq; back = moved v.back i qc },
    later steps (capture_thread i lt (rw (plane, back) mv)),
    refl,
    out,
    moved_self v.back i qc,
    λ j ne. moved_other v.back i j qc ne ∙ others j ne,
  )

  -- What a round of a capture loop does to the shared state, its thread can do on its own.
  Reaches-capture_step :
      (accepted : List ℕ → Bool) (buf : List ℕ) (w : World F) (after : DataPlane F)
      (r : Option (List ℕ))
      → w.back i ≡ receiving
      → capture_step accepted buf w.plane ≡ done (r, after)
      → Reaches w after receiving
  Reaches-capture_step accepted buf w after none start e =
      let same : after ≡ w.plane = rw e at (capture_step-Captured accepted buf w.plane) in
      (w, here, sym same, refl, start, λ j ne. refl)
  Reaches-capture_step accepted buf w after (some out) start e =
      let (took, d) = rw e at (capture_step-Captured accepted buf w.plane) in
      let k : FlowKey = reply_key d.flow d.src d.dst in
      let dp = w.plane in
      let (long, four) = capture_step-guards accepted buf dp out after e in
      rw d.counted (
        Reaches-move w dp _ counting_reply receiving
          (Reaches-move w dp dp (writing out) counting_reply
            (Reaches-move w dp dp (looking_up buf k) (writing out)
              (Reaches-move w dp dp receiving (looking_up buf k)
                (w, here, refl, refl, start, λ j ne. refl)
                (receive long four d.parsed d.source d.target))
              (found d.found d.rewritten))
            written)
          count_reply)

-- Each round runs from the head of its loop back to it before the next one starts.
pub data Rounds {F : Type 0} ⦃fl : Float F⦄ (net : Network) (dp : DataPlane F)
    : DataPlane F → Type 0 where
  no_round : Rounds net dp dp
  packet_round :
      {dq after : DataPlane F} {r : Option Sent} (buf : List ℕ) (accepted : Sent → Bool)
      → Rounds net dp dq
      → egress_step accepted net.egress net.iface_ips buf dq ≡ done (r, after)
      → Rounds net dp after
  reply_round :
      {dq after : DataPlane F} {r : Option (List ℕ)} (buf : List ℕ) (accepted : List ℕ → Bool)
      → Rounds net dp dq
      → capture_step accepted buf dq ≡ done (r, after)
      → Rounds net dp after
  window_round :
      {dq : DataPlane F} {agg : Aggregator F}
      → Rounds net dp dq
      → WindowMove dq.aggregator agg
      → Rounds net dp (record dq { aggregator = agg })

module _ {F : Type 0} ⦃fl : Float F⦄ (net : Network) (n : ℕ) where
  Steps-append : {w v u : World F} → Steps net n w v → Steps net n v u → Steps net n w u
  Steps-append first here = first
  Steps-append first (later steps step) = later (Steps-append first steps) step

  -- The worlds with this shared state in which every thread is at the head of its loop.
  abbrev pub IsIdle : DataPlane F → World F → Type 0
  IsIdle dp w = (w.plane ≡ dp) × (w.out ≡ reading) × ((j : ℕ) → w.back j ≡ receiving)

  abbrev pub ReachesIdle : World F → DataPlane F → Type 0
  ReachesIdle w dp = (v : World F) × Steps net n w v × IsIdle dp v

  idle_again :
      (i : ℕ) (lt : i < n) (w : World F) (after : DataPlane F)
      → w.out ≡ reading
      → ((j : ℕ) → w.back j ≡ receiving)
      → Reaches net n i lt w after receiving
      → ReachesIdle w after
  idle_again i lt w after out back (v, steps, plane, same, own, others) = (
    v,
    steps,
    (
      plane,
      same ∙ out,
      λ j. elim (Bool-cases (i == j)) [
        | inl is ↦ rw⁻¹ ((==_iff i j).0 is) own
        | inr differ ↦ others j (ground arith) ∙ back j
      ],
    ),
  )

  -- The rounds and the window's calls, run one after the other from a state, can be run by the
  -- threads, if there is a capture thread: from every world with that state where all threads are
  -- at the head of their loops, to one with the state the rounds end in, where they all are again.
  pub Rounds-Steps :
      {dp dq : DataPlane F}
      → 0 < n
      → Rounds net dp dq
      → (w : World F) → IsIdle dp w
      → ReachesIdle w dq
  Rounds-Steps some_thread no_round w idle = (w, here, idle)
  Rounds-Steps some_thread (packet_round {dq = dq} {after = after} {r = r} buf accepted rounds e) w
        idle =
      let (v, steps, (plane, out, back)) = Rounds-Steps some_thread rounds w idle in
      (
        record v { plane = after; out = reading },
        Steps-append steps
            (rw (plane, out) (Steps-egress_step accepted net n buf v.back dq after r e)),
        (refl, refl, back),
      )
  Rounds-Steps some_thread (reply_round {dq = dq} {after = after} {r = r} buf accepted rounds e) w
        idle =
      let (v, steps, (plane, out, back)) = Rounds-Steps some_thread rounds w idle in
      let (u, more, again) =
        idle_again 0 some_thread v after out back
          (Reaches-capture_step net n 0 some_thread accepted buf v after r (back 0) (rw plane e)) in
      (u, Steps-append steps more, again)
  Rounds-Steps some_thread (window_round {agg = agg} rounds mv) w idle =
      let (v, steps, (plane, out, back)) = Rounds-Steps some_thread rounds w idle in
      (
        record v { plane = record v.plane { aggregator = agg } },
        later steps (window (rw plane mv)),
        (rw plane refl, out, back),
      )
