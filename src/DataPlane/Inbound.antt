-- ===== src/DataPlane/Inbound.antt =====
-- What a round of `capture_loop` writes to the TUN device.
use netmux.Prelude.{
  ℕ, ◌≡◌, ◌≢◌, refl, ◌+◌, List, Bool, true, false, ltb, ◌==◌, shr, Option, none, some, length, u64,
  Bool-cases, inl, inr, arith, Run, done, panic, ◌>>=◌, Ensures, Returns, index-get_or,
}
use netmux.Ipv4.{Ipv4Addr, parse_ip}
use netmux.Packet.{Flow, parse}
use netmux.Packet.Total.{parse-ne-panic}
use netmux.Rewrite.{rewrite_ipv4_dest}
use netmux.Rewrite.Closed.{byte, rewrite_ipv4_dest-done}
use netmux.NatTable.{Session, lookup_return}
use netmux.DataPlane.{DataPlane, reply_key, inject, deliver, deliver_to, deliver_flow, capture_step}

module _ {F : Type 0} (accepted : List ℕ → Bool) (buf : List ℕ) where
  -- The packet written is the destination rewrite of the one received to the client of the
  -- session that the reply belongs to; only the counter of replies changes.
  pub record IsDelivered (dp : DataPlane F) (out : List ℕ) (after : DataPlane F) : Type 0 where
    pub flow : Flow
    pub src : Ipv4Addr
    pub dst : Ipv4Addr
    pub session : Session
    pub parsed : parse buf ≡ done (some flow)
    pub source : parse_ip flow.src ≡ some src
    pub target : parse_ip flow.dst ≡ some dst
    pub found : lookup_return dp.nat (reply_key flow src dst) ≡ some session
    pub rewritten : rewrite_ipv4_dest buf session.client_ip ≡ done (out, true)
    pub counted : after ≡ record dp { nat_rx_packets = u64 (dp.nat_rx_packets + 1) }

  abbrev pub Captured : DataPlane F → Option (List ℕ) × DataPlane F → Type 0
  Captured dp (none, after) = after ≡ dp
  Captured dp (some out, after) = (accepted out ≡ true) × IsDelivered dp out after

  Captured-deliver :
      (flow : Flow) (src dst : Ipv4Addr) (o : Option Session) (dp : DataPlane F)
      → parse buf ≡ done (some flow)
      → parse_ip flow.src ≡ some src
      → parse_ip flow.dst ≡ some dst
      → lookup_return dp.nat (reply_key flow src dst) ≡ o
      → Ensures (Captured dp) (deliver accepted buf o dp)
  unfolding deliver
  Captured-deliver flow src dst none dp p s t f = refl
  Captured-deliver flow src dst (some session) dp p s t f =
      writes (rewrite_ipv4_dest buf session.client_ip) refl (rw rewrite_ipv4_dest-done tt)
    where
      writes :
          (m : Run (List ℕ × Bool))
          → rewrite_ipv4_dest buf session.client_ip ≡ m
          → Returns m
          → Ensures (Captured dp) (m >>= (λ out. done (inject accepted out dp)))
      writes panic w ret = ret
      writes (done (out, false)) w ret = unfold inject in refl
      writes (done (out, true)) w ret =
          unfold inject in
          elim (Bool-cases (accepted out)) [
            | inr refused ↦ rw refused refl
            | inl took ↦ rw took (
              took,
              record {
                flow = flow;
                src = src;
                dst = dst;
                session = session;
                parsed = p;
                source = s;
                target = t;
                found = f;
                rewritten = w;
                counted = refl;
              },
            )
          ]

  Captured-deliver_flow :
      (o : Option Flow) (dp : DataPlane F)
      → parse buf ≡ done o
      → Ensures (Captured dp) (deliver_flow accepted buf o dp)
  unfolding deliver_flow deliver_to
  Captured-deliver_flow none dp p = refl
  Captured-deliver_flow (some flow) dp p =
      by_addresses (parse_ip flow.src) (parse_ip flow.dst) refl refl
    where
      by_addresses :
          (src dst : Option Ipv4Addr)
          → parse_ip flow.src ≡ src
          → parse_ip flow.dst ≡ dst
          → Ensures (Captured dp) (deliver_to accepted buf flow src dst dp)
      by_addresses none dst s t = refl
      by_addresses (some src) none s t = refl
      by_addresses (some src) (some dst) s t = Captured-deliver flow src dst _ dp p s t refl

  Captured-parse :
      (dp : DataPlane F) (m : Run (Option Flow))
      → m ≢ panic
      → parse buf ≡ m
      → Ensures (Captured dp) (m >>= (λ o. deliver_flow accepted buf o dp))
  Captured-parse dp panic ne e = absurd (ne refl)
  Captured-parse dp (done o) ne e = Captured-deliver_flow o dp e

  -- On a packet of version 4 with 20 bytes or more, the round is parsing and delivering.
  pub capture_step-deliver_flow :
      (dp : DataPlane F)
      → ltb (length buf) 20 ≡ false
      → shr (byte buf 0) 4 ≡ 4
      → capture_step accepted buf dp ≡ (parse buf >>= (λ o. deliver_flow accepted buf o dp))
  unfolding capture_step
  capture_step-deliver_flow dp h v = rw (h, index-get_or buf 0 0 (ground arith), v) refl

  -- On every packet a round of the capture loop returns without a panic. Either nothing is written
  -- and the state is as before, or one packet is written and counted, and it is the received one,
  -- delivered as `IsDelivered` says.
  pub capture_step-Captured :
      (dp : DataPlane F) → Ensures (Captured dp) (capture_step accepted buf dp)
  capture_step-Captured dp = elim (Bool-cases (ltb (length buf) 20)) [
    | inl short ↦ unfold capture_step in rw short refl
    | inr long ↦ elim (Bool-cases (shr (byte buf 0) 4 == 4)) [
      | inl v ↦
          rw (capture_step-deliver_flow dp long (ground arith))
            (Captured-parse dp (parse buf) (parse-ne-panic buf) refl)
      | inr v ↦ unfold capture_step in rw (long, index-get_or buf 0 0 (ground arith), v) refl
    ]
  ]
