-- ===== src/Threads/Replies.antt =====
-- What a capture thread does with a reply, however the threads interleave.
use netmux.Prelude.{ℕ, ◌≡◌, ◌∙◌, ap, List, some, done, Option-cases, inl, inr}
use netmux.Float.{Float}
use netmux.Ipv4.{dotted}
use netmux.Packet.{parse}
use netmux.Packet.V4.{flow_v4}
use netmux.Packet.Rewritten.{parse-rewrite_ipv4_dest}
use netmux.Rewrite.Closed.{IsIpv4}
use netmux.NatTable.{Session, FlowKey, out_key, ret_key, lookup_return}
use netmux.NatTable.Valid.{IsValid, outbound}
use netmux.NatTable.Register.{
  register-IsValid, outbound-lookup_return, ret_key-lookup_return, lookup_return-none,
  lookup_return-only,
}
use netmux.Threads.{Network, looking_up, writing, CaptureMove, found, World, Steps}
use netmux.Threads.Established.{Steps-nat, outbound-Steps}

module _ {F : Type 0} ⦃fl : Float F⦄ where
  -- Let a reply find a session in a valid table, and let the threads go on in any order. A capture
  -- thread that then looks up an IPv4 packet with the reply's key goes on to write it, as a packet
  -- of the same flow to the address of that session's client, if that session is still the only one
  -- with the key.
  pub writing-Steps :
      {net : Network} {n : ℕ} {w v : World F}
      → Steps net n w v
      → (s : Session) → IsValid w.plane.nat
      → lookup_return w.plane.nat (ret_key s) ≡ some s
      → ((j : FlowKey) (r : Session)
          → outbound j v.plane.nat ≡ some r
          → ret_key r ≡ ret_key s
          → r ≡ s)
      → (buf : List ℕ) (i : ℕ) → IsIpv4 buf
      → v.back i ≡ looking_up buf (ret_key s)
      → (out : List ℕ) × CaptureMove v.plane (v.back i) v.plane (writing out)
        × (parse out ≡ done (some (record (flow_v4 buf) { dst = dotted s.client_ip })))
  writing-Steps {w = w} {v = v} steps s valid finds alone buf i v4 stands =
      let (out, rewritten, parsed) = parse-rewrite_ipv4_dest buf s.client_ip v4 in
      let there : outbound (out_key s) v.plane.nat ≡ some s =
        outbound-Steps steps (out_key s) s
          (outbound-lookup_return w.plane.nat (ret_key s) s valid finds) in
      let only =
        lookup_return-only v.plane.nat (out_key s) s
          (Steps-nat IsValid register-IsValid steps valid) there alone in
      (out, rw stands (found only rewritten), parsed)

  -- A reply that finds a session in a valid table is answered from then on, however the threads go
  -- on: it finds a session that stands in the table under its flow's key, and whose replies have
  -- this key. If there are several it may be another one, by the order of the iteration then.
  pub answered-Steps :
      {net : Network} {n : ℕ} {w v : World F}
      → Steps net n w v
      → (k : FlowKey) (s : Session) → IsValid w.plane.nat
      → lookup_return w.plane.nat k ≡ some s
      → (r : Session) × (lookup_return v.plane.nat k ≡ some r)
        × (outbound (out_key r) v.plane.nat ≡ some r)
        × (ret_key r ≡ k)
  answered-Steps {w = w} {v = v} steps k s valid finds =
      let key : ret_key s ≡ k = ret_key-lookup_return w.plane.nat k s finds in
      let there =
        outbound-Steps steps (out_key s) s (outbound-lookup_return w.plane.nat k s valid finds) in
      let still = Steps-nat IsValid register-IsValid steps valid in
      elim (Option-cases (lookup_return v.plane.nat k)) [
        | inl e ↦ absurd (
            lookup_return-none v.plane.nat (out_key s) s still there
              (ap (lookup_return v.plane.nat) key ∙ e))
        | inr (r, e) ↦ (
          r,
          e,
          outbound-lookup_return v.plane.nat k r still e,
          ret_key-lookup_return v.plane.nat k r e,
        )
      ]
