-- ===== src/NatTable/Stable.antt =====
-- What registering a flow never changes: the sessions that are there.
use netmux.Prelude.{◌≡◌, ◌≢◌, refl, sym, ap, ◌∙◌, [], Option, none, some}
use netmux.Prelude.HashMap.{get-insert_self, get-insert_ne}
use netmux.Text.{Text}
use netmux.Ipv4.{Ipv4Addr, parse_ip}
use netmux.Packet.{Flow}
use netmux.NatTable.{
  Session, FlowKey, FlowKey-discrete, out_key, NatTable, new_session, register, register_session,
  register_parsed,
}
use netmux.NatTable.Valid.{added, outbound}

module _ (t : NatTable) (s : Session) (fresh : outbound (out_key s) t ≡ none) where
  outbound-added :
      (k : FlowKey) (old : Session) → outbound k t ≡ some old → outbound k (added t s) ≡ some old
  outbound-added k old h =
      let other : out_key s ≢ k =
        λ e. absurd (let same : none ≡ some old = sym fresh ∙ ap (λ j. outbound j t) e ∙ h in cc) in
      unfold register_session in
      get-insert_ne FlowKey-discrete (out_key s) k s t.by_outbound other ∙ h

-- What holds of a table with its session and of every table that gains one holds after registering.
module _ (P : NatTable → Type 0) (t : NatTable) (flow : Flow) (iface : Text) (ip : Ipv4Addr)
    (kept : P t) (gained : (s : Session) → outbound (out_key s) t ≡ none → P (added t s)) where
  by_session :
      (s : Session) (o : Option Session) → outbound (out_key s) t ≡ o → P (register_session t s o).0
  by_session s none h = gained s h
  by_session s (some old) h = unfold register_session in kept

  by_addresses :
      (client server : Option Ipv4Addr) → P (register_parsed t flow iface ip client server).0
  unfolding register_parsed
  by_addresses none server = kept
  by_addresses (some client) none = kept
  by_addresses (some client) (some server) =
      by_session (new_session flow iface ip client server) _ refl

  pub register-elim : P (register t flow iface ip).0
  register-elim = unfold register in by_addresses (parse_ip flow.src) (parse_ip flow.dst)

-- A flow that has a session keeps it.
pub outbound-stable :
    (t : NatTable) (flow : Flow) (iface : Text) (ip : Ipv4Addr) (k : FlowKey) (s : Session)
    → outbound k t ≡ some s
    → outbound k (register t flow iface ip).0 ≡ some s
outbound-stable t flow iface ip k s h =
    register-elim (λ u. outbound k u ≡ some s) t flow iface ip h
      (λ r fresh. outbound-added t r fresh k s h)

-- The key of a flow's session.
abbrev pub flow_key : Flow → Ipv4Addr → Ipv4Addr → FlowKey
flow_key flow client server = out_key (new_session flow [] client client server)

-- The session that a registration returns stands in the table under the flow's key.
pub outbound-register :
    (t : NatTable) (flow : Flow) (iface : Text) (ip : Ipv4Addr) (s : Session)
    → (register t flow iface ip).1 ≡ some s
    → (client : Ipv4Addr) × (server : Ipv4Addr) × (parse_ip flow.src ≡ some client)
      × (parse_ip flow.dst ≡ some server)
      × (outbound (flow_key flow client server) (register t flow iface ip).0 ≡ some s)
unfolding register register_parsed register_session
outbound-register t flow iface ip s h = parsed (parse_ip flow.src) (parse_ip flow.dst) refl refl h
  where
    stored :
        (r : Session) (o : Option Session)
        → outbound (out_key r) t ≡ o
        → (register_session t r o).1 ≡ some s
        → outbound (out_key r) (register_session t r o).0 ≡ some s
    stored r (some old) e f = e ∙ f
    stored r none e f = get-insert_self FlowKey-discrete (out_key r) r t.by_outbound ∙ f

    parsed :
        (client server : Option Ipv4Addr)
        → parse_ip flow.src ≡ client
        → parse_ip flow.dst ≡ server
        → (register_parsed t flow iface ip client server).1 ≡ some s
        → (c : Ipv4Addr) × (d : Ipv4Addr) × (parse_ip flow.src ≡ some c)
          × (parse_ip flow.dst ≡ some d)
          × (outbound (flow_key flow c d) (register_parsed t flow iface ip client server).0
              ≡ some s)
    parsed none server a b e = absurd (cc)
    parsed (some client) none a b e = absurd (cc)
    parsed (some client) (some server) a b e =
        (client, server, a, b, stored (new_session flow iface ip client server) _ refl e)
