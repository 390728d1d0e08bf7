-- ===== src/NatTable/Register.antt =====
-- What `register` does to the table, and which replies are then found.
use netmux.Prelude.{
  ℕ, ◌+◌, ◌≡◌, ◌≢◌, refl, ◌∙◌, sym, ap, ◌⊎◌, [], ◌∷◌, Option, none, some, arith, Option-cases, inl,
  inr, length-append,
}
use netmux.Prelude.HashMap.{get-insert_self, get-insert_ne}
use netmux.Text.{Text}
use netmux.Ipv4.{Ipv4Addr, parse_ip}
use netmux.Packet.{Flow}
use netmux.NatTable.{
  Session, FlowKey, FlowKey-discrete, out_key, ret_key, NatTable, new_session, register,
  register_session, register_parsed, lookup_return, find_session, find_if, sessions,
}
use netmux.NatTable.Find.{find_session-Reorders, ret_key-find_session}
use netmux.NatTable.Distinct.{get-find_session, find_session-get}
use netmux.NatTable.Valid.{IsValid, added, added-IsValid, added-outbound, outbound, returning}

register_session-IsValid :
    (t : NatTable) (s : Session) (o : Option Session)
    → outbound (out_key s) t ≡ o
    → IsValid t
    → IsValid (register_session t s o).0
register_session-IsValid t s none h v = added-IsValid t s h v
register_session-IsValid t s (some old) h v = unfold register_session in v

register_parsed-IsValid :
    (t : NatTable) (flow : Flow) (iface : Text) (ip : Ipv4Addr) (client server : Option Ipv4Addr)
    → IsValid t
    → IsValid (register_parsed t flow iface ip client server).0
unfolding register_parsed
register_parsed-IsValid t flow iface ip none server v = v
register_parsed-IsValid t flow iface ip (some client) none v = v
register_parsed-IsValid t flow iface ip (some client) (some server) v =
    register_session-IsValid t (new_session flow iface ip client server) _ refl v

-- Registering a flow, whatever comes of it, keeps the table valid: every session stands under its
-- own outbound key, and the return map has exactly the return keys of the sessions.
pub register-IsValid :
    (t : NatTable) (flow : Flow) (iface : Text) (ip : Ipv4Addr)
    → IsValid t
    → IsValid (register t flow iface ip).0
register-IsValid t flow iface ip v =
    unfold register in
    register_parsed-IsValid t flow iface ip (parse_ip flow.src) (parse_ip flow.dst) v

-- In a valid table a reply is looked up as if there were no return map: the first session that the
-- iteration meets whose return key is the reply's, and nothing only if there is none.
lookup_return-find_session :
    (t : NatTable) (k : FlowKey)
    → IsValid t
    → lookup_return t k ≡ find_session k (t.order.iter t.by_outbound)
lookup_return-find_session t k v =
    unfold lookup_return in
    elim (Option-cases (returning k t)) [
      | inl e ↦
          rw e (sym ((find_session-Reorders k (t.order.visits t.by_outbound)).0 ((v.agree k).0 e)))
      | inr (i, e) ↦ rw e refl
    ]

-- Whatever session a reply finds, its protocol, server, egress address and port are the reply's.
pub ret_key-lookup_return :
    (t : NatTable) (k : FlowKey) (s : Session) → lookup_return t k ≡ some s → ret_key s ≡ k
ret_key-lookup_return t k s h =
    ret_key-find_session k (t.order.iter t.by_outbound) s
      (found (returning k t) (unfold lookup_return in h))
  where
    found :
        (o : Option ℕ)
        → find_if o (find_session k (t.order.iter t.by_outbound)) ≡ some s
        → find_session k (t.order.iter t.by_outbound) ≡ some s
    found none e = absurd (cc)
    found (some i) e = e

-- The session that a reply finds in a valid table stands there, under its flow's key.
pub outbound-lookup_return :
    (t : NatTable) (k : FlowKey) (s : Session)
    → IsValid t
    → lookup_return t k ≡ some s
    → outbound (out_key s) t ≡ some s
outbound-lookup_return t k s v h =
    get-find_session k s v.keyed v.distinct (t.order.visits t.by_outbound)
      (sym (lookup_return-find_session t k v) ∙ h)

-- A reply whose key no session of a valid table has finds nothing, and only such a reply.
pub lookup_return-none :
    (t : NatTable) (j : FlowKey) (s : Session)
    → IsValid t
    → outbound j t ≡ some s
    → lookup_return t (ret_key s) ≢ none
lookup_return-none t j s v there e = find_session-get j s t.by_outbound there (
    (find_session-Reorders (ret_key s) (t.order.visits t.by_outbound)).1
      (sym (lookup_return-find_session t (ret_key s) v) ∙ e))

-- A reply finds the only session of a valid table that has its key, whatever the order.
pub lookup_return-only :
    (t : NatTable) (j : FlowKey) (s : Session)
    → IsValid t
    → outbound j t ≡ some s
    → ((i : FlowKey) (r : Session) → outbound i t ≡ some r → ret_key r ≡ ret_key s → r ≡ s)
    → lookup_return t (ret_key s) ≡ some s
lookup_return-only t j s v there alone = elim (Option-cases (lookup_return t (ret_key s))) [
  | inl e ↦ absurd (lookup_return-none t j s v there e)
  | inr (r, e) ↦
      e
      ∙ ap some (
          alone (out_key r) r (outbound-lookup_return t (ret_key s) r v e)
            (ret_key-lookup_return t (ret_key s) r e))
]

module _ (t : NatTable) (flow : Flow) (iface : Text) (ip client server : Ipv4Addr)
    (from : parse_ip flow.src ≡ some client) (to : parse_ip flow.dst ≡ some server) where
  abbrev pub opened : Session
  opened = new_session flow iface ip client server

  register-new :
      outbound (out_key opened) t ≡ none → register t flow iface ip ≡ (added t opened, some opened)
  register-new h = unfold register in rw (from, to, h) refl

  -- A flow that is known gets its old session, whatever the interface, and the table stays.
  pub register_known :
      (old : Session)
      → outbound (out_key opened) t ≡ some old
      → register t flow iface ip ≡ (t, some old)
  register_known old h = unfold register in rw (from, to, h) refl

  opened_alone :
      IsValid t
      → returning (ret_key opened) t ≡ none
      → (i : FlowKey) (r : Session) → outbound i (added t opened) ≡ some r
      → ret_key r ≡ ret_key opened
      → r ≡ opened
  unfolding register_session
  opened_alone v free i r there same = elim (FlowKey-discrete (out_key opened) i) [
    | yes e ↦
        let own : some opened ≡ some r =
          sym (get-insert_self FlowKey-discrete (out_key opened) opened t.by_outbound)
          ∙ (ap (λ j. outbound j (added t opened)) e ∙ there) in
        cc
    | no ne ↦
        let old : outbound i t ≡ some r =
          sym (get-insert_ne FlowKey-discrete (out_key opened) i opened t.by_outbound ne) ∙ there in
        absurd (
          find_session-get i r t.by_outbound old
            (ap (λ j. find_session j t.by_outbound) same ∙ (v.agree (ret_key opened)).0 free))
  ]

  -- A flow between two IPv4 addresses that has no session in a valid table, and whose reply key no
  -- session has, gets a session towards the egress interface, and its replies find that session.
  pub lookup_return-register :
      IsValid t
      → outbound (out_key opened) t ≡ none
      → returning (ret_key opened) t ≡ none
      → ((register t flow iface ip).1 ≡ some opened)
        × (lookup_return (register t flow iface ip).0 (ret_key opened) ≡ some opened)
  lookup_return-register v fresh free = rw (register-new fresh) (
    refl,
    lookup_return-only (added t opened) (out_key opened) opened (added-IsValid t opened fresh v)
        (unfold register_session in
          get-insert_self FlowKey-discrete (out_key opened) opened t.by_outbound)
        (opened_alone v free),
  )

  -- Registering a flow between two IPv4 addresses adds one session if it has none, and else none.
  pub sessions-register :
      sessions (register t flow iface ip).0
      ≡ (elim (outbound (out_key opened) t) [ none ↦ sessions t + 1 | some old ↦ sessions t ])
  sessions-register = elim (Option-cases (outbound (out_key opened) t)) [
    | inl fresh ↦
        rw (register-new fresh, fresh)
          (unfold sessions in
            rw (added-outbound t opened fresh)
              (length-append t.by_outbound ((out_key opened, opened) ∷ []) ∙ omega arith))
    | inr (old, known) ↦ rw (register_known old known, known) refl
  ]

-- A flow with an address that is no IPv4 address opens no session and leaves the table alone.
pub register_not_ipv4 :
    (t : NatTable) (flow : Flow) (iface : Text) (ip : Ipv4Addr)
    → (parse_ip flow.src ≡ none) ⊎ (parse_ip flow.dst ≡ none)
    → register t flow iface ip ≡ (t, none)
register_not_ipv4 t flow iface ip (inl e) = unfold register in rw e refl
register_not_ipv4 t flow iface ip (inr e) = elim (Option-cases (parse_ip flow.src)) [
  | inl f ↦ unfold register in rw f refl
  | inr (client, f) ↦ unfold register in rw (f, e) refl
]
