-- ===== src/NatTable/Refinement.antt =====
-- What the session table promises, without its two maps: a partial map from flows to sessions.
use netmux.Prelude.{◌≡◌, ◌≢◌, refl, sym, ap, ◌∙◌, List, [], ◌∷◌, Option, none, some, ite}
use netmux.Prelude.HashMap
use netmux.Prelude.HashMap.{Order, get-insert}
use netmux.Text.{Text}
use netmux.Ipv4.{Ipv4Addr, parse_ip}
use netmux.Packet.{Flow}
use netmux.NatTable.{
  Session, FlowKey, FlowKey-discrete, out_key, ret_key, NatTable, new, new_session, register,
  register_session, register_parsed, lookup_return,
}
use netmux.NatTable.Valid.{IsValid, new-IsValid, outbound}
use netmux.NatTable.Register.{
  register-IsValid, outbound-lookup_return, ret_key-lookup_return, lookup_return-none,
}

-- A flow with the interface and the address it is registered for.
pub record Registration : Type 0 where
  pub flow : Flow
  pub iface : Text
  pub ip : Ipv4Addr

-- The abstract table.
abbrev pub Sessions : Type 0
Sessions = FlowKey → Option Session

abbrev pub opened_session : Sessions → Session → Option Session → Sessions
opened_session m s (some old) k = m k
opened_session m s none k = ite (FlowKey-discrete (out_key s) k) (some s) (m k)

-- A flow between two IPv4 addresses opens its session if it has none; nothing else changes.
abbrev pub open_parsed : Sessions → Registration → Option Ipv4Addr → Option Ipv4Addr → Sessions
open_parsed m r none server = m
open_parsed m r (some client) none = m
open_parsed m r (some client) (some server) =
    let s = new_session r.flow r.iface r.ip client server in opened_session m s (m (out_key s))

abbrev pub open_session : Sessions → Registration → Sessions
open_session m r = open_parsed m r (parse_ip r.flow.src) (parse_ip r.flow.dst)

-- The abstract table after some registrations, the last one first, and the program's.
abbrev pub sessions_after : List Registration → Sessions
sessions_after [] k = none
sessions_after (r ∷ rs) k = open_session (sessions_after rs) r k

abbrev pub table_after : Order FlowKey Session → List Registration → NatTable
table_after order [] = new order
table_after order (r ∷ rs) = (register (table_after order rs) r.flow r.iface r.ip).0

-- The answer to a reply: a session of the table whose return key is the reply's, or nothing when
-- there is none.
abbrev pub Answers : Sessions → FlowKey → Option Session → Type 0
Answers m k (some s) = (m (out_key s) ≡ some s) × (ret_key s ≡ k)
Answers m k none = (j : FlowKey) (s : Session) → m j ≡ some s → ret_key s ≢ k

-- The table is valid and has the sessions of the abstract one.
pub record Refines (m : Sessions) (t : NatTable) : Type 0 where
  pub valid : IsValid t
  pub same : (k : FlowKey) → outbound k t ≡ m k

outbound-register_same :
    (m : Sessions) (t : NatTable) (r : Registration) (k : FlowKey)
    → ((j : FlowKey) → outbound j t ≡ m j)
    → outbound k (register t r.flow r.iface r.ip).0 ≡ open_session m r k
unfolding register register_parsed register_session
outbound-register_same m t r k same = by_addresses (parse_ip r.flow.src) (parse_ip r.flow.dst)
  where
    by_session :
        (s : Session) (o : Option Session)
        → outbound k (register_session t s o).0 ≡ opened_session m s o k
    by_session s (some old) = same k
    by_session s none =
        get-insert FlowKey-discrete (out_key s) k s t.by_outbound
        ∙ ap (ite (FlowKey-discrete (out_key s) k) (some s)) (same k)

    by_addresses :
        (client server : Option Ipv4Addr)
        → outbound k (register_parsed t r.flow r.iface r.ip client server).0
          ≡ open_parsed m r client server k
    by_addresses none server = same k
    by_addresses (some client) none = same k
    by_addresses (some client) (some server) =
        let s = new_session r.flow r.iface r.ip client server in
        rw (same (out_key s)) (by_session s (m (out_key s)))

Refines-table_after :
    (order : Order FlowKey Session) (rs : List Registration)
    → Refines (sessions_after rs) (table_after order rs)
Refines-table_after order [] = record {
  valid = new-IsValid order;
  same = λ k. unfold HashMap.get in refl;
}
Refines-table_after order (r ∷ rs) =
    let before = Refines-table_after order rs in
    record {
      valid = register-IsValid (table_after order rs) r.flow r.iface r.ip before.valid;
      same = λ k. outbound-register_same (sessions_after rs) (table_after order rs) r k before.same;
    }

Answers-Refines :
    (m : Sessions) (t : NatTable) (k : FlowKey) → Refines m t → Answers m k (lookup_return t k)
Answers-Refines m t k ref = by_found (lookup_return t k) refl
  where
    by_found : (o : Option Session) → lookup_return t k ≡ o → Answers m k o
    by_found (some s) e = (
      sym (ref.same (out_key s)) ∙ outbound-lookup_return t k s ref.valid e,
      ret_key-lookup_return t k s e,
    )
    by_found none e = λ j s there hit.
        lookup_return-none t j s ref.valid (ref.same j ∙ there)
          (ap (λ i. lookup_return t i) hit ∙ e)

-- The session table implements a partial map from flows to sessions: after any registrations, from
-- the empty table, a flow has the session it has in the map, and a reply is answered with a session
-- of the map that has its return key, and with none exactly if the map has no such session. The
-- second map, the indices and the order of iteration do not show.
pub table_after-sessions_after :
    (order : Order FlowKey Session) (rs : List Registration) (k reply : FlowKey)
    → (outbound k (table_after order rs) ≡ sessions_after rs k)
      × Answers (sessions_after rs) reply (lookup_return (table_after order rs) reply)
table_after-sessions_after order rs k reply =
    let ref = Refines-table_after order rs in
    (ref.same k, Answers-Refines (sessions_after rs) (table_after order rs) reply ref)
