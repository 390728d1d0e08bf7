-- ===== src/NatTable/Valid.antt =====
-- The invariant of the session table, and that registering a flow keeps it.
use netmux.Prelude.{ℕ, ◌≡◌, refl, ◌↔◌, [], ◌∷◌, ◌++◌, Option, none, All, All-append, arith}
use netmux.Prelude.HashMap
use netmux.Prelude.HashMap.{HashMap, Order, insert_new, get-insert, get-insert_self, get-insert_ne}
use netmux.NatTable.{
  Session, FlowKey, FlowKey-discrete, out_key, NatTable, new, register_session, find_session,
}
use netmux.NatTable.Find.{matches_iff, find_session-append}
use netmux.NatTable.Distinct.{IsDistinct, IsDistinct-append}

abbrev pub outbound : FlowKey → NatTable → Option Session
outbound k t = HashMap.get FlowKey-discrete k t.by_outbound

abbrev pub returning : FlowKey → NatTable → Option ℕ
returning k t = HashMap.get FlowKey-discrete k t.by_return

-- Every session stands under its outbound key, no key has two, and the return map has exactly the
-- return keys of the sessions.
pub record IsValid (t : NatTable) : Type 0 where
  pub keyed : All (λ (e : FlowKey × Session). e.0 ≡ out_key e.1) t.by_outbound
  pub distinct : IsDistinct t.by_outbound
  pub agree : (k : FlowKey) → (returning k t ≡ none) ↔ (find_session k t.by_outbound ≡ none)

-- The table with one more session.
abbrev pub added : NatTable → Session → NatTable
added t s = (register_session t s none).0

pub added-outbound :
    (t : NatTable) (s : Session)
    → outbound (out_key s) t ≡ none
    → (added t s).by_outbound ≡ t.by_outbound ++ (out_key s, s) ∷ []
unfolding register_session
added-outbound t s h = insert_new FlowKey-discrete (out_key s) s t.by_outbound h

added-agree :
    (t : NatTable) (s : Session) (k : FlowKey)
    → outbound (out_key s) t ≡ none
    → (returning k t ≡ none) ↔ (find_session k t.by_outbound ≡ none)
    → (returning k (added t s) ≡ none) ↔ (find_session k (added t s).by_outbound ≡ none)
added-agree t s k h old =
    rw (added-outbound t s h, find_session-append)
      (unfold register_session in rw get-insert (ground (arith, matches_iff k s, old)))

pub added-IsValid :
    (t : NatTable) (s : Session) → outbound (out_key s) t ≡ none → IsValid t → IsValid (added t s)
added-IsValid t s h v = record {
  keyed = rw (added-outbound t s h) (All-append _ t.by_outbound _ v.keyed (refl, tt));
  distinct = rw (added-outbound t s h) (IsDistinct-append (out_key s) s t.by_outbound h v.distinct);
  agree = λ k. added-agree t s k h (v.agree k);
}

pub new-IsValid : (order : Order FlowKey Session) → IsValid (new order)
unfolding find_session HashMap.get
new-IsValid order = record { keyed = tt; distinct = tt; agree = λ k. (λ e. refl, λ e. refl) }
