-- ===== src/NatTable/Find.antt =====
-- Searching the sessions of the outbound map for a return key.
use netmux.Prelude.{
  ◌≡◌, refl, ◌↔◌, [], ◌∷◌, ◌++◌, true, false, if◌then◌else◌, none, some, All, Bool-cases, inl, inr,
  arith,
}
use netmux.Prelude.HashMap.{HashMap, Reorders, All-Reorders, Reorders-All}
use netmux.Ipv4.{Ipv4Addr}
use netmux.NatTable.{Session, FlowKey, ret_key, same_ip, matches, find_session}

same_ip_iff : (x y : Ipv4Addr) → (same_ip x y ≡ true) ↔ (x ≡ y)
same_ip_iff x y = ground arith

-- A session matches a reply exactly when the reply's key is its return key.
pub matches_iff : (k : FlowKey) (s : Session) → (matches k s ≡ true) ↔ (ret_key s ≡ k)
matches_iff k s =
    ground (arith, same_ip_iff s.server_ip k.near_ip, same_ip_iff s.egress_ip k.far_ip)

pub find_session-append :
    (k j : FlowKey) (s : Session) (m : HashMap FlowKey Session)
    → find_session k (m ++ (j, s) ∷ []) ≡ (elim (find_session k m) [
      | some found ↦ some found
      | none ↦ (if matches k s then some s else none)
    ])
unfolding find_session
find_session-append k j s [] = refl
find_session-append k j s ((i, r) ∷ m) = ground (arith, find_session-append k j s m)

-- What is found has the return key that was asked for.
pub ret_key-find_session :
    (k : FlowKey) (m : HashMap FlowKey Session) (s : Session)
    → find_session k m ≡ some s
    → ret_key s ≡ k
unfolding find_session
ret_key-find_session k [] s h = cc
ret_key-find_session k ((j, r) ∷ m) s h =
    ground (arith, matches_iff k r, ret_key-find_session k m s)

-- Nothing is found exactly when no session has the return key.
pub find_session-none_iff :
    (k : FlowKey) (m : HashMap FlowKey Session)
    → (find_session k m ≡ none) ↔ All (λ (e : FlowKey × Session). matches k e.1 ≡ false) m
unfolding find_session
find_session-none_iff k [] = (λ e. tt, λ h. refl)
find_session-none_iff k ((j, r) ∷ m) = elim (Bool-cases (matches k r)) [
  | inl hit ↦ rw hit (λ e. absurd (cc), λ (h, rest). absurd (cc))
  | inr miss ↦ rw miss (
    λ e. (refl, (find_session-none_iff k m).0 e),
    λ (h, rest). (find_session-none_iff k m).1 rest,
  )
]

-- So the order does not show in whether something is found.
pub find_session-Reorders :
    (k : FlowKey) {m n : HashMap FlowKey Session}
    → Reorders m n
    → (find_session k m ≡ none) ↔ (find_session k n ≡ none)
find_session-Reorders k {m} {n} r = (
  λ e. (find_session-none_iff k n).1 (
      All-Reorders (λ (e : FlowKey × Session). matches k e.1 ≡ false) r
        ((find_session-none_iff k m).0 e)),
  λ e. (find_session-none_iff k m).1 (
      Reorders-All (λ (e : FlowKey × Session). matches k e.1 ≡ false) r
        ((find_session-none_iff k n).0 e)),
)

-- What every session has, the one that is found has.
pub All-find_session :
    (P : FlowKey × Session → Type 0) (k : FlowKey) (s : Session) (m : HashMap FlowKey Session)
    → All P m
    → find_session k m ≡ some s
    → (j : FlowKey) × P (j, s)
unfolding find_session
All-find_session P k s [] h e = absurd (cc)
All-find_session P k s ((j, r) ∷ m) (p, h) e = elim (Bool-cases (matches k r)) [
  | inl hit ↦ let same : some r ≡ some s = rw hit at e in let r_s : r ≡ s = cc in (j, rw r_s at p)
  | inr miss ↦ All-find_session P k s m h (rw miss at e)
]
