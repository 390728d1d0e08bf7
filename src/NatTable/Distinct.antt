-- ===== src/NatTable/Distinct.antt =====
-- The outbound map has distinct keys, so that a session that is found stands under its own.
use netmux.Prelude.{
  ◌≡◌, ◌≢◌, refl, sym, ap, ◌∙◌, [], ◌∷◌, ◌++◌, none, some, true, if_pos, if_neg, All, Bool-cases,
  inl, inr,
}
use netmux.Prelude.HashMap
use netmux.Prelude.HashMap.{HashMap, Reorders, All-Reorders}
use netmux.NatTable.{Session, FlowKey, FlowKey-discrete, out_key, ret_key, matches, find_session}
use netmux.NatTable.Find.{matches_iff, All-find_session}

module _ (P Q : FlowKey × Session → Type 0) where
  All-map :
      ((e : FlowKey × Session) → P e → Q e) → (m : HashMap FlowKey Session) → All P m → All Q m
  All-map f [] h = tt
  All-map f (e ∷ m) (p, h) = (f e p, All-map f m h)

  All-map_both :
      (R : FlowKey × Session → Type 0)
      → ((e : FlowKey × Session) → P e → Q e → R e)
      → (m : HashMap FlowKey Session) → All P m
      → All Q m
      → All R m
  All-map_both R f [] h k = tt
  All-map_both R f (e ∷ m) (p, h) (q, k) = (f e p q, All-map_both R f m h k)

-- The keys of an association list are distinct.
abbrev pub IsDistinct : HashMap FlowKey Session → Type 0
IsDistinct [] = Unit
IsDistinct ((k, s) ∷ m) = (HashMap.get FlowKey-discrete k m ≡ none) × IsDistinct m

get-append :
    (k j : FlowKey) (s : Session) (m : HashMap FlowKey Session)
    → HashMap.get FlowKey-discrete k m ≡ none
    → j ≢ k
    → HashMap.get FlowKey-discrete k (m ++ (j, s) ∷ []) ≡ none
unfolding HashMap.get
get-append k j s [] h ne = if_neg (FlowKey-discrete j k) ne (some s) none
get-append k j s ((i, r) ∷ m) h ne = elim (FlowKey-discrete i k) [
  | yes e ↦ absurd (
      let hit = if_pos (FlowKey-discrete i k) e (some r) (HashMap.get FlowKey-discrete k m) in
      let bad : none ≡ some r = sym h ∙ hit in cc)
  | no e ↦
      if_neg (FlowKey-discrete i k) e (some r) (HashMap.get FlowKey-discrete k (m ++ (j, s) ∷ []))
      ∙ get-append k j s m
          (sym (if_neg (FlowKey-discrete i k) e (some r) (HashMap.get FlowKey-discrete k m)) ∙ h) ne
]

pub IsDistinct-append :
    (j : FlowKey) (s : Session) (m : HashMap FlowKey Session)
    → HashMap.get FlowKey-discrete j m ≡ none
    → IsDistinct m
    → IsDistinct (m ++ (j, s) ∷ [])
unfolding HashMap.get
IsDistinct-append j s [] h d = (refl, tt)
IsDistinct-append j s ((i, r) ∷ m) h (first, d) = elim (FlowKey-discrete i j) [
  | yes e ↦ absurd (
      let hit = if_pos (FlowKey-discrete i j) e (some r) (HashMap.get FlowKey-discrete j m) in
      let bad : none ≡ some r = sym h ∙ hit in cc)
  | no e ↦ (
    get-append i j s m first (λ f. e (sym f)),
    IsDistinct-append j s m
        (sym (if_neg (FlowKey-discrete i j) e (some r) (HashMap.get FlowKey-discrete j m)) ∙ h) d,
  )
]

-- Every entry is the one under its key.
All-stored :
    (m : HashMap FlowKey Session)
    → IsDistinct m
    → All (λ (e : FlowKey × Session). HashMap.get FlowKey-discrete e.0 m ≡ some e.1) m
unfolding HashMap.get
All-stored [] d = tt
All-stored ((k, s) ∷ m) (first, d) = (
  if_pos (FlowKey-discrete k k) refl (some s) (HashMap.get FlowKey-discrete k m),
  All-map (λ (e : FlowKey × Session). HashMap.get FlowKey-discrete e.0 m ≡ some e.1)
      (λ e. HashMap.get FlowKey-discrete e.0 ((k, s) ∷ m) ≡ some e.1)
      (λ e there. elim (FlowKey-discrete k e.0) [
        | yes same ↦ absurd (
            let bad : none ≡ some e.1 =
              sym first ∙ (ap (λ i. HashMap.get FlowKey-discrete i m) same ∙ there) in
            cc)
        | no other ↦
            if_neg (FlowKey-discrete k e.0) other (some s) (HashMap.get FlowKey-discrete e.0 m)
            ∙ there
      ])
      m (All-stored m d),
)

All-own :
    (m : HashMap FlowKey Session)
    → All (λ (e : FlowKey × Session). e.0 ≡ out_key e.1) m
    → IsDistinct m
    → All (λ (e : FlowKey × Session). HashMap.get FlowKey-discrete (out_key e.1) m ≡ some e.1) m
All-own m keyed d =
    All-map_both (λ (e : FlowKey × Session). e.0 ≡ out_key e.1)
      (λ e. HashMap.get FlowKey-discrete e.0 m ≡ some e.1)
      (λ e. HashMap.get FlowKey-discrete (out_key e.1) m ≡ some e.1)
      (λ e key there. rw key at there) m keyed (All-stored m d)

-- A session that is found, in any order of the entries, stands under its key.
pub get-find_session :
    (k : FlowKey) (s : Session) {m n : HashMap FlowKey Session}
    → All (λ (e : FlowKey × Session). e.0 ≡ out_key e.1) m
    → IsDistinct m
    → Reorders m n
    → find_session k n ≡ some s
    → HashMap.get FlowKey-discrete (out_key s) m ≡ some s
get-find_session k s {m} {n} keyed d r h =
    let (j, there) =
      All-find_session
        (λ (e : FlowKey × Session). HashMap.get FlowKey-discrete (out_key e.1) m ≡ some e.1) k s n
        (All-Reorders _ r (All-own m keyed d)) h in
    there

-- A session under any key is found by its return key, or another with the same.
pub find_session-get :
    (j : FlowKey) (s : Session) (m : HashMap FlowKey Session)
    → HashMap.get FlowKey-discrete j m ≡ some s
    → find_session (ret_key s) m ≢ none
unfolding find_session HashMap.get
find_session-get j s [] h = absurd (cc)
find_session-get j s ((i, r) ∷ m) h = elim (Bool-cases (matches (ret_key s) r)) [
  | inl hit ↦ rw hit (λ e. cc)
  | inr miss ↦ elim (FlowKey-discrete i j) [
    | yes e ↦ absurd (
        let same : some r ≡ some s =
          sym (if_pos (FlowKey-discrete i j) e (some r) (HashMap.get FlowKey-discrete j m)) ∙ h in
        let r_s : r ≡ s = cc in
        let hit : matches (ret_key s) r ≡ true = (matches_iff (ret_key s) r).1 (ap ret_key r_s) in
        cc)
    | no e ↦ rw miss (
        find_session-get j s m
          (sym (if_neg (FlowKey-discrete i j) e (some r) (HashMap.get FlowKey-discrete j m)) ∙ h))
  ]
]
