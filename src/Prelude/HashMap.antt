-- ===== src/Prelude/HashMap.antt =====
-- `HashMap` as an association list with distinct keys, and the order in which it is iterated.
use mathlib.Core.Path.{◌≡◌, refl, ◌∙◌}
use mathlib.Core.Logic.{ite, if_pos, if_neg, ◌≢◌}
use mathlib.Core.Option.{Option, none, some}
use mathlib.Core.List.{List, [], ◌∷◌, ◌++◌}
use native.Mathlib.Omega.{arith}
use netmux.Prelude.Lists.{All}

abbrev pub HashMap : Type 0 → Type 0 → Type 0
HashMap K V = List (K × V)

-- The same entries in another order.
pub data Reorders {A : Type 0} : List A → List A → Type 0 where
  empty : Reorders [] []
  keep : {xs ys : List A} (x : A) → Reorders xs ys → Reorders (x ∷ xs) (x ∷ ys)
  swap : {xs : List A} (x y : A) → Reorders (x ∷ y ∷ xs) (y ∷ x ∷ xs)
  both : {xs ys zs : List A} → Reorders xs ys → Reorders ys zs → Reorders xs zs

-- The order in which a map with this hasher is iterated: nothing is known of it but that every
-- entry is visited once. It may be another one after every change of the map.
pub record Order (K V : Type 0) : Type 0 where
  pub iter : HashMap K V → HashMap K V
  pub visits : (m : HashMap K V) → Reorders m (iter m)

module _ {A : Type 0} (P : A → Type 0) where
  -- What every entry has, every entry has in another order, and back.
  pub All-Reorders : {xs ys : List A} → Reorders xs ys → All P xs → All P ys
  All-Reorders empty h = tt
  All-Reorders (keep x r) (p, h) = (p, All-Reorders r h)
  All-Reorders (swap x y) (p, (q, h)) = (q, (p, h))
  All-Reorders (both r t) h = All-Reorders t (All-Reorders r h)

  pub Reorders-All : {xs ys : List A} → Reorders xs ys → All P ys → All P xs
  Reorders-All empty h = tt
  Reorders-All (keep x r) (p, h) = (p, Reorders-All r h)
  Reorders-All (swap x y) (p, (q, h)) = (q, (p, h))
  Reorders-All (both r t) h = Reorders-All r (Reorders-All t h)

module _ {K V : Type 0} (dec : Discrete K) where
  -- `m.get(&k)`
  unfoldable pub get : K → HashMap K V → Option V
  get k [] = none
  get k ((j, v) ∷ m) = ite (dec j k) (some v) (get k m)

  -- `m.insert(k, v)`
  unfoldable pub insert : K → V → HashMap K V → HashMap K V
  insert k v [] = (k, v) ∷ []
  insert k v ((j, w) ∷ m) = ite (dec j k) ((k, v) ∷ m) ((j, w) ∷ insert k v m)

  pub get-insert :
      (k j : K) (v : V) (m : HashMap K V) → get j (insert k v m) ≡ ite (dec k j) (some v) (get j m)
  unfolding get insert
  get-insert k j v [] = refl
  get-insert k j v ((i, w) ∷ m) = ground (arith, get-insert k j v m)

  -- A new key is appended.
  pub insert_new :
      (k : K) (v : V) (m : HashMap K V) → get k m ≡ none → insert k v m ≡ m ++ (k, v) ∷ []
  unfolding get insert
  insert_new k v [] h = refl
  insert_new k v ((j, w) ∷ m) h = ground (arith, insert_new k v m)

  -- A key that is there keeps its place.
  pub get-insert_self : (k : K) (v : V) (m : HashMap K V) → get k (insert k v m) ≡ some v
  get-insert_self k v m = get-insert k k v m ∙ if_pos (dec k k) refl (some v) (get k m)

  pub get-insert_ne : (k j : K) (v : V) (m : HashMap K V) → k ≢ j → get j (insert k v m) ≡ get j m
  get-insert_ne k j v m h = get-insert k j v m ∙ if_neg (dec k j) h (some v) (get j m)

  -- What every value has, a value that is found has.
  pub All-get :
      (P : V → Type 0) (k : K) (v : V) (m : HashMap K V)
      → All (λ (e : K × V). P e.1) m
      → get k m ≡ some v
      → P v
  unfolding get
  All-get P k v [] h e = absurd (cc)
  All-get P k v ((j, w) ∷ m) (p, h) e = elim (dec j k) [
    | yes q ↦ let same : w ≡ v = ground arith in rw same at p
    | no q ↦ All-get P k v m h (ground arith)
  ]
