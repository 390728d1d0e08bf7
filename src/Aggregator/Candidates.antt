-- ===== src/Aggregator/Candidates.antt =====
-- Which interfaces become candidates, with which policy, and what the health tick amounts to.
use netmux.Prelude.{
  ℕ, ◌≡◌, ◌≢◌, refl, ap, ◌∙◌, List, [], ◌∷◌, ◌++◌, true, false, Option, none, some, inl, inr, arith,
  Bool-cases, All, length, drop,
}
use netmux.Prelude.Sorting.{In, In-sort_by}
use netmux.Prelude.HashMap.{HashMap}
use netmux.Text.{Text, text, starts_with}
use netmux.Float.{Float}
use netmux.Sysfs.{SysEntry}
use netmux.Stats.{IfaceSample, refresh}
use netmux.Interface.{
  InterfaceKind, virtual, Interface, classify, read_interface, read_interfaces, by_interface_name,
  enumerate,
}
use netmux.Policy.{AggregatorConfig, CandidateIface}
use netmux.Aggregator.{
  Aggregator, is_skipped, base_priority, configured, interfaces_or_none, candidate_of,
  candidates_of, refresh_candidates, tick,
}

-- The kind comes from the name and some operational state.
abbrev pub IsClassified : Text → InterfaceKind → Type 0
IsClassified name kind = (state : Text) × (kind ≡ classify name state)

In-read_interfaces :
    (es : List SysEntry) (i : Interface) → In i (read_interfaces es) → IsClassified i.name i.kind
unfolding read_interfaces read_interface
In-read_interfaces [] i h = absurd h
In-read_interfaces (e ∷ es) i h = of_name (In-read_interfaces es i) e.name h
  where
    of_name :
        (In i (read_interfaces es) → IsClassified i.name i.kind)
        → (o : Option Text)
        → In i (elim o [
          | none ↦ read_interfaces es
          | some name ↦ read_interface e name ∷ read_interfaces es
        ])
        → IsClassified i.name i.kind
    of_name later none k = later k
    of_name later (some name) (inl p) = rw p (_, refl)
    of_name later (some name) (inr k) = later k

In-enumerate :
    (entries : Option (List SysEntry)) (i : Interface)
    → In i (interfaces_or_none (enumerate entries))
    → IsClassified i.name i.kind
unfolding enumerate
In-enumerate none i h = absurd h
In-enumerate (some es) i h =
    In-read_interfaces es i (In-sort_by by_interface_name i (read_interfaces es) h)

-- A candidate's kind is the one its name is classified as, and not one that is skipped; its
-- priority is that kind's and the rest of its policy the configured one, or the default.
abbrev pub Scheduled : {F : Type 0} → AggregatorConfig → CandidateIface F → Type 0
Scheduled cfg c =
    IsClassified c.name c.kind
    × (is_skipped c.kind ≡ false)
    × (c.policy.priority ≡ base_priority c.kind)
    × (c.policy.weight ≡ (configured cfg c.name).weight)
    × (c.policy.enabled ≡ (configured cfg c.name).enabled)

module _ {F : Type 0} ⦃fl : Float F⦄ where
  Scheduled-candidates_of :
      (cfg : AggregatorConfig) (samples : HashMap Text (IfaceSample F)) (l : List Interface)
      → ((i : Interface) → In i l → IsClassified i.name i.kind)
      → All (Scheduled cfg) (candidates_of cfg samples l)
  unfolding candidates_of candidate_of
  Scheduled-candidates_of cfg samples [] h = tt
  Scheduled-candidates_of cfg samples (i ∷ l) h =
      let rest = Scheduled-candidates_of cfg samples l (λ j k. h j (inr k)) in
      elim (Bool-cases (is_skipped i.kind)) [
        | inl e ↦ rw e rest
        | inr e ↦ rw e ((h i (inl refl), e, omega arith, refl, refl), rest)
      ]

  -- After `refresh_candidates` every candidate is scheduled: it is neither a loopback nor a virtual
  -- interface, its priority depends on its kind only, whatever priority the configuration gives
  -- it, and weight and enabling are the configured ones or the default's.
  pub refresh_candidates-Scheduled :
      (entries : Option (List SysEntry)) (agg : Aggregator F)
      → All (Scheduled agg.config) (refresh_candidates entries agg).candidates
  unfolding refresh_candidates
  refresh_candidates-Scheduled entries agg =
      Scheduled-candidates_of agg.config agg.stats.samples (interfaces_or_none (enumerate entries))
        (In-enumerate entries)

  -- The tick is a refresh of the statistics and then of the candidates: the rates that it writes
  -- into the old candidates in between are lost.
  pub tick-refresh_candidates :
      (read : Option (List SysEntry)) (now : ℕ) (again : Option (List SysEntry))
      (agg : Aggregator F)
      → tick read now again agg
        ≡ refresh_candidates again (record agg { stats = refresh read now agg.stats })
  unfolding tick refresh_candidates
  tick-refresh_candidates read now again agg = refl

starts_with_split : (s p : Text) → starts_with s p ≡ true → s ≡ p ++ drop (length p) s
unfolding starts_with
starts_with_split s [] h = refl
starts_with_split [] (c ∷ p) h = absurd (cc)
starts_with_split (d ∷ s) (c ∷ p) h =
    let e : d ≡ c = ground arith in
    let k : starts_with s p ≡ true = ground arith in rw e (ap (◌∷◌ c) (starts_with_split s p k))

classify_netmux : (rest state : Text) → classify (text "netmux" ++ rest) state ≡ virtual
unfolding classify starts_with
classify_netmux rest state = refl

-- A name that starts with "netmux", as that of the TUN device does, is no candidate's.
pub Scheduled-ne-netmux :
    {F : Type 0} (cfg : AggregatorConfig) (c : CandidateIface F)
    → Scheduled cfg c
    → starts_with c.name (text "netmux") ≢ true
Scheduled-ne-netmux cfg c ((state, k), physical, _, _, _) h =
    let e : classify c.name state ≡ virtual =
      ap (λ (n : Text). classify n state) (starts_with_split c.name (text "netmux") h)
      ∙ classify_netmux (drop 6 c.name) state in
    let v : is_skipped c.kind ≡ true = ap is_skipped (k ∙ e) in cc
