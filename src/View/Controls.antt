-- ===== src/View/Controls.antt =====
-- The controls that the window offers, and what any sequence of clicks does.
use netmux.Prelude.{
  ℕ, zero, suc, ◌≡◌, refl, ap, List, [], ◌∷◌, ◌++◌, Bool, true, false, not, All, All-append, arith,
  Run, done, ◌>>=◌, Ensures, Ensures-bind, if◌then◌else◌,
}
use netmux.Prelude.Ints.{pos, negsuc}
use netmux.Policy.{
  Strategy, load_balance, failover, BalanceAlgorithm, hash, round_robin, least_loaded,
  CandidateIface,
}
use netmux.Aggregator.{Aggregator}
use netmux.App.{
  Tab, dashboard, interfaces, policy, statistics, IfaceAction, enable, priority, weight, NetMuxApp,
  cycle_theme, act, iface_action, toggle_enabled, set_strategy, set_algorithm,
}
use netmux.App.Actions.{IsSound, IsAccepted, IsSmallAction, act-IsAccepted}

-- What a click asks for.
pub data Click : Type 0 where
  toggle : Click
  choose_strategy : Strategy → Click
  choose_algorithm : BalanceAlgorithm → Click
  change : IfaceAction → Click
  next_theme : Click
  go : Tab → Click

-- `==` on `Tab`
abbrev pub is_tab : Tab → Tab → Bool
is_tab dashboard dashboard = true
is_tab interfaces interfaces = true
is_tab policy policy = true
is_tab statistics statistics = true
is_tab a b = false

-- The item of the tab that is shown does not listen to clicks.
abbrev pub nav_item : Tab → Tab → List Click
nav_item current tab = if is_tab current tab then [] else (go tab ∷ [])

abbrev pub nav_row : Tab → List Click
nav_row current =
    nav_item current dashboard
    ++ (nav_item current interfaces ++ (nav_item current policy ++ nav_item current statistics))

-- The sidebar ends with the theme button.
abbrev pub sidebar : Tab → List Click
sidebar current = nav_row current ++ (next_theme ∷ [])

-- The buttons of one row of the interfaces view.
abbrev pub row : {F : Type 0} → CandidateIface F → List Click
row c =
    change (enable c.name (not c.policy.enabled))
    ∷ change (priority c.name (pos 1))
    ∷ change (priority c.name (negsuc 0))
    ∷ change (weight c.name (pos 1))
    ∷ change (weight c.name (negsuc 0))
    ∷ []

abbrev pub rows : {F : Type 0} → List (CandidateIface F) → List Click
rows [] = []
rows (c ∷ cs) = row c ++ rows cs

-- The cards of the policy view.
abbrev pub cards : List Click
cards =
    choose_strategy load_balance
    ∷ choose_strategy failover
    ∷ choose_algorithm hash
    ∷ choose_algorithm round_robin
    ∷ choose_algorithm least_loaded
    ∷ []

abbrev pub page : {F : Type 0} → Tab → Aggregator F → List Click
page dashboard agg = []
page interfaces agg = rows agg.candidates
page policy agg = cards
page statistics agg = []

-- What `render` offers, in a narrow window and in a wide one.
abbrev pub offered : {F : Type 0} → Bool → NetMuxApp F → List Click
offered true app = next_theme ∷ toggle ∷ (nav_row app.tab ++ page app.tab app.plane.aggregator)
offered false app = sidebar app.tab ++ (toggle ∷ page app.tab app.plane.aggregator)

module _ {F : Type 0} where
  abbrev pub with_engine : Aggregator F → NetMuxApp F → NetMuxApp F
  with_engine agg app = record app { plane = record app.plane { aggregator = agg } }

  unfoldable pub click : Click → NetMuxApp F → Run (NetMuxApp F)
  unfolding toggle_enabled set_strategy set_algorithm iface_action cycle_theme
  click toggle app = done (with_engine (toggle_enabled app.plane.aggregator) app)
  click (choose_strategy s) app = done (with_engine (set_strategy s app.plane.aggregator) app)
  click (choose_algorithm a) app = done (with_engine (set_algorithm a app.plane.aggregator) app)
  click (change action) app = do
    agg ← iface_action action app.plane.aggregator
    done (with_engine agg app)
  click next_theme app = done (cycle_theme app)
  click (go tab) app = done (record app { tab = tab })

  -- The control at a place among those that are offered; there is none beyond the last.
  abbrev pub press_from : List Click → ℕ → NetMuxApp F → Run (NetMuxApp F)
  press_from [] i app = done app
  press_from (c ∷ cs) zero app = click c app
  press_from (c ∷ cs) (suc i) app = press_from cs i app

  -- Clicks one after the other, each on a control that is offered then, in a window that is narrow
  -- or not.
  unfoldable pub press_all : List (Bool × ℕ) → NetMuxApp F → Run (NetMuxApp F)
  unfolding click
  press_all [] app = done app
  press_all ((narrow, i) ∷ is) app = do
    app ← press_from (offered narrow app) i app
    press_all is app

abbrev IsMild : Click → Type 0
IsMild (change action) = IsSmallAction action
IsMild c = Unit

nav_row-IsMild : (current : Tab) → All IsMild (nav_row current)
nav_row-IsMild dashboard = (tt, (tt, (tt, tt)))
nav_row-IsMild interfaces = (tt, (tt, (tt, tt)))
nav_row-IsMild policy = (tt, (tt, (tt, tt)))
nav_row-IsMild statistics = (tt, (tt, (tt, tt)))

rows-IsMild : {F : Type 0} (cs : List (CandidateIface F)) → All IsMild (rows cs)
rows-IsMild [] = tt
rows-IsMild (c ∷ cs) =
    (tt, (omega arith, (omega arith, (omega arith, (omega arith, rows-IsMild cs)))))

page-IsMild : {F : Type 0} (tab : Tab) (agg : Aggregator F) → All IsMild (page tab agg)
page-IsMild dashboard agg = tt
page-IsMild interfaces agg = rows-IsMild agg.candidates
page-IsMild policy agg = (tt, (tt, (tt, (tt, (tt, tt)))))
page-IsMild statistics agg = tt

offered-IsMild : {F : Type 0} (narrow : Bool) (app : NetMuxApp F) → All IsMild (offered narrow app)
offered-IsMild true app = (
  tt,
  (
    tt,
    All-append IsMild (nav_row app.tab) _ (nav_row-IsMild app.tab)
        (page-IsMild app.tab app.plane.aggregator),
  ),
)
offered-IsMild false app =
    All-append IsMild (sidebar app.tab) _
      (All-append IsMild (nav_row app.tab) _ (nav_row-IsMild app.tab) (tt, tt))
      (tt, page-IsMild app.tab app.plane.aggregator)

abbrev pub Sound : {F : Type 0} → NetMuxApp F → Type 0
Sound app = IsSound app.plane.aggregator.config

module _ {F : Type 0} (start : NetMuxApp F) where
  -- The configuration is sound, and only the engine, the tab and the theme may have changed.
  abbrev pub Kept : NetMuxApp F → Type 0
  Kept app =
      Sound app
      × (app ≡ record (with_engine app.plane.aggregator start) {
        tab = app.tab;
        theme_mode = app.theme_mode;
      })

  with_engine-Kept :
      (agg : Aggregator F) (app : NetMuxApp F)
      → IsSound agg.config
      → Kept app
      → Kept (with_engine agg app)
  with_engine-Kept agg app h (sound, same) = (h, ap (with_engine agg) same)

  click-Kept : (c : Click) (app : NetMuxApp F) → IsMild c → Kept app → Ensures Kept (click c app)
  unfolding click toggle_enabled set_strategy set_algorithm iface_action cycle_theme
  click-Kept toggle app mild k =
      with_engine-Kept _ app (record { tuned = k.0.tuned; checked = k.0.checked }) k
  click-Kept (choose_strategy s) app mild k =
      with_engine-Kept _ app (record { tuned = k.0.tuned; checked = k.0.checked }) k
  click-Kept (choose_algorithm a) app mild k =
      with_engine-Kept _ app (record { tuned = k.0.tuned; checked = k.0.checked }) k
  click-Kept (change action) app mild k =
      Ensures-bind (λ agg. IsSound agg.config) Kept (iface_action action app.plane.aggregator) _
        (Ensures-bind IsAccepted (λ agg. IsSound agg.config)
          (act action app.plane.aggregator.config) _
          (act-IsAccepted action app.plane.aggregator.config mild k.0)
          (λ cfg (sound, valid). sound))
        (λ agg sound. with_engine-Kept agg app sound k)
  click-Kept next_theme app mild (sound, same) = (sound, ap cycle_theme same)
  click-Kept (go tab) app mild (sound, same) =
      (sound, ap (λ (a : NetMuxApp F). record a { tab = tab }) same)

  press_from-Kept :
      (cs : List Click) (i : ℕ) (app : NetMuxApp F)
      → All IsMild cs
      → Kept app
      → Ensures Kept (press_from cs i app)
  press_from-Kept [] i app mild k = k
  press_from-Kept (c ∷ cs) zero app (m, mild) k = click-Kept c app m k
  press_from-Kept (c ∷ cs) (suc i) app (m, mild) k = press_from-Kept cs i app mild k

  press_all-from :
      (clicks : List (Bool × ℕ)) (app : NetMuxApp F)
      → Kept app
      → Ensures Kept (press_all clicks app)
  unfolding press_all
  press_all-from [] app k = k
  press_all-from ((narrow, i) ∷ is) app k =
      Ensures-bind Kept Kept (press_from (offered narrow app) i app) _
        (press_from-Kept (offered narrow app) i app (offered-IsMild narrow app) k)
        (λ after k. press_all-from is after k)

  -- From a sound configuration, any clicks on what the window offers, each among the controls of the
  -- tab and the width that it has when it is made, return without a panic. They leave the
  -- configuration sound, and nothing has changed but the engine, the tab and the theme's mode: the
  -- session table, the counters, the generator and the banner are as before.
  pub press_all-Kept :
      (clicks : List (Bool × ℕ)) → Sound start → Ensures Kept (press_all clicks start)
  press_all-Kept clicks h = press_all-from clicks start (h, refl)
