-- ===== src/View/Reach.antt =====
-- What the window offers after any clicks: every tab is one click away.
use netmux.Prelude.{
  ℕ, suc, ◌≡◌, refl, List, [], ◌∷◌, ◌++◌, Bool, true, false, ◌⊎◌, inl, inr, Run, done, panic,
  Ensures,
}
use mathlib.Core.List.{append_assoc}
use netmux.App.{Tab, dashboard, interfaces, policy, statistics, NetMuxApp}
use netmux.View.Controls.{
  Click, toggle, next_theme, is_tab, nav_row, page, offered, click, press_from, press_all, Sound,
  Kept, press_all-Kept,
}

-- What holds in every state holds in the one that a run leaves.
Ensures-and :
    {A : Type 0} (P Q : A → Type 0) (m : Run A)
    → Ensures P m
    → ((a : A) → Q a)
    → Ensures (λ a. P a × Q a) m
Ensures-and P Q (done a) h k = (h, k a)
Ensures-and P Q panic h k = h

module _ {F : Type 0} where
  -- A tab is shown, or a click on one of these controls shows it and does nothing else.
  abbrev pub Shows : List Click → Tab → Tab → NetMuxApp F → Type 0
  Shows cs current tab app =
      (is_tab current tab ≡ true)
      ⊎ ((i : ℕ) × (press_from cs i app ≡ done (record app { tab = tab })))

  nav_row-Shows :
      (rest : List Click) (current tab : Tab) (app : NetMuxApp F)
      → Shows (nav_row current ++ rest) current tab app
  unfolding click
  nav_row-Shows rest dashboard dashboard app = inl refl
  nav_row-Shows rest dashboard interfaces app = inr (0, refl)
  nav_row-Shows rest dashboard policy app = inr (1, refl)
  nav_row-Shows rest dashboard statistics app = inr (2, refl)
  nav_row-Shows rest interfaces dashboard app = inr (0, refl)
  nav_row-Shows rest interfaces interfaces app = inl refl
  nav_row-Shows rest interfaces policy app = inr (1, refl)
  nav_row-Shows rest interfaces statistics app = inr (2, refl)
  nav_row-Shows rest policy dashboard app = inr (0, refl)
  nav_row-Shows rest policy interfaces app = inr (1, refl)
  nav_row-Shows rest policy policy app = inl refl
  nav_row-Shows rest policy statistics app = inr (2, refl)
  nav_row-Shows rest statistics dashboard app = inr (0, refl)
  nav_row-Shows rest statistics interfaces app = inr (1, refl)
  nav_row-Shows rest statistics policy app = inr (2, refl)
  nav_row-Shows rest statistics statistics app = inl refl

  offered-Shows :
      (narrow : Bool) (tab : Tab) (app : NetMuxApp F) → Shows (offered narrow app) app.tab tab app
  offered-Shows true tab app =
      elim (nav_row-Shows (page app.tab app.plane.aggregator) app.tab tab app) [
        | inl is ↦ inl is
        | inr (i, shows) ↦ inr (suc (suc i), shows)
      ]
  offered-Shows false tab app =
      rw
        (append_assoc (nav_row app.tab) (next_theme ∷ [])
          (toggle ∷ page app.tab app.plane.aggregator))
        (nav_row-Shows (next_theme ∷ toggle ∷ page app.tab app.plane.aggregator) app.tab tab app)

  -- From a sound configuration, any clicks on what the window offers, each among the controls of the
  -- tab and the width that it has when it is made, return without a panic. They leave the
  -- configuration sound, and nothing has changed but the engine, the tab and the theme's mode: the
  -- session table, the counters, the generator and the banner are as before. Then each tab is the
  -- one shown, or a control on offer, in a narrow window and in a wide one, shows it and does
  -- nothing else.
  pub press_all-Shows :
      (clicks : List (Bool × ℕ)) (narrow : Bool) (tab : Tab) (start : NetMuxApp F)
      → Sound start
      → Ensures
          (λ app. Kept start app × Shows (offered narrow app) app.tab tab app)
          (press_all clicks start)
  press_all-Shows clicks narrow tab start h =
      Ensures-and (Kept start) (λ app. Shows (offered narrow app) app.tab tab app)
        (press_all clicks start) (press_all-Kept start clicks h) (offered-Shows narrow tab)
