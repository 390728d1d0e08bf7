-- ===== src/Logging/FanOut.antt =====
-- Every target gets every buffer, whatever the others do.
use netmux.Prelude.{ℕ, ◌≡◌, refl, sym, ◌∙◌, List, [], ◌∷◌, false, map}
use netmux.Logging.{write}

module _ {W : Type 0} (write_all : List ℕ → W → W) (flush_one : W → W) where
  -- The targets after some events, each written in one call.
  abbrev pub written : List (List ℕ) → List W → List W
  written [] targets = targets
  written (buf ∷ bufs) targets = written bufs (write write_all flush_one false buf targets).1

  -- One target that is written to alone.
  abbrev pub alone : List (List ℕ) → W → W
  alone [] w = w
  alone (buf ∷ bufs) w = alone bufs (write_all buf w)

  map-map_fused :
      (f g h : W → W) → ((w : W) → g (f w) ≡ h w) → (l : List W) → map g (map f l) ≡ map h l
  map-map_fused f g h e [] = refl
  map-map_fused f g h e (w ∷ l) = rw (e w, map-map_fused f g h e l) refl

  map_same : (f : W → W) → ((w : W) → f w ≡ w) → (l : List W) → map f l ≡ l
  map_same f e [] = refl
  map_same f e (w ∷ l) = rw (e w, map_same f e l) refl

  -- While the lock is sound, each target of the log is as if it were the only one: it is handed
  -- every event, in order, whatever other targets do with theirs.
  pub written-alone :
      (bufs : List (List ℕ)) (targets : List W) → written bufs targets ≡ map (alone bufs) targets
  unfolding write
  written-alone [] targets = sym (map_same (alone []) (λ w. refl) targets)
  written-alone (buf ∷ bufs) targets =
      written-alone bufs (map (write_all buf) targets)
      ∙ map-map_fused (write_all buf) (alone bufs) (alone (buf ∷ bufs)) (λ w. refl) targets
