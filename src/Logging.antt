-- ===== src/Logging.antt =====
-- crates/netmux-core/src/logging.rs: the writer that fans out, and the choice of its targets. The
-- targets, the filters and the subscriber are those of the standard library and of the tracing
-- crates: parameters.
pub mod FanOut
use netmux.Prelude.{
  ℕ, List, [], ◌∷◌, ◌++◌, Bool, true, false, if◌then◌else◌, Option, none, some, length, map,
}
use netmux.Text.{Text, text}
use netmux.System.{Answer, answers}

-- `String` as the error of `init`.
pub data Outcome (A : Type 0) : Type 0 where
  fine : A → Outcome A
  failed : Text → Outcome A

module _ {W : Type 0} (write_all : List ℕ → W → W) (flush_one : W → W) where
  -- `RollingWriter::write`: `poisoned` says whether the lock of the targets is; what a target
  -- answers is dropped.
  unfoldable pub write : Bool → List ℕ → List W → Answer ℕ × List W
  write poisoned buf targets =
      (answers (length buf), if poisoned then targets else map (write_all buf) targets)

  -- `RollingWriter::flush`
  unfoldable pub flush : Bool → List W → Answer (Unit {0}) × List W
  flush poisoned targets = (answers tt, if poisoned then targets else map flush_one targets)

-- What `init` calls: a filter by its description, a directory made, the file of an application in
-- it, and the subscriber with a filter and targets.
pub record Tracing (W Filter : Type 0) : Type 0 where
  pub try_new : Text → Outcome Filter
  pub stderr : W
  pub create_dir_all : Text → Outcome (Unit {0})
  pub daily : Text → Text → W
  pub try_init : Filter → List W → Outcome (Unit {0})

module _ {W Filter : Type 0} (tracing : Tracing W Filter) where
  abbrev pub and_then : {A B : Type 0} → Outcome A → (A → Outcome B) → Outcome B
  and_then (fine a) f = f a
  and_then (failed e) f = failed e

  abbrev pub map_error : {A : Type 0} → (Text → Text) → Outcome A → Outcome A
  map_error f (fine a) = fine a
  map_error f (failed e) = failed (f e)

  -- The filter of a level, or of "info".
  abbrev pub filter_of : Text → Outcome Filter
  filter_of level = elim (tracing.try_new level) [
    | fine f ↦ fine f
    | failed e ↦ tracing.try_new (text "info")
  ]

  -- Standard error, and a file when there is a directory for it.
  abbrev pub targets_of : Text → Option Text → Outcome (List W)
  targets_of app_name none = fine (tracing.stderr ∷ [])
  targets_of app_name (some dir) =
      and_then (map_error (λ e. text "cannot create log dir: " ++ e) (tracing.create_dir_all dir))
        (λ made. fine (tracing.stderr ∷ tracing.daily dir (app_name ++ text ".log") ∷ []))

  unfoldable pub init : Text → Option Text → Text → Outcome (Unit {0})
  init app_name log_dir level = and_then (filter_of level) (λ filter.
      and_then (targets_of app_name log_dir) (λ targets. tracing.try_init filter targets))

-- The directory that `main` passes: under XDG_STATE_HOME if that is set and not empty.
unfoldable pub log_dir : Option Text → Text
log_dir none = text "/tmp/netmux"
log_dir (some []) = text "/tmp/netmux"
log_dir (some (c ∷ dir)) = (c ∷ dir) ++ text "/netmux"
