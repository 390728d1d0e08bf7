-- ===== src/System/Descriptors.antt =====
-- Which descriptors a run of system calls leaves open.
use netmux.Prelude.{
  ℕ, ℕ_discrete, ◌≡◌, refl, ◌∙◌, ap, List, ◌∷◌, false, if_pos, Run, done, panic, Ensures, Returns,
}
use netmux.Text.{Text}
use netmux.Error.{Result, ok, err}
use netmux.System.{
  Answer, fails, answers, Kernel, Process, Sys, resume, close, acquired, acquire, asked, checked,
  cstring, has_nul, remove, noted,
}

pub remove-cons : (fd : ℕ) (fds : List ℕ) → remove fd (fd ∷ fds) ≡ fds
remove-cons fd fds = if_pos (ℕ_discrete fd fd) refl fds (fd ∷ remove fd fds)

pub fds-noted : {A : Type 0} (a : Answer A) (p : Process) → (noted a p).fds ≡ p.fds
fds-noted (fails e) p = refl
fds-noted (answers a) p = refl

pub fds-close :
    (kernel : Kernel) (fd : ℕ) (p : Process) (fds : List ℕ)
    → p.fds ≡ fd ∷ fds
    → (close kernel fd p).fds ≡ fds
unfolding close
fds-close kernel fd p fds h = ap (remove fd) h ∙ remove-cons fd fds

-- A success has the property, and an error leaves the descriptors `before`.
abbrev pub Keeps : {A : Type 0} → List ℕ → (A → Process → Type 0) → Result A × Process → Type 0
Keeps before P (ok a, p) = P a p
Keeps before P (err e, p) = p.fds ≡ before

-- The newest descriptor is `fd`, on top of those `before`.
abbrev pub Holds : {A : Type 0} → List ℕ → ℕ → A → Process → Type 0
Holds before fd a p = p.fds ≡ fd ∷ before

abbrev pub Acquired : Process → Answer ℕ → ℕ → Process → Type 0
Acquired p a fd q = (a ≡ answers fd) × (q.fds ≡ fd ∷ p.fds)

module _ {A B : Type 0} (before : List ℕ) (P : A → Process → Type 0)
    (Q : B → Process → Type 0) where
  pub Keeps-resume :
      (m : Run (Result A × Process)) (f : A → Sys B)
      → Ensures (Keeps before P) m
      → ((a : A) (p : Process) → P a p → Ensures (Keeps before Q) (f a p))
      → Ensures (Keeps before Q) (resume m f)
  Keeps-resume panic f h k = h
  Keeps-resume (done (err e, p)) f h k = h
  Keeps-resume (done (ok a, p)) f h k = k a p h

pub Keeps-acquire :
    (context : Text) (answer : List ℕ → Answer ℕ) (p : Process)
    → Ensures (Keeps p.fds (Acquired p (answer p.fds))) (acquire context answer p)
unfolding acquire
Keeps-acquire context answer p = by_answer (answer p.fds)
  where
    by_answer : (a : Answer ℕ) → Ensures (Keeps p.fds (Acquired p a)) (acquired context a p)
    by_answer (fails e) = refl
    by_answer (answers fd) = (refl, refl)

pub Keeps-checked :
    {A : Type 0} (before : List ℕ) (kernel : Kernel) (fd : ℕ) (context : Text) (a : Answer A)
    (p : Process)
    → p.fds ≡ fd ∷ before
    → Ensures (Keeps before (Holds before fd)) (checked kernel fd context a p)
unfolding checked
Keeps-checked before kernel fd context (answers a) p h = h
Keeps-checked before kernel fd context (fails e) p h =
    fds-close kernel fd (record p { errno = e }) before h

pub Keeps-cstring :
    (before : List ℕ) (P : Process → Type 0) (message name : Text) (p : Process)
    → has_nul name ≡ false
    → P p
    → Ensures (Keeps before (λ cname. P)) (cstring message name p)
unfolding cstring
Keeps-cstring before P message name p h held = rw h held

-- The call was answered, and the descriptors stay as they were.
abbrev pub Answered : {A : Type 0} → List ℕ → Answer A → A → Process → Type 0
Answered before answer a p = (p.fds ≡ before) × (answer ≡ answers a)

pub Keeps-asked :
    {A : Type 0} (before : List ℕ) (context : Text) (answer : Answer A) (p : Process)
    → p.fds ≡ before
    → Ensures (Keeps before (Answered before answer)) (asked context answer p)
unfolding asked
Keeps-asked before context (fails e) p h = h
Keeps-asked before context (answers a) p h = (h, refl)

-- A success has the property; an error may be any.
abbrev pub Succeeds : {A : Type 0} → (A → Process → Type 0) → Result A × Process → Type 0
Succeeds P (ok a, p) = P a p
Succeeds P (err e, p) = Unit

pub Succeeds-resume :
    {A B : Type 0} (Q : B → Process → Type 0) (m : Run (Result A × Process)) (f : A → Sys B)
    → Returns m
    → ((a : A) (p : Process) → Ensures (Succeeds Q) (f a p))
    → Ensures (Succeeds Q) (resume m f)
Succeeds-resume Q panic f h k = h
Succeeds-resume Q (done (err e, p)) f h k = tt
Succeeds-resume Q (done (ok a, p)) f h k = k a p

pub Returns-acquire :
    (context : Text) (answer : List ℕ → Answer ℕ) (p : Process) → Returns (acquire context answer p)
unfolding acquire
Returns-acquire context answer p = by_answer (answer p.fds)
  where
    by_answer : (a : Answer ℕ) → Returns (acquired context a p)
    by_answer (fails e) = tt
    by_answer (answers fd) = tt

pub Returns-checked :
    {A : Type 0} (kernel : Kernel) (fd : ℕ) (context : Text) (a : Answer A) (p : Process)
    → Returns (checked kernel fd context a p)
unfolding checked
Returns-checked kernel fd context (fails e) p = tt
Returns-checked kernel fd context (answers a) p = tt

pub Returns-cstring : (message name : Text) (p : Process) → Returns (cstring message name p)
unfolding cstring
Returns-cstring message name p = tt
