-- ===== src/System.antt =====
-- The system calls of crates/netmux-core/src/egress.rs and tun.rs. What the kernel answers is a
-- parameter; a run keeps the descriptors that are open and the last error.
pub mod Descriptors
use netmux.Prelude.{
  ℕ, ℕ_discrete, List, [], ◌∷◌, ◌++◌, Bool, true, false, ◌==◌, ◌||◌, if◌then◌else◌, ite, Run, done,
  panic,
}
use netmux.Text.{Text}
use netmux.Error.{NetmuxError, io, config, Result, ok, err}

-- `std::io::Error`: whether its kind is `PermissionDenied`, and its description.
pub record OsError : Type 0 where
  pub denied : Bool
  pub message : Text

pub data Answer (A : Type 0) : Type 0 where
  fails : OsError → Answer A
  answers : A → Answer A

-- The domain and the type of a socket, an option with its value.
pub data SocketKind : Type 0 where
  raw_inet raw_packet datagram : SocketKind

pub data SockOpt : Type 0 where
  header_included : SockOpt
  bind_to_device : List ℕ → SockOpt

-- The kernel: what it answers to a call with these arguments, and the byte order of the machine.
pub record Kernel : Type 0 where
  pub little_endian : Bool
  pub open_tun : List ℕ → Answer ℕ
  -- Which descriptor is free depends on those that are open.
  pub socket : List ℕ → SocketKind → Answer ℕ
  pub setsockopt : ℕ → SockOpt → Answer Unit
  pub if_nametoindex : List ℕ → Answer ℕ
  pub bind : ℕ → ℕ → Answer Unit
  pub ioctl : ℕ → ℕ → List ℕ → Answer (List ℕ)
  pub get_flags : ℕ → Answer ℕ
  pub set_flags : ℕ → ℕ → Answer Unit
  -- The bit of libc's O_NONBLOCK.
  pub nonblock : ℕ
  pub close : ℕ → Answer Unit

pub record Process : Type 0 where
  pub fds : List ℕ
  pub errno : OsError

abbrev pub Sys : Type 0 → Type 0
Sys A = Process → Run (Result A × Process)

abbrev pub resume :
    {A B : Type 0} → Run (Result A × Process) → (A → Sys B) → Run (Result B × Process)
resume panic f = panic
resume (done (err e, p)) f = done (err e, p)
resume (done (ok a, p)) f = f a p

-- `?` and the statements after it.
infixl 5 ◌>>=◌
abbrev pub ◌>>=◌ : {A B : Type 0} → Sys A → (A → Sys B) → Sys B
(m >>= f) p = resume (m p) f

abbrev pub give : {A : Type 0} → A → Sys A
give a p = done (ok a, p)

abbrev pub lift : {A : Type 0} → Run A → Sys A
lift panic p = panic
lift (done a) p = done (ok a, p)

abbrev pub remove : ℕ → List ℕ → List ℕ
remove fd [] = []
remove fd (x ∷ fds) = ite (ℕ_discrete x fd) fds (x ∷ remove fd fds)

-- `last_os_error()` after a call.
abbrev pub noted : {A : Type 0} → Answer A → Process → Process
noted (fails e) p = record p { errno = e }
noted (answers a) p = p

-- `close(fd)`: the descriptor is gone even if the call fails.
unfoldable pub close : Kernel → ℕ → Process → Process
close kernel fd p = record (noted (kernel.close fd) p) { fds = remove fd p.fds }

-- A call for a new descriptor, and the return with an error if it fails.
abbrev pub acquired : Text → Answer ℕ → Sys ℕ
acquired context (fails e) p = done (err (io context e.message), record p { errno = e })
acquired context (answers fd) p = done (ok fd, record p { fds = fd ∷ p.fds })

unfoldable pub acquire : Text → (List ℕ → Answer ℕ) → Sys ℕ
acquire context answer p = acquired context (answer p.fds) p

-- A call, and the return with an error if it fails.
unfoldable pub asked : {A : Type 0} → Text → Answer A → Sys A
asked context (fails e) p = done (err (io context e.message), record p { errno = e })
asked context (answers a) p = done (ok a, p)

-- A call on a descriptor that is closed if it fails, before the error is read.
unfoldable pub checked : {A : Type 0} → Kernel → ℕ → Text → Answer A → Sys A
unfolding close
checked kernel fd context (answers a) p = done (ok a, p)
checked kernel fd context (fails e) p =
    let q = close kernel fd (record p { errno = e }) in done (err (io context q.errno.message), q)

unfoldable pub has_nul : Text → Bool
has_nul [] = false
has_nul (c ∷ s) = c == 0 || has_nul s

-- `CString::new(name)`, with its error mapped to a configuration error.
unfoldable pub cstring : Text → Text → Sys (List ℕ)
cstring message name p =
    done (if has_nul name then err (config message) else ok (name ++ 0 ∷ []), p)
