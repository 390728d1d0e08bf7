-- ===== src/App/Launch.antt =====
-- `NetMuxApp::new`: the device, the mode and the banner, and the state that the program starts with.
use netmux.Prelude.{
  ℕ, ◌≤◌, ◌≡◌, refl, ◌∙◌, List, [], ◌∷◌, Bool, true, false, Option, none, some, length, take,
  length-take, All, All-take, IsBytes, overwrite, arith, Run, done, panic, Ensures, ◌==◌,
  Bool-cases, inl, inr,
}
use netmux.Prelude.Buffers.{All-overwrite, All-replicate}
use netmux.Text.{Text, text, utf8}
use netmux.Text.Utf8.{IsAscii, from_utf8_lossy, from_utf8_lossy-ascii}
use netmux.Error.{
  NetmuxError, Result, ok, err, unsupported, permission, io, config, not_found, internal, persist,
  display,
}
use netmux.System.{Answer, fails, answers, Kernel, Process, has_nul}
use netmux.System.Descriptors.{Keeps, fds-noted}
use netmux.Tun.{Tun, tunsetiff, siocgifflags, create, with_flags, set_nonblocking, set_up}
use netmux.Tun.Request.{or_bit, blank, short_to_ne, tun_flags, until_nul}
use netmux.Tun.Bounds.{named_request}
use netmux.Tun.Created.{IsCreated, create-Keeps, written_over}
use netmux.Tun.Raised.{SetUp, set_up-SetUp}
use netmux.Aggregator.{Mode, tunnelling, simulation}

abbrev pub device_name : Text
device_name = text "netmux0"

abbrev pub not_requested : Text
not_requested = utf8 "未以 --tun（需 CAP_NET_ADMIN）运行，当前处于模拟演示模式"

abbrev pub Obtained : Type 0
Obtained = Mode × Option Text × Option Tun

-- After the set-up, whose errors are only logged.
abbrev pub tunnel : Tun → Run (Result (Unit {0}) × Process) → Run (Obtained × Process)
tunnel tun panic = panic
tunnel tun (done (r, p)) = done ((tunnelling, none, some tun), p)

abbrev pub adopt : Kernel → Run (Result Tun × Process) → Run (Obtained × Process)
adopt kernel panic = panic
adopt kernel (done (ok tun, p)) =
    tunnel tun (set_up kernel tun.name (set_nonblocking kernel tun p).1)
adopt kernel (done (err (permission message), p)) = done ((simulation, some message, none), p)
adopt kernel (done (err e, p)) = done ((simulation, some (display e), none), p)

-- The mode, the banner and the device; `requested` says whether `--tun` is an argument.
unfoldable pub obtain : Kernel → Bool → Process → Run (Obtained × Process)
unfolding create set_up set_nonblocking
obtain kernel true p = adopt kernel (create kernel device_name p)
obtain kernel false p = done ((simulation, some not_requested, none), p)

-- What the banner says of an error: a lack of permission carries its own message.
abbrev pub reason : NetmuxError → Text
reason (permission message) = message
reason e = display e

-- With a device the program tunnels, without a banner, and one descriptor more is open, the
-- device's. Without one it simulates, leaves the descriptors as they were, and its banner says that
-- no device was asked for, or which error the device could not be made for.
abbrev pub Launched : Kernel → Bool → Process → Obtained × Process → Type 0
Launched kernel requested p ((tunnelling, banner, tun), q) =
    (requested ≡ true)
    × (banner ≡ none)
    × ((t : Tun) × (tun ≡ some t)
        × (kernel.open_tun p.fds ≡ answers t.file)
        × (q.fds ≡ t.file ∷ p.fds))
Launched kernel false p ((simulation, banner, tun), q) =
    (tun ≡ none) × (banner ≡ some not_requested) × (q.fds ≡ p.fds)
Launched kernel true p ((simulation, banner, tun), q) =
    (tun ≡ none)
    × ((e : NetmuxError) × (create kernel device_name p ≡ done (err e, q))
        × (banner ≡ some (reason e)))
    × (q.fds ≡ p.fds)

fds-set_nonblocking :
    (kernel : Kernel) (tun : Tun) (p : Process) → (set_nonblocking kernel tun p).1.fds ≡ p.fds
unfolding set_nonblocking
fds-set_nonblocking kernel tun p = by_flags (kernel.get_flags tun.file)
  where
    by_flags : (a : Answer ℕ) → (with_flags kernel tun a p).1.fds ≡ p.fds
    by_flags (fails e) = refl
    by_flags (answers flags) =
        fds-noted (kernel.set_flags tun.file (or_bit kernel.nonblock flags)) p

length-until_nul : (l : List ℕ) → length (until_nul l) ≤ length l
length-until_nul [] = omega arith
length-until_nul (b ∷ l) = elim (Bool-cases (b == 0)) [
  | inl z ↦ rw z (omega arith)
  | inr nz ↦ rw nz (omega (arith, length-until_nul l))
]

All-until_nul : (P : ℕ → Type 0) (l : List ℕ) → All P l → All P (until_nul l)
All-until_nul P [] h = tt
All-until_nul P (b ∷ l) (p, h) = elim (Bool-cases (b == 0)) [
  | inl z ↦ rw z tt
  | inr nz ↦ rw nz (p, All-until_nul P l h)
]

pub device_name-IsAscii : All IsAscii device_name
device_name-IsAscii = (
  omega arith,
  (omega arith, (omega arith, (omega arith, (omega arith, (omega arith, (omega arith, tt)))))),
)

pub named_request-IsAscii : (little : Bool) → All IsAscii (named_request little device_name)
named_request-IsAscii little =
    All-overwrite IsAscii 16 (short_to_ne little tun_flags) (overwrite 0 device_name blank)
      (flags-ascii little)
      (All-overwrite IsAscii 0 device_name blank device_name-IsAscii
        (All-replicate IsAscii 40 0 (omega arith)))
  where
    flags-ascii : (b : Bool) → All IsAscii (short_to_ne b tun_flags)
    flags-ascii true = (omega arith, (omega arith, tt))
    flags-ascii false = (omega arith, (omega arith, tt))

pub IsBytes-ascii : (l : List ℕ) → All IsAscii l → IsBytes l
IsBytes-ascii [] h = tt
IsBytes-ascii (b ∷ l) (p, h) = (omega arith, IsBytes-ascii l h)

-- The name that the kernel leaves is short and of bytes when what it writes is ASCII.
abbrev IsShort : Text → Type 0
IsShort name = (length name ≤ 40) × IsBytes name

name-IsShort :
    (little : Bool) (written : List ℕ)
    → All IsAscii written
    → IsShort (
        from_utf8_lossy
          (until_nul (take 16 (written_over written (named_request little device_name)))))
name-IsShort little written ascii =
    let buf = written_over written (named_request little device_name) in
    let field : All IsAscii (until_nul (take 16 buf)) = All-until_nul IsAscii (take 16 buf) (
      All-take IsAscii 16 buf (
        All-overwrite IsAscii 0 (take 40 written) (named_request little device_name)
          (All-take IsAscii 40 written ascii) (named_request-IsAscii little))) in
    rw (from_utf8_lossy-ascii (until_nul (take 16 buf)) field) (
      omega (arith, length-until_nul (take 16 buf), length-take 16 buf),
      IsBytes-ascii (until_nul (take 16 buf)) field,
    )

module _ (kernel : Kernel)
    (names : (fd : ℕ) (ifr written : List ℕ)
      → kernel.ioctl fd tunsetiff ifr ≡ answers written
      → All IsAscii written)
    (replies : (fd : ℕ) (ifr read : List ℕ)
      → kernel.ioctl fd siocgifflags ifr ≡ answers read
      → IsBytes read) where
  -- When the kernel names devices in ASCII and answers requests for flags with bytes, the start
  -- returns. The program tunnels only if it was asked to and has the device, which it keeps open;
  -- else it simulates, with no descriptor left open and a banner that says that it was not asked to,
  -- or gives the error of making the device.
  pub obtain-Launched :
      (requested : Bool) (p : Process)
      → Ensures (Launched kernel requested p) (obtain kernel requested p)
  unfolding obtain
  obtain-Launched false p = (refl, refl, refl)
  obtain-Launched true p =
      by_device (create kernel device_name p)
        (create-Keeps kernel device_name p (unfold has_nul in refl) (omega arith)) refl
    where
      by_set_up :
          (tun : Tun) (q : Process) (m : Run (Result (Unit {0}) × Process))
          → kernel.open_tun p.fds ≡ answers tun.file
          → Ensures (Keeps (tun.file ∷ p.fds) (SetUp kernel tun.name (tun.file ∷ p.fds))) m
          → Ensures (Launched kernel true p) (tunnel tun m)
      by_set_up tun q panic opened h = h
      by_set_up tun q (done (ok u, r)) opened (h, raised) = (refl, refl, (tun, refl, opened, h))
      by_set_up tun q (done (err e, r)) opened h = (refl, refl, (tun, refl, opened, h))

      by_device :
          (m : Run (Result Tun × Process))
          → Ensures (Keeps p.fds (IsCreated kernel device_name p)) m
          → create kernel device_name p ≡ m
          → Ensures (Launched kernel true p) (adopt kernel m)
      by_device panic h c = h
      by_device (done (ok tun, q)) h c =
          let r : Process = (set_nonblocking kernel tun q).1 in
          let open_fds : r.fds ≡ tun.file ∷ p.fds = fds-set_nonblocking kernel tun q ∙ h.held in
          let (short, bytes) : IsShort tun.name = rw h.named (
            name-IsShort kernel.little_endian h.written (
              names tun.file (named_request kernel.little_endian device_name) h.written
                h.accepted)) in
          by_set_up tun r (set_up kernel tun.name r) h.opened
            (rw open_fds at (set_up-SetUp kernel tun.name short bytes replies r))
      by_device (done (err (permission m), q)) h c = (refl, (_, c, refl), h)
      by_device (done (err (unsupported m), q)) h c = (refl, (_, c, refl), h)
      by_device (done (err (io code m), q)) h c = (refl, (_, c, refl), h)
      by_device (done (err (config m), q)) h c = (refl, (_, c, refl), h)
      by_device (done (err (not_found m), q)) h c = (refl, (_, c, refl), h)
      by_device (done (err (internal m), q)) h c = (refl, (_, c, refl), h)
      by_device (done (err (persist m), q)) h c = (refl, (_, c, refl), h)
