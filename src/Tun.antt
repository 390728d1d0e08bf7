-- ===== src/Tun.antt =====
-- crates/netmux-core/src/tun.rs: the TUN device. What the kernel writes back into a request is
-- written over it. `CString::new` and `to_str` of the path of the device never fail.
pub mod Request
pub mod Bounds
pub mod Created
pub mod Raised
use netmux.Prelude.{ℕ, List, [], ◌∷◌, ◌++◌, if◌then◌else◌, take, overwrite, done, panic, slice_to}
use netmux.Text.{Text, text}
use netmux.Text.Utf8.{from_utf8_lossy}
use netmux.Error.{NetmuxError, ok, err, permission, io}
use netmux.System.{
  OsError, Answer, fails, answers, datagram, Kernel, Process, Sys, ◌>>=◌, give, lift, noted, close,
  acquire, asked, cstring,
}
use netmux.Tun.Request.{or_bit, tun_request, name_request, up_request, until_nul}

-- `file` is its descriptor.
pub record Tun : Type 0 where
  pub file : ℕ
  pub name : Text

abbrev pub tunsetiff : ℕ
tunsetiff = 0x400454ca

abbrev pub siocgifflags : ℕ
siocgifflags = 0x8913

abbrev pub siocsifflags : ℕ
siocsifflags = 0x8914

-- `MAX_PACKET`
abbrev pub max_packet : ℕ
max_packet = 65536

abbrev pub nul_message : Text
nul_message = text "interface name contains NUL byte"

abbrev pub socket_context : Text
socket_context = text "socket(AF_INET, SOCK_DGRAM)"

-- The messages of the two permission errors, which say what to do; the dash is U+2014.
abbrev dash : Text
dash = text " " ++ (0xe2 ∷ 0x80 ∷ 0x94 ∷ []) ++ text " "

abbrev pub cannot_open : Text
cannot_open = text "cannot open /dev/net/tun" ++ (dash ++ text "run as root or grant CAP_NET_ADMIN")

abbrev pub needs_admin : Text
needs_admin =
    text "ioctl(TUNSETIFF) needs CAP_NET_ADMIN"
    ++ (dash ++ text "run as root, or grant: sudo setcap cap_net_admin+ep <netmux-app>")

-- An error whose kind is `PermissionDenied` says so, any other is an I/O error.
abbrev pub tun_error : Text → Text → OsError → NetmuxError
tun_error hint context e = if e.denied then permission hint else io context e.message

-- The open of the device.
abbrev pub device_opened : Answer ℕ → Sys ℕ
device_opened (fails e) p =
    done (err (tun_error cannot_open (text "opening /dev/net/tun") e), record p { errno = e })
device_opened (answers fd) p = done (ok fd, record p { fds = fd ∷ p.fds })

unfoldable pub open_device : (List ℕ → Answer ℕ) → Sys ℕ
open_device answer p = device_opened (answer p.fds) p

-- The request on the device, which is closed when `create` returns the error. The buffer after it.
unfoldable pub set_iff : Kernel → ℕ → Text → List ℕ → Answer (List ℕ) → Sys (List ℕ)
unfolding close
set_iff kernel fd name ifr (answers written) p = done (ok (overwrite 0 (take 40 written) ifr), p)
set_iff kernel fd name ifr (fails e) p = done (
  err (tun_error needs_admin (text "ioctl(TUNSETIFF) for " ++ name) e),
  close kernel fd (record p { errno = e }),
)

-- `Tun::create`
unfoldable pub create : Kernel → Text → Sys Tun
unfolding slice_to
create kernel name = do
  cname ← cstring nul_message name
  fd ← open_device kernel.open_tun
  ifr ← lift (tun_request kernel.little_endian name)
  ifr ← set_iff kernel fd name ifr (kernel.ioctl fd tunsetiff ifr)
  field ← lift (slice_to ifr 16)
  give (record { file = fd; name = from_utf8_lossy (until_nul field) })

-- `Tun::read` and `Tun::write`, once the system call has answered: the result is its answer.
unfoldable pub transferred : Answer ℕ → Process → Answer ℕ × Process
transferred n p = (n, noted n p)

-- `Tun::set_nonblocking`, once `fcntl(F_GETFL)` has answered.
abbrev pub with_flags : Kernel → Tun → Answer ℕ → Process → Answer Unit × Process
with_flags kernel tun (fails e) p = (fails e, record p { errno = e })
with_flags kernel tun (answers flags) p =
    let rc = kernel.set_flags tun.file (or_bit kernel.nonblock flags) in (rc, noted rc p)

unfoldable pub set_nonblocking : Kernel → Tun → Process → Answer Unit × Process
set_nonblocking kernel tun p = with_flags kernel tun (kernel.get_flags tun.file) p

-- The closure of `set_up`.
unfoldable pub raise : Kernel → ℕ → Text → Sys Unit
raise kernel fd name = do
  ifr ← lift (name_request name)
  written ← asked (text "ioctl(SIOCGIFFLAGS) for " ++ name) (kernel.ioctl fd siocgifflags ifr)
  ifr ← lift (up_request kernel.little_endian (overwrite 0 (take 40 written) ifr))
  written ← asked (text "ioctl(SIOCSIFFLAGS) for " ++ name) (kernel.ioctl fd siocsifflags ifr)
  give tt

-- The socket closed after the closure, whatever it returns.
unfoldable pub closing : {A : Type 0} → Kernel → ℕ → Sys A → Sys A
unfolding close
closing kernel fd m p = elim (m p) [ panic ↦ panic | done (r, q) ↦ done (r, close kernel fd q) ]

-- `set_up`
unfoldable pub set_up : Kernel → Text → Sys Unit
set_up kernel name = do
  cname ← cstring nul_message name
  fd ← acquire socket_context (λ fds. kernel.socket fds datagram)
  closing kernel fd (raise kernel fd name)
