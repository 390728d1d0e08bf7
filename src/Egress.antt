-- ===== src/Egress.antt =====
-- crates/netmux-core/src/egress.rs: the raw sockets that send packets and capture replies.
pub mod Sockets
pub mod Address
pub mod Receive
use netmux.Prelude.{ℕ, ◌+◌, ◌-◌, ◌*◌, ◌/◌, ◌%◌, ◌^◌, List, [], ◌∷◌, Bool, if◌then◌else◌}
use netmux.Text.{Text, text}
use netmux.Ipv4.{Ipv4Addr}
use netmux.System.{
  Answer, fails, answers, raw_inet, raw_packet, header_included, bind_to_device, Kernel, Process,
  Sys, ◌>>=◌, give, noted, close, acquire, checked, cstring,
}

-- `RawEgress` and `RawCapture`
pub record RawEgress : Type 0 where
  pub fd : ℕ
  pub ifname : Text

pub record RawCapture : Type 0 where
  pub fd : ℕ
  pub ifname : Text

abbrev pub nul_message : Text
nul_message = text "ifname contains NUL"

-- `RawEgress::open`
unfoldable pub open_raw : Kernel → Text → Sys RawEgress
open_raw kernel ifname = do
  fd ← acquire (text "socket(AF_INET, SOCK_RAW)") (λ fds. kernel.socket fds raw_inet)
  included ←
      checked kernel fd (text "setsockopt(IP_HDRINCL)") (kernel.setsockopt fd header_included)
  cname ← cstring nul_message ifname
  bound ←
      checked kernel fd (text "setsockopt(SO_BINDTODEVICE)")
        (kernel.setsockopt fd (bind_to_device cname))
  give (record { fd = fd; ifname = ifname })

-- `RawCapture::open`
unfoldable pub open_capture : Kernel → Text → Sys RawCapture
open_capture kernel ifname = do
  fd ← acquire (text "socket(AF_PACKET)") (λ fds. kernel.socket fds raw_packet)
  cname ← cstring nul_message ifname
  ifindex ← checked kernel fd (text "if_nametoindex") (kernel.if_nametoindex cname)
  bound ← checked kernel fd (text "bind(AF_PACKET)") (kernel.bind fd ifindex)
  give (record { fd = fd; ifname = ifname })

-- `Drop`
unfoldable pub drop_raw : Kernel → RawEgress → Process → Process
unfolding close
drop_raw kernel sock p = close kernel sock.fd p

unfoldable pub drop_capture : Kernel → RawCapture → Process → Process
unfolding close
drop_capture kernel cap p = close kernel cap.fd p

abbrev pub octets : Ipv4Addr → List ℕ
octets ip = ip.a ∷ ip.b ∷ ip.c ∷ ip.d ∷ []

-- A 32-bit word from the four bytes of memory that hold it, lowest address first, and back.
abbrev pub from_ne_bytes : Bool → ℕ → ℕ → ℕ → ℕ → ℕ
from_ne_bytes little a b c d =
    if little
    then a + b * 2 ^ 8 + c * 2 ^ 16 + d * 2 ^ 24
    else d + c * 2 ^ 8 + b * 2 ^ 16 + a * 2 ^ 24

abbrev pub to_ne_bytes : Bool → ℕ → List ℕ
to_ne_bytes little w =
    if little
    then w % 2 ^ 8 ∷ w / 2 ^ 8 % 2 ^ 8 ∷ w / 2 ^ 16 % 2 ^ 8 ∷ w / 2 ^ 24 % 2 ^ 8 ∷ []
    else w / 2 ^ 24 % 2 ^ 8 ∷ w / 2 ^ 16 % 2 ^ 8 ∷ w / 2 ^ 8 % 2 ^ 8 ∷ w % 2 ^ 8 ∷ []

abbrev swap_bytes : ℕ → ℕ
swap_bytes w =
    w % 2 ^ 8 * 2 ^ 24
    + w / 2 ^ 8 % 2 ^ 8 * 2 ^ 16
    + w / 2 ^ 16 % 2 ^ 8 * 2 ^ 8
    + w / 2 ^ 24 % 2 ^ 8

-- `w.to_be()`
abbrev pub to_be : Bool → ℕ → ℕ
to_be little w = if little then swap_bytes w else w

-- The bytes of `sin_addr` that `RawEgress::send` hands to `sendto`.
unfoldable pub sin_addr : Bool → Ipv4Addr → List ℕ
sin_addr little dst =
    to_ne_bytes little (to_be little (from_ne_bytes little dst.a dst.b dst.c dst.d))

-- `RawEgress::send`: `sendto` answers for a descriptor, a packet and the bytes of an address.
unfoldable pub send_raw :
    Kernel
    → (ℕ → List ℕ → List ℕ → Answer ℕ)
    → RawEgress
    → List ℕ
    → Ipv4Addr
    → Process
    → Answer ℕ × Process
unfolding sin_addr
send_raw kernel sendto sock pkt dst p =
    let n = sendto sock.fd pkt (sin_addr kernel.little_endian dst) in (n, noted n p)
