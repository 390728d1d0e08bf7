-- ===== src/Tests/Devices.antt =====
-- The device, the sockets and the start.
use netmux.Prelude.{
  ℕ, suc, ◌≡◌, ◌↔◌, ◌⊎◌, refl, length, List, [], ◌∷◌, ◌++◌, true, false, none, some, arith, All,
  IsBytes, drop, take, replicate, done, Returns, Ensures, ◌≤◌,
}
use netmux.Text.Utf8.{IsAscii}
use netmux.Error.{ok}
use netmux.System.{OsError, Answer, answers, Kernel, Process, has_nul}
use netmux.System.Descriptors.{Keeps}
use netmux.Egress.{octets, sin_addr, open_raw, open_capture}
use netmux.Egress.Address.{sin_addr-octets}
use netmux.Egress.Sockets.{IsRaw, IsCapture, open-Keeps}
use netmux.Tun.{tunsetiff, siocgifflags, create, set_up}
use netmux.Tun.Bounds.{named_request}
use netmux.Tun.Created.{create-Returns, create_name}
use netmux.Tun.Raised.{SetUp, set_up-SetUp}
use netmux.DataPlane.{capture_step}
use netmux.DataPlane.Rounds.{capture_round, capture_round-capture_step}
use netmux.DataPlane.RoundTrip.{always}
use netmux.App.Launch.{
  Launched, obtain, obtain-Launched, device_name, device_name-IsAscii, named_request-IsAscii,
  IsBytes-ascii,
}
use netmux.App.New.{IsNew, new, new-IsNew}
use netmux.App.{statistics}
use netmux.View.Controls.{Kept, offered, press_all}
use netmux.View.Reach.{Shows, press_all-Shows}
use netmux.Tests.Sessions.{order}
use netmux.Tests.{whole, packet, egress_ip, egress_ip-IsOctets}
use netmux.Tests.Choices.{entry}
use netmux.Tests.Planes.{plane, addresses, app}

-- A kernel that grants everything, and leaves the request for "netmux0" as it is.
abbrev kernel : Kernel
kernel = record {
  little_endian = true;
  open_tun = λ fds. answers (suc (suc (suc (length fds))));
  socket = λ fds kind. answers (suc (suc (suc (length fds))));
  setsockopt = λ fd opt. answers tt;
  if_nametoindex = λ name. answers 2;
  bind = λ fd ifindex. answers tt;
  ioctl = λ fd request ifr. answers (named_request true device_name);
  get_flags = λ fd. answers 2;
  set_flags = λ fd flags. answers tt;
  nonblock = 11;
  close = λ fd. answers tt;
}

abbrev process : Process
process = record { fds = []; errno = record { denied = false; message = [] } }

abbrev value : Answer (List ℕ) → List ℕ
value (answers l) = l
value (netmux.System.fails e) = []

names :
    (fd : ℕ) (ifr written : List ℕ)
    → kernel.ioctl fd tunsetiff ifr ≡ answers written
    → All IsAscii written
names fd ifr written e =
    let same : named_request true device_name ≡ written = netmux.Prelude.ap value e in
    rw⁻¹ same (named_request-IsAscii true)

replies :
    (fd : ℕ) (ifr read : List ℕ) → kernel.ioctl fd siocgifflags ifr ≡ answers read → IsBytes read
replies fd ifr read e = IsBytes-ascii read (names fd ifr read e)

plain : has_nul device_name ≡ false
unfolding has_nul
plain = refl

open-Keeps_example :
    Ensures (Keeps [] (IsRaw kernel device_name process)) (open_raw kernel device_name process)
    × Ensures
        (Keeps [] (IsCapture kernel device_name process))
        (open_capture kernel device_name process)
open-Keeps_example = open-Keeps kernel device_name process plain

sin_addr-octets_example :
    (sin_addr true egress_ip ≡ octets egress_ip)
    ↔ ((true ≡ false) ⊎ ((egress_ip.a ≡ egress_ip.d) × (egress_ip.b ≡ egress_ip.c)))
sin_addr-octets_example = sin_addr-octets true egress_ip egress_ip-IsOctets

create-Returns_example : Returns (create kernel device_name process) ↔ (length device_name ≤ 16)
create-Returns_example = create-Returns kernel device_name process plain 3 refl

create_name_example :
    create kernel device_name process
    ≡ done (ok (record { file = 3; name = device_name }), record process { fds = 3 ∷ [] })
create_name_example =
    create_name kernel device_name process 3 (named_request true device_name) plain (omega arith)
      device_name-IsAscii refl refl refl refl

set_up-SetUp_example :
    Ensures (Keeps [] (SetUp kernel device_name [])) (set_up kernel device_name process)
set_up-SetUp_example =
    set_up-SetUp kernel device_name (omega arith) (IsBytes-ascii device_name device_name-IsAscii)
      replies process

-- A frame of an Ethernet header and a packet, in a buffer of 64 bytes.
abbrev frame : List ℕ
frame = replicate 14 0 ++ packet

capture_round-capture_step_example :
    capture_round always (answers frame) (replicate 64 0) plane
    ≡ capture_step always (drop 14 frame) plane
capture_round-capture_step_example =
    capture_round-capture_step always frame (replicate 64 0) plane (omega arith)

obtain-Launched_example : Ensures (Launched kernel true process) (obtain kernel true process)
obtain-Launched_example = obtain-Launched kernel names replies true process

new-IsNew_example :
    Ensures
      (IsNew ℕ ⦃fl = whole⦄ kernel (some (entry ∷ [])) 0 addresses order)
      (new ℕ ⦃fl = whole⦄ kernel (some (entry ∷ [])) 0 addresses order true process)
new-IsNew_example =
    new-IsNew ℕ ⦃fl = whole⦄ kernel (some (entry ∷ [])) 0 addresses order names replies true process

-- The interfaces view of a wide window, the weight of its first row up, then the engine's switch.
press_all-Shows_example :
    Ensures
      (λ after. Kept app after × Shows (offered true after) after.tab statistics after)
      (press_all ((false, 0) ∷ (false, 8) ∷ (true, 1) ∷ []) app)
press_all-Shows_example =
    press_all-Shows ((false, 0) ∷ (false, 8) ∷ (true, 1) ∷ []) true statistics app
      (record { tuned = tt; checked = omega arith })
