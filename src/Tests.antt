-- ===== src/Tests.antt =====
-- The theorems at concrete inputs, and runs of the definitions: data and the proofs about it that
-- the children share.
pub mod Packets
pub mod Sessions
pub mod Choices
pub mod Planes
pub mod Threads
pub mod Devices
use netmux.Prelude.{
  ℕ, ◌+◌, ◌*◌, ◌/◌, ◌^◌, ◌<◌, ◌≡◌, refl, max, List, [], ◌∷◌, Bool, true, ◌&&◌, ltb, ltb→lt, IsBytes,
  arith,
}
use netmux.Float.{Float}
use netmux.Ipv4.{Ipv4Addr, IsOctets}
use netmux.Rewrite.Closed.{IsIpv4}

-- Rates as natural numbers, for runs.
abbrev pub whole : Float ℕ
whole = record {
  of_u64 = λ n. n;
  secs_of_nanos = λ n. n / 1000000000;
  nanos_of_secs = λ s. s * 1000000000;
  infinity = 2 ^ 64;
  add = λ a b. a + b;
  mul = λ a b. a * b;
  div = λ a b. a / b;
  larger = λ a b. max a b;
  lt = ltb;
  to_usize = λ n. n;
}

abbrev pub all_bytes : List ℕ → Bool
all_bytes [] = true
all_bytes (b ∷ l) = ltb b 256 && all_bytes l

pub IsBytes-of : (l : List ℕ) → all_bytes l ≡ true → IsBytes l
IsBytes-of [] h = tt
IsBytes-of (b ∷ l) h = (ltb→lt b 256 (ground arith), IsBytes-of l (ground arith))

-- A TCP packet from 10.0.0.2 port 1000 to 8.8.8.8 port 443.
abbrev pub packet : List ℕ
packet =
    0x45 ∷ 0 ∷ 0 ∷ 40 ∷ 0 ∷ 0 ∷ 0 ∷ 0 ∷ 64 ∷ 6 ∷ 0 ∷ 0 ∷ 10 ∷ 0 ∷ 0 ∷ 2 ∷ 8 ∷ 8 ∷ 8 ∷ 8 ∷ 3 ∷ 232
    ∷ 1 ∷ 187 ∷ 0 ∷ 0 ∷ 0 ∷ 1 ∷ 0 ∷ 0 ∷ 0 ∷ 0 ∷ 80 ∷ 2 ∷ 250 ∷ 240 ∷ 0 ∷ 0 ∷ 0 ∷ 0 ∷ []

abbrev pub egress_ip : Ipv4Addr
egress_ip = record { a = 192; b = 168; c = 1; d = 7 }

abbrev pub client_ip : Ipv4Addr
client_ip = record { a = 10; b = 0; c = 0; d = 2 }

abbrev pub server_ip : Ipv4Addr
server_ip = record { a = 8; b = 8; c = 8; d = 8 }

pub packet-IsBytes : IsBytes packet
packet-IsBytes = IsBytes-of packet refl

pub packet-IsIpv4 : IsIpv4 packet
packet-IsIpv4 = record { version = refl; shortest = omega arith; whole = omega arith }

pub egress_ip-IsOctets : IsOctets egress_ip
egress_ip-IsOctets = (omega arith, omega arith, omega arith, omega arith)
