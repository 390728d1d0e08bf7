-- ===== src/Lib.antt =====
-- NetMux, a Linux tool that spreads traffic over several network interfaces: its packet code, its
-- NAT table, its scheduler, its engine, its data plane and the state behind its window.
--
-- Applications send IPv4 packets to a TUN device. A round of the egress loop reads one, asks the
-- engine for an interface, registers the flow in the NAT table, rewrites the source address and
-- sends the packet through a raw socket. A round of the capture loop takes a packet received on an
-- interface, finds its session, rewrites the destination address and writes the packet to the TUN
-- device. A timer refreshes statistics and candidates, or runs synthetic traffic without a device.
--
-- The files and the code they model, by paths from the repository's root:
--   System      the system calls of the two files that follow: descriptors, the last error
--   Egress      crates/netmux-core/src/egress.rs: RawEgress, RawCapture
--   Tun         crates/netmux-core/src/tun.rs: Tun, set_up
--   Error       crates/netmux-core/src/error.rs: NetmuxError, Result
--   Logging     crates/netmux-core/src/logging.rs: RollingWriter, init
--   Ipv4        std::net::Ipv4Addr as crates/netmux-core/src/nat.rs (parse_ip) uses it
--   Checksum    crates/netmux-core/src/packet.rs: checksum, transport_checksum
--   Rewrite     the same file: rewrite_ipv4_source, rewrite_ipv4_dest
--   Packet      the same file: Flow, Flow::key, parse, parse_v4, parse_v6
--   Ip6         the same file: ip6
--   NatTable    crates/netmux-core/src/nat.rs: Session, NatTable and its operations
--   Sysfs       read_u64 and read_bool of crates/netmux-core/src/interface.rs
--   Interface   the same file: Interface, InterfaceKind, classify, enumerate, counter_map
--   Stats       crates/netmux-core/src/stats.rs: StatsCollector::refresh, fmt_bytes, fmt_bps
--   Policy      crates/netmux-core/src/policy.rs: the configuration, select_interface, fnv1a
--   Aggregator  crates/netmux-core/src/aggregator.rs: Aggregator and its operations
--   Generator   the same file: PcapGenerator
--   DataPlane   crates/netmux-app/src/main.rs: egress_loop and capture_loop, a round at a time
--   App         the same file: NetMuxApp, its start, its tick and the actions of its controls
--   View        the same file: Theme, the labels, the dashboard's numbers, the controls offered
--   Threads     the same file: its loops, its timer and its controls, interleaved
--   Prelude, Text and Float hold what these share; Tests holds runs at concrete inputs.
--
-- How the code is modelled. A byte is a natural number and a text the list of its UTF-8 bytes. A
-- machine word keeps its wrap-around written out; a cast is a remainder. Code that indexes or slices
-- returns a `Run`, which is `panic` out of range. A mutable borrow is an argument and a result. A
-- hash map is an association list. The order in which the values of the session table are iterated
-- is a parameter, the hasher's: any order for every content of the map, so that it can change with
-- each insertion. A struct behind a lock is a field of the state that a round takes and returns: a
-- round of DataPlane is one pass of a loop without interruption. The program releases the locks
-- between its calls; Threads takes the passes apart into steps of one lock, one system call or one
-- atomic addition, and lets the threads take them in any order. f64 is a type with the operations
-- that the program calls, as a parameter; in the scheduler's pool, where the numbers are whole or
-- halves, it is a number rounded to 53 binary digits (Float/Rounded). What is read from
-- /sys/class/net, the clock, and whether a socket or the device accepts a packet are arguments. So is
-- the kernel: what it answers to each system call with its arguments, while the descriptors that are
-- open and the last error are the state of the process. A panic ends a run, so that what unwinding
-- would close does not show.
--
-- Bounds. The carry loop of a checksum runs on three rounds of fuel; a 32-bit sum needs two. The
-- printing of a number n runs on n + 1 rounds, more than it has digits. The loop of fmt_bytes has a
-- round for each unit after the first. The rounding of a number to 53 binary digits counts up to 128
-- digits more; the scheduler's products have at most 97 in all. Other loops follow a list or a count.
--
-- Not modelled: the layout of the views, which gpui builds; the log lines; what the tracing
-- and tracing_appender crates do with filters and files.
pub mod Prelude
pub mod System
pub mod Egress
pub mod Tun
pub mod Text
pub mod Float
pub mod Error
pub mod Logging
pub mod Ipv4
pub mod Ip6
pub mod Checksum
pub mod Rewrite
pub mod Packet
pub mod NatTable
pub mod Sysfs
pub mod Stats
pub mod Interface
pub mod Policy
pub mod Aggregator
pub mod DataPlane
pub mod Generator
pub mod App
pub mod View
pub mod Threads
pub mod Tests
