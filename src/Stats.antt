-- ===== src/Stats.antt =====
-- `IfaceSample`, `StatsCollector` and `refresh` of crates/netmux-core/src/stats.rs. The directory
-- entries and the clock reading are arguments; an `Instant` is a number of nanoseconds.
pub mod Samples
pub mod Format
use netmux.Prelude.{ℕ, ◌-◌, List, [], ◌∷◌, Bool, ◌||◌, Option, none, some}
use netmux.Prelude.HashMap
use netmux.Prelude.HashMap.{HashMap}
use netmux.Text.{Text, text, Text-discrete}
use netmux.Float.{Float}
use netmux.Sysfs.{SysEntry, read_u64, read_bool, trim, text_eq, unwrap_or}

pub record IfaceSample (F : Type 0) : Type 0 where
  pub rx_bytes_per_sec : F
  pub tx_bytes_per_sec : F
  pub rx_pkt_per_sec : F
  pub tx_pkt_per_sec : F
  pub is_up : Bool

-- Received and sent bytes, received and sent packets.
pub record Counters : Type 0 where
  pub rx_b : ℕ
  pub tx_b : ℕ
  pub rx_p : ℕ
  pub tx_p : ℕ

pub record StatsCollector (F : Type 0) : Type 0 where
  pub last_counters : HashMap Text Counters
  pub last_at : ℕ
  pub samples : HashMap Text (IfaceSample F)

-- `StatsCollector::default()` at a time.
abbrev pub default_collector : {F : Type 0} → ℕ → StatsCollector F
default_collector now = record { last_counters = []; last_at = now; samples = [] }

unfoldable pub read_counters : SysEntry → Counters
read_counters e = record {
  rx_b = read_u64 e.rx_bytes;
  tx_b = read_u64 e.tx_bytes;
  rx_p = read_u64 e.rx_packets;
  tx_p = read_u64 e.tx_packets;
}

unfoldable pub reads_up : SysEntry → Bool
reads_up e = read_bool e.carrier || text_eq (trim (unwrap_or e.operstate [])) (text "up")

module _ {F : Type 0} ⦃fl : Float F⦄ where
  abbrev pub zero_sample : Bool → IfaceSample F
  zero_sample up = record {
    rx_bytes_per_sec = fl.of_u64 0;
    tx_bytes_per_sec = fl.of_u64 0;
    rx_pkt_per_sec = fl.of_u64 0;
    tx_pkt_per_sec = fl.of_u64 0;
    is_up = up;
  }

  -- `new.saturating_sub(old) as f64 / dt`; `-` stops at 0.
  abbrev pub rate : ℕ → ℕ → F → F
  rate new old dt = fl.div (fl.of_u64 (new - old)) dt

  -- `elapsed.max(1e-3)`
  abbrev pub interval : ℕ → F
  interval nanos = fl.larger (fl.secs_of_nanos nanos) (fl.div (fl.of_u64 1) (fl.of_u64 1000))

  -- The sample of one interface from its counters now and at the last refresh.
  unfoldable pub sample_of : Counters → Option Counters → F → Bool → IfaceSample F
  sample_of now none dt up = zero_sample up
  sample_of now (some old) dt up = record {
    rx_bytes_per_sec = rate now.rx_b old.rx_b dt;
    tx_bytes_per_sec = rate now.tx_b old.tx_b dt;
    rx_pkt_per_sec = rate now.rx_p old.rx_p dt;
    tx_pkt_per_sec = rate now.tx_p old.tx_p dt;
    is_up = up;
  }

  -- One round of the loop: the counters that will be remembered, and the samples.
  unfoldable pub refresh_named :
      HashMap Text Counters
      → F
      → SysEntry
      → Text
      → HashMap Text Counters × HashMap Text (IfaceSample F)
      → HashMap Text Counters × HashMap Text (IfaceSample F)
  refresh_named last dt e name (current, samples) = (
    HashMap.insert Text-discrete name (read_counters e) current,
    HashMap.insert Text-discrete name
        (sample_of (read_counters e) (HashMap.get Text-discrete name last) dt (reads_up e)) samples,
  )

  unfoldable pub refresh_entry :
      HashMap Text Counters
      → F
      → SysEntry
      → Option Text
      → HashMap Text Counters × HashMap Text (IfaceSample F)
      → HashMap Text Counters × HashMap Text (IfaceSample F)
  refresh_entry last dt e none st = st
  refresh_entry last dt e (some name) st = refresh_named last dt e name st

  unfoldable pub refresh_entries :
      HashMap Text Counters
      → F
      → List SysEntry
      → HashMap Text Counters × HashMap Text (IfaceSample F)
      → HashMap Text Counters × HashMap Text (IfaceSample F)
  unfolding refresh_entry refresh_named
  refresh_entries last dt [] st = st
  refresh_entries last dt (e ∷ es) st =
      refresh_entries last dt es (refresh_entry last dt e e.name st)

  -- An unreadable directory has no entries.
  unfoldable pub refresh : Option (List SysEntry) → ℕ → StatsCollector F → StatsCollector F
  refresh entries now c =
      let st =
        refresh_entries c.last_counters (interval (now - c.last_at)) (unwrap_or entries [])
          ([], c.samples) in
      record { last_counters = st.0; last_at = now; samples = st.1 }
