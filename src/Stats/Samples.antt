-- ===== src/Stats/Samples.antt =====
-- What a refresh remembers and samples.
use netmux.Prelude.{
  ℕ, ◌-◌, ◌≡◌, ◌≢◌, refl, ap, ◌∙◌, List, [], ◌∷◌, ◌++◌, ◌||◌, Option, none, some, All,
}
use netmux.Prelude.HashMap
use netmux.Prelude.HashMap.{HashMap, get-insert_self, get-insert_ne}
use netmux.Text.{Text, text, Text-discrete}
use netmux.Float.{Float}
use netmux.Sysfs.{SysEntry, read_u64, read_bool, trim, text_eq, unwrap_or}
use netmux.Stats.{
  Counters, IfaceSample, StatsCollector, read_counters, reads_up, interval, sample_of,
  refresh_named, refresh_entry, refresh_entries, refresh,
}

-- An entry of another name, or of none.
abbrev pub IsOther : Text → SysEntry → Type 0
IsOther name e = e.name ≢ some name

module _ {F : Type 0} ⦃fl : Float F⦄ (last : HashMap Text Counters) (dt : F) (name : Text) where
  abbrev Read : Type 0
  Read = HashMap Text Counters × HashMap Text (IfaceSample F)

  -- What is known of the name.
  abbrev known : Read → Option Counters × Option (IfaceSample F)
  known st = (HashMap.get Text-discrete name st.0, HashMap.get Text-discrete name st.1)

  known-refresh_entry :
      (e : SysEntry) (o : Option Text) (st : Read)
      → o ≢ some name
      → known (refresh_entry last dt e o st) ≡ known st
  unfolding refresh_entry refresh_named
  known-refresh_entry e none st h = refl
  known-refresh_entry e (some other) st h =
      let ne : other ≢ name = λ q. h (rw q refl) in
      rw
        (
          get-insert_ne Text-discrete other name _ st.0 ne,
          get-insert_ne Text-discrete other name _ st.1 ne,
        )
        refl

  known-refresh_entries :
      (es : List SysEntry) (st : Read)
      → All (IsOther name) es
      → known (refresh_entries last dt es st) ≡ known st
  unfolding refresh_entries
  known-refresh_entries [] st h = refl
  known-refresh_entries (e ∷ es) st (n, h) =
      known-refresh_entries es (refresh_entry last dt e e.name st) h
      ∙ known-refresh_entry e e.name st n

  known-refresh_entry_self :
      (e : SysEntry) (o : Option Text) (st : Read)
      → o ≡ some name
      → known (refresh_entry last dt e o st) ≡ (
        some (read_counters e),
        some (sample_of (read_counters e) (HashMap.get Text-discrete name last) dt (reads_up e)),
      )
  unfolding refresh_entry refresh_named
  known-refresh_entry_self e none st n = absurd (cc)
  known-refresh_entry_self e (some other) st n =
      let same : other ≡ name = cc in
      let sample =
        sample_of (read_counters e) (HashMap.get Text-discrete name last) dt (reads_up e) in
      rw same (
        rw
          (
            get-insert_self Text-discrete name (read_counters e) st.0,
            get-insert_self Text-discrete name sample st.1,
          )
          refl)

  known-refresh_named :
      (before after : List SysEntry) (e : SysEntry) (st : Read)
      → e.name ≡ some name
      → All (IsOther name) after
      → known (refresh_entries last dt (before ++ e ∷ after) st) ≡ (
        some (read_counters e),
        some (sample_of (read_counters e) (HashMap.get Text-discrete name last) dt (reads_up e)),
      )
  unfolding refresh_entries
  known-refresh_named [] after e st n h =
      known-refresh_entries after (refresh_entry last dt e e.name st) h
      ∙ known-refresh_entry_self e e.name st n
  known-refresh_named (b ∷ before) after e st n h =
      known-refresh_named before after e (refresh_entry last dt b b.name st) n h

module _ {F : Type 0} ⦃fl : Float F⦄ where
  -- A refresh that reads an interface, the last entry of its name, remembers the interface's
  -- counters and samples it: the sample is that of these counters against the ones that the refresh
  -- before remembered, over the time since then.
  refresh-sample_of :
      (before after : List SysEntry) (e : SysEntry) (name : Text) (now : ℕ) (c : StatsCollector F)
      → e.name ≡ some name
      → All (IsOther name) after
      → (HashMap.get Text-discrete name (refresh (some (before ++ e ∷ after)) now c).last_counters
          ≡ some (read_counters e))
        × (HashMap.get Text-discrete name (refresh (some (before ++ e ∷ after)) now c).samples
            ≡ some (
                sample_of
                  (read_counters e)
                  (HashMap.get Text-discrete name c.last_counters)
                  (interval (now - c.last_at))
                  (reads_up e)))
  unfolding refresh
  refresh-sample_of before after e name now c n h =
      let k =
        known-refresh_named c.last_counters (interval (now - c.last_at)) name before after e
          ([], c.samples) n h in
      (
        ap (λ (p : Option Counters × Option (IfaceSample F)). p.0) k,
        ap (λ (p : Option Counters × Option (IfaceSample F)). p.1) k,
      )

  -- Two refreshes in a row that both read an interface, each as the last entry of its name, sample
  -- it by what its files held: each rate is the second number less the first, and 0 if it went down,
  -- divided by the seconds between the two clock readings, and by at least a thousandth of one. The
  -- interface is up if its carrier file says so or its trimmed state file is "up".
  pub refresh-refresh :
      (b a : List SysEntry) (e : SysEntry) (b' a' : List SysEntry) (e' : SysEntry) (name : Text)
      (at at' : ℕ) (c : StatsCollector F)
      → e.name ≡ some name
      → All (IsOther name) a
      → e'.name ≡ some name
      → All (IsOther name) a'
      → let seconds =
          fl.larger (fl.secs_of_nanos (at' - at)) (fl.div (fl.of_u64 1) (fl.of_u64 1000)) in
        HashMap.get Text-discrete name
          (refresh (some (b' ++ e' ∷ a')) at' (refresh (some (b ++ e ∷ a)) at c)).samples
        ≡ some (record {
          rx_bytes_per_sec =
              fl.div (fl.of_u64 (read_u64 e'.rx_bytes - read_u64 e.rx_bytes)) seconds;
          tx_bytes_per_sec =
              fl.div (fl.of_u64 (read_u64 e'.tx_bytes - read_u64 e.tx_bytes)) seconds;
          rx_pkt_per_sec =
              fl.div (fl.of_u64 (read_u64 e'.rx_packets - read_u64 e.rx_packets)) seconds;
          tx_pkt_per_sec =
              fl.div (fl.of_u64 (read_u64 e'.tx_packets - read_u64 e.tx_packets)) seconds;
          is_up = read_bool e'.carrier || text_eq (trim (unwrap_or e'.operstate [])) (text "up");
        })
  refresh-refresh b a e b' a' e' name at at' c n h n' h' =
      let first = refresh (some (b ++ e ∷ a)) at c in
      let before : HashMap.get Text-discrete name first.last_counters ≡ some (read_counters e) =
        (refresh-sample_of b a e name at c n h).0 in
      let last_at : first.last_at ≡ at = unfold refresh in refl in
      (refresh-sample_of b' a' e' name at' first n' h').1
      ∙ rw (before, last_at) (unfold sample_of read_counters reads_up in refl)
