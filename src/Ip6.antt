-- ===== src/Ip6.antt =====
-- `ip6` of crates/netmux-core/src/packet.rs: the text of an IPv6 address.
pub mod Collisions
use netmux.Prelude.{
  ℕ, ◌+◌, ◌-◌, ◌^◌, List, [], ◌∷◌, ◌++◌, Bool, not, ◌&&◌, ltb, leb, ◌==◌, if◌then◌else◌, length,
  from_be_bytes,
}
use netmux.Text.{Text, text, hexadecimal, ends_with}

-- `b.chunks_exact(2)` as big-endian words.
pub hextets : List ℕ → List ℕ
hextets [] = []
hextets (a ∷ []) = []
hextets (a ∷ b ∷ rest) = from_be_bytes a b ∷ hextets rest

abbrev pub usize_max : ℕ
usize_max = 2 ^ 64 - 1

-- The longest run of zero words so far, and the current one; `usize_max` is no run.
pub record Runs : Type 0 where
  pub best_start : ℕ
  pub best_len : ℕ
  pub cur_start : ℕ
  pub cur_len : ℕ

abbrev pub no_runs : Runs
no_runs = record { best_start = usize_max; best_len = 0; cur_start = usize_max; cur_len = 0 }

abbrev pub grow : ℕ → Runs → Runs
grow i r =
    if r.cur_start == usize_max
    then record r { cur_start = i; cur_len = 1 }
    else record r { cur_len = r.cur_len + 1 }

abbrev pub keep_best : Runs → Runs
keep_best r =
    if ltb r.best_len r.cur_len
    then record r { best_len = r.cur_len; best_start = r.cur_start }
    else r

pub scan_word : ℕ → ℕ → Runs → Runs
scan_word i w r =
    if w == 0 then keep_best (grow i r) else record r { cur_start = usize_max; cur_len = 0 }

pub scan_words : ℕ → List ℕ → Runs → Runs
scan_words i [] r = r
scan_words i (w ∷ ws) r = scan_words (i + 1) ws (scan_word i w r)

abbrev pub colon : ℕ
colon = b':'

abbrev pub separated : Text → Text
separated out = if ltb 0 (length out) && not (ends_with out colon) then out ++ colon ∷ [] else out

-- One word in the second loop.
pub render_word : Bool → ℕ → ℕ → ℕ → ℕ → Text → Text
render_word compress start len i w out =
    if compress && (leb start i && ltb i (start + len))
    then (if i == start then out ++ (if start == 0 then colon ∷ [] else colon ∷ []) else out)
    else separated out ++ hexadecimal w

pub render_words : Bool → ℕ → ℕ → ℕ → List ℕ → Text → Text
render_words compress start len i [] out = out
render_words compress start len i (w ∷ ws) out =
    render_words compress start len (i + 1) ws (render_word compress start len i w out)

abbrev pub or_unspecified : Text → Text
or_unspecified [] = text "::"
or_unspecified (c ∷ s) = c ∷ s

pub ip6_words : List ℕ → Text
ip6_words words =
    let r = scan_words 0 words no_runs in
    let compress = leb 2 r.best_len in
    let out = render_words compress r.best_start r.best_len 0 words [] in
    or_unspecified (if compress && r.best_start + r.best_len == 8 then out ++ colon ∷ [] else out)

unfoldable pub ip6 : List ℕ → Text
unfolding hextets scan_word scan_words render_word render_words ip6_words
ip6 b = ip6_words (hextets b)
