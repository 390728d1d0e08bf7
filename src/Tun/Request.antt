-- ===== src/Tun/Request.antt =====
-- The buffer `ifr` of crates/netmux-core/src/tun.rs: 40 bytes, a name of 16 and the flags after it.
use netmux.Prelude.{
  ℕ, ◌+◌, ◌*◌, ◌/◌, ◌%◌, ◌^◌, ◌==◌, min, List, [], ◌∷◌, Bool, if◌then◌else◌, length, replicate,
  overwrite, Run, done, panic, ◌>>=◌, index, slice_to, copy_at,
}
use netmux.Text.{Text}

-- `[0u8; 40]`
abbrev pub blank : List ℕ
blank = replicate 40 0

-- A 16-bit word as two bytes of memory, and back.
abbrev pub short_to_ne : Bool → ℕ → List ℕ
short_to_ne little w = if little then w % 256 ∷ w / 256 % 256 ∷ [] else w / 256 % 256 ∷ w % 256 ∷ []

abbrev pub short_from_ne : Bool → ℕ → ℕ → ℕ
short_from_ne little x y = if little then x + y * 256 else x * 256 + y

-- `w | (1 << k)`
abbrev pub or_bit : ℕ → ℕ → ℕ
or_bit k w = if w / 2 ^ k % 2 == 1 then w else w + 2 ^ k

-- `IFF_TUN | IFF_NO_PI`
abbrev pub tun_flags : ℕ
tun_flags = 0x1001

-- `dst[..n].copy_from_slice(src)`, which panics when the lengths differ.
unfoldable pub copy_prefix : ℕ → List ℕ → List ℕ → Run (List ℕ)
unfolding slice_to
copy_prefix n src dst = do
  part ← slice_to dst n
  if length part == length src then done (overwrite 0 src dst) else panic

-- The request of `create`.
unfoldable pub tun_request : Bool → Text → Run (List ℕ)
unfolding copy_prefix slice_to copy_at
tun_request little name = do
  start ← slice_to name (min 16 (length name))
  ifr ← copy_prefix (length name) start blank
  copy_at 16 (short_to_ne little tun_flags) ifr

-- The first request of `set_up`.
unfoldable pub name_request : Text → Run (List ℕ)
unfolding copy_prefix
name_request name = copy_prefix (length name) name blank

-- Its second request: the flags that were read, with IFF_UP.
unfoldable pub up_request : Bool → List ℕ → Run (List ℕ)
unfolding index copy_at
up_request little ifr = do
  x ← index ifr 16
  y ← index ifr 17
  copy_at 16 (short_to_ne little (or_bit 0 (short_from_ne little x y))) ifr

-- `ifr[..16].split(|&b| b == 0).next()`
abbrev pub until_nul : List ℕ → List ℕ
until_nul [] = []
until_nul (b ∷ bytes) = if b == 0 then [] else b ∷ until_nul bytes
