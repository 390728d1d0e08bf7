-- ===== src/Tun/Bounds.antt =====
-- Which names fit a request, and what the requests hold.
use netmux.Prelude.{
  ℕ, ◌/◌, ◌%◌, ◌^◌, ◌≤◌, ◌<◌, ◌==◌, min, ◌≡◌, ◌≢◌, refl, sym, ==_iff, leb→le, take_of_length-le, ap,
  ◌∙◌, List, Bool, true, false, leb, length, take, set, get_or, overwrite, length-overwrite,
  length-set, length-take, done, panic, slice_to, slice_to_in_range, copy_at_in_range, index-get_or,
  arith, get_or-set_self, get_or-set_ne, IsByte, IsBytes, All-get_or, Bool-cases, inl, inr,
}
use netmux.Text.{Text}
use netmux.Tun.Request.{
  blank, short_to_ne, short_from_ne, or_bit, tun_flags, copy_prefix, tun_request, name_request,
  up_request,
}

-- The request of `create` for a name that fits.
abbrev pub named_request : Bool → Text → List ℕ
named_request little name = overwrite 16 (short_to_ne little tun_flags) (overwrite 0 name blank)

length-short_to_ne : (little : Bool) (w : ℕ) → length (short_to_ne little w) ≡ 2
length-short_to_ne true w = refl
length-short_to_ne false w = refl

module _ (n : ℕ) (src dst : List ℕ) where
  pub copy_prefix_equal :
      n ≤ length dst → n ≡ length src → copy_prefix n src dst ≡ done (overwrite 0 src dst)
  unfolding copy_prefix
  copy_prefix_equal h e =
      let same : (length (take n dst) == length src) ≡ true =
        (==_iff (length (take n dst)) (length src)).1 (length-take n dst ∙ omega arith) in
      rw (slice_to_in_range dst n h, same) refl

  -- Lengths that differ panic.
  copy_prefix_unequal : n ≢ length src → copy_prefix n src dst ≡ panic
  unfolding copy_prefix slice_to
  copy_prefix_unequal ne = elim (Bool-cases (leb n (length dst))) [
    | inr out ↦ rw out refl
    | inl fits ↦
        let part : length (take n dst) ≡ n =
          length-take n dst ∙ omega (arith, leb→le n (length dst) fits) in
        rw fits (ground (arith, part, ne))
  ]

pub tun_request_fits :
    (little : Bool) (name : Text)
    → length name ≤ 16
    → tun_request little name ≡ done (named_request little name)
unfolding tun_request
tun_request_fits little name h =
    let all : take (min 16 (length name)) name ≡ name =
      take_of_length-le (min 16 (length name)) name (omega arith) in
    rw
      (
        slice_to_in_range name (min 16 (length name)) (omega arith),
        all,
        copy_prefix_equal (length name) name blank (omega arith) refl,
      )
      (copy_at_in_range 16 (short_to_ne little tun_flags) (overwrite 0 name blank)
        (omega (arith, length-overwrite 0 name blank, length-short_to_ne little tun_flags)))

-- A longer name panics: the two lengths of the copy differ.
pub tun_request_long :
    (little : Bool) (name : Text) → 16 < length name → tun_request little name ≡ panic
unfolding tun_request
tun_request_long little name h =
    let short : length (take (min 16 (length name)) name) ≡ 16 =
      length-take (min 16 (length name)) name ∙ omega arith in
    rw
      (
        slice_to_in_range name (min 16 (length name)) (omega arith),
        copy_prefix_unequal (length name) (take (min 16 (length name)) name) blank (omega arith),
      )
      refl

-- The request of `set_up` for a name that fits the buffer.
pub name_request_fits :
    (name : Text) → length name ≤ 40 → name_request name ≡ done (overwrite 0 name blank)
unfolding name_request
name_request_fits name h = copy_prefix_equal (length name) name blank h refl

-- The flags of a request.
abbrev pub flags_of : Bool → List ℕ → ℕ
flags_of little ifr = short_from_ne little (get_or ifr 16 0) (get_or ifr 17 0)

abbrev pub raised : Bool → List ℕ → List ℕ
raised little ifr = overwrite 16 (short_to_ne little (or_bit 0 (flags_of little ifr))) ifr

pub up_request_fits :
    (little : Bool) (ifr : List ℕ)
    → 18 ≤ length ifr
    → up_request little ifr ≡ done (raised little ifr)
unfolding up_request
up_request_fits little ifr len =
    rw (index-get_or ifr 16 0 (omega arith), index-get_or ifr 17 0 (omega arith))
      (copy_at_in_range 16 (short_to_ne little (or_bit 0 (flags_of little ifr))) ifr
        (omega (arith, length-short_to_ne little (or_bit 0 (flags_of little ifr)))))

flags-overwrite :
    (little : Bool) (w : ℕ) (ifr : List ℕ)
    → 18 ≤ length ifr
    → w < 2 ^ 16
    → flags_of little (overwrite 16 (short_to_ne little w) ifr) ≡ w
flags-overwrite true w ifr len small =
    rw
      (
        get_or-set_ne (set ifr 16 (w % 256)) 17 16 (w / 256 % 256) 0 (omega arith),
        get_or-set_self ifr 16 (w % 256) 0 (omega arith),
        get_or-set_self (set ifr 16 (w % 256)) 17 (w / 256 % 256) 0
            (omega (arith, length-set ifr 16 (w % 256))),
      )
      (omega arith)
flags-overwrite false w ifr len small =
    rw
      (
        get_or-set_ne (set ifr 16 (w / 256 % 256)) 17 16 (w % 256) 0 (omega arith),
        get_or-set_self ifr 16 (w / 256 % 256) 0 (omega arith),
        get_or-set_self (set ifr 16 (w / 256 % 256)) 17 (w % 256) 0
            (omega (arith, length-set ifr 16 (w / 256 % 256))),
      )
      (omega arith)

or_bit-zero :
    (w : ℕ) → w < 2 ^ 16 → (or_bit 0 w < 2 ^ 16) × (or_bit 0 w % 2 ≡ 1) × (or_bit 0 w / 2 ≡ w / 2)
or_bit-zero w h = ground arith

flags_of-lt : (little : Bool) (ifr : List ℕ) → IsBytes ifr → flags_of little ifr < 2 ^ 16
flags_of-lt true ifr h =
    let x = All-get_or IsByte ifr 16 0 (omega arith) h in
    let y = All-get_or IsByte ifr 17 0 (omega arith) h in omega arith
flags_of-lt false ifr h =
    let x = All-get_or IsByte ifr 16 0 (omega arith) h in
    let y = All-get_or IsByte ifr 17 0 (omega arith) h in omega arith

get_or-overwrite_pair :
    (little : Bool) (w : ℕ) (ifr : List ℕ) (i : ℕ)
    → i ≢ 16
    → i ≢ 17
    → get_or (overwrite 16 (short_to_ne little w) ifr) i 0 ≡ get_or ifr i 0
get_or-overwrite_pair true w ifr i a b =
    get_or-set_ne (set ifr 16 (w % 256)) 17 i (w / 256 % 256) 0 (λ e. b (sym e))
    ∙ get_or-set_ne ifr 16 i (w % 256) 0 (λ e. a (sym e))
get_or-overwrite_pair false w ifr i a b =
    get_or-set_ne (set ifr 16 (w / 256 % 256)) 17 i (w % 256) 0 (λ e. b (sym e))
    ∙ get_or-set_ne ifr 16 i (w / 256 % 256) 0 (λ e. a (sym e))

-- The second request of `set_up` is the buffer that was read, in which the flags have the bit
-- IFF_UP and every other bit as before, and every other byte is as before.
pub up_request-flags :
    (little : Bool) (ifr : List ℕ)
    → 18 ≤ length ifr
    → IsBytes ifr
    → (out : List ℕ) × (up_request little ifr ≡ done out)
      × (length out ≡ length ifr)
      × (flags_of little out % 2 ≡ 1)
      × (flags_of little out / 2 ≡ flags_of little ifr / 2)
      × ((i : ℕ) → i ≢ 16 → i ≢ 17 → get_or out i 0 ≡ get_or ifr i 0)
up_request-flags little ifr len bytes =
    let w = flags_of little ifr in
    let (small, on, rest) = or_bit-zero w (flags_of-lt little ifr bytes) in
    let set_to = flags-overwrite little (or_bit 0 w) ifr len small in
    (
      raised little ifr,
      up_request_fits little ifr len,
      length-overwrite 16 (short_to_ne little (or_bit 0 w)) ifr,
      ap (λ (v : ℕ). v % 2) set_to ∙ on,
      ap (λ (v : ℕ). v / 2) set_to ∙ rest,
      get_or-overwrite_pair little (or_bit 0 w) ifr,
    )
