-- ===== src/Stats/Format.antt =====
-- `fmt_bytes` and `fmt_bps` of crates/netmux-core/src/stats.rs.
use netmux.Prelude.{
  ℕ, zero, suc, ◌+◌, ◌≤◌, ◌<◌, ◌≡◌, refl, List, [], ◌∷◌, ◌++◌, Bool, if◌then◌else◌, Option, none,
  some, arith, Bool-cases, inl, inr, Run, done, ◌>>=◌, index, index-get_or, get_or, Ensures,
}
use netmux.Text.{Text, text}
use netmux.Float.{Float}

abbrev pub units : List Text
units = text "B" ∷ text "KB" ∷ text "MB" ∷ text "GB" ∷ text "TB" ∷ []

module _ {F : Type 0} ⦃fl : Float F⦄ (at_least : F → F → Bool) (one_digit : F → Text) where
  -- The loop, with as many rounds as there are units after the first: `at_least` is `>=`.
  unfoldable pub scale_units : ℕ → ℕ → F → ℕ × F
  scale_units zero idx val = (idx, val)
  scale_units (suc rest) idx val =
      let next = scale_units rest (suc idx) (fl.div val (fl.of_u64 1024)) in
      if at_least val (fl.of_u64 1024) then next else (idx, val)

  abbrev pub scaled : F → Option F → F
  scaled bytes none = bytes
  scaled bytes (some s) = fl.div bytes s

  -- `one_digit` is the format `{:.1}`.
  unfoldable pub fmt_bytes : F → Option F → Run Text
  unfolding scale_units index
  fmt_bytes bytes scale = do
    let (idx, val) = scale_units 4 0 (scaled bytes scale)
    unit ← index units idx
    done (one_digit val ++ unit)

  unfoldable pub fmt_bps : F → Run Text
  unfolding fmt_bytes
  fmt_bps bps = do shown ← fmt_bytes bps (some (fl.of_u64 1)); done (shown ++ text "/s")

  scale_units-bound : (rest idx : ℕ) (val : F) → (scale_units rest idx val).0 ≤ idx + rest
  unfolding scale_units
  scale_units-bound zero idx val = omega arith
  scale_units-bound (suc rest) idx val = elim (Bool-cases (at_least val (fl.of_u64 1024))) [
    | inl big ↦
        rw big (omega (arith, scale_units-bound rest (suc idx) (fl.div val (fl.of_u64 1024))))
    | inr small ↦ rw small (omega arith)
  ]

  -- A number with a unit of the table.
  abbrev pub IsAmount : Text → Type 0
  IsAmount s = (val : F) × (i : ℕ) × (i < 5) × (s ≡ one_digit val ++ get_or units i [])

  -- Whatever the amount, not a number included, its format returns: the loop stops at the last
  -- unit, and the text is a number with one of the five units.
  pub fmt_bytes-IsAmount : (bytes : F) (scale : Option F) → Ensures IsAmount (fmt_bytes bytes scale)
  unfolding fmt_bytes
  fmt_bytes-IsAmount bytes scale =
      let v = scaled bytes scale in
      let bound = scale_units-bound 4 0 v in
      rw (index-get_or units (scale_units 4 0 v).0 [] (omega arith))
        ((scale_units 4 0 v).1, (scale_units 4 0 v).0, omega arith, refl)
