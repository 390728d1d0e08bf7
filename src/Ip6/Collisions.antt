-- ===== src/Ip6/Collisions.antt =====
-- Different addresses with one text.
use netmux.Prelude.{
  ℕ, zero, suc, ◌/◌, ◌%◌, ◌≡◌, ◌≢◌, refl, ap, sym, ◌∙◌, List, [], ◌∷◌, ◌++◌, true, false, ltb, ◌==◌,
  length, get_or, length-append, lt→ltb, arith,
}
use netmux.Text.{Text, digit, digits, hexadecimal, ends_with}
use netmux.Ip6.{
  Runs, no_runs, usize_max, or_unspecified, colon, separated, scan_words, scan_word, render_words,
  render_word, ip6_words,
}

digit-ne-colon : (d : ℕ) → (digit d == 58) ≡ false
unfolding digit
digit-ne-colon d = ground arith

ends_with-append :
    (s : Text) (d e c : ℕ) (t : Text) → ends_with (s ++ d ∷ t) c ≡ ends_with (d ∷ t) c
unfolding ends_with
ends_with-append [] d e c t = refl
ends_with-append (x ∷ []) d e c t = refl
ends_with-append (x ∷ y ∷ s) d e c t = ends_with-append (y ∷ s) d e c t

-- Digits before a text that is not empty leave its end.
ends_with-digits :
    (fuel n d c : ℕ) (t : Text) → ends_with (digits 16 fuel n (d ∷ t)) c ≡ ends_with (d ∷ t) c
unfolding digits ends_with
ends_with-digits zero n d c t = refl
ends_with-digits (suc fuel) n d c t =
    ground (arith, ends_with-digits fuel (n / 16) (digit (n % 16)) c (d ∷ t))

length-digits : (fuel n d : ℕ) (t : Text) → ltb 0 (length (digits 16 fuel n (d ∷ t))) ≡ true
unfolding digits
length-digits zero n d t = ground arith
length-digits (suc fuel) n d t =
    ground (arith, length-digits fuel (n / 16) (digit (n % 16)) (d ∷ t))

ends_with-hexadecimal : (n : ℕ) → ends_with (hexadecimal n) 58 ≡ false
unfolding hexadecimal digits ends_with
ends_with-hexadecimal n = ground (
  arith,
  ends_with-digits n (n / 16) (digit (n % 16)) 58 [],
  digit-ne-colon n,
  digit-ne-colon (n % 16),
)

length-hexadecimal : (n : ℕ) → ltb 0 (length (hexadecimal n)) ≡ true
unfolding hexadecimal digits
length-hexadecimal n = ground (arith, length-digits n (n / 16) (digit (n % 16)) [])

separated-colon : (s : Text) → separated (s ++ colon ∷ []) ≡ s ++ colon ∷ []
unfolding ends_with
separated-colon s =
    let e : ends_with (s ++ colon ∷ []) colon ≡ true = ends_with-append s colon colon colon [] in
    rw e (ground arith)

separated_word :
    (s t : Text)
    → ltb 0 (length t) ≡ true
    → ends_with t colon ≡ false
    → separated (s ++ t) ≡ (s ++ t) ++ colon ∷ []
separated_word s [] h e = absurd (cc)
separated_word s (d ∷ t) h e =
    let f : ends_with (s ++ d ∷ t) colon ≡ false = ends_with-append s d colon colon t ∙ e in
    let n : ltb 0 (length (s ++ d ∷ t)) ≡ true =
      lt→ltb _ _ (omega (arith, length-append s (d ∷ t))) in
    rw (f, n) refl

separated-hexadecimal :
    (s : Text) (n : ℕ) → separated (s ++ hexadecimal n) ≡ (s ++ hexadecimal n) ++ colon ∷ []
separated-hexadecimal s n =
    separated_word s (hexadecimal n) (length-hexadecimal n) (ends_with-hexadecimal n)

scan_word_nonzero :
    (i w : ℕ) (r : Runs) → w ≢ 0 → scan_word i w r ≡ record r { cur_start = usize_max; cur_len = 0 }
unfolding scan_word
scan_word_nonzero i w r h = let e : (w == 0) ≡ false = ground arith in rw e refl

-- A run of five zero words from an index.
run_at : ℕ → Runs
run_at i = record { best_start = i; best_len = 5; cur_start = usize_max; cur_len = 0 }

scan_late :
    (a b c : ℕ)
    → a ≢ 0
    → b ≢ 0
    → c ≢ 0
    → scan_words 0 (a ∷ b ∷ 0 ∷ 0 ∷ 0 ∷ 0 ∷ 0 ∷ c ∷ []) no_runs ≡ run_at 2
unfolding scan_words run_at
scan_late a b c na nb nc =
    rw (scan_word_nonzero 0 a no_runs na, scan_word_nonzero 1 b no_runs nb)
      (scan_word_nonzero 7 c _ nc ∙ (unfold scan_word in refl))

scan_early :
    (a b c : ℕ)
    → a ≢ 0
    → b ≢ 0
    → c ≢ 0
    → scan_words 0 (a ∷ 0 ∷ 0 ∷ 0 ∷ 0 ∷ 0 ∷ b ∷ c ∷ []) no_runs ≡ run_at 1
unfolding scan_words run_at
scan_early a b c na nb nc = rw (scan_word_nonzero 0 a no_runs na) (
    scan_word_nonzero 7 c _ nc
    ∙ ap {A = Runs} {B = Runs} (λ r. record r { cur_start = usize_max; cur_len = 0 })
        (scan_word_nonzero 6 b _ nb)
    ∙ (unfold scan_word in refl))

-- What both addresses are written as.
written : ℕ → ℕ → ℕ → Text
written a b c = (((hexadecimal a ++ colon ∷ []) ++ hexadecimal b) ++ colon ∷ []) ++ hexadecimal c

render_late :
    (a b c : ℕ) → render_words true 2 5 0 (a ∷ b ∷ 0 ∷ 0 ∷ 0 ∷ 0 ∷ 0 ∷ c ∷ []) [] ≡ written a b c
unfolding render_words render_word written
render_late a b c =
    ap (λ (s : Text). separated ((s ++ hexadecimal b) ++ colon ∷ []) ++ hexadecimal c)
      (separated-hexadecimal [] a)
    ∙ ap (λ (s : Text). s ++ hexadecimal c)
        (separated-colon ((hexadecimal a ++ colon ∷ []) ++ hexadecimal b))

render_early :
    (a b c : ℕ) → render_words true 1 5 0 (a ∷ 0 ∷ 0 ∷ 0 ∷ 0 ∷ 0 ∷ b ∷ c ∷ []) [] ≡ written a b c
unfolding render_words render_word written
render_early a b c =
    ap (λ (s : Text). separated (s ++ hexadecimal b) ++ hexadecimal c)
      (separated-colon (hexadecimal a))
    ∙ ap (λ (s : Text). s ++ hexadecimal c) (separated-hexadecimal (hexadecimal a ++ colon ∷ []) b)

-- The addresses a:b::c and a::b:c, with words other than zero, are different and share one text.
pub ip6_words_collide :
    (a b c : ℕ)
    → a ≢ 0
    → b ≢ 0
    → c ≢ 0
    → (a ∷ b ∷ 0 ∷ 0 ∷ 0 ∷ 0 ∷ 0 ∷ c ∷ [] ≢ a ∷ 0 ∷ 0 ∷ 0 ∷ 0 ∷ 0 ∷ b ∷ c ∷ [])
      × (ip6_words (a ∷ b ∷ 0 ∷ 0 ∷ 0 ∷ 0 ∷ 0 ∷ c ∷ [])
          ≡ ip6_words (a ∷ 0 ∷ 0 ∷ 0 ∷ 0 ∷ 0 ∷ b ∷ c ∷ []))
unfolding ip6_words run_at
ip6_words_collide a b c na nb nc = (
  (λ e. nb (ap (λ (l : List ℕ). get_or l 1 0) e)),
  rw (scan_late a b c na nb nc, scan_early a b c na nb nc)
      (ap or_unspecified (render_late a b c ∙ sym (render_early a b c))),
)
