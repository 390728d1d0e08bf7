-- ===== src/Tun/Created.antt =====
-- What creating the device and setting it up leave behind.
use netmux.Prelude.{
  ℕ, zero, suc, ◌≤◌, ◌==◌, ◌≡◌, refl, ap, ◌∙◌, ◌↔◌, List, [], ◌∷◌, ◌++◌, true, false, leb, length,
  take, drop, replicate, overwrite, length-overwrite, set, All, Run, done, panic, Ensures, Returns,
  slice_to_in_range, arith, Bool-cases, inl, inr, leb→le, Bool, take-set_above, take_of_length-le,
}
use netmux.Prelude.Buffers.{overwrite_zero, take-append_short}
use netmux.Text.{Text}
use netmux.Text.Utf8.{from_utf8_lossy, from_utf8_lossy-ascii, IsAscii}
use netmux.Error.{ok}
use netmux.System.{Answer, fails, answers, Kernel, Process, cstring, has_nul}
use netmux.System.Descriptors.{Keeps, Acquired, Keeps-resume, Keeps-cstring, fds-close}
use netmux.Tun.Request.{blank, short_to_ne, tun_flags, until_nul}
use netmux.Tun.Bounds.{named_request, tun_request_fits, tun_request_long}
use netmux.Tun.{Tun, tunsetiff, device_opened, open_device, set_iff, create}

Ensures-Returns : {A : Type 0} (P : A → Type 0) (m : Run A) → Ensures P m → Returns m
Ensures-Returns P (done a) h = tt
Ensures-Returns P panic h = h

Keeps-open_device :
    (answer : List ℕ → Answer ℕ) (p : Process)
    → Ensures (Keeps p.fds (Acquired p (answer p.fds))) (open_device answer p)
unfolding open_device
Keeps-open_device answer p = by_answer (answer p.fds)
  where
    by_answer : (a : Answer ℕ) → Ensures (Keeps p.fds (Acquired p a)) (device_opened a p)
    by_answer (fails e) = refl
    by_answer (answers fd) = (refl, refl)

-- The buffer that the kernel leaves.
abbrev pub written_over : List ℕ → List ℕ → List ℕ
written_over written ifr = overwrite 0 (take 40 written) ifr

-- After the request the device is open and the buffer is what the kernel left.
abbrev Written : List ℕ → ℕ → List ℕ → Answer (List ℕ) → List ℕ → Process → Type 0
Written before fd ifr a after q =
    (q.fds ≡ fd ∷ before)
    × (length after ≡ length ifr)
    × ((w : List ℕ) × (a ≡ answers w) × (after ≡ written_over w ifr))

Keeps-set_iff :
    (before : List ℕ) (kernel : Kernel) (fd : ℕ) (name : Text) (ifr : List ℕ) (a : Answer (List ℕ))
    (p : Process)
    → p.fds ≡ fd ∷ before
    → Ensures (Keeps before (Written before fd ifr a)) (set_iff kernel fd name ifr a p)
unfolding set_iff
Keeps-set_iff before kernel fd name ifr (answers w) p h =
    (h, length-overwrite 0 (take 40 w) ifr, (w, refl, refl))
Keeps-set_iff before kernel fd name ifr (fails e) p h =
    fds-close kernel fd (record p { errno = e }) before h

-- The device is the file that the kernel opened; its name is the text before the first NUL byte of
-- the field that the kernel left in the request.
pub record IsCreated (kernel : Kernel) (name : Text) (before : Process) (tun : Tun)
    (after : Process) : Type 0 where
  pub written : List ℕ
  pub opened : kernel.open_tun before.fds ≡ answers tun.file
  pub accepted :
      kernel.ioctl tun.file tunsetiff (named_request kernel.little_endian name) ≡ answers written
  pub named :
      tun.name
      ≡ from_utf8_lossy
          (until_nul (take 16 (written_over written (named_request kernel.little_endian name))))
  pub held : after.fds ≡ tun.file ∷ before.fds

length-named_request : (little : Bool) (name : Text) → length (named_request little name) ≡ 40
length-named_request little name =
    length-overwrite 16 (short_to_ne little tun_flags) (overwrite 0 name blank)
    ∙ length-overwrite 0 name blank

module _ (kernel : Kernel) (name : Text) (p : Process) (plain : has_nul name ≡ false) where
  -- Creating a device for a name of at most 16 bytes without a NUL byte returns. On success
  -- one descriptor more is open, the device's; on every error no descriptor more is open.
  pub create-Keeps :
      length name ≤ 16 → Ensures (Keeps p.fds (IsCreated kernel name p)) (create kernel name p)
  unfolding create
  create-Keeps h =
      Keeps-resume p.fds (λ u q. q ≡ p) _ _ _ (Keeps-cstring p.fds _ _ name p plain refl)
        (λ u q same. rw same (
          Keeps-resume p.fds (Acquired p (kernel.open_tun p.fds)) _ _ _
            (Keeps-open_device kernel.open_tun p)
            (λ fd q (opened, top). rw (tun_request_fits kernel.little_endian name h) (
              Keeps-resume p.fds
                (Written p.fds fd (named_request kernel.little_endian name)
                  (kernel.ioctl fd tunsetiff (named_request kernel.little_endian name)))
                _ _ _
                (Keeps-set_iff p.fds kernel fd name (named_request kernel.little_endian name) _ q
                  top)
                (λ ifr q (top, len, (w, took, left)).
                  rw
                    (slice_to_in_range ifr 16
                      (omega (arith, length-named_request kernel.little_endian name)))
                    (record {
                      written = w;
                      opened = opened;
                      accepted = took;
                      named = ap (λ (l : List ℕ). from_utf8_lossy (until_nul (take 16 l))) left;
                      held = top;
                    }))))))

  -- When the device can be opened, creating one for a name without a NUL byte returns exactly if
  -- the name has at most 16 bytes: a longer one panics.
  pub create-Returns :
      (fd : ℕ)
      → kernel.open_tun p.fds ≡ answers fd
      → Returns (create kernel name p) ↔ (length name ≤ 16)
  create-Returns fd opened = (
    λ ret. elim (Bool-cases (leb (length name) 16)) [
      | inl fits ↦ leb→le (length name) 16 fits
      | inr long ↦
          let gone : create kernel name p ≡ panic =
            unfold create cstring open_device in
            rw (plain, opened, tun_request_long kernel.little_endian name (ground arith)) refl in
          absurd (rw gone at ret)
    ],
    λ fits. Ensures-Returns _ (create kernel name p) (create-Keeps fits),
  )

-- The field up to the first NUL byte, when it holds a name without one.
until_nul-padded :
    (k m : ℕ) (name : Text)
    → has_nul name ≡ false
    → length name ≤ k
    → length name ≤ m
    → until_nul (take k (name ++ drop (length name) (replicate m 0))) ≡ name
unfolding has_nul
until_nul-padded zero m [] plain h b = refl
until_nul-padded (suc k) zero [] plain h b = refl
until_nul-padded (suc k) (suc m) [] plain h b = refl
until_nul-padded zero m (c ∷ s) plain h b = absurd (omega arith)
until_nul-padded (suc k) zero (c ∷ s) plain h b = absurd (omega arith)
until_nul-padded (suc k) (suc m) (c ∷ s) plain h b = elim (Bool-cases (c == 0)) [
  | inl z ↦ absurd (grind arith)
  | inr nz ↦ rw nz (ap (◌∷◌ c) (until_nul-padded k m s (grind arith) (omega arith) (omega arith)))
]

take-named_request :
    (little : Bool) (name : Text)
    → length name ≤ 40
    → take 16 (named_request little name) ≡ take 16 (name ++ drop (length name) blank)
take-named_request true name h =
    take-set_above 16 (set (overwrite 0 name blank) 16 1) 17 16 (omega arith)
    ∙ take-set_above 16 (overwrite 0 name blank) 16 1 (omega arith)
    ∙ ap (take 16) (overwrite_zero name blank h)
take-named_request false name h =
    take-set_above 16 (set (overwrite 0 name blank) 16 16) 17 1 (omega arith)
    ∙ take-set_above 16 (overwrite 0 name blank) 16 16 (omega arith)
    ∙ ap (take 16) (overwrite_zero name blank h)

-- A device that the kernel creates under the name that was asked for, so that it leaves the name
-- field of the request as it is, is called by that name, if the name is ASCII of at most 16 bytes
-- without a NUL byte.
pub create_name :
    (kernel : Kernel) (name : Text) (p : Process) (fd : ℕ) (written : List ℕ)
    → has_nul name ≡ false
    → length name ≤ 16
    → All IsAscii name
    → kernel.open_tun p.fds ≡ answers fd
    → kernel.ioctl fd tunsetiff (named_request kernel.little_endian name) ≡ answers written
    → length written ≡ 40
    → take 16 written ≡ take 16 (named_request kernel.little_endian name)
    → create kernel name p
      ≡ done (ok (record { file = fd; name = name }), record p { fds = fd ∷ p.fds })
unfolding create cstring open_device set_iff
create_name kernel name p fd written plain fits ascii opened took len kept =
    let request = named_request kernel.little_endian name in
    let field : take 16 (written_over written request)
        ≡ take 16 (name ++ drop (length name) blank) =
      ap (take 16) (
        ap (λ (w : List ℕ). overwrite 0 w request) (take_of_length-le 40 written (omega arith))
        ∙ overwrite_zero written request
            (omega (arith, length-named_request kernel.little_endian name)))
      ∙ take-append_short 16 written (drop (length written) request) (omega arith)
      ∙ kept
      ∙ take-named_request kernel.little_endian name (omega arith) in
    let back : until_nul (take 16 (written_over written request)) ≡ name =
      ap until_nul field ∙ until_nul-padded 16 40 name plain fits (omega arith) in
    rw
      (
        plain,
        opened,
        tun_request_fits kernel.little_endian name fits,
        took,
        slice_to_in_range (written_over written request) 16 (
            omega (
              arith,
              length-overwrite 0 (take 40 written) request,
              length-named_request kernel.little_endian name,
            )),
        back,
        from_utf8_lossy-ascii name ascii,
      )
      refl
