-- ===== src/Tun/Raised.antt =====
-- What creating the device and setting it up leave behind.
use netmux.Prelude.{
  ℕ, ◌≤◌, ◌≡◌, refl, ◌∙◌, List, ◌∷◌, length, take, overwrite, length-overwrite, All-take, IsByte,
  IsBytes, ◌/◌, ◌%◌, ◌≢◌, get_or, Run, done, panic, Ensures, arith, Bool-cases, inl, inr, Bool,
}
use netmux.Prelude.Buffers.{All-overwrite, All-replicate}
use netmux.Text.{Text}
use netmux.Error.{Result, ok, err}
use netmux.System.{
  Answer, fails, answers, datagram, Kernel, Process, Sys, resume, acquired, acquire, cstring,
  has_nul, close,
}
use netmux.System.Descriptors.{Keeps, Answered, Keeps-asked, Keeps-resume, fds-close}
use netmux.Tun.Request.{blank}
use netmux.Tun.Bounds.{up_request-flags, flags_of, name_request_fits}
use netmux.Tun.{siocgifflags, siocsifflags, closing, raise, set_up, socket_context}

abbrev pub written_over : List ℕ → List ℕ → List ℕ
written_over written ifr = overwrite 0 (take 40 written) ifr

length-read : (written name : List ℕ) → length (written_over written (overwrite 0 name blank)) ≡ 40
length-read written name =
    length-overwrite 0 (take 40 written) (overwrite 0 name blank) ∙ length-overwrite 0 name blank

IsBytes-written :
    (read name : List ℕ)
    → IsBytes read
    → IsBytes name
    → IsBytes (written_over read (overwrite 0 name blank))
IsBytes-written read name h k =
    All-overwrite IsByte 0 (take 40 read) _ (All-take IsByte 40 read h)
      (All-overwrite IsByte 0 name blank k (All-replicate IsByte 40 0 (omega arith)))

Keeps-closing :
    {A : Type 0} (kernel : Kernel) (fd : ℕ) (fds : List ℕ) (R : Type 0) (m : Sys A) (p : Process)
    → Ensures (Keeps (fd ∷ fds) (λ a q. (q.fds ≡ fd ∷ fds) × R)) (m p)
    → Ensures (Keeps fds (λ a q. (q.fds ≡ fds) × R)) (closing kernel fd m p)
unfolding closing
Keeps-closing {A = A} kernel fd fds R m p k = closes (m p) k
  where
    closes :
        (r : Run (Result A × Process))
        → Ensures (Keeps (fd ∷ fds) (λ a q. (q.fds ≡ fd ∷ fds) × R)) r
        → Ensures
            (Keeps fds (λ a q. (q.fds ≡ fds) × R))
            (elim r [ panic ↦ panic | done (r, q) ↦ done (r, close kernel fd q) ])
    closes panic kept = kept
    closes (done (ok a, q)) (kept, r) = (fds-close kernel fd q fds kept, r)
    closes (done (err e, q)) kept = fds-close kernel fd q fds kept

-- A request in which the flags are those of the buffer that was read with the bit IFF_UP, every
-- other bit and every other byte being as there.
abbrev pub IsRaised : Bool → List ℕ → List ℕ → Type 0
IsRaised little read sent =
    (flags_of little sent % 2 ≡ 1)
    × (flags_of little sent / 2 ≡ flags_of little read / 2)
    × ((i : ℕ) → i ≢ 16 → i ≢ 17 → get_or sent i 0 ≡ get_or read i 0)

-- The kernel accepted a request that raises the interface, for the buffer that it had answered with.
abbrev pub Raised : Kernel → Text → Type 0
Raised kernel name =
    (fd : ℕ) × (read : List ℕ) × (sent : List ℕ) × (after : List ℕ) × (kernel.ioctl fd siocgifflags
        (overwrite 0 name blank)
      ≡ answers read)
    × (kernel.ioctl fd siocsifflags sent ≡ answers after)
    × IsRaised kernel.little_endian (written_over read (overwrite 0 name blank)) sent

abbrev pub SetUp : Kernel → Text → List ℕ → Unit {0} → Process → Type 0
SetUp kernel name before u q = (q.fds ≡ before) × Raised kernel name

module _ (kernel : Kernel) (name : Text) (fits : length name ≤ 40) (bytes : IsBytes name)
    (replies : (fd : ℕ) (ifr read : List ℕ)
      → kernel.ioctl fd siocgifflags ifr ≡ answers read
      → IsBytes read) where
  SetUp-raise :
      (fd : ℕ) (p : Process)
      → Ensures (Keeps p.fds (SetUp kernel name p.fds)) (raise kernel fd name p)
  unfolding raise
  SetUp-raise fd p = rw (name_request_fits name fits) (
      Keeps-resume p.fds (Answered p.fds (kernel.ioctl fd siocgifflags (overwrite 0 name blank))) _
        _ _ (Keeps-asked p.fds _ _ p refl)
        (λ read q (kept, got).
          let buf = written_over read (overwrite 0 name blank) in
          let (sent, run, len, on, rest, others) =
            up_request-flags kernel.little_endian buf (omega (arith, length-read read name))
              (IsBytes-written read name (replies fd _ read got) bytes) in
          rw run (
            Keeps-resume p.fds (Answered p.fds (kernel.ioctl fd siocsifflags sent)) _ _ _
              (Keeps-asked p.fds _ _ q kept)
              (λ after q (kept, took).
                (kept, (fd, read, sent, after, got, took, (on, rest, others)))))))

  -- Setting a device up by a name of at most 40 bytes returns and leaves the descriptors as they
  -- were, whatever the kernel answers: its socket is closed on every path. On success the kernel
  -- accepted a request that is the buffer of bytes it had answered for the name with the bit IFF_UP
  -- of the flags set, and nothing else changed.
  pub set_up-SetUp :
      (p : Process) → Ensures (Keeps p.fds (SetUp kernel name p.fds)) (set_up kernel name p)
  unfolding set_up cstring acquire
  set_up-SetUp p = elim (Bool-cases (has_nul name)) [
    | inl nul ↦ rw nul refl
    | inr plain ↦ rw plain (made (kernel.socket p.fds datagram))
  ]
    where
      made :
          (a : Answer ℕ)
          → Ensures (Keeps p.fds (SetUp kernel name p.fds)) (
              resume (acquired socket_context a p) (λ fd. closing kernel fd (raise kernel fd name)))
      made (fails e) = refl
      made (answers fd) =
          Keeps-closing kernel fd p.fds (Raised kernel name) (raise kernel fd name)
            (record p { fds = fd ∷ p.fds }) (SetUp-raise fd (record p { fds = fd ∷ p.fds }))
