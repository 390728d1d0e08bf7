-- ===== src/DataPlane/Rounds.antt =====
-- A round of `egress_loop` and of `capture_loop` with the system calls that it starts with: what
-- was read or received stands at the start of a buffer of `MAX_PACKET` bytes.
use netmux.Prelude.{
  ℕ, ltb→lt, ◌≤◌, ◌≡◌, refl, ap, ◌∙◌, List, [], ◌∷◌, ◌++◌, Bool, true, false, ltb, Option, none,
  length, length-take, length-drop, take, drop, take-append-drop, overwrite, Run, done, ◌>>=◌,
  slice_to, slice_to_in_range, arith, Bool-cases, inl, inr,
}
use netmux.Prelude.Buffers.{slice_to-overwrite, drop_all}
use netmux.Prelude.HashMap.{HashMap}
use netmux.Text.{Text}
use netmux.Float.{Float}
use netmux.Ipv4.{Ipv4Addr}
use netmux.System.{Answer, fails, answers}
use netmux.Egress.{RawEgress, sin_addr}
use netmux.Egress.Receive.{recv, recv_frame}
use netmux.DataPlane.{DataPlane, Sent, egress_step, capture_step}

abbrev pub is_ok : {A : Type 0} → Answer A → Bool
is_ok (fails e) = false
is_ok (answers a) = true

-- Whether `sock.send` succeeds, by what `sendto` answers.
abbrev pub sends : Bool → (ℕ → List ℕ → List ℕ → Answer ℕ) → Sent → Bool
sends little sendto sent = is_ok (sendto sent.sock.fd sent.packet (sin_addr little sent.dst))

module _ {F : Type 0} where
  abbrev pub received :
      (List ℕ → Bool) → DataPlane F → Answer ℕ × List ℕ → Run (Option (List ℕ) × DataPlane F)
  received accepted dp (fails e, buf) = done (none, dp)
  received accepted dp (answers n, buf) = do
    packet ← slice_to buf n
    capture_step accepted packet dp

  -- A round of `capture_loop`, when `recv` answers `frame`. The test of the first byte is the one
  -- of `capture_step`, since the packet has 20 bytes when it is made.
  unfoldable pub capture_round :
      (List ℕ → Bool) → Answer (List ℕ) → List ℕ → DataPlane F → Run (Option (List ℕ) × DataPlane F)
  unfolding recv slice_to capture_step
  capture_round accepted frame buf dp = do r ← recv frame buf; received accepted dp r

  -- A round of the capture loop on a frame that fits its buffer is the step on the frame without its
  -- first 14 bytes, whatever the buffer held.
  pub capture_round-capture_step :
      (accepted : List ℕ → Bool) (frame buf : List ℕ) (dp : DataPlane F)
      → length frame ≤ length buf
      → capture_round accepted (answers frame) buf dp ≡ capture_step accepted (drop 14 frame) dp
  capture_round-capture_step accepted frame buf dp fits =
      elim (Bool-cases (ltb 14 (length frame))) [
        | inl long ↦
            let head : length (take 14 frame) ≡ 14 =
              length-take 14 frame ∙ omega (arith, ltb→lt 14 (length frame) long) in
            let whole : take 14 frame ++ drop 14 frame ≡ frame = take-append-drop 14 frame in
            let (after, run, len, part) =
              recv_frame (take 14 frame) (drop 14 frame) buf head
                (omega (arith, length-drop 14 frame, ltb→lt 14 (length frame) long))
                (omega (arith, ap length whole)) in
            unfold capture_round in rw (rw whole at run, part) refl
        | inr short ↦
            unfold capture_round recv capture_step in
            rw
              (
                short,
                drop_all 14 frame (ground arith),
                slice_to_in_range (overwrite 0 frame buf) 0 (omega arith),
              )
              refl
      ]

module _ {F : Type 0} ⦃fl : Float F⦄ where
  -- A round of `egress_loop`, when `read` answers with the bytes of a packet.
  unfoldable pub egress_round :
      (Sent → Bool)
      → HashMap Text RawEgress
      → HashMap Text Ipv4Addr
      → Answer (List ℕ)
      → List ℕ
      → DataPlane F
      → Run (Option Sent × DataPlane F)
  unfolding slice_to egress_step
  egress_round accepted egress iface_ips (fails e) buf dp = done (none, dp)
  egress_round accepted egress iface_ips (answers []) buf dp = done (none, dp)
  egress_round accepted egress iface_ips (answers (b ∷ bytes)) buf dp = do
    packet ← slice_to (overwrite 0 (b ∷ bytes) buf) (length (b ∷ bytes))
    egress_step accepted egress iface_ips packet dp

  -- A round of the egress loop on a packet of a byte or more that fits its buffer is the step on the
  -- packet, whatever the buffer held.
  pub egress_round-egress_step :
      (accepted : Sent → Bool) (egress : HashMap Text RawEgress) (iface_ips : HashMap Text Ipv4Addr)
      (byte : ℕ) (bytes buf : List ℕ) (dp : DataPlane F)
      → length (byte ∷ bytes) ≤ length buf
      → egress_round accepted egress iface_ips (answers (byte ∷ bytes)) buf dp
        ≡ egress_step accepted egress iface_ips (byte ∷ bytes) dp
  unfolding egress_round
  egress_round-egress_step accepted egress iface_ips byte bytes buf dp fits =
      rw (slice_to-overwrite (byte ∷ bytes) buf fits) refl
