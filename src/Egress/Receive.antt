-- ===== src/Egress/Receive.antt =====
-- `RawCapture::recv`: the Ethernet header is stripped.
use netmux.Prelude.{
  ℕ, ◌≡◌, ◌+◌, ◌-◌, ◌≤◌, ◌<◌, List, ◌++◌, ltb, lt→ltb, if◌then◌else◌, length, length-append, arith,
  ap, Run, done, ◌>>=◌, overwrite, slice_to,
}
use netmux.Prelude.Buffers.{copy_within, slice_to-copy_within}
use netmux.System.{Answer, fails, answers}

-- `RawCapture::recv` into a buffer, when `recv` answers with the bytes of a frame: the length that
-- is returned and the buffer.
unfoldable pub recv : Answer (List ℕ) → List ℕ → Run (Answer ℕ × List ℕ)
unfolding copy_within
recv (fails e) buf = done (fails e, buf)
recv (answers frame) buf =
    let n = length frame in
    let filled = overwrite 0 frame buf in
    if ltb 14 n
    then (do moved ← copy_within 14 n filled; done (answers (n - 14), moved))
    else done (answers 0, filled)

-- A frame that fits the buffer, of an Ethernet header of 14 bytes and a packet of one or more, is
-- received as the packet: its length is returned, and the buffer, as long as before, starts with it.
pub recv_frame :
    (header packet buf : List ℕ)
    → length header ≡ 14
    → 0 < length packet
    → length (header ++ packet) ≤ length buf
    → (after : List ℕ) × (recv (answers (header ++ packet)) buf
        ≡ done (answers (length packet), after))
      × (length after ≡ length buf)
      × (slice_to after (length packet) ≡ done packet)
recv_frame header packet buf h pos fits =
    let (after, moved, len, slice) = slice_to-copy_within header packet buf fits in
    let n : length (header ++ packet) ≡ length header + length packet =
      length-append header packet in
    let moved_14 : copy_within 14 (length (header ++ packet)) (overwrite 0 (header ++ packet) buf)
        ≡ done after =
      rw h at moved in
    (
      after,
      unfold recv in
          rw (lt→ltb 14 (length (header ++ packet)) (omega arith), moved_14)
            (ap (λ (k : ℕ). done (answers k, after)) (omega arith)),
      len,
      slice,
    )
