-- ===== src/Egress/Sockets.antt =====
-- The descriptors that opening a socket leaves open.
use netmux.Prelude.{◌≡◌, refl, ◌∷◌, false, Ensures}
use netmux.Text.{Text}
use netmux.System.{answers, raw_inet, raw_packet, Kernel, Process, has_nul}
use netmux.System.Descriptors.{
  Keeps, Holds, Acquired, Keeps-resume, Keeps-acquire, Keeps-checked, Keeps-cstring, fds-close,
  Succeeds, Succeeds-resume, Returns-acquire, Returns-checked, Returns-cstring,
}
use netmux.Egress.{RawEgress, RawCapture, open_raw, open_capture, drop_raw, drop_capture}

-- The socket is the one the kernel answered with, for the interface that was asked for, and dropping
-- it leaves the descriptors as they were before it was opened.
pub record IsRaw (kernel : Kernel) (ifname : Text) (before : Process) (sock : RawEgress)
    (after : Process) : Type 0 where
  pub named : sock.ifname ≡ ifname
  pub answered : kernel.socket before.fds raw_inet ≡ answers sock.fd
  pub opened : after.fds ≡ sock.fd ∷ before.fds
  pub dropped : (drop_raw kernel sock after).fds ≡ before.fds

pub record IsCapture (kernel : Kernel) (ifname : Text) (before : Process) (cap : RawCapture)
    (after : Process) : Type 0 where
  pub named : cap.ifname ≡ ifname
  pub answered : kernel.socket before.fds raw_packet ≡ answers cap.fd
  pub opened : after.fds ≡ cap.fd ∷ before.fds
  pub dropped : (drop_capture kernel cap after).fds ≡ before.fds

module _ (kernel : Kernel) (ifname : Text) (p : Process) (plain : has_nul ifname ≡ false) where
  Keeps-open_raw : Ensures (Keeps p.fds (IsRaw kernel ifname p)) (open_raw kernel ifname p)
  unfolding open_raw drop_raw
  Keeps-open_raw =
      Keeps-resume p.fds (Acquired p (kernel.socket p.fds raw_inet)) _ _ _ (Keeps-acquire _ _ p)
        (λ fd q (asked, top).
          Keeps-resume p.fds (Holds p.fds fd) _ _ _ (Keeps-checked p.fds kernel fd _ _ q top)
            (λ u q top.
              Keeps-resume p.fds (Holds p.fds fd) _ _ _ (Keeps-cstring p.fds _ _ ifname q plain top)
                (λ cname q top.
                  Keeps-resume p.fds (Holds p.fds fd) _ _ _
                    (Keeps-checked p.fds kernel fd _ _ q top)
                    (λ u q top. record {
                      named = refl;
                      answered = asked;
                      opened = top;
                      dropped = fds-close kernel fd q p.fds top;
                    }))))

  Keeps-open_capture :
      Ensures (Keeps p.fds (IsCapture kernel ifname p)) (open_capture kernel ifname p)
  unfolding open_capture drop_capture
  Keeps-open_capture =
      Keeps-resume p.fds (Acquired p (kernel.socket p.fds raw_packet)) _ _ _ (Keeps-acquire _ _ p)
        (λ fd q (asked, top).
          Keeps-resume p.fds (Holds p.fds fd) _ _ _ (Keeps-cstring p.fds _ _ ifname q plain top)
            (λ cname q top.
              Keeps-resume p.fds (Holds p.fds fd) _ _ _ (Keeps-checked p.fds kernel fd _ _ q top)
                (λ ifindex q top.
                  Keeps-resume p.fds (Holds p.fds fd) _ _ _
                    (Keeps-checked p.fds kernel fd _ _ q top)
                    (λ u q top. record {
                      named = refl;
                      answered = asked;
                      opened = top;
                      dropped = fds-close kernel fd q p.fds top;
                    }))))

  -- Opening either socket for a name without a NUL byte returns. On success one descriptor more is
  -- open, which dropping the socket closes; on every error no descriptor more is open.
  pub open-Keeps :
      Ensures (Keeps p.fds (IsRaw kernel ifname p)) (open_raw kernel ifname p)
      × Ensures (Keeps p.fds (IsCapture kernel ifname p)) (open_capture kernel ifname p)
  open-Keeps = (Keeps-open_raw, Keeps-open_capture)

-- A socket that is opened is for the interface that was asked for, whatever its name.
pub ifname-open_raw :
    (kernel : Kernel) (ifname : Text) (p : Process)
    → Ensures (Succeeds (λ sock q. RawEgress.ifname sock ≡ ifname)) (open_raw kernel ifname p)
unfolding open_raw
ifname-open_raw kernel ifname p = Succeeds-resume _ _ _ (Returns-acquire _ _ p) (λ fd p.
    Succeeds-resume _ _ _ (Returns-checked kernel fd _ _ p) (λ u p.
      Succeeds-resume _ _ _ (Returns-cstring _ ifname p)
        (λ cname p. Succeeds-resume _ _ _ (Returns-checked kernel fd _ _ p) (λ u p. refl))))

pub ifname-open_capture :
    (kernel : Kernel) (ifname : Text) (p : Process)
    → Ensures (Succeeds (λ cap q. RawCapture.ifname cap ≡ ifname)) (open_capture kernel ifname p)
unfolding open_capture
ifname-open_capture kernel ifname p = Succeeds-resume _ _ _ (Returns-acquire _ _ p) (λ fd p.
    Succeeds-resume _ _ _ (Returns-cstring _ ifname p) (λ cname p.
      Succeeds-resume _ _ _ (Returns-checked kernel fd _ _ p)
        (λ u p. Succeeds-resume _ _ _ (Returns-checked kernel fd _ _ p) (λ u p. refl))))
