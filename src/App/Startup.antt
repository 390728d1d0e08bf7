-- ===== src/App/Startup.antt =====
-- The sockets and addresses that the data plane starts with.
use netmux.Prelude.{
  ◌≡◌, refl, sym, ap, ◌∙◌, List, [], ◌∷◌, true, Option, none, some, Bool-cases, Option-cases, inl,
  inr, if_pos, if_neg, All, Run, done, panic, Ensures, Ensures-bind,
}
use netmux.Prelude.HashMap
use netmux.Prelude.HashMap.{HashMap, get-insert, get-insert_self}
use netmux.Prelude.Sorting.{In}
use netmux.Text.{Text, Text-discrete}
use netmux.Ipv4.{Ipv4Addr}
use netmux.Error.{Result, ok, err}
use netmux.System.{Kernel, Process}
use netmux.System.Descriptors.{Succeeds}
use netmux.Egress.{RawEgress, RawCapture, open_raw, open_capture}
use netmux.Egress.Sockets.{ifname-open_raw, ifname-open_capture}
use netmux.Policy.{CandidateIface, is_usable}
use netmux.App.Sockets.{Started, add_capture, add_socket, add_sockets, open_candidate, open_egress}

module _ {F : Type 0} (kernel : Kernel) (ipv4 : HashMap Text Ipv4Addr)
    (all : List (CandidateIface F)) where
  -- A name has a socket and an address, or neither; with both, it is the name of a candidate that
  -- is enabled and healthy, the socket is bound to it and the address is the interface's.
  abbrev pub Paired : Text → Option RawEgress → Option Ipv4Addr → Type 0
  Paired name none none = Unit
  Paired name none (some ip) = ⊥
  Paired name (some sock) none = ⊥
  Paired name (some sock) (some ip) =
      (sock.ifname ≡ name)
      × (HashMap.get Text-discrete name ipv4 ≡ some ip)
      × ((c : CandidateIface F) × In c all × (is_usable c ≡ true) × (c.name ≡ name))

  abbrev pub HasSocket : HashMap Text RawEgress → RawCapture → Type 0
  HasSocket egress cap =
      (sock : RawEgress) × (HashMap.get Text-discrete cap.ifname egress ≡ some sock)

  -- Every name is paired, and a capture is bound to an interface that has a socket for sending.
  pub record IsStarted (st : Started) : Type 0 where
    pub paired :
        (name : Text)
        → Paired name
            (HashMap.get Text-discrete name st.egress)
            (HashMap.get Text-discrete name st.iface_ips)
    pub captured : All (HasSocket st.egress) st.captures

  Paired-insert :
      (egress : HashMap Text RawEgress) (ips : HashMap Text Ipv4Addr) (c : CandidateIface F)
      (sock : RawEgress) (ip : Ipv4Addr) (name : Text)
      → In c all
      → is_usable c ≡ true
      → sock.ifname ≡ c.name
      → HashMap.get Text-discrete c.name ipv4 ≡ some ip
      → Paired name (HashMap.get Text-discrete name egress) (HashMap.get Text-discrete name ips)
      → Paired name
          (HashMap.get Text-discrete name (HashMap.insert Text-discrete c.name sock egress))
          (HashMap.get Text-discrete name (HashMap.insert Text-discrete c.name ip ips))
  Paired-insert egress ips c sock ip name i u bound a h =
      rw
        (
          get-insert Text-discrete c.name name sock egress,
          get-insert Text-discrete c.name name ip ips,
        )
        (elim (Text-discrete c.name name) [
          | yes e ↦
              rw
                (
                  if_pos (Text-discrete c.name name) e (some sock)
                      (HashMap.get Text-discrete name egress),
                  if_pos (Text-discrete c.name name) e (some ip)
                      (HashMap.get Text-discrete name ips),
                )
                (
                  bound ∙ e,
                  ap (λ (n : Text). HashMap.get Text-discrete n ipv4) (sym e) ∙ a,
                  (c, i, u, e),
                )
          | no e ↦
              rw
                (
                  if_neg (Text-discrete c.name name) e (some sock)
                      (HashMap.get Text-discrete name egress),
                  if_neg (Text-discrete c.name name) e (some ip)
                      (HashMap.get Text-discrete name ips),
                )
                h
        ])

  -- A socket more keeps the captures' sockets there.
  HasSocket-insert :
      (egress : HashMap Text RawEgress) (name : Text) (sock : RawEgress) (caps : List RawCapture)
      → All (HasSocket egress) caps
      → All (HasSocket (HashMap.insert Text-discrete name sock egress)) caps
  HasSocket-insert egress name sock [] h = tt
  HasSocket-insert egress name sock (cap ∷ caps) ((old, there), h) = (
    rw (get-insert Text-discrete name cap.ifname sock egress)
        (elim (Text-discrete name cap.ifname) [
          | yes e ↦ (
            sock,
            if_pos (Text-discrete name cap.ifname) e (some sock)
                (HashMap.get Text-discrete cap.ifname egress),
          )
          | no e ↦ (
            old,
            if_neg (Text-discrete name cap.ifname) e (some sock)
                  (HashMap.get Text-discrete cap.ifname egress)
                ∙ there,
          )
        ]),
    HasSocket-insert egress name sock caps h,
  )

  IsStarted-add_capture :
      (st : Started) (name : Text) (sock : RawEgress) (m : Run (Result RawCapture × Process))
      → HashMap.get Text-discrete name st.egress ≡ some sock
      → IsStarted st
      → Ensures (Succeeds (λ cap q. RawCapture.ifname cap ≡ name)) m
      → Ensures IsStarted (add_capture st m)
  IsStarted-add_capture st name sock panic there h k = k
  IsStarted-add_capture st name sock (done (err e, p)) there h k = record {
    paired = h.paired;
    captured = h.captured;
  }
  IsStarted-add_capture st name sock (done (ok cap, p)) there h k = record {
    paired = h.paired;
    captured =
        ((sock, ap (λ (n : Text). HashMap.get Text-discrete n st.egress) k ∙ there), h.captured);
  }

  IsStarted-add_sockets :
      (st : Started) (c : CandidateIface F) (ip : Ipv4Addr) (m : Run (Result RawEgress × Process))
      → In c all
      → is_usable c ≡ true
      → HashMap.get Text-discrete c.name ipv4 ≡ some ip
      → IsStarted st
      → Ensures (Succeeds (λ sock q. RawEgress.ifname sock ≡ c.name)) m
      → Ensures IsStarted (add_sockets kernel c.name ip st m)
  IsStarted-add_sockets st c ip panic i u a h k = k
  IsStarted-add_sockets st c ip (done (err e, p)) i u a h k = record {
    paired = h.paired;
    captured = h.captured;
  }
  IsStarted-add_sockets st c ip (done (ok sock, p)) i u a h k =
      let next = add_socket kernel c.name ip st sock p in
      IsStarted-add_capture next c.name sock (open_capture kernel c.name next.process)
        (get-insert_self Text-discrete c.name sock st.egress)
        (record {
          paired =
              λ name. Paired-insert st.egress st.iface_ips c sock ip name i u k a (h.paired name);
          captured = HasSocket-insert st.egress c.name sock st.captures h.captured;
        })
        (ifname-open_capture kernel c.name next.process)

  IsStarted-open_candidate :
      (c : CandidateIface F) (st : Started)
      → In c all
      → IsStarted st
      → Ensures IsStarted (open_candidate kernel ipv4 c st)
  unfolding open_candidate
  IsStarted-open_candidate c st i h = elim (Bool-cases (is_usable c)) [
    | inr off ↦ rw off h
    | inl on ↦ rw on (elim (Option-cases (HashMap.get Text-discrete c.name ipv4)) [
      | inl a ↦ rw a h
      | inr (ip, a) ↦ rw a (
          IsStarted-add_sockets st c ip (open_raw kernel c.name st.process) i on a h
            (ifname-open_raw kernel c.name st.process))
    ])
  ]

  IsStarted-open_egress :
      (l : List (CandidateIface F)) (st : Started)
      → ((c : CandidateIface F) → In c l → In c all)
      → IsStarted st
      → Ensures IsStarted (open_egress kernel ipv4 l st)
  unfolding open_egress
  IsStarted-open_egress [] st sub h = h
  IsStarted-open_egress (c ∷ l) st sub h =
      Ensures-bind IsStarted IsStarted (open_candidate kernel ipv4 c st) _
        (IsStarted-open_candidate c st (sub c (inl refl)) h)
        (λ next k. IsStarted-open_egress l next (λ i m. sub i (inr m)) k)

-- At the start every name has both a raw socket and an address, or neither; with both, it is the
-- name of an enabled and healthy candidate, the socket is bound to it, and the address is the one
-- that the interface has. A capture thread runs only for an interface with such a socket.
pub open_egress-IsStarted :
    {F : Type 0} (kernel : Kernel) (ipv4 : HashMap Text Ipv4Addr)
    (candidates : List (CandidateIface F)) (p : Process)
    → Ensures (IsStarted kernel ipv4 candidates) (
        open_egress kernel ipv4 candidates
          (record { egress = []; iface_ips = []; captures = []; process = p }))
open_egress-IsStarted kernel ipv4 candidates p =
    IsStarted-open_egress kernel ipv4 candidates candidates _ (λ c i. i)
      (record { paired = λ name. unfold HashMap.get in tt; captured = tt })
