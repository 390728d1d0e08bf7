-- ===== src/App/Sockets.antt =====
-- `start_data_plane`: the raw sockets of the candidates.
use netmux.Prelude.{
  List, [], ◌∷◌, not, ◌&&◌, if◌then◌else◌, Option, none, some, Run, done, panic, ◌>>=◌,
}
use netmux.Prelude.HashMap
use netmux.Prelude.HashMap.{HashMap}
use netmux.Text.{Text, Text-discrete}
use netmux.Ipv4.{Ipv4Addr}
use netmux.Error.{Result, ok, err}
use netmux.System.{Kernel, Process}
use netmux.Egress.{RawEgress, RawCapture, open_raw, open_capture, drop_raw}
use netmux.Policy.{CandidateIface}

-- The maps that the egress thread is given, the sockets of the capture threads, and the process.
pub record Started : Type 0 where
  pub egress : HashMap Text RawEgress
  pub iface_ips : HashMap Text Ipv4Addr
  pub captures : List RawCapture
  pub process : Process

-- `insert` drops the socket that it replaces.
unfoldable pub replaced : Kernel → Option RawEgress → Process → Process
replaced kernel none p = p
replaced kernel (some old) p = drop_raw kernel old p

abbrev pub add_capture : Started → Run (Result RawCapture × Process) → Run Started
add_capture st panic = panic
add_capture st (done (err e, p)) = done (record st { process = p })
add_capture st (done (ok cap, p)) = done (record st { captures = cap ∷ st.captures; process = p })

abbrev pub add_socket : Kernel → Text → Ipv4Addr → Started → RawEgress → Process → Started
add_socket kernel name ip st sock p = record st {
  egress = HashMap.insert Text-discrete name sock st.egress;
  iface_ips = HashMap.insert Text-discrete name ip st.iface_ips;
  process = replaced kernel (HashMap.get Text-discrete name st.egress) p;
}

abbrev pub add_sockets :
    Kernel → Text → Ipv4Addr → Started → Run (Result RawEgress × Process) → Run Started
add_sockets kernel name ip st panic = panic
add_sockets kernel name ip st (done (err e, p)) = done (record st { process = p })
add_sockets kernel name ip st (done (ok sock, p)) =
    let st = add_socket kernel name ip st sock p in
    add_capture st (open_capture kernel name st.process)

module _ {F : Type 0} (kernel : Kernel) (ipv4 : HashMap Text Ipv4Addr) where
  -- One candidate, with the addresses of the interfaces.
  unfoldable pub open_candidate : CandidateIface F → Started → Run Started
  unfolding replaced
  open_candidate c st =
      if not (c.policy.enabled && c.healthy)
      then done st
      else (elim (HashMap.get Text-discrete c.name ipv4) [
        | none ↦ done st
        | some ip ↦ add_sockets kernel c.name ip st (open_raw kernel c.name st.process)
      ])

  -- The loop over the candidates.
  unfoldable pub open_egress : List (CandidateIface F) → Started → Run Started
  unfolding open_candidate
  open_egress [] st = done st
  open_egress (c ∷ rest) st = do st ← open_candidate c st; open_egress rest st
