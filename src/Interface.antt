-- ===== src/Interface.antt =====
-- `Interface`, `InterfaceKind`, `classify` and `enumerate` of crates/netmux-core/src/interface.rs.
use netmux.Prelude.{ℕ, ◌%◌, Bool, ◌||◌, ◌==◌, if◌then◌else◌, Option, none, some, List, [], ◌∷◌}
use netmux.Prelude.Sorting.{sort_by}
use netmux.Text.{Text, text, starts_with, text_le, Text-discrete}
use netmux.Error.{Result, ok, err, io}
use netmux.Prelude.HashMap
use netmux.Prelude.HashMap.{HashMap}
use netmux.Sysfs.{SysEntry, read_u64, read_bool, trim, trim_0x, text_eq, from_str_radix, parse_file}

pub data InterfaceKind : Type 0 where
  ethernet wifi cellular loopback virtual other : InterfaceKind

pub record Interface : Type 0 where
  pub name : Text
  pub display_name : Text
  pub mac : Option Text
  pub is_up : Bool
  pub carrier : Bool
  pub kind : InterfaceKind
  pub rx_bytes : ℕ
  pub tx_bytes : ℕ

unfoldable pub classify : Text → Text → InterfaceKind
classify name operstate =
    let is = starts_with name in
    if is (text "lo")
    then loopback
    else if is (text "wl") || (is (text "wlan") || is (text "wifi"))
    then wifi
    else if is (text "wwan") || (is (text "rmnet") || (is (text "usb") || is (text "eth-usb")))
    then cellular
    else if is (text "en") || (is (text "eth") || is (text "em"))
    then ethernet
    else if is (text "virbr")
        || (is (text "br")
            || (is (text "docker")
                || (is (text "tun")
                    || (is (text "tap")
                        || (is (text "veth")
                            || (is (text "bond")
                                || (is (text "netmux")
                                    || (is (text "vpn")
                                        || (is (text "utun") || is (text "tailscale"))))))))))
    then virtual
    else if is (text "lo")
    then loopback
    else other

-- The `IFF_UP` bit of the flags file, a hexadecimal number.
unfoldable pub read_is_up : Option Text → Bool
read_is_up flags = parse_file (λ s. from_str_radix 16 (trim_0x (trim s))) flags % 2 == 1

-- The address file, unless it is empty or all zeros.
unfoldable pub read_mac : Option Text → Option Text
read_mac none = none
read_mac (some s) =
    let mac = trim s in
    if text_eq mac [] || text_eq mac (text "00:00:00:00:00:00") then none else some mac

abbrev pub read_operstate : Option Text → Text
read_operstate none = text "unknown"
read_operstate (some s) = trim s

unfoldable pub read_interface : SysEntry → Text → Interface
unfolding read_is_up read_mac
read_interface e name = record {
  name = name;
  display_name = name;
  mac = read_mac e.address;
  is_up = read_is_up e.flags;
  carrier = read_bool e.carrier;
  kind = classify name (read_operstate e.operstate);
  rx_bytes = read_u64 e.rx_bytes;
  tx_bytes = read_u64 e.tx_bytes;
}

unfoldable pub read_interfaces : List SysEntry → List Interface
read_interfaces [] = []
read_interfaces (e ∷ es) = elim e.name [
  | none ↦ read_interfaces es
  | some name ↦ read_interface e name ∷ read_interfaces es
]

abbrev pub by_interface_name : Interface → Interface → Bool
by_interface_name a b = text_le a.name b.name

-- `enumerate`: the interfaces in the order of their names, or an error if the directory cannot be
-- read. `interface::enumerate().unwrap_or_default()` is the empty list then.
unfoldable pub enumerate : Option (List SysEntry) → Result (List Interface)
enumerate none = err (io (text "reading /sys/class/net") [])
enumerate (some entries) = ok (sort_by by_interface_name (read_interfaces entries))

-- The loop of `counter_map`.
unfoldable pub count_entries : List SysEntry → HashMap Text (ℕ × ℕ) → HashMap Text (ℕ × ℕ)
count_entries [] counters = counters
count_entries (e ∷ entries) counters = count_entries entries (elim e.name [
  | none ↦ counters
  | some name ↦
      HashMap.insert Text-discrete name (read_u64 e.rx_bytes, read_u64 e.tx_bytes) counters
])

-- `counter_map`
unfoldable pub counter_map : Option (List SysEntry) → HashMap Text (ℕ × ℕ)
unfolding count_entries
counter_map none = []
counter_map (some entries) = count_entries entries []
