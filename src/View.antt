-- ===== src/View.antt =====
-- What the views of crates/netmux-app/src/main.rs show and offer: the palettes, the labels, the
-- numbers of the dashboard and the controls. The layout is not modelled.
pub mod Palette
pub mod Controls
pub mod Reach
use netmux.Prelude.{ℕ, ◌+◌, List, [], ◌∷◌, ◌++◌, Bool, true, false, if◌then◌else◌, u64}
use netmux.Text.{Text, text, utf8}
use netmux.Float.{Float}
use netmux.Interface.{InterfaceKind, ethernet, wifi, cellular, loopback, virtual, other}
use netmux.Policy.{CandidateIface}
use netmux.Aggregator.{Mode, tunnelling, simulation}
use netmux.App.{ThemeMode, dark, light, system, Tab, dashboard, interfaces, policy, statistics}

-- `ThemeMode::label`
abbrev pub theme_label : ThemeMode → Text
theme_label dark = utf8 "暗色"
theme_label light = utf8 "亮色"
theme_label system = utf8 "跟随系统"

-- `Mode::label`
abbrev pub mode_label : Mode → Text
mode_label tunnelling = utf8 "隧道聚合 (TUN)"
mode_label simulation = utf8 "模拟演示 (Simulation)"

abbrev pub kind_label : InterfaceKind → Text
kind_label ethernet = utf8 "以太网"
kind_label wifi = text "Wi-Fi"
kind_label cellular = utf8 "移动数据"
kind_label loopback = utf8 "回环"
kind_label virtual = utf8 "虚拟"
kind_label other = utf8 "其他"

abbrev pub tab_title : Tab → Text
tab_title dashboard = utf8 "仪表盘"
tab_title interfaces = utf8 "接口监控"
tab_title policy = utf8 "策略配置"
tab_title statistics = utf8 "性能统计"

-- The icon of the theme button.
abbrev pub theme_icon : ThemeMode → Text
theme_icon dark = utf8 "🌙"
theme_icon light = utf8 "☀" ++ 0xef ∷ 0xb8 ∷ 0x8f ∷ []
theme_icon system = utf8 "🖥"

-- The label of the pill in the header.
abbrev pub pill_label : Bool → Text
pill_label true = utf8 "● 聚合运行中"
pill_label false = utf8 "○ 聚合已暂停"

module _ {F : Type 0} ⦃fl : Float F⦄ where
  -- The largest sum of rates, and at least 1.
  abbrev pub fastest : F → List (CandidateIface F) → F
  fastest best [] = best
  fastest best (c ∷ cs) = fastest (fl.larger best (fl.add c.tx_bps c.rx_bps)) cs

  unfoldable pub max_speed : List (CandidateIface F) → F
  max_speed cs = fl.larger (fastest (fl.of_u64 0) cs) (fl.of_u64 1)

  -- The interfaces in use and those that are healthy, and the load in bits, over the candidates.
  unfoldable pub summarise : List (CandidateIface F) → ℕ × ℕ × F → ℕ × ℕ × F
  summarise [] st = st
  summarise (c ∷ cs) (used, healthy, total_cap) = summarise cs (
    if c.policy.enabled then u64 (used + 1) else used,
    if c.healthy then u64 (healthy + 1) else healthy,
    if c.policy.enabled
        then fl.add total_cap (fl.mul (fl.add c.tx_bps c.rx_bps) (fl.of_u64 8))
        else total_cap,
  )
