-- ===== src/View/Palette.antt =====
-- `Theme` of crates/netmux-app/src/main.rs and its choice. A colour is the number that `rgb` is given.
use netmux.Prelude.{ℕ, Bool, true, false}
use netmux.App.{ThemeMode, dark, light, system}

pub record Theme : Type 0 where
  pub bg : ℕ
  pub sidebar : ℕ
  pub panel : ℕ
  pub panel_hover : ℕ
  pub panel_active : ℕ
  pub border : ℕ
  pub text : ℕ
  pub text_muted : ℕ
  pub text_on_accent : ℕ
  pub accent : ℕ
  pub accent_bright : ℕ
  pub success : ℕ
  pub success_bright : ℕ
  pub danger : ℕ
  pub idle : ℕ
  pub track : ℕ
  pub bar_tx : ℕ
  pub bar_rx : ℕ
  pub bar_neutral : ℕ

abbrev pub dark_theme : Theme
dark_theme = record {
  bg = 0x0d1117;
  sidebar = 0x010409;
  panel = 0x161b22;
  panel_hover = 0x1c2128;
  panel_active = 0x111d2e;
  border = 0x2d333b;
  text = 0xe6edf3;
  text_muted = 0x8b949e;
  text_on_accent = 0xffffff;
  accent = 0x1f6feb;
  accent_bright = 0x2f81f7;
  success = 0x238636;
  success_bright = 0x3fb950;
  danger = 0xf85149;
  idle = 0x6e7681;
  track = 0x21262d;
  bar_tx = 0x58a6ff;
  bar_rx = 0x3fb950;
  bar_neutral = 0x8b949e;
}

abbrev pub light_theme : Theme
light_theme = record {
  bg = 0xffffff;
  sidebar = 0xf6f8fa;
  panel = 0xffffff;
  panel_hover = 0xf3f4f6;
  panel_active = 0xeff3fb;
  border = 0xd0d7de;
  text = 0x1f2328;
  text_muted = 0x656d76;
  text_on_accent = 0xffffff;
  accent = 0x1f6feb;
  accent_bright = 0x0969da;
  success = 0x1a7f37;
  success_bright = 0x1f8834;
  danger = 0xcf222e;
  idle = 0x6e7781;
  track = 0xeaeef2;
  bar_tx = 0x0969da;
  bar_rx = 0x1a7f37;
  bar_neutral = 0x6e7781;
}

-- The palette of a pass: `window_dark` says whether the window's appearance is a dark one.
abbrev pub active_theme : ThemeMode → Bool → Theme
active_theme dark window_dark = dark_theme
active_theme light window_dark = light_theme
active_theme system true = dark_theme
active_theme system false = light_theme
